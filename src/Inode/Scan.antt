-- ===== src/Inode/Scan.antt =====
-- What the loop of `iget` finds.
use os.Prelude.{
  ℕ, zero, suc, ◌+◌, ◌≤◌, ◌<◌, ◌≡◌, refl, inl, inr, true, false, Option, none, some, ◌==◌, arith,
  ◌⊎◌, Bool-cases, if_split,
}
use os.Inode.{Inode, Icache, Seen, cached, absent, is_cached, remember, iget_loop}

-- Among the entries from `i` up to `top`, with an empty entry perhaps seen before.
unfoldable pub IsSeen : ℕ → ℕ → Icache → Option ℕ → ℕ → ℕ → Seen → Type 0
IsSeen dev inum t empty i top (cached k) = (k < top) × (is_cached dev inum (t k) ≡ true)
IsSeen dev inum t empty i top (absent none) =
    (empty ≡ none) × ((k : ℕ) → i ≤ k → k < top → ((t k).ref == 0) ≡ false)
IsSeen dev inum t empty i top (absent (some e)) =
    ((k : ℕ) → i ≤ k → k < top → is_cached dev inum (t k) ≡ false)
    × ((empty ≡ some e) ⊎ ((e < top) × ((t e).ref ≡ 0)))

remember-some :
    (empty : Option ℕ) (ip : Inode) (i e : ℕ)
    → remember empty ip i ≡ some e
    → (empty ≡ some e) ⊎ ((i ≡ e) × (ip.ref ≡ 0))
remember-some (some x) ip i e h = inl h
remember-some none ip i e h = elim (Bool-cases (ip.ref == 0)) [
  | inl free ↦ inr (ground (arith, h, free), ground arith)
  | inr used ↦ absurd (ground (arith, h, used))
]

remember-none :
    (empty : Option ℕ) (ip : Inode) (i : ℕ)
    → remember empty ip i ≡ none
    → (empty ≡ none) × ((ip.ref == 0) ≡ false)
remember-none (some x) ip i h = absurd (ground (arith, h))
remember-none none ip i h = elim (Bool-cases (ip.ref == 0)) [
  | inl free ↦ absurd (ground (arith, h, free))
  | inr used ↦ (refl, used)
]

IsSeen-earlier :
    (dev inum : ℕ) (t : Icache) (empty : Option ℕ) (i top : ℕ) (s : Seen)
    → i < top
    → is_cached dev inum (t i) ≡ false
    → IsSeen dev inum t (remember empty (t i) i) (i + 1) top s
    → IsSeen dev inum t empty i top s
unfolding IsSeen
IsSeen-earlier dev inum t empty i top (cached k) l miss h = h
IsSeen-earlier dev inum t empty i top (absent none) l miss (none_yet, full) =
    let (e, used) = remember-none empty (t i) i none_yet in
    (
      e,
      λ k a b. elim (Bool-cases (i == k)) [
        | inl here ↦ ground (arith, used)
        | inr later ↦ full k (ground arith) b
      ],
    )
IsSeen-earlier dev inum t empty i top (absent (some e)) l miss (others, from) = (
  λ k a b. elim (Bool-cases (i == k)) [
    | inl here ↦ let same : i ≡ k = ground arith in rw (← same) miss
    | inr later ↦ others k (ground arith) b
  ],
  elim from [
    | inr found ↦ inr found
    | inl old ↦ elim (remember-some empty (t i) i e old) [
      | inl before ↦ inl before
      | inr (here, free) ↦ inr (rw (← here) l, rw (← here) free)
    ]
  ],
)

nothing-IsSeen :
    (dev inum : ℕ) (t : Icache) (empty : Option ℕ) (i : ℕ)
    → IsSeen dev inum t empty i (i + 0) (absent empty)
unfolding IsSeen
nothing-IsSeen dev inum t none i = (refl, λ k a b. absurd (omega arith))
nothing-IsSeen dev inum t (some e) i = (λ k a b. absurd (omega arith), inl refl)

pub iget_loop-IsSeen :
    (dev inum : ℕ) (t : Icache) (n i : ℕ) (empty : Option ℕ)
    → IsSeen dev inum t empty i (i + n) (iget_loop dev inum t n i empty)
unfolding iget_loop IsSeen
iget_loop-IsSeen dev inum t zero i empty = nothing-IsSeen dev inum t empty i
iget_loop-IsSeen dev inum t (suc n) i empty =
    if_split (IsSeen dev inum t empty i (i + suc n)) (is_cached dev inum (t i))
      (λ hit. (omega arith, hit))
      (λ miss. IsSeen-earlier dev inum t empty i (i + suc n) _ (omega arith) miss (
        let top : i + 1 + n ≡ i + suc n = omega arith in
        rw (← top) (iget_loop-IsSeen dev inum t n (i + 1) (remember empty (t i) i))))
