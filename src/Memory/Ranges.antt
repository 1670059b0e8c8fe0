-- ===== src/Memory/Ranges.antt =====
-- What `memset`, `memmove` and `memcmp` do to whole ranges.
use mathlib.Core.Path.{subst}
use os.Prelude.{
  ℕ, zero, suc, ◌+◌, ◌-◌, ◌*◌, ◌/◌, ◌%◌, ◌^◌, ◌≤◌, ◌<◌, ◌≡◌, refl, sym, ◌∙◌, ap, ◌≢◌, ◌⊎◌, ◌↔◌, inl,
  inr, true, false, ◌&&◌, ◌==◌, ltb, if◌then◌else◌, ℤ, pos, arith, Bool-cases,
}
use os.Memory.{
  Memory, store, stosb, store_word, stosl, word_of, memset, difference, memcmp, forward, backward,
  memmove,
}

-- Only the `n` bytes from `d` on are written, with the bytes of `f`.
pub record Written (d n : ℕ) (f : ℕ → ℕ) (m m' : Memory) : Type 0 where
  pub inside : (i : ℕ) → i < n → m' (d + i) ≡ f i
  pub outside : (a : ℕ) → (a < d) ⊎ (d + n ≤ a) → m' a ≡ m a

pub store_here : (a b v : ℕ) (m : Memory) → a ≡ b → store a v m b ≡ v
store_here a b v m e = ground (arith, e)

pub store_else : (a b v : ℕ) (m : Memory) → a ≢ b → store a v m b ≡ m b
store_else a b v m ne = ground (arith, ne)

-- A byte is written, and then the bytes after it.
Written-next :
    (d n k size : ℕ) (f g : ℕ → ℕ) (m m1 m' : Memory)
    → size ≡ k + n
    → Written d k f m m1
    → Written (d + k) n g m1 m'
    → ((i : ℕ) → i < n → g i ≡ f (k + i))
    → Written d size f m m'
Written-next d n k size f g m m1 m' e w r same = record {
  inside = λ i l. elim (Bool-cases (ltb i k)) [
    | inl b ↦ r.outside (d + i) (inl (ground arith)) ∙ w.inside i (ground arith)
    | inr b ↦
        let there : d + k + (i - k) ≡ d + i = ground arith in
        let index : k + (i - k) ≡ i = ground arith in
        ap m' (sym there)
        ∙ r.inside (i - k) (ground arith)
        ∙ same (i - k) (ground arith)
        ∙ ap f index
  ];
  outside = λ a o. elim o [
    | inl l ↦ r.outside a (inl (omega arith)) ∙ w.outside a (inl l)
    | inr l ↦ r.outside a (inr (omega arith)) ∙ w.outside a (inr (omega arith))
  ];
}

stosb-Written : (d v n : ℕ) (m : Memory) → Written d n (λ i. v % 256) m (stosb d v n m)
unfolding stosb
stosb-Written d v zero m = record { inside = λ i l. absurd (omega arith); outside = λ a o. refl }
stosb-Written d v (suc n) m =
    Written-next d n 1 (suc n) _ _ m (store d (v % 256) m) _ (omega arith)
      (record { inside = λ i l. ground arith; outside = λ a o. ground arith })
      (stosb-Written (d + 1) v n (store d (v % 256) m)) (λ i l. refl)

-- The bytes of a word made of one byte.
bytes_of_word :
    (b : ℕ)
    → b < 256
    → (word_of b % 256 ≡ b)
      × (word_of b / 2 ^ 8 % 256 ≡ b)
      × (word_of b / 2 ^ 16 % 256 ≡ b)
      × (word_of b / 2 ^ 24 % 256 ≡ b)
bytes_of_word b l = (omega arith, omega arith, omega arith, omega arith)

store_word-Written :
    (d b : ℕ) (m : Memory) → b < 256 → Written d 4 (λ i. b) m (store_word d (word_of b) m)
store_word-Written d b m l =
    let (b0, b1, b2, b3) = bytes_of_word b l in
    rw (b0, b1, b2, b3) (record { inside = λ i l. ground arith; outside = λ a o. ground arith })

stosl-Written :
    (d b n : ℕ) (m : Memory) → b < 256 → Written d (n * 4) (λ i. b) m (stosl d (word_of b) n m)
unfolding stosl
stosl-Written d b zero m l = record { inside = λ i l. absurd (omega arith); outside = λ a o. refl }
stosl-Written d b (suc n) m l =
    Written-next d (n * 4) 4 (suc n * 4) _ _ m (store_word d (word_of b) m) _ (omega arith)
      (store_word-Written d b m l) (stosl-Written (d + 4) b n (store_word d (word_of b) m) l)
      (λ i l. refl)

-- `memset` writes the low byte of `c` to exactly the `n` bytes from `dst` on, whether it goes by
-- words or by bytes.
pub memset-Written : (dst c n : ℕ) (m : Memory) → Written dst n (λ i. c % 256) m (memset dst c n m)
unfolding memset
memset-Written dst c n m = elim (Bool-cases (dst % 4 == 0 && n % 4 == 0)) [
  | inl e ↦
      let size : n / 4 * 4 ≡ n = ground arith in
      rw e (
        subst (λ k. Written dst k (λ i. c % 256) m (stosl dst (word_of (c % 256)) (n / 4) m)) size
          (stosl-Written dst (c % 256) (n / 4) m (omega arith)))
  | inr e ↦ rw e (stosb-Written dst c n m)
]

forward-Written :
    (d s n : ℕ) (m : Memory)
    → (d ≤ s) ⊎ (s + n ≤ d)
    → Written d n (λ i. m (s + i)) m (forward d s n m)
unfolding forward
forward-Written d s zero m o = record {
  inside = λ i l. absurd (omega arith);
  outside = λ a o. refl;
}
forward-Written d s (suc n) m o =
    let first : Written d 1 (λ i. m (s + i)) m (store d (m s) m) = record {
      inside = λ i l.
          let none_yet : i ≡ 0 = omega arith in
          store_here d (d + i) (m s) m (omega arith) ∙ ap m (omega arith);
      outside = λ a o. ground arith;
    } in
    Written-next d n 1 (suc n) _ _ m (store d (m s) m) _ (omega arith) first
      (forward-Written (d + 1) (s + 1) n (store d (m s) m)
        (elim o [ inl l ↦ inl (omega arith) | inr l ↦ inr (omega arith) ]))
      (λ i l.
        store_else d (s + 1 + i) (m s) m (elim o [ inl b ↦ omega arith | inr b ↦ omega arith ])
        ∙ ap m (omega arith))

backward-Written :
    (d s n : ℕ) (m : Memory) → s ≤ d → Written d n (λ i. m (s + i)) m (backward d s n m)
unfolding backward
backward-Written d s zero m o = record {
  inside = λ i l. absurd (omega arith);
  outside = λ a o. refl;
}
backward-Written d s (suc n) m o =
    let r = backward-Written d s n (store (d + n) (m (s + n)) m) o in
    record {
      inside = λ i l. elim (Bool-cases (i == n)) [
        | inl e ↦
            let last : i ≡ n = ground arith in
            r.outside (d + i) (inr (omega arith))
            ∙ store_here (d + n) (d + i) (m (s + n)) m (omega arith)
            ∙ ap m (omega arith)
        | inr e ↦
            r.inside i (ground arith) ∙ store_else (d + n) (s + i) (m (s + n)) m (ground arith)
      ];
      outside = λ a out. elim out [
        | inl l ↦ r.outside a (inl l) ∙ ground arith
        | inr l ↦ r.outside a (inr (omega arith)) ∙ ground arith
      ];
    }

apart : (d s n : ℕ) → (ltb s d && ltb d (s + n)) ≡ false → (d ≤ s) ⊎ (s + n ≤ d)
apart d s n e = elim (Bool-cases (ltb s d)) [
  | inl above ↦ inr (ground (arith, e))
  | inr below ↦ inl (ground arith)
]

-- `memmove` makes the `n` bytes from `dst` on what the `n` bytes from `src` on were, even where the
-- ranges overlap, and writes no others.
pub memmove-Written :
    (dst src n : ℕ) (m : Memory) → Written dst n (λ i. m (src + i)) m (memmove dst src n m)
unfolding memmove
memmove-Written dst src n m = elim (Bool-cases (ltb src dst && ltb dst (src + n))) [
  | inl e ↦ rw e (backward-Written dst src n m (ground arith))
  | inr e ↦ rw e (forward-Written dst src n m (apart dst src n e))
]

difference_zero : (a b : ℕ) → difference a b ≡ pos 0 → a ≡ b
difference_zero a b e = ground (arith, e)

compare_first :
    (a b : ℕ) (rest : ℤ)
    → (if a == b then rest else difference a b) ≡ pos 0
    → (a ≡ b) × (rest ≡ pos 0)
compare_first a b rest e = elim (Bool-cases (a == b)) [
  | inl same ↦ (ground arith, ground (arith, e, same))
  | inr unlike ↦ absurd (ground (arith, unlike, e))
]

-- `memcmp` gives 0 exactly where the two ranges hold the same bytes.
pub memcmp_lem :
    (m : Memory) (s1 s2 n : ℕ)
    → (memcmp m s1 s2 n ≡ pos 0) ↔ ((i : ℕ) → i < n → m (s1 + i) ≡ m (s2 + i))
unfolding memcmp
memcmp_lem m s1 s2 zero = (λ e i l. absurd (omega arith), λ h. refl)
memcmp_lem m s1 s2 (suc n) =
    let (there, back) = memcmp_lem m (s1 + 1) (s2 + 1) n in
    let next : (s i : ℕ) → s + 1 + i ≡ s + (i + 1) = λ s i. omega arith in
    (
      λ e i l.
          let (same, rest) = compare_first (m s1) (m s2) (memcmp m (s1 + 1) (s2 + 1) n) e in
          elim (Bool-cases (i == 0)) [
            | inl first ↦ ap m (ground arith) ∙ same ∙ ap m (ground arith)
            | inr later ↦
                ap m (ground arith) ∙ there rest (i - 1) (ground arith) ∙ ap m (ground arith)
          ],
      λ h.
          let same : m s1 ≡ m s2 = ap m (omega arith) ∙ h 0 (omega arith) ∙ ap m (omega arith) in
          let test : (m s1 == m s2) ≡ true = ground (arith, same) in
          rw test
            (back (λ i l. ap m (next s1 i) ∙ h (i + 1) (omega arith) ∙ ap m (sym (next s2 i)))),
    )
