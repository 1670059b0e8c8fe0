-- ===== src/Kalloc/Range.antt =====
-- `freerange`, with its loop.
use os.Prelude.{
  ◌*◌, ◌≢◌, ◌⊎◌, inl, inr, ◌==◌, Bool-cases, ℕ, zero, suc, ◌+◌, ◌-◌, ◌/◌, ◌%◌, ◌≤◌, ◌<◌, ◌≡◌, refl,
  true, false, ltb, arith, List, [], ◌∷◌, Outcome, ok, ◌>>=◌,
}
use os.Kalloc.{Kmem, free_pages, freerange, pgroundup}
use os.Kalloc.Chain.{IsPage, Linked, AllPages, NotIn, Freed, freed, kfree_lem}

-- The `n` pages from `p` on, put on the list one after the other.
abbrev pub with_pages : ℕ → ℕ → List ℕ → List ℕ
with_pages zero p ps = ps
with_pages (suc n) p ps = with_pages n (p + 4096) (p ∷ ps)

abbrev pub AllBelow : ℕ → List ℕ → Type 0
AllBelow v [] = Unit {0}
AllBelow v (p ∷ ps) = (p < v) × AllBelow v ps

-- A run came back with a list of these pages, all of them fit for `kalloc` to give.
pub data Filled (end : ℕ) (ps : List ℕ) : Outcome Kmem → Type 0 where
  filled : {k : Kmem} → Linked k.memory k.freelist ps → AllPages end ps → Filled end ps (ok k)

AllBelow-NotIn : (v : ℕ) (ps : List ℕ) → AllBelow v ps → NotIn v ps
AllBelow-NotIn v [] b = tt
AllBelow-NotIn v (p ∷ ps) (l, b) = ((λ e. absurd (omega arith)), AllBelow-NotIn v ps b)

AllBelow-more : (v w : ℕ) (ps : List ℕ) → v ≤ w → AllBelow v ps → AllBelow w ps
AllBelow-more v w [] l b = tt
AllBelow-more v w (p ∷ ps) l (m, b) = (omega arith, AllBelow-more v w ps l b)

Freed-on :
    {end p : ℕ} {k : Kmem} {ps qs : List ℕ} {r : Outcome Kmem} {rest : Kmem → Outcome Kmem}
    → Freed end p k ps r
    → ((k' : Kmem) → Linked k'.memory k'.freelist (p ∷ ps) → Filled end qs (rest k'))
    → Filled end qs (r >>= rest)
Freed-on (freed {k'} l same) h = h k' l

-- The rounds left: as many as whole pages are left.
free_pages-Filled :
    (end fuel n p vend : ℕ) (k : Kmem) (ps : List ℕ)
    → n < fuel
    → n ≡ (vend - p) / 4096
    → p % 4096 ≡ 0
    → 2147483648 ≤ p
    → end ≤ p
    → vend ≤ 2382364672
    → AllPages end ps
    → AllBelow p ps
    → Linked k.memory k.freelist ps
    → Filled end (with_pages n p ps) (free_pages end fuel p vend k)
unfolding free_pages
free_pages-Filled end zero n p vend k ps enough count a low past hi pages below l =
    absurd (omega arith)
free_pages-Filled end (suc fuel) zero p vend k ps enough count a low past hi pages below l =
    let over : ltb vend (p + 4096) ≡ true = ground arith in rw over (filled l pages)
free_pages-Filled end (suc fuel) (suc n) p vend k ps enough count a low past hi pages below l =
    let on : ltb vend (p + 4096) ≡ false = ground arith in
    let page : IsPage end p = record {
      aligned = a;
      low = low;
      past_end = past;
      high = omega arith;
    } in
    let fits : p < p + 4096 = omega arith in
    rw on (
      Freed-on (kfree_lem end p k ps page pages (AllBelow-NotIn p ps below) l) (λ k' l'.
        free_pages-Filled end fuel n (p + 4096) vend k' (p ∷ ps) (omega arith) (omega arith)
          (omega arith) (omega arith) (omega arith) hi (page, pages)
          (fits, AllBelow-more p (p + 4096) ps (omega arith) below) l'))

abbrev pub In : ℕ → List ℕ → Type 0
In q [] = ⊥
In q (p ∷ ps) = (q ≡ p) ⊎ In q ps

abbrev pub AllDistinct : List ℕ → Type 0
AllDistinct [] = Unit {0}
AllDistinct (p ∷ ps) = NotIn p ps × AllDistinct ps

-- A whole page of the range.
pub record IsWhole (vstart vend q : ℕ) : Type 0 where
  pub aligned : q % 4096 ≡ 0
  pub low : vstart ≤ q
  pub high : q + 4096 ≤ vend

with_pages-old : (n p : ℕ) (ps : List ℕ) (q : ℕ) → In q ps → In q (with_pages n p ps)
with_pages-old zero p ps q i = i
with_pages-old (suc n) p ps q i = with_pages-old n (p + 4096) (p ∷ ps) q (inr i)

with_pages-new :
    (n p : ℕ) (ps : List ℕ) (q : ℕ)
    → p % 4096 ≡ 0
    → q % 4096 ≡ 0
    → p ≤ q
    → q < p + 4096 * n
    → In q (with_pages n p ps)
with_pages-new zero p ps q a b lo hi = absurd (omega arith)
with_pages-new (suc n) p ps q a b lo hi = elim (Bool-cases (q == p)) [
  | inl first ↦ with_pages-old n (p + 4096) (p ∷ ps) q (inl (ground arith))
  | inr later ↦
      let past : p ≢ q = λ e. ground (arith, later) in
      with_pages-new n (p + 4096) (p ∷ ps) q (omega arith) b (omega arith) (omega arith)
]

with_pages-only :
    (n p : ℕ) (ps : List ℕ) (q : ℕ)
    → p % 4096 ≡ 0
    → In q (with_pages n p ps)
    → In q ps ⊎ IsWhole p (p + 4096 * n) q
with_pages-only zero p ps q a i = inl i
with_pages-only (suc n) p ps q a i =
    elim (with_pages-only n (p + 4096) (p ∷ ps) q (omega arith) i) [
      | inl (inl first) ↦
          inr (record { aligned = omega arith; low = omega arith; high = omega arith })
      | inl (inr old) ↦ inl old
      | inr w ↦
          inr (record {
            aligned = w.aligned;
            low = omega (arith, w.low);
            high = omega (arith, w.high);
          })
    ]

with_pages-distinct :
    (n p : ℕ) (ps : List ℕ) → AllBelow p ps → AllDistinct ps → AllDistinct (with_pages n p ps)
with_pages-distinct zero p ps b d = d
with_pages-distinct (suc n) p ps b d =
    with_pages-distinct n (p + 4096) (p ∷ ps)
      (omega arith, AllBelow-more p (p + 4096) ps (omega arith) b) (AllBelow-NotIn p ps b, d)

-- A run came back with a list that has every whole page of the range, once, and no other.
pub data Covers (end vstart vend : ℕ) : Outcome Kmem → Type 0 where
  covers :
      {k : Kmem} (pages : List ℕ)
      → Linked k.memory k.freelist pages
      → AllPages end pages
      → AllDistinct pages
      → ((q : ℕ) → IsWhole vstart vend q → In q pages)
      → ((q : ℕ) → In q pages → IsWhole vstart vend q)
      → Covers end vstart vend (ok k)

Filled-Covers :
    (end vstart vend : ℕ) {r : Outcome Kmem}
    → vend ≤ 2382364672
    → vstart ≤ vend
    → Filled end (with_pages ((vend - pgroundup vstart) / 4096) (pgroundup vstart) []) r
    → Covers end vstart vend r
Filled-Covers end vstart vend hi order (filled l pages) =
    let n = (vend - pgroundup vstart) / 4096 in
    let p = pgroundup vstart in
    let a : p % 4096 ≡ 0 = omega arith in
    let from : vstart ≤ p = omega arith in
    let near : p < vstart + 4096 = omega arith in
    covers (with_pages n p []) l pages (with_pages-distinct n p [] tt tt)
      (λ q w.
        let b = w.aligned in
        let lo = w.low in
        let up = w.high in with_pages-new n p [] q a b (omega arith) (omega arith))
      (λ q i. elim (with_pages-only n p [] q a i) [
        | inl nowhere ↦ absurd nowhere
        | inr w ↦
            let up = w.high in
            let lo = w.low in
            let b = w.aligned in
            record { aligned = b; low = omega arith; high = whole_end p n vend q b a lo up refl }
      ])
  where
    whole_end :
        (p n vend q : ℕ)
        → q % 4096 ≡ 0
        → p % 4096 ≡ 0
        → p ≤ q
        → q + 4096 ≤ p + 4096 * n
        → n ≡ (vend - p) / 4096
        → q + 4096 ≤ vend
    whole_end p n vend q b a lo up e = omega arith

-- A range of memory above the kernel and below PHYSTOP is handed to an empty allocator: the call comes
-- to its end without a panic, and the list then has every whole page of the range, once, and no
-- other.
pub freerange_lem :
    (end vstart vend : ℕ) (k : Kmem)
    → 2147483648 ≤ vstart
    → end ≤ vstart
    → vstart ≤ vend
    → vend ≤ 2382364672
    → k.freelist ≡ 0
    → Covers end vstart vend (freerange end vstart vend k)
unfolding freerange
freerange_lem end vstart vend k low past order hi empty = Filled-Covers end vstart vend hi order (
    free_pages-Filled end 1048576 ((vend - pgroundup vstart) / 4096) (pgroundup vstart) vend k []
      (omega arith) refl (omega arith) (omega arith) (omega arith) hi tt tt empty)
