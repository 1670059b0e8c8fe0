-- ===== src/Kalloc/Chain.antt =====
-- The free list: which pages are on it, and what `kfree` and `kalloc` make of it.
use os.Prelude.{
  ℕ, ◌+◌, ◌-◌, ◌%◌, ◌≤◌, ◌<◌, ◌≡◌, ◌≢◌, refl, ◌∙◌, inl, inr, true, false, not, ◌||◌, ◌==◌, ltb,
  arith, Bool-cases, List, [], ◌∷◌, Outcome, ok,
}
use os.Syscall.{int_at}
use os.Descriptors.{set_int}
use os.Kalloc.{Kmem, kfree, fill_junk, is_bad, kernbase, phystop}
use os.Kalloc.Words.{int_at-ext, int_at-set_int, set_int-past}

-- A page that can be on the list, where the kernel ends at `end`.
pub record IsPage (end p : ℕ) : Type 0 where
  pub aligned : p % 4096 ≡ 0
  pub low : 2147483648 ≤ p
  pub past_end : end ≤ p
  pub high : p < 2382364672

-- The list from `head` on runs through the pages.
abbrev pub Linked : (ℕ → ℕ) → ℕ → List ℕ → Type 0
Linked m head [] = head ≡ 0
Linked m head (p ∷ ps) = (head ≡ p) × Linked m (int_at m p) ps

abbrev pub AllPages : ℕ → List ℕ → Type 0
AllPages end [] = Unit {0}
AllPages end (p ∷ ps) = IsPage end p × AllPages end ps

abbrev pub NotIn : ℕ → List ℕ → Type 0
NotIn v [] = Unit {0}
NotIn v (p ∷ ps) = (v ≢ p) × NotIn v ps

-- Bytes that change elsewhere leave the list as it is.
pub Linked-ext :
    (end : ℕ) (m m' : ℕ → ℕ) (head : ℕ) (ps : List ℕ) (v : ℕ)
    → v % 4096 ≡ 0
    → AllPages end ps
    → NotIn v ps
    → ((x : ℕ) → (ltb x v || not (ltb x (v + 4096))) ≡ true → m' x ≡ m x)
    → Linked m head ps
    → Linked m' head ps
Linked-ext end m m' head [] v a pages out same l = l
Linked-ext end m m' head (p ∷ ps) v a (page, pages) (other, out) same (at, l) =
    let word : int_at m' p ≡ int_at m p =
      int_at-ext m' m p (λ j lj. same (p + j) (page_apart p v j page.aligned a other lj)) in
    (at, rw word (Linked-ext end m m' (int_at m p) ps v a pages out same l))
  where
    page_apart :
        (p v j : ℕ)
        → p % 4096 ≡ 0
        → v % 4096 ≡ 0
        → v ≢ p
        → j < 4
        → (ltb (p + j) v || not (ltb (p + j) (v + 4096))) ≡ true
    page_apart p v j b c n l = ground arith

pub head-uint :
    (end : ℕ) (m : ℕ → ℕ) (head : ℕ) (ps : List ℕ)
    → AllPages end ps
    → Linked m head ps
    → head < 4294967296
head-uint end m head [] pages e = omega arith
head-uint end m head (p ∷ ps) (page, pages) (at, l) = omega (arith, page.high)

good_page : (end p : ℕ) → IsPage end p → is_bad end p ≡ false
good_page end p page =
    let a : (p % 4096 == 0) ≡ true = ground (arith, page.aligned) in
    let b : ltb p end ≡ false = ground (arith, page.past_end) in
    let c : ltb ((p + 4294967296 - kernbase) % 4294967296) phystop ≡ true =
      ground (arith, page.low, page.high) in
    rw (a, b, c) refl

-- A page that is freed is put at the head of the list, and no byte outside of it changes.
pub data Freed (end v : ℕ) (k : Kmem) (ps : List ℕ) : Outcome Kmem → Type 0 where
  freed :
      {k' : Kmem}
      → Linked k'.memory k'.freelist (v ∷ ps)
      → ((x : ℕ) → (ltb x v || not (ltb x (v + 4096))) ≡ true → k'.memory x ≡ k.memory x)
      → Freed end v k ps (ok k')

outside :
    (v x : ℕ) → (ltb x v || not (ltb x (v + 4096))) ≡ true → (ltb x v || not (ltb x (v + 4))) ≡ true
outside v x h = ground arith

fill_junk-past :
    (v x : ℕ) (m : ℕ → ℕ) → (ltb x v || not (ltb x (v + 4096))) ≡ true → fill_junk v m x ≡ m x
fill_junk-past v x m h = elim (Bool-cases (ltb x v)) [
  | inl lo ↦ rw lo refl
  | inr hi ↦ let past : ltb x (v + 4096) ≡ false = ground arith in rw (hi, past) refl
]

pub kfree_lem :
    (end v : ℕ) (k : Kmem) (ps : List ℕ)
    → IsPage end v
    → AllPages end ps
    → NotIn v ps
    → Linked k.memory k.freelist ps
    → Freed end v k ps (kfree end v k)
unfolding kfree
kfree_lem end v k ps page pages out l =
    let m' = set_int v k.freelist (fill_junk v k.memory) in
    let same : (x : ℕ) → (ltb x v || not (ltb x (v + 4096))) ≡ true → m' x ≡ k.memory x = λ x h.
      set_int-past v k.freelist x (fill_junk v k.memory) (outside v x h)
      ∙ fill_junk-past v x k.memory h in
    let word =
      int_at-set_int v k.freelist (fill_junk v k.memory)
        (head-uint end k.memory k.freelist ps pages l) in
    let rest = Linked-ext end k.memory m' k.freelist ps v page.aligned pages out same l in
    rw (good_page end v page) (freed (refl, rw word rest) same)
