-- ===== src/Kalloc/Runs.antt =====
-- All sequences of allocations and frees, and of writes to pages in use.
use os.Prelude.{
  ℕ, ◌+◌, ◌%◌, ◌≤◌, ◌<◌, ◌≡◌, ◌≢◌, refl, ◌∙◌, sym, ap, inl, inr, Bool, true, false, not, ◌||◌, ◌==◌,
  ltb, if◌then◌else◌, arith, Bool-cases, List, [], ◌∷◌, Outcome, ok, panic, fault,
}
use os.Syscall.{int_at}
use os.Kalloc.{Kmem, kfree, kalloc, is_bad}
use os.Kalloc.Chain.{IsPage, Linked, AllPages, NotIn, Linked-ext, Freed, freed, kfree_lem}

abbrev pub set_used : ℕ → Bool → (ℕ → Bool) → ℕ → Bool
set_used p u used q = if q == p then u else used q

abbrev pub set_byte_at : ℕ → ℕ → (ℕ → ℕ) → ℕ → ℕ
set_byte_at x b m y = if y == x then b else m y

-- The states that come about from an empty list, with the pages in use: the first pages that are
-- freed are the kernel's own. Who has a page in use writes any bytes of it.
pub data Run (end : ℕ) : Kmem → (ℕ → Bool) → Type 0 where
  starts : (k : Kmem) (used : ℕ → Bool) → k.freelist ≡ 0 → Run end k used
  allocs :
      (k : Kmem) (used : ℕ → Bool)
      → Run end k used
      → k.freelist ≢ 0
      → Run end (kalloc k).1 (set_used (kalloc k).0 true used)
  frees :
      (k k' : Kmem) (used : ℕ → Bool) (v : ℕ)
      → Run end k used
      → used v ≡ true
      → v < 4294967296
      → kfree end v k ≡ ok k'
      → Run end k' (set_used v false used)
  writes :
      (k : Kmem) (used : ℕ → Bool) (p x b : ℕ)
      → Run end k used
      → used p ≡ true
      → p % 4096 ≡ 0
      → p ≤ x
      → x < p + 4096
      → Run end (record k { memory = set_byte_at x b k.memory }) used

-- The free pages are not in use, and none is on the list twice.
abbrev pub AllFree : (ℕ → Bool) → List ℕ → Type 0
AllFree used [] = Unit {0}
AllFree used (p ∷ ps) = (used p ≡ false) × NotIn p ps × AllFree used ps

pub record IsSound (end : ℕ) (k : Kmem) (used : ℕ → Bool) : Type 0 where
  pub pages : List ℕ
  pub linked : Linked k.memory k.freelist pages
  pub valid : AllPages end pages
  pub free : AllFree used pages

true≢false : ¬ (true ≡ false)
true≢false e = absurd (ground (arith, e))

differs : (v p : ℕ) → v ≢ p → (p == v) ≡ false
differs v p n = ground arith

AllFree-NotIn :
    (used : ℕ → Bool) (v : ℕ) (ps : List ℕ) → used v ≡ true → AllFree used ps → NotIn v ps
AllFree-NotIn used v [] u f = tt
AllFree-NotIn used v (p ∷ ps) u (free, apart, f) =
    (λ e. true≢false (sym u ∙ ap used e ∙ free), AllFree-NotIn used v ps u f)

AllFree-set_used :
    (used : ℕ → Bool) (v : ℕ) (u : Bool) (ps : List ℕ)
    → NotIn v ps
    → AllFree used ps
    → AllFree (set_used v u used) ps
AllFree-set_used used v u [] out f = tt
AllFree-set_used used v u (p ∷ ps) (other, out) (free, apart, f) =
    let miss = differs v p other in (rw miss free, apart, AllFree-set_used used v u ps out f)

is_bad-IsPage : (end v : ℕ) → v < 4294967296 → is_bad end v ≡ false → IsPage end v
is_bad-IsPage end v l h = record {
  aligned = ground arith;
  low = ground arith;
  past_end = ground arith;
  high = ground arith;
}

kfree-is_bad : (end v : ℕ) (k k' : Kmem) → kfree end v k ≡ ok k' → is_bad end v ≡ false
unfolding kfree
kfree-is_bad end v k k' e = elim (Bool-cases (is_bad end v)) [
  | inl bad ↦ absurd (panics (rw bad at e))
  | inr good ↦ good
]
  where
    returned : Outcome Kmem → Bool
    returned (ok k) = true
    returned (panic m) = false
    returned fault = false

    panics : ¬ (panic "kfree" ≡ ok k')
    panics h = true≢false (sym (ap returned h))

allocs-IsSound :
    {end : ℕ} {k : Kmem} {used : ℕ → Bool}
    → IsSound end k used
    → k.freelist ≢ 0
    → IsPage end k.freelist
      × (used k.freelist ≡ false)
      × IsSound end
          (record k { freelist = int_at k.memory k.freelist })
          (set_used k.freelist true used)
allocs-IsSound {end} {k} {used} s some = go s.pages s.linked s.valid s.free
  where
    go :
        (ps : List ℕ)
        → Linked k.memory k.freelist ps
        → AllPages end ps
        → AllFree used ps
        → IsPage end k.freelist
          × (used k.freelist ≡ false)
          × IsSound end
              (record k { freelist = int_at k.memory k.freelist })
              (set_used k.freelist true used)
    go [] l v f = absurd (some l)
    go (p ∷ ps) (at, l) (page, v) (free, apart, f) = rw at (
      page,
      free,
      record { pages = ps; linked = l; valid = v; free = AllFree-set_used used p true ps apart f },
    )

kalloc_run :
    (k : Kmem)
    → k.freelist ≢ 0
    → kalloc k ≡ (k.freelist, record k { freelist = int_at k.memory k.freelist })
unfolding kalloc
kalloc_run k some = let test : (k.freelist == 0) ≡ false = ground (arith, some) in rw test refl

frees-IsSound :
    {end : ℕ} {k k' : Kmem} {used : ℕ → Bool} (v : ℕ)
    → IsSound end k used
    → used v ≡ true
    → v < 4294967296
    → kfree end v k ≡ ok k'
    → IsSound end k' (set_used v false used)
frees-IsSound {end} {k} {k'} {used} v s u l e =
    let page = is_bad-IsPage end v l (kfree-is_bad end v k k' e) in
    let out = AllFree-NotIn used v s.pages u s.free in
    let run : Freed end v k s.pages (ok k') =
      rw e at (kfree_lem end v k s.pages page s.valid out s.linked) in
    let self : (v == v) ≡ true = ground arith in
    let now_free : set_used v false used v ≡ false = rw self refl in
    record {
      pages = v ∷ s.pages;
      linked = freed_linked run;
      valid = (page, s.valid);
      free = (now_free, out, AllFree-set_used used v false s.pages out s.free);
    }
  where
    freed_linked : {ps : List ℕ} → Freed end v k ps (ok k') → Linked k'.memory k'.freelist (v ∷ ps)
    freed_linked (freed h same) = h

-- The list is sound whenever.
pub Run-IsSound : {end : ℕ} (k : Kmem) (used : ℕ → Bool) → Run end k used → IsSound end k used
Run-IsSound _ _ (starts k used e) = record { pages = []; linked = e; valid = tt; free = tt }
Run-IsSound {end} _ _ (allocs k used r some) =
    rw (kalloc_run k some) (allocs-IsSound (Run-IsSound k used r) some).2
Run-IsSound _ _ (frees k k' used v r u l e) = frees-IsSound v (Run-IsSound k used r) u l e
Run-IsSound {end} _ _ (writes k used p x b r u a lo hi) =
    let s = Run-IsSound k used r in
    let same : (y : ℕ)
        → (ltb y p || not (ltb y (p + 4096))) ≡ true
        → set_byte_at x b k.memory y ≡ k.memory y =
      λ y h. let other : (y == x) ≡ false = ground arith in rw other refl in
    record {
      pages = s.pages;
      linked =
          Linked-ext end k.memory _ k.freelist s.pages p a s.valid
            (AllFree-NotIn used p s.pages u s.free) same s.linked;
      valid = s.valid;
      free = s.free;
    }

-- Whatever allocations, frees of pages in use and writes to pages in use follow one another from an
-- empty list: what `kalloc` gives then, when it does not give 0, is an aligned page above the kernel
-- and below PHYSTOP that is not in use.
pub kalloc_fresh :
    {end : ℕ} (k : Kmem) (used : ℕ → Bool)
    → Run end k used
    → (kalloc k).0 ≢ 0
    → IsPage end (kalloc k).0 × (used (kalloc k).0 ≡ false)
unfolding kalloc
kalloc_fresh {end} k used r some = elim (Bool-cases (k.freelist == 0)) [
  | inl empty ↦ absurd (some (rw empty refl))
  | inr more ↦
      let x = allocs-IsSound (Run-IsSound k used r) (λ e. ground arith) in rw more (x.0, x.1)
]
