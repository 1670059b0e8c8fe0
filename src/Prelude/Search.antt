-- ===== src/Prelude/Search.antt =====
-- A scan of a fixed table for the first entry that passes a test, and what it finds.
use Prim.Native.Nat.{ℕ, zero, suc, ◌+◌, ◌≤◌, ◌<◌}
use mathlib.Core.Path.{◌≡◌, refl, ap, ◌∙◌, sym}
use mathlib.Core.Logic.{inl, inr}
use mathlib.Core.Bool.{Bool, true, false}
use mathlib.Core.Option.{Option, none, some}
use native.Mathlib.Omega.{arith}
use os.Prelude.Tests.{Bool-cases, if◌then◌else◌, ◌==◌}

-- The first index from `i` on, in `n` rounds, that passes.
unfoldable pub find_index : (ℕ → Bool) → ℕ → ℕ → Option ℕ
find_index test zero i = none
find_index test (suc n) i = let rest = find_index test n (i + 1) in if test i then some i else rest

pub record Found (test : ℕ → Bool) (n i k : ℕ) : Type 0 where
  pub passes : test k ≡ true
  pub from_start : i ≤ k
  pub in_range : k < i + n
  pub first : (j : ℕ) → i ≤ j → j < k → test j ≡ false

pub find_index-Found :
    (test : ℕ → Bool) (n i k : ℕ) → find_index test n i ≡ some k → Found test n i k
unfolding find_index
find_index-Found test zero i k e = absurd (ground arith)
find_index-Found test (suc n) i k e = elim (Bool-cases (test i)) [
  | inl hit ↦
      let same : i ≡ k = ground arith in
      record {
        passes = rw (← same) hit;
        from_start = omega arith;
        in_range = omega arith;
        first = λ j a b. absurd (omega arith);
      }
  | inr miss ↦
      let ih = find_index-Found test n (i + 1) k (ground arith) in
      record {
        passes = ih.passes;
        from_start = omega (arith, ih.from_start);
        in_range = omega (arith, ih.in_range);
        first = λ j a b. ground (arith, ih.first j);
      }
]

pub find_index-none :
    (test : ℕ → Bool) (n i : ℕ)
    → find_index test n i ≡ none
    → (j : ℕ) → i ≤ j
    → j < i + n
    → test j ≡ false
unfolding find_index
find_index-none test zero i e j a b = absurd (omega arith)
find_index-none test (suc n) i e j a b = elim (Bool-cases (test i)) [
  | inl hit ↦ absurd (ground arith)
  | inr miss ↦ ground (arith, find_index-none test n (i + 1) (ground arith) j)
]

-- A search comes to the entry that passes first.
pub find_index-first :
    (test : ℕ → Bool) (n i k : ℕ) → Found test n i k → find_index test n i ≡ some k
unfolding find_index
find_index-first test zero i k f =
    absurd (let a = f.from_start in let b = f.in_range in omega arith)
find_index-first test (suc n) i k f =
    let a = f.from_start in
    let b = f.in_range in
    let p = f.passes in
    elim (Bool-cases (test i)) [
      | inl hit ↦ elim (Bool-cases (i == k)) [
        | inl same ↦ ground (arith, hit)
        | inr later ↦ absurd (ground (arith, f.first i, hit))
      ]
      | inr miss ↦ elim (Bool-cases (i == k)) [
        | inl same ↦
            let e : i ≡ k = ground arith in
            let none_here : test k ≡ false = rw (← e) miss in absurd (ground (arith, none_here, p))
        | inr later ↦
            let rest = find_index-first test n (i + 1) k (record {
              passes = p;
              from_start = ground arith;
              in_range = omega arith;
              first = λ j l m. f.first j (omega arith) m;
            }) in
            rw (miss, rest) refl
      ]
    ]

-- Tests that agree on the range, and an entry more that does not pass.
pub find_index-ext :
    (test test' : ℕ → Bool) (n i : ℕ)
    → ((j : ℕ) → i ≤ j → j < i + n → test' j ≡ test j)
    → find_index test' n i ≡ find_index test n i
unfolding find_index
find_index-ext test test' zero i h = refl
find_index-ext test test' (suc n) i h =
    let rest = find_index-ext test test' n (i + 1) λ j a b. h j (omega arith) (omega arith) in
    rw (h i (omega arith) (omega arith), rest) refl

pub find_index-last :
    (test : ℕ → Bool) (n i : ℕ)
    → test (i + n) ≡ false
    → find_index test (n + 1) i ≡ find_index test n i
unfolding find_index
find_index-last test zero i h =
    let at : i + 0 ≡ i = omega arith in let miss : test i ≡ false = rw (← at) h in rw miss refl
find_index-last test (suc n) i h =
    let more : suc n + 1 ≡ suc (n + 1) = omega arith in
    let next : i + suc n ≡ i + 1 + n = omega arith in
    let rest = find_index-last test n (i + 1) (ap test (sym next) ∙ h) in rw (more, rest) refl
