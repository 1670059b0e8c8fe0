-- ===== src/Uthread/Count.antt =====
-- How the number of used slots changes with one slot.
use os.Prelude.{
  ℕ, zero, suc, ◌+◌, ◌≤◌, ◌<◌, ◌≡◌, refl, ◌≢◌, false, ◌==◌, if◌then◌else◌, arith, Bool-cases, inl,
  inr,
}
use os.Uthread.{update}

-- How many of the first `n` slots are used.
pub count : ℕ → (ℕ → ℕ) → ℕ
count zero threads = 0
count (suc n) threads = count n threads + (if threads n == 0 then 0 else 1)

count_same : (n : ℕ) (f g : ℕ → ℕ) → ((i : ℕ) → i < n → f i ≡ g i) → count n f ≡ count n g
unfolding count
count_same zero f g h = refl
count_same (suc n) f g h =
    let last : f n ≡ g n = h n (omega arith) in
    rw (last, count_same n f g (λ i l. h i (omega arith)))

pub count_fill :
    (n i p : ℕ) (f : ℕ → ℕ) → i < n → f i ≡ 0 → p ≢ 0 → count n (update f i p) ≡ count n f + 1
unfolding count
count_fill zero i p f l e h = absurd (omega arith)
count_fill (suc n) i p f l e h = elim (Bool-cases (i == n)) [
  | inl here ↦ let same = count_same n (update f i p) f (λ j k. ground arith) in ground (arith, e)
  | inr below ↦ ground (arith, count_fill n i p f)
]

pub count_clear : (n i : ℕ) (f : ℕ → ℕ) → i < n → f i ≢ 0 → count n (update f i 0) + 1 ≡ count n f
unfolding count
count_clear zero i f l h = absurd (omega arith)
count_clear (suc n) i f l h = elim (Bool-cases (i == n)) [
  | inl here ↦ let same = count_same n (update f i 0) f (λ j k. ground arith) in ground arith
  | inr below ↦ ground (arith, count_clear n i f)
]

pub count-le : (n : ℕ) (f : ℕ → ℕ) → count n f ≤ n
unfolding count
count-le zero f = omega arith
count-le (suc n) f = ground (arith, count-le n f)

-- Where every slot is used the count is full.
pub count_full : (n : ℕ) (f : ℕ → ℕ) → ((i : ℕ) → i < n → (f i == 0) ≡ false) → count n f ≡ n
unfolding count
count_full zero f h = refl
count_full (suc n) f h = ground (arith, h n, count_full n f (λ i l. h i (omega arith)))

-- Where the count is not 0 a slot is used.
pub used_slot : (n : ℕ) (f : ℕ → ℕ) → count n f ≢ 0 → (i : ℕ) × (i < n) × (f i ≢ 0)
unfolding count
used_slot zero f h = absurd (h refl)
used_slot (suc n) f h = elim (Bool-cases (f n == 0)) [
  | inl free ↦ let (i, l, u) = used_slot n f (ground arith) in (i, omega arith, u)
  | inr used ↦ (n, omega arith, ground arith)
]

pub count_none : (n : ℕ) → count n (λ i. 0) ≡ 0
unfolding count
count_none zero = refl
count_none (suc n) = omega (arith, count_none n)
