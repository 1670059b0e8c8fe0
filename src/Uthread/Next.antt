-- ===== src/Uthread/Next.antt =====
-- `next_thread`: the search round the table ends within one round, at the nearest thread.
use mathlib.Core.Bool.{false≢true}
use os.Prelude.{
  sym, ap, ◌∙◌, ◌≢◌, ℕ, zero, suc, ◌+◌, ◌-◌, ◌%◌, ◌≤◌, ◌<◌, ◌≡◌, refl, ◌⊎◌, inl, inr, Bool, true,
  false, some, arith, Bool-cases,
}
use os.Uthread.{max_uthreads, next_loop}

pub ℕ-cases : (n : ℕ) → (n ≡ 0) ⊎ (0 < n)
ℕ-cases zero = inl refl
ℕ-cases (suc n) = inr (omega arith)

-- The slot `i` is `k` steps round the table from `start`, and the first there that passes.
pub record Nearest (test : ℕ → Bool) (start i k : ℕ) : Type 0 where
  pub place : i ≡ (start + k) % max_uthreads
  pub passes : test i ≡ true
  pub first : (j : ℕ) → j < k → test ((start + j) % max_uthreads) ≡ false

-- With a slot that passes `d` steps on, more fuel than `d` ends the loop at the nearest.
pub next_loop-Nearest :
    (test : ℕ → Bool) (fuel start d : ℕ)
    → start < max_uthreads
    → d < fuel
    → test ((start + d) % max_uthreads) ≡ true
    → (i : ℕ) × (k : ℕ) × (next_loop test fuel start ≡ some i) × Nearest test start i k × (k ≤ d)
unfolding next_loop
next_loop-Nearest test zero start d b f h = absurd (omega arith)
next_loop-Nearest test (suc fuel) start d b f h = elim (Bool-cases (test start)) [
  | inl hit ↦ (
    start,
    0,
    rw hit,
    record { place = omega arith; passes = hit; first = λ j l. absurd (omega arith) },
    omega arith,
  )
  | inr miss ↦
      let apart : d ≢ 0 = λ z.
        let same : (start + d) % max_uthreads ≡ start = omega arith in
        false≢true (sym miss ∙ ap test (sym same) ∙ h) in
      let on : ((start + 1) % max_uthreads + (d - 1)) % max_uthreads ≡ (start + d) % max_uthreads =
        omega arith in
      let (i, k, e, n, le) =
        next_loop-Nearest test fuel ((start + 1) % max_uthreads) (d - 1) (omega arith) (omega arith)
          (ap test on ∙ h) in
      (
        i,
        k + 1,
        rw miss e,
        record {
          place = omega (arith, n.place);
          passes = n.passes;
          first = λ j l. elim (ℕ-cases j) [
            | inl z ↦
                let same : (start + j) % max_uthreads ≡ start = omega arith in ap test same ∙ miss
            | inr pos_j ↦
                let same : (start + j) % max_uthreads
                    ≡ ((start + 1) % max_uthreads + (j - 1)) % max_uthreads =
                  omega arith in
                ap test same ∙ n.first (j - 1) (omega arith)
          ];
        },
        omega arith,
      )
]
