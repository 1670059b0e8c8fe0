-- ===== src/Transact/Budget.antt =====
-- How many sectors a transaction has logged, and how many it may still log.
use os.Prelude.{
  ℕ, suc, ◌+◌, ◌≤◌, ◌≡◌, ◌≢◌, refl, inl, inr, Bool, true, false, ◌||◌, List, [], ◌∷◌, ◌==◌,
  if◌then◌else◌, length, arith, Bool-cases,
}
use os.Log.{record_sector}

abbrev pub mem : ℕ → List ℕ → Bool
mem s [] = false
mem s (x ∷ xs) = x == s || mem s xs

abbrev pub absent : ℕ → List ℕ → ℕ
absent s lh = if mem s lh then 0 else 1

-- With the bitmap's block `b` and the indirect block `i`, both counted as if they were logged.
abbrev pub cost : ℕ → ℕ → List ℕ → ℕ
cost b i lh = length lh + absent b lh + (if i == 0 then 1 else absent i lh)

pub mem-record : (y s : ℕ) (lh : List ℕ) → mem y (record_sector s lh) ≡ (mem y lh || y == s)
unfolding record_sector
mem-record y s [] = ground arith
mem-record y s (x ∷ lh) = elim (Bool-cases (x == s)) [
  | inl here ↦ rw here (ground (arith, here))
  | inr later ↦ let ih = mem-record y s lh in rw later (ground (arith, ih))
]

pub length-record : (s : ℕ) (lh : List ℕ) → length (record_sector s lh) ≡ length lh + absent s lh
unfolding record_sector
length-record s [] = refl
length-record s (x ∷ lh) = elim (Bool-cases (x == s)) [
  | inl here ↦ rw here (omega arith)
  | inr later ↦ let ih = length-record s lh in rw later (omega (arith, ih))
]

module _ (b i s : ℕ) (lh : List ℕ) where
  pub cost-any : cost b i (record_sector s lh) ≤ suc (cost b i lh)
  cost-any =
      let n = length-record s lh in
      let x = mem-record b s lh in let y = mem-record i s lh in ground (arith, n, x, y)

  pub cost-map : s ≡ b → cost b i (record_sector s lh) ≤ cost b i lh
  cost-map e =
      let n = length-record s lh in
      let x = mem-record b s lh in
      let y = mem-record i s lh in rw (← e) (ground (arith, n, x, y, e))

  pub cost-indirect : s ≡ i → i ≢ 0 → cost b i (record_sector s lh) ≤ cost b i lh
  cost-indirect e ne =
      let n = length-record s lh in
      let x = mem-record b s lh in let y = mem-record i s lh in ground (arith, n, x, y, e, ne)

  pub cost-again : mem s lh ≡ true → cost b i (record_sector s lh) ≤ cost b i lh
  cost-again e =
      let n = length-record s lh in
      let x = mem-record b s lh in let y = mem-record i s lh in ground (arith, n, x, y, e)

pub cost-new : (b s : ℕ) (lh : List ℕ) → s ≢ 0 → cost b s (record_sector s lh) ≤ cost b 0 lh
cost-new b s lh ne =
    let n = length-record s lh in
    let x = mem-record b s lh in let y = mem-record s s lh in ground (arith, n, x, y, ne)
