-- ===== src/Print/Digits.antt =====
-- The size of a printed number.
use os.Prelude.{
  as_uint, ℕ, zero, suc, ◌+◌, ◌-◌, ◌*◌, ◌/◌, ◌≤◌, ◌<◌, ◌≡◌, ◌⊎◌, inl, inr, Bool, true, false, ◌&&◌,
  List, [], ◌∷◌, ◌++◌, ◌==◌, if◌then◌else◌, arith, Bool-cases, length, length-append,
}
use os.Print.{digits_from, is_negative, backwards, printint}

abbrev powers_of_ten : ℕ → ℕ
powers_of_ten zero = 1
powers_of_ten (suc n) = 10 * powers_of_ten n

length-backwards : (buf xs : List ℕ) → length (backwards buf xs) ≡ length buf + length xs
length-backwards [] xs = omega arith
length-backwards (c ∷ buf) xs = omega (arith, length-backwards buf (c ∷ xs))

abbrev sign : Bool → List ℕ
sign neg = if neg then 45 ∷ [] else []

length-sign : (neg : Bool) → length (sign neg) ≤ 1
length-sign true = omega arith
length-sign false = omega arith

module _ (ten base : ℕ) (smaller : (x : ℕ) → x / base ≤ x / 10) where
  -- A number below 10 ^ (k + 1) has at most k + 1 digits, and at least one.
  length-digits_from :
      (k n x : ℕ) → x < powers_of_ten (suc k) → length (digits_from ten base n x) ≤ suc k
  unfolding digits_from
  length-digits_from k zero x l = omega arith
  length-digits_from k (suc n) x l = elim (Bool-cases (x / base == 0)) [
    | inl last ↦ rw last (omega arith)
    | inr more ↦ rw more (shorter k l more (λ k l. length-digits_from k n (x / base) l))
  ]
    where
      shorter :
          (k : ℕ)
          → x < powers_of_ten (suc k)
          → (x / base == 0) ≡ false
          → ((k : ℕ)
              → x / base < powers_of_ten (suc k)
              → length (digits_from ten base n (x / base)) ≤ suc k)
          → suc (length (digits_from ten base n (x / base))) ≤ suc k
      shorter zero l more h = let s = smaller x in absurd (ground arith)
      shorter (suc k) l more h = let s = smaller x in omega (arith, h k (omega arith))

  printed : ℕ → Bool → List ℕ
  printed x neg = backwards (digits_from ten base 32 x ++ sign neg) []

  length-printed : (x : ℕ) (neg : Bool) → x < 4294967296 → length (printed x neg) ≤ 11
  unfolding printed
  length-printed x neg l =
      let ds = digits_from ten base 32 x in
      let few = length-digits_from 9 32 x (omega arith) in
      omega (
        arith,
        few,
        length-sign neg,
        length-backwards (ds ++ sign neg) [],
        length-append ds (sign neg),
      )

  length-printint : (xx : ℕ) (sgn : Bool) → xx < 4294967296 → length (printint ten xx base sgn) ≤ 11
  unfolding printint printed
  length-printint xx sgn l = elim (Bool-cases (sgn && is_negative xx)) [
    | inl neg ↦ rw neg (length-printed (as_uint (4294967296 - xx)) true (omega arith))
    | inr pos ↦ rw pos (length-printed xx false l)
  ]

-- A number that is printed in decimal or hexadecimal has at most 11 characters, for which `buf` of 16
-- has room.
pub printint_fits :
    (ten xx base : ℕ) (sgn : Bool)
    → xx < 4294967296
    → (base ≡ 10) ⊎ (base ≡ 16)
    → length (printint ten xx base sgn) ≤ 11
printint_fits ten xx base sgn l (inl e) = rw e (length-printint ten 10 (λ x. omega arith) xx sgn l)
printint_fits ten xx base sgn l (inr e) = rw e (length-printint ten 16 (λ x. omega arith) xx sgn l)
