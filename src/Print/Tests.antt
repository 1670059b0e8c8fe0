-- ===== src/Print/Tests.antt =====
-- Numbers and formats, printed.
use os.Prelude.{◌≡◌, refl, true, false, [], ◌∷◌, ◌++◌, arith}
use os.Print.{printint, digits_from, printf, cprintf, upper, lower, atoi}
use os.Print.Numbers.{atoi-printint}

-- -42 and 0 in decimal, and a number in each hexadecimal alphabet.
numbers :
    (printint upper 4294967254 10 true ≡ 45 ∷ 52 ∷ 50 ∷ [])
    × (printint upper 0 10 true ≡ 48 ∷ [])
    × (printint upper 4294967055 16 false ≡ 70 ∷ 70 ∷ 70 ∷ 70 ∷ 70 ∷ 70 ∷ 48 ∷ 70 ∷ [])
    × (printint lower 171 16 false ≡ 97 ∷ 98 ∷ [])
unfolding printint digits_from
numbers = (refl, refl, refl, refl)

-- An unknown directive, `%c`, and a `%` at the end.
odd_formats :
    (printf (λ a. []) (λ i. 65) false 0 (37 ∷ 113 ∷ 37 ∷ 99 ∷ 37 ∷ []) ≡ 37 ∷ 113 ∷ 65 ∷ [])
    × (cprintf (λ a. []) (λ i. 65) 0 (37 ∷ 99 ∷ 37 ∷ []) ≡ 37 ∷ 99 ∷ [])
unfolding printf cprintf printint
odd_formats = (refl, refl)

atoi-printint_example : atoi (printint upper 2012 10 true ++ (32 ∷ 55 ∷ [])) ≡ 2012
atoi-printint_example = atoi-printint upper 2012 (32 ∷ 55 ∷ []) (omega arith) refl
