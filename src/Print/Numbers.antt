-- ===== src/Print/Numbers.antt =====
-- Decimal numbers, printed and read.
use os.Prelude.{
  as_uint, ℕ, zero, suc, ◌+◌, ◌-◌, ◌*◌, ◌/◌, ◌%◌, ◌<◌, ◌≡◌, refl, ◌∙◌, ap, inl, inr, true, false,
  List, [], ◌∷◌, ◌++◌, ◌==◌, ltb, arith, Bool-cases,
}
use os.Print.{digit, digits_from, backwards, printint, is_digit, atoi_from, atoi}
use mathlib.Core.List.{append-nil}

-- The text does not go on with a digit.
abbrev pub Stops : List ℕ → Type 0
Stops [] = Unit {0}
Stops (c ∷ s) = is_digit c ≡ false

-- How many numbers have `n` digits at most.
abbrev pub numerals : ℕ → ℕ
numerals zero = 1
numerals (suc n) = 10 * numerals n

pub backwards-append : (buf xs ys : List ℕ) → backwards buf xs ++ ys ≡ backwards buf (xs ++ ys)
backwards-append [] xs ys = refl
backwards-append (c ∷ buf) xs ys = backwards-append buf (c ∷ xs) ys

atoi_from-digit :
    (ten n d : ℕ) (s : List ℕ)
    → d < 10
    → n * 10 + d < 4294967296
    → atoi_from n (digit ten d ∷ s) ≡ atoi_from (n * 10 + d) s
unfolding atoi_from
atoi_from-digit ten n d s l b =
    let small : ltb d 10 ≡ true = ground arith in
    let lo : ltb (48 + d) 48 ≡ false = ground arith in
    let hi : ltb 57 (48 + d) ≡ false = ground arith in
    let next : as_uint (n * 10 + (48 + d) - 48) ≡ n * 10 + d = omega arith in
    rw (small, lo, hi, next) refl

atoi_from-digits :
    (ten n x : ℕ) (s : List ℕ)
    → 0 < n
    → x < numerals n
    → x < 4294967296
    → atoi_from 0 (backwards (digits_from ten 10 n x) s) ≡ atoi_from x s
unfolding digits_from
atoi_from-digits ten zero x s p l b = absurd (omega arith)
atoi_from-digits ten (suc n) x s p l b = elim (Bool-cases (x / 10 == 0)) [
  | inl last ↦
      let at : 0 * 10 + x % 10 ≡ x = ground arith in
      rw last
        (atoi_from-digit ten 0 (x % 10) s (omega arith) (omega arith) ∙ ap (λ n. atoi_from n s) at)
  | inr more ↦
      let at : x / 10 * 10 + x % 10 ≡ x = omega arith in
      rw more (
        atoi_from-digits ten n (x / 10) (digit ten (x % 10) ∷ s)
          (some_left n (x / 10) (ground arith) more) (omega arith) (omega arith)
        ∙ atoi_from-digit ten (x / 10) (x % 10) s (omega arith) (omega arith)
        ∙ ap (λ n. atoi_from n s) at)
]
  where
    some_left : (n y : ℕ) → y < numerals n → (y == 0) ≡ false → 0 < n
    some_left zero y l e = absurd (ground arith)
    some_left (suc n) y l e = omega arith

atoi_from-Stops : (n : ℕ) (s : List ℕ) → Stops s → atoi_from n s ≡ n
unfolding atoi_from
atoi_from-Stops n [] e = refl
atoi_from-Stops n (c ∷ s) e = rw e refl

-- `atoi` reads the number that was printed with `%d`, if it is not negative, whatever follows that is
-- not a digit.
pub atoi-printint :
    (ten xx : ℕ) (s : List ℕ) → xx < 2147483648 → Stops s → atoi (printint ten xx 10 true ++ s) ≡ xx
unfolding printint
atoi-printint ten xx s l stops =
    let positive : ltb xx 2147483648 ≡ true = ground arith in
    let text : printint ten xx 10 true ≡ backwards (digits_from ten 10 32 xx) [] =
      rw positive (ap (λ ds. backwards ds []) (append-nil (digits_from ten 10 32 xx))) in
    ap (λ t. atoi (t ++ s)) text
    ∙ ap atoi (backwards-append (digits_from ten 10 32 xx) [] s)
    ∙ atoi_from-digits ten 32 xx s (omega arith) (omega arith) (omega arith)
    ∙ atoi_from-Stops xx s stops
