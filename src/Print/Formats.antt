-- ===== src/Print/Formats.antt =====
-- Formats built from items, and what they print.
use os.Prelude.{ℕ, ◌+◌, ◌≡◌, ◌≢◌, refl, ◌∙◌, ap, true, false, List, [], ◌∷◌, ◌++◌, ◌==◌, arith}
use os.Print.{printint, text_at, printf, cprintf, upper, lower, percent}

-- A character other than `%`, `%d`, `%x`, `%p`, `%s` and `%%`.
pub data Item : Type 0 where
  plain : ℕ → Item
  decimal hex pointer string percent_sign : Item

abbrev pub format : List Item → List ℕ
format [] = []
format (plain c ∷ items) = c ∷ format items
format (decimal ∷ items) = percent ∷ 100 ∷ format items
format (hex ∷ items) = percent ∷ 120 ∷ format items
format (pointer ∷ items) = percent ∷ 112 ∷ format items
format (string ∷ items) = percent ∷ 115 ∷ format items
format (percent_sign ∷ items) = percent ∷ percent ∷ format items

abbrev pub IsPlain : List Item → Type 0
IsPlain [] = Unit {0}
IsPlain (plain c ∷ items) = (c ≢ percent) × IsPlain items
IsPlain (decimal ∷ items) = IsPlain items
IsPlain (hex ∷ items) = IsPlain items
IsPlain (pointer ∷ items) = IsPlain items
IsPlain (string ∷ items) = IsPlain items
IsPlain (percent_sign ∷ items) = IsPlain items

-- What the items print, each with the next word if it takes one.
abbrev pub printed : ℕ → (ℕ → List ℕ) → (ℕ → ℕ) → ℕ → List Item → List ℕ
printed ten strings words i [] = []
printed ten strings words i (plain c ∷ items) = c ∷ printed ten strings words i items
printed ten strings words i (decimal ∷ items) =
    printint ten (words i) 10 true ++ printed ten strings words (i + 1) items
printed ten strings words i (hex ∷ items) =
    printint ten (words i) 16 false ++ printed ten strings words (i + 1) items
printed ten strings words i (pointer ∷ items) =
    printint ten (words i) 16 false ++ printed ten strings words (i + 1) items
printed ten strings words i (string ∷ items) =
    text_at strings (words i) ++ printed ten strings words (i + 1) items
printed ten strings words i (percent_sign ∷ items) = percent ∷ printed ten strings words i items

module _ (strings : ℕ → List ℕ) (words : ℕ → ℕ) where
  -- `printf` prints a format item by item, with the words in order.
  pub printf_lem :
      (i : ℕ) (items : List Item)
      → IsPlain items
      → printf strings words false i (format items) ≡ printed upper strings words i items
  unfolding printf
  printf_lem i [] p = refl
  printf_lem i (plain c ∷ items) (other, p) =
      let test : (c == percent) ≡ false = ground arith in
      rw test (ap (λ t. c ∷ t) (printf_lem i items p))
  printf_lem i (decimal ∷ items) p =
      ap (λ t. printint upper (words i) 10 true ++ t) (printf_lem (i + 1) items p)
  printf_lem i (hex ∷ items) p =
      ap (λ t. printint upper (words i) 16 false ++ t) (printf_lem (i + 1) items p)
  printf_lem i (pointer ∷ items) p =
      ap (λ t. printint upper (words i) 16 false ++ t) (printf_lem (i + 1) items p)
  printf_lem i (string ∷ items) p =
      ap (λ t. text_at strings (words i) ++ t) (printf_lem (i + 1) items p)
  printf_lem i (percent_sign ∷ items) p = ap (λ t. percent ∷ t) (printf_lem i items p)

  -- A plain character, with what follows it.
  cprintf-plain :
      (i c : ℕ) (fmt : List ℕ)
      → c ≢ percent
      → cprintf strings words i (c ∷ fmt) ≡ c ∷ cprintf strings words i fmt
  unfolding cprintf
  cprintf-plain i c [] other = let test : (c == percent) ≡ false = ground arith in rw test refl
  cprintf-plain i c (d ∷ fmt) other =
      let test : (c == percent) ≡ false = ground arith in rw test refl

  -- So does the console's, with small letters in hexadecimal numbers.
  pub cprintf_lem :
      (i : ℕ) (items : List Item)
      → IsPlain items
      → cprintf strings words i (format items) ≡ printed lower strings words i items
  unfolding cprintf
  cprintf_lem i [] p = refl
  cprintf_lem i (plain c ∷ items) (other, p) =
      cprintf-plain i c (format items) other ∙ ap (λ t. c ∷ t) (cprintf_lem i items p)
  cprintf_lem i (decimal ∷ items) p =
      ap (λ t. printint lower (words i) 10 true ++ t) (cprintf_lem (i + 1) items p)
  cprintf_lem i (hex ∷ items) p =
      ap (λ t. printint lower (words i) 16 false ++ t) (cprintf_lem (i + 1) items p)
  cprintf_lem i (pointer ∷ items) p =
      ap (λ t. printint lower (words i) 16 false ++ t) (cprintf_lem (i + 1) items p)
  cprintf_lem i (string ∷ items) p =
      ap (λ t. text_at strings (words i) ++ t) (cprintf_lem (i + 1) items p)
  cprintf_lem i (percent_sign ∷ items) p = ap (λ t. percent ∷ t) (cprintf_lem i items p)
