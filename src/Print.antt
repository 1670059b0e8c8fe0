-- ===== src/Print.antt =====
-- printf.c of the user programs and its counterpart in console.c, and `atoi` of ulib.c.
--
-- What is written, to a file or to the console, is a list of characters in ASCII. An `int` is its 32
-- bits as a number. The words behind the format on the stack are a function from their places, and
-- the strings at addresses are another. A string is the list of its characters before the nul.
pub mod Digits
pub mod Numbers
pub mod Formats
mod Tests
use os.Prelude.{
  as_uint, ℕ, zero, suc, ◌+◌, ◌-◌, ◌*◌, ◌/◌, ◌%◌, Bool, true, false, not, ◌&&◌, ◌||◌, List, [], ◌∷◌,
  ◌++◌, ◌==◌, ltb, if◌then◌else◌,
}

-- `digits[d]`, with the letters from `ten` on.
abbrev pub digit : ℕ → ℕ → ℕ
digit ten d = if ltb d 10 then 48 + d else ten + (d - 10)

-- The letters of printf.c and those of console.c.
abbrev pub upper : ℕ
upper = 65

abbrev pub lower : ℕ
lower = 97

-- `buf`, lowest digit first, with a bound on the rounds.
pub digits_from : ℕ → ℕ → ℕ → ℕ → List ℕ
digits_from ten base zero x = []
digits_from ten base (suc n) x =
    let rest = digits_from ten base n (x / base) in
    digit ten (x % base) ∷ (if not (x / base == 0) then rest else [])

abbrev pub is_negative : ℕ → Bool
is_negative x = not (ltb x 2147483648)

-- Written from the end of `buf`.
abbrev pub backwards : List ℕ → List ℕ → List ℕ
backwards [] written = written
backwards (c ∷ buf) written = backwards buf (c ∷ written)

-- A number of 32 bits has at most 32 digits.
pub printint : ℕ → ℕ → ℕ → Bool → List ℕ
printint ten xx base sgn =
    let neg = sgn && is_negative xx in
    let x = if neg then as_uint (4294967296 - xx) else xx in
    backwards (digits_from ten base 32 x ++ (if neg then 45 ∷ [] else [])) []

abbrev pub percent : ℕ
percent = 37

abbrev pub null_text : List ℕ
null_text = 40 ∷ 110 ∷ 117 ∷ 108 ∷ 108 ∷ 41 ∷ []

abbrev pub text_at : (ℕ → List ℕ) → ℕ → List ℕ
text_at strings s = if s == 0 then null_text else strings s

-- Does a character after `%` take a word?
abbrev pub takes_word : ℕ → Bool
takes_word c = c == 100 || (c == 120 || c == 112 || (c == 115 || c == 99))

-- What `%c` writes, for the word `a`.
abbrev pub directive : (ℕ → List ℕ) → ℕ → ℕ → List ℕ
directive strings c a =
    if c == 100
    then printint upper a 10 true
    else if c == 120 || c == 112
    then printint upper a 16 false
    else if c == 115
    then text_at strings a
    else if c == 99
    then a % 256 ∷ []
    else if c == percent
    then c ∷ []
    else percent ∷ c ∷ []

-- The loop, with `state` as whether a `%` came before, and the place of the next word.
pub printf : (ℕ → List ℕ) → (ℕ → ℕ) → Bool → ℕ → List ℕ → List ℕ
printf strings words state i [] = []
printf strings words false i (c ∷ fmt) =
    let after = printf strings words true i fmt in
    let more = printf strings words false i fmt in if c == percent then after else c ∷ more
printf strings words true i (c ∷ fmt) =
    directive strings c (words i)
    ++ printf strings words false (if takes_word c then i + 1 else i) fmt

-- The console has no `%c` with a word.
abbrev pub kernel_takes : ℕ → Bool
kernel_takes c = c == 100 || (c == 120 || c == 112 || c == 115)

abbrev pub kernel_directive : (ℕ → List ℕ) → ℕ → ℕ → List ℕ
kernel_directive strings c a =
    if c == 100
    then printint lower a 10 true
    else if c == 120 || c == 112
    then printint lower a 16 false
    else if c == 115
    then text_at strings a
    else if c == percent
    then percent ∷ []
    else percent ∷ c ∷ []

-- A format that is not null.
pub cprintf : (ℕ → List ℕ) → (ℕ → ℕ) → ℕ → List ℕ → List ℕ
cprintf strings words i [] = []
cprintf strings words i (c ∷ []) = if not (c == percent) then c ∷ [] else []
cprintf strings words i (c ∷ d ∷ fmt) =
    let plain = cprintf strings words i (d ∷ fmt) in
    let after = cprintf strings words (if kernel_takes d then i + 1 else i) fmt in
    if not (c == percent) then c ∷ plain else kernel_directive strings d (words i) ++ after

abbrev pub is_digit : ℕ → Bool
is_digit c = not (ltb c 48) && not (ltb 57 c)

pub atoi_from : ℕ → List ℕ → ℕ
atoi_from n [] = n
atoi_from n (c ∷ s) =
    let rest = atoi_from (as_uint (n * 10 + c - 48)) s in if is_digit c then rest else n

abbrev pub atoi : List ℕ → ℕ
atoi s = atoi_from 0 s
