-- ===== src/Shell/Lengths.antt =====
-- Tokens are read off the front of the text.
use mathlib.Core.Bool.{false≢true}
use os.Prelude.{ℕ, ◌≤◌, ◌<◌, ◌≡◌, refl, inl, inr, true, false, [], ◌∷◌, length, arith, Bool-cases}
use os.Shell.{
  Text, strchr, whitespace, skip_space, take_word, Token, end, symbol, append, word, token_at,
  gettoken, starts_with, peek,
}

-- A text that does not start with white space.
abbrev pub IsTrim : Text → Type 0
IsTrim [] = Unit {0}
IsTrim (c ∷ s) = strchr whitespace c ≡ false

pub length-skip_space-le : (s : Text) → length (skip_space s) ≤ length s
unfolding skip_space
length-skip_space-le [] = omega arith
length-skip_space-le (c ∷ s) = ground (arith, length-skip_space-le s)

pub skip_space-IsTrim : (s : Text) → IsTrim (skip_space s)
unfolding skip_space
skip_space-IsTrim [] = tt
skip_space-IsTrim (c ∷ s) = elim (Bool-cases (strchr whitespace c)) [
  | inl space ↦ rw space (skip_space-IsTrim s)
  | inr char ↦ rw char char
]

pub skip_space_trim : (s : Text) → IsTrim s → skip_space s ≡ s
unfolding skip_space
skip_space_trim [] h = refl
skip_space_trim (c ∷ s) h = rw h

pub skip_space_twice : (s : Text) → skip_space (skip_space s) ≡ skip_space s
skip_space_twice s = skip_space_trim (skip_space s) (skip_space-IsTrim s)

length-take_word-le : (s : Text) → length (take_word s).1 ≤ length s
unfolding take_word
length-take_word-le [] = omega arith
length-take_word-le (c ∷ s) = ground (arith, length-take_word-le s)

-- Every token but the end takes at least one character.
abbrev pub Consumes : ℕ → Token × Text → Type 0
Consumes n (end, rest) = length rest ≤ n
Consumes n (symbol c, rest) = length rest < n
Consumes n (append, rest) = length rest < n
Consumes n (word w, rest) = length rest < n

token_at-lt : (c : ℕ) (s : Text) → IsTrim (c ∷ s) → length (token_at (c ∷ s)).1 < length (c ∷ s)
unfolding token_at take_word
token_at-lt c [] h = ground arith
token_at-lt c (d ∷ s) h = ground (arith, length-take_word-le (d ∷ s), length-take_word-le s)

gettoken_trim-lt :
    (toks t : Text) → IsTrim t → starts_with toks t ≡ true → length (gettoken t).1 < length t
unfolding gettoken
gettoken_trim-lt toks [] h e = absurd (false≢true e)
gettoken_trim-lt toks (c ∷ s) h e =
    rw (skip_space_trim (c ∷ s) h)
      (omega (arith, token_at-lt c s h, length-skip_space-le (token_at (c ∷ s)).1))

-- After a `peek` that has found its character, `gettoken` takes it.
pub gettoken-lt :
    (toks s : Text) → peek toks s ≡ true → length (gettoken (skip_space s)).1 < length s
unfolding peek
gettoken-lt toks s e =
    omega
      (arith, gettoken_trim-lt toks (skip_space s) (skip_space-IsTrim s) e, length-skip_space-le s)

consumed : (n m : ℕ) (t : Token) (rest : Text) → length rest < n → n ≤ m → Consumes m (t, rest)
consumed n m end rest l le = omega arith
consumed n m (symbol c) rest l le = omega arith
consumed n m append rest l le = omega arith
consumed n m (word w) rest l le = omega arith

token_at-Consumes :
    (t : Text) (n : ℕ)
    → IsTrim t
    → length t ≤ n
    → Consumes n ((token_at t).0, skip_space (token_at t).1)
unfolding token_at
token_at-Consumes [] n h le = omega (arith, length-skip_space-le [])
token_at-Consumes (c ∷ s) n h le =
    consumed (length (c ∷ s)) n (token_at (c ∷ s)).0 _
      (omega (arith, length-skip_space-le (token_at (c ∷ s)).1, token_at-lt c s h)) le

pub gettoken-Consumes : (s : Text) (n : ℕ) → length s ≤ n → Consumes n (gettoken s)
unfolding gettoken
gettoken-Consumes s n le =
    token_at-Consumes (skip_space s) n (skip_space-IsTrim s) (omega (arith, length-skip_space-le s))
