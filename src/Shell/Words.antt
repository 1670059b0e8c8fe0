-- ===== src/Shell/Words.antt =====
-- The tokenizer reads back words, redirections and the characters that end a command.
use mathlib.Core.Bool.{false≢true}
use mathlib.Core.List.{append_assoc}
use os.Prelude.{
  ℕ, zero, suc, ◌<◌, ◌≡◌, refl, ◌∙◌, inl, inr, Bool, true, false, not, ◌&&◌, List, [], ◌∷◌, ◌++◌,
  ◌==◌, length, length-append, arith, Bool-cases,
}
use os.Shell.{
  Text, bar, lparen, rparen, semicolon, amp, less, greater, strchr, whitespace, symbols, skip_space,
  in_word, take_word, symbol, word, token_at, gettoken, peek, Redir, redir_of, parsed, parseredirs,
  one_redir,
}
use os.Shell.Printer.{redir_symbol, print_redirs, AllChars, IsWord, IsRedir, AllRedirs}
use os.Shell.Lengths.{IsTrim, skip_space_trim}

-- The text has ended, or one of these characters follows.
abbrev pub IsEnd : Text → Text → Type 0
IsEnd toks [] = Unit {0}
IsEnd toks (c ∷ s) = strchr toks c ≡ true

abbrev pub single_ends : Text
single_ends = bar ∷ rparen ∷ amp ∷ semicolon ∷ []

abbrev pub pipe_ends : Text
pipe_ends = rparen ∷ amp ∷ semicolon ∷ []

abbrev pub front_ends : Text
front_ends = rparen ∷ semicolon ∷ []

abbrev pub line_ends : Text
line_ends = rparen ∷ []

pub single_of_pipe : (s : Text) → IsEnd pipe_ends s → IsEnd single_ends s
single_of_pipe [] h = tt
single_of_pipe (c ∷ s) h = ground (arith, h)

pub pipe_of_front : (s : Text) → IsEnd front_ends s → IsEnd pipe_ends s
pipe_of_front [] h = tt
pipe_of_front (c ∷ s) h = ground (arith, h)

pub front_of_line : (s : Text) → IsEnd line_ends s → IsEnd front_ends s
front_of_line [] h = tt
front_of_line (c ∷ s) h = ground (arith, h)

pub IsEnd-IsTrim : (s : Text) → IsEnd single_ends s → IsTrim s
IsEnd-IsTrim [] h = tt
IsEnd-IsTrim (c ∷ s) h = ground (arith, h)

-- `peek` at a character.
pub peek_at :
    (toks : Text) (c : ℕ) (s : Text)
    → strchr whitespace c ≡ false
    → peek toks (c ∷ s) ≡ strchr toks c
unfolding peek skip_space
peek_at toks c s h = rw h

-- A symbol other than `>` is a token of its own.
pub gettoken_symbol :
    (c : ℕ) (s : Text)
    → strchr whitespace c ≡ false
    → (c == greater) ≡ false
    → strchr symbols c ≡ true
    → IsTrim s
    → gettoken (c ∷ s) ≡ (symbol c, s)
unfolding gettoken token_at skip_space
gettoken_symbol c s space other sym_c trim = rw (space, other, sym_c, skip_space_trim s trim)

take_word-append : (w s : Text) → AllChars w → take_word (w ++ 32 ∷ s) ≡ (w, 32 ∷ s)
unfolding take_word
take_word-append [] s h = refl
take_word-append (c ∷ w) s (h, hs) = rw (h, take_word-append w s hs)

neither : (a b : Bool) → (not a && not b) ≡ true → (a ≡ false) × (b ≡ false)
neither true b h = absurd (false≢true h)
neither false true h = absurd (false≢true h)
neither false false h = (refl, refl)

char_tests : (c : ℕ) → in_word c ≡ true → (strchr whitespace c ≡ false) × (strchr symbols c ≡ false)
char_tests c h = neither (strchr whitespace c) (strchr symbols c) h

pub gettoken-word : (w s : Text) → IsWord w → IsTrim s → gettoken (w ++ 32 ∷ s) ≡ (word w, s)
unfolding gettoken token_at skip_space
gettoken-word [] s (l, h) trim = absurd (omega arith)
gettoken-word (c ∷ w) s (l, (h, hs)) trim =
    let (space, plain) = char_tests c h in
    let other : (c == greater) ≡ false = ground (arith, plain) in
    rw (space, other, plain, take_word-append (c ∷ w) s (h, hs), skip_space_trim s trim)

pub word-IsTrim : (w s : Text) → IsWord w → IsTrim (w ++ s)
word-IsTrim [] s (l, h) = absurd (omega arith)
word-IsTrim (c ∷ w) s (l, (h, hs)) = (char_tests c h).0

-- A word is no symbol.
pub peek-word :
    (toks w s : Text)
    → IsWord w
    → ((c : ℕ) → in_word c ≡ true → strchr toks c ≡ false)
    → peek toks (w ++ s) ≡ false
peek-word toks [] s (l, h) none_of = absurd (omega arith)
peek-word toks (c ∷ w) s (l, (h, hs)) none_of =
    peek_at toks c (w ++ s) (char_tests c h).0 ∙ none_of c h

pub no_redir : (c : ℕ) → in_word c ≡ true → strchr (less ∷ greater ∷ []) c ≡ false
no_redir c h = let plain = (char_tests c h).1 in ground (arith, plain)

pub no_end : (c : ℕ) → in_word c ≡ true → strchr single_ends c ≡ false
no_end c h = let plain = (char_tests c h).1 in ground (arith, plain)

pub no_paren : (c : ℕ) → in_word c ≡ true → strchr (lparen ∷ []) c ≡ false
no_paren c h = let plain = (char_tests c h).1 in ground (arith, plain)

pub peek-end :
    (ends toks s : Text)
    → IsEnd ends s
    → IsTrim s
    → ((c : ℕ) → strchr ends c ≡ true → strchr toks c ≡ false)
    → peek toks s ≡ false
unfolding peek skip_space
peek-end ends toks [] h trim none_of = refl
peek-end ends toks (c ∷ s) h trim none_of = peek_at toks c s trim ∙ none_of c h

-- A symbol is taken off the front.
pub gettoken_past :
    (c : ℕ) (s : Text)
    → strchr whitespace c ≡ false
    → (c == greater) ≡ false
    → strchr symbols c ≡ true
    → IsTrim s
    → (gettoken (skip_space (c ∷ s))).1 ≡ s
gettoken_past c s space other sym_c trim =
    rw (skip_space_trim (c ∷ s) space, gettoken_symbol c s space other sym_c trim)

-- Redirections.
pub print_redirs-IsTrim : (rs : List Redir) (s : Text) → IsTrim s → IsTrim (print_redirs rs ++ s)
unfolding print_redirs
print_redirs-IsTrim [] s h = h
print_redirs-IsTrim ((file, mode, fd) ∷ rs) s h = ground arith

redir_symbol-lem :
    (file : Text) (mode fd : ℕ)
    → IsRedir (file, mode, fd)
    → redir_of (symbol (redir_symbol fd)) file ≡ (file, mode, fd) ∷ []
redir_symbol-lem file mode fd (w, inl (m, d)) = rw (m, d)
redir_symbol-lem file mode fd (w, inr (m, d)) = rw (m, d)

-- The symbol of a redirection, with a file name after it.
gettoken_redir :
    (fd : ℕ) (w s : Text)
    → IsWord w
    → gettoken (redir_symbol fd ∷ (w ++ s)) ≡ (symbol (redir_symbol fd), w ++ s)
unfolding gettoken token_at skip_space
gettoken_redir fd [] s (l, h) = absurd (omega arith)
gettoken_redir fd (c ∷ w) s (l, (h, hs)) =
    let (space, plain) = char_tests c h in
    let other : (c == greater) ≡ false = ground (arith, plain) in
    elim (Bool-cases (fd == 0)) [
      | inl input ↦ rw (input, space)
      | inr output ↦ rw (output, other, space)
    ]

peek_redir : (fd : ℕ) (s : Text) → peek (less ∷ greater ∷ []) (redir_symbol fd ∷ s) ≡ true
unfolding peek skip_space
peek_redir fd s = elim (Bool-cases (fd == 0)) [ inl input ↦ rw input | inr output ↦ rw output ]

redir_symbol-IsTrim : (fd : ℕ) (s : Text) → IsTrim (redir_symbol fd ∷ s)
redir_symbol-IsTrim fd s = ground arith

-- No redirection is found where none starts.
pub parseredirs_none :
    (f : ℕ) (s : Text)
    → IsTrim s
    → peek (less ∷ greater ∷ []) s ≡ false
    → 0 < f
    → parseredirs f s ≡ parsed [] s
unfolding parseredirs
parseredirs_none zero s trim e l = absurd (omega arith)
parseredirs_none (suc f) s trim e l = rw (e, skip_space_trim s trim)

one_redir_lem :
    (file : Text) (mode fd : ℕ) (s : Text)
    → IsRedir (file, mode, fd)
    → IsTrim s
    → one_redir (gettoken (skip_space (redir_symbol fd ∷ (file ++ 32 ∷ s))))
      ≡ parsed ((file, mode, fd) ∷ []) s
one_redir_lem file mode fd s r trim = rw (
  skip_space_trim (redir_symbol fd ∷ (file ++ 32 ∷ s)) (redir_symbol-IsTrim fd (file ++ 32 ∷ s)),
  gettoken_redir fd file (32 ∷ s) r.0,
  gettoken-word file s r.0 trim,
  redir_symbol-lem file mode fd r,
)

parseredirs_more :
    (f : ℕ) (s s' s'' : Text) (r rs : List Redir)
    → peek (less ∷ greater ∷ []) s ≡ true
    → one_redir (gettoken (skip_space s)) ≡ parsed r s'
    → parseredirs f s' ≡ parsed rs s''
    → parseredirs (suc f) s ≡ parsed (r ++ rs) s''
unfolding parseredirs
parseredirs_more f s s' s'' r rs seen one rest = rw (seen, one, rest)

-- Printed redirections are read back.
pub parseredirs_lem :
    (rs : List Redir) (s : Text) (f : ℕ)
    → AllRedirs rs
    → IsEnd single_ends s
    → length (print_redirs rs) < f
    → parseredirs f (print_redirs rs ++ s) ≡ parsed rs s
unfolding print_redirs
parseredirs_lem [] s f h e l =
    parseredirs_none f s (IsEnd-IsTrim s e)
      (peek-end single_ends (less ∷ greater ∷ []) s e (IsEnd-IsTrim s e) (λ c k. ground (arith, k)))
      l
parseredirs_lem ((file, mode, fd) ∷ rs) s zero h e l = absurd (omega arith)
parseredirs_lem ((file, mode, fd) ∷ rs) s (suc f) (r, h) e l =
    let shorter : length (print_redirs rs) < f =
      omega (arith, length-append file (32 ∷ print_redirs rs)) in
    rw (append_assoc file (32 ∷ print_redirs rs) s) (
      parseredirs_more f _ (print_redirs rs ++ s) s ((file, mode, fd) ∷ []) rs
        (peek_redir fd (file ++ 32 ∷ (print_redirs rs ++ s)))
        (one_redir_lem file mode fd (print_redirs rs ++ s) r
          (print_redirs-IsTrim rs s (IsEnd-IsTrim s e)))
        (parseredirs_lem rs s f h e shorter))
