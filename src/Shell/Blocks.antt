-- ===== src/Shell/Blocks.antt =====
-- A command in parentheses reads back as one command of a pipeline.
use mathlib.Core.List.{append_assoc}
use os.Prelude.{
  ℕ, zero, suc, ◌+◌, ◌≡◌, refl, ◌∙◌, ap, List, [], ◌∷◌, ◌++◌, length, length-append, arith,
}
use os.Shell.{
  Text, lparen, bar, rparen, amp, semicolon, Cmd, execcmd, redircmd, pipecmd, listcmd, backcmd,
  Redir, redirected, parsed, parseredirs, parseline, parseblock, parseexec,
}
use os.Shell.Printer.{Level, line, front, pipe, single, in_parens, print, print_redirs, IsPrintable}
use os.Shell.Lengths.{IsTrim, skip_space_trim}
use os.Shell.Words.{IsEnd-IsTrim, peek_at, gettoken_past, print_redirs-IsTrim, parseredirs_lem}
use os.Shell.Args.{print_args-IsTrim}
use os.Shell.Places.{ReadsSingle, ReadsLine}

-- A printed command does not start with white space.
pub print-IsTrim :
    (cmd : Cmd) (lv : Level) (s : Text) → IsPrintable cmd → IsTrim s → IsTrim (print lv cmd ++ s)
unfolding print print_redirs IsPrintable
print-IsTrim (execcmd []) lv s h trim = trim
print-IsTrim (execcmd (w ∷ ws)) lv s h trim = print_args-IsTrim w ws s h.0.0
print-IsTrim (redircmd cmd file mode fd) lv s h trim =
    rw (append_assoc (print single cmd) (print_redirs ((file, mode, fd) ∷ [])) s) (
      print-IsTrim cmd single (print_redirs ((file, mode, fd) ∷ []) ++ s) h.0
        (print_redirs-IsTrim ((file, mode, fd) ∷ []) s trim))
print-IsTrim (pipecmd a b) line s h trim =
    rw (append_assoc (print single a) (bar ∷ print pipe b) s)
      (print-IsTrim a single (bar ∷ (print pipe b ++ s)) h.0 refl)
print-IsTrim (pipecmd a b) front s h trim =
    rw (append_assoc (print single a) (bar ∷ print pipe b) s)
      (print-IsTrim a single (bar ∷ (print pipe b ++ s)) h.0 refl)
print-IsTrim (pipecmd a b) pipe s h trim =
    rw (append_assoc (print single a) (bar ∷ print pipe b) s)
      (print-IsTrim a single (bar ∷ (print pipe b ++ s)) h.0 refl)
print-IsTrim (pipecmd a b) single s h trim = refl
print-IsTrim (backcmd a) line s h trim =
    rw (append_assoc (print front a) (amp ∷ []) s) (print-IsTrim a front (amp ∷ s) h refl)
print-IsTrim (backcmd a) front s h trim =
    rw (append_assoc (print front a) (amp ∷ []) s) (print-IsTrim a front (amp ∷ s) h refl)
print-IsTrim (backcmd a) pipe s h trim = refl
print-IsTrim (backcmd a) single s h trim = refl
print-IsTrim (listcmd a b) line s h trim =
    rw (append_assoc (print front a) (semicolon ∷ print line b) s)
      (print-IsTrim a front (semicolon ∷ (print line b ++ s)) h.0 refl)
print-IsTrim (listcmd a b) front s h trim = refl
print-IsTrim (listcmd a b) pipe s h trim = refl
print-IsTrim (listcmd a b) single s h trim = refl

block_run :
    (f : ℕ) (t r s : Text) (cmd : Cmd) (rs : List Redir)
    → IsTrim t
    → IsTrim r
    → parseline f t ≡ parsed cmd (rparen ∷ r)
    → parseredirs f r ≡ parsed rs s
    → parseblock (suc f) (lparen ∷ t) ≡ parsed (redirected cmd rs) s
unfolding parseblock
block_run f t r s cmd rs trim_t trim_r inside after = rw (
  peek_at (lparen ∷ []) lparen t refl,
  gettoken_past lparen t refl refl refl trim_t,
  inside,
  peek_at (rparen ∷ []) rparen r refl,
  gettoken_past rparen r refl refl refl trim_r,
  after,
)

block_found : (f : ℕ) (t : Text) → parseexec (suc f) (lparen ∷ t) ≡ parseblock f (lparen ∷ t)
unfolding parseexec
block_found f t = rw (peek_at (lparen ∷ []) lparen t refl, skip_space_trim (lparen ∷ t) refl)

-- A block in parentheses with redirections after it.
pub single_of_line :
    (cmd : Cmd)
    → print single cmd ≡ in_parens (print line cmd)
    → IsPrintable cmd
    → ReadsLine cmd
    → ReadsSingle cmd
single_of_line cmd same ok_cmd h rs s zero k e l = absurd (omega arith)
single_of_line cmd same ok_cmd h rs s (suc zero) k e l = absurd (omega arith)
single_of_line cmd same ok_cmd h rs s (suc (suc f)) k e l =
    let t = print line cmd in
    let rest = rparen ∷ (print_redirs rs ++ s) in
    let lengths : length (print single cmd ++ print_redirs rs)
        ≡ length t + 2 + length (print_redirs rs) =
      omega (
        arith,
        length-append (print single cmd) (print_redirs rs),
        ap length same,
        length-append t (rparen ∷ []),
      ) in
    let text : print single cmd ++ (print_redirs rs ++ s) ≡ lparen ∷ (t ++ rest) =
      ap (λ p. p ++ (print_redirs rs ++ s)) same
      ∙ ap (λ p. lparen ∷ p) (append_assoc t (rparen ∷ []) (print_redirs rs ++ s)) in
    let trim = print_redirs-IsTrim rs s (IsEnd-IsTrim s e) in
    ap (parseexec (suc (suc f))) text
    ∙ block_found (suc f) (t ++ rest)
    ∙ block_run f (t ++ rest) (print_redirs rs ++ s) s cmd rs
        (print-IsTrim cmd line rest ok_cmd refl) trim (h rest f refl (omega arith))
        (parseredirs_lem rs s f k e (omega arith))
