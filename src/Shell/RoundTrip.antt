-- ===== src/Shell/RoundTrip.antt =====
-- sh.c: the parser on printed commands.
use mathlib.Core.List.{append_assoc, append-nil}
use os.Prelude.{
  ℕ, zero, suc, ◌+◌, ◌*◌, ◌<◌, ◌≡◌, refl, sym, ◌∙◌, ap, inl, inr, false, List, [], ◌∷◌, ◌++◌,
  length, length-append, arith, Bool-cases, ◌==◌,
}
use os.Shell.{
  Text, lparen, less, greater, bar, amp, semicolon, skip_space, peek, Cmd, execcmd, redircmd,
  pipecmd, listcmd, backcmd, Redir, parsed, parseline, parsepipe, parseexec, parsecmd,
}
use os.Shell.Printer.{
  line, front, pipe, single, print, print_args, print_redirs, IsRedir, IsPrintable, redir_symbol,
}
use os.Shell.Lengths.{skip_space_trim}
use os.Shell.Words.{
  IsEnd, single_ends, single_of_pipe, pipe_of_front, front_of_line, IsEnd-IsTrim, peek_at, peek-end,
  no_redir, no_paren, gettoken_past, print_redirs-IsTrim, parseredirs_none, parseredirs_lem,
}
use os.Shell.Args.{args_here, parse_args_lem, print_args-IsTrim, peek-print_args}
use os.Shell.Places.{
  ReadsSingle, ReadsPipe, ReadsFront, ReadsLine, Reads, amps, parsefront, parseline_front,
  pipe_of_single, front_of_pipe, line_of_front,
}
use os.Shell.Blocks.{print-IsTrim, single_of_line}

no_block :
    (rs : List Redir) (s : Text)
    → IsEnd single_ends s
    → peek (lparen ∷ []) (print_redirs rs ++ s) ≡ false
unfolding print_redirs peek skip_space
no_block [] s e =
    peek-end single_ends (lparen ∷ []) s e (IsEnd-IsTrim s e) (λ c t. ground (arith, t))
no_block ((file, mode, fd) ∷ rs) s e = elim (Bool-cases (fd == 0)) [
  | inl input ↦ rw input
  | inr output ↦ rw output
]

-- The command itself, at each kind.
execcmd_single : (args : List Text) → IsPrintable (execcmd args) → ReadsSingle (execcmd args)
unfolding parseexec print print_args IsPrintable
execcmd_single args h rs s zero k e l = absurd (omega arith)
execcmd_single [] h rs s (suc f) k e l =
    let t = print_redirs rs ++ s in
    let trim = print_redirs-IsTrim rs s (IsEnd-IsTrim s e) in
    rw (no_block rs s e, skip_space_trim t trim, parseredirs_lem rs s f k e (omega arith))
      (args_here f [] rs s e (omega arith))
execcmd_single (w ∷ ws) (h, few) rs s (suc f) k e l =
    let t = print_args (w ∷ ws) ++ (print_redirs rs ++ s) in
    let trim = print_args-IsTrim w ws (print_redirs rs ++ s) h.0 in
    let none =
      parseredirs_none f t trim
        (peek-print_args (less ∷ greater ∷ []) w ws (print_redirs rs ++ s) h.0 no_redir)
        (omega arith) in
    rw
      (
        peek-print_args (lparen ∷ []) w ws (print_redirs rs ++ s) h.0 no_paren,
        skip_space_trim t trim,
        none,
      )
      (parse_args_lem ws f [] w rs s h (omega (arith, few)) k e (omega arith))

print_redirs-cons :
    (file : Text) (mode fd : ℕ) (rs : List Redir) (s : Text)
    → print_redirs ((file, mode, fd) ∷ []) ++ (print_redirs rs ++ s)
      ≡ print_redirs ((file, mode, fd) ∷ rs) ++ s
unfolding print_redirs
print_redirs-cons file mode fd rs s =
    ap (λ t. redir_symbol fd ∷ t)
      (append_assoc file (32 ∷ []) (print_redirs rs ++ s)
        ∙ sym (append_assoc file (32 ∷ print_redirs rs) s))

redircmd_single :
    (cmd : Cmd) (file : Text) (mode fd : ℕ)
    → IsRedir (file, mode, fd)
    → ReadsSingle cmd
    → ReadsSingle (redircmd cmd file mode fd)
unfolding print
redircmd_single cmd file mode fd r h rs s f k e l =
    let q = print_redirs ((file, mode, fd) ∷ []) in
    let joined : q ++ print_redirs rs ≡ print_redirs ((file, mode, fd) ∷ rs) =
      ap (λ t. q ++ t) (sym (append-nil (print_redirs rs)))
      ∙ print_redirs-cons file mode fd rs []
      ∙ append-nil (print_redirs ((file, mode, fd) ∷ rs)) in
    let size = ap length (
      append_assoc (print single cmd) q (print_redirs rs)
      ∙ ap (λ t. print single cmd ++ t) joined) in
    ap (parseexec f) (
      append_assoc (print single cmd) q (print_redirs rs ++ s)
      ∙ ap (λ t. print single cmd ++ t) (print_redirs-cons file mode fd rs s))
    ∙ h ((file, mode, fd) ∷ rs) s f (r, k) e (omega (arith, size))

pipecmd_pipe : (a b : Cmd) → IsPrintable b → ReadsSingle a → ReadsPipe b → ReadsPipe (pipecmd a b)
unfolding print parsepipe print_redirs
pipecmd_pipe a b ok_b ha hb s zero e l = absurd (omega arith)
pipecmd_pipe a b ok_b ha hb s (suc f) e l =
    let t = print pipe b ++ s in
    let size = length-append (print single a) (bar ∷ print pipe b) in
    let size' = ap length (append-nil (print single a)) in
    let left = ha [] (bar ∷ t) f tt refl (omega (arith, size, size')) in
    let trim = print-IsTrim b pipe s ok_b (IsEnd-IsTrim s (single_of_pipe s e)) in
    rw (
      append_assoc (print single a) (bar ∷ print pipe b) s,
      left,
      peek_at (bar ∷ []) bar t refl,
      gettoken_past bar t refl refl refl trim,
      hb s f e (omega (arith, size)),
    )

backcmd_front : (a : Cmd) → ReadsFront a → ReadsFront (backcmd a)
unfolding print
backcmd_front a h k s f e l =
    let size = length-append (print front a) (amp ∷ []) in
    ap (parsefront f) (append_assoc (print front a) (amp ∷ []) (amps k ++ s))
    ∙ h (suc k) s f e (omega (arith, size))

listcmd_line : (a b : Cmd) → IsPrintable b → ReadsFront a → ReadsLine b → ReadsLine (listcmd a b)
unfolding print
listcmd_line a b ok_b ha hb s zero e l = absurd (omega arith)
listcmd_line a b ok_b ha hb s (suc f) e l =
    let t = print line b ++ s in
    let size = length-append (print front a) (semicolon ∷ print line b) in
    let trim =
      print-IsTrim b line s ok_b
        (IsEnd-IsTrim s (single_of_pipe s (pipe_of_front s (front_of_line s e)))) in
    ap (parseline (suc f)) (append_assoc (print front a) (semicolon ∷ print line b) s)
    ∙ parseline_front f (print front a ++ (semicolon ∷ t))
    ∙ rw (
      ha 0 (semicolon ∷ t) f refl (omega (arith, size)),
      peek_at (semicolon ∷ []) semicolon t refl,
      gettoken_past semicolon t refl refl refl trim,
      hb s f e (omega (arith, size)),
    )

single-Reads :
    (cmd : Cmd)
    → print pipe cmd ≡ print single cmd
    → print front cmd ≡ print pipe cmd
    → print line cmd ≡ print front cmd
    → ReadsSingle cmd
    → Reads cmd
single-Reads cmd same same' same'' h =
    let p = pipe_of_single cmd same h in
    let q = front_of_pipe cmd same' p in
    record { at_single = h; at_pipe = p; at_front = q; at_line = line_of_front cmd same'' q }

print-Reads : (cmd : Cmd) → IsPrintable cmd → Reads cmd
unfolding print IsPrintable
print-Reads (execcmd args) h = single-Reads (execcmd args) refl refl refl (execcmd_single args h)
print-Reads (redircmd cmd file mode fd) (h, r) =
    single-Reads (redircmd cmd file mode fd) refl refl refl
      (redircmd_single cmd file mode fd r ((print-Reads cmd h).at_single))
print-Reads (pipecmd a b) (ha, hb) =
    let c = pipecmd a b in
    let p = pipecmd_pipe a b hb ((print-Reads a ha).at_single) ((print-Reads b hb).at_pipe) in
    let q = front_of_pipe c refl p in
    let l = line_of_front c refl q in
    record { at_single = single_of_line c refl (ha, hb) l; at_pipe = p; at_front = q; at_line = l }
print-Reads (backcmd a) h =
    let c = backcmd a in
    let q = backcmd_front a ((print-Reads a h).at_front) in
    let l = line_of_front c refl q in
    let one = single_of_line c refl h l in
    record { at_single = one; at_pipe = pipe_of_single c refl one; at_front = q; at_line = l }
print-Reads (listcmd a b) (ha, hb) =
    let c = listcmd a b in
    let l = listcmd_line a b hb ((print-Reads a ha).at_front) ((print-Reads b hb).at_line) in
    let one = single_of_line c refl (ha, hb) l in
    let p = pipe_of_single c refl one in
    record { at_single = one; at_pipe = p; at_front = front_of_pipe c refl p; at_line = l }

-- A command of words and the two redirections, printed as a line, parses to the same command, with
-- fuel for four calls a character and five more.
pub parsecmd-print :
    (cmd : Cmd) (fuel : ℕ)
    → IsPrintable cmd
    → 4 * length (print line cmd) + 4 < fuel
    → parsecmd fuel (print line cmd) ≡ parsed cmd []
unfolding parsecmd skip_space
parsecmd-print cmd fuel h l =
    let whole = (print-Reads cmd h).at_line [] fuel tt l in rw (rw append-nil at whole)
