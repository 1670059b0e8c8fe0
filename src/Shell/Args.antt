-- ===== src/Shell/Args.antt =====
-- The loop of `parseexec` reads back printed arguments and redirections.
use mathlib.Core.List.{append_assoc}
use os.Prelude.{
  ℕ, zero, suc, ◌+◌, ◌<◌, ◌≡◌, refl, ◌∙◌, ap, true, false, List, [], ◌∷◌, ◌++◌, leb, length,
  length-append, arith,
}
use os.Shell.{
  Text, in_word, token_at, less, greater, strchr, skip_space, end, word, gettoken, peek, execcmd,
  Redir, redirected, parsed, maxargs, parseredirs, parse_args,
}
use os.Shell.Printer.{print_args, print_redirs, IsWord, AllWords, AllRedirs}
use os.Shell.Lengths.{IsTrim, skip_space_trim}
use os.Shell.Words.{
  IsEnd, single_ends, IsEnd-IsTrim, peek_at, peek-word, no_redir, no_end, word-IsTrim,
  gettoken-word, print_redirs-IsTrim, parseredirs_none, parseredirs_lem,
}

gettoken-nil : gettoken [] ≡ (end, [])
unfolding gettoken token_at skip_space
gettoken-nil = refl

-- Where the command ends.
pub args_here :
    (f : ℕ) (args : List Text) (rs : List Redir) (s : Text)
    → IsEnd single_ends s
    → 0 < f
    → parse_args f args rs s ≡ parsed (redirected (execcmd args) rs) s
unfolding parse_args peek skip_space
args_here zero args rs s e l = absurd (omega arith)
args_here (suc f) args rs [] e l = rw gettoken-nil
args_here (suc f) args rs (c ∷ s) e l = rw (
  peek_at single_ends c s (IsEnd-IsTrim (c ∷ s) e),
  e,
  skip_space_trim (c ∷ s) (IsEnd-IsTrim (c ∷ s) e),
)

args_word :
    (f : ℕ) (args : List Text) (rs more : List Redir) (w s s' s'' : Text)
    → peek single_ends s ≡ false
    → gettoken (skip_space s) ≡ (word w, s')
    → length args + 1 < maxargs
    → parseredirs f s' ≡ parsed more s''
    → parse_args (suc f) args rs s ≡ parse_args f (args ++ w ∷ []) (rs ++ more) s''
unfolding parse_args
args_word f args rs more w s s' s'' go token room rest =
    let few : leb maxargs (length args + 1) ≡ false = ground arith in rw (go, token, few, rest)

-- One printed argument, with what follows.
arg_read :
    (f : ℕ) (args : List Text) (more : List Redir) (w t s : Text)
    → IsWord w
    → IsTrim t
    → length args + 1 < maxargs
    → parseredirs f t ≡ parsed more s
    → parse_args (suc f) args [] (w ++ 32 ∷ t) ≡ parse_args f (args ++ w ∷ []) more s
arg_read f args more w t s h trim room rest =
    args_word f args [] more w (w ++ 32 ∷ t) t s (peek-word single_ends w (32 ∷ t) h no_end)
      (rw (skip_space_trim (w ++ 32 ∷ t) (word-IsTrim w (32 ∷ t) h)) (gettoken-word w t h trim))
      room rest

pub print_args-IsTrim :
    (w : Text) (ws : List Text) (t : Text) → IsWord w → IsTrim (print_args (w ∷ ws) ++ t)
unfolding print_args
print_args-IsTrim w ws t h =
    rw (append_assoc w (32 ∷ print_args ws) t) (word-IsTrim w (32 ∷ (print_args ws ++ t)) h)

pub peek-print_args :
    (toks w : Text) (ws : List Text) (t : Text)
    → IsWord w
    → ((c : ℕ) → in_word c ≡ true → strchr toks c ≡ false)
    → peek toks (print_args (w ∷ ws) ++ t) ≡ false
unfolding print_args
peek-print_args toks w ws t h none_of =
    rw (append_assoc w (32 ∷ print_args ws) t)
      (peek-word toks w (32 ∷ (print_args ws ++ t)) h none_of)

pub parse_args_lem :
    (ws : List Text) (f : ℕ) (args : List Text) (w : Text) (rs : List Redir) (s : Text)
    → AllWords (w ∷ ws)
    → length args + length (w ∷ ws) < maxargs
    → AllRedirs rs
    → IsEnd single_ends s
    → length (print_args (w ∷ ws) ++ print_redirs rs) < f
    → parse_args f args [] (print_args (w ∷ ws) ++ (print_redirs rs ++ s))
      ≡ parsed (redirected (execcmd (args ++ w ∷ ws)) rs) s
unfolding print_args
parse_args_lem ws zero args w rs s h room k e l = absurd (omega arith)
parse_args_lem [] (suc f) args w rs s (hw, h) room k e l =
    let lengths : length (print_args (w ∷ []) ++ print_redirs rs)
        ≡ length w + 1 + length (print_redirs rs) =
      omega
        (arith, length-append (print_args (w ∷ [])) (print_redirs rs), length-append w (32 ∷ [])) in
    rw (append_assoc w (32 ∷ []) (print_redirs rs ++ s)) (
      arg_read f args rs w (print_redirs rs ++ s) s hw (print_redirs-IsTrim rs s (IsEnd-IsTrim s e))
        (omega arith) (parseredirs_lem rs s f k e (omega arith))
      ∙ args_here f (args ++ w ∷ []) rs s e (omega arith))
parse_args_lem (v ∷ vs) (suc f) args w rs s (hw, (hv, h)) room k e l =
    let t = print_args (v ∷ vs) ++ (print_redirs rs ++ s) in
    let lengths : length (print_args (w ∷ v ∷ vs) ++ print_redirs rs)
        ≡ length w + 1 + length (print_args (v ∷ vs) ++ print_redirs rs) =
      ap length (append_assoc w (32 ∷ print_args (v ∷ vs)) (print_redirs rs))
      ∙ omega (arith, length-append w (32 ∷ (print_args (v ∷ vs) ++ print_redirs rs))) in
    let none =
      parseredirs_none f t (print_args-IsTrim v vs (print_redirs rs ++ s) hv)
        (peek-print_args (less ∷ greater ∷ []) v vs (print_redirs rs ++ s) hv no_redir)
        (omega arith) in
    rw (append_assoc w (32 ∷ print_args (v ∷ vs)) (print_redirs rs ++ s)) (
      arg_read f args [] w t t hw (print_args-IsTrim v vs (print_redirs rs ++ s) hv) (omega arith)
        none
      ∙ parse_args_lem vs f (args ++ w ∷ []) v rs s (hv, h)
          (omega (arith, length-append args (w ∷ []))) k e (omega arith)
      ∙ ap (λ all. parsed (redirected (execcmd all) rs) s) (append_assoc args (w ∷ []) (v ∷ vs)))
