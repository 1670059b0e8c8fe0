-- ===== src/Shell/Places.antt =====
-- From one place to the next: a command that reads back in a pipeline reads back as one, and so on.
use mathlib.Core.List.{append-nil}
use os.Prelude.{
  ℕ, zero, suc, ◌+◌, ◌*◌, ◌<◌, ◌≡◌, refl, sym, ◌∙◌, ap, List, [], ◌∷◌, ◌++◌, length, arith,
  if◌then◌else◌,
}
use os.Shell.{
  Text, bar, amp, semicolon, skip_space, gettoken, peek, Cmd, listcmd, backcmd, Redir, redirected,
  Parsed, parsed, panics, no_fuel, ◌>>=◌, parse_backs, parseline, parsepipe, parseexec,
}
use os.Shell.Printer.{line, front, pipe, single, print, print_redirs, AllRedirs}
use os.Shell.Lengths.{skip_space_trim}
use os.Shell.Words.{
  IsEnd, single_ends, pipe_ends, front_ends, line_ends, single_of_pipe, pipe_of_front,
  front_of_line, IsEnd-IsTrim, peek_at, peek-end, gettoken_past,
}

-- The parser at each place reads a printed command that is followed by what may stand there.
abbrev pub ReadsSingle : Cmd → Type 0
ReadsSingle cmd =
    (rs : List Redir) (s : Text) (f : ℕ)
    → AllRedirs rs
    → IsEnd single_ends s
    → 4 * length (print single cmd ++ print_redirs rs) + 2 < f
    → parseexec f (print single cmd ++ (print_redirs rs ++ s)) ≡ parsed (redirected cmd rs) s

abbrev pub ReadsPipe : Cmd → Type 0
ReadsPipe cmd =
    (s : Text) (f : ℕ)
    → IsEnd pipe_ends s
    → 4 * length (print pipe cmd) + 3 < f
    → parsepipe f (print pipe cmd ++ s) ≡ parsed cmd s

abbrev pub amps : ℕ → Text
amps zero = []
amps (suc k) = amp ∷ amps k

abbrev pub backs : ℕ → Cmd → Cmd
backs zero cmd = cmd
backs (suc k) cmd = backs k (backcmd cmd)

abbrev pub parsefront : ℕ → Text → Parsed Cmd
parsefront f s = parsepipe f s >>= λ first s1. parse_backs f first s1

abbrev pub ReadsFront : Cmd → Type 0
ReadsFront cmd =
    (k : ℕ) (s : Text) (f : ℕ)
    → IsEnd front_ends s
    → 4 * (length (print front cmd) + k) + 3 < f
    → parsefront f (print front cmd ++ (amps k ++ s)) ≡ parsed (backs k cmd) s

abbrev pub ReadsLine : Cmd → Type 0
ReadsLine cmd =
    (s : Text) (f : ℕ)
    → IsEnd line_ends s
    → 4 * length (print line cmd) + 4 < f
    → parseline f (print line cmd ++ s) ≡ parsed cmd s

pub record Reads (cmd : Cmd) : Type 0 where
  pub at_single : ReadsSingle cmd
  pub at_pipe : ReadsPipe cmd
  pub at_front : ReadsFront cmd
  pub at_line : ReadsLine cmd

-- A command of a pipeline with nothing after it is a pipeline.
pub pipe_of_single :
    (cmd : Cmd) → print pipe cmd ≡ print single cmd → ReadsSingle cmd → ReadsPipe cmd
unfolding parsepipe print_redirs
pipe_of_single cmd same h s zero e l = absurd (omega arith)
pipe_of_single cmd same h s (suc f) e l =
    let ends = single_of_pipe s e in
    let none = peek-end pipe_ends (bar ∷ []) s e (IsEnd-IsTrim s ends) (λ c t. ground (arith, t)) in
    let enough : 4 * length (print single cmd ++ []) + 2 < f =
      omega (arith, ap length (append-nil (print single cmd)), ap length same) in
    rw (same, h [] s f tt ends enough, none, skip_space_trim s (IsEnd-IsTrim s ends))

amps-IsEnd : (k : ℕ) (s : Text) → IsEnd front_ends s → IsEnd pipe_ends (amps k ++ s)
amps-IsEnd zero s e = pipe_of_front s e
amps-IsEnd (suc k) s e = refl

parse_backs_lem :
    (k f : ℕ) (cmd : Cmd) (s : Text)
    → IsEnd front_ends s
    → k < f
    → parse_backs f cmd (amps k ++ s) ≡ parsed (backs k cmd) s
unfolding parse_backs
parse_backs_lem k zero cmd s e l = absurd (omega arith)
parse_backs_lem zero (suc f) cmd s e l =
    let trim = IsEnd-IsTrim s (single_of_pipe s (pipe_of_front s e)) in
    rw (peek-end front_ends (amp ∷ []) s e trim (λ c t. ground (arith, t)), skip_space_trim s trim)
parse_backs_lem (suc k) (suc f) cmd s e l =
    let ends = amps-IsEnd k s e in
    let trim = IsEnd-IsTrim (amps k ++ s) (single_of_pipe (amps k ++ s) ends) in
    rw
      (
        peek_at (amp ∷ []) amp (amps k ++ s) refl,
        gettoken_past amp (amps k ++ s) refl refl refl trim,
      )
      (parse_backs_lem k f (backcmd cmd) s e (omega arith))

pub front_of_pipe : (cmd : Cmd) → print front cmd ≡ print pipe cmd → ReadsPipe cmd → ReadsFront cmd
front_of_pipe cmd same h k s f e l =
    let n = ap length same in
    rw (same, h (amps k ++ s) f (amps-IsEnd k s e) (omega arith))
      (parse_backs_lem k f cmd s e (omega arith))

bind_assoc :
    {A B C : Type 0} (m : Parsed A) (f : A → Text → Parsed B) (g : B → Text → Parsed C)
    → (m >>= f >>= g) ≡ (m >>= λ a s. f a s >>= g)
bind_assoc (parsed a s) f g = refl
bind_assoc (panics e) f g = refl
bind_assoc no_fuel f g = refl

abbrev pub line_tail : ℕ → Cmd → Text → Parsed Cmd
line_tail f cmd s =
    if peek (semicolon ∷ []) s
    then (parseline f (gettoken (skip_space s)).1 >>= λ rest s'. parsed (listcmd cmd rest) s')
    else parsed cmd (skip_space s)

-- `parseline` after its first two steps.
pub parseline_front : (f : ℕ) (t : Text) → parseline (suc f) t ≡ (parsefront f t >>= line_tail f)
unfolding parseline
parseline_front f t =
    sym (bind_assoc (parsepipe f t) (λ first s1. parse_backs f first s1) (line_tail f))

pub line_of_front : (cmd : Cmd) → print line cmd ≡ print front cmd → ReadsFront cmd → ReadsLine cmd
line_of_front cmd same h s zero e l = absurd (omega arith)
line_of_front cmd same h s (suc f) e l =
    let n = ap length same in
    let ends = front_of_line s e in
    let trim = IsEnd-IsTrim s (single_of_pipe s (pipe_of_front s ends)) in
    parseline_front f (print line cmd ++ s)
    ∙ rw (
      same,
      h 0 s f ends (omega arith),
      peek-end line_ends (semicolon ∷ []) s e trim (λ c t. ground (arith, t)),
      skip_space_trim s trim,
    )
