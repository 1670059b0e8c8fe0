-- ===== src/Shell/Tests.antt =====
-- Concrete commands.
use Prim.Native.String.{String}
use os.Prelude.{◌≡◌, ◌⊎◌, inl, refl, [], ◌∷◌, arith}
use os.Shell.Printer.{Level, print, print_args, print_redirs, IsPrintable}
use os.Shell.Total.{parsecmd_total}
use os.Shell.RoundTrip.{parsecmd-print}
use os.Shell.{
  Text, Cmd, execcmd, pipecmd, listcmd, redircmd, backcmd, parsecmd, parseline, parse_backs,
  parse_args, parseredirs, gettoken, peek, token_at, take_word, skip_space, parsed, panics,
}

-- `a <b|c;d&`
abbrev line : Text
line = 97 ∷ 32 ∷ 60 ∷ 98 ∷ 124 ∷ 99 ∷ 59 ∷ 100 ∷ 38 ∷ []

line_parses :
    parsecmd 40 line
    ≡ parsed
        (listcmd
          (pipecmd (redircmd (execcmd ((97 ∷ []) ∷ [])) (98 ∷ []) 0 0) (execcmd ((99 ∷ []) ∷ [])))
          (backcmd (execcmd ((100 ∷ []) ∷ []))))
        []
unfolding parsecmd parseline parse_backs parse_args parseredirs gettoken peek token_at take_word
    skip_space
line_parses = refl

-- `a <b | (c &)`
abbrev command : Cmd
command =
    pipecmd (redircmd (execcmd ((97 ∷ []) ∷ [])) (98 ∷ []) 0 0) (backcmd (execcmd ((99 ∷ []) ∷ [])))

command-IsPrintable : IsPrintable command
unfolding IsPrintable
command-IsPrintable = (
  ((((omega arith, (refl, tt)), tt), omega arith), ((omega arith, (refl, tt)), inl (refl, refl))),
  (((omega arith, (refl, tt)), tt), omega arith),
)

parsecmd-print_example : parsecmd 60 (print Level.line command) ≡ parsed command []
unfolding print print_args print_redirs
parsecmd-print_example = parsecmd-print command 60 command-IsPrintable (omega arith)

-- `(`: the parser panics.
parsecmd_total_example :
    ((cmd : Cmd) × (parsecmd 9 (40 ∷ []) ≡ parsed cmd []))
    ⊎ ((why : String) × (parsecmd 9 (40 ∷ []) ≡ panics why))
parsecmd_total_example = parsecmd_total (40 ∷ []) 9 (omega arith)
