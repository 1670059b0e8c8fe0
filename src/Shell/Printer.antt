-- ===== src/Shell/Printer.antt =====
-- How a command is written so that the parser reads it back.
use os.Prelude.{ℕ, ◌<◌, ◌≡◌, ◌⊎◌, true, List, [], ◌∷◌, ◌++◌, ◌==◌, if◌then◌else◌, length}
use os.Shell.{
  Text, bar, lparen, rparen, semicolon, amp, less, greater, in_word, Cmd, execcmd, redircmd,
  pipecmd, listcmd, backcmd, Redir, maxargs, o_rdonly, o_wronly_create,
}

-- Where a command stands: a whole line, before a `;`, in a pipeline, or as one command of it.
pub data Level : Type 0 where
  line front pipe single : Level

abbrev pub in_parens : Text → Text
in_parens t = lparen ∷ (t ++ rparen ∷ [])

-- Every word is followed by a space.
unfoldable pub print_args : List Text → Text
print_args [] = []
print_args (w ∷ ws) = w ++ 32 ∷ print_args ws

abbrev pub redir_symbol : ℕ → ℕ
redir_symbol fd = if fd == 0 then less else greater

unfoldable pub print_redirs : List Redir → Text
print_redirs [] = []
print_redirs ((file, mode, fd) ∷ rs) = redir_symbol fd ∷ (file ++ 32 ∷ print_redirs rs)

unfoldable pub print : Level → Cmd → Text
unfolding print_args print_redirs
print lv (execcmd args) = print_args args
print lv (redircmd cmd file mode fd) = print single cmd ++ print_redirs ((file, mode, fd) ∷ [])
print lv (pipecmd a b) =
    let t = print single a ++ bar ∷ print pipe b in
    elim lv [ line ↦ t | front ↦ t | pipe ↦ t | single ↦ in_parens t ]
print lv (backcmd a) =
    let t = print front a ++ amp ∷ [] in
    elim lv [ line ↦ t | front ↦ t | pipe ↦ in_parens t | single ↦ in_parens t ]
print lv (listcmd a b) =
    let t = print front a ++ semicolon ∷ print line b in
    elim lv [ line ↦ t | front ↦ in_parens t | pipe ↦ in_parens t | single ↦ in_parens t ]

abbrev pub AllChars : Text → Type 0
AllChars [] = Unit {0}
AllChars (c ∷ w) = (in_word c ≡ true) × AllChars w

-- A word has characters, and none that would end it.
abbrev pub IsWord : Text → Type 0
IsWord w = (0 < length w) × AllChars w

abbrev pub AllWords : List Text → Type 0
AllWords [] = Unit {0}
AllWords (w ∷ ws) = IsWord w × AllWords ws

-- `<` reads descriptor 0, and `>` writes descriptor 1.
abbrev pub IsRedir : Redir → Type 0
IsRedir (file, mode, fd) =
    IsWord file × (((mode ≡ o_rdonly) × (fd ≡ 0)) ⊎ ((mode ≡ o_wronly_create) × (fd ≡ 1)))

abbrev pub AllRedirs : List Redir → Type 0
AllRedirs [] = Unit {0}
AllRedirs (r ∷ rs) = IsRedir r × AllRedirs rs

-- What the shell's syntax can say: words, fewer than MAXARGS of them, and the two redirections.
unfoldable pub IsPrintable : Cmd → Type 0
IsPrintable (execcmd args) = AllWords args × (length args < maxargs)
IsPrintable (redircmd cmd file mode fd) = IsPrintable cmd × IsRedir (file, mode, fd)
IsPrintable (pipecmd a b) = IsPrintable a × IsPrintable b
IsPrintable (backcmd a) = IsPrintable a
IsPrintable (listcmd a b) = IsPrintable a × IsPrintable b
