-- ===== src/Shell.antt =====
-- sh.c: the shell's tokenizer and recursive-descent parser.
--
-- The text from `*ps` to `es` is the list of its characters, none of them NUL; at its end `*s` is
-- NUL. A word is the characters from `q` to `eq`, which `nulterminate` cuts off once the whole text
-- is parsed, so it has nothing left to do here. `execcmd` is filled while redirections already
-- point at it: the parser keeps the arguments and the redirections apart and puts them together at
-- the end. `malloc` does not fail.
pub mod Lengths
pub mod Total
pub mod Words
pub mod Args
pub mod Printer
pub mod Places
pub mod Blocks
pub mod RoundTrip
mod Tests
use Prim.Native.String.{String}
use os.Prelude.{
  ℕ, zero, suc, ◌+◌, ◌*◌, Bool, true, false, not, ◌&&◌, ◌||◌, Option, none, some, List, [], ◌∷◌,
  ◌++◌, ◌==◌, leb, if◌then◌else◌, length,
}

abbrev pub Text : Type 0
Text = List ℕ

-- Characters, in ASCII.
abbrev pub bar : ℕ
bar = 124

abbrev pub lparen : ℕ
lparen = 40

abbrev pub rparen : ℕ
rparen = 41

abbrev pub semicolon : ℕ
semicolon = 59

abbrev pub amp : ℕ
amp = 38

abbrev pub less : ℕ
less = 60

abbrev pub greater : ℕ
greater = 62

-- `strchr(s, c)` as a test, for a character other than NUL.
abbrev pub strchr : Text → ℕ → Bool
strchr [] c = false
strchr (x ∷ s) c = x == c || strchr s c

abbrev pub whitespace : Text
whitespace = 32 ∷ 9 ∷ 13 ∷ 10 ∷ 11 ∷ []

abbrev pub symbols : Text
symbols = less ∷ bar ∷ greater ∷ amp ∷ semicolon ∷ lparen ∷ rparen ∷ []

pub skip_space : Text → Text
skip_space [] = []
skip_space (c ∷ s) = if strchr whitespace c then skip_space s else c ∷ s

abbrev pub in_word : ℕ → Bool
in_word c = not (strchr whitespace c) && not (strchr symbols c)

-- The characters up to the end of the word, and the rest.
pub take_word : Text → Text × Text
take_word [] = ([], [])
take_word (c ∷ s) = let (w, rest) = take_word s in if in_word c then (c ∷ w, rest) else ([], c ∷ s)

-- What `gettoken` returns: 0, a symbol, '+' for `>>`, or 'a' with the word.
pub data Token : Type 0 where
  end : Token
  symbol : ℕ → Token
  append : Token
  word : Text → Token

-- A token at the front of the text.
pub token_at : Text → Token × Text
token_at [] = (end, [])
token_at (c ∷ s) =
    if c == greater
    then elim s [
      | [] ↦ (symbol greater, [])
      | d ∷ s' ↦ if d == greater then (append, s') else (symbol greater, d ∷ s')
    ]
    else if strchr symbols c
    then (symbol c, s)
    else (word (take_word (c ∷ s)).0, (take_word (c ∷ s)).1)

pub gettoken : Text → Token × Text
gettoken s = let (t, rest) = token_at (skip_space s) in (t, skip_space rest)

abbrev pub starts_with : Text → Text → Bool
starts_with toks [] = false
starts_with toks (c ∷ s) = strchr toks c

-- `peek` also moves `*ps` past the white space: `skip_space s` is where it is left.
pub peek : Text → Text → Bool
peek toks s = starts_with toks (skip_space s)

pub data Cmd : Type 0 where
  execcmd : List Text → Cmd
  redircmd : Cmd → Text → ℕ → ℕ → Cmd
  pipecmd : Cmd → Cmd → Cmd
  listcmd : Cmd → Cmd → Cmd
  backcmd : Cmd → Cmd

-- A redirection: file, mode and descriptor.
abbrev pub Redir : Type 0
Redir = Text × ℕ × ℕ

abbrev pub redirected : Cmd → List Redir → Cmd
redirected cmd [] = cmd
redirected cmd ((file, mode, fd) ∷ rs) = redirected (redircmd cmd file mode fd) rs

-- MAXARGS, O_RDONLY, O_WRONLY|O_CREATE
abbrev pub maxargs : ℕ
maxargs = 10

abbrev pub o_rdonly : ℕ
o_rdonly = 0

abbrev pub o_wronly_create : ℕ
o_wronly_create = 513

pub data Parsed {ℓ} (A : Type ℓ) : Type ℓ where
  parsed : A → Text → Parsed A
  panics : String → Parsed A
  no_fuel : Parsed A

abbrev pub Parser {ℓ} : Type ℓ → Type ℓ
Parser A = Text → Parsed A

infixl 1 ◌>>=◌
abbrev pub ◌>>=◌ {ℓ κ} : {A : Type ℓ} {B : Type κ} → Parsed A → (A → Parser B) → Parsed B
parsed a s >>= f = f a s
panics m >>= f = panics m
no_fuel >>= f = no_fuel

-- The redirection that a token other than a word stands for.
abbrev pub redir_of : Token → Text → List Redir
redir_of (symbol c) file =
    if c == less then (file, o_rdonly, 0) ∷ [] else (file, o_wronly_create, 1) ∷ []
redir_of append file = (file, o_wronly_create, 1) ∷ []
redir_of end file = []
redir_of (word w) file = []

abbrev pub file_after : Token → Token × Text → Parsed (List Redir)
file_after tok (word file, rest) = parsed (redir_of tok file) rest
file_after tok (end, rest) = panics "missing file for redirection"
file_after tok (symbol c, rest) = panics "missing file for redirection"
file_after tok (append, rest) = panics "missing file for redirection"

-- One redirection, once `peek` has seen its symbol.
abbrev pub one_redir : Token × Text → Parsed (List Redir)
one_redir (tok, s) = file_after tok (gettoken s)

-- `parseredirs`, which wraps its command in the redirections it finds, in this order.
pub parseredirs : ℕ → Parser (List Redir)
parseredirs zero s = no_fuel
parseredirs (suc f) s =
    let more = one_redir (gettoken (skip_space s)) >>= λ r s'.
    parseredirs f s' >>= λ rs s''. parsed (r ++ rs) s'' in
    if peek (less ∷ greater ∷ []) s then more else parsed [] (skip_space s)

-- What `parseexec` does with the token after `peek`.
abbrev pub one_arg : Token × Text → List Text → (List Text → Parser Cmd) → Cmd → Parsed Cmd
one_arg (end, s) args next done = parsed done s
one_arg (word w, s) args next done =
    if leb maxargs (length args + 1) then panics "too many args" else next (args ++ w ∷ []) s
one_arg (symbol c, s) args next done = panics "syntax"
one_arg (append, s) args next done = panics "syntax"

-- The loop of `parseexec`, with the arguments and the redirections so far.
pub parse_args : ℕ → List Text → List Redir → Parser Cmd
parse_args zero args rs s = no_fuel
parse_args (suc f) args rs s =
    let done = redirected (execcmd args) rs in
    let next = λ (args' : List Text) (s' : Text).
      parseredirs f s' >>= λ more s''. parse_args f args' (rs ++ more) s'' in
    if peek (bar ∷ rparen ∷ amp ∷ semicolon ∷ []) s
    then parsed done (skip_space s)
    else one_arg (gettoken (skip_space s)) args next done

-- The loop of `parseline` over `&`.
pub parse_backs : ℕ → Cmd → Parser Cmd
parse_backs zero cmd s = no_fuel
parse_backs (suc f) cmd s =
    let more = parse_backs f (backcmd cmd) (gettoken (skip_space s)).1 in
    if peek (amp ∷ []) s then more else parsed cmd (skip_space s)

mutual
  pub parseline : ℕ → Parser Cmd
  parseline zero s = no_fuel
  parseline (suc f) s = parsepipe f s >>= λ first s1. parse_backs f first s1 >>= λ cmd s2.
      let more =
        parseline f (gettoken (skip_space s2)).1 >>= λ rest s3. parsed (listcmd cmd rest) s3 in
      if peek (semicolon ∷ []) s2 then more else parsed cmd (skip_space s2)

  pub parsepipe : ℕ → Parser Cmd
  parsepipe zero s = no_fuel
  parsepipe (suc f) s = parseexec f s >>= λ cmd s1.
      let more =
        parsepipe f (gettoken (skip_space s1)).1 >>= λ right s2. parsed (pipecmd cmd right) s2 in
      if peek (bar ∷ []) s1 then more else parsed cmd (skip_space s1)

  pub parseblock : ℕ → Parser Cmd
  parseblock zero s = no_fuel
  parseblock (suc f) s =
      let inside = parseline f (gettoken (skip_space s)).1 >>= λ cmd s1.
      let more =
        parseredirs f (gettoken (skip_space s1)).1 >>= λ rs s2. parsed (redirected cmd rs) s2 in
      if peek (rparen ∷ []) s1 then more else panics "syntax - missing )" in
      if peek (lparen ∷ []) s then inside else panics "parseblock"

  pub parseexec : ℕ → Parser Cmd
  parseexec zero s = no_fuel
  parseexec (suc f) s =
      let block = parseblock f (skip_space s) in
      let simple = parseredirs f (skip_space s) >>= λ rs s1. parse_args f [] rs s1 in
      if peek (lparen ∷ []) s then block else simple

-- Characters are left over, or the whole text is read.
abbrev pub finish : Cmd → Text → Parsed Cmd
finish cmd [] = parsed cmd []
finish cmd (c ∷ s) = panics "syntax"

pub parsecmd : ℕ → Parser Cmd
parsecmd fuel s = parseline fuel s >>= λ cmd rest. finish cmd (skip_space rest)
