-- ===== src/Console.antt =====
-- console.c: the line being edited and the lines to be read.
--
-- The indices are `uint`s that as_uint around at 2 ^ 32. What `getc` gives is a list of characters. The
-- echo on the screen, the process listing and the user's memory are left out: a read returns the
-- characters that it copies to `dst`. Where the reader sleeps, a later run goes on with what it still
-- wants. The inode that `consoleread` unlocks meanwhile has no part in it.
pub mod Window
pub mod Keys
pub mod Appending
pub mod Editing
pub mod Reads
pub mod RoundTrip
mod Tests
use os.Prelude.{
  as_uint, ℕ, zero, suc, ◌+◌, ◌-◌, ◌%◌, Bool, true, false, not, ◌&&◌, ◌||◌, List, [], ◌∷◌, ◌++◌,
  ◌==◌, ltb, if◌then◌else◌,
}

-- INPUT_BUF
abbrev pub input_buf : ℕ
input_buf = 128

abbrev pub distance : ℕ → ℕ → ℕ
distance a b = as_uint (a + 4294967296 - b)

pub record Input : Type 0 where
  pub buf : ℕ → ℕ
  pub r : ℕ
  pub w : ℕ
  pub e : ℕ

-- Characters, in ASCII.
abbrev pub newline : ℕ
newline = 10

abbrev pub carriage_return : ℕ
carriage_return = 13

abbrev pub control_d : ℕ
control_d = 4

abbrev pub control_h : ℕ
control_h = 8

abbrev pub control_p : ℕ
control_p = 16

abbrev pub control_u : ℕ
control_u = 21

abbrev pub delete : ℕ
delete = 127

-- The character before the edit index.
abbrev pub last_char : Input → ℕ
last_char s = s.buf (distance s.e 1 % input_buf)

abbrev pub back : Input → Input
back s = record s { e = distance s.e 1 }

-- `C('U')`, with as many rounds as the buffer has places.
pub kill_line : ℕ → Input → Input
kill_line zero s = s
kill_line (suc n) s =
    let rest = kill_line n (back s) in
    if not (s.e == s.w) && not (last_char s == newline) then rest else s

abbrev pub set_char : ℕ → ℕ → (ℕ → ℕ) → ℕ → ℕ
set_char i c buf j = if j == i then c else buf j

abbrev pub as_newline : ℕ → ℕ
as_newline c = if c == carriage_return then newline else c

-- The character is in the buffer; the line is over where it ends it or the buffer is full.
abbrev pub end_line : ℕ → Input → Input
end_line c s =
    if c == newline || (c == control_d || s.e == as_uint (s.r + input_buf))
    then record s { w = s.e }
    else s

abbrev pub put_char : ℕ → Input → Input
put_char c s =
    end_line c (record s { buf = set_char (s.e % input_buf) c s.buf; e = as_uint (s.e + 1) })

-- One character.
pub type_char : ℕ → Input → Input
type_char c s =
    if c == control_p
    then s
    else if c == control_u
    then kill_line input_buf s
    else if c == control_h || c == delete
    then (if not (s.e == s.w) then back s else s)
    else if not (c == 0) && ltb (distance s.e s.r) input_buf
    then put_char (as_newline c) s
    else s

pub consoleintr : List ℕ → Input → Input
consoleintr [] s = s
consoleintr (c ∷ cs) s = consoleintr cs (type_char c s)

-- How a run of the reader ends: it returns, or returns -1, or it sleeps with `n` characters still
-- wanted. The characters are those copied to `dst`.
pub data Received : Type 0 where
  returns : List ℕ → Input → Received
  fails : List ℕ → Input → Received
  sleeps : ℕ → List ℕ → Input → Received

abbrev pub with_char : ℕ → Received → Received
with_char c (returns cs s) = returns (c ∷ cs) s
with_char c (fails cs s) = fails (c ∷ cs) s
with_char c (sleeps n cs s) = sleeps n (c ∷ cs) s

-- The loop of `consoleread`; `killed` is `proc->killed`, and `started` tells whether a character has
-- been read.
pub read_chars : Bool → Bool → ℕ → Input → Received
read_chars killed started zero s = returns [] s
read_chars killed started (suc n) s =
    let c = s.buf (s.r % input_buf) in
    let s' = record s { r = as_uint (s.r + 1) } in
    let more = with_char c (read_chars killed true n s') in
    if s.r == s.w
    then (if killed then fails [] s else sleeps (suc n) [] s)
    else if c == control_d
    then returns [] (if started then record s { r = distance (s'.r) 1 } else s')
    else if c == newline
    then returns (c ∷ []) s'
    else more
