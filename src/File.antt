-- ===== src/File.antt =====
-- file.c: the table of open files and their reference counts.
--
-- A file is its index in the table. The last close of a file ends with what is left to do outside
-- the table, as a value: closing a pipe's end, or dropping an inode in a transaction of its own.
pub mod Counts
mod Tests
use os.Prelude.{
  ℕ, ◌+◌, ◌-◌, Bool, true, false, Option, none, some, ◌==◌, ltb, if◌then◌else◌, Outcome, ok, panic,
  find_index,
}

-- NFILE
abbrev pub nfile : ℕ
nfile = 100

pub data FileType : Type 0 where
  fd_none fd_pipe fd_inode : FileType

pub record File : Type 0 where
  pub type : FileType
  pub ref : ℕ
  pub readable : Bool
  pub writable : Bool
  pub pipe : ℕ
  pub ip : ℕ
  pub off : ℕ

abbrev pub Table : Type 0
Table = ℕ → File

abbrev pub set_file : ℕ → File → Table → Table
set_file i f t j = if i == j then f else t j

abbrev pub found : Table → Option ℕ → Option (ℕ × Table)
found t none = none
found t (some i) = some (i, set_file i (record (t i) { ref = 1 }) t)

-- `none` is the null pointer.
unfoldable pub filealloc : Table → Option (ℕ × Table)
filealloc t = found t (find_index (λ i. (t i).ref == 0) nfile 0)

unfoldable pub filedup : ℕ → Table → Outcome Table
filedup i t =
    if ltb (t i).ref 1
    then panic "filedup"
    else ok (set_file i (record (t i) { ref = (t i).ref + 1 }) t)

pub data Closing : Type 0 where
  still_open : Closing
  nothing : Closing
  closes_pipe : ℕ → Bool → Closing
  puts_inode : ℕ → Closing

abbrev pub closing : File → Closing
closing f = elim f.type [
  | fd_none ↦ nothing
  | fd_pipe ↦ closes_pipe f.pipe f.writable
  | fd_inode ↦ puts_inode f.ip
]

unfoldable pub fileclose : ℕ → Table → Outcome (Closing × Table)
fileclose i t =
    let f = t i in
    if ltb f.ref 1
    then panic "fileclose"
    else if ltb 0 (f.ref - 1)
    then ok (still_open, set_file i (record f { ref = f.ref - 1 }) t)
    else ok (closing f, set_file i (record f { ref = 0; type = fd_none }) t)
