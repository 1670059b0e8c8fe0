-- ===== src/Directory.antt =====
-- fs.c: directories, as files of entries.
--
-- The bytes of a directory are those that `readi` gives, and `dirlink` writes by `writei`. The
-- name of an entry is the characters of its array up to a NUL; a name is the list of its characters.
pub mod Scan
pub mod Entries
pub mod Link
pub mod Adding
mod Tests
pub mod Holders
use os.Prelude.{
  ℕ, zero, suc, ◌+◌, ◌-◌, ◌*◌, ◌/◌, ◌%◌, Bool, true, false, not, ◌&&◌, ◌||◌, Option, none, some,
  List, [], ◌∷◌, ◌==◌, ltb, leb, if◌then◌else◌, get_or, Outcome, ok, panic, fault, ◌>>=◌,
}
use os.Blocks.{Disk, Superblock}
use os.Read.{bytes_from}
use os.Transact.{Trans}
use os.Write.{Writing, refuses, writes, writei}
use os.Inode.{DiskInode, Inode, Icache, iget, iput, Putting}

abbrev pub Name : Type 0
Name = List ℕ

-- T_DIR
abbrev pub t_dir : ℕ
t_dir = 1

-- DIRSIZ
abbrev pub dirsiz : ℕ
dirsiz = 14

-- sizeof(struct dirent)
abbrev pub dirent_size : ℕ
dirent_size = 16

-- MAXFILE*BSIZE
abbrev pub max_size : ℕ
max_size = 71680

-- What `readi` reads: the size and the bytes up to it.
pub record Content : Type 0 where
  pub size : ℕ
  pub byte : ℕ → ℕ

pub record Dirent : Type 0 where
  pub inum : ℕ
  pub name : Name

-- The characters at an offset up to a NUL, `n` at most.
pub until_nul : ℕ → (ℕ → ℕ) → ℕ → Name
until_nul zero b o = []
until_nul (suc n) b o = let rest = until_nul n b (o + 1) in if b o == 0 then [] else b o ∷ rest

abbrev pub dirent_at : (ℕ → ℕ) → ℕ → Dirent
dirent_at b off = record { inum = b off + 256 * b (off + 1); name = until_nul dirsiz b (off + 2) }

-- Whether `strncmp(s, t, n)` is 0.
pub strncmp_equal : ℕ → Name → Name → Bool
strncmp_equal zero s t = true
strncmp_equal (suc n) [] [] = true
strncmp_equal (suc n) [] (b ∷ t) = false
strncmp_equal (suc n) (a ∷ s) [] = false
strncmp_equal (suc n) (a ∷ s) (b ∷ t) = a == b && strncmp_equal n s t

-- Whether `namecmp(s, t)` is 0.
abbrev pub namecmp : Name → Name → Bool
namecmp s t = strncmp_equal dirsiz s t

-- Rounds enough for a loop over the entries of a directory.
abbrev pub rounds : Content → ℕ
rounds c = (c.size + 15) / dirent_size

-- The loop of `dirlookup`: the offset and the number of the entry found.
unfoldable pub look_up : Content → Name → ℕ → ℕ → Outcome (Option (ℕ × ℕ))
look_up c name zero off = ok none
look_up c name (suc n) off =
    let de = dirent_at c.byte off in
    let rest = look_up c name n (off + dirent_size) in
    if ltb off c.size
    then if ltb c.size (off + dirent_size)
      then panic "dirlink read"
      else if de.inum == 0
      then rest
      else if namecmp name de.name
      then ok (some (off, de.inum))
      else rest
    else ok none

abbrev pub content_of : Inode → (ℕ → ℕ) → Content
content_of dp bytes = record { size = dp.copy.size; byte = bytes }

-- The inode found, with its offset, or none.
abbrev pub got_entry : Inode → Icache → Option (ℕ × ℕ) → Outcome (Option (ℕ × ℕ) × Icache)
got_entry dp t none = ok (none, t)
got_entry dp t (some (off, inum)) = iget dp.dev inum t >>= λ (i, t'). ok (some (i, off), t')

unfoldable pub dirlookup : Inode → (ℕ → ℕ) → Name → Icache → Outcome (Option (ℕ × ℕ) × Icache)
dirlookup dp bytes name t =
    let c = content_of dp bytes in
    if dp.copy.type == t_dir
    then (look_up c name (rounds c) 0 >>= λ found. got_entry dp t found)
    else panic "dirlookup not DIR"

-- The loop of `dirlink`: the offset of the first empty entry, or the one past the last.
pub empty_entry : Content → ℕ → ℕ → Outcome ℕ
empty_entry c zero off = ok off
empty_entry c (suc n) off =
    let rest = empty_entry c n (off + dirent_size) in
    if ltb off c.size
    then if ltb c.size (off + dirent_size)
      then panic "dirlink read"
      else if (dirent_at c.byte off).inum == 0
      then ok off
      else rest
    else ok off

-- The bytes of an entry; `strncpy` fills the name's array with NULs.
abbrev pub dirent_byte : Name → ℕ → ℕ → ℕ
dirent_byte name inum k =
    if k == 0 then inum % 256 else if k == 1 then inum / 256 % 256 else get_or name (k - 2) 0

abbrev pub in_entry : ℕ → ℕ → Bool
in_entry off a = leb off a && ltb a (off + dirent_size)

-- The content with an entry written, which is what `writei` makes of it.
abbrev pub write_entry : Content → ℕ → Name → ℕ → Content
write_entry c off name inum = record {
  size = if ltb c.size (off + dirent_size) then off + dirent_size else c.size;
  byte = λ a. if in_entry off a then dirent_byte name inum (a - off) else c.byte a;
}

-- The bytes that `writei` is to write.
abbrev pub entry_bytes : Name → ℕ → List ℕ
entry_bytes name inum = bytes_from (dirent_byte name inum) 0 dirent_size

-- How `dirlink` returns: -1 for a name that is present, whose inode is put again, or 0, with what
-- `writei` leaves.
pub data Linking : Type 0 where
  present : Putting → Linking
  linked : DiskInode → Disk → Trans → Icache → Linking

abbrev pub all_linked : Icache → Writing × Trans → Outcome Linking
all_linked ic (refuses, t) = panic "dirlink"
all_linked ic (writes n ip d, t) =
    if n == dirent_size then ok (linked ip d t ic) else panic "dirlink"

-- The part of `dirlink` for a name that is not present.
pub add_entry :
    Superblock
    → (ℕ → Option (List ℕ → ℕ))
    → Inode
    → (ℕ → ℕ)
    → Name
    → ℕ
    → Disk
    → Trans
    → Icache
    → Outcome Linking
add_entry sb devsw dp bytes name inum d t ic =
    let c = content_of dp bytes in
    empty_entry c (rounds c) 0 >>= λ off.
    writei sb devsw dp.inum dp.copy off (entry_bytes name inum) d t >>= all_linked ic

abbrev pub link_end :
    Superblock
    → (ℕ → Option (List ℕ → ℕ))
    → Inode
    → (ℕ → ℕ)
    → Name
    → ℕ
    → Disk
    → Trans
    → Option (ℕ × ℕ) × Icache
    → Outcome Linking
link_end sb devsw dp bytes name inum d t (some (i, off), ic) = iput i ic >>= λ p. ok (present p)
link_end sb devsw dp bytes name inum d t (none, ic) = add_entry sb devsw dp bytes name inum d t ic

pub dirlink :
    Superblock
    → (ℕ → Option (List ℕ → ℕ))
    → Inode
    → (ℕ → ℕ)
    → Name
    → ℕ
    → Disk
    → Trans
    → Icache
    → Outcome Linking
dirlink sb devsw dp bytes name inum d t ic =
    dirlookup dp bytes name ic >>= λ found. link_end sb devsw dp bytes name inum d t found
