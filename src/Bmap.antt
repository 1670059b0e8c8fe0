-- ===== src/Bmap.antt =====
-- fs.c: the blocks of a file.
--
-- An inode's addresses are a function of the index in `addrs`; the words of the indirect block are
-- four bytes each, the low one first.
pub mod Words
pub mod Addresses
pub mod Files
pub mod Adding
pub mod Maps
pub mod Sample
mod Tests
use os.Prelude.{
  ℕ, zero, suc, ◌+◌, ◌-◌, ◌*◌, ◌/◌, ◌%◌, Bool, true, false, ◌&&◌, ◌==◌, ltb, if◌then◌else◌, Outcome,
  ok, panic, fault, ◌>>=◌,
}
use os.Blocks.{Disk, Superblock, balloc}

-- NDIRECT
abbrev pub ndirect : ℕ
ndirect = 12

-- NINDIRECT
abbrev pub nindirect : ℕ
nindirect = 128

abbrev pub Addrs : Type 0
Addrs = ℕ → ℕ

abbrev pub set_addr : ℕ → ℕ → Addrs → Addrs
set_addr i x addrs j = if j == i then x else addrs j

-- `a[k]` of the block.
abbrev pub word : Disk → ℕ → ℕ → ℕ
word d b k =
    d b (4 * k) + 256 * d b (4 * k + 1) + 65536 * d b (4 * k + 2) + 16777216 * d b (4 * k + 3)

abbrev pub byte_of : ℕ → ℕ → ℕ
byte_of v j =
    if j == 0
    then v % 256
    else if j == 1
    then v / 256 % 256
    else if j == 2
    then v / 65536 % 256
    else v / 16777216 % 256

abbrev pub set_word : ℕ → ℕ → ℕ → Disk → Disk
set_word b k v d c j = if c == b && j / 4 == k then byte_of v (j % 4) else d c j

-- The address at an index of the inode, allocated if there is none.
abbrev pub allocated : ℕ → Addrs → ℕ × Disk → Outcome (ℕ × Addrs × Disk)
allocated i addrs (x, d) = ok (x, set_addr i x addrs, d)

unfoldable pub addr_at : Superblock → ℕ → Addrs → Disk → Outcome (ℕ × Addrs × Disk)
addr_at sb i addrs d =
    let fresh = balloc sb d >>= allocated i addrs in
    if addrs i == 0 then fresh else ok (addrs i, addrs, d)

-- The same for a word of the indirect block.
abbrev pub put_word : ℕ → ℕ → Addrs → ℕ × Disk → Outcome (ℕ × Addrs × Disk)
put_word b k addrs (x, d) = ok (x, addrs, set_word b k x d)

unfoldable pub word_at : Superblock → ℕ → ℕ × Addrs × Disk → Outcome (ℕ × Addrs × Disk)
word_at sb k (b, addrs, d) =
    let fresh = balloc sb d >>= put_word b k addrs in
    if word d b k == 0 then fresh else ok (word d b k, addrs, d)

unfoldable pub bmap : Superblock → ℕ → Addrs → Disk → Outcome (ℕ × Addrs × Disk)
bmap sb bn addrs d =
    let indirect = addr_at sb ndirect addrs d >>= word_at sb (bn - ndirect) in
    if ltb bn ndirect
    then addr_at sb bn addrs d
    else if ltb (bn - ndirect) nindirect
    then indirect
    else panic "bmap: out of range"
