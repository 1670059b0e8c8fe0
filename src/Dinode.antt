-- ===== src/Dinode.antt =====
-- fs.c: the inodes on the disk.
--
-- An inode is 64 bytes of a block: four `short`s, the size and thirteen addresses, each with its low
-- byte first. `ialloc` ends with the number that it calls `iget` with.
pub mod Bytes
pub mod Alloc
mod Tests
use os.Prelude.{
  ℕ, zero, suc, ◌+◌, ◌-◌, ◌*◌, ◌/◌, ◌%◌, Bool, true, false, ◌&&◌, ◌==◌, ltb, if◌then◌else◌, Outcome,
  ok, panic, fault,
}
use os.Inode.{DiskInode}
use os.Blocks.{Disk, Superblock}
use os.Bmap.{word, byte_of}

-- IBLOCK(i)
abbrev pub iblock : ℕ → ℕ
iblock inum = inum / 8 + 2

-- The `short` at a byte.
abbrev pub half : Disk → ℕ → ℕ → ℕ
half d b o = d b o + 256 * d b (o + 1)

abbrev pub dinode_at : Disk → ℕ → DiskInode
dinode_at d inum =
    let b = iblock inum in
    let o = 64 * (inum % 8) in
    record {
      type = half d b o;
      major = half d b (o + 2);
      minor = half d b (o + 4);
      nlink = half d b (o + 6);
      size = word d b (16 * (inum % 8) + 2);
      addrs = λ i. word d b (16 * (inum % 8) + 3 + i);
    }

abbrev pub dinode_byte : DiskInode → ℕ → ℕ
dinode_byte ip k =
    if ltb k 2
    then byte_of ip.type k
    else if ltb k 4
    then byte_of ip.major (k - 2)
    else if ltb k 6
    then byte_of ip.minor (k - 4)
    else if ltb k 8
    then byte_of ip.nlink (k - 6)
    else if ltb k 12
    then byte_of ip.size (k - 8)
    else byte_of (ip.addrs ((k - 12) / 4)) ((k - 12) % 4)

abbrev pub in_dinode : ℕ → ℕ → ℕ → Bool
in_dinode inum c j = c == iblock inum && j / 64 == inum % 8

pub iupdate : ℕ → DiskInode → Disk → Disk
iupdate inum ip d c j = if in_dinode inum c j then dinode_byte ip (j % 64) else d c j

-- `memset` of the inode to 0, and its type.
pub claim : ℕ → ℕ → Disk → Disk
claim inum type d c j =
    if in_dinode inum c j then (if ltb (j % 64) 2 then byte_of type (j % 64) else 0) else d c j

pub ialloc_loop : Superblock → ℕ → Disk → ℕ → ℕ → Outcome (ℕ × Disk)
ialloc_loop sb type d zero inum = panic "ialloc: no inodes"
ialloc_loop sb type d (suc n) inum =
    let rest = ialloc_loop sb type d n (inum + 1) in
    if ltb inum sb.ninodes
    then (if (dinode_at d inum).type == 0 then ok (inum, claim inum type d) else rest)
    else panic "ialloc: no inodes"

pub ialloc : Superblock → ℕ → Disk → Outcome (ℕ × Disk)
ialloc sb type d = ialloc_loop sb type d sb.ninodes 1
