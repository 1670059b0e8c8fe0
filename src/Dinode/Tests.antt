-- ===== src/Dinode/Tests.antt =====
-- Inodes on a small disk.
use os.Prelude.{ℕ, ◌≡◌, ◌≢◌, false, if◌then◌else◌, ◌==◌, ◌&&◌, arith}
use os.Inode.{DiskInode}
use os.Blocks.{Disk, Superblock}
use os.Dinode.{dinode_at, in_dinode, iupdate}
use os.Dinode.Bytes.{Same, dinode_at-iupdate}

abbrev small : Superblock
small = record { size = 10; nblocks = 5; ninodes = 8; nlog = 0 }

-- Inode 1 is a directory.
abbrev disk : Disk
disk b j = if b == 2 && j == 64 then 1 else 0

abbrev file : DiskInode
file = record { type = 2; major = 0; minor = 0; nlink = 1; size = 700; addrs = λ i. 0 }

dinode_at-iupdate_example :
    Same (dinode_at (iupdate 3 file disk) 3) file
    × ((other : ℕ)
        → other ≢ 3
        → Same (dinode_at (iupdate 3 file disk) other) (dinode_at disk other))
    × ((c j : ℕ) → in_dinode 3 c j ≡ false → iupdate 3 file disk c j ≡ disk c j)
dinode_at-iupdate_example = dinode_at-iupdate 3 file disk (record {
  type = omega arith;
  major = omega arith;
  minor = omega arith;
  nlink = omega arith;
  size = omega arith;
  addrs = λ i l. omega arith;
})
