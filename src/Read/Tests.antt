-- ===== src/Read/Tests.antt =====
-- A file of three bytes.
use os.Prelude.{ℕ, ◌≡◌, ◌/◌, refl, Option, none, List, if◌then◌else◌, ◌==◌, arith}
use os.Inode.{DiskInode}
use os.Blocks.{Disk, Superblock}
use os.Bmap.Addresses.{block_of}
use os.Read.Files.{IsDense}

abbrev small : Superblock
small = record { size = 10; nblocks = 5; ninodes = 8; nlog = 0 }

abbrev disk : Disk
disk b k = if b == 5 then 97 else 0

abbrev file : DiskInode
file = record {
  type = 2;
  major = 0;
  minor = 0;
  nlink = 1;
  size = 3;
  addrs = λ k. if k == 0 then 5 else 0;
}

abbrev no_devices : ℕ → Option (ℕ → List ℕ)
no_devices k = none

file-IsDense : IsDense file.addrs disk 1 3
file-IsDense j a l e =
    let first : j / 512 ≡ 0 = omega arith in
    let five : block_of file.addrs disk (j / 512) ≡ 5 = rw first refl in ground (arith, five, e)
