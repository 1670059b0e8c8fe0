-- ===== src/Bmap/Sample.antt =====
-- A file with one block on a disk of ten, of which six are in use, for the tests.

use os.Prelude.{ℕ, ◌≡◌, refl, if◌then◌else◌, ◌&&◌, ◌==◌, arith}
use os.Bmap.Addresses.{IsTaken}
use os.Bmap.Files.{pointer, IsFile, IsForeign}
use os.Blocks.{Disk, Superblock, bblock}
use os.Blocks.Alloc.{IsMap}
use os.Bmap.{Addrs}

abbrev pub small : Superblock
small = record { size = 10; nblocks = 5; ninodes = 8; nlog = 0 }

abbrev pub disk : Disk
disk b k = if b == 4 && k == 0 then 63 else 7

abbrev pub addrs : Addrs
addrs k = if k == 0 then 5 else 0

disk-IsMap : IsMap small disk
disk-IsMap y l =
    let block : bblock small y ≡ 4 = omega arith in rw block (omega arith, λ z. ground (arith, z))

block_5-IsTaken : IsTaken small disk 5
block_5-IsTaken = record {
  in_range = omega arith;
  in_use = λ z. ground (arith, z);
  no_map = λ y l e. let block : bblock small y ≡ 4 = omega arith in ground (arith, e, block);
}

first_only : (k : ℕ) → pointer addrs disk k ≡ (if k == 0 then 5 else 0)
first_only k = ground arith

pub file-IsFile : IsFile small addrs disk
file-IsFile = record {
  inode = record {
    bitmap = disk-IsMap;
    small = omega arith;
    some_size = omega arith;
    reserved = λ z. ground (arith, z);
    indirect = λ n. absurd (n refl);
  };
  taken = λ k l n.
      let e : pointer addrs disk k ≡ 5 = (let a = first_only k in ground (arith, a, n)) in
      rw e block_5-IsTaken;
  distinct =
      λ j k lj lk n e. let a = first_only j in let b = first_only k in ground (arith, a, b, n, e);
}

-- Block 2, with the inodes, is not the file's.
pub inodes-IsForeign : IsForeign small addrs disk 2
inodes-IsForeign = record {
  taken = record {
    in_range = omega arith;
    in_use = λ z. ground (arith, z);
    no_map = λ y l e. let block : bblock small y ≡ 4 = omega arith in ground (arith, e, block);
  };
  no_block = λ k l e. let a = first_only k in ground (arith, a, e);
}
