-- ===== src/Blocks/Tests.antt =====
-- A disk of ten blocks, of which the first six are in use.
use os.Prelude.{◌≡◌, if◌then◌else◌, ◌&&◌, ◌==◌, arith}
use os.Blocks.{Disk, Superblock, bblock, balloc, bfree}
use os.Blocks.Alloc.{IsMap, BallocEnds, BfreeEnds, balloc_lem, bfree_lem}

abbrev small : Superblock
small = record { size = 10; nblocks = 5; ninodes = 8; nlog = 0 }

abbrev disk : Disk
disk b k = if b == 4 && k == 0 then 63 else 7

disk-IsMap : IsMap small disk
disk-IsMap y l =
    let block : bblock small y ≡ 4 = omega arith in rw block (omega arith, λ z. ground (arith, z))

balloc_lem_example : BallocEnds small disk (balloc small disk)
balloc_lem_example = balloc_lem small disk disk-IsMap

bfree_lem_example : BfreeEnds small 5 disk (bfree small 5 disk)
bfree_lem_example = bfree_lem small 5 disk
