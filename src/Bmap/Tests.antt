-- ===== src/Bmap/Tests.antt =====
-- `bmap` on a small file.
use os.Prelude.{arith}
use os.Bmap.{bmap}
use os.Bmap.Maps.{Maps, bmap-Maps}
use os.Bmap.Sample.{small, disk, addrs, file-IsFile}

-- The block behind the indirect one, which is new as well.
bmap-Maps_example : Maps small 12 addrs disk (bmap small 12 addrs disk)
bmap-Maps_example = bmap-Maps small 12 addrs disk (omega arith) file-IsFile
