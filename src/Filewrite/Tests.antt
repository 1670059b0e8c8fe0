-- ===== src/Filewrite/Tests.antt =====
-- A write to a small file.
use os.Prelude.{ℕ, Option, none, List, [], false, replicate}
use os.Inode.{DiskInode}
use os.Bmap.Sample.{addrs}
use os.Transact.{Trans}

abbrev file : DiskInode
file = record { type = 2; major = 0; minor = 0; nlink = 1; size = 3; addrs = addrs }

abbrev no_writers : ℕ → Option (List ℕ → ℕ)
no_writers k = none

abbrev bytes : List ℕ
bytes = replicate 2000 97

abbrev log : Trans
log = record { size = 10; busy = false; lh = [] }
