-- ===== src/Write/Tests.antt =====
-- A write to a small file.
use os.Prelude.{ℕ, Option, none, List, [], ◌∷◌, false}
use os.Inode.{DiskInode}
use os.Bmap.Sample.{addrs}
use os.Transact.{Trans, begins}

abbrev file : DiskInode
file = record { type = 2; major = 0; minor = 0; nlink = 1; size = 3; addrs = addrs }

abbrev no_readers : ℕ → Option (ℕ → List ℕ)
no_readers k = none

abbrev no_writers : ℕ → Option (List ℕ → ℕ)
no_writers k = none

abbrev bytes : List ℕ
bytes = 97 ∷ 98 ∷ []

abbrev log : Trans
log = begins (record { size = 10; busy = false; lh = [] })
