-- ===== src/Directory/Tests.antt =====
-- A name added to a small directory.
use os.Prelude.{ℕ, Option, none, List, [], true, false}
use os.Inode.{Inode, Icache}
use os.Bmap.Sample.{addrs}
use os.Transact.{Trans}
use os.Directory.{t_dir}

abbrev no_inodes : Icache
no_inodes i = record {
  dev = 0;
  inum = 0;
  ref = 0;
  busy = false;
  valid = false;
  copy = record { type = 0; major = 0; minor = 0; nlink = 0; size = 0; addrs = λ k. 0 };
}

-- Its one entry is one of 7s.
abbrev folder : Inode
folder = record {
  dev = 1;
  inum = 1;
  ref = 1;
  busy = true;
  valid = true;
  copy = record { type = t_dir; major = 0; minor = 0; nlink = 1; size = 16; addrs = addrs };
}

abbrev no_writers : ℕ → Option (List ℕ → ℕ)
no_writers k = none

abbrev log : Trans
log = record { size = 10; busy = true; lh = [] }
