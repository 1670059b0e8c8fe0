-- ===== src/Directory/Adding.antt =====
-- `dirlink`, over the blocks of the directory.
use os.Prelude.{ℕ, ◌≤◌, ◌<◌, ◌≡◌, ◌⊎◌, [], Outcome, ok, panic, fault}
use os.Blocks.{Disk, Superblock}
use os.Bmap.Files.{byte_at, IsFile, IsForeign}
use os.Inode.{DiskInode, Inode, Icache}
use os.Transact.{Trans}
use os.Directory.{Content, Name, Linking, linked, present}
use os.Directory.Link.{IsLinked}

-- Two contents that no file tells apart.
record IsSame (c c' : Content) : Type 0 where
  size : c'.size ≡ c.size
  bounded : c.size ≤ 71680
  byte : (j : ℕ) → j < 71680 → c'.byte j ≡ c.byte j

-- What is in the file.
abbrev pub in_file : DiskInode → Disk → Content
in_file ip d = record { size = ip.size; byte = byte_at ip.addrs d }

-- The directory on the disk has the name, and other files are left alone; or the disk is full, or, for
-- a write that is not a small first one, the log.
unfoldable pub LinksName :
    Superblock → DiskInode → Name → ℕ → Disk → Trans → Icache → Outcome Linking → Type 0
LinksName sb ip name inum d t ic (ok (present p)) = ⊥
LinksName sb ip name inum d t ic (ok (linked ip' d' t' ic')) =
    IsLinked (in_file ip d) (in_file ip' d') name inum
    × IsFile sb ip'.addrs d'
    × ((c : ℕ) → IsForeign sb ip.addrs d c → IsForeign sb ip'.addrs d' c)
    × (ic' ≡ ic)
LinksName sb ip name inum d t ic (panic m) =
    (m ≡ "balloc: out of blocks")
    ⊎ ((m ≡ "too big a transaction") × (¬ ((sb.size ≤ 4096) × (t.lh ≡ []))))
LinksName sb ip name inum d t ic fault = ⊥
