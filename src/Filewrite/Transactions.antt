-- ===== src/Filewrite/Transactions.antt =====
-- The loop of `filewrite`.
use os.Prelude.{
  ℕ, ◌+◌, ◌≤◌, ◌≡◌, true, false, Option, some, List, [], length, Outcome, ok, panic, fault,
}
use os.Inode.{DiskInode}
use os.Blocks.{Disk, Superblock}
use os.Transact.{Trans}
use os.Filewrite.{FileWrite}
use os.Filewrite.Parts.{IsStored}

-- Between two transactions, of a log with room for one.
pub record IsIdle (t : Trans) : Type 0 where
  pub idle : t.busy ≡ false
  pub empty : t.lh ≡ []
  pub room : 10 ≤ t.size

-- All bytes are stored and the offset is behind them, or the disk is full.
abbrev pub StoresAll : Superblock → ℕ → DiskInode → ℕ → List ℕ → Disk → Outcome FileWrite → Type 0
StoresAll sb inum ip off bs d (ok w) =
    (w.complete ≡ true)
    × (w.off ≡ off + length bs)
    × IsIdle w.trans
    × IsStored sb inum ip off bs d w.ip w.disk
StoresAll sb inum ip off bs d (panic m) = m ≡ "balloc: out of blocks"
StoresAll sb inum ip off bs d fault = ⊥

-- The call returned `n` with all bytes stored, or the disk is full.
abbrev pub FilewritesAll :
    Superblock → ℕ → DiskInode → ℕ → List ℕ → Disk → Outcome (Option ℕ × FileWrite) → Type 0
FilewritesAll sb inum ip off bs d (ok (n, w)) =
    (n ≡ some (length bs))
    × (w.off ≡ off + length bs)
    × IsIdle w.trans
    × IsStored sb inum ip off bs d w.ip w.disk
FilewritesAll sb inum ip off bs d (panic m) = m ≡ "balloc: out of blocks"
FilewritesAll sb inum ip off bs d fault = ⊥
