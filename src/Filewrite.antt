-- ===== src/Filewrite.antt =====
-- file.c: writing to a file on the disk, in transactions that fit the log.
--
-- This is the branch of `filewrite` for a file that has an inode. Each round is a transaction of its
-- own, from `begin_trans`, once no other transaction runs, to `commit_trans`, and the disk that a
-- round ends with is what it commits. What is copied is a list of bytes, as
-- many as `n`. The fuel of the loop is a round for each byte and one more; without fuel it faults.
pub mod Parts
pub mod Transactions
mod Tests
use os.Prelude.{
  ℕ, zero, suc, ◌+◌, ◌-◌, ◌*◌, ◌/◌, Bool, true, false, Option, none, some, List, ◌==◌,
  if◌then◌else◌, length, take, drop, Outcome, ok, panic, fault, ◌>>=◌,
}
use os.Inode.{DiskInode}
use os.Blocks.{Disk, Superblock}
use os.Read.{min}
use os.Transact.{Trans, begins, commits}
use os.Write.{Writing, refuses, writes, writei}

-- `max`, from LOGSIZE
abbrev pub max_chunk : ℕ
max_chunk = (10 - 1 - 1 - 2) / 2 * 512

-- How the loop ends, at the offset of the file: `complete` tells `i == n`.
pub record FileWrite : Type 0 where
  pub complete : Bool
  pub off : ℕ
  pub ip : DiskInode
  pub disk : Disk
  pub trans : Trans

-- What follows `writei`, with the loop's next round as `rest`.
abbrev pub after_writei :
    ℕ
    → ℕ
    → DiskInode
    → Disk
    → (ℕ → DiskInode → Disk → Trans → Outcome FileWrite)
    → Writing × Trans
    → Outcome FileWrite
after_writei n1 off ip d rest (refuses, t) =
    ok (record { complete = false; off = off; ip = ip; disk = d; trans = commits t })
after_writei n1 off ip d rest (writes r ip' d', t) =
    if r == n1 then rest (off + r) ip' d' (commits t) else panic "short filewrite"

pub filewrite_loop :
    Superblock
    → (ℕ → Option (List ℕ → ℕ))
    → ℕ
    → ℕ
    → ℕ
    → List ℕ
    → DiskInode
    → Disk
    → Trans
    → Outcome FileWrite
filewrite_loop sb devsw inum zero off bs ip d t = fault
filewrite_loop sb devsw inum (suc fuel) off bs ip d t =
    let n1 = min (length bs) max_chunk in
    let round =
      writei sb devsw inum ip off (take n1 bs) d (begins t)
      >>= after_writei n1 off ip d
          (λ off' ip' d' t'. filewrite_loop sb devsw inum fuel off' (drop n1 bs) ip' d' t') in
    if length bs == 0
    then ok (record { complete = true; off = off; ip = ip; disk = d; trans = t })
    else round

-- `none` is -1, where not all was written.
pub filewrite :
    Superblock
    → (ℕ → Option (List ℕ → ℕ))
    → ℕ
    → ℕ
    → List ℕ
    → DiskInode
    → Disk
    → Trans
    → Outcome (Option ℕ × FileWrite)
filewrite sb devsw inum off bs ip d t =
    filewrite_loop sb devsw inum (length bs + 1) off bs ip d t >>= λ w.
    ok (if w.complete then some (length bs) else none, w)
