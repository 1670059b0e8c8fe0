-- ===== src/Write.antt =====
-- fs.c: writing a file.
--
-- What is copied from `src` is a list of bytes, as many as `n`. A device's handler is a parameter,
-- as for reading. The fuel of the loop is a round for each byte and one more; without fuel it faults.
pub mod Blocks
pub mod Rounds
pub mod Files
pub mod Logged
pub mod Updates
pub mod ReadBack
mod Tests
use os.Prelude.{
  ℕ, zero, suc, ◌+◌, ◌-◌, ◌*◌, ◌/◌, ◌%◌, Bool, true, false, ◌&&◌, ◌||◌, Option, none, some, List,
  [], ◌∷◌, ◌==◌, ltb, leb, if◌then◌else◌, length, take, drop, get_or, Outcome, ok, panic, fault,
  ◌>>=◌,
}
use os.Inode.{DiskInode}
use os.Blocks.{Disk, Superblock}
use os.Bmap.{Addrs, bmap}
use os.Dinode.{iblock, iupdate}
use os.Transact.{Trans, log_sector, bmap_logged}
use os.Read.{bsize, t_dev, ndev, min}

-- MAXFILE*BSIZE
abbrev pub max_bytes : ℕ
max_bytes = 71680

abbrev pub write_bytes : ℕ → ℕ → List ℕ → Disk → Disk
write_bytes b o bs d c j =
    if c == b && (leb o j && ltb j (o + length bs)) then get_or bs (j - o) 0 else d c j

-- The loop, on the blocks alone.
pub write_rounds : Superblock → ℕ → ℕ → List ℕ → Addrs → Disk → Outcome (Addrs × Disk)
write_rounds sb zero off bs addrs d = fault
write_rounds sb (suc fuel) off bs addrs d =
    let m = min (length bs) (bsize - off % bsize) in
    let more = bmap sb (off / bsize) addrs d >>= λ (b, addrs', d').
    write_rounds sb fuel (off + m) (drop m bs) addrs'
      (write_bytes b (off % bsize) (take m bs) d') in
    if length bs == 0 then ok (addrs, d) else more

-- The loop, with the calls of `log_write`.
pub writei_loop :
    Superblock → ℕ → ℕ → List ℕ → Addrs → Disk → Trans → Outcome ((Addrs × Disk) × Trans)
writei_loop sb zero off bs addrs d t = fault
writei_loop sb (suc fuel) off bs addrs d t =
    let m = min (length bs) (bsize - off % bsize) in
    let more = bmap_logged sb (off / bsize) addrs d t >>= λ ((b, addrs', d'), t').
    log_sector b t' >>= λ t''.
    writei_loop sb fuel (off + m) (drop m bs) addrs' (write_bytes b (off % bsize) (take m bs) d')
      t'' in
    if length bs == 0 then ok ((addrs, d), t) else more

-- How `writei` returns: -1, or the number of bytes written.
pub data Writing : Type 0 where
  refuses : Writing
  writes : ℕ → DiskInode → Disk → Writing

abbrev pub write_device : (ℕ → Option (List ℕ → ℕ)) → DiskInode → List ℕ → Disk → Writing
write_device devsw ip bs d = elim (devsw ip.major) [
  | none ↦ refuses
  | some write ↦ writes (write bs) ip d
]

-- What the loop leaves, as a file: one that has grown is updated on the disk.
abbrev pub grow_file : ℕ → DiskInode → ℕ → List ℕ → Addrs × Disk → Outcome Writing
grow_file inum ip off bs (addrs, d) =
    let kept = record ip { addrs = addrs } in
    let grown = record ip { addrs = addrs; size = off + length bs } in
    if ltb 0 (length bs) && ltb ip.size (off + length bs)
    then ok (writes (length bs) grown (iupdate inum grown d))
    else ok (writes (length bs) kept d)

-- The same with the log: `iupdate` writes the block of the inode.
abbrev pub all_written :
    ℕ → DiskInode → ℕ → List ℕ → (Addrs × Disk) × Trans → Outcome (Writing × Trans)
all_written inum ip off bs ((addrs, d), t) =
    let kept = record ip { addrs = addrs } in
    let grown = record ip { addrs = addrs; size = off + length bs } in
    if ltb 0 (length bs) && ltb ip.size (off + length bs)
    then (log_sector (iblock inum) t >>= λ t'.
        ok (writes (length bs) grown (iupdate inum grown d), t'))
    else ok (writes (length bs) kept d, t)

pub writei :
    Superblock
    → (ℕ → Option (List ℕ → ℕ))
    → ℕ
    → DiskInode
    → ℕ
    → List ℕ
    → Disk
    → Trans
    → Outcome (Writing × Trans)
writei sb devsw inum ip off bs d t =
    let n = length bs in
    let total = (off + n) % 4294967296 in
    let file = writei_loop sb (n + 1) off bs ip.addrs d t >>= all_written inum ip off bs in
    if ip.type == t_dev
    then (if leb ndev ip.major then ok (refuses, t) else ok (write_device devsw ip bs d, t))
    else if ltb ip.size off || ltb total off
    then ok (refuses, t)
    else if ltb max_bytes total
    then ok (refuses, t)
    else file
