-- ===== src/Inode.antt =====
-- fs.c: the cache of in-memory inodes, with their reference counts and locks.
--
-- An inode is its index in `icache`. The disk's copy of an inode is a parameter here; the number
-- and the device of an entry tell which one it is. Freeing the content of an inode without links
-- (`itrunc` and `iupdate` in `iput`) comes between two critical sections, and its result is an
-- argument of the second. Where `ilock` sleeps it ends, and starts again when it is woken.
pub mod Scan
pub mod Counts
mod Tests
use os.Prelude.{
  ℕ, zero, suc, ◌+◌, ◌-◌, Bool, true, false, not, ◌&&◌, ◌||◌, Option, none, some, ◌==◌, ltb,
  if◌then◌else◌, Outcome, ok, panic, fault,
}

-- NINODE
abbrev pub ninode : ℕ
ninode = 50

-- What the disk keeps of an inode.
pub record DiskInode : Type 0 where
  pub type : ℕ
  pub major : ℕ
  pub minor : ℕ
  pub nlink : ℕ
  pub size : ℕ
  pub addrs : ℕ → ℕ

pub record Inode : Type 0 where
  pub dev : ℕ
  pub inum : ℕ
  pub ref : ℕ
  pub busy : Bool
  pub valid : Bool
  pub copy : DiskInode

abbrev pub Icache : Type 0
Icache = ℕ → Inode

abbrev pub set_inode : ℕ → Inode → Icache → Icache
set_inode i ip t j = if i == j then ip else t j

-- What the loop of `iget` comes to: the inode is cached, or it is not, with the first empty entry.
pub data Seen : Type 0 where
  cached : ℕ → Seen
  absent : Option ℕ → Seen

abbrev pub is_cached : ℕ → ℕ → Inode → Bool
is_cached dev inum ip = ltb 0 ip.ref && (ip.dev == dev && ip.inum == inum)

-- Remember the first empty entry.
abbrev pub remember : Option ℕ → Inode → ℕ → Option ℕ
remember (some e) ip i = some e
remember none ip i = if ip.ref == 0 then some i else none

pub iget_loop : ℕ → ℕ → Icache → ℕ → ℕ → Option ℕ → Seen
iget_loop dev inum t zero i empty = absent empty
iget_loop dev inum t (suc n) i empty =
    let rest = iget_loop dev inum t n (i + 1) (remember empty (t i) i) in
    if is_cached dev inum (t i) then cached i else rest

abbrev pub recycled : ℕ → ℕ → Inode → Inode
recycled dev inum ip = record ip { dev = dev; inum = inum; ref = 1; busy = false; valid = false }

abbrev pub iget_end : ℕ → ℕ → Icache → Seen → Outcome (ℕ × Icache)
iget_end dev inum t (cached i) = ok (i, set_inode i (record (t i) { ref = (t i).ref + 1 }) t)
iget_end dev inum t (absent none) = panic "iget: no inodes"
iget_end dev inum t (absent (some i)) = ok (i, set_inode i (recycled dev inum (t i)) t)

pub iget : ℕ → ℕ → Icache → Outcome (ℕ × Icache)
iget dev inum t = iget_end dev inum t (iget_loop dev inum t ninode 0 none)

pub idup : ℕ → Icache → Icache
idup i t = set_inode i (record (t i) { ref = (t i).ref + 1 }) t

-- How `ilock` ends.
pub data Locking : Type 0 where
  sleeps : Locking
  locked : Icache → Locking

-- With the lock held, the inode is read from the disk if it is not valid.
abbrev pub load_inode : DiskInode → ℕ → Icache → Outcome Locking
load_inode disk i t =
    let t' = set_inode i (record (t i) { valid = true; copy = disk }) t in
    if (t i).valid
    then ok (locked t)
    else if disk.type == 0
    then panic "ilock: no type"
    else ok (locked t')

pub ilock : (ℕ → ℕ → DiskInode) → ℕ → Icache → Outcome Locking
ilock disk i t =
    let ip = t i in
    if ltb ip.ref 1
    then panic "ilock"
    else if ip.busy
    then ok sleeps
    else load_inode (disk ip.dev ip.inum) i (set_inode i (record ip { busy = true }) t)

pub iunlock : ℕ → Icache → Outcome Icache
iunlock i t =
    if not (t i).busy || ltb (t i).ref 1
    then panic "iunlock"
    else ok (set_inode i (record (t i) { busy = false }) t)

-- How `iput` ends: the holder is gone, or the inode is to be freed on the disk first.
pub data Putting : Type 0 where
  put : Icache → Putting
  freeing : Icache → Putting

-- `iput` up to the first `release`.
pub iput : ℕ → Icache → Outcome Putting
iput i t =
    let ip = t i in
    if ip.ref == 1 && (ip.valid && ip.copy.nlink == 0)
    then if ip.busy
      then panic "iput busy"
      else ok (freeing (set_inode i (record ip { busy = true }) t))
    else ok (put (set_inode i (record ip { ref = ip.ref - 1 }) t))

-- The rest of `iput`, once the inode is freed and its copy is `freed`.
abbrev pub iput_freed : DiskInode → ℕ → Icache → Icache
iput_freed freed i t =
    let ip = t i in
    set_inode i (record ip { ref = ip.ref - 1; busy = false; valid = false; copy = freed }) t

unfoldable pub iunlockput : ℕ → Icache → Outcome Putting
iunlockput i t = elim (iunlock i t) [ ok t' ↦ iput i t' | panic m ↦ panic m | fault ↦ fault ]
