-- ===== src/Read.antt =====
-- fs.c: reading a file.
--
-- What is copied to `dst` is the list of bytes returned. A device's handler, an entry of `devsw`, is a
-- parameter. The fuel of the loop is a round for each byte and one more, since every round copies
-- one; without fuel the loop faults.
pub mod Bytes
pub mod Files
mod Tests
use os.Prelude.{
  ℕ, zero, suc, ◌+◌, ◌-◌, ◌*◌, ◌/◌, ◌%◌, Bool, true, false, ◌||◌, Option, none, some, List, [], ◌∷◌,
  ◌++◌, ◌==◌, ltb, leb, if◌then◌else◌, Outcome, ok, panic, fault, ◌>>=◌,
}
use os.Inode.{DiskInode}
use os.Blocks.{Disk, Superblock}
use os.Bmap.{Addrs, bmap}

-- BSIZE
abbrev pub bsize : ℕ
bsize = 512

-- T_DEV
abbrev pub t_dev : ℕ
t_dev = 3

-- NDEV
abbrev pub ndev : ℕ
ndev = 10

-- `n` bytes from an offset on.
abbrev pub bytes_from : (ℕ → ℕ) → ℕ → ℕ → List ℕ
bytes_from f o zero = []
bytes_from f o (suc n) = f o ∷ bytes_from f (o + 1) n

abbrev pub min : ℕ → ℕ → ℕ
min a b = if ltb a b then a else b

-- How `readi` returns: -1, or the bytes read.
pub data Reading : Type 0 where
  fails : Reading
  reads : List ℕ → Addrs → Disk → Reading

abbrev pub before_rest : List ℕ → List ℕ × Addrs × Disk → Outcome (List ℕ × Addrs × Disk)
before_rest bs (rest, addrs, d) = ok (bs ++ rest, addrs, d)

pub read_loop : Superblock → ℕ → ℕ → ℕ → Addrs → Disk → Outcome (List ℕ × Addrs × Disk)
read_loop sb zero off left addrs d = fault
read_loop sb (suc fuel) off left addrs d =
    let m = min left (bsize - off % bsize) in
    let more = bmap sb (off / bsize) addrs d >>= λ (b, addrs', d').
    read_loop sb fuel (off + m) (left - m) addrs' d'
    >>= before_rest (bytes_from (d' b) (off % bsize) m) in
    if left == 0 then ok ([], addrs, d) else more

abbrev pub read_device : (ℕ → Option (ℕ → List ℕ)) → DiskInode → ℕ → Disk → Reading
read_device devsw ip n d = elim (devsw ip.major) [
  | none ↦ fails
  | some read ↦ reads (read n) ip.addrs d
]

-- Up to the end of the file; `off + n` wraps around.
abbrev pub clipped : DiskInode → ℕ → ℕ → ℕ
clipped ip off n = if ltb ip.size ((off + n) % 4294967296) then ip.size - off else n

abbrev pub all_read : List ℕ × Addrs × Disk → Outcome Reading
all_read (bs, addrs, d) = ok (reads bs addrs d)

pub readi : Superblock → (ℕ → Option (ℕ → List ℕ)) → DiskInode → ℕ → ℕ → Disk → Outcome Reading
readi sb devsw ip off n d =
    let m = clipped ip off n in
    let file = read_loop sb (m + 1) off m ip.addrs d >>= all_read in
    if ip.type == t_dev
    then (if leb ndev ip.major then ok fails else ok (read_device devsw ip n d))
    else if ltb ip.size off || ltb ((off + n) % 4294967296) off
    then ok fails
    else file
