-- ===== src/Transact.antt =====
-- log.c under the file system: which sectors a transaction has logged, and `balloc` and `bmap` of fs.c
-- with their calls of `log_write`.
--
-- The contents of the logged blocks are those of the disk that the functions of Blocks and Bmap return;
-- here is the part of the log's state on which `log_write` panics. The blocks are written in the
-- places where the code writes them, and each call of `log_write` follows in the code's order.
pub mod Budget
pub mod Runs
pub mod Mapping
use os.Prelude.{
  ℕ, ◌-◌, Bool, true, false, not, ◌||◌, List, [], ◌==◌, ltb, leb, if◌then◌else◌, length, Outcome,
  ok, panic, fault, ◌>>=◌,
}
use os.Log.{logsize, record_sector}
use os.Blocks.{Disk, Superblock, bblock, balloc}
use os.Bmap.{Addrs, set_addr, word, set_word, ndirect, nindirect}

-- `log.size`, `log.busy` and `log.lh.sector`, of `log.lh.n` entries.
pub record Trans : Type 0 where
  pub size : ℕ
  pub busy : Bool
  pub lh : List ℕ

-- `begin_trans`, where no other transaction runs.
unfoldable pub begins : Trans → Trans
begins t = record t { busy = true }

-- `commit_trans`: the blocks are home and the header is erased.
unfoldable pub commits : Trans → Trans
commits t = record t { busy = false; lh = [] }

pub log_sector : ℕ → Trans → Outcome Trans
log_sector s t =
    if leb logsize (length t.lh) || leb (t.size - 1) (length t.lh)
    then panic "too big a transaction"
    else if not t.busy
    then panic "write outside of trans"
    else ok (record t { lh = record_sector s t.lh })

-- The block of the bitmap, and the new block that `bzero` has cleared.
abbrev pub log_new : Superblock → Trans → ℕ × Disk → Outcome ((ℕ × Disk) × Trans)
log_new sb t (x, d) =
    log_sector (bblock sb x) t >>= λ t'. log_sector x t' >>= λ t''. ok ((x, d), t'')

abbrev pub balloc_logged : Superblock → Disk → Trans → Outcome ((ℕ × Disk) × Trans)
balloc_logged sb d t = balloc sb d >>= log_new sb t

abbrev pub addr_set : ℕ → Addrs → (ℕ × Disk) × Trans → Outcome ((ℕ × Addrs × Disk) × Trans)
addr_set i addrs ((x, d), t) = ok ((x, set_addr i x addrs, d), t)

pub addr_logged : Superblock → ℕ → Addrs → Disk → Trans → Outcome ((ℕ × Addrs × Disk) × Trans)
addr_logged sb i addrs d t =
    let fresh = balloc_logged sb d t >>= addr_set i addrs in
    if addrs i == 0 then fresh else ok ((addrs i, addrs, d), t)

abbrev pub word_set : ℕ → ℕ → Addrs → (ℕ × Disk) × Trans → Outcome ((ℕ × Addrs × Disk) × Trans)
word_set b k addrs ((x, d), t) = log_sector b t >>= λ t'. ok ((x, addrs, set_word b k x d), t')

pub word_logged : Superblock → ℕ → (ℕ × Addrs × Disk) × Trans → Outcome ((ℕ × Addrs × Disk) × Trans)
word_logged sb k ((b, addrs, d), t) =
    let fresh = balloc_logged sb d t >>= word_set b k addrs in
    if word d b k == 0 then fresh else ok ((word d b k, addrs, d), t)

pub bmap_logged : Superblock → ℕ → Addrs → Disk → Trans → Outcome ((ℕ × Addrs × Disk) × Trans)
bmap_logged sb bn addrs d t =
    let indirect = addr_logged sb ndirect addrs d t >>= word_logged sb (bn - ndirect) in
    if ltb bn ndirect
    then addr_logged sb bn addrs d t
    else if ltb (bn - ndirect) nindirect
    then indirect
    else panic "bmap: out of range"
