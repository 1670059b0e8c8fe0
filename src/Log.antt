-- ===== src/Log.antt =====
-- log.c: the redo log that makes a system call's writes to the file system atomic.
--
-- The contents of a block are of any type `B`. `cache` is what `bread` returns for a sector and
-- `disk` is what the sector holds; a change of a buffer reaches the cache alone, and `bwrite` both.
-- The header block, at sector `start`, is the field `head`: the first `n` entries of `sector`.
-- `fuse` counts the block writes that still reach the disk. At 0 the machine has lost its power:
-- whatever the code does after that changes memory only, which `reboot` discards.
pub mod Redo
pub mod Install
pub mod Commit
pub mod Recover
pub mod Write
pub mod Transaction
mod Tests
use os.Prelude.{
  ℕ, zero, suc, ◌+◌, ◌-◌, Bool, true, false, not, ◌||◌, List, [], ◌∷◌, ◌++◌, Option, none, some,
  ◌==◌, if◌then◌else◌, leb, ltb, length, Outcome, ok, panic, ◌>>=◌,
}

-- LOGSIZE
abbrev pub logsize : ℕ
logsize = 10

pub record Machine (B : Type 0) : Type 0 where
  pub disk : ℕ → B
  pub head : List ℕ
  pub fuse : ℕ
  pub cache : ℕ → B
  pub lh : List ℕ
  pub start : ℕ
  pub size : ℕ
  pub busy : Bool

-- The position of a sector in the log, or the log's length.
pub position : ℕ → List ℕ → ℕ
position s [] = 0
position s (x ∷ xs) = if x == s then 0 else suc (position s xs)

-- `lh.sector[i] = s`, and `lh.n++` if `i` was `lh.n`.
unfoldable pub record_sector : ℕ → List ℕ → List ℕ
record_sector s [] = s ∷ []
record_sector s (x ∷ xs) = if x == s then x ∷ xs else x ∷ record_sector s xs

module _ {B : Type 0} where
  abbrev pub update : (ℕ → B) → ℕ → B → ℕ → B
  update f s v t = if s == t then v else f t

  abbrev pub bread : Machine B → ℕ → B
  bread m s = m.cache s

  -- `bwrite` of a buffer of sector `s` that holds `v`.
  pub bwrite : ℕ → B → Machine B → Machine B
  bwrite s v m =
      if m.fuse == 0
      then record m { cache = update m.cache s v }
      else record m { cache = update m.cache s v; disk = update m.disk s v; fuse = m.fuse - 1 }

  pub read_head : Machine B → Machine B
  read_head m = record m { lh = m.head }

  -- `bwrite` of the header block.
  pub write_head : Machine B → Machine B
  write_head m = if m.fuse == 0 then m else record m { head = m.lh; fuse = m.fuse - 1 }

  -- The loop of `install_trans` from `tail` on, with the sectors left.
  pub install_loop : ℕ → List ℕ → Machine B → Machine B
  install_loop tail [] m = m
  install_loop tail (s ∷ ss) m =
      install_loop (suc tail) ss (bwrite s (bread m (m.start + tail + 1)) m)

  pub install_trans : Machine B → Machine B
  unfolding install_loop
  install_trans m = install_loop 0 m.lh m

  pub recover_from_log : Machine B → Machine B
  unfolding read_head install_trans write_head
  recover_from_log m = write_head (record (install_trans (read_head m)) { lh = [] })

  -- `none`: another transaction is active and the caller sleeps on the log.
  pub begin_trans : Machine B → Option (Machine B)
  begin_trans m = if m.busy then none else some (record m { busy = true })

  pub commit_trans : Machine B → Machine B
  unfolding write_head install_trans
  commit_trans m =
      if ltb 0 (length m.lh)
      then record (write_head (record (install_trans (write_head m)) { lh = [] })) { busy = false }
      else record m { busy = false }

  -- `log_write` of the buffer of sector `s`, which the caller has changed to hold `v`.
  pub log_write : ℕ → B → Machine B → Outcome (Machine B)
  unfolding bwrite position record_sector
  log_write s v m =
      if leb logsize (length m.lh) || leb (m.size - 1) (length m.lh)
      then panic "too big a transaction"
      else if not m.busy
      then panic "write outside of trans"
      else ok (
          bwrite (m.start + position s m.lh + 1) v
            (record m { cache = update m.cache s v; lh = record_sector s m.lh }))

  -- The power comes back: memory is lost, and `k` block writes will reach the disk before the next
  -- failure.
  pub reboot : ℕ → Machine B → Machine B
  reboot k m = record m { fuse = k; cache = m.disk; lh = []; busy = false }

  -- The writes of one system call, between `begin_trans` and `commit_trans`.
  pub log_writes : List (ℕ × B) → Machine B → Outcome (Machine B)
  unfolding log_write
  log_writes [] m = ok m
  log_writes ((s, v) ∷ ws) m = log_write s v m >>= log_writes ws
