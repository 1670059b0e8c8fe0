-- ===== src/Log/Tests.antt =====
-- A transaction that is cut off at each point, and the theorems at it.
use os.Prelude.{ℕ, ◌≡◌, refl, ◌⊎◌, true, false, List, [], ◌∷◌, ◌<◌, some, ok, arith}
use os.Log.{Machine, begin_trans, log_writes, commit_trans, recover_from_log, reboot}
use os.Log.Transaction.{IsIdle, overwrite, transaction_atomic, transaction_commits}
use os.Log.Recover.{recover_lem}
use os.Log.Redo.{view}

-- Blocks are numbers; sectors below 100 are home blocks, and every block holds 7.
abbrev idle : ℕ → Machine ℕ
idle fuse = record {
  disk = λ s. 7;
  head = [];
  fuse = fuse;
  cache = λ s. 7;
  lh = [];
  start = 100;
  size = 10;
  busy = false;
}

abbrev active : ℕ → Machine ℕ
active fuse = record (idle fuse) { busy = true }

abbrev writes : List (ℕ × ℕ)
writes = (3, 30) ∷ (5, 50) ∷ (3, 31) ∷ []

idle-IsIdle : (fuse : ℕ) → IsIdle (idle fuse)
idle-IsIdle fuse = record { empty_head = refl; empty_log = refl; clean = λ t low. refl }

-- The machine after the writes.
full : ℕ → Machine ℕ
unfolding log_writes
full fuse = elim (log_writes writes (active fuse)) [ ok m ↦ m | _ ↦ idle fuse ]

full-ok : log_writes writes (active 9) ≡ ok (full 9)
unfolding full
full-ok = refl

begin-some : begin_trans (idle 9) ≡ some (active 9)
unfolding begin_trans
begin-some = refl

-- Three log writes and four of the commit: the sixth is the first of an installation.
after_failure : ℕ → ℕ → ℕ
unfolding full commit_trans recover_from_log reboot
after_failure fuse s = (recover_from_log (reboot 20 (commit_trans (full fuse)))).cache s

old_or_new :
    (after_failure 3 3 ≡ 7)
    × (after_failure 3 5 ≡ 7)
    × (after_failure 4 3 ≡ 31)
    × (after_failure 4 5 ≡ 50)
    × (after_failure 6 3 ≡ 31)
    × (after_failure 6 5 ≡ 50)
unfolding after_failure
old_or_new = (refl, refl, refl, refl, refl, refl)

transaction_atomic_example :
    let r = recover_from_log (reboot 1 (commit_trans (full 9))) in
    ((t : ℕ) → t < 100 → r.cache t ≡ 7)
    ⊎ ((t : ℕ) → t < 100 → r.cache t ≡ overwrite writes (idle 9).cache t)
transaction_atomic_example =
    transaction_atomic (idle 9) (active 9) (full 9) writes 1 (idle-IsIdle 9) (omega arith)
      begin-some full-ok

transaction_commits_example :
    IsIdle (commit_trans (full 9))
    × ((t : ℕ) → t < 100 → (commit_trans (full 9)).disk t ≡ overwrite writes (idle 9).cache t)
transaction_commits_example =
    transaction_commits (idle 9) (active 9) (full 9) writes (idle-IsIdle 9) (omega arith) begin-some
      full-ok power
  where
    power : 0 < (commit_trans (full 9)).fuse
    power = unfold full commit_trans in omega arith

recover_lem_example :
    let m : Machine ℕ = record (idle 9) { head = 3 ∷ 5 ∷ [] } in
    ((recover_from_log (reboot 1 m)).cache 3 ≡ view m 3)
    × (view (recover_from_log (reboot 1 m)) 3 ≡ view m 3)
recover_lem_example =
    recover_lem 1 (record (idle 9) { head = 3 ∷ 5 ∷ [] }) 3
      (omega arith, refl, (omega arith, refl, tt))
