-- ===== src/Descriptors/Calls.antt =====
-- Sequences of calls that open, duplicate and close descriptors.
use os.Prelude.{ℕ, Option, Outcome, ok, ◌>>=◌, List, [], ◌∷◌}
use os.Syscall.{Caller}
use os.File.{Table}
use os.Descriptors.{SyscallResult, sys_dup, sys_close, sys_pipe, open_inode}
use os.Descriptors.Uses.{Counted}
use os.Descriptors.Dup.{Keeps, keeps, sys_dup-Keeps}
use os.Descriptors.Close.{sys_close-Keeps}
use os.Descriptors.Open.{open_inode-Keeps}
use os.Descriptors.Pipes.{sys_pipe-Keeps}

-- A pipe comes with the page that `kalloc` gives, an open with the inode and the mode.
pub data Call : Type 0 where
  dup close : Call
  pipe : Option ℕ → Call
  opens : ℕ → ℕ → Call

-- What the process does before a call: it sets its stack pointer and its memory.
pub record Request : Type 0 where
  pub esp : ℕ
  pub memory : ℕ → ℕ
  pub call : Call

abbrev pub run_call : Call → Caller → Table → Outcome SyscallResult
run_call dup p t = sys_dup p t
run_call close p t = sys_close p t
run_call (pipe page) p t = sys_pipe page p t
run_call (opens ip omode) p t = open_inode ip omode p t

abbrev pub asking : Request → Caller → Caller
asking q p = record p { esp = q.esp; memory = q.memory }

-- The state after the calls.
abbrev pub run_calls : List Request → Caller → Table → Outcome (Caller × Table)
run_calls [] p t = ok (p, t)
run_calls (q ∷ qs) p t = run_call q.call (asking q p) t >>= λ r. run_calls qs r.caller r.files

pub data AllKept (others : ℕ → ℕ) : Outcome (Caller × Table) → Type 0 where
  all_kept : {p : Caller} {t : Table} → Counted others p t → AllKept others (ok (p, t))

run_call-Keeps :
    {o : ℕ → ℕ} (call : Call) (p : Caller) (t : Table) → Counted o p t → Keeps o (run_call call p t)
run_call-Keeps dup p t c = sys_dup-Keeps p t c
run_call-Keeps close p t c = sys_close-Keeps p t c
run_call-Keeps (pipe page) p t c = sys_pipe-Keeps page p t c
run_call-Keeps (opens ip omode) p t c = open_inode-Keeps ip omode p t c

after_call :
    {o : ℕ → ℕ} (qs : List Request) (r : Outcome SyscallResult)
    → Keeps o r
    → ((p : Caller) (t : Table) → Counted o p t → AllKept o (run_calls qs p t))
    → AllKept o (r >>= λ r. run_calls qs r.caller r.files)
after_call qs _ (keeps {r} c) h = h r.caller r.files c

-- From reference counts that are those of the process's descriptors and of others' references, any
-- sequence of `sys_dup`, `sys_close`, `sys_pipe` and of the part of `sys_open` that makes a file and a
-- descriptor for an inode, with any arguments, comes back without a panic of the file table and with
-- such counts. What a last close leaves to do for a pipe or an inode is not part of it.
pub run_calls-AllKept :
    (qs : List Request) {o : ℕ → ℕ} (p : Caller) (t : Table)
    → Counted o p t
    → AllKept o (run_calls qs p t)
run_calls-AllKept [] p t c = all_kept c
run_calls-AllKept (q ∷ qs) p t c =
    let c' : Counted _ (asking q p) t = record { counts = c.counts; idle = c.idle } in
    after_call qs (run_call q.call (asking q p) t) (run_call-Keeps q.call (asking q p) t c')
      (run_calls-AllKept qs)
