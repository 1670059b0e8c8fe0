-- ===== src/Proc/Invariant.antt =====
-- What holds of the process table between the critical sections.
use os.Prelude.{ℕ, ◌<◌, ◌≡◌, ◌≢◌, none, some}
use os.Proc.{Proc, Table, unused, embryo, sleeping, zombie, at_proc, nproc}

-- A process that exists, has been filled in by `fork`, and has not exited.
abbrev pub IsAlive : Proc → Type 0
IsAlive p = (p.state ≢ unused) × (p.state ≢ zombie) × (p.state ≢ embryo)

pub record IsSound (t : Table) : Type 0 where
  pub init_index : t.initproc < nproc
  pub init_alive : IsAlive (t.proc t.initproc)
  -- a pid that was given out is below the next one, and no two processes share one
  pub pid_given : (i : ℕ) → i < nproc → (t.proc i).state ≢ unused → (t.proc i).pid < t.nextpid
  pub pid_unique :
      (i j : ℕ)
      → i < nproc
      → j < nproc
      → (t.proc i).state ≢ unused
      → (t.proc j).state ≢ unused
      → (t.proc i).pid ≡ (t.proc j).pid
      → i ≡ j
  -- init has no parent, and nobody is its own
  pub init_parent : (t.proc t.initproc).parent ≡ none
  pub not_own_parent : (i : ℕ) → i < nproc → (t.proc i).state ≢ unused → (t.proc i).parent ≢ some i
  -- a slot that is free, or that `fork` has not filled in yet, has no parent
  pub unused_parent : (i : ℕ) → i < nproc → (t.proc i).state ≡ unused → (t.proc i).parent ≡ none
  pub embryo_parent : (i : ℕ) → i < nproc → (t.proc i).state ≡ embryo → (t.proc i).parent ≡ none
  -- nobody is the child of a process that has exited, or is not filled in
  pub parent_alive :
      (i p : ℕ)
      → i < nproc
      → (t.proc i).state ≢ unused
      → (t.proc i).parent ≡ some p
      → (p < nproc) × IsAlive (t.proc p)
  -- a process that sleeps in `wait` has no dead child to collect: no wakeup was lost
  pub no_lost_wakeup :
      (i p : ℕ)
      → i < nproc
      → (t.proc i).state ≡ zombie
      → (t.proc i).parent ≡ some p
      → (t.proc p).state ≡ sleeping
      → (t.proc p).chan ≢ at_proc p
