-- ===== src/Spinlock.antt =====
-- spinlock.c: a lock that several CPUs take, with the interrupt flags of the CPUs.
--
-- A CPU is its number. `acquire` and `release` are cut at their `xchg`, the only step that is atomic:
-- between the pieces of one CPU's call the other CPUs run. `pcs` and `name`, for debugging, are left
-- out, and the lock's pointer to its CPU is an option.
pub mod Exclusion
pub mod Runs
mod Tests
use os.Prelude.{
  ℕ, zero, suc, ◌+◌, ◌-◌, ◌≡◌, Bool, true, false, not, ◌&&◌, Option, none, some, ◌==◌, ltb,
  if◌then◌else◌, Outcome, ok, panic, fault, ◌>>=◌,
}

-- The nesting depth, the flag before the outermost `pushcli`, and the interrupt flag itself.
pub record Cpu : Type 0 where
  pub ncli : ℕ
  pub intena : Bool
  pub interrupts : Bool

pub record Lock : Type 0 where
  pub taken : Bool
  pub cpu : Option ℕ

abbrev pub initlock : Lock
initlock = record { taken = false; cpu = none }

pub pushcli : Cpu → Cpu
pushcli c = record {
  ncli = c.ncli + 1;
  intena = if c.ncli == 0 then c.interrupts else c.intena;
  interrupts = false;
}

pub popcli : Cpu → Outcome Cpu
popcli c =
    if c.interrupts
    then panic "popcli - interruptible"
    else if ltb c.ncli 1
    then panic "popcli"
    else ok (record c {
      ncli = c.ncli - 1;
      interrupts = if c.ncli - 1 == 0 && c.intena then true else c.interrupts;
    })

abbrev pub is_cpu : ℕ → Option ℕ → Bool
is_cpu me none = false
is_cpu me (some c) = c == me

abbrev pub holding : ℕ → Lock → Bool
holding me lk = lk.taken && is_cpu me lk.cpu

-- `acquire` up to its loop.
pub acquire_start : ℕ → Lock → Cpu → Outcome Cpu
acquire_start me lk c = if holding me lk then panic "acquire" else ok (pushcli c)

-- `xchg(&lk->locked, 1)`: the value before, and the lock after.
abbrev pub xchg : Lock → Bool × Lock
xchg lk = (lk.taken, record lk { taken = true })

-- `acquire` after its loop.
abbrev pub acquire_end : ℕ → Lock → Lock
acquire_end me lk = record lk { cpu = some me }

-- `release` up to its `xchg`.
pub release_start : ℕ → Lock → Outcome Lock
release_start me lk = if not (holding me lk) then panic "release" else ok (record lk { cpu = none })

-- `release` from its `xchg` on.
abbrev pub release_end : Lock → Cpu → Outcome (Lock × Cpu)
release_end lk c = popcli c >>= λ c'. ok (record lk { taken = false }, c')

-- Where a CPU is.
pub data Stage : Type 0 where
  outside : Stage
  spins : Stage
  enters : Stage
  holds : Stage
  leaves : Stage

pub record System : Type 0 where
  pub lock : Lock
  pub cpu_at : ℕ → Cpu
  pub stage : ℕ → Stage

abbrev pub update {ℓ} : {A : Type ℓ} → ℕ → A → (ℕ → A) → ℕ → A
update i a f j = if j == i then a else f j

-- A piece of one CPU's call. `xchg` returns 1 where the lock is taken, and changes nothing then.
pub data Step (s : System) : System → Type 0 where
  acquires :
      (me : ℕ) (c : Cpu)
      → s.stage me ≡ outside
      → acquire_start me s.lock (s.cpu_at me) ≡ ok c
      → Step s (record s { cpu_at = update me c s.cpu_at; stage = update me spins s.stage })
  spins_on :
      (me : ℕ)
      → s.stage me ≡ spins
      → (xchg s.lock).0 ≡ true
      → Step s (record s { lock = (xchg s.lock).1 })
  wins :
      (me : ℕ)
      → s.stage me ≡ spins
      → (xchg s.lock).0 ≡ false
      → Step s (record s { lock = (xchg s.lock).1; stage = update me enters s.stage })
  records :
      (me : ℕ)
      → s.stage me ≡ enters
      → Step s (record s { lock = acquire_end me s.lock; stage = update me holds s.stage })
  gives_up :
      (me : ℕ) (lk : Lock)
      → s.stage me ≡ holds
      → release_start me s.lock ≡ ok lk
      → Step s (record s { lock = lk; stage = update me leaves s.stage })
  frees :
      (me : ℕ) (lk : Lock) (c : Cpu)
      → s.stage me ≡ leaves
      → release_end s.lock (s.cpu_at me) ≡ ok (lk, c)
      → Step s
          (record s { lock = lk; cpu_at = update me c s.cpu_at; stage = update me outside s.stage })

-- The states that come about, from a new lock and CPUs outside of any lock, whose interrupt flags are
-- as given.
pub data Reach (flags : ℕ → Bool) : System → Type 0 where
  start :
      (s : System)
      → s.lock ≡ initlock
      → ((c : ℕ) → s.stage c ≡ outside)
      → ((c : ℕ) → ((s.cpu_at c).ncli ≡ 0) × ((s.cpu_at c).interrupts ≡ flags c))
      → Reach flags s
  step : (s s' : System) → Reach flags s → Step s s' → Reach flags s'
