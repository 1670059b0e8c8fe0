-- ===== src/Spinlock/Runs.antt =====
-- All runs of the CPUs over one lock.
use mathlib.Core.Path.{subst}
use os.Prelude.{
  ℕ, ◌-◌, ◌≡◌, ◌≢◌, refl, ◌∙◌, sym, ap, inl, inr, Bool, true, false, ◌&&◌, Option, none, some, ◌==◌,
  ltb, if◌then◌else◌, Outcome, ok, panic, fault, arith, Bool-cases, ◌>>=◌,
}
use os.Spinlock.{
  Cpu, Lock, pushcli, popcli, is_cpu, holding, acquire_start, release_start, release_end, Stage,
  outside, spins, enters, holds, leaves, System, update, Step, acquires, spins_on, wins, records,
  gives_up, frees, Reach, start, step,
}
use os.Spinlock.Exclusion.{
  IsSound, CpuIsSound, start-IsSound, acquires-IsSound, wins-IsSound, records-IsSound,
  gives_up-IsSound, frees-IsSound,
}

acquire_start-pushcli :
    (me : ℕ) (lk : Lock) (c c' : Cpu) → acquire_start me lk c ≡ ok c' → pushcli c ≡ c'
unfolding acquire_start
acquire_start-pushcli me lk c c' e = elim (Bool-cases (holding me lk)) [
  | inl held ↦ absurd (ground (arith, e, held))
  | inr free ↦ ground (arith, e, free)
]

release_start_lem :
    (me : ℕ) (lk lk' : Lock) → release_start me lk ≡ ok lk' → record lk { cpu = none } ≡ lk'
unfolding release_start
release_start_lem me lk lk' e = elim (Bool-cases (holding me lk)) [
  | inl held ↦ ground (arith, e, held)
  | inr free ↦ absurd (ground (arith, e, free))
]

-- The CPU after `popcli`, and the lock beside it.
bound_parts :
    (o : Outcome Cpu) (x lk : Lock) (c : Cpu)
    → ◌>>=◌ {B = Lock × Cpu} o (λ c'. ok (x, c')) ≡ ok (lk, c)
    → (o ≡ ok c) × (x ≡ lk)
bound_parts (ok c') x lk c e = (ground (arith, e), ground (arith, e))
bound_parts (panic m) x lk c e = absurd (ground (arith, e))
bound_parts fault x lk c e = absurd (ground (arith, e))

-- What one piece of a CPU's call does.
step-IsSound : (flags : ℕ → Bool) (s s' : System) → IsSound flags s → Step s s' → IsSound flags s'
step-IsSound flags s _ h (acquires me c o e) =
    subst
      (λ c'.
        IsSound flags
          (record s { cpu_at = update me c' s.cpu_at; stage = update me spins s.stage }))
      (acquire_start-pushcli me s.lock (s.cpu_at me) c e) (acquires-IsSound flags s me h o)
step-IsSound flags s _ h (spins_on me o e) = record {
  one = h.one;
  taken = λ a x. refl;
  named = h.named;
  names = h.names;
  cpus = h.cpus;
}
step-IsSound flags s _ h (wins me o e) = wins-IsSound flags s me h o e
step-IsSound flags s _ h (records me o) = records-IsSound flags s me h o
step-IsSound flags s _ h (gives_up me lk o e) =
    subst (λ l. IsSound flags (record s { lock = l; stage = update me leaves s.stage }))
      (release_start_lem me s.lock lk e) (gives_up-IsSound flags s me h o)
step-IsSound flags s _ h (frees me lk c o e) =
    let (popped, same) = bound_parts (popcli (s.cpu_at me)) _ lk c e in
    subst
      (λ l.
        IsSound flags
          (record s { lock = l; cpu_at = update me c s.cpu_at; stage = update me outside s.stage }))
      same (frees-IsSound flags s me h c o popped)

-- However the CPUs' calls interleave, one CPU at most has the lock at a time, the lock names the CPU
-- that holds it, and a CPU has its interrupts off from the start of `acquire` to the end of
-- `release`, with its own interrupt flag again after that.
pub System-IsSound : (flags : ℕ → Bool) (s : System) → Reach flags s → IsSound flags s
System-IsSound flags _ (start s l o c) = start-IsSound flags s l o c
System-IsSound flags _ (step s s' r t) = step-IsSound flags s s' (System-IsSound flags s r) t

-- How the pieces of a CPU's calls go on.
abbrev pub GoesOn : System → ℕ → Stage → Type 0
GoesOn s me outside = (c : Cpu) × (acquire_start me s.lock (s.cpu_at me) ≡ ok c)
GoesOn s me holds = (lk : Lock) × (release_start me s.lock ≡ ok lk)
GoesOn s me leaves = (next : Lock × Cpu) × (release_end s.lock (s.cpu_at me) ≡ ok next)
GoesOn s me spins = Unit {0}
GoesOn s me enters = Unit {0}

is_cpu-else : (me : ℕ) (o : Option ℕ) → o ≢ some me → is_cpu me o ≡ false
is_cpu-else me none n = refl
is_cpu-else me (some c) n = elim (Bool-cases (c == me)) [
  | inl it ↦ absurd (n (ap some (ground arith)))
  | inr other ↦ other
]

is_outside : Stage → Bool
is_outside outside = true
is_outside spins = false
is_outside enters = false
is_outside holds = false
is_outside leaves = false

outside≢holds : outside ≢ holds
unfolding is_outside
outside≢holds e = let f : true ≡ false = ap is_outside e in ground (arith, f)

popcli_goes_on : (c : Cpu) → c.ncli ≡ 1 → c.interrupts ≡ false → (c' : Cpu) × (popcli c ≡ ok c')
unfolding popcli
popcli_goes_on c n i =
    let deep : ltb c.ncli 1 ≡ false = ground (arith, n) in
    let after : Cpu = record c {
      ncli = c.ncli - 1;
      interrupts = if c.ncli - 1 == 0 && c.intena then true else c.interrupts;
    } in
    (after, rw (i, deep) refl)

stage-GoesOn :
    (flags : ℕ → Bool) (s : System) (me : ℕ) (st : Stage)
    → IsSound flags s
    → s.stage me ≡ st
    → GoesOn s me st
unfolding acquire_start release_start
stage-GoesOn flags s me outside h o = (
  pushcli (s.cpu_at me),
  (let other = is_cpu-else me s.lock.cpu (λ e. outside≢holds (sym o ∙ h.named me e)) in
      let free : holding me s.lock ≡ false = ground (arith, other) in rw free refl),
)
stage-GoesOn flags s me spins h o = tt
stage-GoesOn flags s me enters h o = tt
stage-GoesOn flags s me holds h o = (
  record s.lock { cpu = none },
  (let taken = h.taken me (rw o refl) in
      let mine = h.names me o in
      let held : holding me s.lock ≡ true = ground (arith, taken, mine) in rw held refl),
)
stage-GoesOn flags s me leaves h o =
    let (n, i, kept) = subst (CpuIsSound (flags me) (s.cpu_at me)) o (h.cpus me) in
    let (c, popped) = popcli_goes_on (s.cpu_at me) n i in
    ((record s.lock { taken = false }, c), rw popped refl)

-- In every run, neither `acquire` of a CPU that is outside nor `release` of the one that holds the
-- lock panics.
pub calls_go_on :
    (flags : ℕ → Bool) (s : System) (me : ℕ) → Reach flags s → GoesOn s me (s.stage me)
calls_go_on flags s me r = stage-GoesOn flags s me (s.stage me) (System-IsSound flags s r) refl
