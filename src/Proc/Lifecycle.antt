-- ===== src/Proc/Lifecycle.antt =====
-- Whole lives of processes: every sequence of critical sections, `wait`, and a signal to nobody.
use mathlib.Core.Path.{fun_ext}
use os.Prelude.{
  as_uint, find_index, find_index-Found, find_index-none, ℕ, ◌+◌, ◌≤◌, ◌<◌, ◌≡◌, refl, ◌∙◌, ◌≢◌,
  ◌⊎◌, inl, inr, Bool, true, false, ◌&&◌, some, ◌==◌, ok, arith, Option-cases, if_split, ap, ==_iff,
}
use os.Proc.{
  Proc, Table, unused, embryo, sleeping, runnable, running, zombie, Chan, WaitEnd, at_proc, at_addr,
  nproc, is_unused, is_child, is_zombie, set_proc, allocproc, fork_into, fork, child_of, wakeup1,
  exit, wait, wait_none, reaped, failed, waits, kill, sleep, tidy_up, yield_cpu, schedule, reap,
}
use os.Proc.Invariant.{IsSound}
use os.Proc.Steps.{
  wakeup1-IsSound, sleep-IsSound, tidy_up-IsSound, yield_cpu-IsSound, schedule-IsSound,
  kill-IsSound,
}
use os.Proc.Slots.{wait-IsSound, allocproc-IsSound, fork_into-IsSound}
use os.Proc.Exit.{exit-IsSound}

abbrev pub IsCurrent : ℕ → Table → Type 0
IsCurrent me t = (me < nproc) × ((t.proc me).state ≡ running)

-- One critical section. A `fork` is two: it finds a slot, while `nextpid` does not overflow, and fills
-- it in later. A process that sleeps anywhere but in `wait` sleeps on another address than
-- a process's.
pub data Step (t : Table) : Table → Type 0 where
  allocates : (page : ℕ) → t.nextpid < 2147483647 → Step t (allocproc page t).1
  fills :
      (me pgdir i : ℕ)
      → IsCurrent me t
      → i < nproc
      → (t.proc i).state ≡ embryo
      → Step t (fork_into me pgdir (some i) t).1
  exits : (me : ℕ) (u : Table) → IsCurrent me t → exit me t ≡ ok u → Step t u
  collects : (me : ℕ) → IsCurrent me t → Step t (wait me t).1
  kills : (pid : ℕ) → Step t (kill pid t).1
  wakes : (c : Chan) → Step t (wakeup1 c t)
  sleeps : (me a : ℕ) → IsCurrent me t → Step t (sleep me (at_addr a) t)
  tidies : (me : ℕ) → IsCurrent me t → Step t (tidy_up me t)
  yields : (me : ℕ) → IsCurrent me t → Step t (yield_cpu me t)
  schedules : (n i : ℕ) → i + n ≤ nproc → Step t (schedule n i t).1

pub data Reach (s : Table) : Table → Type 0 where
  here : Reach s s
  next : {t u : Table} → Reach s t → Step t u → Reach s u

Step-IsSound : {t u : Table} → Step t u → IsSound t → IsSound u
Step-IsSound {t} (allocates page few) s = allocproc-IsSound page t s few
Step-IsSound {t} (fills me pgdir i c inside new) s =
    fork_into-IsSound me pgdir i t s c.0 c.1 inside new
Step-IsSound {t} (exits me u c e) s = exit-IsSound me t u s c.0 c.1 e
Step-IsSound {t} (collects me c) s = wait-IsSound me t s c.0 c.1
Step-IsSound {t} (kills pid) s = kill-IsSound pid t s
Step-IsSound {t} (wakes c) s = wakeup1-IsSound c t s
Step-IsSound {t} (sleeps me a c) s = sleep-IsSound me (at_addr a) t s c.0 c.1 (cc)
Step-IsSound {t} (tidies me c) s = tidy_up-IsSound me t s c.0 c.1
Step-IsSound {t} (yields me c) s = yield_cpu-IsSound me t s c.0 c.1
Step-IsSound {t} (schedules n i b) s = schedule-IsSound n i t s b

-- As long as `nextpid` does not overflow, whatever slots are found and filled in by forks, and
-- whatever exits, waits, kills, sleeps, wakeups, yields and scheduler passes follow one another from a
-- sound table, in any order, the table stays sound: init is alive and has no parent, pids are below
-- the next one and unique, nobody is the child of a process that has exited or that `fork` has not
-- filled in, and no process sleeps in `wait` while it has a dead child to collect.
pub table-IsSound : {t u : Table} → Reach t u → IsSound t → IsSound u
table-IsSound here s = s
table-IsSound (next r st) s = Step-IsSound st (table-IsSound r s)

-- A dead child of `me`, and a child.
abbrev pub IsDeadChild : ℕ → Table → ℕ → Type 0
IsDeadChild me t i =
    (i < nproc) × (is_child (t.proc i).parent me ≡ true) × ((t.proc i).state ≡ zombie)

abbrev pub IsChild : ℕ → Table → ℕ → Type 0
IsChild me t i = (i < nproc) × (is_child (t.proc i).parent me ≡ true)

-- What a pass of `wait` comes to.
abbrev pub WaitReason : ℕ → Table → WaitEnd → Table → Type 0
WaitReason me t (reaped pid) u =
    (i : ℕ) × IsDeadChild me t i × ((t.proc i).pid ≡ pid) × (u ≡ set_proc i (reap (t.proc i)) t)
WaitReason me t failed u =
    (u ≡ t)
    × ((i : ℕ) → ¬ IsDeadChild me t i)
    × (((i : ℕ) → ¬ IsChild me t i) ⊎ ((t.proc me).killed ≡ true))
WaitReason me t waits u =
    ((i : ℕ) → ¬ IsDeadChild me t i)
    × ((i : ℕ) × IsChild me t i)
    × ((t.proc me).killed ≡ false)
    × (u ≡ set_proc me (record (t.proc me) { chan = at_proc me; state = sleeping }) t)

-- A pass of `wait` frees the slot of a dead child and returns its pid if there is one, and changes
-- no other slot. Without a dead child it returns -1 if there is no child or the process is killed,
-- and otherwise goes to sleep on the process itself.
pub wait_lem : (me : ℕ) (t : Table) → WaitReason me t (wait me t).0 (wait me t).1
unfolding wait wait_none
wait_lem me t = elim (Option-cases (find_index dead nproc 0)) [
  | inr (i, e) ↦
      let f = find_index-Found dead nproc 0 i e in
      rw (e, wait) (i, is_dead i f.in_range f.passes, refl, refl)
  | inl e ↦
      let no_dead = none_dead (find_index-none dead nproc 0 e) in
      rw (e, wait)
        (elim (Option-cases (find_index child nproc 0)) [
          | inl e' ↦
              rw e' (refl, no_dead, inl (λ i c. no_child (find_index-none child nproc 0 e') i c))
          | inr (i, e') ↦
              let f = find_index-Found child nproc 0 i e' in
              rw e' (
                if_split {A = WaitEnd × Table} (λ r. WaitReason me t (r.0) (r.1)) (t.proc me).killed
                  (λ k. (refl, no_dead, inr k))
                  (λ k. (no_dead, (i, (omega (arith, f.in_range), f.passes)), k, refl)))
        ])
]
  where
    dead : ℕ → Bool
    dead i = is_child (t.proc i).parent me && is_zombie (t.proc i).state

    child : ℕ → Bool
    child i = is_child (t.proc i).parent me

    is_dead : (i : ℕ) → i < 0 + nproc → dead i ≡ true → IsDeadChild me t i
    is_dead i a h = (omega arith, ground arith, ground arith)

    none_dead : ((j : ℕ) → 0 ≤ j → j < 0 + nproc → dead j ≡ false) → (i : ℕ) → ¬ IsDeadChild me t i
    none_dead h i d = ground (arith, h i)

    no_child : ((j : ℕ) → 0 ≤ j → j < 0 + nproc → child j ≡ false) → (i : ℕ) → ¬ IsChild me t i
    no_child h i d = ground (arith, h i)

allocproc_fills :
    (page i : ℕ) (u : Table)
    → find_index (λ j. is_unused (u.proc j).state) nproc 0 ≡ some i
    → page ≢ 0
    → allocproc page u ≡ (
      some i,
      set_proc i
          (record (u.proc i) { state = embryo; pid = u.nextpid; kstack = page })
          (record u { nextpid = as_uint (u.nextpid + 1) }),
    )
unfolding allocproc
allocproc_fills page i u e h = rw (e, allocproc) (ground arith)

fork_fills :
    (me page pgdir i : ℕ) (u : Table)
    → find_index (λ j. is_unused (u.proc j).state) nproc 0 ≡ some i
    → page ≢ 0
    → pgdir ≢ 0
    → let (pid, w) = fork me page pgdir u in
      (pid ≡ some u.nextpid)
      × ((w.proc i).pid ≡ u.nextpid)
      × ((w.proc i).state ≡ runnable)
      × ((w.proc i).killed ≡ (u.proc i).killed)
unfolding fork fork_into child_of
fork_fills me page pgdir i u e h h' = rw (allocproc_fills page i u e h) (ground arith)

kill_marks :
    (i : ℕ) (t : Table)
    → find_index (λ j. (t.proc j).pid == 0) nproc 0 ≡ some i
    → (t.proc i).state ≡ unused
    → kill 0 t ≡ (true, set_proc i (record (t.proc i) { killed = true }) t)
unfolding kill
kill_marks i t e idle = rw (e, kill) (rw idle)

-- `kill(0)` on a table whose first free slot is the first slot with pid 0: it reports success and marks the free slot as killed, and the next child that `fork`
-- makes gets that slot, runs, and is born killed.
pub kill_zero_hits_next_child :
    (me page pgdir i : ℕ) (t : Table)
    → IsCurrent me t
    → find_index (λ j. (t.proc j).pid == 0) nproc 0 ≡ some i
    → find_index (λ j. is_unused (t.proc j).state) nproc 0 ≡ some i
    → page ≢ 0
    → pgdir ≢ 0
    → let (done, u) = kill 0 t in
      let (pid, w) = fork me page pgdir u in
      (done ≡ true)
      × (pid ≡ some t.nextpid)
      × ((w.proc i).pid ≡ t.nextpid)
      × ((w.proc i).state ≡ runnable)
      × ((w.proc i).killed ≡ true)
kill_zero_hits_next_child me page pgdir i t c zero_pid free has_page has_pgdir =
    let f = find_index-Found (λ j. is_unused (t.proc j).state) nproc 0 i free in
    let idle : (t.proc i).state ≡ unused = ground (arith, f.passes) in
    let u : Table = set_proc i (record (t.proc i) { killed = true }) t in
    let same : (j : ℕ) → is_unused (u.proc j).state ≡ is_unused (t.proc j).state = λ j.
      if_split {A = Proc} (λ p. is_unused (p.state) ≡ is_unused (t.proc j).state) (i == j)
        (λ e. ap (λ k. is_unused (t.proc k).state) ((==_iff i j).0 e)) (λ e. refl) in
    let g = fork_fills me page pgdir i u (rw (fun_ext same) free) has_page has_pgdir in
    let k = kill_marks i t zero_pid idle in rw k (refl, g.0, g.1, g.2, g.3 ∙ ground arith)
