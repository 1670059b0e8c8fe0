-- ===== src/Proc/Steps.antt =====
-- The critical sections that change one process, or wake some, keep the table sound.
use os.Prelude.{
  find_index, find_index-Found, ℕ, ◌+◌, ◌≤◌, ◌<◌, ◌≡◌, refl, ◌∙◌, ◌≢◌, inl, inr, true, ◌==◌, arith,
  Bool-cases, Option-cases,
}
use os.Proc.{
  Proc, Table, sleeping, runnable, running, Chan, at_proc, nproc, is_runnable, is_sleeping,
  set_proc, wakeup1, kill, sleep, tidy_up, yield_cpu, schedule,
}
use os.Proc.Effects.{IsWoken, wake-IsWoken}
use os.Proc.Invariant.{IsAlive, IsSound}

-- A process that changes its state, its channel or its `killed` flag, stays alive and does not go
-- to sleep in `wait`.
module _ (t : Table) (me : ℕ) (p : Proc) (s : IsSound t) (in_range : me < nproc)
    (old_alive : IsAlive (t.proc me)) (alive : IsAlive p) (same_pid : p.pid ≡ (t.proc me).pid)
    (same_parent : p.parent ≡ (t.proc me).parent)
    (awake : p.state ≡ sleeping
      → p.chan ≡ at_proc me
      → ((t.proc me).state ≡ sleeping) × ((t.proc me).chan ≡ at_proc me)) where
  set_alive-IsSound : IsSound (set_proc me p t)
  set_alive-IsSound = record {
    init_index = s.init_index;
    init_alive = ground (arith, s.init_alive);
    init_parent = ground (arith, s.init_parent);
    not_own_parent = λ i a b c. ground (arith, s.not_own_parent i, s.not_own_parent me);
    pid_given = λ i a b. ground (arith, s.pid_given i, s.pid_given me);
    pid_unique =
        λ i j a b c d e. ground (arith, s.pid_unique i j, s.pid_unique i me, s.pid_unique me j);
    unused_parent = λ i a b. ground (arith, s.unused_parent i, s.unused_parent me);
    embryo_parent = λ i a b. ground (arith, s.embryo_parent i, s.embryo_parent me);
    parent_alive = λ i q a b c. ground (arith, s.parent_alive i q, s.parent_alive me q);
    no_lost_wakeup = λ i q a b c d e. ground (arith, s.no_lost_wakeup i q);
  }

-- A change of the fields that the invariant does not read.
module _ (t : Table) (me : ℕ) (p : Proc) (s : IsSound t) (same_state : p.state ≡ (t.proc me).state)
    (same_pid : p.pid ≡ (t.proc me).pid) (same_parent : p.parent ≡ (t.proc me).parent)
    (same_chan : p.chan ≡ (t.proc me).chan) where
  set_same-IsSound : IsSound (set_proc me p t)
  set_same-IsSound = record {
    init_index = s.init_index;
    init_alive = ground (arith, s.init_alive);
    init_parent = ground (arith, s.init_parent);
    not_own_parent = λ i a b c. ground (arith, s.not_own_parent i, s.not_own_parent me);
    pid_given = λ i a b. ground (arith, s.pid_given i, s.pid_given me);
    pid_unique =
        λ i j a b c d e. ground (arith, s.pid_unique i j, s.pid_unique i me, s.pid_unique me j);
    unused_parent = λ i a b. ground (arith, s.unused_parent i, s.unused_parent me);
    embryo_parent = λ i a b. ground (arith, s.embryo_parent i, s.embryo_parent me);
    parent_alive = λ i q a b c. ground (arith, s.parent_alive i q, s.parent_alive me q);
    no_lost_wakeup = λ i q a b c d e. ground (arith, s.no_lost_wakeup i q, s.no_lost_wakeup me q);
  }

-- Any processes are woken, and nothing else changes.
woken-IsSound :
    (t u : Table)
    → IsSound t
    → u.nextpid ≡ t.nextpid
    → u.initproc ≡ t.initproc
    → ((j : ℕ) → IsWoken (t.proc j) (u.proc j) × ((u.proc j).parent ≡ (t.proc j).parent))
    → IsSound u
woken-IsSound t u s en ei w = record {
  init_index = rw ei s.init_index;
  init_alive = rw ei (ground (arith, s.init_alive, w t.initproc));
  init_parent = rw ei ((w t.initproc).1 ∙ s.init_parent);
  not_own_parent = λ i a b c. ground (arith, s.not_own_parent i, w i);
  pid_given = λ i a b. ground (arith, s.pid_given i, w i);
  pid_unique = λ i j a b c d e. ground (arith, s.pid_unique i j, w i, w j);
  unused_parent = λ i a b. ground (arith, s.unused_parent i, w i);
  embryo_parent = λ i a b. ground (arith, s.embryo_parent i, w i);
  parent_alive = λ i q a b c. ground (arith, s.parent_alive i q, w i, w q);
  no_lost_wakeup = λ i q a b c d e. ground (arith, s.no_lost_wakeup i q, w i, w q);
}

pub wakeup1-IsSound : (c : Chan) (t : Table) → IsSound t → IsSound (wakeup1 c t)
unfolding wakeup1
wakeup1-IsSound c t s = woken-IsSound t (wakeup1 c t) s refl refl (λ j. wake-IsWoken c (t.proc j))

pub sleep-IsSound :
    (me : ℕ) (c : Chan) (t : Table)
    → IsSound t
    → me < nproc
    → (t.proc me).state ≡ running
    → c ≢ at_proc me
    → IsSound (sleep me c t)
unfolding sleep
sleep-IsSound me c t s b r ne =
    set_alive-IsSound t me _ s b (ground arith) (ground arith) refl refl (λ _ e. absurd (ne e))

pub tidy_up-IsSound :
    (me : ℕ) (t : Table)
    → IsSound t
    → me < nproc
    → (t.proc me).state ≡ running
    → IsSound (tidy_up me t)
unfolding tidy_up
tidy_up-IsSound me t s b r =
    set_alive-IsSound t me _ s b (ground arith) (ground arith) refl refl (λ e f. ground arith)

pub yield_cpu-IsSound :
    (me : ℕ) (t : Table)
    → IsSound t
    → me < nproc
    → (t.proc me).state ≡ running
    → IsSound (yield_cpu me t)
unfolding yield_cpu
yield_cpu-IsSound me t s b r =
    set_alive-IsSound t me _ s b (ground arith) (ground arith) refl refl (λ e f. ground arith)

pub schedule-IsSound :
    (n i : ℕ) (t : Table) → IsSound t → i + n ≤ nproc → IsSound (schedule n i t).1
unfolding schedule
schedule-IsSound n i t s b =
    elim (Option-cases (find_index (λ j. is_runnable (t.proc j).state) n i)) [
      | inl e ↦ rw (e, schedule) s
      | inr (j, e) ↦
          let f = find_index-Found (λ j. is_runnable (t.proc j).state) n i j e in
          rw (e, schedule)
            (set_alive-IsSound t j _ s (omega (arith, f.in_range)) (ground (arith, f.passes))
              (ground arith) refl refl (λ e f. ground arith))
    ]

pub kill-IsSound : (pid : ℕ) (t : Table) → IsSound t → IsSound (kill pid t).1
unfolding kill
kill-IsSound pid t s = elim (Option-cases (find_index (λ i. (t.proc i).pid == pid) nproc 0)) [
  | inl e ↦ rw (e, kill) s
  | inr (i, e) ↦
      let f = find_index-Found (λ i. (t.proc i).pid == pid) nproc 0 i e in
      rw (e, kill)
        (elim (Bool-cases (is_sleeping (t.proc i).state)) [
          | inl asleep ↦ rw asleep (
              set_alive-IsSound t i (record (t.proc i) { killed = true; state = runnable }) s
                (omega (arith, f.in_range)) (ground arith) (ground arith) refl refl
                (λ e f. ground arith))
          | inr awake ↦
              rw awake
                (set_same-IsSound t i (record (t.proc i) { killed = true }) s refl refl refl refl)
        ])
]

pub set_proc_self : (i : ℕ) (p : Proc) (t : Table) → (set_proc i p t).proc i ≡ p
set_proc_self i p t = ground arith
