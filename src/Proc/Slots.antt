-- ===== src/Proc/Slots.antt =====
-- Slots given back and filled: `wait` and `fork` keep the table sound.
use os.Prelude.{
  as_uint, ◌∙◌, find_index, find_index-Found, find_index-none, ℕ, ◌+◌, ◌≤◌, ◌<◌, ◌≡◌, refl, sym,
  inl, inr, Bool, true, false, ◌&&◌, Option, none, some, ◌==◌, arith, Option-cases, if_ind, ap,
  ==_iff,
}
use os.Proc.{
  Proc, Table, ProcState, unused, embryo, sleeping, runnable, running, zombie, WaitEnd, at_proc,
  nproc, is_unused, is_child, is_zombie, set_proc, allocproc, fork_into, child_of, wait, wait_none,
  reap,
}
use os.Proc.Steps.{set_proc_self}
use os.Proc.Invariant.{IsAlive, IsSound}

-- `u` is `t` with another process at `i`, and perhaps more pids given out.
record Replaced (i : ℕ) (t u : Table) : Type 0 where
  others : (j : ℕ) → (i == j) ≡ false → u.proc j ≡ t.proc j
  initproc : u.initproc ≡ t.initproc
  nextpid : t.nextpid ≤ u.nextpid

-- A slot that is given back: its process was not alive, so it is nobody's parent.
module _ (t u : Table) (i : ℕ) (s : IsSound t) (dead : ¬ IsAlive (t.proc i)) (w : Replaced i t u)
    (freed : (u.proc i).state ≡ unused) (no_parent : (u.proc i).parent ≡ none) where
  freed-IsSound : IsSound u
  freed-IsSound = record {
    init_index = rw w.initproc s.init_index;
    init_alive =
        rw w.initproc (ground (arith, s.init_alive, w.others t.initproc, same_at t.initproc));
    init_parent =
        rw w.initproc
          (ground (arith, s.init_parent, s.init_alive, w.others t.initproc, same_at t.initproc));
    not_own_parent = λ j a b c. ground (arith, s.not_own_parent j, w.others j, same_at j);
    pid_given = λ j a b. ground (arith, s.pid_given j, w.others j, same_at j, w.nextpid);
    pid_unique = λ j k a b c d e.
        ground (arith, s.pid_unique j k, w.others j, same_at j, w.others k, same_at k);
    unused_parent = λ j a b. ground (arith, s.unused_parent j, w.others j, same_at j);
    embryo_parent = λ j a b. ground (arith, s.embryo_parent j, w.others j, same_at j);
    parent_alive = λ j q a b c.
        ground (arith, s.parent_alive j q, w.others j, same_at j, w.others q, same_at q);
    no_lost_wakeup = λ j q a b c d e.
        ground (arith, s.no_lost_wakeup j q, w.others j, same_at j, w.others q, same_at q);
  }
    where
      same_at : (j : ℕ) → (i == j) ≡ true → (u.proc j ≡ u.proc i) × (t.proc j ≡ t.proc i)
      same_at j e =
          let same : i ≡ j = (==_iff i j).0 e in (ap u.proc (sym same), ap t.proc (sym same))

zombie_of : (b : Bool) (st : ProcState) → (b && is_zombie st) ≡ true → (b ≡ true) × (st ≡ zombie)
zombie_of b st h = ground arith

pub wait-IsSound :
    (me : ℕ) (t : Table)
    → IsSound t
    → me < nproc
    → (t.proc me).state ≡ running
    → IsSound (wait me t).1
unfolding wait wait_none
wait-IsSound me t s b r = elim (Option-cases (find_index dead_child nproc 0)) [
  | inr (i, e) ↦
      let f = find_index-Found dead_child nproc 0 i e in
      rw (e, wait)
        (freed-IsSound t (set_proc i (reap (t.proc i)) t) i s
          (λ alive. alive.1 (zombie_of (is_child (t.proc i).parent me) (t.proc i).state f.passes).1)
          (record { others = λ j ne. rw ne; initproc = refl; nextpid = omega arith })
          (ap (λ q. q.state) (set_proc_self i (reap (t.proc i)) t))
          (ap (λ q. q.parent) (set_proc_self i (reap (t.proc i)) t)))
  | inl e ↦
      rw (e, wait)
        (elim (Option-cases (find_index (λ j. is_child (t.proc j).parent me) nproc 0)) [
          | inl none_left ↦ rw none_left s
          | inr (j, some_left) ↦ rw some_left (
              if_ind {A = WaitEnd × Table} (λ r. IsSound (r.1)) (t.proc me).killed s
                (falls_asleep (find_index-none dead_child nproc 0 e)))
        ])
]
  where
    dead_child : ℕ → Bool
    dead_child i = is_child (t.proc i).parent me && is_zombie (t.proc i).state

    falls_asleep :
        ((j : ℕ) → 0 ≤ j → j < 0 + nproc → dead_child j ≡ false)
        → IsSound (set_proc me (record (t.proc me) { chan = at_proc me; state = sleeping }) t)
    falls_asleep no_dead = record {
      init_index = s.init_index;
      init_alive = ground (arith, s.init_alive);
      init_parent = ground (arith, s.init_parent);
      not_own_parent = λ i a b c. ground (arith, s.not_own_parent i, s.not_own_parent me);
      pid_given = λ i a b. ground (arith, s.pid_given i, s.pid_given me);
      pid_unique =
          λ i j a b c d e. ground (arith, s.pid_unique i j, s.pid_unique i me, s.pid_unique me j);
      unused_parent = λ i a b. ground (arith, s.unused_parent i);
      embryo_parent = λ i a b. ground (arith, s.embryo_parent i);
      parent_alive = λ i q a b c. ground (arith, s.parent_alive i q, s.parent_alive me q);
      no_lost_wakeup = λ i q a b c d e. ground (arith, s.no_lost_wakeup i q, no_dead i);
    }

-- A slot that `allocproc` finds: it was free, and gets the next pid.
module _ (t u : Table) (i : ℕ) (s : IsSound t) (in_range : i < nproc)
    (free : (t.proc i).state ≡ unused) (w : Replaced i t u) (given : t.nextpid < u.nextpid)
    (state : (u.proc i).state ≡ embryo) (pid : (u.proc i).pid ≡ t.nextpid)
    (no_parent : (u.proc i).parent ≡ none) where
  begun-IsSound : IsSound u
  begun-IsSound = record {
    init_index = rw w.initproc s.init_index;
    init_alive =
        rw w.initproc (ground (arith, s.init_alive, w.others t.initproc, same_at t.initproc));
    init_parent =
        rw w.initproc
          (ground (arith, s.init_parent, s.init_alive, w.others t.initproc, same_at t.initproc));
    not_own_parent = λ j a b c. ground (arith, s.not_own_parent j, w.others j, same_at j);
    pid_given = λ j a b. ground (arith, s.pid_given j, w.others j, same_at j);
    pid_unique = λ j k a b c d e. ground (
      arith,
      s.pid_unique j k,
      s.pid_given j,
      s.pid_given k,
      w.others j,
      same_at j,
      w.others k,
      same_at k,
    );
    unused_parent = λ j a b. ground (arith, s.unused_parent j, w.others j, same_at j);
    embryo_parent = λ j a b. ground (arith, s.embryo_parent j, w.others j, same_at j);
    parent_alive = λ j q a b c.
        ground (arith, s.parent_alive j q, w.others j, same_at j, w.others q, same_at q);
    no_lost_wakeup = λ j q a b c d e.
        ground (arith, s.no_lost_wakeup j q, w.others j, same_at j, w.others q, same_at q);
  }
    where
      same_at : (j : ℕ) → (i == j) ≡ true → (u.proc j ≡ u.proc i) × (t.proc j ≡ t.proc i) × (i ≡ j)
      same_at j e =
          let same : i ≡ j = (==_iff i j).0 e in (ap u.proc (sym same), ap t.proc (sym same), same)

-- A slot that `fork` fills in: it has its pid, and gets a live parent.
module _ (t u : Table) (i me : ℕ) (s : IsSound t) (in_range : i < nproc)
    (new : (t.proc i).state ≡ embryo) (me_range : me < nproc) (me_alive : IsAlive (t.proc me))
    (w : Replaced i t u) (state : (u.proc i).state ≡ runnable)
    (pid : (u.proc i).pid ≡ (t.proc i).pid) (parent : (u.proc i).parent ≡ some me) where
  filled-IsSound : IsSound u
  filled-IsSound = record {
    init_index = rw w.initproc s.init_index;
    init_alive =
        rw w.initproc (ground (arith, s.init_alive, w.others t.initproc, same_at t.initproc));
    init_parent =
        rw w.initproc
          (ground (arith, s.init_parent, s.init_alive, w.others t.initproc, same_at t.initproc));
    not_own_parent = λ j a b c. ground (arith, s.not_own_parent j, w.others j, same_at j);
    pid_given = λ j a b. ground (arith, s.pid_given j, w.others j, same_at j, w.nextpid);
    pid_unique = λ j k a b c d e.
        ground (arith, s.pid_unique j k, w.others j, same_at j, w.others k, same_at k);
    unused_parent = λ j a b. ground (arith, s.unused_parent j, w.others j, same_at j);
    embryo_parent = λ j a b. ground (arith, s.embryo_parent j, w.others j, same_at j);
    parent_alive = λ j q a b c.
        ground (arith, s.parent_alive j q, w.others j, same_at j, w.others q, same_at q);
    no_lost_wakeup = λ j q a b c d e.
        ground (arith, s.no_lost_wakeup j q, w.others j, same_at j, w.others q, same_at q);
  }
    where
      same_at : (j : ℕ) → (i == j) ≡ true → (u.proc j ≡ u.proc i) × (t.proc j ≡ t.proc i) × (i ≡ j)
      same_at j e =
          let same : i ≡ j = (==_iff i j).0 e in (ap u.proc (sym same), ap t.proc (sym same), same)

-- How `allocproc` ends: no free slot, no page for the kernel stack, or a slot with a new pid.
data Alloc (page : ℕ) (t : Table) : Option ℕ × Table → Type 0 where
  full : Alloc page t (none, t)
  no_page :
      (i : ℕ) (p : Proc)
      → i < nproc
      → (t.proc i).state ≡ unused
      → p.state ≡ unused
      → p.parent ≡ (t.proc i).parent
      → Alloc page t (none, record (set_proc i p t) { nextpid = as_uint (t.nextpid + 1) })
  slot :
      (i : ℕ) (p : Proc)
      → i < nproc
      → (t.proc i).state ≡ unused
      → p.pid ≡ t.nextpid
      → p.state ≡ embryo
      → p.parent ≡ (t.proc i).parent
      → Alloc page t (some i, record (set_proc i p t) { nextpid = as_uint (t.nextpid + 1) })

allocproc-Alloc : (page : ℕ) (t : Table) → Alloc page t (allocproc page t)
unfolding allocproc
allocproc-Alloc page t = elim (Option-cases (find_index is_free nproc 0)) [
  | inl e ↦ rw (e, allocproc) full
  | inr (i, e) ↦
      let f = find_index-Found is_free nproc 0 i e in
      let free : (t.proc i).state ≡ unused = ground (arith, f.passes) in
      let inside : i < nproc = omega (arith, f.in_range) in
      rw (e, allocproc)
        (if_ind (Alloc page t) (page == 0) (no_page i _ inside free refl refl)
          (slot i _ inside free refl refl refl))
]
  where
    is_free : ℕ → Bool
    is_free i = is_unused (t.proc i).state

Alloc-IsSound :
    (page : ℕ) (t : Table) {out : Option ℕ × Table}
    → IsSound t
    → t.nextpid < 2147483647
    → Alloc page t out
    → IsSound out.1
Alloc-IsSound page t s few full = s
Alloc-IsSound page t s few (no_page i p inside free still same) =
    freed-IsSound t _ i s (λ alive. alive.0 free)
      (record { others = λ j ne. rw ne; initproc = refl; nextpid = omega arith })
      (ap (λ q. q.state) (set_proc_self i p t) ∙ still)
      (ap (λ q. q.parent) (set_proc_self i p t) ∙ same ∙ s.unused_parent i inside free)
Alloc-IsSound page t s few (slot i p inside free given new same) =
    begun-IsSound t _ i s inside free
      (record { others = λ j ne. rw ne; initproc = refl; nextpid = omega arith }) (omega arith)
      (ap (λ q. q.state) (set_proc_self i p t) ∙ new)
      (ap (λ q. q.pid) (set_proc_self i p t) ∙ given)
      (ap (λ q. q.parent) (set_proc_self i p t) ∙ same ∙ s.unused_parent i inside free)

pub allocproc-IsSound :
    (page : ℕ) (t : Table) → IsSound t → t.nextpid < 2147483647 → IsSound (allocproc page t).1
allocproc-IsSound page t s few = Alloc-IsSound page t s few (allocproc-Alloc page t)

pub fork_into-IsSound :
    (me pgdir i : ℕ) (t : Table)
    → IsSound t
    → me < nproc
    → (t.proc me).state ≡ running
    → i < nproc
    → (t.proc i).state ≡ embryo
    → IsSound (fork_into me pgdir (some i) t).1
unfolding fork_into child_of
fork_into-IsSound me pgdir i t s b r inside new =
    if_ind {A = Option ℕ × Table} (λ o. IsSound (o.1)) (pgdir == 0)
      (freed-IsSound t _ i s (λ alive. alive.2 new)
        (record { others = λ j ne. rw ne; initproc = refl; nextpid = omega arith }) (ground arith)
        (ap (λ q. q.parent) (set_proc_self i _ t) ∙ s.embryo_parent i inside new))
      (filled-IsSound t _ i me s inside new b (ground arith)
        (record { others = λ j ne. rw ne; initproc = refl; nextpid = omega arith }) (ground arith)
        (ground arith) (ground arith))
