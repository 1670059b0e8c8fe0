-- ===== src/Proc/Exit.antt =====
-- `exit` keeps the table sound.
use mathlib.Core.Path.{subst}
use os.Prelude.{
  ℕ, ◌<◌, ◌≡◌, refl, sym, ◌∙◌, ◌≢◌, ◌⊎◌, inl, inr, false, none, some, ◌==◌, if◌then◌else◌, ok,
  arith, Bool-cases, ap, ==_iff,
}
use os.Proc.{
  Table, sleeping, running, zombie, at_proc, nproc, is_child, wakeup1, exit, close_all, die,
  proc_chan,
}
use os.Proc.Effects.{IsWoken, wake-IsWoken, wake-wakes, Passed, IsWoken-trans, pass_children-Passed}
use os.Proc.Steps.{set_proc_self}
use os.Proc.Invariant.{IsAlive, IsSound}

-- `exit` up to the loop: no process changes but for being woken, and the exiting one keeps its parent.
module _ (me : ℕ) (t u w : Table) (s : IsSound t) (b : me < nproc) (r : (t.proc me).state ≡ running)
    (not_init : (me == t.initproc) ≡ false) (p : Passed me nproc 0 u w) (en : u.nextpid ≡ t.nextpid)
    (ei : u.initproc ≡ t.initproc)
    (k : (j : ℕ) → IsWoken (t.proc j) (u.proc j) × ((u.proc j).parent ≡ (t.proc j).parent))
    (parent_woken : (q : ℕ)
      → (t.proc me).parent ≡ some q
      → (u.proc q).state ≡ sleeping
      → (u.proc q).chan ≢ at_proc q) where
  IsWoken-at : (j : ℕ) → IsWoken (t.proc j) (w.proc j)
  IsWoken-at j = IsWoken-trans (k j).0 (p.woken j)

  parent_at :
      (j : ℕ)
      → j < nproc
      → (w.proc j).parent
        ≡ (if is_child (t.proc j).parent me then some t.initproc else (t.proc j).parent)
  parent_at j a = ground (arith, p.parent_in j, k j)

  exited_me : (die me w).proc me ≡ record (w.proc me) { state = zombie }
  unfolding die
  exited_me = set_proc_self me (record (w.proc me) { state = zombie }) w

  exited_other : (j : ℕ) → (me == j) ≡ false → (die me w).proc j ≡ w.proc j
  unfolding die
  exited_other j ne = rw ne

  -- What the exit changes of any process.
  record At (j : ℕ) : Type 0 where
    pid : ((die me w).proc j).pid ≡ (t.proc j).pid
    chan : ((die me w).proc j).chan ≡ (t.proc j).chan
    parent : ((die me w).proc j).parent ≡ (w.proc j).parent
    state :
        ((me ≡ j) × (((die me w).proc j).state ≡ zombie))
        ⊎ ((me ≢ j) × (((die me w).proc j).state ≡ (w.proc j).state))

  at : (j : ℕ) → At j
  at j = elim (Bool-cases (me == j)) [
    | inl e ↦
        let same : me ≡ j = (==_iff me j).0 e in
        subst At same (ground (arith, exited_me, IsWoken-at me))
    | inr ne ↦ ground (arith, exited_other j ne, IsWoken-at j)
  ]

  lost_own :
      (q : ℕ)
      → (w.proc me).parent ≡ some q
      → (w.proc q).state ≡ sleeping
      → (w.proc q).chan ≢ at_proc q
  lost_own q c d e =
      ground (arith, p.woken q, parent_at me b, s.not_own_parent me b, parent_woken q)

  lost_other :
      (i q : ℕ)
      → i < nproc
      → (w.proc i).state ≡ zombie
      → (w.proc i).parent ≡ some q
      → (w.proc q).state ≡ sleeping
      → (w.proc q).chan ≢ at_proc q
  lost_other i q a z c d e = ground (
    arith,
    p.init_awake i,
    p.woken i,
    IsWoken-at i,
    IsWoken-at q,
    parent_at i,
    k i,
    s.no_lost_wakeup i q,
  )

  lost :
      (i q : ℕ)
      → i < nproc
      → ((die me w).proc i).state ≡ zombie
      → ((die me w).proc i).parent ≡ some q
      → ((die me w).proc q).state ≡ sleeping
      → ((die me w).proc q).chan ≢ at_proc q
  lost i q a z c d e = elim (at i).state [
    | inl (same, dead) ↦
        let c' : (w.proc me).parent ≡ some q =
          ap (λ x. (w.proc x).parent) same ∙ sym (at i).parent ∙ c in
        ground (arith, at q, IsWoken-at q, lost_own q)
    | inr (other, state) ↦ ground (arith, at i, at q, IsWoken-at q, lost_other i q)
  ]

  exited-IsSound : IsSound (die me w)
  unfolding die
  exited-IsSound = record {
    init_index = subst (λ x. x < nproc) (sym ini) s.init_index;
    init_alive =
        subst (λ x. IsAlive ((die me w).proc x)) (sym ini)
          (ground (arith, at t.initproc, IsWoken-at t.initproc, s.init_alive));
    init_parent =
        subst (λ x. ((die me w).proc x).parent ≡ none) (sym ini)
          ((at t.initproc).parent ∙ parent_at t.initproc s.init_index ∙ rw s.init_parent);
    not_own_parent = λ i a b c.
        ground (arith, at i, parent_at i, IsWoken-at i, s.not_own_parent i, s.init_parent);
    pid_given = λ i a b.
        subst (λ x. ((die me w).proc i).pid < x) (sym (p.nextpid ∙ en))
          (ground (arith, at i, IsWoken-at i, s.pid_given i));
    pid_unique =
        λ i j a b c d e. ground (arith, at i, at j, IsWoken-at i, IsWoken-at j, s.pid_unique i j);
    unused_parent = λ i a b. ground (arith, at i, parent_at i, IsWoken-at i, s.unused_parent i);
    embryo_parent = λ i a b. ground (arith, at i, parent_at i, IsWoken-at i, s.embryo_parent i);
    parent_alive = λ i q a b c. ground (
      arith,
      at i,
      at q,
      IsWoken-at i,
      IsWoken-at q,
      parent_at i,
      s.parent_alive i q,
      s.init_index,
      s.init_alive,
    );
    no_lost_wakeup = lost;
  }
    where
      ini : w.initproc ≡ t.initproc
      ini = p.initproc ∙ ei

-- The table before the loop: the parent is awake, and nothing else has changed.
module _ (me : ℕ) (t : Table) where
  abbrev woke_parent : Table
  woke_parent = wakeup1 (proc_chan (t.proc me).parent) (close_all me t)

  close_all-kept :
      (j : ℕ)
      → IsWoken (t.proc j) ((close_all me t).proc j)
        × (((close_all me t).proc j).parent ≡ (t.proc j).parent)
  unfolding close_all
  close_all-kept j = ground arith

  woke_parent-kept :
      (j : ℕ)
      → IsWoken (t.proc j) (woke_parent.proc j) × ((woke_parent.proc j).parent ≡ (t.proc j).parent)
  unfolding wakeup1
  woke_parent-kept j =
      let (kept, parent) = close_all-kept j in
      let (woken, parent') =
        wake-IsWoken (proc_chan (t.proc me).parent) ((close_all me t).proc j) in
      (IsWoken-trans kept woken, parent' ∙ parent)

  parent_awake :
      (q : ℕ)
      → (t.proc me).parent ≡ some q
      → (woke_parent.proc q).state ≡ sleeping
      → (woke_parent.proc q).chan ≢ at_proc q
  unfolding wakeup1
  parent_awake q e asleep on_self =
      wake-wakes (proc_chan (t.proc me).parent) ((close_all me t).proc q) asleep (
        sym (wake-IsWoken (proc_chan (t.proc me).parent) ((close_all me t).proc q)).0.chan
        ∙ on_self
        ∙ ap proc_chan (sym e))

same_nextpid : (me : ℕ) (t : Table) → (woke_parent me t).nextpid ≡ t.nextpid
unfolding wakeup1 close_all
same_nextpid me t = refl

same_initproc : (me : ℕ) (t : Table) → (woke_parent me t).initproc ≡ t.initproc
unfolding wakeup1 close_all
same_initproc me t = refl

pub exit-IsSound :
    (me : ℕ) (t n : Table)
    → IsSound t
    → me < nproc
    → (t.proc me).state ≡ running
    → exit me t ≡ ok n
    → IsSound n
unfolding exit
exit-IsSound me t n s b r e = elim (Bool-cases (me == t.initproc)) [
  | inl init ↦ absurd (ground arith)
  | inr other ↦
      let done = pass_children-Passed me nproc 0 (woke_parent me t) in
      subst IsSound (ground arith) (
        exited-IsSound me t (woke_parent me t) _ s b r other done (same_nextpid me t)
          (same_initproc me t) (woke_parent-kept me t) (parent_awake me t))
]
