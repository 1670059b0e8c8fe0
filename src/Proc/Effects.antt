-- ===== src/Proc/Effects.antt =====
-- What wakeups and the loop of `exit` leave of each process.
use os.Prelude.{
  ℕ, zero, suc, ◌+◌, ◌≤◌, ◌<◌, ◌≡◌, refl, ◌∙◌, ◌≢◌, ◌⊎◌, true, ◌&&◌, some, ◌==◌, if◌then◌else◌,
  arith,
}
use os.Proc.{
  Proc, Table, sleeping, runnable, zombie, Chan, at_proc, chan_eq, is_child, wake, wakeup1,
  pass_child, pass_children,
}

-- `q` is `p`, perhaps woken, with any parent.
pub record IsWoken (p q : Proc) : Type 0 where
  pub state : (q.state ≡ p.state) ⊎ ((p.state ≡ sleeping) × (q.state ≡ runnable))
  pub pid : q.pid ≡ p.pid
  pub chan : q.chan ≡ p.chan

pub wake-IsWoken : (c : Chan) (p : Proc) → IsWoken p (wake c p) × ((wake c p).parent ≡ p.parent)
unfolding wake
wake-IsWoken c p = ground arith

chan_eq_refl : (c : Chan) → chan_eq c c ≡ true
chan_eq_refl Chan.null = refl
chan_eq_refl (at_proc i) = ground arith
chan_eq_refl (Chan.at_addr i) = ground arith

-- Nobody sleeps on a channel that has just been woken.
pub wake-wakes : (c : Chan) (p : Proc) → (wake c p).state ≡ sleeping → p.chan ≢ c
unfolding wake
wake-wakes c p h e = ground (arith, chan_eq_refl c)

-- After the loop over the indices from `i` to `i + n`.
pub record Passed (me n i : ℕ) (t u : Table) : Type 0 where
  pub nextpid : u.nextpid ≡ t.nextpid
  pub initproc : u.initproc ≡ t.initproc
  pub woken : (j : ℕ) → IsWoken (t.proc j) (u.proc j)
  pub parent_in :
      (j : ℕ)
      → i ≤ j
      → j < i + n
      → (u.proc j).parent
        ≡ (if is_child (t.proc j).parent me then some t.initproc else (t.proc j).parent)
  pub parent_out : (j : ℕ) → (j < i) ⊎ (i + n ≤ j) → (u.proc j).parent ≡ (t.proc j).parent
  pub init_awake :
      (j : ℕ)
      → i ≤ j
      → j < i + n
      → is_child (t.proc j).parent me ≡ true
      → (t.proc j).state ≡ zombie
      → (u.proc t.initproc).state ≡ sleeping
      → (u.proc t.initproc).chan ≢ at_proc t.initproc

IsWoken-refl : (p : Proc) → IsWoken p p
IsWoken-refl p = ground arith

pub IsWoken-trans : {p q r : Proc} → IsWoken p q → IsWoken q r → IsWoken p r
IsWoken-trans a b = ground arith

pass_child-parent :
    (me i j : ℕ) (t : Table)
    → ((pass_child me i t).proc j).parent
      ≡ (if i == j && is_child (t.proc j).parent me then some t.initproc else (t.proc j).parent)
unfolding pass_child wakeup1 wake
pass_child-parent me i j t = ground arith

pass_child-IsWoken : (me i j : ℕ) (t : Table) → IsWoken (t.proc j) ((pass_child me i t).proc j)
unfolding pass_child wakeup1 wake
pass_child-IsWoken me i j t = ground arith

pass_child-counts :
    (me i : ℕ) (t : Table)
    → ((pass_child me i t).nextpid ≡ t.nextpid) × ((pass_child me i t).initproc ≡ t.initproc)
unfolding pass_child wakeup1
pass_child-counts me i t = ground arith

pass_child-init_awake :
    (me i : ℕ) (t : Table)
    → is_child (t.proc i).parent me ≡ true
    → (t.proc i).state ≡ zombie
    → ((pass_child me i t).proc t.initproc).state ≡ sleeping
    → ((pass_child me i t).proc t.initproc).chan ≢ at_proc t.initproc
unfolding pass_child wakeup1 wake
pass_child-init_awake me i t child dead asleep e = ground (arith, chan_eq_refl (at_proc t.initproc))

pub pass_children-Passed : (me n i : ℕ) (t : Table) → Passed me n i t (pass_children me n i t)
unfolding pass_children
pass_children-Passed me zero i t = record {
  nextpid = refl;
  initproc = refl;
  woken = λ j. IsWoken-refl (t.proc j);
  parent_in = λ j a b. absurd (omega arith);
  init_awake = λ j a b. absurd (omega arith);
  parent_out = λ j a. refl;
}
pass_children-Passed me (suc n) i t =
    let u : Table = pass_child me i t in
    let ih : Passed me n (i + 1) u (pass_children me n (i + 1) u) =
      pass_children-Passed me n (i + 1) u in
    record {
      nextpid = ih.nextpid ∙ (pass_child-counts me i t).0;
      initproc = ih.initproc ∙ (pass_child-counts me i t).1;
      woken = λ j. IsWoken-trans (pass_child-IsWoken me i j t) (ih.woken j);
      parent_in = λ j a b. ground (
        arith,
        ih.parent_in j,
        ih.parent_out j,
        pass_child-parent me i j t,
        pass_child-counts me i t,
      );
      init_awake = λ j a b child dead asleep on_self. ground (
        arith,
        ih.woken t.initproc,
        pass_child-init_awake me i t,
        ih.init_awake j,
        pass_child-parent me i j t,
        pass_child-IsWoken me i j t,
        pass_child-counts me i t,
      );
      parent_out = λ j a. ground (arith, ih.parent_out j, pass_child-parent me i j t);
    }
