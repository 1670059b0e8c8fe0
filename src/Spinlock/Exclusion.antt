-- ===== src/Spinlock/Exclusion.antt =====
-- An invariant of one lock and its CPUs, and each step under it.
use mathlib.Core.Path.{subst}
use os.Prelude.{
  ℕ, ◌≡◌, ◌≢◌, refl, ◌∙◌, sym, ap, inl, inr, Bool, true, false, none, some, ◌==◌, ok, arith,
  Bool-cases,
}
use os.Spinlock.{
  Cpu, initlock, pushcli, popcli, acquire_end, Stage, outside, spins, enters, holds, leaves, System,
  update,
}

-- The stages between the `xchg` that takes the lock and the one that gives it up.
abbrev pub has_lock : Stage → Bool
has_lock outside = false
has_lock spins = false
has_lock enters = true
has_lock holds = true
has_lock leaves = true

-- A CPU outside has its own interrupt flag; one in a call has its interrupts off and its flag kept.
abbrev pub CpuIsSound : Bool → Cpu → Stage → Type 0
CpuIsSound flag c outside = (c.ncli ≡ 0) × (c.interrupts ≡ flag)
CpuIsSound flag c spins = (c.ncli ≡ 1) × (c.interrupts ≡ false) × (c.intena ≡ flag)
CpuIsSound flag c enters = (c.ncli ≡ 1) × (c.interrupts ≡ false) × (c.intena ≡ flag)
CpuIsSound flag c holds = (c.ncli ≡ 1) × (c.interrupts ≡ false) × (c.intena ≡ flag)
CpuIsSound flag c leaves = (c.ncli ≡ 1) × (c.interrupts ≡ false) × (c.intena ≡ flag)

pub record IsSound (flags : ℕ → Bool) (s : System) : Type 0 where
  -- one CPU at most has the lock, and the lock says so
  pub one : (a b : ℕ) → has_lock (s.stage a) ≡ true → has_lock (s.stage b) ≡ true → a ≡ b
  pub taken : (a : ℕ) → has_lock (s.stage a) ≡ true → s.lock.taken ≡ true
  -- the lock names the CPU that holds it
  pub named : (a : ℕ) → s.lock.cpu ≡ some a → s.stage a ≡ holds
  pub names : (a : ℕ) → s.stage a ≡ holds → s.lock.cpu ≡ some a
  pub cpus : (a : ℕ) → CpuIsSound (flags a) (s.cpu_at a) (s.stage a)

is_holds : Stage → Bool
is_holds outside = false
is_holds spins = false
is_holds enters = false
is_holds holds = true
is_holds leaves = false

false≢true : false ≢ true
false≢true e = ground (arith, e)

leaves≢holds : leaves ≢ holds
unfolding is_holds
leaves≢holds e = false≢true (ap is_holds e)

pub start-IsSound :
    (flags : ℕ → Bool) (s : System)
    → s.lock ≡ initlock
    → ((c : ℕ) → s.stage c ≡ outside)
    → ((c : ℕ) → ((s.cpu_at c).ncli ≡ 0) × ((s.cpu_at c).interrupts ≡ flags c))
    → IsSound flags s
start-IsSound flags s l o c = record {
  one = λ a b x y. let p = o a in ground (arith, p, x);
  taken = λ a x. let p = o a in ground (arith, p, x);
  named = λ a x. absurd (ground (arith, l, x));
  names = λ a x. absurd (let p = o a in ground (arith, p, x));
  cpus = λ a. let p = o a in rw p (c a);
}

pushcli-CpuIsSound :
    (flag : Bool) (c : Cpu) → CpuIsSound flag c outside → CpuIsSound flag (pushcli c) spins
unfolding pushcli
pushcli-CpuIsSound flag c (n, i) = (omega arith, refl, ground (arith, n, i))

popcli-CpuIsSound :
    (flag : Bool) (c c' : Cpu)
    → CpuIsSound flag c leaves
    → popcli c ≡ ok c'
    → CpuIsSound flag c' outside
unfolding popcli
popcli-CpuIsSound flag c c' (n, i, e) p = (ground (arith, p), ground (arith, p))

update-CpuIsSound :
    (flags : ℕ → Bool) (f : ℕ → Cpu) (g : ℕ → Stage) (me : ℕ) (c : Cpu) (st : Stage)
    → ((a : ℕ) → CpuIsSound (flags a) (f a) (g a))
    → CpuIsSound (flags me) c st
    → (a : ℕ) → CpuIsSound (flags a) (update me c f a) (update me st g a)
update-CpuIsSound flags f g me c st h new a = elim (Bool-cases (a == me)) [
  | inl it ↦ let e : a ≡ me = ground arith in rw it (rw e new)
  | inr other ↦ rw other (h a)
]

stays-CpuIsSound :
    (flags : ℕ → Bool) (f : ℕ → Cpu) (g : ℕ → Stage) (me : ℕ) (st : Stage)
    → ((a : ℕ) → CpuIsSound (flags a) (f a) (g a))
    → CpuIsSound (flags me) (f me) st
    → (a : ℕ) → CpuIsSound (flags a) (f a) (update me st g a)
stays-CpuIsSound flags f g me st h new a = elim (Bool-cases (a == me)) [
  | inl it ↦ let e : a ≡ me = ground arith in rw it (rw e new)
  | inr other ↦ rw other (h a)
]

update-here {ℓ} : {A : Type ℓ} (me : ℕ) (v : A) (f : ℕ → A) (a : ℕ) → a ≡ me → update me v f a ≡ v
update-here me v f a e = let it : (a == me) ≡ true = ground (arith, e) in rw it refl

update-else {ℓ} : {A : Type ℓ} (me : ℕ) (v : A) (f : ℕ → A) (a : ℕ) → a ≢ me → update me v f a ≡ f a
update-else me v f a n = let other : (a == me) ≡ false = ground (arith, n) in rw other refl

-- Another CPU than the one that has the lock does not have it.
others-has_lock :
    (g : ℕ → Stage) (me : ℕ) (st : Stage)
    → ((a b : ℕ) → has_lock (g a) ≡ true → has_lock (g b) ≡ true → a ≡ b)
    → has_lock (g me) ≡ true
    → (a : ℕ) → has_lock (update me st g a) ≡ true
    → a ≡ me
others-has_lock g me st one mine a x = elim (Bool-cases (a == me)) [
  | inl it ↦ ground arith
  | inr other ↦
      let ne : a ≢ me = λ e. ground (arith, other, e) in
      one a me (ap has_lock (sym (update-else me st g a ne)) ∙ x) mine
]

-- Another stage for one CPU that does not have the lock.
module _ (flags : ℕ → Bool) (s : System) (me : ℕ) (h : IsSound flags s) where
  pub acquires-IsSound :
      s.stage me ≡ outside
      → IsSound flags (record s {
        cpu_at = update me (pushcli (s.cpu_at me)) s.cpu_at;
        stage = update me spins s.stage;
      })
  acquires-IsSound o = record {
    one = λ a b x y. ground (arith, x, y, h.one a b);
    taken = λ a x. ground (arith, x, h.taken a);
    named = λ a x. ground (arith, x, o, h.named a);
    names = λ a x. ground (arith, x, h.names a);
    cpus = update-CpuIsSound flags s.cpu_at s.stage me _ spins h.cpus (
        pushcli-CpuIsSound (flags me) (s.cpu_at me)
          (subst (CpuIsSound (flags me) (s.cpu_at me)) o (h.cpus me)));
  }

  pub wins-IsSound :
      s.stage me ≡ spins
      → s.lock.taken ≡ false
      → IsSound flags
          (record s { lock = record s.lock { taken = true }; stage = update me enters s.stage })
  wins-IsSound o free = record {
    one = λ a b x y. ground (arith, x, y, free, h.taken a, h.taken b);
    taken = λ a x. refl;
    named = λ a x. ground (arith, x, o, h.named a);
    names = λ a x. ground (arith, x, h.names a);
    cpus =
        stays-CpuIsSound flags s.cpu_at s.stage me enters h.cpus
          (subst (CpuIsSound (flags me) (s.cpu_at me)) o (h.cpus me));
  }

  pub records-IsSound :
      s.stage me ≡ enters
      → IsSound flags (record s { lock = acquire_end me s.lock; stage = update me holds s.stage })
  records-IsSound o =
      let mine : has_lock (s.stage me) ≡ true = rw o refl in
      record {
        one = λ a b x y. ground (arith, x, y, mine, h.one a b, h.one a me, h.one me b);
        taken = λ a x. h.taken me mine;
        named = λ a x. ground (arith, x);
        names = λ a x. ground (arith, x, h.names a, h.one a me, mine);
        cpus =
            stays-CpuIsSound flags s.cpu_at s.stage me holds h.cpus
              (subst (CpuIsSound (flags me) (s.cpu_at me)) o (h.cpus me));
      }

  pub gives_up-IsSound :
      s.stage me ≡ holds
      → IsSound flags
          (record s { lock = record s.lock { cpu = none }; stage = update me leaves s.stage })
  gives_up-IsSound o =
      let mine : has_lock (s.stage me) ≡ true = rw o refl in
      record {
        one = λ a b x y. ground (arith, x, y, mine, h.one a b, h.one a me, h.one me b);
        taken = λ a x. h.taken me mine;
        named = λ a x. absurd (ground (arith, x));
        names = λ a x.
            let e = others-has_lock s.stage me leaves h.one mine a (ap has_lock x) in
            absurd (leaves≢holds (sym (update-here me leaves s.stage a e) ∙ x));
        cpus =
            stays-CpuIsSound flags s.cpu_at s.stage me leaves h.cpus
              (subst (CpuIsSound (flags me) (s.cpu_at me)) o (h.cpus me));
      }

  pub frees-IsSound :
      (c : Cpu)
      → s.stage me ≡ leaves
      → popcli (s.cpu_at me) ≡ ok c
      → IsSound flags (record s {
        lock = record s.lock { taken = false };
        cpu_at = update me c s.cpu_at;
        stage = update me outside s.stage;
      })
  frees-IsSound c o p =
      let mine : has_lock (s.stage me) ≡ true = rw o refl in
      record {
        one = λ a b x y. ground (arith, x, y, h.one a b);
        taken = λ a x.
            let e = others-has_lock s.stage me outside h.one mine a x in
            absurd (false≢true (ap has_lock (sym (update-here me outside s.stage a e)) ∙ x));
        named = λ a x. ground (arith, x, o, h.named a);
        names = λ a x. ground (arith, x, h.names a);
        cpus = update-CpuIsSound flags s.cpu_at s.stage me c outside h.cpus (
            popcli-CpuIsSound (flags me) (s.cpu_at me) c
              (subst (CpuIsSound (flags me) (s.cpu_at me)) o (h.cpus me)) p);
      }
