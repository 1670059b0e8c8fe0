-- ===== src/Uthread/Turns.antt =====
-- A thread that has yielded, while other threads run and call the library.
use mathlib.Core.Path.{subst}
use os.Prelude.{
  ℕ, ◌≡◌, refl, sym, ◌∙◌, ap, ◌≢◌, inl, inr, true, false, Option, none, some, ◌==◌, ℤ, pos, arith,
  Bool-cases, Outcome, ok, panic, fault,
}
use os.Uthread.{
  State, max_uthreads, update, round_robin, saved, uthread_setpr, uthread_create, uthread_yield,
  uthread_exit,
}
use os.Uthread.Invariant.{IsUsed, IsTable, IsRunning, IsParked, IsTable-same}
use os.Uthread.Switch.{landed, yield_saved}
use os.Uthread.Exit.{uthread_exit_lem, uthread_exit_last}
use os.Uthread.Create.{IsFresh, uthread_create-IsTable}

abbrev pub unsome : State → Option State → State
unsome st none = st
unsome st (some st') = st'

-- A switch lands in one state.
landed_unique : {st st' : State} {o : Option State} → o ≡ some st → o ≡ some st' → st ≡ st'
landed_unique {st} e e' = ap (unsome st) (sym e ∙ e')

-- The machine's stack pointers after a thread's own code has run.
abbrev pub moved : ℕ → ℕ → State → State
moved esp ebp st = record st { esp = esp; ebp = ebp }

pub created : Outcome (ℤ × State) → Option State
created (ok (z, st)) = some st
created (panic s) = none
created fault = none

-- What the running thread may do, where it is another than `r`: run its own code, which moves the
-- stack pointers, and then call the library.
pub data Step (r : ℕ) : State → State → Type 0 where
  yields :
      {st st' : State}
      → (esp ebp : ℕ) → st.running_tid ≢ pos r
      → landed (uthread_yield round_robin max_uthreads (moved esp ebp st)) ≡ some st'
      → Step r st st'
  leaves :
      {st st' : State}
      → (esp ebp : ℕ) → st.running_tid ≢ pos r
      → landed (uthread_exit round_robin max_uthreads (moved esp ebp st)) ≡ some st'
      → Step r st st'
  creates :
      {st st' : State}
      → (p sp f : ℕ) (pr : ℤ) → st.running_tid ≢ pos r
      → st.cur_threads ≢ max_uthreads
      → IsFresh st p
      → IsFresh st sp
      → p ≢ sp
      → created (uthread_create p sp f pr st) ≡ some st'
      → Step r st st'
  reprices :
      {st st' : State}
      → (pr old : ℤ) → st.running_tid ≢ pos r
      → uthread_setpr pr st ≡ some (old, st')
      → Step r st st'

infixl 5 ◌and_then◌
pub data Steps (r : ℕ) (st : State) : State → Type 0 where
  here : Steps r st st
  ◌and_then◌ : {st' st'' : State} → Steps r st st' → Step r st' st'' → Steps r st st''

-- The thread in slot `r`, at `p`, waits with these stack pointers, or has just gone on with them.
record Waits (r p esp ebp : ℕ) (st : State) : Type 0 where
  table : IsTable st
  slot : IsUsed st r × (st.threads r ≡ p)
  other : (i : ℕ) × IsRunning st i
  parked : st.running_tid ≢ pos r → IsParked st p esp ebp
  resumed : st.running_tid ≡ pos r → (st.esp ≡ esp) × (st.ebp ≡ ebp)

-- After a switch from `st` to the thread of slot `i`.
landed-Waits :
    (r p esp ebp i : ℕ) (st st' : State)
    → IsUsed st' r
    → st'.threads r ≡ p
    → IsParked st p esp ebp
    → IsTable st'
    → IsRunning st' i
    → ((e b : ℕ) → IsParked st (st'.threads i) e b → (st'.esp ≡ e) × (st'.ebp ≡ b))
    → ((q : ℕ) → q ≢ st'.threads i → st'.block q ≡ st.block q)
    → Waits r p esp ebp st'
landed-Waits r p esp ebp i st st' u at k t run back rest = elim (Bool-cases (i == r)) [
  | inl same ↦
      let eq : i ≡ r = ground arith in
      record {
        table = t;
        slot = (u, at);
        other = (i, run);
        parked = λ ne. absurd (ne (run.1 ∙ ap pos eq));
        resumed = λ e. back esp ebp (rw (eq, at) k);
      }
  | inr apart ↦
      let ne : i ≢ r = ground arith in
      let unlike : p ≢ st'.threads i =
        λ z. ne (sym (t.tid i run.0) ∙ ap (λ a. (st'.block a).tid) (sym z ∙ sym at) ∙ t.tid r u) in
      record {
        table = t;
        slot = (u, at);
        other = (i, run);
        parked = λ e. rw (rest p unlike) k;
        resumed = λ e. absurd (ground (arith, e, run.1, ne));
      }
]

-- A yield of the thread in slot `self`.
yield-Waits :
    (r p esp ebp : ℕ) (st st' : State) (self : ℕ)
    → IsTable st
    → IsRunning st self
    → IsUsed st r
    → st.threads r ≡ p
    → IsParked (saved (st.threads self) st) p esp ebp
    → landed (uthread_yield round_robin max_uthreads st) ≡ some st'
    → Waits r p esp ebp st'
yield-Waits r p esp ebp st st' self t run u at_p parked e =
    let (i, k, st'', l, n, run', t', same, back, rest) = yield_saved st self t run in
    let at : (j : ℕ) → st''.threads j ≡ st.threads j = λ j. ap (λ f. f j) same in
    subst (Waits r p esp ebp) (landed_unique l e) (
      landed-Waits r p esp ebp i (saved (st.threads self) st) st'' (rw (at r) u) (at r ∙ at_p)
        parked t' run' (rw (at i) back) (rw (at i) rest))

moved-IsTable : (st : State) (esp ebp : ℕ) → IsTable st → IsTable (moved esp ebp st)
moved-IsTable st esp ebp = IsTable-same st st.block st.running_tid esp ebp (λ a. (refl, refl))

module _ (r p esp ebp : ℕ) (st : State) (w : Waits r p esp ebp st) (ne : st.running_tid ≢ pos r)
    (x y : ℕ) where
  abbrev m : State
  m = moved x y st

  abbrev self : ℕ
  self = w.other.0

  self_apart : self ≢ r
  self_apart z = ne (w.other.1.1 ∙ ap pos z)

  block_apart : p ≢ st.threads self
  block_apart z = self_apart (
      sym (w.table.tid self w.other.1.0)
      ∙ ap (λ a. (st.block a).tid) (sym z ∙ sym w.slot.1)
      ∙ w.table.tid r w.slot.0)

  yield_keeps :
      (st' : State)
      → landed (uthread_yield round_robin max_uthreads m) ≡ some st'
      → Waits r p esp ebp st'
  yield_keeps st' e =
      let other : (st.threads self == p) ≡ false = ground (arith, block_apart) in
      yield-Waits r p esp ebp m st' self (moved-IsTable st x y w.table) w.other.1 w.slot.0 w.slot.1
        (rw other (w.parked ne)) e

  ended : st.cur_threads ≡ 1 → landed (uthread_exit round_robin max_uthreads m) ≡ none
  unfolding landed
  ended last = ap landed (uthread_exit_last m self (moved-IsTable st x y w.table) w.other.1 last)

  exit_keeps :
      (st' : State)
      → landed (uthread_exit round_robin max_uthreads m) ≡ some st'
      → Waits r p esp ebp st'
  exit_keeps st' e = elim (Bool-cases (st.cur_threads == 1)) [
    | inl last ↦ absurd (ground (arith, ended (ground (arith, last)), e))
    | inr more ↦
        let (i, k, st'', l, n, apart, run, t, gone, back, rest, slots) =
          uthread_exit_lem m self (moved-IsTable st x y w.table) w.other.1 (ground (arith, more)) in
        let at : st''.threads r ≡ st.threads r = slots r (λ z. self_apart (sym z)) in
        let at_i : st''.threads i ≡ st.threads i = slots i apart in
        subst (Waits r p esp ebp) (landed_unique l e) (
          landed-Waits r p esp ebp i m st'' (rw at w.slot.0) (at ∙ w.slot.1) (w.parked ne) t run
            (rw at_i back) (rw at_i rest))
  ]

setpr_run :
    (st : State) (self : ℕ) (pr : ℤ)
    → IsUsed st self
    → st.running_tid ≡ pos self
    → uthread_setpr pr st
      ≡ some (
        (st.block (st.threads self)).priority,
        record st {
          block =
              update st.block
                (st.threads self)
                (record (st.block (st.threads self)) { priority = pr });
        },
      )
unfolding uthread_setpr
setpr_run st self pr u tid =
    let used : (st.threads self == 0) ≡ false = ground (arith, u) in rw (tid, used) refl

abbrev state_after : State → Option (ℤ × State) → State
state_after st none = st
state_after st (some (z, st')) = st'

same_result :
    {st st' : State} {o : Option (ℤ × State)} {x y : ℤ}
    → o ≡ some (x, st)
    → o ≡ some (y, st')
    → st ≡ st'
same_result {st} e e' = ap (state_after st) (sym e ∙ e')

create_keeps :
    (r p esp ebp : ℕ) (st st' : State) (q sp f : ℕ) (pr : ℤ)
    → Waits r p esp ebp st
    → st.running_tid ≢ pos r
    → st.cur_threads ≢ max_uthreads
    → IsFresh st q
    → IsFresh st sp
    → q ≢ sp
    → created (uthread_create q sp f pr st) ≡ some st'
    → Waits r p esp ebp st'
unfolding created
create_keeps r p esp ebp st st' q sp f pr w ne room q_fresh sp_fresh apart e =
    let (i, st'', l, free, at, entry, used, more, t, same, kept) =
      uthread_create-IsTable q sp f pr st w.table room q_fresh sp_fresh apart in
    let (u, at_p) = w.slot in
    let (self, (run_u, run_tid, run_old)) = w.other in
    let (r_at, r_block) = kept r u in
    let (self_at, self_block) = kept self run_u in
    subst (Waits r p esp ebp) (landed_unique (ap created l) e) (record {
      table = t;
      slot = (rw r_at u, r_at ∙ at_p);
      other = (self, (rw self_at run_u, same ∙ run_tid, rw (self_at, self_block) run_old));
      parked = λ h. rw (ap st''.block (sym at_p), r_block, at_p) (w.parked ne);
      resumed = λ h. absurd (ne (sym same ∙ h));
    })

set_priority :
    (r p esp ebp : ℕ) (st st' : State) (pr old : ℤ)
    → Waits r p esp ebp st
    → st.running_tid ≢ pos r
    → uthread_setpr pr st ≡ some (old, st')
    → Waits r p esp ebp st'
set_priority r p esp ebp st st' pr old w ne e =
    let (self, (run_u, run_tid, run_old)) = w.other in
    let q = st.threads self in
    let u : State = record st {
      block = update st.block q (record (st.block q) { priority = pr });
    } in
    let t = IsTable-same st u.block st.running_tid st.esp st.ebp (λ a. ground arith) w.table in
    subst (Waits r p esp ebp) (same_result (setpr_run st self pr run_u run_tid) e) (record {
      table = t;
      slot = w.slot;
      other = (self, (run_u, run_tid, ground (arith, run_old)));
      parked = λ h. ground (arith, w.parked h);
      resumed = λ h. absurd (ne h);
    })

step_keeps :
    (r p esp ebp : ℕ) (st st' : State)
    → Waits r p esp ebp st
    → Step r st st'
    → Waits r p esp ebp st'
step_keeps r p esp ebp st st' w (yields x y ne e) = yield_keeps r p esp ebp st w ne x y st' e
step_keeps r p esp ebp st st' w (leaves x y ne e) = exit_keeps r p esp ebp st w ne x y st' e
step_keeps r p esp ebp st st' w (creates q sp f pr ne room a b c e) =
    create_keeps r p esp ebp st st' q sp f pr w ne room a b c e
step_keeps r p esp ebp st st' w (reprices pr old ne e) =
    set_priority r p esp ebp st st' pr old w ne e

Steps-keep :
    (r p esp ebp : ℕ) (st st' : State)
    → Waits r p esp ebp st
    → Steps r st st'
    → Waits r p esp ebp st'
Steps-keep r p esp ebp st st' w here = w
Steps-keep r p esp ebp st st' w (run and_then s) =
    step_keeps r p esp ebp _ st' (Steps-keep r p esp ebp st _ w run) s

-- The running thread of a well-formed table yields, under the round-robin policy. Then threads in
-- other slots move the stack pointers, yield, exit, set priorities, and create threads where a slot is
-- free and both of the creation's `malloc`s succeed, in any order. Whenever control is back with the
-- thread, the stack pointers are what they were when it yielded, and the table is well formed.
pub yield_returns :
    (r : ℕ) (st st' st'' : State)
    → IsTable st
    → IsRunning st r
    → landed (uthread_yield round_robin max_uthreads st) ≡ some st'
    → Steps r st' st''
    → st''.running_tid ≡ pos r
    → (st''.esp ≡ st.esp) × (st''.ebp ≡ st.ebp) × IsTable st''
yield_returns r st st' st'' t run e steps back =
    let self : (st.threads r == st.threads r) ≡ true = ground arith in
    let first =
      yield-Waits r (st.threads r) st.esp st.ebp st st' r t run run.0 refl
        (rw self (run.2, refl, refl)) e in
    let w = Steps-keep r (st.threads r) st.esp st.ebp st' st'' first steps in
    let (esp, ebp) = w.resumed back in (esp, ebp, w.table)
