-- ===== src/Uthread.antt =====
-- uthread.c: the user-level threads of a process, switched by hand.
--
-- A pointer is its address, 0 the null pointer. `block` is what the heap holds of `uthread_t`s, and
-- `live` says which addresses `malloc` has given out and `free` has not taken back; `free` leaves
-- the contents of a block as they are. What `malloc` returns is an argument. `esp` and `ebp` are the
-- machine's registers. The table's array is a function of the index, below MAX_UTHREADS. Debug
-- output is compiled out (T_A_DEBUG is 0).
pub mod Count
pub mod Next
pub mod Invariant
pub mod Create
pub mod Switch
pub mod Exit
pub mod Turns
pub mod Fair
mod Tests
use os.Prelude.{
  ℕ, zero, suc, ◌+◌, ◌-◌, ◌%◌, ◌^◌, Bool, true, false, not, ◌&&◌, ◌||◌, Option, none, some, ◌==◌,
  if◌then◌else◌, ℤ, pos, negsuc, minus_one, ltb_ℤ, ◌==ℤ◌, Outcome, ok, fault, ◌>>=◌, find_index,
}

-- MAX_UTHREADS, UTHREAD_STACK_SIZE
abbrev pub max_uthreads : ℕ
max_uthreads = 64

abbrev pub stack_size : ℕ
stack_size = 4000

pub record Uthread : Type 0 where
  pub tid : ℕ
  pub ss_sp : ℕ
  pub ss_esp : ℕ
  pub ss_ebp : ℕ
  pub priority : ℤ
  pub entryfunc : ℕ
  pub virgin : Bool

-- `ut_table`, `first_uthread`, the heap and the registers.
pub record State : Type 0 where
  pub first_uthread : Bool
  pub cur_threads : ℕ
  pub highest_p : ℤ
  pub threads : ℕ → ℕ
  pub running_tid : ℤ
  pub block : ℕ → Uthread
  pub live : ℕ → Bool
  pub esp : ℕ
  pub ebp : ℕ

abbrev pub update {ℓ} : {A : Type ℓ} → (ℕ → A) → ℕ → A → ℕ → A
update f i v j = if i == j then v else f j

-- The table as the first `uthread_create` sets it up.
pub init_table : State → State
init_table st =
    if st.first_uthread
    then record st {
      cur_threads = 0;
      highest_p = pos 9;
      running_tid = minus_one;
      threads = λ i. 0;
      first_uthread = false;
    }
    else st

-- The new thread in slot `i`, with its block at `p` and its stack at `sp`.
pub new_thread : ℕ → ℕ → ℕ → ℕ → ℤ → State → State
new_thread i p sp start_func priority st = record st {
  threads = update st.threads i p;
  live = update (update st.live p true) sp true;
  cur_threads = st.cur_threads + 1;
  highest_p = if ltb_ℤ priority st.highest_p then priority else st.highest_p;
  block = update st.block p (record {
    tid = i;
    ss_sp = sp;
    ss_esp = sp + (stack_size - 4);
    ss_ebp = sp + (stack_size - 4);
    priority = priority;
    entryfunc = start_func;
    virgin = true;
  });
}

-- `p` and `sp` are what the two calls of `malloc` return. With no free slot the code would write
-- behind the array.
pub create_in : ℕ → ℕ → ℕ → ℤ → Option ℕ → State → Outcome (ℤ × State)
unfolding new_thread
create_in p sp start_func priority none st = fault
create_in p sp start_func priority (some i) st =
    if p == 0
    then ok (minus_one, record st { threads = update st.threads i 0 })
    else if sp == 0
    then ok (
      minus_one,
      record st {
        threads = update st.threads i p;
        block = update st.block p (record (st.block p) { ss_sp = 0 });
      },
    )
    else ok (pos i, new_thread i p sp start_func priority st)

pub uthread_create : ℕ → ℕ → ℕ → ℤ → State → Outcome (ℤ × State)
uthread_create p sp start_func priority st0 =
    let st = init_table st0 in
    if st.cur_threads == max_uthreads
    then ok (minus_one, st)
    else create_in p sp start_func priority (find_index (λ i. st.threads i == 0) max_uthreads 0) st

-- SCHED_PB chooses the policy at compile time.
pub data Policy : Type 0 where
  round_robin priority_based : Policy

abbrev pub chosen : Policy → State → ℕ → Bool
chosen round_robin st i = not (st.threads i == 0)
chosen priority_based st i =
    not (st.threads i == 0) && ((st.block (st.threads i)).priority ==ℤ st.highest_p)

-- The loop of `next_thread`, on fuel: the slot at which it stops.
pub next_loop : (ℕ → Bool) → ℕ → ℕ → Option ℕ
next_loop test zero start = none
next_loop test (suc fuel) start =
    let rest = next_loop test fuel ((start + 1) % max_uthreads) in
    if test start then some start else rest

pub next_thread : Policy → ℕ → ℕ → State → Option ℕ
next_thread policy fuel start st = next_loop (chosen policy st) fuel start

-- How a switch ends: in the thread where it left off, or at its entry function; the process exits;
-- the search for a thread does not end within the fuel; or memory is accessed out of bounds.
pub data Run : Type 0 where
  resumes : State → Run
  enters : ℕ → State → Run
  exits : Run
  loops : Run
  faults : Run

abbrev pub loaded : ℕ → State → State
loaded p st = record st {
  running_tid = pos (st.block p).tid;
  esp = (st.block p).ss_esp;
  ebp = (st.block p).ss_ebp;
}

-- PUSH of the entry function, which comes before the call of `wrap_function`.
abbrev pub entered : ℕ → State → State
entered p st = record st {
  block = update st.block p (record (st.block p) { virgin = false });
  esp = (st.esp + 2 ^ 32 - 4) % 2 ^ 32;
}

-- The end of `uthread_yield` and `uthread_exit`: control passes to the thread at `p`.
pub switch_to : ℕ → State → Run
switch_to p st =
    if (st.block p).virgin
    then enters (st.block p).entryfunc (entered p (loaded p st))
    else resumes (loaded p st)

pub go_on : Option ℕ → State → Run
unfolding switch_to
go_on none st = loops
go_on (some i) st = switch_to (st.threads i) st

-- `threads[running_tid]`, dereferenced.
pub with_self : State → (ℕ → Run) → Run
with_self st k = elim st.running_tid [
  | pos r ↦ if st.threads r == 0 then faults else k (st.threads ((st.block (st.threads r)).tid))
  | negsuc n ↦ faults
]

abbrev pub saved : ℕ → State → State
saved p st = record st {
  block = update st.block p (record (st.block p) { ss_esp = st.esp; ss_ebp = st.ebp });
}

pub uthread_yield : Policy → ℕ → State → Run
unfolding with_self
uthread_yield policy fuel st = with_self st λ p.
    let u = saved p st in go_on (next_thread policy fuel (((u.block p).tid + 1) % max_uthreads) u) u

-- The loop of `get_highest_p` from `i` on.
pub highest_loop : (ℕ → ℕ) → (ℕ → Uthread) → ℕ → ℕ → ℤ → ℤ
highest_loop threads block zero i cur_max = cur_max
highest_loop threads block (suc n) i cur_max = highest_loop threads block n (i + 1) (
    if not (threads i == 0) && ltb_ℤ (block (threads i)).priority cur_max
    then (block (threads i)).priority
    else cur_max)

pub get_highest_p : State → ℤ
unfolding highest_loop
get_highest_p st = highest_loop st.threads st.block max_uthreads 0 (pos 9)

-- The thread at `p` without its memory and its slot.
pub removed : ℕ → State → State
unfolding get_highest_p
removed p st = record u { highest_p = get_highest_p u }
  where
    u : State
    u = record st {
      live = update (update st.live (st.block p).ss_sp false) (st.threads (st.block p).tid) false;
      threads = update st.threads (st.block p).tid 0;
      cur_threads = st.cur_threads - 1;
    }

pub uthread_exit : Policy → ℕ → State → Run
unfolding with_self
uthread_exit policy fuel st = with_self st λ p.
    let u = removed p st in
    if u.cur_threads == 0
    then exits
    else go_on (next_thread policy fuel (((st.block p).tid + 1) % max_uthreads) u) u

-- `none` is the result -1.
pub start_in : Option ℕ → State → Run
start_in none st = loops
start_in (some i) st =
    let p = st.threads i in enters (st.block p).entryfunc (entered p (loaded p st))

pub uthread_start_all : Policy → ℕ → State → Option Run
unfolding start_in
uthread_start_all policy fuel st =
    if st.first_uthread || st.cur_threads == 0 || not (st.running_tid ==ℤ minus_one)
    then none
    else some (start_in (next_thread policy fuel 0 st) st)

-- `none` is a null pointer, dereferenced, in this and the next two.
pub uthread_setpr : ℤ → State → Option (ℤ × State)
uthread_setpr priority st = elim st.running_tid [
  | pos r ↦
      if st.threads r == 0
      then none
      else some (
        (st.block (st.threads r)).priority,
        record st {
          block =
              update st.block (st.threads r)
                (record (st.block (st.threads r)) { priority = priority });
        },
      )
  | negsuc n ↦ none
]

pub uthread_self : State → Option Uthread
uthread_self st = elim st.running_tid [
  | pos r ↦ if st.threads r == 0 then none else some (st.block (st.threads r))
  | negsuc n ↦ none
]

pub uthread_getpr : State → Option ℤ
uthread_getpr st = elim st.running_tid [
  | pos r ↦ if st.threads r == 0 then none else some (st.block (st.threads r)).priority
  | negsuc n ↦ none
]
