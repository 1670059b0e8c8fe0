-- ===== src/Proc.antt =====
-- proc.c: the process table. Each function is one critical section under `ptable.lock`, from its
-- `acquire` to its `release` or to the call of `sched`; `me` is the index of the current process.
--
-- The table is a function of the index, below NPROC. A pointer to a process is its index, a pointer
-- to a page, a file or an inode a number, 0 the null pointer. What `kalloc` and `copyuvm` return are
-- arguments. Of the trap frame the fields that the file touches are kept, and `context`, which holds
-- only where the kernel resumes, is not.
pub mod Effects
pub mod Invariant
pub mod Steps
pub mod Slots
pub mod Exit
pub mod Lifecycle
mod Tests
use os.Prelude.{
  as_uint, find_index, ℕ, zero, suc, ◌+◌, Bool, true, false, not, ◌&&◌, ◌||◌, List, [], ◌∷◌, Option,
  none, some, ◌==◌, if◌then◌else◌, Outcome, ok, panic, map,
}

abbrev pub nproc : ℕ
nproc = 64

pub data ProcState : Type 0 where
  unused embryo sleeping runnable running zombie : ProcState

-- What a process sleeps on: nothing, the address of a process, or any other address.
pub data Chan : Type 0 where
  null : Chan
  at_proc : ℕ → Chan
  at_addr : ℕ → Chan

abbrev pub chan_eq : Chan → Chan → Bool
chan_eq null null = true
chan_eq (at_proc i) (at_proc j) = i == j
chan_eq (at_addr i) (at_addr j) = i == j
chan_eq _ _ = false

pub record TrapFrame : Type 0 where
  pub eax : ℕ
  pub esp : ℕ
  pub eip : ℕ

pub record Proc : Type 0 where
  pub sz : ℕ
  pub pgdir : ℕ
  pub kstack : ℕ
  pub state : ProcState
  pub pid : ℕ
  pub parent : Option ℕ
  pub tf : TrapFrame
  pub chan : Chan
  pub killed : Bool
  pub ofile : List ℕ
  pub cwd : ℕ
  pub name : List ℕ

pub record Table : Type 0 where
  pub proc : ℕ → Proc
  pub nextpid : ℕ
  pub initproc : ℕ

abbrev pub is_unused : ProcState → Bool
is_unused unused = true
is_unused _ = false

abbrev pub is_sleeping : ProcState → Bool
is_sleeping sleeping = true
is_sleeping _ = false

abbrev pub is_zombie : ProcState → Bool
is_zombie zombie = true
is_zombie _ = false

abbrev pub is_runnable : ProcState → Bool
is_runnable runnable = true
is_runnable _ = false

abbrev pub is_child : Option ℕ → ℕ → Bool
is_child none i = false
is_child (some p) i = p == i

abbrev pub set_proc : ℕ → Proc → Table → Table
set_proc i p t = record t { proc = λ j. if i == j then p else t.proc j }

-- `page` is what `kalloc` returns. The lock is released after the slot is found and after this.
pub allocproc : ℕ → Table → Option ℕ × Table
unfolding find_index
allocproc page t = elim (find_index (λ i. is_unused (t.proc i).state) nproc 0) [
  | none ↦ (none, t)
  | some i ↦
      let u : Table = record t { nextpid = as_uint (t.nextpid + 1) } in
      let p : Proc = record (t.proc i) { state = embryo; pid = t.nextpid; kstack = page } in
      if page == 0
      then (none, set_proc i (record p { state = unused }) u)
      else (some i, set_proc i p u)
]

-- `np->ofile[i] = filedup(proc->ofile[i])` for the open files.
pub copy_files : List ℕ → List ℕ → List ℕ
copy_files [] olds = olds
copy_files fs [] = []
copy_files (f ∷ fs) (o ∷ olds) = (if f == 0 then o else f) ∷ copy_files fs olds

-- What `fork` puts into the slot `np` that it was given.
pub child_of : ℕ → ℕ → Proc → Proc → Proc
unfolding copy_files
child_of me pgdir parent np = record np {
  pgdir = pgdir;
  sz = parent.sz;
  parent = some me;
  tf = record (parent.tf) { eax = 0 };
  ofile = copy_files parent.ofile np.ofile;
  cwd = parent.cwd;
  state = runnable;
  name = parent.name;
}

-- The rest of `fork`, with what `allocproc` has returned; it holds no lock, and writes to the slot.
pub fork_into : ℕ → ℕ → Option ℕ → Table → Option ℕ × Table
unfolding child_of
fork_into me pgdir none u = (none, u)
fork_into me pgdir (some i) u =
    if pgdir == 0
    then (none, set_proc i (record (u.proc i) { kstack = 0; state = unused }) u)
    else (some (u.proc i).pid, set_proc i (child_of me pgdir (u.proc me) (u.proc i)) u)

-- A `fork` that no other process gets between: `page` and `pgdir` are what `kalloc` and `copyuvm` return. The result is the child's pid, `none`
-- for -1.
pub fork : ℕ → ℕ → ℕ → Table → Option ℕ × Table
fork me page pgdir t = let (slot, u) = allocproc page t in fork_into me pgdir slot u

-- Wake the processes that sleep on the channel.
pub wake : Chan → Proc → Proc
wake c p = if is_sleeping p.state && chan_eq p.chan c then record p { state = runnable } else p

pub wakeup1 : Chan → Table → Table
unfolding wake
wakeup1 c t = record t { proc = λ j. wake c (t.proc j) }

-- The channel that a pointer to a process is.
abbrev pub proc_chan : Option ℕ → Chan
proc_chan none = null
proc_chan (some i) = at_proc i

-- One round of the loop of `exit` that passes the children of `me` to init.
pub pass_child : ℕ → ℕ → Table → Table
unfolding wakeup1
pass_child me i t =
    if is_child (t.proc i).parent me
    then if is_zombie (t.proc i).state then wakeup1 (at_proc t.initproc) u else u
    else t
  where
    u : Table
    u = set_proc i (record (t.proc i) { parent = some t.initproc }) t

-- The loop from `i` on in `n` rounds.
pub pass_children : ℕ → ℕ → ℕ → Table → Table
unfolding pass_child
pass_children me zero i t = t
pass_children me (suc n) i t = pass_children me n (i + 1) (pass_child me i t)

-- `exit` closes every open file and gives up the current directory.
pub close_all : ℕ → Table → Table
close_all me t =
    set_proc me (record (t.proc me) { ofile = map (λ _. 0) (t.proc me).ofile; cwd = 0 }) t

pub die : ℕ → Table → Table
die me t = set_proc me (record (t.proc me) { state = zombie }) t

-- The table when `exit` calls `sched`, never to return.
pub exit : ℕ → Table → Outcome Table
exit me t =
    if me == t.initproc
    then panic "init exiting"
    else ok (
        die me (pass_children me nproc 0 (wakeup1 (proc_chan (t.proc me).parent) (close_all me t))))

-- How a pass of `wait` ends: with the pid of a dead child, with -1, or asleep.
pub data WaitEnd : Type 0 where
  reaped : ℕ → WaitEnd
  failed : WaitEnd
  waits : WaitEnd

abbrev pub reap : Proc → Proc
reap p = record p { kstack = 0; state = unused; pid = 0; parent = none; name = []; killed = false }

-- `wait` when it has found no dead child: -1 without children or when killed, sleep otherwise.
pub wait_none : ℕ → Option ℕ → Table → WaitEnd × Table
wait_none me none t = (failed, t)
wait_none me (some _) t =
    if (t.proc me).killed
    then (failed, t)
    else (waits, set_proc me (record (t.proc me) { chan = at_proc me; state = sleeping }) t)

-- One pass of `wait` over the table; `sleep` follows it at once where no child is dead.
pub wait : ℕ → Table → WaitEnd × Table
unfolding find_index wait_none
wait me t =
    elim (find_index (λ i. is_child (t.proc i).parent me && is_zombie (t.proc i).state) nproc 0) [
      | some i ↦ (reaped (t.proc i).pid, set_proc i (reap (t.proc i)) t)
      | none ↦ wait_none me (find_index (λ j. is_child (t.proc j).parent me) nproc 0) t
    ]

-- `true` for 0, `false` for -1.
pub kill : ℕ → Table → Bool × Table
unfolding find_index
kill pid t = elim (find_index (λ i. (t.proc i).pid == pid) nproc 0) [
  | none ↦ (false, t)
  | some i ↦
      let p : Proc = record (t.proc i) { killed = true } in
      (true, set_proc i (if is_sleeping p.state then record p { state = runnable } else p) t)
]

-- `sleep` up to its call of `sched`, and what it does when it is scheduled again.
pub sleep : ℕ → Chan → Table → Table
sleep me c t = set_proc me (record (t.proc me) { chan = c; state = sleeping }) t

pub tidy_up : ℕ → Table → Table
tidy_up me t = set_proc me (record (t.proc me) { chan = null }) t

pub yield_cpu : ℕ → Table → Table
yield_cpu me t = set_proc me (record (t.proc me) { state = runnable }) t

-- The scheduler's pass over the table from `i` on, up to the next process that it switches to.
pub schedule : ℕ → ℕ → Table → Option ℕ × Table
unfolding find_index
schedule n i t = elim (find_index (λ j. is_runnable (t.proc j).state) n i) [
  | none ↦ (none, t)
  | some j ↦ (some j, set_proc j (record (t.proc j) { state = running }) t)
]
