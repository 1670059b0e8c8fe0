-- ===== src/Proc/Tests.antt =====
-- Runs on a small table, and the theorems at it.
use os.Prelude.{find_index, ◌≡◌, refl, true, false, none, some, [], ◌==◌, if◌then◌else◌, arith}
use os.Proc.{
  Proc, Table, unused, zombie, reaped, wait, sleeping, runnable, running, null, at_proc, fork, kill,
  allocproc, fork_into,
}
use os.Proc.Invariant.{IsSound}
use os.Proc.Lifecycle.{
  IsCurrent, Reach, here, next, allocates, fills, table-IsSound, kill_zero_hits_next_child,
}

abbrev free_slot : Proc
free_slot = record {
  sz = 0;
  pgdir = 0;
  kstack = 0;
  state = unused;
  pid = 0;
  parent = none;
  tf = record { eax = 0; esp = 0; eip = 0 };
  chan = null;
  killed = false;
  ofile = [];
  cwd = 0;
  name = [];
}

-- init waits for its child, the shell, which runs.
abbrev init : Proc
init = record free_slot { state = sleeping; pid = 1; chan = at_proc 0 }

abbrev shell : Proc
shell = record free_slot { state = running; pid = 2; parent = some 0 }

abbrev booted : Table
booted = record {
  proc = λ i. if i == 0 then init else if i == 1 then shell else free_slot;
  nextpid = 3;
  initproc = 0;
}

booted-IsSound : IsSound booted
booted-IsSound = record {
  init_index = omega arith;
  init_alive = ground arith;
  init_parent = refl;
  not_own_parent = λ i a b c. ground arith;
  pid_given = λ i a b. ground arith;
  pid_unique = λ i j a b c d e. ground arith;
  unused_parent = λ i a b. ground arith;
  embryo_parent = λ i a b. ground arith;
  parent_alive = λ i p a b c. ground arith;
  no_lost_wakeup = λ i p a b c d e. ground arith;
}

shell-IsCurrent : IsCurrent 1 booted
shell-IsCurrent = (omega arith, refl)

abbrev forked : Table
forked = (fork 1 4096 8192 booted).1

forked_child : ((forked.proc 2).pid ≡ 3) × ((forked.proc 2).state ≡ runnable)
unfolding fork allocproc fork_into
forked_child = (refl, refl)

forked-Reach : Reach booted forked
unfolding fork allocproc
forked-Reach =
    next (next here (allocates 4096 (omega arith)))
      (fills 1 8192 2 shell-IsCurrent (omega arith) refl)

table-IsSound_example : IsSound forked
table-IsSound_example = table-IsSound forked-Reach booted-IsSound

kill_zero_hits_next_child_example :
    let (done, u) = kill 0 booted in
    let (pid, w) = fork 1 4096 8192 u in
    (done ≡ true)
    × (pid ≡ some 3)
    × ((w.proc 2).pid ≡ 3)
    × ((w.proc 2).state ≡ runnable)
    × ((w.proc 2).killed ≡ true)
unfolding find_index
kill_zero_hits_next_child_example =
    kill_zero_hits_next_child 1 4096 8192 2 booted shell-IsCurrent refl refl (omega arith)
      (omega arith)

-- The shell has exited, and init has been woken.
abbrev exited : Table
exited = record booted {
  proc = λ i.
      if i == 0
      then record init { state = running }
      else if i == 1
      then record shell { state = zombie }
      else free_slot;
}

init_collects : (wait 0 exited).0 ≡ reaped 2
unfolding wait
init_collects = refl
