-- ===== src/Uthread/Tests.antt =====
-- Concrete runs of the user-level threads.
use os.Prelude.{ℕ, ◌+◌, ◌%◌, ◌<◌, ◌≡◌, refl, ◌≢◌, ◌⊎◌, true, false, some, pos, minus_one, arith, ok}
use os.Uthread.{
  State, Uthread, max_uthreads, update, init_table, new_thread, removed, next_thread, next_loop,
  go_on, switch_to, with_self, round_robin, priority_based, loops, loaded, uthread_create,
  uthread_yield, uthread_exit, uthread_setpr,
}
use os.Uthread.Invariant.{IsUsed, IsTable, IsRunning, IsParked, IsTable-same}
use os.Uthread.Switch.{landed, is_used}
use os.Uthread.Exit.{uthread_exit_lem}
use os.Uthread.Create.{
  new_thread-IsTable, init_table-IsTable, uthread_create-IsTable, uthread_create_leaves_freed_block,
}
use os.Uthread.Next.{Nearest}
use os.Uthread.Fair.{turns_before, uthread_yield-turns_before, uthread_setpr_spins}
use os.Uthread.Turns.{here, ◌and_then◌, yields, yield_returns, moved, unsome}

abbrev no_thread : Uthread
no_thread = record {
  tid = 0;
  ss_sp = 0;
  ss_esp = 0;
  ss_ebp = 0;
  priority = pos 0;
  entryfunc = 0;
  virgin = false;
}

-- A process as it starts.
abbrev fresh_state : State
fresh_state = record {
  first_uthread = true;
  cur_threads = 5;
  highest_p = pos 0;
  threads = λ i. 7;
  running_tid = pos 3;
  block = λ p. no_thread;
  live = λ p. false;
  esp = 100;
  ebp = 100;
}

abbrev set_up : State
set_up = init_table fresh_state

set_up-IsTable : IsTable set_up
set_up-IsTable = init_table-IsTable fresh_state refl

abbrev one_thread : State
one_thread = new_thread 0 4096 8192 77 (pos 3) set_up

uthread_create-IsTable_example :
    (i : ℕ) × (st' : State) × (uthread_create 4096 8192 77 (pos 3) set_up ≡ ok (pos i, st'))
    × (set_up.threads i ≡ 0)
    × (st'.threads i ≡ 4096)
    × ((st'.block 4096).entryfunc ≡ 77)
    × IsUsed st' i
    × (st'.cur_threads ≡ set_up.cur_threads + 1)
    × IsTable st'
    × (st'.running_tid ≡ set_up.running_tid)
    × ((j : ℕ)
        → IsUsed set_up j
        → (st'.threads j ≡ set_up.threads j)
          × (st'.block (set_up.threads j) ≡ set_up.block (set_up.threads j)))
unfolding init_table
uthread_create-IsTable_example =
    uthread_create-IsTable 4096 8192 77 (pos 3) set_up set_up-IsTable (omega arith)
      (omega arith, refl) (omega arith, refl) (omega arith)

uthread_create_leaves_freed_block_example :
    (i : ℕ) × (st' : State) × (uthread_create 4096 0 77 (pos 3) set_up ≡ ok (minus_one, st'))
    × IsUsed st' i
    × (st'.threads i ≡ 4096)
    × (st'.live 4096 ≡ false)
    × (st'.cur_threads ≡ set_up.cur_threads)
    × (¬ IsTable st')
unfolding init_table
uthread_create_leaves_freed_block_example =
    uthread_create_leaves_freed_block 4096 77 (pos 3) set_up set_up-IsTable (omega arith)
      (omega arith, refl)

abbrev two_threads : State
two_threads = new_thread 1 12288 16384 88 (pos 5) one_thread

one_thread-IsTable : IsTable one_thread
unfolding init_table
one_thread-IsTable =
    new_thread-IsTable set_up set_up-IsTable 0 4096 8192 77 (pos 3) (omega arith) refl
      (omega arith, refl) (omega arith, refl) (omega arith)

two_threads-IsTable : IsTable two_threads
unfolding init_table new_thread
two_threads-IsTable =
    new_thread-IsTable one_thread one_thread-IsTable 1 12288 16384 88 (pos 5) (omega arith) refl
      (omega arith, refl) (omega arith, refl) (omega arith)

-- The first of one and the first of two threads run.
abbrev started : State → State
started st = record (loaded 4096 st) {
  block = update st.block 4096 (record (st.block 4096) { virgin = false });
}

started-IsTable : (st : State) → IsTable st → IsTable (started st)
started-IsTable st t =
    IsTable-same st ((started st).block) (pos (st.block 4096).tid) (st.block 4096).ss_esp
      (st.block 4096).ss_ebp (λ a. ground arith) t

two-IsRunning : IsRunning (started two_threads) 0
unfolding init_table new_thread
two-IsRunning = ((omega arith, λ e. ground (arith, e)), refl, refl)

one-IsRunning : IsRunning (started one_thread) 0
unfolding init_table new_thread
one-IsRunning = ((omega arith, λ e. ground (arith, e)), refl, refl)

uthread_yield-turns_before_example :
    (i : ℕ) × (st' : State) × (landed (uthread_yield round_robin max_uthreads (started two_threads))
      ≡ some st')
    × IsRunning st' i
    × IsUsed st' 0
    × ((i ≡ 0) ⊎ (turns_before i 0 < turns_before 0 0))
uthread_yield-turns_before_example =
    uthread_yield-turns_before (started two_threads) 0 0
      (started-IsTable two_threads two_threads-IsTable) two-IsRunning two-IsRunning.0

-- The first thread yields to the second, which moves the stack pointers and yields back.
abbrev second_turn : State
second_turn =
    unsome two_threads (landed (uthread_yield round_robin max_uthreads (started two_threads)))

abbrev back_again : State
back_again =
    unsome two_threads
      (landed (uthread_yield round_robin max_uthreads (moved 20000 20004 second_turn)))

yield_returns_example :
    (back_again.esp ≡ (started two_threads).esp)
    × (back_again.ebp ≡ (started two_threads).ebp)
    × IsTable back_again
unfolding uthread_yield next_thread next_loop go_on switch_to with_self init_table new_thread landed
yield_returns_example =
    yield_returns 0 (started two_threads) second_turn back_again
      (started-IsTable two_threads two_threads-IsTable) two-IsRunning refl
      (here and_then (yields 20000 20004 (λ e. ground (arith, e)) refl)) refl

uthread_exit_lem_example :
    (i : ℕ) × (k : ℕ) × (st' : State) × (landed
        (uthread_exit round_robin max_uthreads (started two_threads))
      ≡ some st')
    × Nearest (is_used (removed 4096 (started two_threads))) ((0 + 1) % max_uthreads) i k
    × (i ≢ 0)
    × IsRunning st' i
    × IsTable st'
    × (st'.threads 0 ≡ 0)
    × ((esp ebp : ℕ)
        → IsParked (started two_threads) ((started two_threads).threads i) esp ebp
        → (st'.esp ≡ esp) × (st'.ebp ≡ ebp))
    × ((p : ℕ) → p ≢ (started two_threads).threads i → st'.block p ≡ (started two_threads).block p)
    × ((j : ℕ) → j ≢ 0 → st'.threads j ≡ (started two_threads).threads j)
unfolding init_table new_thread
uthread_exit_lem_example =
    uthread_exit_lem (started two_threads) 0 (started-IsTable two_threads two_threads-IsTable)
      two-IsRunning (omega arith)

uthread_setpr_spins_example :
    (st' : State) × (uthread_setpr (pos 4) (started one_thread)
      ≡ some (((started one_thread).block ((started one_thread).threads 0)).priority, st'))
    × (uthread_yield priority_based 64 st' ≡ loops)
unfolding init_table new_thread
uthread_setpr_spins_example =
    uthread_setpr_spins (started one_thread) 0 64 (pos 4)
      (started-IsTable one_thread one_thread-IsTable) one-IsRunning
      (λ i u ne. absurd (u.1 (ground arith))) refl
