-- ===== src/Uthread/Invariant.antt =====
-- What holds of the thread table once it is set up.
use os.Prelude.{ℕ, ◌<◌, ◌≡◌, ◌≢◌, true, false, ℤ, pos, ◌∙◌, sym}
use os.Uthread.Count.{count}
use os.Uthread.{State, Uthread, max_uthreads}

abbrev pub IsUsed : State → ℕ → Type 0
IsUsed st i = (i < max_uthreads) × (st.threads i ≢ 0)

pub record IsTable (st : State) : Type 0 where
  pub set_up : st.first_uthread ≡ false
  pub counted : st.cur_threads ≡ count max_uthreads st.threads
  -- the thread of a slot knows its slot, and its block and its stack are allocated
  pub tid : (i : ℕ) → IsUsed st i → (st.block (st.threads i)).tid ≡ i
  pub block_live : (i : ℕ) → IsUsed st i → st.live (st.threads i) ≡ true
  pub stack_live : (i : ℕ) → IsUsed st i → st.live (st.block (st.threads i)).ss_sp ≡ true
  -- a stack is no thread's block and no other thread's stack
  pub stack_apart :
      (i j : ℕ) → IsUsed st i → IsUsed st j → (st.block (st.threads i)).ss_sp ≢ st.threads j
  pub stacks_apart :
      (i j : ℕ)
      → IsUsed st i
      → IsUsed st j
      → (st.block (st.threads i)).ss_sp ≡ (st.block (st.threads j)).ss_sp
      → i ≡ j

-- The thread in slot `r` is running, and has run before.
abbrev pub IsRunning : State → ℕ → Type 0
IsRunning st r = IsUsed st r × (st.running_tid ≡ pos r) × ((st.block (st.threads r)).virgin ≡ false)

-- The stack pointers that the thread at `p` goes on with when it is next switched to.
abbrev pub IsParked : State → ℕ → ℕ → ℕ → Type 0
IsParked st p esp ebp =
    ((st.block p).virgin ≡ false) × ((st.block p).ss_esp ≡ esp) × ((st.block p).ss_ebp ≡ ebp)

-- Switching changes no slot and no allocation, and of a block neither its slot nor its stack.
pub IsTable-same :
    (st : State) (block : ℕ → Uthread) (running_tid : ℤ) (esp ebp : ℕ)
    → ((a : ℕ) → ((block a).tid ≡ (st.block a).tid) × ((block a).ss_sp ≡ (st.block a).ss_sp))
    → IsTable st
    → IsTable (record st { block = block; running_tid = running_tid; esp = esp; ebp = ebp })
IsTable-same st block running_tid esp ebp h t = record {
  set_up = t.set_up;
  counted = t.counted;
  tid = λ i u. (h (st.threads i)).0 ∙ t.tid i u;
  block_live = t.block_live;
  stack_live = λ i u. rw ((h (st.threads i)).1) (t.stack_live i u);
  stack_apart = λ i j u w. rw ((h (st.threads i)).1) (t.stack_apart i j u w);
  stacks_apart =
      λ i j u w e. t.stacks_apart i j u w (sym ((h (st.threads i)).1) ∙ e ∙ (h (st.threads j)).1);
}
