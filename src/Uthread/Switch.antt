-- ===== src/Uthread/Switch.antt =====
-- `uthread_yield` and `uthread_exit` under the round-robin policy.
use os.Prelude.{
  ℕ, ◌+◌, ◌-◌, ◌%◌, ◌≤◌, ◌<◌, ◌≡◌, refl, ◌∙◌, ap, ◌≢◌, inl, inr, Bool, true, false, not, Option,
  none, some, ◌==◌, pos, arith, Bool-cases,
}
use os.Uthread.{
  State, max_uthreads, update, Policy, round_robin, Run, resumes, enters, exits, loops, faults,
  next_thread, loaded, entered, switch_to, go_on, with_self, saved, uthread_yield,
}
use os.Uthread.Invariant.{IsUsed, IsTable, IsRunning, IsParked, IsTable-same}
use os.Uthread.Next.{Nearest, next_loop-Nearest}

-- The state in which a thread goes on.
unfoldable pub landed : Run → Option State
landed (resumes st) = some st
landed (enters f st) = some st
landed exits = none
landed loops = none
landed faults = none

abbrev pub is_used : State → ℕ → Bool
is_used st i = not (st.threads i == 0)

update_other : {A : Type 0} → (f : ℕ → A) (i j : ℕ) (v : A) → j ≢ i → update f i v j ≡ f j
update_other f i j v ne = let apart : (i == j) ≡ false = ground arith in rw apart

-- Switching to the thread of slot `i` lands in it, with its stack pointers.
pub switch_to_lem :
    (st : State) (i : ℕ)
    → IsTable st
    → IsUsed st i
    → (st' : State) × (landed (switch_to (st.threads i) st) ≡ some st')
      × IsRunning st' i
      × IsTable st'
      × (st'.threads ≡ st.threads)
      × ((p : ℕ) → p ≢ st.threads i → st'.block p ≡ st.block p)
      × ((esp ebp : ℕ) → IsParked st (st.threads i) esp ebp → (st'.esp ≡ esp) × (st'.ebp ≡ ebp))
unfolding switch_to landed
switch_to_lem st i t u = elim (Bool-cases ((st.block (st.threads i)).virgin)) [
  | inl new ↦
      let p = st.threads i in
      (
        entered p (loaded p st),
        rw new,
        (u, ap pos (t.tid i u), ground arith),
        IsTable-same st ((entered p (loaded p st)).block) (pos (st.block p).tid) _ _
            (λ a. (ground arith, ground arith)) t,
        refl,
        λ q ne. update_other st.block p q _ ne,
        λ esp ebp k. absurd (ground (arith, k.0)),
      )
  | inr old ↦
      let p = st.threads i in
      (
        loaded p st,
        rw old,
        (u, ap pos (t.tid i u), old),
        IsTable-same st st.block (pos (st.block p).tid) _ _ (λ a. (refl, refl)) t,
        refl,
        λ q ne. refl,
        λ esp ebp k. (k.1, k.2),
      )
]

go_on-some : (st : State) (i : ℕ) → go_on (some i) st ≡ switch_to (st.threads i) st
unfolding go_on switch_to
go_on-some st i = refl

-- With a thread in some slot, the search from `start` ends within one round at the nearest.
pub next_thread_lem :
    (st : State) (start j : ℕ)
    → start < max_uthreads
    → IsUsed st j
    → (i : ℕ) × (k : ℕ) × (next_thread round_robin max_uthreads start st ≡ some i)
      × IsUsed st i
      × Nearest (is_used st) start i k
      × (k ≤ (j + max_uthreads - start) % max_uthreads)
unfolding next_thread
next_thread_lem st start j b u =
    let d = (j + max_uthreads - start) % max_uthreads in
    let there : (start + d) % max_uthreads ≡ j = omega (arith, u.0) in
    let hit : is_used st ((start + d) % max_uthreads) ≡ true = rw there (ground (arith, u.1)) in
    let (i, k, e, n, le) =
      next_loop-Nearest (is_used st) max_uthreads start d b (omega arith) hit in
    (i, k, e, (omega (arith, n.place), ground (arith, n.passes)), n, le)

-- The running thread finds itself.
pub with_self_lem :
    (st : State) (r : ℕ) (k : ℕ → Run)
    → IsTable st
    → IsRunning st r
    → with_self st k ≡ k (st.threads r)
unfolding with_self
with_self_lem st r k t run =
    let used : (st.threads r == 0) ≡ false = ground (arith, run.0) in
    rw (run.1, used, t.tid r run.0)

-- The switch at the end, where the search finds slot `i`.
pub go_on_lem :
    (st : State) (start i : ℕ) (st' : State)
    → next_thread round_robin max_uthreads start st ≡ some i
    → landed (switch_to (st.threads i) st) ≡ some st'
    → landed (go_on (next_thread round_robin max_uthreads start st) st) ≡ some st'
go_on_lem st start i st' e l = rw (e, go_on-some st i) l

pub yield_run :
    (policy : Policy) (fuel : ℕ) (st : State) (r : ℕ)
    → IsTable st
    → IsRunning st r
    → uthread_yield policy fuel st
      ≡ go_on
          (next_thread policy fuel ((r + 1) % max_uthreads) (saved (st.threads r) st))
          (saved (st.threads r) st)
unfolding uthread_yield
yield_run policy fuel st r t run =
    let tid : ((saved (st.threads r) st).block (st.threads r)).tid ≡ r =
      ground (arith, t.tid r run.0) in
    rw (with_self_lem st r _ t run, tid)

-- A yield, from the state with the stack pointers saved.
pub yield_saved :
    (st : State) (r : ℕ)
    → IsTable st
    → IsRunning st r
    → (i : ℕ) × (k : ℕ) × (st' : State) × (landed (uthread_yield round_robin max_uthreads st)
        ≡ some st')
      × Nearest (is_used st) ((r + 1) % max_uthreads) i k
      × IsRunning st' i
      × IsTable st'
      × (st'.threads ≡ st.threads)
      × ((esp ebp : ℕ)
          → IsParked (saved (st.threads r) st) (st.threads i) esp ebp
          → (st'.esp ≡ esp) × (st'.ebp ≡ ebp))
      × ((p : ℕ) → p ≢ st.threads i → st'.block p ≡ (saved (st.threads r) st).block p)
yield_saved st r t run =
    let p = st.threads r in
    let u = saved p st in
    let t' = IsTable-same st u.block st.running_tid st.esp st.ebp (λ a. ground arith) t in
    let (i, k, e, used, n, le) = next_thread_lem u ((r + 1) % max_uthreads) r (omega arith) run.0 in
    let (st', l, run', t'', same, rest, back) = switch_to_lem u i t' used in
    (
      i,
      k,
      st',
      ap landed (yield_run round_robin max_uthreads st r t run) ∙ go_on_lem u _ i st' e l,
      n,
      run',
      t'',
      same,
      back,
      rest,
    )
