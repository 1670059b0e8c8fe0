-- ===== src/Uthread/Fair.antt =====
-- Who runs next: every thread's turn comes under round robin, and under the priority policy the
-- search can go on for ever after `uthread_setpr`.
use os.Prelude.{
  ℕ, zero, suc, ◌+◌, ◌-◌, ◌%◌, ◌≤◌, ◌<◌, ◌≡◌, refl, ◌∙◌, ap, ◌≢◌, ◌⊎◌, inl, inr, Bool, true, false,
  none, some, ◌==◌, ℤ, ◌==ℤ◌, arith, Bool-cases,
}
use os.Uthread.{
  State, max_uthreads, update, round_robin, priority_based, loops, next_loop, next_thread, chosen,
  go_on, saved, uthread_yield, uthread_setpr,
}
use os.Uthread.Invariant.{IsUsed, IsTable, IsRunning, IsTable-same}
use os.Uthread.Switch.{landed, is_used, yield_saved, yield_run}

-- How many slots lie between `r` and `j`, going round from `r`.
abbrev pub turns_before : ℕ → ℕ → ℕ
turns_before r j = (j + max_uthreads - (r + 1)) % max_uthreads

nearer :
    (r i j k : ℕ)
    → r < max_uthreads
    → j < max_uthreads
    → i ≡ ((r + 1) % max_uthreads + k) % max_uthreads
    → k ≤ turns_before r j
    → (i ≡ j) ⊎ (turns_before i j < turns_before r j)
nearer r i j k l m e near = elim (Bool-cases (k == turns_before r j)) [
  | inl last ↦ let d : k ≡ turns_before r j = ground arith in inl (omega arith)
  | inr before ↦ let d : k < turns_before r j = ground arith in inr (omega arith)
]

-- In a well-formed table a yield of the running thread brings the turn of every thread, its own
-- next one too, nearer: that thread runs next, or fewer slots lie before its turn.
pub uthread_yield-turns_before :
    (st : State) (r j : ℕ)
    → IsTable st
    → IsRunning st r
    → IsUsed st j
    → (i : ℕ) × (st' : State) × (landed (uthread_yield round_robin max_uthreads st) ≡ some st')
      × IsRunning st' i
      × IsUsed st' j
      × ((i ≡ j) ⊎ (turns_before i j < turns_before r j))
uthread_yield-turns_before st r j t run u =
    let (i, k, st', l, n, run', t', same, back, rest) = yield_saved st r t run in
    let used : IsUsed st' j = rw (ap (λ f. f j) same) u in
    let place : (((r + 1) % max_uthreads) + turns_before r j) % max_uthreads ≡ j =
      omega (arith, u.0, run.0) in
    let hit : is_used st (((r + 1) % max_uthreads + turns_before r j) % max_uthreads) ≡ true =
      rw place (ground (arith, u.1)) in
    let near : k ≤ turns_before r j = ground (arith, n.first (turns_before r j), hit) in
    (i, st', l, run', used, nearer r i j k run.0.0 u.0 n.place near)

next_loop-none :
    (test : ℕ → Bool) (fuel start : ℕ)
    → start < max_uthreads
    → ((i : ℕ) → i < max_uthreads → test i ≡ false)
    → next_loop test fuel start ≡ none
unfolding next_loop
next_loop-none test zero start b h = refl
next_loop-none test (suc fuel) start b h =
    rw (h start b) (next_loop-none test fuel ((start + 1) % max_uthreads) (omega arith) h)

-- Where no thread of the table has the priority `highest_p`, the search of the priority policy
-- does not end, whatever the fuel.
pub next_thread_spins :
    (st : State) (fuel start : ℕ)
    → start < max_uthreads
    → ((i : ℕ) → IsUsed st i → ((st.block (st.threads i)).priority ==ℤ st.highest_p) ≡ false)
    → next_thread priority_based fuel start st ≡ none
unfolding next_thread
next_thread_spins st fuel start b h = next_loop-none (chosen priority_based st) fuel start b (λ i l.
    elim (Bool-cases (st.threads i == 0)) [
      | inl free ↦ rw free
      | inr used ↦ rw (used, h i (l, ground arith))
    ])

yield_spins :
    (st : State) (r fuel : ℕ)
    → IsTable st
    → IsRunning st r
    → ((i : ℕ) → IsUsed st i → ((st.block (st.threads i)).priority ==ℤ st.highest_p) ≡ false)
    → uthread_yield priority_based fuel st ≡ loops
unfolding go_on
yield_spins st r fuel t run h =
    let u = saved (st.threads r) st in
    let kept : (i : ℕ) → (u.block (st.threads i)).priority ≡ (st.block (st.threads i)).priority =
      λ i. ground arith in
    let over =
      next_thread_spins u fuel ((r + 1) % max_uthreads) (omega arith)
        (λ i used. rw (kept i) (h i used)) in
    yield_run priority_based fuel st r t run ∙ rw over

abbrev repriced : ℕ → ℤ → State → State
repriced p pr st = record st { block = update st.block p (record (st.block p) { priority = pr }) }

-- In a well-formed table where no other thread has the priority `highest_p`, the running thread
-- gives itself another priority by `uthread_setpr`, which returns the old one. Its next yield
-- under the priority policy does not end, whatever the fuel.
pub uthread_setpr_spins :
    (st : State) (r fuel : ℕ) (pr : ℤ)
    → IsTable st
    → IsRunning st r
    → ((i : ℕ)
        → IsUsed st i
        → i ≢ r
        → ((st.block (st.threads i)).priority ==ℤ st.highest_p) ≡ false)
    → (pr ==ℤ st.highest_p) ≡ false
    → (st' : State) × (uthread_setpr pr st ≡ some ((st.block (st.threads r)).priority, st'))
      × (uthread_yield priority_based fuel st' ≡ loops)
unfolding uthread_setpr
uthread_setpr_spins st r fuel pr t run others lower =
    let p = st.threads r in
    let u = repriced p pr st in
    let used : (p == 0) ≡ false = ground (arith, run.0) in
    let t' = IsTable-same st u.block st.running_tid st.esp st.ebp (λ a. ground arith) t in
    let none_left : (i : ℕ)
        → IsUsed st i
        → ((u.block (st.threads i)).priority ==ℤ st.highest_p) ≡ false =
      λ i used. elim (Bool-cases (p == st.threads i)) [
        | inl same ↦ rw same lower
        | inr apart ↦ rw apart (others i used (λ z. ground (arith, ap st.threads z)))
      ] in
    (u, rw (run.1, used), yield_spins u r fuel t' (run.0, run.1, ground (arith, run.2)) none_left)
