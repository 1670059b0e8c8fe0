-- ===== src/Uthread/Exit.antt =====
-- `uthread_exit` and `uthread_start_all` under the round-robin policy.
use os.Prelude.{ℕ, ◌+◌, ◌%◌, ◌≡◌, refl, sym, ◌∙◌, ap, ◌≢◌, true, false, some, ◌==◌, arith}
use os.Uthread.{State, max_uthreads, round_robin, exits, next_thread, go_on, removed, uthread_exit}
use os.Uthread.Count.{count_clear, used_slot}
use os.Uthread.Invariant.{IsUsed, IsTable, IsRunning, IsParked}
use os.Uthread.Switch.{landed, is_used, switch_to_lem, next_thread_lem, with_self_lem, go_on_lem}
use os.Uthread.Next.{Nearest}

module _ (st : State) (t : IsTable st) (r : ℕ) (used : IsUsed st r) where
  abbrev left : State
  left = removed (st.threads r) st

  -- A thread that is still there after `r` is removed.
  still : (j : ℕ) → IsUsed left j → (r ≢ j) × IsUsed st j × (left.threads j ≡ st.threads j)
  unfolding removed
  still j u = ground (arith, t.tid r used)

  -- Its memory is not the removed thread's.
  still_live :
      (a : ℕ)
      → a ≢ st.threads r
      → a ≢ (st.block (st.threads r)).ss_sp
      → st.live a ≡ true
      → left.live a ≡ true
  unfolding removed
  still_live a ne ne' h =
      let slot : st.threads ((st.block (st.threads r)).tid) ≡ st.threads r =
        ap st.threads (t.tid r used) in
      let apart : (st.threads ((st.block (st.threads r)).tid) == a) ≡ false =
        ground (arith, slot, ne) in
      let apart' : ((st.block (st.threads r)).ss_sp == a) ≡ false = ground (arith, ne') in
      rw (apart, apart') h

  own_block : (j : ℕ) → IsUsed left j → st.threads j ≢ st.threads r
  own_block j u same =
      let (ne, was, e) = still j u in
      ne (sym (t.tid r used) ∙ sym (ap (λ a. (st.block a).tid) same) ∙ t.tid j was)

  removed-IsTable : IsTable left
  unfolding removed
  removed-IsTable = record {
    set_up = t.set_up;
    counted =
        let cleared = count_clear max_uthreads ((st.block (st.threads r)).tid) st.threads in
        ground (arith, t.counted, t.tid r used, cleared);
    tid = λ j u. let (ne, was, e) = still j u in rw e (t.tid j was);
    block_live = λ j u.
        let (ne, was, e) = still j u in
        rw e (
          still_live _ (own_block j u) (λ s. t.stack_apart r j used was (sym s))
            (t.block_live j was));
    stack_live = λ j u.
        let (ne, was, e) = still j u in
        rw e (
          still_live _ (t.stack_apart j r was used) (λ s. ne (sym (t.stacks_apart j r was used s)))
            (t.stack_live j was));
    stack_apart = λ j k u w.
        let (ne, was, e) = still j u in
        let (ne', was', e') = still k w in rw (e, e') (t.stack_apart j k was was');
    stacks_apart = λ j k u w.
        let (ne, was, e) = still j u in
        let (ne', was', e') = still k w in rw (e, e') (t.stacks_apart j k was was');
  }

  -- Its own memory is freed.
  removed_frees :
      (left.live (st.threads r) ≡ false)
      × (left.live ((st.block (st.threads r)).ss_sp) ≡ false)
      × (left.threads r ≡ 0)
  unfolding removed
  removed_frees =
      let slot = ap st.threads (t.tid r used) in
      (ground (arith, slot), ground arith, ground (arith, t.tid r used))

  left_one : st.cur_threads ≢ 1 → left.cur_threads ≢ 0
  unfolding removed
  left_one more none_left =
      let cleared = count_clear max_uthreads r st.threads used.0 used.1 in
      more (omega (arith, none_left, t.counted, cleared))

  other_slots : (j : ℕ) → j ≢ r → left.threads j ≡ st.threads j
  unfolding removed
  other_slots j ne = ground (arith, t.tid r used)

  removed_blocks : (p : ℕ) → left.block p ≡ st.block p
  unfolding removed
  removed_blocks p = refl

  removed-IsParked :
      (i : ℕ)
      → left.threads i ≡ st.threads i
      → (esp ebp : ℕ) → IsParked st (st.threads i) esp ebp
      → IsParked left (left.threads i) esp ebp
  unfolding removed
  removed-IsParked i same esp ebp h = rw same h

exit_run :
    (st : State) (r : ℕ)
    → IsTable st
    → IsRunning st r
    → (removed (st.threads r) st).cur_threads ≢ 0
    → uthread_exit round_robin max_uthreads st
      ≡ go_on
          (next_thread round_robin max_uthreads
            ((r + 1) % max_uthreads)
            (removed (st.threads r) st))
          (removed (st.threads r) st)
unfolding uthread_exit
exit_run st r t run more =
    let left : ((removed (st.threads r) st).cur_threads == 0) ≡ false = ground (arith, more) in
    rw (with_self_lem st r _ t run, t.tid r run.0, left)

-- An exit of the running thread of a well-formed table, where it is not the last, empties its
-- slot and no other, and lands in the thread of the nearest used slot after its own, which goes
-- on with the stack pointers saved for it; the other blocks are unchanged and the table stays
-- well formed.
pub uthread_exit_lem :
    (st : State) (r : ℕ)
    → IsTable st
    → IsRunning st r
    → st.cur_threads ≢ 1
    → (i : ℕ) × (k : ℕ) × (st' : State) × (landed (uthread_exit round_robin max_uthreads st)
        ≡ some st')
      × Nearest (is_used (removed (st.threads r) st)) ((r + 1) % max_uthreads) i k
      × (i ≢ r)
      × IsRunning st' i
      × IsTable st'
      × (st'.threads r ≡ 0)
      × ((esp ebp : ℕ) → IsParked st (st.threads i) esp ebp → (st'.esp ≡ esp) × (st'.ebp ≡ ebp))
      × ((p : ℕ) → p ≢ st.threads i → st'.block p ≡ st.block p)
      × ((j : ℕ) → j ≢ r → st'.threads j ≡ st.threads j)
uthread_exit_lem st r t run more =
    let u = removed (st.threads r) st in
    let t' = removed-IsTable st t r run.0 in
    let one_left = left_one st t r run.0 more in
    let (j, b, used) = used_slot max_uthreads u.threads (λ z. one_left (t'.counted ∙ z)) in
    let (i, k, e, used', n, le) =
      next_thread_lem u ((r + 1) % max_uthreads) j (omega arith) (b, used) in
    let (st', l, run', t'', same, rest, back) = switch_to_lem u i t' used' in
    let (ne, was, at_i) = still st t r run.0 i used' in
    let gone = removed_frees st t r run.0 in
    let parked = removed-IsParked st t r run.0 i at_i in
    (
      i,
      k,
      st',
      ap landed (exit_run st r t run one_left) ∙ go_on_lem u _ i st' e l,
      n,
      λ z. ne (sym z),
      run',
      t'',
      ap (λ f. f r) same ∙ gone.2,
      λ esp ebp h. back esp ebp (parked esp ebp h),
      λ p h. rest p (λ z. h (z ∙ at_i)) ∙ removed_blocks st t r run.0 p,
      λ j apart. ap (λ f. f j) same ∙ other_slots st t r run.0 j apart,
    )

-- In a well-formed table with one thread, an exit of the running thread ends the process.
pub uthread_exit_last :
    (st : State) (r : ℕ)
    → IsTable st
    → IsRunning st r
    → st.cur_threads ≡ 1
    → uthread_exit round_robin max_uthreads st ≡ exits
unfolding uthread_exit removed
uthread_exit_last st r t run last = rw (with_self_lem st r _ t run, last)
