-- ===== src/Uthread/Create.antt =====
-- `uthread_create`: a new thread, and what is left behind when memory runs out half way.
use os.Prelude.{
  ℕ, ◌+◌, ◌<◌, ◌≡◌, refl, sym, ◌∙◌, ◌≢◌, inl, inr, true, false, some, ◌==◌, ℤ, pos, minus_one, ok,
  arith, Bool-cases, Option-cases, find_index, find_index-Found, find_index-none,
}
use os.Uthread.{State, max_uthreads, update, init_table, new_thread, create_in, uthread_create}
use os.Uthread.Count.{count_fill, count_none, count_full}
use os.Uthread.Invariant.{IsUsed, IsTable}

init_table_lem : (st : State) → st.first_uthread ≡ false → init_table st ≡ st
unfolding init_table
init_table_lem st h = rw h

-- A table that is not full has a free slot, which the scan finds.
free_slot :
    (st : State)
    → IsTable st
    → st.cur_threads ≢ max_uthreads
    → (i : ℕ) × (find_index (λ j. st.threads j == 0) max_uthreads 0 ≡ some i)
      × (i < max_uthreads)
      × (st.threads i ≡ 0)
free_slot st t room = elim (Option-cases (find_index (λ j. st.threads j == 0) max_uthreads 0)) [
  | inl e ↦
      let full = count_full max_uthreads st.threads (λ i l.
        find_index-none (λ j. st.threads j == 0) max_uthreads 0 e i (omega arith) (omega arith)) in
      absurd (room (t.counted ∙ full))
  | inr (i, e) ↦
      let f = find_index-Found (λ j. st.threads j == 0) max_uthreads 0 i e in
      (i, e, omega (arith, f.in_range), ground (arith, f.passes))
]

-- `malloc` has returned a block that nobody holds.
abbrev pub IsFresh : State → ℕ → Type 0
IsFresh st p = (p ≢ 0) × (st.live p ≡ false)

module _ (st : State) (t : IsTable st) (i p sp f : ℕ) (pr : ℤ) (b : i < max_uthreads)
    (free : st.threads i ≡ 0) (p_fresh : IsFresh st p) (sp_fresh : IsFresh st sp)
    (apart : p ≢ sp) where
  -- The blocks of the threads that were there are others than the new one's.
  old_block : (j : ℕ) → IsUsed st j → (i ≢ j) × (st.threads j ≢ p) × (st.threads j ≢ sp)
  old_block j u = ground (arith, t.block_live j u)

  old_stack :
      (j : ℕ)
      → IsUsed st j
      → ((st.block (st.threads j)).ss_sp ≢ p) × ((st.block (st.threads j)).ss_sp ≢ sp)
  old_stack j u = ground (arith, t.stack_live j u)

  abbrev made : State
  made = new_thread i p sp f pr st

  was-IsUsed : (j : ℕ) → IsUsed made j → (i == j) ≡ false → IsUsed st j
  unfolding new_thread
  was-IsUsed j u ne = ground arith

  -- The new thread and an old one, seen through the new table.
  at_new :
      (j : ℕ)
      → (i == j) ≡ true
      → (i ≡ j) × (made.threads j ≡ p) × ((made.block p).tid ≡ i) × ((made.block p).ss_sp ≡ sp)
  unfolding new_thread
  at_new j e = ground arith

  at_old :
      (j : ℕ)
      → (i == j) ≡ false
      → IsUsed made j
      → IsUsed st j
        × (made.threads j ≡ st.threads j)
        × (made.block (st.threads j) ≡ st.block (st.threads j))
  unfolding new_thread
  at_old j e u =
      let was = was-IsUsed j u e in
      let o = old_block j was in
      let ne : (p == st.threads j) ≡ false = ground arith in (was, rw e, rw ne)

  now_live :
      (made.live p ≡ true)
      × (made.live sp ≡ true)
      × ((a : ℕ) → st.live a ≡ true → made.live a ≡ true)
  unfolding new_thread
  now_live = (ground arith, ground arith, λ a h. ground arith)

  pub new_thread-IsTable : IsTable made
  unfolding new_thread
  new_thread-IsTable = record {
    set_up = t.set_up;
    counted = omega (arith, t.counted, count_fill max_uthreads i p st.threads b free p_fresh.0);
    tid = λ j u. elim (Bool-cases (i == j)) [
      | inl e ↦ ground (arith, at_new j e)
      | inr e ↦ ground (arith, at_old j e u, t.tid j)
    ];
    block_live = λ j u. elim (Bool-cases (i == j)) [
      | inl e ↦ ground (arith, at_new j e, now_live)
      | inr e ↦ ground (arith, at_old j e u, now_live, t.block_live j)
    ];
    stack_live = λ j u. elim (Bool-cases (i == j)) [
      | inl e ↦ ground (arith, at_new j e, now_live)
      | inr e ↦ ground (arith, at_old j e u, now_live, t.stack_live j)
    ];
    stack_apart = λ j k u w. elim (Bool-cases (i == j)) [
      | inl e ↦ elim (Bool-cases (i == k)) [
        | inl e' ↦ ground (arith, at_new j e, at_new k e')
        | inr e' ↦ ground (arith, at_new j e, at_old k e' w, old_block k)
      ]
      | inr e ↦ elim (Bool-cases (i == k)) [
        | inl e' ↦ ground (arith, at_old j e u, at_new k e', old_stack j)
        | inr e' ↦ ground (arith, at_old j e u, at_old k e' w, t.stack_apart j k)
      ]
    ];
    stacks_apart = λ j k u w same. elim (Bool-cases (i == j)) [
      | inl e ↦ elim (Bool-cases (i == k)) [
        | inl e' ↦ ground (arith, at_new j e, at_new k e')
        | inr e' ↦ ground (arith, at_new j e, at_old k e' w, old_stack k)
      ]
      | inr e ↦ elim (Bool-cases (i == k)) [
        | inl e' ↦ ground (arith, at_old j e u, at_new k e', old_stack j)
        | inr e' ↦ ground (arith, at_old j e u, at_old k e' w, t.stacks_apart j k)
      ]
    ];
  }

  others_kept :
      (j : ℕ)
      → IsUsed st j
      → (made.threads j ≡ st.threads j) × (made.block (st.threads j) ≡ st.block (st.threads j))
  unfolding new_thread
  others_kept j u =
      let o = old_block j u in
      let slot : (i == j) ≡ false = ground (arith, o.0) in
      let block : (p == st.threads j) ≡ false = ground (arith, o.1) in (rw slot, rw block)

-- A first call sets up an empty table.
pub init_table-IsTable : (st : State) → st.first_uthread ≡ true → IsTable (init_table st)
unfolding init_table
init_table-IsTable st h = rw h (record {
  set_up = refl;
  counted = sym (count_none max_uthreads);
  tid = λ i u. absurd (u.1 refl);
  block_live = λ i u. absurd (u.1 refl);
  stack_live = λ i u. absurd (u.1 refl);
  stack_apart = λ i j u w. absurd (u.1 refl);
  stacks_apart = λ i j u w e. absurd (u.1 refl);
})

-- The steps of a call on a table with room.
with_room :
    (p sp f : ℕ) (pr : ℤ) (st : State)
    → IsTable st
    → st.cur_threads ≢ max_uthreads
    → (i : ℕ) × (i < max_uthreads)
      × (st.threads i ≡ 0)
      × (uthread_create p sp f pr st ≡ create_in p sp f pr (some i) st)
unfolding uthread_create
with_room p sp f pr st t room =
    let (i, e, b, free) = free_slot st t room in
    let some_left : (st.cur_threads == max_uthreads) ≡ false = ground arith in
    (i, b, free, rw (init_table_lem st t.set_up, some_left, e))

-- On a well-formed table with room, where `malloc` gives two different new blocks, a thread is
-- created in a slot that was free: the result is that slot, which holds the first block with the
-- entry function; one thread more is counted, the running thread and the other threads' slots and
-- blocks are as they were, and the table stays well formed.
pub uthread_create-IsTable :
    (p sp f : ℕ) (pr : ℤ) (st : State)
    → IsTable st
    → st.cur_threads ≢ max_uthreads
    → IsFresh st p
    → IsFresh st sp
    → p ≢ sp
    → (i : ℕ) × (st' : State) × (uthread_create p sp f pr st ≡ ok (pos i, st'))
      × (st.threads i ≡ 0)
      × (st'.threads i ≡ p)
      × ((st'.block p).entryfunc ≡ f)
      × IsUsed st' i
      × (st'.cur_threads ≡ st.cur_threads + 1)
      × IsTable st'
      × (st'.running_tid ≡ st.running_tid)
      × ((j : ℕ)
          → IsUsed st j
          → (st'.threads j ≡ st.threads j) × (st'.block (st.threads j) ≡ st.block (st.threads j)))
unfolding create_in new_thread
uthread_create-IsTable p sp f pr st t room p_fresh sp_fresh apart =
    let (i, b, free, e) = with_room p sp f pr st t room in
    let p0 : (p == 0) ≡ false = ground (arith, p_fresh.0) in
    let sp0 : (sp == 0) ≡ false = ground (arith, sp_fresh.0) in
    let holds : (new_thread i p sp f pr st).threads i ≡ p = ground arith in
    (
      i,
      new_thread i p sp f pr st,
      e ∙ rw (p0, sp0),
      free,
      holds,
      ground arith,
      (b, ground (arith, p_fresh.0)),
      refl,
      new_thread-IsTable st t i p sp f pr b free p_fresh sp_fresh apart,
      refl,
      others_kept st t i p sp f pr b free p_fresh sp_fresh apart,
    )

-- A full table is left as it is, and the result is -1.
pub uthread_create_full :
    (p sp f : ℕ) (pr : ℤ) (st : State)
    → IsTable st
    → st.cur_threads ≡ max_uthreads
    → uthread_create p sp f pr st ≡ ok (minus_one, st)
unfolding uthread_create
uthread_create_full p sp f pr st t full =
    let none_left : (st.cur_threads == max_uthreads) ≡ true = ground arith in
    rw (init_table_lem st t.set_up, none_left)

-- On a well-formed table with room, where the second `malloc` fails, the result is -1, but a slot
-- holds the block that was freed, and it is not counted: the table is no longer well formed.
pub uthread_create_leaves_freed_block :
    (p f : ℕ) (pr : ℤ) (st : State)
    → IsTable st
    → st.cur_threads ≢ max_uthreads
    → IsFresh st p
    → (i : ℕ) × (st' : State) × (uthread_create p 0 f pr st ≡ ok (minus_one, st'))
      × IsUsed st' i
      × (st'.threads i ≡ p)
      × (st'.live p ≡ false)
      × (st'.cur_threads ≡ st.cur_threads)
      × (¬ IsTable st')
unfolding create_in
uthread_create_leaves_freed_block p f pr st t room p_fresh =
    let (i, b, free, e) = with_room p 0 f pr st t room in
    let p0 : (p == 0) ≡ false = ground (arith, p_fresh.0) in
    let holds : update st.threads i p i ≡ p = ground arith in
    (
      i,
      record st {
        threads = update st.threads i p;
        block = update st.block p (record (st.block p) { ss_sp = 0 });
      },
      e ∙ rw p0,
      (b, ground (arith, p_fresh.0)),
      holds,
      p_fresh.1,
      refl,
      λ bad. ground (arith, bad.block_live i (b, ground (arith, p_fresh.0))),
    )
