-- ===== src/Log/Transaction.antt =====
-- A whole transaction: `begin_trans`, the writes, `commit_trans`, a power failure, and recovery.
use mathlib.Core.Path.{subst}
use os.Prelude.{
  ℕ, ◌+◌, ◌≤◌, ◌<◌, ◌≡◌, refl, sym, ◌∙◌, ◌⊎◌, inl, inr, true, List, [], ◌∷◌, length, some, Outcome,
  ok, panic, ◌>>=◌, arith,
}
use os.Log.{
  Machine, update, begin_trans, log_write, log_writes, commit_trans, recover_from_log, reboot,
  logsize,
}
use os.Log.Redo.{view, IsLog}
use os.Log.Commit.{InTrans, Committed, commit_trans-Committed}
use os.Log.Recover.{recover_lem}
use os.Log.Write.{log_write-Wrote, fits-log_write}

module _ {B : Type 0} where
  -- No transaction is active, and the power is on: the disk and the cache agree on home blocks.
  pub record IsIdle (m : Machine B) : Type 0 where
    pub empty_head : m.head ≡ []
    pub empty_log : m.lh ≡ []
    pub clean : (t : ℕ) → t < m.start → m.cache t ≡ m.disk t

  begin-InTrans :
      (m n : Machine B) → IsIdle m → begin_trans m ≡ some n → n ≡ record m { busy = true }
  unfolding begin_trans
  begin-InTrans m n i e = ground arith

  idle-InTrans : (m : Machine B) → IsIdle m → InTrans (record m { busy = true })
  idle-InTrans m i = record {
    empty_head = i.empty_head;
    log = rw i.empty_log tt;
    cached = rw i.empty_log tt;
    logged = λ live. rw i.empty_log tt;
    clean = λ t low out. i.clean t low;
  }

  -- The writes go to sectors below the log.
  abbrev pub AllHome : ℕ → List (ℕ × B) → Type 0
  AllHome start [] = Unit {0}
  AllHome start ((s, v) ∷ ws) = (s < start) × AllHome start ws

  -- The blocks after the writes, in order.
  abbrev pub overwrite : List (ℕ × B) → (ℕ → B) → ℕ → B
  overwrite [] f = f
  overwrite ((s, v) ∷ ws) f = overwrite ws (update f s v)

  overwrite_cong :
      (ws : List (ℕ × B)) (f g : ℕ → B) (t : ℕ) → f t ≡ g t → overwrite ws f t ≡ overwrite ws g t
  overwrite_cong [] f g t e = e
  overwrite_cong ((s, v) ∷ ws) f g t e =
      overwrite_cong ws (update f s v) (update g s v) t (ground arith)

  pub record WroteAll (ws : List (ℕ × B)) (m n : Machine B) : Type 0 where
    pub inside : InTrans n
    pub start : n.start ≡ m.start
    pub disk : (t : ℕ) → t < m.start → n.disk t ≡ m.disk t
    pub cache : (t : ℕ) → t < m.start → n.cache t ≡ overwrite ws m.cache t

  >>=-eq-ok :
      (r : Outcome (Machine B)) (f : Machine B → Outcome (Machine B)) {n : Machine B}
      → (r >>= f) ≡ ok n
      → (a : Machine B) × (r ≡ ok a) × (f a ≡ ok n)
  >>=-eq-ok (ok a) f h = (a, refl, h)
  >>=-eq-ok (panic s) f h = cc
  >>=-eq-ok Outcome.fault f h = cc

  log_writes-WroteAll :
      (ws : List (ℕ × B)) (m n : Machine B)
      → AllHome m.start ws
      → InTrans m
      → log_writes ws m ≡ ok n
      → WroteAll ws m n
  unfolding log_writes
  log_writes-WroteAll [] m n homes i e =
      let same : m ≡ n = ground arith in
      subst (WroteAll [] m) same
        (record { inside = i; start = refl; disk = λ t b. refl; cache = λ t b. refl })
  log_writes-WroteAll ((s, v) ∷ ws) m n homes i e =
      let (a, first, rest) = >>=-eq-ok (log_write s v m) (log_writes ws) e in
      let w = log_write-Wrote s v m a homes.0 i first in
      let ih = log_writes-WroteAll ws a n (rw w.start homes.1) w.inside rest in
      record {
        inside = ih.inside;
        start = ih.start ∙ w.start;
        disk = λ t b. ih.disk t (rw w.start b) ∙ w.disk t b;
        cache = λ t b.
            ih.cache t (rw w.start b)
            ∙ overwrite_cong ws a.cache (update m.cache s v) t (w.cache t b);
      }

  -- The state when the writes of a transaction are made, and what the commit makes of it.
  module _ (m b n : Machine B) (ws : List (ℕ × B)) (i : IsIdle m) (homes : AllHome m.start ws)
      (e : begin_trans m ≡ some b) (f : log_writes ws b ≡ ok n) where
    written : WroteAll ws (record m { busy = true }) n
    written =
        log_writes-WroteAll ws (record m { busy = true }) n homes (idle-InTrans m i)
          (subst (λ x. log_writes ws x ≡ ok n) (begin-InTrans m b i e) f)

    committed : Committed n (commit_trans n)
    committed = commit_trans-Committed n written.inside

    recovered :
        (k t : ℕ) → (recover_from_log (reboot k (commit_trans n))).cache t ≡ view (commit_trans n) t
    recovered k t =
        (recover_lem k (commit_trans n) t
          (subst (λ x. IsLog x (commit_trans n).head) (sym committed.start) committed.log)).0

  -- From an idle log, a transaction begins, makes any writes that the log takes, all to blocks below
  -- the log, and commits; the power fails at any point of this, or afterwards, and recovery runs with
  -- any power. Then every block below the log reads as before the transaction, or every one reads as
  -- after all of its writes in order.
  pub transaction_atomic :
      (m b n : Machine B) (ws : List (ℕ × B)) (k : ℕ)
      → IsIdle m
      → AllHome m.start ws
      → begin_trans m ≡ some b
      → log_writes ws b ≡ ok n
      → let r = recover_from_log (reboot k (commit_trans n)) in
        ((t : ℕ) → t < m.start → r.cache t ≡ m.cache t)
        ⊎ ((t : ℕ) → t < m.start → r.cache t ≡ overwrite ws m.cache t)
  transaction_atomic m b n ws k i homes e f =
      let w = written m b n ws i homes e f in
      let c = committed m b n ws i homes e f in
      let r = recovered m b n ws i homes e f k in
      elim c.atomic [
        | inl old ↦ inl (λ t low. r t ∙ old t (rw w.start low) ∙ w.disk t low ∙ sym (i.clean t low))
        | inr new ↦ inr (λ t low. r t ∙ new t (rw w.start low) ∙ w.cache t low)
      ]

  -- From an idle log, a transaction that begins, makes writes to blocks below the log and commits
  -- with power left leaves the log idle, and every block below the log holds what the writes in
  -- order put there, on the disk as in the cache.
  pub transaction_commits :
      (m b n : Machine B) (ws : List (ℕ × B))
      → IsIdle m
      → AllHome m.start ws
      → begin_trans m ≡ some b
      → log_writes ws b ≡ ok n
      → 0 < (commit_trans n).fuse
      → IsIdle (commit_trans n)
        × ((t : ℕ) → t < m.start → (commit_trans n).disk t ≡ overwrite ws m.cache t)
  transaction_commits m b n ws i homes e f live =
      let w = written m b n ws i homes e f in
      let c = committed m b n ws i homes e f in
      let low' : (t : ℕ) → t < (commit_trans n).start → t < n.start =
        λ t low. subst (λ x. t < x) c.start low in
      (
        record {
          empty_head = c.cleared live;
          empty_log = c.lh;
          clean = λ t low. c.cache t (low' t low) ∙ sym (c.durable live t (low' t low));
        },
        λ t low. c.durable live t (rw w.start low) ∙ w.cache t low,
      )

  -- Inside a transaction, as many writes as fit the log, counted with the sectors already logged,
  -- all succeed: none of them panics.
  pub log_writes_total :
      (ws : List (ℕ × B)) (m : Machine B)
      → m.busy ≡ true
      → length m.lh + length ws ≤ logsize
      → length m.lh + length ws < m.size
      → (n : Machine B) × (log_writes ws m ≡ ok n)
  unfolding log_writes
  log_writes_total [] m active room space = (m, refl)
  log_writes_total ((s, v) ∷ ws) m active room space =
      let (a, first, active', room', space') = fits-log_write s v m (length ws) active room space in
      let (n, rest) = log_writes_total ws a active' room' space' in (n, rw first rest)
