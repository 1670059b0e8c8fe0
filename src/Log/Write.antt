-- ===== src/Log/Write.antt =====
-- `log_write`: the log and the cache after one write of a transaction.
use mathlib.Core.Bool.{false≢true}
use mathlib.Core.Path.{subst}
use os.Prelude.{
  ℕ, suc, ◌+◌, ◌≤◌, ◌<◌, ◌≡◌, refl, sym, ◌∙◌, inl, inr, true, false, ◌||◌, List, [], ◌∷◌, ◌==◌,
  length, ok, arith, Bool-cases, ==_iff,
}
use os.Log.{Machine, update, position, record_sector, bwrite, log_write, logsize}
use os.Log.Install.{or-false, bwrite_fields, bwrite_disk, bwrite_live}
use os.Log.Redo.{has, IsLog, Held}
use os.Log.Commit.{InTrans}

has-record_sector : (t s : ℕ) (ss : List ℕ) → has t (record_sector s ss) ≡ ((s == t) || has t ss)
unfolding record_sector
has-record_sector t s [] = refl
has-record_sector t s (x ∷ xs) = ground (arith, has-record_sector t s xs)

length-record_sector : (s : ℕ) (ss : List ℕ) → length (record_sector s ss) ≤ length ss + 1
unfolding record_sector
length-record_sector s [] = omega arith
length-record_sector s (x ∷ xs) = ground (arith, length-record_sector s xs)

IsLog-record_sector :
    (start s : ℕ) (ss : List ℕ) → s < start → IsLog start ss → IsLog start (record_sector s ss)
unfolding record_sector
IsLog-record_sector start s [] low l = (low, refl, tt)
IsLog-record_sector start s (x ∷ xs) low l =
    ground (arith, IsLog-record_sector start s xs low l.2, has-record_sector x s xs)

IsLog-below : (start t : ℕ) (ss : List ℕ) → IsLog start ss → has t ss ≡ true → t < start
IsLog-below start t [] l h = absurd (ground arith)
IsLog-below start t (x ∷ xs) l h = ground (arith, IsLog-below start t xs l.2)

not_in-ne : (s t : ℕ) (ss : List ℕ) → has s ss ≡ false → has t ss ≡ true → (s == t) ≡ false
not_in-ne s t ss out inside = elim (Bool-cases (s == t)) [
  | inr e ↦ e
  | inl e ↦
      let same : s ≡ t = (==_iff s t).0 e in absurd (false≢true (sym (rw same at out) ∙ inside))
]

module _ {B : Type 0} where
  -- A part of the log keeps its blocks when the change is elsewhere.
  pub Held-frame :
      (start i : ℕ) (ss : List ℕ) (d e f g : ℕ → B)
      → Held start i ss d f
      → ((k : ℕ) → start + i < k → e k ≡ d k)
      → ((t : ℕ) → has t ss ≡ true → g t ≡ f t)
      → Held start i ss e g
  Held-frame start i [] d e f g h logs news = tt
  Held-frame start i (x ∷ xs) d e f g h logs news = (
    logs (start + i + 1) (omega arith) ∙ h.0 ∙ sym (news x (ground arith)),
    Held-frame start (suc i) xs d e f g h.1 (λ k above. logs k (omega arith))
        (λ t in_xs. news t (ground arith)),
  )

  -- Writing `v` at the position of `s` makes the log hold `v` for `s`, and the rest as before.
  Held-record_sector :
      (start i s pos : ℕ) (v : B) (ss : List ℕ) (d f g : ℕ → B)
      → IsLog start ss
      → pos ≡ start + i + position s ss + 1
      → Held start i ss d f
      → g s ≡ v
      → ((t : ℕ) → (s == t) ≡ false → t < start → g t ≡ f t)
      → Held start i (record_sector s ss) (update d pos v) g
  unfolding record_sector position
  Held-record_sector start i s pos v [] d f g l e h new old = (ground (arith, new), tt)
  Held-record_sector start i s pos v (x ∷ xs) d f g l e h new old = elim (Bool-cases (x == s)) [
    | inl same ↦ rw same (
      ground arith,
      Held-frame start (suc i) xs d (update d pos v) f g h.1 (λ k above. ground arith)
          (λ t in_xs.
            let x≡s : x ≡ s = (==_iff x s).0 same in
            old t (not_in-ne s t xs (rw x≡s at l.1) in_xs) (IsLog-below start t xs l.2 in_xs)),
    )
    | inr other ↦ rw other (
      ground (arith, old x),
      Held-record_sector start (suc i) s pos v xs d f g l.2 (ground arith) h.1 new old,
    )
  ]

  -- What a write of the sector `s` inside a transaction leaves.
  pub record Wrote (s : ℕ) (v : B) (m n : Machine B) : Type 0 where
    pub inside : InTrans n
    pub start : n.start ≡ m.start
    pub disk : (t : ℕ) → t < m.start → n.disk t ≡ m.disk t
    pub cache : (t : ℕ) → t < m.start → n.cache t ≡ update m.cache s v t

  -- The machine that `log_write` hands to `bwrite`.
  abbrev changed : ℕ → B → Machine B → Machine B
  changed s v m = record m { cache = update m.cache s v; lh = record_sector s m.lh }

  bwrite-Wrote :
      (s pos : ℕ) (v : B) (m : Machine B)
      → s < m.start
      → pos ≡ m.start + 0 + position s m.lh + 1
      → InTrans m
      → Wrote s v m (bwrite pos v (changed s v m))
  bwrite-Wrote s pos v m low at i =
      let n : Machine B = bwrite pos v (changed s v m) in
      let (n_head, n_start, n_size, n_lh, n_fuse, n_cache) = bwrite_fields pos v (changed s v m) in
      let g : ℕ → B = update (update m.cache s v) pos v in
      let shift = Held-record_sector m.start 0 s pos v m.lh in
      let new : g s ≡ v = ground arith in
      let old : (t : ℕ) → (s == t) ≡ false → t < m.start → g t ≡ m.cache t =
        λ t a b. ground arith in
      let still =
        Held-frame m.start 0 m.lh m.cache (update m.cache s v) m.cache m.cache i.cached
          (λ k above. ground arith) (λ t _. refl) in
      let kept : (t : ℕ) → t < m.start → n.disk t ≡ m.disk t =
        λ t b. (bwrite_disk pos v (changed s v m) t).0 (ground arith) in
      record {
        inside = record {
          empty_head = n_head ∙ i.empty_head;
          log = rw (n_start, n_lh) (IsLog-record_sector m.start s m.lh low i.log);
          cached =
              rw (n_start, n_lh, n_cache)
                (shift (update m.cache s v) m.cache g i.log at still new old);
          logged = λ live.
              let (power, disk) = bwrite_live pos v (changed s v m) live in
              rw (n_start, n_lh, n_cache, disk)
                (shift m.disk m.cache g i.log at (i.logged power) new old);
          clean = λ t b out.
              let b' : t < m.start = subst (λ x. t < x) n_start b in
              let out' : has t (record_sector s m.lh) ≡ false =
                subst (λ l. has t l ≡ false) n_lh out in
              let (apart, off) =
                or-false (s == t) (has t m.lh) (sym (has-record_sector t s m.lh) ∙ out') in
              let now : g t ≡ m.cache t = old t apart b' in
              rw n_cache (now ∙ i.clean t b' off ∙ sym (kept t b'));
        };
        start = n_start;
        disk = kept;
        cache = λ t b. rw n_cache (ground arith);
      }

  pub log_write-Wrote :
      (s : ℕ) (v : B) (m n : Machine B)
      → s < m.start
      → InTrans m
      → log_write s v m ≡ ok n
      → Wrote s v m n
  log_write-Wrote s v m n low i e =
      subst (Wrote s v m) (result e)
        (bwrite-Wrote s (m.start + position s m.lh + 1) v m low (omega arith) i)
    where
      result : log_write s v m ≡ ok n → bwrite (m.start + position s m.lh + 1) v (changed s v m) ≡ n
      result h = unfold log_write in ground arith

  pub fits-log_write :
      (s : ℕ) (v : B) (m : Machine B) (left : ℕ)
      → m.busy ≡ true
      → length m.lh + suc left ≤ logsize
      → length m.lh + suc left < m.size
      → (n : Machine B) × (log_write s v m ≡ ok n)
        × (n.busy ≡ true)
        × (length n.lh + left ≤ logsize)
        × (length n.lh + left < n.size)
  unfolding log_write
  fits-log_write s v m left active room space =
      let n : Machine B = bwrite (m.start + position s m.lh + 1) v (changed s v m) in
      let longer = length-record_sector s m.lh in
      (n, ground arith, ground arith, ground arith, ground arith)
