-- ===== src/Log/Commit.antt =====
-- `commit_trans`, cut off by a power failure anywhere.
use os.Prelude.{
  ℕ, ◌-◌, ◌≤◌, ◌<◌, ◌≡◌, refl, sym, ◌∙◌, ◌⊎◌, inl, inr, true, false, List, [], ◌∷◌, ◌==◌, ltb,
  length, arith, Bool-cases,
}
use os.Log.{Machine, install_loop, install_trans, write_head, commit_trans}
use os.Log.Redo.{has, IsLog, redo, view, Held, redo-Held}
use os.Log.Install.{Installed, install_loop-Installed}
use os.Log.Recover.{view-cleared, cache-write_head}

nil_of_length : {A : Type 0} (xs : List A) → ltb 0 (length xs) ≡ false → xs ≡ []
nil_of_length [] h = refl
nil_of_length (x ∷ xs) h = absurd (ground arith)

module _ {B : Type 0} where
  -- The state inside a transaction, before it commits.
  pub record InTrans (m : Machine B) : Type 0 where
    pub empty_head : m.head ≡ []
    pub log : IsLog m.start m.lh
    pub cached : Held m.start 0 m.lh m.cache m.cache
    pub logged : 0 < m.fuse → Held m.start 0 m.lh m.disk m.cache
    pub clean : (t : ℕ) → t < m.start → has t m.lh ≡ false → m.cache t ≡ m.disk t

  -- What a commit leaves on the disk: if the power failed before the header was written, a disk that
  -- stands for the home blocks as they were, and otherwise for the blocks of the cache. The cache
  -- keeps its home blocks.
  pub record Committed (m n : Machine B) : Type 0 where
    pub atomic :
        ((t : ℕ) → t < m.start → view n t ≡ m.disk t)
        ⊎ ((t : ℕ) → t < m.start → view n t ≡ m.cache t)
    pub cache : (t : ℕ) → t < m.start → n.cache t ≡ m.cache t
    pub durable : 0 < n.fuse → (t : ℕ) → t < m.start → n.disk t ≡ m.cache t
    pub cleared : 0 < n.fuse → n.head ≡ []
    pub log : IsLog m.start n.head
    pub start : n.start ≡ m.start
    pub lh : n.lh ≡ []

  -- Clearing the header of `x`.
  cleared :
      (x : Machine B)
      → let n = write_head (record x { lh = [] }) in
        (n.start ≡ x.start)
        × (n.disk ≡ x.disk)
        × (n.lh ≡ [])
        × (n.fuse ≤ x.fuse)
        × ((n.head ≡ []) ⊎ (n.head ≡ x.head))
        × (0 < n.fuse → n.head ≡ [])
  unfolding write_head
  cleared x = elim (Bool-cases (x.fuse == 0)) [
    | inl dead ↦ rw dead (refl, refl, refl, omega arith, inr refl, λ h. absurd (ground arith))
    | inr live ↦ rw live (refl, refl, refl, omega arith, inl refl, λ h. refl)
  ]

  module _ (m : Machine B) (i : InTrans m) where
    redo_cached : (t : ℕ) → redo m.start 0 m.lh m.cache t ≡ m.cache t
    redo_cached t = redo-Held m.start 0 m.lh m.cache m.cache t i.cached ∙ ground arith

    redo_logged : (t : ℕ) → 0 < m.fuse → t < m.start → redo m.start 0 m.lh m.disk t ≡ m.cache t
    redo_logged t live low =
        redo-Held m.start 0 m.lh m.disk m.cache t (i.logged live) ∙ ground (arith, i.clean t low)

    commit-empty : m.lh ≡ [] → Committed m (record m { busy = false })
    commit-empty e =
        let same = λ (t : ℕ) (low : t < m.start). i.clean t low (rw e) in
        record {
          atomic = inl (λ t low. rw i.empty_head);
          cache = λ t low. refl;
          durable = λ live t low. sym (same t low);
          cleared = λ live. i.empty_head;
          log = rw i.empty_head tt;
          start = refl;
          lh = e;
        }

    -- The header write of the commit is lost.
    commit-dead :
        (m.fuse == 0) ≡ true
        → Committed m (record (write_head (record (install_trans m) { lh = [] })) { busy = false })
    unfolding install_trans write_head
    commit-dead dead =
        let done : Installed 0 m.lh m (install_loop 0 m.lh m) =
          install_loop-Installed 0 m.lh m i.log in
        let none_left : (install_loop 0 m.lh m).head ≡ [] = done.head ∙ i.empty_head in
        let still : ((install_loop 0 m.lh m).fuse == 0) ≡ true = ground (arith, done.fuse) in
        rw still (record {
          atomic = inl (λ t low. rw none_left (done.no_power (ground arith) t));
          cache = λ t low. done.cache t ∙ redo_cached t;
          durable = λ live t low. absurd (ground (arith, done.fuse));
          cleared = λ live. none_left;
          log = rw none_left tt;
          start = done.start;
          lh = refl;
        })

    -- The header write reaches the disk: from here on the transaction has happened.
    commit-live :
        0 < m.fuse
        → let h : Machine B = record m { head = m.lh; fuse = m.fuse - 1 } in
          Committed m (record (write_head (record (install_trans h) { lh = [] })) { busy = false })
    unfolding install_trans
    commit-live live =
        let h : Machine B = record m { head = m.lh; fuse = m.fuse - 1 } in
        let x : Machine B = install_loop 0 m.lh h in
        let done : Installed 0 m.lh h x = install_loop-Installed 0 m.lh h i.log in
        let log_of : (hd : List ℕ) → hd ≡ [] ⊎ hd ≡ x.head → IsLog m.start hd =
          λ hd c. elim c [ inl e ↦ rw e tt | inr e ↦ rw (e, done.head) i.log ] in
        record {
          atomic = inr (λ t low.
              view-cleared m.lh t i.log done done.head
                (redo_logged t live low ∙ sym (redo_cached t))
              ∙ redo_logged t live low);
          cache = λ t low. cache-write_head (record x { lh = [] }) t ∙ done.cache t ∙ redo_cached t;
          durable = λ left t low. rw (cleared x).1 (elim (Bool-cases (has t m.lh)) [
            | inl e ↦ done.power (omega (arith, (cleared x).3)) t e ∙ done.cache t ∙ redo_cached t
            | inr e ↦ done.others t e ∙ sym (i.clean t low e)
          ]);
          cleared = (cleared x).5;
          log = log_of _ (cleared x).4;
          start = (cleared x).0 ∙ done.start;
          lh = (cleared x).2;
        }

  pub commit_trans-Committed : (m : Machine B) → InTrans m → Committed m (commit_trans m)
  unfolding commit_trans
  commit_trans-Committed m i = elim (Bool-cases (ltb 0 (length m.lh))) [
    | inr e ↦ rw e (commit-empty m i (nil_of_length m.lh e))
    | inl e ↦ rw e (elim (Bool-cases (m.fuse == 0)) [
      | inl dead ↦ rw dead (commit-dead m i dead)
      | inr live ↦ rw live (commit-live m i (ground arith))
    ])
  ]
