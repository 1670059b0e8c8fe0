-- ===== src/Log/Install.antt =====
-- `install_trans`: what its loop leaves in the cache and on the disk, whenever the power fails.
use os.Prelude.{
  ℕ, suc, ◌+◌, ◌≤◌, ◌<◌, ◌≡◌, refl, sym, ◌∙◌, inl, inr, Bool, true, false, ◌||◌, List, [], ◌∷◌,
  ◌==◌, if◌then◌else◌, arith, Bool-cases, ==_iff,
}
use os.Log.{Machine, update, bwrite, install_loop}
use os.Log.Redo.{has, IsLog, redo, redo_cong, redo_absent}

pub or-false : (a b : Bool) → (a || b) ≡ false → (a ≡ false) × (b ≡ false)
or-false a b h = ground arith

module _ {B : Type 0} where
  pub redo-update :
      (start i s : ℕ) (v : B) (ss : List ℕ) (f : ℕ → B) (t : ℕ)
      → s < start
      → has s ss ≡ false
      → redo start i ss (update f s v) t ≡ (if s == t then v else redo start i ss f t)
  redo-update start i s v ss f t low out = elim (Bool-cases (s == t)) [
    | inl h ↦
        let e : s ≡ t = (==_iff s t).0 h in
        rw h (redo_absent start i ss (update f s v) t (rw e at out) ∙ rw h)
    | inr h ↦ rw h (redo_cong start i ss (update f s v) f t (λ k above. ground arith) (λ _. rw h))
  ]

  -- From `m`, the loop over the sectors `ss` at log position `tail` has led to `n`.
  pub record Installed (tail : ℕ) (ss : List ℕ) (m n : Machine B) : Type 0 where
    pub head : n.head ≡ m.head
    pub start : n.start ≡ m.start
    pub size : n.size ≡ m.size
    pub lh : n.lh ≡ m.lh
    pub fuse : n.fuse ≤ m.fuse
    pub cache : (t : ℕ) → n.cache t ≡ redo m.start tail ss m.cache t
    pub others : (t : ℕ) → has t ss ≡ false → n.disk t ≡ m.disk t
    pub no_power : m.fuse ≡ 0 → (t : ℕ) → n.disk t ≡ m.disk t
    pub power : 0 < n.fuse → (t : ℕ) → has t ss ≡ true → n.disk t ≡ n.cache t

  -- One round of the loop.
  pub bwrite_fields :
      (s : ℕ) (v : B) (m : Machine B)
      → let n = bwrite s v m in
        (n.head ≡ m.head)
        × (n.start ≡ m.start)
        × (n.size ≡ m.size)
        × (n.lh ≡ m.lh)
        × (n.fuse ≤ m.fuse)
        × (n.cache ≡ update m.cache s v)
  unfolding bwrite
  bwrite_fields s v m = ground arith

  pub bwrite_disk :
      (s : ℕ) (v : B) (m : Machine B) (t : ℕ)
      → ((s == t) ≡ false → (bwrite s v m).disk t ≡ m.disk t)
        × (m.fuse ≡ 0 → (bwrite s v m).disk t ≡ m.disk t)
        × (0 < m.fuse → (s == t) ≡ true → (bwrite s v m).disk t ≡ v)
  unfolding bwrite
  bwrite_disk s v m t = (ground arith, ground arith, ground arith)

  pub bwrite_live :
      (s : ℕ) (v : B) (m : Machine B)
      → 0 < (bwrite s v m).fuse
      → (0 < m.fuse) × ((bwrite s v m).disk ≡ update m.disk s v)
  unfolding bwrite
  bwrite_live s v m h = elim (Bool-cases (m.fuse == 0)) [
    | inl dead ↦ absurd (ground arith)
    | inr live ↦ (ground arith, rw live)
  ]

  pub install_loop-Installed :
      (tail : ℕ) (ss : List ℕ) (m : Machine B)
      → IsLog m.start ss
      → Installed tail ss m (install_loop tail ss m)
  unfolding install_loop
  install_loop-Installed tail [] m l = record {
    head = refl;
    start = refl;
    size = refl;
    lh = refl;
    fuse = omega arith;
    cache = λ t. refl;
    others = λ t h. refl;
    no_power = λ h t. refl;
    power = λ h t e. cc;
  }
  install_loop-Installed tail (s ∷ ss) m l =
      let v : B = m.cache (m.start + tail + 1) in
      let n : Machine B = bwrite s v m in
      let (n_head, n_start, n_size, n_lh, n_fuse, n_cache) = bwrite_fields s v m in
      let ih : Installed (suc tail) ss n (install_loop (suc tail) ss n) =
        install_loop-Installed (suc tail) ss n (rw n_start l.2) in
      let written : (t : ℕ)
          → (install_loop (suc tail) ss n).cache t ≡ redo m.start tail (s ∷ ss) m.cache t =
        λ t.
          ih.cache t
          ∙ rw (n_start, n_cache) (redo-update m.start (suc tail) s v ss m.cache t l.0 l.1) in
      record {
        head = ih.head ∙ n_head;
        start = ih.start ∙ n_start;
        size = ih.size ∙ n_size;
        lh = ih.lh ∙ n_lh;
        fuse = omega arith;
        cache = written;
        others = λ t h.
            let (apart, out) = or-false (s == t) (has t ss) h in
            ih.others t out ∙ (bwrite_disk s v m t).0 apart;
        no_power = λ h t. ih.no_power (omega arith) t ∙ (bwrite_disk s v m t).1 h;
        power = λ h t e. elim (Bool-cases (has t ss)) [
          | inl later ↦ ih.power h t later
          | inr out ↦
              let same : (s == t) ≡ true = ground arith in
              ih.others t out
              ∙ (bwrite_disk s v m t).2 (omega (arith, ih.fuse)) same
              ∙ sym (written t ∙ rw same)
        ];
      }
