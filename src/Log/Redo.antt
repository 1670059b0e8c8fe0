-- ===== src/Log/Redo.antt =====
-- What the disk stands for: its blocks with the log of its header redone.
use os.Prelude.{
  ℕ, suc, ◌+◌, ◌<◌, ◌≡◌, refl, inl, inr, Bool, false, ◌||◌, List, [], ◌∷◌, ◌==◌, if◌then◌else◌,
  arith, Bool-cases,
}
use os.Log.{Machine}

abbrev pub has : ℕ → List ℕ → Bool
has s [] = false
has s (x ∷ xs) = (x == s) || has s xs

-- Each sector is logged once, and is a sector below the log.
abbrev pub IsLog : ℕ → List ℕ → Type 0
IsLog start [] = Unit {0}
IsLog start (s ∷ ss) = (s < start) × (has s ss ≡ false) × IsLog start ss

module _ {B : Type 0} where
  -- The block `t` after the log from position `i` on is copied home.
  abbrev pub redo : ℕ → ℕ → List ℕ → (ℕ → B) → ℕ → B
  redo start i [] d t = d t
  redo start i (s ∷ ss) d t = if s == t then d (start + i + 1) else redo start (suc i) ss d t

  abbrev pub view : Machine B → ℕ → B
  view m = redo m.start 0 m.head m.disk

  -- The log's blocks from position `i` on are those of `f` at the logged sectors.
  abbrev pub Held : ℕ → ℕ → List ℕ → (ℕ → B) → (ℕ → B) → Type 0
  Held start i [] d f = Unit {0}
  Held start i (s ∷ ss) d f = (d (start + i + 1) ≡ f s) × Held start (suc i) ss d f

  -- Equal blocks in the log and at `t` give the same redone block.
  pub redo_cong :
      (start i : ℕ) (ss : List ℕ) (d e : ℕ → B) (t : ℕ)
      → ((k : ℕ) → start < k → d k ≡ e k)
      → (has t ss ≡ false → d t ≡ e t)
      → redo start i ss d t ≡ redo start i ss e t
  redo_cong start i [] d e t logs home = home refl
  redo_cong start i (s ∷ ss) d e t logs home = elim (Bool-cases (s == t)) [
    | inl h ↦ rw h (logs (start + i + 1) (omega arith))
    | inr h ↦ rw h (redo_cong start (suc i) ss d e t logs (λ n. home (rw (h, n))))
  ]

  pub redo-Held :
      (start i : ℕ) (ss : List ℕ) (d f : ℕ → B) (t : ℕ)
      → Held start i ss d f
      → redo start i ss d t ≡ (if has t ss then f t else d t)
  redo-Held start i [] d f t h = refl
  redo-Held start i (s ∷ ss) d f t h = ground (arith, redo-Held start (suc i) ss d f t h.1)

  pub redo_absent :
      (start i : ℕ) (ss : List ℕ) (d : ℕ → B) (t : ℕ) → has t ss ≡ false → redo start i ss d t ≡ d t
  redo_absent start i [] d t h = refl
  redo_absent start i (s ∷ ss) d t h = ground (arith, redo_absent start (suc i) ss d t)
