-- ===== src/Path/Holders.antt =====
-- fs.c: the holds on inodes along the walk of a path.
use os.Prelude.{
  ℕ, zero, suc, ◌-◌, ◌<◌, ◌≡◌, ◌∙◌, sym, Bool, not, ◌&&◌, Option, none, some, [], ◌==◌, length,
  Outcome, ok, panic, fault, arith, if_split,
}
use os.Inode.{
  Inode, DiskInode, Icache, iget, idup, ilock, iunlock, iput, iunlockput, Locking, sleeps, locked,
  Putting, put, freeing,
}
use os.Inode.Counts.{
  held_with, IsSound, IsGot, iget-IsGot, Leaves, LeavesPut, LeavesLocked, iput-LeavesPut,
  iput_freed-IsSound, iunlock-Leaves, ilock-Leaves, idup-IsSound,
}
use os.Directory.{Name, dirlookup, t_dir}
use os.Directory.Holders.{one_more, LeavesFound, dirlookup-LeavesFound}
use os.Path.{
  skipelem, Walk, returns, waits, panics, faults, no_fuel, ◌then_walk◌, is_end, is_absolute,
  dropped, give_up, walk_next, walk_locked, walk_end, walk, namex, rootdev, rootino,
}
use os.Path.Elements.{IsSkipped, skipelem-IsSkipped}

-- The walk holds the inode that it returns, and no other.
unfoldable pub LeavesWalk : (ℕ → ℕ) → Walk → Type 0
LeavesWalk held (returns none name t) = IsSound t held
LeavesWalk held (returns (some i) name t) = IsSound t (one_more i held)
LeavesWalk held waits = Unit {0}
LeavesWalk held (panics m) = Unit {0}
LeavesWalk held faults = ⊥
LeavesWalk held no_fuel = ⊥

same_held : (t : Icache) (h h' : ℕ → ℕ) → ((j : ℕ) → h' j ≡ h j) → IsSound t h → IsSound t h'
same_held t h h' e s = record {
  counted = λ j. s.counted j ∙ sym (e j);
  in_range = λ j l. s.in_range j (rw (← e j) l);
  unique = λ j k a b. s.unique j k (rw (← e j) a) (rw (← e k) b);
}

then_walk-LeavesWalk {ℓ} :
    {A : Type ℓ} (P : Outcome A → Type 0) (held : ℕ → ℕ) (f : A → Walk) (o : Outcome A)
    → (P fault → ⊥)
    → ((a : A) → P (ok a) → LeavesWalk held (f a))
    → P o
    → LeavesWalk held (o then_walk f)
unfolding LeavesWalk
then_walk-LeavesWalk P held f (ok a) never h p = h a p
then_walk-LeavesWalk P held f (panic m) never h p = tt
then_walk-LeavesWalk P held f fault never h p = absurd (never p)

unlocked-LeavesPut :
    (held : ℕ → ℕ) (i : ℕ) (o : Outcome Icache)
    → 0 < held i
    → Leaves held o
    → LeavesPut i held (elim o [ ok t ↦ iput i t | panic m ↦ panic m | fault ↦ fault ])
unfolding Leaves LeavesPut
unlocked-LeavesPut held i (ok t) l s = iput-LeavesPut t held i s l
unlocked-LeavesPut held i (panic m) l s = tt
unlocked-LeavesPut held i fault l s = absurd s

iunlockput-LeavesPut :
    (held : ℕ → ℕ) (i : ℕ) (t : Icache)
    → 0 < held i
    → IsSound t held
    → LeavesPut i held (iunlockput i t)
unfolding iunlockput
iunlockput-LeavesPut held i t l s =
    unlocked-LeavesPut held i (iunlock i t) l (iunlock-Leaves t held i s)

module _ (disk : ℕ → ℕ → DiskInode) (bytes : Inode → ℕ → ℕ) (freed : Inode → DiskInode) where
  dropped-IsSound :
      (held : ℕ → ℕ) (i : ℕ) (p : Putting)
      → 0 < held i
      → LeavesPut i held (ok p)
      → IsSound (dropped disk bytes freed i p) (held_with i (held i - 1) held)
  unfolding LeavesPut
  dropped-IsSound held i (put t) l s = s
  dropped-IsSound held i (freeing t) l s = iput_freed-IsSound (freed (t i)) t held i s l

  -- The hold on `i` is given up.
  give_up-LeavesWalk :
      (held : ℕ → ℕ) (i : ℕ) (name : Name) (t : Icache)
      → IsSound t (one_more i held)
      → LeavesWalk held (give_up disk bytes freed i name t)
  unfolding LeavesWalk LeavesPut
  give_up-LeavesWalk held i name t s =
      let l : 0 < one_more i held i = ground arith in
      then_walk-LeavesWalk (LeavesPut i (one_more i held)) held _ (iunlockput i t) (λ b. b)
        (λ p h. same_held _ _ held (λ j. ground arith) (dropped-IsSound (one_more i held) i p l h))
        (iunlockput-LeavesPut (one_more i held) i t l s)

  -- The walk goes on with the next inode, which is held by now.
  walk_next-LeavesWalk :
      (held : ℕ → ℕ) (i : ℕ) (name : Name) (go : ℕ → Icache → Walk)
      (found : Option (ℕ × ℕ) × Icache)
      → ((j : ℕ) (t : Icache) → IsSound t (one_more j held) → LeavesWalk held (go j t))
      → LeavesFound (one_more i held) (ok found)
      → LeavesWalk held (walk_next disk bytes freed i name go found)
  unfolding LeavesFound LeavesPut
  walk_next-LeavesWalk held i name go (none, t) h s = give_up-LeavesWalk held i name t s
  walk_next-LeavesWalk held i name go (some (j, off), t) h s =
      let both = one_more j (one_more i held) in
      let l : 0 < both i = ground arith in
      then_walk-LeavesWalk (LeavesPut i both) held _ (iunlockput i t) (λ b. b)
        (λ p left.
          h j _
            (same_held _ _ (one_more j held) (λ k. ground arith) (dropped-IsSound both i p l left)))
        (iunlockput-LeavesPut both i t l s)

  walk_locked-LeavesWalk :
      (held : ℕ → ℕ) (parent : Bool) (i : ℕ) (name rest : Name) (go : ℕ → Icache → Walk)
      (l : Locking)
      → ((j : ℕ) (t : Icache) → IsSound t (one_more j held) → LeavesWalk held (go j t))
      → LeavesLocked (one_more i held) (ok l)
      → LeavesWalk held (walk_locked disk bytes freed parent i name rest go l)
  unfolding LeavesLocked LeavesWalk Leaves LeavesFound
  walk_locked-LeavesWalk held parent i name rest go sleeps h s = tt
  walk_locked-LeavesWalk held parent i name rest go (locked t) h s =
      if_split (LeavesWalk held) (not ((t i).copy.type == t_dir))
        (λ other. give_up-LeavesWalk held i name t s)
        (λ is_dir.
          if_split (LeavesWalk held) (parent && is_end rest)
            (λ last.
              then_walk-LeavesWalk (Leaves (one_more i held)) held _ (iunlock i t) (λ b. b)
                (λ t' left. left) (iunlock-Leaves t (one_more i held) i s))
            (λ more.
              then_walk-LeavesWalk (LeavesFound (one_more i held)) held _
                (dirlookup (t i) (bytes (t i)) name t) (λ b. b)
                (λ found left. walk_next-LeavesWalk held i name go found h left)
                (dirlookup-LeavesFound (one_more i held) (t i) (bytes (t i)) name t s)))

  walk_end-LeavesWalk :
      (held : ℕ → ℕ) (parent : Bool) (i : ℕ) (name : Name) (t : Icache)
      → IsSound t (one_more i held)
      → LeavesWalk held (walk_end disk bytes freed parent i name t)
  unfolding LeavesWalk LeavesPut
  walk_end-LeavesWalk held parent i name t s =
      let l : 0 < one_more i held i = ground arith in
      if_split (LeavesWalk held) parent
        (λ wants_parent.
          then_walk-LeavesWalk (LeavesPut i (one_more i held)) held _ (iput i t) (λ b. b)
            (λ p left.
              same_held _ _ held (λ j. ground arith) (dropped-IsSound (one_more i held) i p l left))
            (iput-LeavesPut t (one_more i held) i s l))
        (λ wants_it. s)

  -- A round of the walk, by what `skipelem` returns.
  walk_round : ℕ → Bool → Name → Name → ℕ → Icache → Option (Name × Name) → Walk
  walk_round fuel parent path name i t o = elim o [
    | none ↦ walk_end disk bytes freed parent i name t
    | some (elem, rest) ↦
        ilock disk i t
        then_walk walk_locked disk bytes freed parent i elem rest
            (λ j t'. walk disk bytes freed fuel parent rest elem j t')
  ]

  walk_round-LeavesWalk :
      (held : ℕ → ℕ) (fuel : ℕ) (parent : Bool) (path name : Name) (i : ℕ) (t : Icache)
      (o : Option (Name × Name))
      → ((rest elem : Name) (j : ℕ) (t' : Icache)
          → length rest < fuel
          → IsSound t' (one_more j held)
          → LeavesWalk held (walk disk bytes freed fuel parent rest elem j t'))
      → length path < suc fuel
      → IsSkipped path o
      → IsSound t (one_more i held)
      → LeavesWalk held (walk_round fuel parent path name i t o)
  unfolding walk_round LeavesLocked IsSkipped
  walk_round-LeavesWalk held fuel parent path name i t none ih b k s =
      walk_end-LeavesWalk held parent i name t s
  walk_round-LeavesWalk held fuel parent path name i t (some (elem, rest)) ih b
        (first, shorter, no_slash) s =
      then_walk-LeavesWalk (LeavesLocked (one_more i held)) held _ (ilock disk i t) (λ never. never)
        (λ l left.
          walk_locked-LeavesWalk held parent i elem rest _ l
            (λ j t' s'. ih rest elem j t' (omega arith) s') left)
        (ilock-Leaves disk t (one_more i held) i s)

  walk-LeavesWalk :
      (held : ℕ → ℕ) (fuel : ℕ) (parent : Bool) (path name : Name) (i : ℕ) (t : Icache)
      → length path < fuel
      → IsSound t (one_more i held)
      → LeavesWalk held (walk disk bytes freed fuel parent path name i t)
  unfolding walk walk_round
  walk-LeavesWalk held zero parent path name i t b s = absurd (omega arith)
  walk-LeavesWalk held (suc fuel) parent path name i t b s =
      walk_round-LeavesWalk held fuel parent path name i t (skipelem path)
        (λ rest elem j t'. walk-LeavesWalk held fuel parent rest elem j t') b
        (skipelem-IsSkipped path) s

  -- From a sound cache in which the current directory is held: if `namex` returns, it returns an
  -- inode with one hold on it more, or none and no hold more, and every other hold is given up on the
  -- way. It may panic, or come to sleep on a locked inode, of which nothing more is said; it never
  -- faults, and fuel for a round a character and one more is enough for every path.
  pub namex-LeavesWalk :
      (held : ℕ → ℕ) (fuel : ℕ) (path : Name) (parent : Bool) (cwd : ℕ) (t : Icache)
      → length path < fuel
      → IsSound t held
      → 0 < held cwd
      → LeavesWalk held (namex disk bytes freed fuel path parent cwd t)
  unfolding namex IsGot
  namex-LeavesWalk held fuel path parent cwd t b s used =
      if_split (LeavesWalk held) (is_absolute path)
        (λ from_root.
          then_walk-LeavesWalk (IsGot rootdev rootino held) held _ (iget rootdev rootino t)
            (λ never. never)
            (λ (i, t') (s', same_dev, same_inum).
              walk-LeavesWalk held fuel parent path [] i t' b s')
            (iget-IsGot rootdev rootino t held s))
        (λ from_cwd.
          walk-LeavesWalk held fuel parent path [] cwd (idup cwd t) b
            (idup-IsSound t held cwd s used))
