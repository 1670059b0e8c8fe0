-- ===== src/Inode/Counts.antt =====
-- fs.c: the reference counts of the cached inodes and their holders.
use mathlib.Core.Path.{subst}
use os.Prelude.{
  ℕ, ◌+◌, ◌-◌, ◌<◌, ◌≡◌, refl, ◌∙◌, sym, inl, inr, true, not, ◌&&◌, ◌||◌, none, some, ◌==◌, ltb,
  if◌then◌else◌, Outcome, ok, panic, fault, arith, if_split,
}
use os.Inode.{
  DiskInode, Inode, Icache, ninode, set_inode, Seen, cached, absent, iget_loop, recycled, iget_end,
  iget, idup, Locking, sleeps, locked, ilock, iunlock, Putting, put, freeing, iput, iput_freed,
}
use os.Inode.Scan.{IsSeen, iget_loop-IsSeen}

abbrev pub held_with : ℕ → ℕ → (ℕ → ℕ) → ℕ → ℕ
held_with i n held j = if i == j then n else held j

abbrev SameInode : Inode → Inode → Type 0
SameInode a b = (a.dev ≡ b.dev) × (a.inum ≡ b.inum)

-- With `held i` holders of entry `i`.
pub record IsSound (t : Icache) (held : ℕ → ℕ) : Type 0 where
  pub counted : (i : ℕ) → (t i).ref ≡ held i
  pub in_range : (i : ℕ) → 0 < held i → i < ninode
  -- no inode has two entries
  pub unique :
      (i j : ℕ) → 0 < held i → 0 < held j → (t i).dev ≡ (t j).dev → (t i).inum ≡ (t j).inum → i ≡ j

-- An entry in use stays for its inode.
same-IsSound :
    (t : Icache) (held : ℕ → ℕ) (i n : ℕ) (ip : Inode)
    → IsSound t held
    → 0 < held i
    → ip.ref ≡ n
    → SameInode ip (t i)
    → IsSound (set_inode i ip t) (held_with i n held)
same-IsSound t held i n ip s used count (same_dev, same_inum) = record {
  counted = λ j. ground (arith, s.counted j);
  in_range = λ j l. ground (arith, s.in_range j, s.in_range i);
  unique = λ j k a b d e. ground (arith, s.unique j k, s.unique i k, s.unique j i);
}

-- An entry that nobody holds is given to an inode that no entry in use is for.
recycled-IsSound :
    (t : Icache) (held : ℕ → ℕ) (i dev inum : ℕ)
    → IsSound t held
    → i < ninode
    → ((j : ℕ) → 0 < held j → (t j).dev ≡ dev → (t j).inum ≡ inum → ⊥)
    → IsSound (set_inode i (recycled dev inum (t i)) t) (held_with i 1 held)
recycled-IsSound t held i dev inum s b new = record {
  counted = λ j. ground (arith, s.counted j);
  in_range = λ j l. ground (arith, s.in_range j);
  unique = λ j k a b d e. ground (arith, s.unique j k, new j, new k);
}

-- What `iget` may come to.
unfoldable pub IsGot : ℕ → ℕ → (ℕ → ℕ) → Outcome (ℕ × Icache) → Type 0
IsGot dev inum held (ok (i, t)) =
    IsSound t (held_with i (held i + 1) held) × ((t i).dev ≡ dev) × ((t i).inum ≡ inum)
IsGot dev inum held (panic m) = m ≡ "iget: no inodes"
IsGot dev inum held fault = ⊥

iget_end-IsGot :
    (dev inum : ℕ) (t : Icache) (held : ℕ → ℕ) (seen : Seen)
    → IsSound t held
    → IsSeen dev inum t none 0 ninode seen
    → IsGot dev inum held (iget_end dev inum t seen)
unfolding IsGot IsSeen
iget_end-IsGot dev inum t held (cached i) s (b, hit) =
    let counted = s.counted i in
    let key : (0 < (t i).ref) × ((t i).dev ≡ dev) × ((t i).inum ≡ inum) =
      (ground (arith, hit), ground (arith, hit), ground (arith, hit)) in
    let self : (i == i) ≡ true = ground arith in
    (
      same-IsSound t held i (held i + 1) (record (t i) { ref = (t i).ref + 1 }) s
          (omega (arith, key.0)) (omega arith) (refl, refl),
      rw self (key.1),
      rw self (key.2),
    )
iget_end-IsGot dev inum t held (absent none) s h = refl
iget_end-IsGot dev inum t held (absent (some i)) s (others, inl never) =
    absurd (ground (arith, never))
iget_end-IsGot dev inum t held (absent (some i)) s (others, inr (b, free)) =
    let none_held : held i ≡ 0 = sym (s.counted i) ∙ free in
    let one : held i + 1 ≡ 1 = omega arith in
    let self : (i == i) ≡ true = ground arith in
    (
      rw one (
          recycled-IsSound t held i dev inum s b
            λ j l d e. let used = s.counted j in ground (arith, others j, s.in_range j)),
      rw self refl,
      rw self refl,
    )

-- In a sound cache `iget` returns an entry for the inode, which has one holder more, and the cache
-- stays sound; or it panics for want of an empty entry.
pub iget-IsGot :
    (dev inum : ℕ) (t : Icache) (held : ℕ → ℕ)
    → IsSound t held
    → IsGot dev inum held (iget dev inum t)
unfolding iget
iget-IsGot dev inum t held s =
    let seen : IsSeen dev inum t none 0 ninode (iget_loop dev inum t ninode 0 none) =
      iget_loop-IsSeen dev inum t ninode 0 none in
    iget_end-IsGot dev inum t held _ s seen

-- An outcome that leaves a sound table.
unfoldable pub Leaves : (ℕ → ℕ) → Outcome Icache → Type 0
Leaves held (ok t) = IsSound t held
Leaves held (panic m) = Unit {0}
Leaves held fault = ⊥

unfoldable pub LeavesPut : ℕ → (ℕ → ℕ) → Outcome Putting → Type 0
LeavesPut i held (ok (put t)) = IsSound t (held_with i (held i - 1) held)
LeavesPut i held (ok (freeing t)) = IsSound t held
LeavesPut i held (panic m) = Unit {0}
LeavesPut i held fault = ⊥

unfoldable pub LeavesLocked : (ℕ → ℕ) → Outcome Locking → Type 0
LeavesLocked held (ok sleeps) = Unit {0}
LeavesLocked held (ok (locked t)) = IsSound t held
LeavesLocked held (panic m) = Unit {0}
LeavesLocked held fault = ⊥

-- Locking changes no count and no entry's inode.
kept-IsSound :
    (t t' : Icache) (held : ℕ → ℕ)
    → IsSound t held
    → ((j : ℕ) → ((t' j).ref ≡ (t j).ref) × SameInode (t' j) (t j))
    → IsSound t' held
kept-IsSound t t' held s h = record {
  counted = λ j. (h j).0 ∙ s.counted j;
  in_range = s.in_range;
  unique = λ j k a b d e.
      s.unique j k a b (sym ((h j).1.0) ∙ d ∙ (h k).1.0) (sym ((h j).1.1) ∙ e ∙ (h k).1.1);
}

pub iput-LeavesPut :
    (t : Icache) (held : ℕ → ℕ) (i : ℕ) → IsSound t held → 0 < held i → LeavesPut i held (iput i t)
unfolding iput LeavesPut
iput-LeavesPut t held i s used =
    let counted = s.counted i in
    let P = LeavesPut i held in
    if_split P ((t i).ref == 1 && ((t i).valid && (t i).copy.nlink == 0))
      (λ last.
        if_split P (t i).busy (λ busy. tt)
          (λ idle. kept-IsSound t _ held s λ j. (ground arith, (ground arith, ground arith))))
      (λ more. same-IsSound t held i (held i - 1) _ s used (omega arith) (refl, refl))

pub iunlock-Leaves :
    (t : Icache) (held : ℕ → ℕ) (i : ℕ) → IsSound t held → Leaves held (iunlock i t)
unfolding iunlock Leaves
iunlock-Leaves t held i s =
    if_split (Leaves held) (not (t i).busy || ltb (t i).ref 1) (λ bad. tt)
      (λ good. kept-IsSound t _ held s λ j. (ground arith, (ground arith, ground arith)))

pub ilock-Leaves :
    (disk : ℕ → ℕ → DiskInode) (t : Icache) (held : ℕ → ℕ) (i : ℕ)
    → IsSound t held
    → LeavesLocked held (ilock disk i t)
unfolding ilock LeavesLocked
ilock-Leaves disk t held i s =
    let P = LeavesLocked held in
    let t1 = set_inode i (record (t i) { busy = true }) t in
    let s1 = kept-IsSound t t1 held s λ j. (ground arith, (ground arith, ground arith)) in
    let d = disk (t i).dev (t i).inum in
    if_split P (ltb (t i).ref 1) (λ bad. tt)
      λ good.
        if_split P (t i).busy (λ busy. tt)
          λ idle.
            if_split P (t1 i).valid (λ v. s1)
              λ v.
                if_split P (d.type == 0) (λ none_there. tt)
                  λ there.
                    kept-IsSound t1 _ held s1 λ j. (ground arith, (ground arith, ground arith))

pub iput_freed-IsSound :
    (copy : DiskInode) (t : Icache) (held : ℕ → ℕ) (i : ℕ)
    → IsSound t held
    → 0 < held i
    → IsSound (iput_freed copy i t) (held_with i (held i - 1) held)
iput_freed-IsSound copy t held i s l =
    let counted = s.counted i in same-IsSound t held i (held i - 1) _ s l (omega arith) (refl, refl)

pub idup-IsSound :
    (t : Icache) (held : ℕ → ℕ) (i : ℕ)
    → IsSound t held
    → 0 < held i
    → IsSound (idup i t) (held_with i (held i + 1) held)
unfolding idup
idup-IsSound t held i s l =
    let counted = s.counted i in same-IsSound t held i (held i + 1) _ s l (omega arith) (refl, refl)

-- The caches that come about, with the holders of each entry. A holder got its inode by `iget` or
-- `idup`, and gives it up by `iput`.
pub data Reach (disk : ℕ → ℕ → DiskInode) : Icache → (ℕ → ℕ) → Type 0 where
  start : (t : Icache) → ((i : ℕ) → (t i).ref ≡ 0) → Reach disk t (λ i. 0)
  gets :
      (t t' : Icache) (held : ℕ → ℕ) (dev inum i : ℕ)
      → Reach disk t held
      → iget dev inum t ≡ ok (i, t')
      → Reach disk t' (held_with i (held i + 1) held)
  dups :
      (t : Icache) (held : ℕ → ℕ) (i : ℕ)
      → Reach disk t held
      → 0 < held i
      → Reach disk (idup i t) (held_with i (held i + 1) held)
  puts :
      (t t' : Icache) (held : ℕ → ℕ) (i : ℕ)
      → Reach disk t held
      → 0 < held i
      → iput i t ≡ ok (put t')
      → Reach disk t' (held_with i (held i - 1) held)
  frees :
      (t t' : Icache) (held : ℕ → ℕ) (i : ℕ)
      → Reach disk t held
      → 0 < held i
      → iput i t ≡ ok (freeing t')
      → Reach disk t' held
  freed :
      (t : Icache) (held : ℕ → ℕ) (i : ℕ) (copy : DiskInode)
      → Reach disk t held
      → 0 < held i
      → Reach disk (iput_freed copy i t) (held_with i (held i - 1) held)
  locks :
      (t t' : Icache) (held : ℕ → ℕ) (i : ℕ)
      → Reach disk t held
      → ilock disk i t ≡ ok (locked t')
      → Reach disk t' held
  unlocks :
      (t t' : Icache) (held : ℕ → ℕ) (i : ℕ)
      → Reach disk t held
      → iunlock i t ≡ ok t'
      → Reach disk t' held

-- In every cache that comes about, an entry's count is the number of its holders, and no inode has
-- two entries in use.
pub Reach-IsSound :
    (disk : ℕ → ℕ → DiskInode) (t : Icache) (held : ℕ → ℕ) → Reach disk t held → IsSound t held
unfolding IsGot Leaves LeavesPut LeavesLocked
Reach-IsSound disk _ _ (start t h) = record {
  counted = h;
  in_range = λ i l. absurd (omega arith);
  unique = λ i j a b. absurd (omega arith);
}
Reach-IsSound disk _ _ (gets t t' held dev inum i r e) =
    (subst (IsGot dev inum held) e (iget-IsGot dev inum t held (Reach-IsSound disk t held r))).0
Reach-IsSound disk _ _ (dups t held i r l) = idup-IsSound t held i (Reach-IsSound disk t held r) l
Reach-IsSound disk _ _ (puts t t' held i r l e) =
    subst (LeavesPut i held) e (iput-LeavesPut t held i (Reach-IsSound disk t held r) l)
Reach-IsSound disk _ _ (frees t t' held i r l e) =
    subst (LeavesPut i held) e (iput-LeavesPut t held i (Reach-IsSound disk t held r) l)
Reach-IsSound disk _ _ (freed t held i copy r l) =
    iput_freed-IsSound copy t held i (Reach-IsSound disk t held r) l
Reach-IsSound disk _ _ (locks t t' held i r e) =
    subst (LeavesLocked held) e (ilock-Leaves disk t held i (Reach-IsSound disk t held r))
Reach-IsSound disk _ _ (unlocks t t' held i r e) =
    subst (Leaves held) e (iunlock-Leaves t held i (Reach-IsSound disk t held r))
