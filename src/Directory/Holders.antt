-- ===== src/Directory/Holders.antt =====
-- The holds on inodes after `dirlookup`.
use os.Prelude.{
  ℕ, zero, suc, ◌+◌, Option, none, some, ◌==◌, Outcome, ok, panic, fault, if_split, if_ind, ltb,
  ◌>>=◌,
}
use os.Inode.{Inode, Icache, iget}
use os.Inode.Counts.{held_with, IsSound, IsGot, iget-IsGot}
use os.Directory.{
  Content, dirent_at, namecmp, Name, dirlookup, look_up, got_entry, content_of, rounds, t_dir,
}

-- One holder more.
abbrev pub one_more : ℕ → (ℕ → ℕ) → ℕ → ℕ
one_more i held = held_with i (held i + 1) held

-- What `dirlookup` comes to: the inode found has one holder more.
unfoldable pub LeavesFound : (ℕ → ℕ) → Outcome (Option (ℕ × ℕ) × Icache) → Type 0
LeavesFound held (ok (none, t)) = IsSound t held
LeavesFound held (ok (some (i, off), t)) = IsSound t (one_more i held)
LeavesFound held (panic m) = Unit {0}
LeavesFound held fault = ⊥

got-LeavesFound :
    (held : ℕ → ℕ) (off dev inum : ℕ) (o : Outcome (ℕ × Icache))
    → IsGot dev inum held o
    → LeavesFound held (o >>= λ (i, t). ok (some (i, off), t))
unfolding IsGot LeavesFound
got-LeavesFound held off dev inum (ok (i, t)) (s, same_dev, same_inum) = s
got-LeavesFound held off dev inum (panic m) h = tt
got-LeavesFound held off dev inum fault h = h

got_entry-LeavesFound :
    (held : ℕ → ℕ) (dp : Inode) (t : Icache) (o : Option (ℕ × ℕ))
    → IsSound t held
    → LeavesFound held (got_entry dp t o)
unfolding LeavesFound
got_entry-LeavesFound held dp t none s = s
got_entry-LeavesFound held dp t (some (off, inum)) s =
    got-LeavesFound held off dp.dev inum (iget dp.dev inum t) (iget-IsGot dp.dev inum t held s)

Ends : Outcome (Option (ℕ × ℕ)) → Type 0
Ends (ok o) = Unit {0}
Ends (panic m) = Unit {0}
Ends fault = ⊥

look_up-Ends : (c : Content) (name : Name) (n off : ℕ) → Ends (look_up c name n off)
unfolding look_up Ends
look_up-Ends c name zero off = tt
look_up-Ends c name (suc n) off =
    let ih = look_up-Ends c name n (off + 16) in
    if_ind Ends (ltb off c.size)
      (if_ind Ends (ltb c.size (off + 16)) tt (
        if_ind Ends ((dirent_at c.byte off).inum == 0) ih
          (if_ind Ends (namecmp name (dirent_at c.byte off).name) tt ih)))
      tt

looked-LeavesFound :
    (held : ℕ → ℕ) (dp : Inode) (t : Icache) (o : Outcome (Option (ℕ × ℕ)))
    → IsSound t held
    → Ends o
    → LeavesFound held (o >>= λ found. got_entry dp t found)
unfolding LeavesFound Ends
looked-LeavesFound held dp t (ok found) s e = got_entry-LeavesFound held dp t found s
looked-LeavesFound held dp t (panic m) s e = tt
looked-LeavesFound held dp t fault s e = e

pub dirlookup-LeavesFound :
    (held : ℕ → ℕ) (dp : Inode) (bytes : ℕ → ℕ) (name : Name) (t : Icache)
    → IsSound t held
    → LeavesFound held (dirlookup dp bytes name t)
unfolding dirlookup LeavesFound
dirlookup-LeavesFound held dp bytes name t s =
    if_split (LeavesFound held) (dp.copy.type == t_dir)
      (λ is_dir.
        looked-LeavesFound held dp t _ s
          (look_up-Ends (content_of dp bytes) name (rounds (content_of dp bytes)) 0))
      (λ other. tt)
