-- ===== src/Path.antt =====
-- fs.c: path names, and the walk along one.
--
-- A path is the list of its characters up to the NUL. `skipelem`'s name is an array of DIRSIZ
-- characters, ended with a NUL where the element is shorter: here its first DIRSIZ characters. The
-- walk is one run without other processes: where `ilock` would sleep, the model ends with `waits`.
-- The disk's inodes, the bytes of the directories and what `itrunc` leaves of an inode without links
-- are parameters.
pub mod Elements
pub mod Holders
mod Tests
use Prim.Native.String.{String}
use os.Prelude.{
  ℕ, zero, suc, ◌+◌, Bool, true, false, not, ◌&&◌, Option, none, some, List, [], ◌∷◌, ◌==◌,
  if◌then◌else◌, take, Outcome, ok, panic, fault,
}
use os.Inode.{
  Inode, DiskInode, Icache, iget, idup, ilock, iunlock, iput, iput_freed, iunlockput, Locking,
  sleeps, locked, Putting, put, freeing,
}
use os.Directory.{Name, dirlookup, dirsiz, t_dir}

abbrev pub slash : ℕ
slash = 47

-- ROOTDEV, ROOTINO
abbrev pub rootdev : ℕ
rootdev = 1

abbrev pub rootino : ℕ
rootino = 1

pub skip_slashes : Name → Name
skip_slashes [] = []
skip_slashes (c ∷ s) = let rest = skip_slashes s in if c == slash then rest else c ∷ s

-- The characters up to the next slash, and the rest.
pub take_element : Name → Name × Name
take_element [] = ([], [])
take_element (c ∷ s) =
    let (e, rest) = take_element s in if c == slash then ([], c ∷ s) else (c ∷ e, rest)

abbrev pub cut_element : Name → Option (Name × Name)
cut_element [] = none
cut_element (c ∷ s) =
    some (take dirsiz (take_element (c ∷ s)).0, skip_slashes (take_element (c ∷ s)).1)

-- The next element, and the path after it.
pub skipelem : Name → Option (Name × Name)
skipelem path = cut_element (skip_slashes path)

-- How the walk ends: with the inode returned, if any, and the last element for `nameiparent`.
pub data Walk : Type 0 where
  returns : Option ℕ → Name → Icache → Walk
  waits : Walk
  panics : String → Walk
  faults : Walk
  no_fuel : Walk

infixl 1 ◌then_walk◌
abbrev pub ◌then_walk◌ {ℓ} : {A : Type ℓ} → Outcome A → (A → Walk) → Walk
ok a then_walk f = f a
panic m then_walk f = panics m
fault then_walk f = faults

abbrev pub is_absolute : Name → Bool
is_absolute [] = false
is_absolute (c ∷ s) = c == slash

abbrev pub is_end : Name → Bool
is_end [] = true
is_end (c ∷ s) = false

module _ (disk : ℕ → ℕ → DiskInode) (bytes : Inode → ℕ → ℕ) (freed : Inode → DiskInode) where
  -- The cache after `iput`.
  abbrev pub dropped : ℕ → Putting → Icache
  dropped i (put t) = t
  dropped i (freeing t) = iput_freed (freed (t i)) i t

  -- `iunlockput(ip); return 0;`
  abbrev pub give_up : ℕ → Name → Icache → Walk
  give_up i name t = iunlockput i t then_walk λ p. returns none name (dropped i p)

  -- After `dirlookup`: `go` walks on from the next inode.
  abbrev pub walk_next : ℕ → Name → (ℕ → Icache → Walk) → Option (ℕ × ℕ) × Icache → Walk
  walk_next i name go (none, t) = give_up i name t
  walk_next i name go (some (next, off), t) = iunlockput i t then_walk λ p. go next (dropped i p)

  -- A round of the walk on a locked inode, with the path after the element.
  abbrev pub walk_locked : Bool → ℕ → Name → Name → (ℕ → Icache → Walk) → Locking → Walk
  walk_locked parent i name rest go sleeps = waits
  walk_locked parent i name rest go (locked t) =
      if not ((t i).copy.type == t_dir)
      then give_up i name t
      else if parent && is_end rest
      then (iunlock i t then_walk λ t'. returns (some i) name t')
      else (dirlookup (t i) (bytes (t i)) name t then_walk walk_next i name go)

  abbrev pub walk_end : Bool → ℕ → Name → Icache → Walk
  walk_end parent i name t =
      if parent
      then (iput i t then_walk λ p. returns none name (dropped i p))
      else returns (some i) name t

  pub walk : ℕ → Bool → Name → Name → ℕ → Icache → Walk
  walk zero parent path name i t = no_fuel
  walk (suc fuel) parent path name i t = elim (skipelem path) [
    | none ↦ walk_end parent i name t
    | some (elem, rest) ↦
        ilock disk i t
        then_walk walk_locked parent i elem rest (λ j t'. walk fuel parent rest elem j t')
  ]

  -- `namex`, in the process whose current directory is entry `cwd`.
  pub namex : ℕ → Name → Bool → ℕ → Icache → Walk
  namex fuel path parent cwd t =
      if is_absolute path
      then (iget rootdev rootino t then_walk λ (i, t'). walk fuel parent path [] i t')
      else walk fuel parent path [] cwd (idup cwd t)

  pub namei : ℕ → Name → ℕ → Icache → Walk
  namei fuel path cwd t = namex fuel path false cwd t

  pub nameiparent : ℕ → Name → ℕ → Icache → Walk
  nameiparent fuel path cwd t = namex fuel path true cwd t
