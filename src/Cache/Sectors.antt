-- ===== src/Cache/Sectors.antt =====
-- At most one buffer holds a sector, and a buffer in use is never given to another sector.
use os.Prelude.{
  ℕ, ◌+◌, ◌≤◌, ◌<◌, ◌≡◌, ◌≢◌, true, ◌&&◌, ◌||◌, List, [], ◌∷◌, if◌then◌else◌, Outcome, ok, panic,
  fault,
}
use os.Cache.{
  Buf, no_dev, is_for, Look, missing, in_use, hit, after, Recycled, none_free, reused, Got, gets,
  sleeps,
}

-- How many buffers hold the sector.
unfoldable pub holders : ℕ → ℕ → List Buf → ℕ
holders dev sector [] = 0
holders dev sector (b ∷ bufs) = holders dev sector bufs + (if is_for dev sector b then 1 else 0)

abbrev pub IsUnique : List Buf → Type 0
IsUnique bufs = (dev sector : ℕ) → dev ≢ no_dev → holders dev sector bufs ≤ 1

-- How many of the buffers in use hold the sector.
pub users : ℕ → ℕ → List Buf → ℕ
users dev sector [] = 0
users dev sector (b ∷ bufs) =
    users dev sector bufs + (if is_for dev sector b && b.busy then 1 else 0)

-- How many of the buffers whose data is still to be written hold the sector.
pub waiting : ℕ → ℕ → List Buf → ℕ
waiting dev sector [] = 0
waiting dev sector (b ∷ bufs) =
    waiting dev sector bufs + (if is_for dev sector b && b.dirty then 1 else 0)

-- Every buffer is in use, or has data that is still to be written.
unfoldable pub NoneFree : List Buf → Type 0
NoneFree [] = Unit {0}
NoneFree (b ∷ bufs) = ((b.busy || b.dirty) ≡ true) × NoneFree bufs

-- What the first loop of `bget` finds.
pub LookedUp : ℕ → ℕ → List Buf → Look → Type 0
LookedUp dev sector bufs missing = holders dev sector bufs ≡ 0
LookedUp dev sector bufs (in_use i) = 0 < users dev sector bufs
LookedUp dev sector bufs (hit b after) =
    (is_for dev sector b ≡ true)
    × (b.busy ≡ true)
    × ((d s : ℕ) → holders d s after ≡ holders d s bufs)
    × ((d s : ℕ) → users d s bufs ≤ users d s after)
    × ((d s : ℕ) → waiting d s bufs ≡ waiting d s after)
    × (0 < users dev sector after)

-- What the second loop gives up for the sector.
pub IsReused : ℕ → ℕ → List Buf → Recycled → Type 0
IsReused dev sector bufs none_free = NoneFree bufs
IsReused dev sector bufs (reused b list) =
    (is_for dev sector b ≡ true)
    × (b.busy ≡ true)
    × ((d s : ℕ) → holders d s list ≤ holders d s bufs + (if is_for d s b then 1 else 0))
    × ((d s : ℕ) → users d s bufs ≤ users d s list)
    × ((d s : ℕ) → waiting d s bufs ≤ waiting d s list)
    × (0 < users dev sector list)

-- `bget` panics, or ends with a buffer of the sector, marked busy, or asleep because one is in use.
pub IsGot : ℕ → ℕ → List Buf → Outcome Got → Type 0
IsGot dev sector bufs (ok (gets b list)) =
    (is_for dev sector b ≡ true)
    × (b.busy ≡ true)
    × IsUnique list
    × ((d s : ℕ) → users d s bufs ≤ users d s list)
    × ((d s : ℕ) → waiting d s bufs ≤ waiting d s list)
    × (0 < users dev sector list)
IsGot dev sector bufs (ok (sleeps i)) = 0 < users dev sector bufs
IsGot dev sector bufs (panic s) =
    (s ≡ "bget: no buffers") × (holders dev sector bufs ≡ 0) × NoneFree bufs
IsGot dev sector bufs fault = ⊥
