-- ===== src/Cache.antt =====
-- bio.c: the buffer cache.
--
-- The linked list of the buffers is a list, most recently used first; `id` is a buffer's address.
-- The flags are Booleans. Where `bget` sleeps it ends, and starts again when it is woken. The disk
-- driver's `iderw` is a parameter.
pub mod Sectors
mod Tests
use os.Prelude.{
  ℕ, ◌^◌, ◌-◌, Bool, true, false, not, ◌&&◌, Option, none, some, List, [], ◌∷◌, ◌==◌, if◌then◌else◌,
  Outcome, ok, panic,
}

pub record Buf : Type 0 where
  pub id : ℕ
  pub dev : ℕ
  pub sector : ℕ
  pub busy : Bool
  pub valid : Bool
  pub dirty : Bool
  pub bytes : List ℕ

-- -1 as a `uint`: the device of a buffer that holds no sector yet.
abbrev pub no_dev : ℕ
no_dev = 2 ^ 32 - 1

-- `binit` puts each buffer of the array in front.
pub binit : List Buf → List Buf → List Buf
binit list [] = list
binit list (b ∷ bufs) = binit (record b { dev = no_dev } ∷ list) bufs

abbrev pub is_for : ℕ → ℕ → Buf → Bool
is_for dev sector b = b.dev == dev && b.sector == sector

-- The first loop of `bget`: the sector is not there, is in use, or is taken.
pub data Look : Type 0 where
  missing : Look
  in_use : ℕ → Look
  hit : Buf → List Buf → Look

abbrev pub after : Buf → Look → Look
after b missing = missing
after b (in_use i) = in_use i
after b (hit x bufs) = hit x (b ∷ bufs)

pub find_buf : ℕ → ℕ → List Buf → Look
find_buf dev sector [] = missing
find_buf dev sector (b ∷ bufs) =
    let rest = find_buf dev sector bufs in
    let taken = record b { busy = true } in
    if is_for dev sector b
    then if b.busy then in_use b.id else hit taken (taken ∷ bufs)
    else after b rest

-- The second loop, from the list's end.
pub data Recycled : Type 0 where
  none_free : Recycled
  reused : Buf → List Buf → Recycled

abbrev pub recycle_here : ℕ → ℕ → Buf → List Buf → Recycled → Recycled
recycle_here dev sector b bufs (reused x rest) = reused x (b ∷ rest)
recycle_here dev sector b bufs none_free =
    let fresh = record b {
      dev = dev;
      sector = sector;
      busy = true;
      valid = false;
      dirty = false;
    } in
    if not b.busy && not b.dirty then reused fresh (fresh ∷ bufs) else none_free

pub recycle : ℕ → ℕ → List Buf → Recycled
recycle dev sector [] = none_free
recycle dev sector (b ∷ bufs) = recycle_here dev sector b bufs (recycle dev sector bufs)

-- `bget` ends with a buffer, or asleep on one.
pub data Got : Type 0 where
  gets : Buf → List Buf → Got
  sleeps : ℕ → Got

abbrev pub from_recycled : Recycled → Outcome Got
from_recycled none_free = panic "bget: no buffers"
from_recycled (reused b bufs) = ok (gets b bufs)

abbrev pub from_look : Recycled → Look → Outcome Got
from_look r missing = from_recycled r
from_look r (in_use i) = ok (sleeps i)
from_look r (hit b bufs) = ok (gets b bufs)

pub bget : ℕ → ℕ → List Buf → Outcome Got
unfolding find_buf recycle
bget dev sector bufs = from_look (recycle dev sector bufs) (find_buf dev sector bufs)

-- The buffer with this address is now `b`.
pub put_back : Buf → List Buf → List Buf
put_back b [] = []
put_back b (x ∷ bufs) = if x.id == b.id then b ∷ bufs else x ∷ put_back b bufs

module _ (iderw : Buf → Buf) where
  -- `bread` once `bget` has returned `b`.
  pub bread_got : Buf → List Buf → Buf × List Buf
  unfolding put_back
  bread_got b bufs = if not b.valid then (iderw b, put_back (iderw b) bufs) else (b, bufs)

  pub bwrite : Buf → List Buf → Outcome (Buf × List Buf)
  unfolding put_back
  bwrite b bufs =
      let u = iderw (record b { dirty = true }) in
      if not b.busy then panic "bwrite" else ok (u, put_back u bufs)

pub unlink : ℕ → List Buf → List Buf
unlink i [] = []
unlink i (x ∷ bufs) = if x.id == i then bufs else x ∷ unlink i bufs

pub brelse : Buf → List Buf → Outcome (List Buf)
unfolding unlink
brelse b bufs =
    if not b.busy then panic "brelse" else ok (record b { busy = false } ∷ unlink b.id bufs)
