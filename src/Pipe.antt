-- ===== src/Pipe.antt =====
-- pipe.c: the ring of 512 bytes behind a pipe, its blocking writer and reader, and its closing.
-- A function runs under the pipe's lock until it returns or sleeps, so one run from the call, or
-- from a wakeup, to the next of these is one function here. The list of channels is what it wakes.
-- A byte is any number; `addr` with `n` is the list of the bytes, so `n` is never negative.
pub mod Ring
pub mod Turns
pub mod Stream
mod Tests
use os.Prelude.{
  ℕ, zero, suc, ◌+◌, ◌%◌, ◌^◌, Bool, true, false, not, ◌&&◌, ◌||◌, List, [], ◌∷◌, ◌==◌,
  if◌then◌else◌, get_or, set,
}

abbrev pub pipe_size : ℕ
pipe_size = 512

-- `uint` addition.
abbrev pub add_uint : ℕ → ℕ → ℕ
add_uint a b = (a + b) % 2 ^ 32

pub record Pipe : Type 0 where
  pub bytes : List ℕ
  pub nread : ℕ
  pub nwrite : ℕ
  pub readopen : Bool
  pub writeopen : Bool

-- The channels `&p->nread` (readers sleep there) and `&p->nwrite` (writers do).
pub data Chan : Type 0 where
  readers writers : Chan

abbrev pub is_empty : Pipe → Bool
is_empty p = p.nread == p.nwrite

abbrev pub is_full : Pipe → Bool
is_full p = p.nwrite == add_uint p.nread pipe_size

-- `p->data[p->nwrite++ % PIPESIZE] = b`
pub put : Pipe → ℕ → Pipe
put p b = record p { bytes = set p.bytes (p.nwrite % pipe_size) b; nwrite = add_uint p.nwrite 1 }

-- `p->data[p->nread++ % PIPESIZE]`
pub get : Pipe → ℕ × Pipe
get p = (get_or p.bytes (p.nread % pipe_size) 0, record p { nread = add_uint p.nread 1 })

-- How a run of `pipewrite` ends: it returns `n`, it returns -1 and leaves the bytes `addr[i..n)`
-- unwritten, or it sleeps with those bytes left.
pub data WriteEnd : Type 0 where
  wrote : WriteEnd
  refused : List ℕ → WriteEnd
  waits : List ℕ → WriteEnd

-- `pipewrite` from its loop test on, with the bytes `addr[i..n)` left.
pub write_loop : Bool → Pipe → List ℕ → Pipe × WriteEnd × List Chan
write_loop killed p [] = (p, wrote, readers ∷ [])
write_loop killed p (b ∷ bs) =
    let rest = write_loop killed (put p b) bs in
    if is_full p
    then if not p.readopen || killed
      then (p, refused (b ∷ bs), [])
      else (p, waits (b ∷ bs), readers ∷ [])
    else rest

pub pipewrite : Bool → Pipe → List ℕ → Pipe × WriteEnd × List Chan
unfolding write_loop
pipewrite killed p addr = write_loop killed p addr

pub data ReadEnd : Type 0 where
  got : List ℕ → ReadEnd
  interrupted : ReadEnd
  sleeps : ReadEnd

-- The copy loop: at most `n` bytes, until the ring is empty.
pub copy_loop : ℕ → Pipe → List ℕ × Pipe
copy_loop zero p = ([], p)
copy_loop (suc n) p =
    let more : List ℕ × Pipe = (let (b, q) = get p in let (bs, r) = copy_loop n q in (b ∷ bs, r)) in
    if is_empty p then ([], p) else more

pub piperead : Bool → Pipe → ℕ → Pipe × ReadEnd × List Chan
unfolding copy_loop
piperead killed p n =
    if is_empty p && p.writeopen
    then if killed then (p, interrupted, []) else (p, sleeps, [])
    else let (bs, q) = copy_loop n p in (q, got bs, writers ∷ [])

-- The flag says whether the page of the pipe is freed.
pub pipeclose : Pipe → Bool → Pipe × Bool × List Chan
pipeclose p writable = (q, not q.readopen && not q.writeopen, woken)
  where
    q : Pipe
    q = if writable then record p { writeopen = false } else record p { readopen = false }

    woken : List Chan
    woken = if writable then readers ∷ [] else writers ∷ []

-- What `pipealloc` puts into a fresh page; the bytes are whatever the page held.
pub pipe_init : List ℕ → Pipe
pipe_init page = record { bytes = page; nread = 0; nwrite = 0; readopen = true; writeopen = true }
