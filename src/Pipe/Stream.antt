-- ===== src/Pipe/Stream.antt =====
-- Any interleaving of the runs of any number of writers and readers of one pipe.
use mathlib.Core.List.{append-nil, append_assoc}
use os.Prelude.{
  ℕ, ◌-◌, ◌≡◌, refl, sym, ◌∙◌, ap, Bool, true, false, List, [], ◌++◌, length, take, arith,
  length-append, ◌∷◌,
}
use os.Pipe.{
  Pipe, ReadEnd, got, interrupted, sleeps, pipewrite, piperead, pipeclose, pipe_init, pipe_size,
}
use os.Pipe.Ring.{IsValid, contents}
use os.Pipe.Turns.{unwritten, pipewrite_appends, ReadReason, piperead_takes}

-- A pipe with the bytes accepted from all writers, and those handed to all readers, so far.
pub record Traffic : Type 0 where
  pub pipe : Pipe
  pub sent : List ℕ
  pub received : List ℕ

abbrev pub bytes_read : ReadEnd → List ℕ
bytes_read (got bs) = bs
bytes_read interrupted = []
bytes_read sleeps = []

pub after_write : Bool → List ℕ → Traffic → Traffic
after_write killed bs t =
    let (q, e, _) = pipewrite killed t.pipe bs in
    record t { pipe = q; sent = t.sent ++ take (length bs - length (unwritten e)) bs }

pub after_read : Bool → ℕ → Traffic → Traffic
after_read killed n t =
    let (q, e, _) = piperead killed t.pipe n in
    record t { pipe = q; received = t.received ++ bytes_read e }

pub after_close : Bool → Traffic → Traffic
after_close writable t = record t { pipe = (pipeclose t.pipe writable).0 }

-- A run is made with any bytes or size and with any state of the process's `killed` flag.
pub data Step (t : Traffic) : Traffic → Type 0 where
  writes : (killed : Bool) (bs : List ℕ) → Step t (after_write killed bs t)
  reads : (killed : Bool) (n : ℕ) → Step t (after_read killed n t)
  closes : (writable : Bool) → Step t (after_close writable t)

pub data Reach (s : Traffic) : Traffic → Type 0 where
  here : Reach s s
  next : {t u : Traffic} → Reach s t → Step t u → Reach s u

abbrev pub fresh : List ℕ → Traffic
fresh page = record { pipe = pipe_init page; sent = []; received = [] }

pub record IsFaithful (t : Traffic) : Type 0 where
  pub valid : IsValid t.pipe
  pub stream : t.sent ≡ t.received ++ contents t.pipe

take-all : (xs left : List ℕ) → take (length xs) (xs ++ left) ≡ xs
take-all [] left = refl
take-all (x ∷ xs) left = ap (λ r. x ∷ r) (take-all xs left)

taken_eq : (ms left bs : List ℕ) → ms ++ left ≡ bs → take (length bs - length left) bs ≡ ms
taken_eq ms left bs e =
    let size : length bs - length left ≡ length ms =
      rw (← e) (omega (arith, length-append ms left)) in
    rw (size, ← e) (take-all ms left)

write-IsFaithful :
    (killed : Bool) (bs : List ℕ) {t : Traffic}
    → IsFaithful t
    → IsFaithful (after_write killed bs t)
unfolding after_write
write-IsFaithful killed bs {t} f =
    let w = pipewrite_appends killed t.pipe bs f.valid in
    record {
      valid = w.valid;
      stream =
          ap (λ xs. t.sent ++ xs) (taken_eq w.taken _ bs w.split)
          ∙ ap (λ xs. xs ++ w.taken) f.stream
          ∙ append_assoc t.received (contents t.pipe) w.taken
          ∙ ap (λ xs. t.received ++ xs) (sym w.held);
    }

read-IsFaithful :
    (killed : Bool) (n : ℕ) {t : Traffic} → IsFaithful t → IsFaithful (after_read killed n t)
unfolding after_read
read-IsFaithful killed n {t} f =
    case (piperead killed t.pipe n).0 (piperead killed t.pipe n).1
      (piperead_takes killed t.pipe n f.valid)
  where
    case :
        (q : Pipe) (e : ReadEnd)
        → ReadReason killed t.pipe n q e
        → IsFaithful (record t { pipe = q; received = t.received ++ bytes_read e })
    case q (got bs) h = record {
      valid = h.0.valid;
      stream =
          f.stream
          ∙ ap (λ xs. t.received ++ xs) (sym h.0.order)
          ∙ sym (append_assoc t.received bs (contents q));
    }
    case q interrupted h = rw (h.0, append-nil) f
    case q sleeps h = rw (h.0, append-nil) f

close-IsFaithful :
    (writable : Bool) {t : Traffic} → IsFaithful t → IsFaithful (after_close writable t)
unfolding after_close pipeclose
close-IsFaithful true f = record { valid = ground arith; stream = f.stream }
close-IsFaithful false f = record { valid = ground arith; stream = f.stream }

fresh-IsFaithful : (page : List ℕ) → length page ≡ pipe_size → IsFaithful (fresh page)
unfolding pipe_init
fresh-IsFaithful page l = record { valid = ground arith; stream = refl }

Step-IsFaithful : {t u : Traffic} → Step t u → IsFaithful t → IsFaithful u
Step-IsFaithful (writes killed bs) f = write-IsFaithful killed bs f
Step-IsFaithful (reads killed n) f = read-IsFaithful killed n f
Step-IsFaithful (closes writable) f = close-IsFaithful writable f

Reach-IsFaithful : {s t : Traffic} → IsFaithful s → Reach s t → IsFaithful t
Reach-IsFaithful f here = f
Reach-IsFaithful f (next r st) = Step-IsFaithful st (Reach-IsFaithful f r)

-- From a fresh pipe, whatever runs writers, readers and closers make and in whatever order: the
-- bytes that the readers got, followed by those that the pipe holds, are the bytes that the writers
-- put, in order, and the pipe is valid (so it holds at most 512 bytes).
pub pipe_stream :
    (page : List ℕ) {t : Traffic} → length page ≡ pipe_size → Reach (fresh page) t → IsFaithful t
pipe_stream page l r = Reach-IsFaithful (fresh-IsFaithful page l) r
