-- ===== src/Pipe/Turns.antt =====
-- One run of the writer, and one of the reader, from its call or wakeup to its return or sleep.
use mathlib.Core.List.{append-nil, append_assoc}
use os.Prelude.{
  ℕ, zero, suc, ◌≤◌, ◌≡◌, refl, sym, ◌∙◌, ap, ◌≢◌, ◌⊎◌, inl, inr, Bool, true, false, not, ◌||◌,
  List, [], ◌∷◌, ◌++◌, length, Bool-cases, arith,
}
use os.Pipe.{
  Pipe, WriteEnd, wrote, refused, waits, ReadEnd, got, interrupted, sleeps, is_empty, is_full, put,
  get, write_loop, pipewrite, copy_loop, piperead,
}
use os.Pipe.Ring.{
  IsValid, contents, put-IsValid, contents-put, get-IsValid, contents-get, contents-empty,
}

abbrev pub unwritten : WriteEnd → List ℕ
unwritten wrote = []
unwritten (refused bs) = bs
unwritten (waits bs) = bs

-- Why a run of the writer ended.
abbrev pub EndReason : Bool → Pipe → WriteEnd → Type 0
EndReason killed q wrote = Unit
EndReason killed q (refused bs) =
    (is_full q ≡ true) × ((not q.readopen || killed) ≡ true) × (bs ≢ [])
EndReason killed q (waits bs) =
    (is_full q ≡ true) × (q.readopen ≡ true) × (killed ≡ false) × (bs ≢ [])

-- What a run of the writer has done with the bytes it was to write.
pub record Wrote (killed : Bool) (p : Pipe) (bs : List ℕ) (q : Pipe) (e : WriteEnd) : Type 0 where
  pub valid : IsValid q
  pub taken : List ℕ
  pub held : contents q ≡ contents p ++ taken
  pub split : taken ++ unwritten e ≡ bs
  pub reason : EndReason killed q e

write_loop-Wrote :
    (killed : Bool) (bs : List ℕ) (p : Pipe)
    → IsValid p
    → let (q, e, _) = write_loop killed p bs in Wrote killed p bs q e
unfolding write_loop
write_loop-Wrote killed [] p v = record {
  valid = v;
  taken = [];
  held = sym (append-nil (contents p));
  split = refl;
  reason = tt;
}
write_loop-Wrote killed (b ∷ bs) p v = elim (Bool-cases (is_full p)) [
  | inl full ↦ rw full (elim (Bool-cases (not p.readopen || killed)) [
    | inl closed ↦ rw closed (record {
      valid = v;
      taken = [];
      held = sym (append-nil (contents p));
      split = refl;
      reason = (full, closed, cc);
    })
    | inr still ↦ rw still (record {
      valid = v;
      taken = [];
      held = sym (append-nil (contents p));
      split = refl;
      reason = (full, ground arith, ground arith, cc);
    })
  ])
  | inr room ↦ rw room (
      let ih = write_loop-Wrote killed bs (put p b) (put-IsValid b v room) in
      record {
        valid = ih.valid;
        taken = b ∷ ih.taken;
        held =
            ih.held
            ∙ ap (λ xs. xs ++ ih.taken) (contents-put b v room)
            ∙ append_assoc (contents p) (b ∷ []) ih.taken;
        split = ap (λ xs. b ∷ xs) ih.split;
        reason = ih.reason;
      })
]

-- A run of `pipewrite` appends a prefix of the bytes, in order, to what a valid pipe holds, and the
-- rest are those left unwritten; the pipe stays valid. It leaves bytes only at a full pipe: it
-- returns -1 if the read end is closed or the process killed, and sleeps if neither holds.
pub pipewrite_appends :
    (killed : Bool) (p : Pipe) (addr : List ℕ)
    → IsValid p
    → let (q, e, _) = pipewrite killed p addr in Wrote killed p addr q e
unfolding pipewrite
pipewrite_appends killed p addr v = write_loop-Wrote killed addr p v

-- The copy loop takes from the front, and stops early only at an empty pipe.
pub record Copied (n : ℕ) (p : Pipe) (bs : List ℕ) (q : Pipe) : Type 0 where
  pub valid : IsValid q
  pub order : bs ++ contents q ≡ contents p
  pub size : length bs ≤ n
  pub stopped : (length bs ≡ n) ⊎ (contents q ≡ [])
  pub ends_kept : (q.readopen ≡ p.readopen) × (q.writeopen ≡ p.writeopen)

copy_loop-Copied : (n : ℕ) (p : Pipe) → IsValid p → let (bs, q) = copy_loop n p in Copied n p bs q
unfolding copy_loop
copy_loop-Copied zero p v = record {
  valid = v;
  order = refl;
  size = omega arith;
  stopped = inl refl;
  ends_kept = (refl, refl);
}
copy_loop-Copied (suc n) p v = elim (Bool-cases (is_empty p)) [
  | inl e ↦ rw e (record {
    valid = v;
    order = refl;
    size = omega arith;
    stopped = inr (contents-empty v e);
    ends_kept = (refl, refl);
  })
  | inr e ↦ rw e (
      let ih = copy_loop-Copied n (get p).1 (get-IsValid v e) in
      record {
        valid = ih.valid;
        order = ap (λ xs. (get p).0 ∷ xs) ih.order ∙ sym (contents-get v e);
        size = omega (arith, ih.size);
        stopped = elim ih.stopped [ inl s ↦ inl (ap suc s) | inr s ↦ inr s ];
        ends_kept = ends ih.ends_kept;
      })
]
  where
    ends :
        let (_, q) = copy_loop n (get p).1 in
        (q.readopen ≡ (get p).1.readopen) × (q.writeopen ≡ (get p).1.writeopen)
        → (q.readopen ≡ p.readopen) × (q.writeopen ≡ p.writeopen)
    ends h = unfold get in h

-- What a run of `piperead` for `n` bytes comes to.
abbrev pub ReadReason : Bool → Pipe → ℕ → Pipe → ReadEnd → Type 0
ReadReason killed p n q (got bs) = Copied n p bs q × ((bs ≡ []) → (n ≡ 0) ⊎ (p.writeopen ≡ false))
ReadReason killed p n q interrupted =
    (q ≡ p) × (contents p ≡ []) × (p.writeopen ≡ true) × (killed ≡ true)
ReadReason killed p n q sleeps =
    (q ≡ p) × (contents p ≡ []) × (p.writeopen ≡ true) × (killed ≡ false)

got_nothing :
    (killed : Bool) (p : Pipe) (n : ℕ)
    → IsValid p
    → (is_empty p ≡ false) ⊎ (p.writeopen ≡ false)
    → (copy_loop n p).0 ≡ []
    → (n ≡ 0) ⊎ (p.writeopen ≡ false)
unfolding copy_loop
got_nothing killed p zero v why e = inl refl
got_nothing killed p (suc n) v why e = ground arith

-- A run of `piperead` at a valid pipe takes at most `n` bytes from the front, in order, stopping
-- early only when the pipe is empty; it returns no byte only if `n` is 0 or the write end is closed.
-- It sleeps, or returns -1 when the process is killed, exactly at an empty pipe with an open write
-- end, and then changes nothing.
pub piperead_takes :
    (killed : Bool) (p : Pipe) (n : ℕ)
    → IsValid p
    → let (q, e, _) = piperead killed p n in ReadReason killed p n q e
unfolding piperead
piperead_takes killed p n v = elim (Bool-cases (is_empty p)) [
  | inl e ↦
      rw e (ground (arith, contents-empty v e, copy_loop-Copied n p v, got_nothing killed p n v))
  | inr e ↦ rw e (copy_loop-Copied n p v, got_nothing killed p n v (inl e))
]
