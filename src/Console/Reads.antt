-- ===== src/Console/Reads.antt =====
-- A run of the reader, over the lines.
use os.Prelude.{
  refl, as_uint, ℕ, zero, suc, ◌+◌, ◌%◌, ◌≡◌, ◌∙◌, ap, inl, inr, Bool, true, false, List, [], ◌∷◌,
  ◌==◌, if◌then◌else◌, arith, Bool-cases,
}
use os.Console.{
  Input, Received, returns, fails, sleeps, with_char, distance, newline, control_d, read_chars,
}
use os.Console.Window.{Holds}

-- What a reader that wants `n` characters takes of those that are ready: `gets` has the characters
-- and the others, `waits` the characters, all that were ready, and how many it still wants.
pub data Taken : Type 0 where
  gets : List ℕ → List ℕ → Taken
  waits : ℕ → List ℕ → Taken

abbrev pub and_char : ℕ → Taken → Taken
and_char c (gets cs rest) = gets (c ∷ cs) rest
and_char c (waits n cs) = waits n (c ∷ cs)

-- No more than a line, and none after ^D. ^D is taken by a reader that has got nothing before it.
abbrev pub take_line : Bool → ℕ → List ℕ → Taken
take_line started zero cs = gets [] cs
take_line started (suc n) [] = waits (suc n) []
take_line started (suc n) (c ∷ cs) =
    let more = and_char c (take_line true n cs) in
    if c == control_d
    then gets [] (if started then c ∷ cs else cs)
    else if c == newline
    then gets (c ∷ []) cs
    else more

-- A run got what was to be taken, and left the rest and the line being edited. Where it would wait,
-- it sleeps, or returns -1 if the process is killed.
pub data Agrees (killed : Bool) (line : List ℕ) : Received → Taken → Type 0 where
  got :
      {cs rest : List ℕ} {s : Input}
      → Holds s (record { ready = rest; line = line })
      → Agrees killed line (returns cs s) (gets cs rest)
  slept :
      {n : ℕ} {cs : List ℕ} {s : Input}
      → killed ≡ false
      → Holds s (record { ready = []; line = line })
      → Agrees killed line (sleeps n cs s) (waits n cs)
  failed :
      {n : ℕ} {cs : List ℕ} {s : Input}
      → killed ≡ true
      → Holds s (record { ready = []; line = line })
      → Agrees killed line (fails cs s) (waits n cs)

with_char-Agrees :
    {killed : Bool} {line : List ℕ} (c : ℕ) {a : Received} {b : Taken}
    → Agrees killed line a b
    → Agrees killed line (with_char c a) (and_char c b)
with_char-Agrees c (got h) = got h
with_char-Agrees c (slept k h) = slept k h
with_char-Agrees c (failed k h) = failed k h

module _ {s : Input} {line : List ℕ} where
  next-Holds :
      {c : ℕ} {cs : List ℕ}
      → Holds s (record { ready = c ∷ cs; line = line })
      → Holds (record s { r = as_uint (s.r + 1) }) (record { ready = cs; line = line })
  next-Holds {c} {cs} h =
      let f = h.fits in
      let a = h.w_at in
      let b = h.e_at in
      record {
        fits = omega arith;
        r_fits = omega arith;
        w_at = omega (arith, h.r_fits);
        e_at = omega (arith, h.r_fits);
        readable = λ i li.
            let at : (as_uint (s.r + 1) + i) % 128 ≡ (s.r + suc i) % 128 =
              omega (arith, h.r_fits) in
            ap s.buf at ∙ h.readable (suc i) (omega arith);
        typed = h.typed;
        one_line = h.one_line;
      }

  -- The loop finds what is ready, and no more.
  pub read_step :
      {c : ℕ} {cs : List ℕ}
      → Holds s (record { ready = c ∷ cs; line = line })
      → ((s.r == s.w) ≡ false) × (s.buf (s.r % 128) ≡ c)
  read_step {c} {cs} h =
      let f = h.fits in
      let a = h.w_at in
      let at : s.r % 128 ≡ (s.r + 0) % 128 = omega arith in
      (ground (arith, h.r_fits), ap s.buf at ∙ h.readable 0 (omega arith))

  none_ready : Holds s (record { ready = []; line = line }) → (s.r == s.w) ≡ true
  none_ready h = let a = h.w_at in ground (arith, h.r_fits)

  put_back :
      {c : ℕ} {cs : List ℕ}
      → Holds s (record { ready = c ∷ cs; line = line })
      → distance (as_uint (s.r + 1)) 1 ≡ s.r
  put_back h = omega (arith, h.r_fits)

-- From a buffer that holds lines to be read and a line being edited, a run of the reader gets no more
-- characters than it wants, none behind a newline and none from ^D on; where all that was ready is
-- less, it sleeps, or returns -1 if the process is killed. It leaves the other characters and the
-- line being edited in the buffer, and a ^D that follows characters it got.
pub read_chars_lem :
    (killed started : Bool) (n : ℕ) (cs line : List ℕ) (s : Input)
    → Holds s (record { ready = cs; line = line })
    → Agrees killed line (read_chars killed started n s) (take_line started n cs)
unfolding read_chars
read_chars_lem killed started zero cs line s h = got h
read_chars_lem killed started (suc n) [] line s h = elim (Bool-cases killed) [
  | inl k ↦ rw (none_ready h, k) (failed refl h)
  | inr k ↦ rw (none_ready h, k) (slept refl h)
]
read_chars_lem killed started (suc n) (c ∷ cs) line s h =
    let rest =
      with_char-Agrees c (
        read_chars_lem killed true n cs line (record s { r = as_uint (s.r + 1) }) (next-Holds h)) in
    let step = read_step h in
    elim (Bool-cases (c == control_d)) [
      | inl eof ↦ elim (Bool-cases started) [
        | inl some ↦ rw (step.0, step.1, eof, some, put_back h) (got h)
        | inr first ↦ rw (step.0, step.1, eof, first) (got (next-Holds h))
      ]
      | inr other ↦ elim (Bool-cases (c == newline)) [
        | inl ends ↦ rw (step.0, step.1, other, ends) (got (next-Holds h))
        | inr on ↦ rw (step.0, step.1, other, on) rest
      ]
    ]
