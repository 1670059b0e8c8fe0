-- ===== src/Console/Editing.antt =====
-- The lines as `consoleintr` edits them.
use os.Prelude.{
  ℕ, zero, suc, ◌+◌, ◌-◌, ◌%◌, ◌≤◌, ◌<◌, ◌≡◌, ◌≢◌, refl, ◌∙◌, sym, ap, inl, inr, true, false, not,
  ◌&&◌, ◌||◌, List, [], ◌∷◌, ◌==◌, ltb, if◌then◌else◌, length, get_or, arith, Bool-cases,
}
use os.Console.{
  Input, distance, input_buf, newline, control_h, control_p, control_u, delete, as_newline, back,
  last_char, kill_line, type_char, consoleintr,
}
use os.Console.Window.{Lines, total, Holds}
use os.Console.Keys.{without_last, press, press_all}
use os.Console.Appending.{put_char-Holds}

without_last-none : (cs : List ℕ) → length cs ≡ 0 → without_last cs ≡ []
without_last-none [] e = refl
without_last-none (c ∷ cs) e = absurd (omega arith)

length-without_last : (cs : List ℕ) → length (without_last cs) ≡ length cs - 1
length-without_last [] = refl
length-without_last (c ∷ []) = refl
length-without_last (c ∷ d ∷ cs) = omega (arith, length-without_last (d ∷ cs))

get_or-without_last :
    (cs : List ℕ) (i : ℕ) → i + 1 < length cs → get_or (without_last cs) i 0 ≡ get_or cs i 0
get_or-without_last [] i l = absurd (omega arith)
get_or-without_last (c ∷ []) i l = absurd (omega arith)
get_or-without_last (c ∷ d ∷ cs) zero l = refl
get_or-without_last (c ∷ d ∷ cs) (suc i) l = get_or-without_last (d ∷ cs) i (omega arith)

module _ {s : Input} {l : Lines} (h : Holds s l) where
  empty_line : (s.e == s.w) ≡ true → length l.line ≡ 0
  empty_line e = let f = h.fits in let a = h.w_at in let b = h.e_at in ground arith

  some_line : (s.e == s.w) ≡ false → 0 < length l.line
  some_line e = let f = h.fits in let a = h.w_at in let b = h.e_at in ground arith

  back-Holds :
      0 < length l.line → Holds (back s) (record { ready = l.ready; line = without_last l.line })
  back-Holds some =
      let n = length-without_last l.line in
      let f = h.fits in
      let b = h.e_at in
      record {
        fits = omega arith;
        r_fits = h.r_fits;
        w_at = h.w_at;
        e_at = omega (arith, h.r_fits);
        readable = h.readable;
        typed = λ i li. h.typed i (omega arith) ∙ sym (get_or-without_last l.line i (omega arith));
        one_line = λ i li e.
            h.one_line i (omega arith) (sym (get_or-without_last l.line i (omega arith)) ∙ e);
      }

  last_char_lem : 0 < length l.line → last_char s ≢ newline
  last_char_lem some e =
      let f = h.fits in
      let a = h.w_at in
      let b = h.e_at in
      let at : distance s.e 1 % 128 ≡ (s.w + (length l.line - 1)) % 128 = omega (arith, h.r_fits) in
      let typed = h.typed (length l.line - 1) (omega arith) in
      h.one_line (length l.line - 1) (omega arith) (sym typed ∙ ap s.buf (sym at) ∙ e)

-- A line without characters is the empty line.
shortened :
    {s : Input} {l : Lines}
    → Holds s l
    → length l.line ≡ 0
    → Holds s (record { ready = l.ready; line = [] })
shortened {s} {l} h e =
    let f = h.fits in
    let b = h.e_at in
    record {
      fits = omega arith;
      r_fits = h.r_fits;
      w_at = h.w_at;
      e_at = omega (arith, h.r_fits);
      readable = h.readable;
      typed = λ i li. absurd (omega arith);
      one_line = λ i li. absurd (omega arith);
    }

kill_line-Holds :
    (n : ℕ) {s : Input} {l : Lines}
    → Holds s l
    → length l.line ≤ n
    → Holds (kill_line n s) (record { ready = l.ready; line = [] })
unfolding kill_line
kill_line-Holds zero {s} {l} h b = shortened h (omega arith)
kill_line-Holds (suc n) {s} {l} h b = elim (Bool-cases (s.e == s.w)) [
  | inl same ↦
      let stop : kill_line (suc n) s ≡ s = rw same refl in rw stop (shortened h (empty_line h same))
  | inr more ↦
      let other : (last_char s == newline) ≡ false =
        ground (arith, last_char_lem h (some_line h more)) in
      let step : kill_line (suc n) s ≡ kill_line n (back s) = rw (more, other) refl in
      rw step (
        kill_line-Holds n (back-Holds h (some_line h more))
          (omega (arith, length-without_last l.line, b)))
]

backspace-Holds :
    {s : Input} {l : Lines}
    → Holds s l
    → Holds
        (if not (s.e == s.w) then back s else s)
        (record { ready = l.ready; line = without_last l.line })
backspace-Holds {s} {l} h = elim (Bool-cases (s.e == s.w)) [
  | inl same ↦
      let none_typed : without_last l.line ≡ [] = without_last-none l.line (empty_line h same) in
      rw (same, none_typed) (shortened h (empty_line h same))
  | inr more ↦ rw more (back-Holds h (some_line h more))
]

room_lem : {s : Input} {l : Lines} → Holds s l → distance s.e s.r ≡ total l
room_lem {s} {l} h = let f = h.fits in let b = h.e_at in omega (arith, h.r_fits)

type_char-Holds : (c : ℕ) {s : Input} {l : Lines} → Holds s l → Holds (type_char c s) (press c l)
unfolding type_char
type_char-Holds c {s} {l} h = elim (Bool-cases (c == control_p)) [
  | inl p ↦ rw p h
  | inr not_p ↦ elim (Bool-cases (c == control_u)) [
    | inl u ↦ rw (not_p, u) (kill_line-Holds input_buf h (omega (arith, h.fits)))
    | inr not_u ↦ elim (Bool-cases (c == control_h || c == delete)) [
      | inl b ↦ rw (not_p, not_u, b) (backspace-Holds h)
      | inr not_b ↦ elim (Bool-cases (not (c == 0) && ltb (total l) input_buf)) [
        | inl fits ↦
            rw (not_p, not_u, not_b, room_lem h, fits)
              (put_char-Holds (as_newline c) h (ground arith))
        | inr full ↦ rw (not_p, not_u, not_b, room_lem h, full) h
      ]
    ]
  ]
]

-- Of a buffer that holds lines to be read and a line being edited, whatever characters come: it then
-- holds what the keys make of these, one after the other.
pub consoleintr_lem :
    (cs : List ℕ) {s : Input} {l : Lines} → Holds s l → Holds (consoleintr cs s) (press_all cs l)
unfolding consoleintr
consoleintr_lem [] h = h
consoleintr_lem (c ∷ cs) h = consoleintr_lem cs (type_char-Holds c h)
