-- ===== src/Console/Appending.antt =====
-- A character at the end of the line, as `put_char` stores it.
use os.Prelude.{
  as_uint, ℕ, zero, suc, ◌+◌, ◌-◌, ◌%◌, ◌≤◌, ◌<◌, ◌≡◌, ◌≢◌, refl, ◌∙◌, sym, ap, inl, inr, true,
  false, ◌||◌, List, [], ◌∷◌, ◌++◌, ◌==◌, ltb, length, length-append, get_or, arith, Bool-cases,
}
use os.Console.{Input, input_buf, newline, control_d, put_char, set_char}
use os.Console.Window.{Lines, total, Holds}
use os.Console.Keys.{append_char}

pub get_or-append_left :
    (xs ys : List ℕ) (i : ℕ) → i < length xs → get_or (xs ++ ys) i 0 ≡ get_or xs i 0
get_or-append_left [] ys i l = absurd (omega arith)
get_or-append_left (x ∷ xs) ys zero l = refl
get_or-append_left (x ∷ xs) ys (suc i) l = get_or-append_left xs ys i (omega arith)

pub get_or-append_right :
    (xs ys : List ℕ) (i : ℕ) → get_or (xs ++ ys) (length xs + i) 0 ≡ get_or ys i 0
get_or-append_right [] ys i = ap (λ j. get_or ys j 0) (omega arith)
get_or-append_right (x ∷ xs) ys i =
    let e : suc (length xs) + i ≡ suc (length xs + i) = omega arith in
    rw e (get_or-append_right xs ys i)

-- The character is stored, and the line is not over.
abbrev stored : ℕ → Input → Input
stored c s = record s { buf = set_char (s.e % input_buf) c s.buf; e = as_uint (s.e + 1) }

module _ {s : Input} {l : Lines} (c : ℕ) (h : Holds s l) (room : total l < 128) where
  kept_char :
      (i : ℕ)
      → i < total l
      → set_char (s.e % input_buf) c s.buf ((s.r + i) % 128) ≡ s.buf ((s.r + i) % 128)
  kept_char i li =
      let b = h.e_at in
      let other : ((s.r + i) % 128 == s.e % input_buf) ≡ false = ground (arith, h.r_fits) in
      rw other refl

  new_char : set_char (s.e % input_buf) c s.buf ((s.w + length l.line) % 128) ≡ c
  new_char =
      let a = h.w_at in
      let b = h.e_at in
      let same : ((s.w + length l.line) % 128 == s.e % input_buf) ≡ true =
        ground (arith, h.r_fits) in
      rw same refl

  kept_typed :
      (i : ℕ)
      → i < length l.line
      → set_char (s.e % input_buf) c s.buf ((s.w + i) % 128) ≡ get_or l.line i 0
  kept_typed i li =
      let a = h.w_at in
      let at : (s.w + i) % 128 ≡ (s.r + (length l.ready + i)) % 128 = omega (arith, h.r_fits) in
      ap (set_char (s.e % input_buf) c s.buf) at
      ∙ kept_char (length l.ready + i) (omega arith)
      ∙ ap s.buf (sym at)
      ∙ h.typed i li

  typed_all :
      (i : ℕ)
      → i < length l.line + 1
      → set_char (s.e % input_buf) c s.buf ((s.w + i) % 128) ≡ get_or (l.line ++ (c ∷ [])) i 0
  typed_all i li = elim (Bool-cases (ltb i (length l.line))) [
    | inl old ↦
        let lo : i < length l.line = ground arith in
        kept_typed i lo ∙ sym (get_or-append_left l.line (c ∷ []) i lo)
    | inr new ↦
        let at : i ≡ length l.line = ground arith in
        let last : get_or (l.line ++ (c ∷ [])) i 0 ≡ c =
          ap (λ j. get_or (l.line ++ (c ∷ [])) j 0) (omega arith)
          ∙ get_or-append_right l.line (c ∷ []) 0 in
        rw at new_char ∙ sym last
  ]

  length_longer : length (l.line ++ (c ∷ [])) ≡ length l.line + 1
  length_longer = length-append l.line (c ∷ [])

  longer-Holds : c ≢ 10 → Holds (stored c s) (record { ready = l.ready; line = l.line ++ (c ∷ []) })
  longer-Holds other =
      let n = length_longer in
      let b = h.e_at in
      record {
        fits = omega arith;
        r_fits = h.r_fits;
        w_at = h.w_at;
        e_at = omega (arith, h.r_fits);
        readable = λ i li. kept_char i (omega arith) ∙ h.readable i li;
        typed = λ i li. typed_all i (omega arith);
        one_line = λ i li e. elim (Bool-cases (ltb i (length l.line))) [
          | inl old ↦
              let lo : i < length l.line = ground arith in
              h.one_line i lo (sym (get_or-append_left l.line (c ∷ []) i lo) ∙ e)
          | inr new ↦
              let at : i ≡ length l.line + 0 = ground arith in
              other (
                sym (
                  ap (λ j. get_or (l.line ++ (c ∷ [])) j 0) at
                  ∙ get_or-append_right l.line (c ∷ []) 0)
                ∙ e)
        ];
      }

  ended_char :
      (i : ℕ)
      → i < length l.ready + (length l.line + 1)
      → set_char (s.e % input_buf) c s.buf ((s.r + i) % 128)
        ≡ get_or (l.ready ++ (l.line ++ (c ∷ []))) i 0
  ended_char i li = elim (Bool-cases (ltb i (length l.ready))) [
    | inl old ↦
        let lo : i < length l.ready = ground arith in
        kept_char i (omega arith)
        ∙ h.readable i lo
        ∙ sym (get_or-append_left l.ready (l.line ++ (c ∷ [])) i lo)
    | inr new ↦
        let hi : length l.ready ≤ i = ground arith in
        let a = h.w_at in
        let at : (s.r + i) % 128 ≡ (s.w + (i - length l.ready)) % 128 = omega (arith, h.r_fits) in
        ap (set_char (s.e % input_buf) c s.buf) at
        ∙ typed_all (i - length l.ready) (omega arith)
        ∙ sym (get_or-append_right l.ready (l.line ++ (c ∷ [])) (i - length l.ready))
        ∙ ap (λ j. get_or (l.ready ++ (l.line ++ (c ∷ []))) j 0) (omega arith)
  ]

  ended-Holds :
      Holds
        (record (stored c s) { w = as_uint (s.e + 1) })
        (record { ready = l.ready ++ (l.line ++ (c ∷ [])); line = [] })
  ended-Holds =
      let n = length_longer in
      let m = length-append l.ready (l.line ++ (c ∷ [])) in
      let b = h.e_at in
      record {
        fits = omega arith;
        r_fits = h.r_fits;
        w_at = omega (arith, h.r_fits);
        e_at = omega (arith, h.r_fits);
        readable = λ i li. ended_char i (omega arith);
        typed = λ i li. absurd (omega arith);
        one_line = λ i li. absurd (omega arith);
      }

  full_lem :
      (as_uint (s.e + 1) == as_uint (s.r + input_buf))
      ≡ (length l.ready + length (l.line ++ (c ∷ [])) == input_buf)
  full_lem = let n = length_longer in let b = h.e_at in ground (arith, h.r_fits)

  pub put_char-Holds : Holds (put_char c s) (append_char c l)
  put_char-Holds =
      let full = full_lem in
      elim (Bool-cases (
        c == newline
        || (c == control_d || length l.ready + length (l.line ++ (c ∷ [])) == input_buf))) [
          | inl over ↦ rw (full, over) ended-Holds
          | inr on ↦ let other : c ≢ 10 = λ e. ground arith in rw (full, on) (longer-Holds other)
        ]
