-- ===== src/File/Counts.antt =====
-- A file's reference count is the number of its handles, and the last handle's close ends it.
use os.Prelude.{
  ℕ, ◌+◌, ◌-◌, ◌<◌, ◌≡◌, ◌∙◌, sym, ap, inl, inr, true, false, some, none, ◌==◌, ltb, if◌then◌else◌,
  Outcome, ok, panic, fault, arith, Bool-cases, Option-cases, find_index, find_index-Found, Option,
}
use os.File.{
  File, Table, nfile, set_file, found, filealloc, filedup, fileclose, Closing, still_open, closing,
  fd_none,
}

abbrev pub held_with : ℕ → ℕ → (ℕ → ℕ) → ℕ → ℕ
held_with i n held j = if i == j then n else held j

-- The tables that come about, with the number of handles held on each file: from a table in which
-- no file is in use, handles are got by `filealloc` and `filedup` and given up by `fileclose`.
pub data Reach : Table → (ℕ → ℕ) → Type 0 where
  start : (t : Table) → ((i : ℕ) → (t i).ref ≡ 0) → Reach t (λ i. 0)
  allocates :
      (t t' : Table) (held : ℕ → ℕ) (i : ℕ)
      → Reach t held
      → filealloc t ≡ some (i, t')
      → Reach t' (held_with i (held i + 1) held)
  duplicates :
      (t t' : Table) (held : ℕ → ℕ) (i : ℕ)
      → Reach t held
      → 0 < held i
      → filedup i t ≡ ok t'
      → Reach t' (held_with i (held i + 1) held)
  closes :
      (t t' : Table) (held : ℕ → ℕ) (i : ℕ) (c : Closing)
      → Reach t held
      → 0 < held i
      → fileclose i t ≡ ok (c, t')
      → Reach t' (held_with i (held i - 1) held)

abbrev unsome : ℕ × Table → Option (ℕ × Table) → ℕ × Table
unsome d none = d
unsome d (some x) = x

abbrev result {ℓ} : {A : Type ℓ} → A → Outcome A → A
result d (ok x) = x
result d (panic m) = d
result d fault = d

abbrev left_after : Table → Outcome (Closing × Table) → Table
left_after t (ok (c, t')) = t'
left_after t (panic m) = t
left_after t fault = t

-- What a change of one file's count does to all counts.
set_file-ref :
    (t : Table) (held : ℕ → ℕ) (i n : ℕ) (f : File)
    → ((j : ℕ) → (t j).ref ≡ held j)
    → f.ref ≡ n
    → (j : ℕ) → (set_file i f t j).ref ≡ held_with i n held j
set_file-ref t held i n f h e j = elim (Bool-cases (i == j)) [
  | inl same ↦ rw same e
  | inr other ↦ rw other (h j)
]

-- The file that `filealloc` gives was not in use, and nothing but its count changes.
pub filealloc_lem :
    (t t' : Table) (i : ℕ)
    → filealloc t ≡ some (i, t')
    → ((t i).ref ≡ 0) × (t' ≡ set_file i (record (t i) { ref = 1 }) t)
unfolding filealloc
filealloc_lem t t' i e = elim (Option-cases (find_index (λ j. (t j).ref == 0) nfile 0)) [
  | inl full ↦ let never = sym (ap (found t) full) ∙ e in absurd (ground (arith, never))
  | inr (k, hit) ↦
      let same : (k, set_file k (record (t k) { ref = 1 }) t) ≡ (i, t') =
        ap (unsome (i, t')) (sym (ap (found t) hit) ∙ e) in
      let at : k ≡ i = ap (λ x. x.0) same in
      let passes = (find_index-Found (λ j. (t j).ref == 0) nfile 0 k hit).passes in
      (
        ap (λ j. (t j).ref) (sym at) ∙ ground (arith, passes),
        sym (ap (λ x. x.1) same) ∙ ap (λ j. set_file j (record (t j) { ref = 1 }) t) at,
      )
]

-- A held file can be duplicated and closed: neither panics. The close is the last exactly where
-- one handle is held.
pub filedup_run :
    (t : Table) (i : ℕ)
    → 0 < (t i).ref
    → filedup i t ≡ ok (set_file i (record (t i) { ref = (t i).ref + 1 }) t)
unfolding filedup
filedup_run t i l = let test : ltb (t i).ref 1 ≡ false = ground arith in rw test

pub fileclose_more :
    (t : Table) (i : ℕ)
    → 1 < (t i).ref
    → fileclose i t ≡ ok (still_open, set_file i (record (t i) { ref = (t i).ref - 1 }) t)
unfolding fileclose
fileclose_more t i l =
    let test : ltb (t i).ref 1 ≡ false = ground arith in
    let more : ltb 0 ((t i).ref - 1) ≡ true = ground arith in rw (test, more)

pub fileclose_last :
    (t : Table) (i : ℕ)
    → (t i).ref ≡ 1
    → fileclose i t ≡ ok (closing (t i), set_file i (record (t i) { ref = 0; type = fd_none }) t)
unfolding fileclose
fileclose_last t i e =
    let test : ltb (t i).ref 1 ≡ false = ground arith in
    let last : ltb 0 ((t i).ref - 1) ≡ false = ground arith in rw (test, last)

-- In every table that comes about, a file's count is the number of handles held on it.
pub Reach-counted : (t : Table) (held : ℕ → ℕ) → Reach t held → (i : ℕ) → (t i).ref ≡ held i
Reach-counted _ _ (start t h) = h
Reach-counted _ _ (allocates t t' held i run e) = λ j.
    let (free, made) = filealloc_lem t t' i e in
    let counted = Reach-counted t held run in
    ap (λ u. (u j).ref) made
    ∙ set_file-ref t held i (held i + 1) (record (t i) { ref = 1 }) counted
        (omega (arith, free, counted i)) j
Reach-counted _ _ (duplicates t t' held i run l e) = λ j.
    let counted = Reach-counted t held run in
    let made = ap (result t) (sym (filedup_run t i (omega (arith, l, counted i))) ∙ e) in
    ap (λ u. (u j).ref) (sym made)
    ∙ set_file-ref t held i (held i + 1) (record (t i) { ref = (t i).ref + 1 }) counted
        (omega (arith, counted i)) j
Reach-counted _ _ (closes t t' held i c run l e) =
    let counted = Reach-counted t held run in
    elim (Bool-cases (held i == 1)) [
      | inl last ↦ λ j.
          let run' = fileclose_last t i (ground (arith, last, counted i)) in
          let made = ap (left_after t) (sym run' ∙ e) in
          ap (λ u. (u j).ref) (sym made)
          ∙ set_file-ref t held i (held i - 1) (record (t i) { ref = 0; type = fd_none }) counted
              (ground (arith, last)) j
      | inr more ↦ λ j.
          let run' = fileclose_more t i (ground (arith, more, l, counted i)) in
          let made = ap (left_after t) (sym run' ∙ e) in
          ap (λ u. (u j).ref) (sym made)
          ∙ set_file-ref t held i (held i - 1) (record (t i) { ref = (t i).ref - 1 }) counted
              (omega (arith, counted i)) j
    ]

-- In every table that comes about, the close of a held file does not panic: with more handles held
-- the file stays open, and with the last one what is left to do for the file's type is done.
pub fileclose_lem :
    (t : Table) (held : ℕ → ℕ) (i : ℕ)
    → Reach t held
    → 0 < held i
    → (t' : Table) × (fileclose i t ≡ ok (if held i == 1 then closing (t i) else still_open, t'))
      × Reach t' (held_with i (held i - 1) held)
fileclose_lem t held i r l =
    let counted = Reach-counted t held r in
    elim (Bool-cases (held i == 1)) [
      | inl last ↦
          let run = fileclose_last t i (ground (arith, last, counted i)) in
          (_, rw last run, closes t _ held i _ r l run)
      | inr more ↦
          let run = fileclose_more t i (ground (arith, more, l, counted i)) in
          (_, rw more run, closes t _ held i _ r l run)
    ]
