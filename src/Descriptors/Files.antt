-- ===== src/Descriptors/Files.antt =====
-- A reference in hand: what the operations on files and on descriptors do to the counts.
use os.Prelude.{
  ℕ, ◌+◌, ◌-◌, ◌<◌, ◌≡◌, ◌≢◌, refl, sym, ap, inl, inr, true, false, none, some, ◌==◌, arith,
  Bool-cases, ok,
}
use os.Syscall.{Caller}
use os.File.{File, Table, fd_none, set_file, filealloc, filedup, fileclose, Closing}
use os.File.Counts.{filealloc_lem, filedup_run, fileclose_more, fileclose_last}
use os.Descriptors.{nofile, set_fd}
use os.Descriptors.Uses.{points_to, uses, Counted, uses-set_fd, uses-some}

-- One more reference to the file.
abbrev pub extra : ℕ → (ℕ → ℕ) → ℕ → ℕ
extra f others i = others i + points_to (some f) i

pub Counted-ext :
    {o o' : ℕ → ℕ} {p : Caller} {t : Table}
    → ((i : ℕ) → o i ≡ o' i)
    → Counted o p t
    → Counted o' p t
Counted-ext e c = record { counts = λ i. omega (arith, c.counts i, e i); idle = c.idle }

-- A change of one file that leaves it in use or without a type.
pub set_file-Counted :
    {o o' : ℕ → ℕ} {p : Caller} {t : Table} (f : ℕ) (file : File)
    → Counted o p t
    → ((i : ℕ) → i ≢ f → o' i ≡ o i)
    → file.ref + o f ≡ (t f).ref + o' f
    → (file.ref ≡ 0 → file.type ≡ fd_none)
    → Counted o' p (set_file f file t)
set_file-Counted {o} {o'} {p} {t} f file c others e idle = record {
  counts = λ i. elim (Bool-cases (f == i)) [
    | inl same ↦
        let at : f ≡ i = ground arith in
        let here : file.ref ≡ o' f + uses nofile p.ofile f = omega (arith, c.counts f) in
        rw (same, ← at) here
    | inr other ↦ rw other (omega (arith, c.counts i, others i (λ e. ground arith)))
  ];
  idle =
      λ i. elim (Bool-cases (f == i)) [ inl same ↦ rw same idle | inr other ↦ rw other (c.idle i) ];
}

other_file : (f : ℕ) (o : ℕ → ℕ) (i : ℕ) → i ≢ f → extra f o i ≡ o i
other_file f o i n = let other : (f == i) ≡ false = ground arith in rw other (omega arith)

same_file : (f : ℕ) (o : ℕ → ℕ) → extra f o f ≡ o f + 1
same_file f o = let same : (f == f) ≡ true = ground arith in rw same refl

pub filealloc-Counted :
    {o : ℕ → ℕ} {p : Caller} {t t' : Table} {f : ℕ}
    → Counted o p t
    → filealloc t ≡ some (f, t')
    → Counted (extra f o) p t'
filealloc-Counted {o} {p} {t} {t'} {f} c e =
    let (free, made) = filealloc_lem t t' f e in
    let none_held = c.counts f in
    rw made (
      set_file-Counted f (record (t f) { ref = 1 }) c (other_file f o)
        (omega (arith, same_file f o)) (λ z. absurd (omega arith)))

pub filedup-Counted :
    {o : ℕ → ℕ} {p : Caller} {t : Table} (f : ℕ)
    → Counted o p t
    → 0 < (t f).ref
    → (t' : Table) × (filedup f t ≡ ok t') × Counted (extra f o) p t'
filedup-Counted {o} {p} {t} f c l = (
  _,
  filedup_run t f l,
  set_file-Counted f (record (t f) { ref = (t f).ref + 1 }) c (other_file f o)
      (omega (arith, same_file f o)) (λ z. absurd (omega arith)),
)

above_one : (n : ℕ) → (n == 1) ≡ false → 0 < n → 1 < n
above_one n e l = ground arith

pub fileclose-Counted :
    {o : ℕ → ℕ} {p : Caller} {t : Table} (f : ℕ)
    → Counted (extra f o) p t
    → (c : Closing) × (t' : Table) × (fileclose f t ≡ ok (c, t')) × Counted o p t'
fileclose-Counted {o} {p} {t} f c =
    let held = c.counts f in
    elim (Bool-cases ((t f).ref == 1)) [
      | inl last ↦ (
        _,
        _,
        fileclose_last t f (ground arith),
        set_file-Counted f (record (t f) { ref = 0; type = fd_none }) c
            (λ i n. sym (other_file f o i n)) (ground (arith, same_file f o)) (λ z. refl),
      )
      | inr more ↦
          let some_more = above_one (t f).ref more (omega (arith, same_file f o)) in
          (
            _,
            _,
            fileclose_more t f some_more,
            set_file-Counted f (record (t f) { ref = (t f).ref - 1 }) c
                (λ i n. sym (other_file f o i n)) (omega (arith, same_file f o))
                (λ z. absurd (omega arith)),
          )
    ]

-- A descriptor takes over the reference in hand, and gives it back.
pub set_fd-Counted :
    {o : ℕ → ℕ} {p : Caller} {t : Table} (f fd : ℕ)
    → Counted (extra f o) p t
    → fd < nofile
    → p.ofile fd ≡ none
    → Counted o (set_fd fd (some f) p) t
set_fd-Counted {o} {p} {t} f fd c l free = record {
  counts = λ i.
      let now = uses-set_fd nofile fd (some f) p i l in
      let old : points_to (p.ofile fd) i ≡ 0 = ap (λ k. points_to k i) free in
      omega (arith, c.counts i);
  idle = c.idle;
}

pub clear_fd-Counted :
    {o : ℕ → ℕ} {p : Caller} {t : Table} (f fd : ℕ)
    → Counted o p t
    → fd < nofile
    → p.ofile fd ≡ some f
    → Counted (extra f o) (set_fd fd none p) t
clear_fd-Counted {o} {p} {t} f fd c l at = record {
  counts = λ i.
      let now = uses-set_fd nofile fd none p i l in
      let old : points_to (p.ofile fd) i ≡ points_to (some f) i = ap (λ k. points_to k i) at in
      omega (arith, c.counts i);
  idle = c.idle;
}

pub open-ref :
    {o : ℕ → ℕ} {p : Caller} {t : Table} (f fd : ℕ)
    → Counted o p t
    → fd < nofile
    → p.ofile fd ≡ some f
    → 0 < (t f).ref
open-ref {o} {p} f fd c l at = omega (arith, c.counts f, uses-some nofile fd f p.ofile l at)
