-- ===== src/Descriptors/Dup.antt =====
-- `argfd`, `fdalloc` and `sys_dup`.
use os.Prelude.{
  ℕ, ◌<◌, ◌≡◌, refl, inl, inr, true, false, not, Option, none, some, ltb, arith, Bool-cases,
  Option-cases, Outcome, ok, find_index, find_index-Found, find_index-none,
}
use os.Syscall.{Caller, argint}
use os.File.{Table}
use os.Descriptors.{
  SyscallResult, nofile, is_open, with_file, look_fd, argfd, set_fd, fdalloc, dup_end, dup_file,
  sys_dup,
}
use os.Descriptors.Uses.{Counted}
use os.Descriptors.Files.{filedup-Counted, set_fd-Counted, open-ref}

-- The call came back, and the counts are right.
pub data Keeps (others : ℕ → ℕ) : Outcome SyscallResult → Type 0 where
  keeps : {r : SyscallResult} → Counted others r.caller r.files → Keeps others (ok r)

-- The descriptor is open.
pub data IsFd (p : Caller) : Option (ℕ × ℕ) → Type 0 where
  bad_fd : IsFd p none
  good_fd : (fd f : ℕ) → fd < nofile → p.ofile fd ≡ some f → IsFd p (some (fd, f))

with_file_lem : (p : Caller) (fd : ℕ) → fd < nofile → IsFd p (with_file fd (p.ofile fd))
with_file_lem p fd l = elim (Option-cases (p.ofile fd)) [
  | inl closed ↦ rw closed bad_fd
  | inr (f, at) ↦ rw at (good_fd fd f l at)
]

look_fd_lem : (p : Caller) (a : Option ℕ) → IsFd p (look_fd p a)
look_fd_lem p none = bad_fd
look_fd_lem p (some fd) = elim (Bool-cases (ltb fd nofile)) [
  | inl small ↦
      let nonnegative : ltb fd 2147483648 ≡ true = ground arith in
      rw (nonnegative, small) (with_file_lem p fd (ground arith))
  | inr large ↦ elim (Bool-cases (ltb fd 2147483648)) [
    | inl lo ↦ rw (lo, large) bad_fd
    | inr hi ↦ rw hi bad_fd
  ]
]

pub argfd_lem : (n : ℕ) (p : Caller) → IsFd p (argfd n p)
unfolding argfd
argfd_lem n p = look_fd_lem p (argint n p)

closed_none : (o : Option ℕ) → not (is_open o) ≡ true → o ≡ none
closed_none none e = refl
closed_none (some f) e = absurd (ground arith)

-- The lowest descriptor that is not open is taken, if there is one.
pub data Takes (f : ℕ) (p : Caller) : Option (ℕ × Caller) → Type 0 where
  all_open : ((fd : ℕ) → fd < nofile → not (is_open (p.ofile fd)) ≡ false) → Takes f p none
  takes :
      (fd : ℕ)
      → fd < nofile
      → p.ofile fd ≡ none
      → ((lower : ℕ) → lower < fd → not (is_open (p.ofile lower)) ≡ false)
      → Takes f p (some (fd, set_fd fd (some f) p))

pub fdalloc_lem : (f : ℕ) (p : Caller) → Takes f p (fdalloc f p)
unfolding fdalloc
fdalloc_lem f p =
    let closed = λ (fd : ℕ). not (is_open (p.ofile fd)) in
    elim (Option-cases (find_index closed nofile 0)) [
      | inl full ↦
          rw full
            (all_open λ fd l. find_index-none closed nofile 0 full fd (omega arith) (omega arith))
      | inr (fd, hit) ↦
          let found = find_index-Found closed nofile 0 fd hit in
          rw hit (
            takes fd (omega (arith, found.in_range)) (closed_none (p.ofile fd) found.passes)
              (λ j l. found.first j (omega arith) l))
    ]

dup_end-Keeps :
    {o : ℕ → ℕ} (f : ℕ) (p : Caller) (t : Table) (q : Option (ℕ × Caller))
    → Counted o p t
    → 0 < (t f).ref
    → Takes f p q
    → Keeps o (dup_end f p t q)
dup_end-Keeps f p t none c l (all_open full) = keeps c
dup_end-Keeps f p t (some (fd, _)) c l (takes fd' m free lowest) =
    let (t', run, c') = filedup-Counted f c l in rw run (keeps (set_fd-Counted f fd' c' m free))

dup_file-Keeps :
    {o : ℕ → ℕ} (p : Caller) (t : Table) (a : Option (ℕ × ℕ))
    → Counted o p t
    → IsFd p a
    → Keeps o (dup_file p t a)
dup_file-Keeps p t none c bad_fd = keeps c
dup_file-Keeps p t (some _) c (good_fd fd f l at) =
    dup_end-Keeps f p t (fdalloc f p) c (open-ref f fd c l at) (fdalloc_lem f p)

pub sys_dup-Keeps : {o : ℕ → ℕ} (p : Caller) (t : Table) → Counted o p t → Keeps o (sys_dup p t)
unfolding sys_dup
sys_dup-Keeps p t c = dup_file-Keeps p t (argfd 0 p) c (argfd_lem 0 p)
