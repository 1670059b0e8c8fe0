-- ===== src/Descriptors/Open.antt =====
-- The file and the descriptor that `sys_open` makes.
use os.Prelude.{
  ℕ, ◌+◌, ◌<◌, ◌≡◌, refl, inl, inr, Bool, not, ◌||◌, Option, none, some, arith, Option-cases,
}
use os.Syscall.{Caller}
use os.File.{File, Table, set_file, filealloc}
use os.Descriptors.{fdalloc, open_fd, open_file, open_inode, wants_write, wants_both}
use os.Descriptors.Uses.{Counted}
use os.Descriptors.Files.{
  extra, set_file-Counted, filealloc-Counted, fileclose-Counted, set_fd-Counted,
}
use os.Descriptors.Dup.{Keeps, keeps, Takes, all_open, takes, fdalloc_lem}

-- A file in hand is in use.
pub in_hand : (o : ℕ → ℕ) {p : Caller} {t : Table} (f : ℕ) → Counted (extra f o) p t → 0 < (t f).ref
in_hand o f c = let same : extra f o f ≡ o f + 1 = ground arith in omega (arith, c.counts f)

-- Its fields may be set.
pub fields-Counted :
    {o : ℕ → ℕ} {p : Caller} {t : Table} (f : ℕ) (file : File)
    → Counted o p t
    → 0 < (t f).ref
    → file.ref ≡ (t f).ref
    → Counted o p (set_file f file t)
fields-Counted f file c l e =
    set_file-Counted f file c (λ i n. refl) (omega arith) (λ z. absurd (omega arith))

module _ (ip : ℕ) (readable writable : Bool) where
  open_fd-Keeps :
      (o : ℕ → ℕ) (f : ℕ) (p : Caller) (t : Table) (q : Option (ℕ × Caller))
      → Counted (extra f o) p t
      → Takes f p q
      → Keeps o (open_fd ip readable writable f p t q)
  open_fd-Keeps o f p t none c (all_open full) =
      let (closing, t', run, c') = fileclose-Counted f c in rw run (keeps c')
  open_fd-Keeps o f p t (some _) c (takes fd m free lowest) =
      let c' = fields-Counted f _ c (in_hand o f c) refl in keeps (set_fd-Counted f fd c' m free)

  open_file-Keeps :
      {o : ℕ → ℕ} (p : Caller) (t : Table)
      → Counted o p t
      → Keeps o (open_file ip readable writable p t (filealloc t))
  open_file-Keeps {o} p t c = elim (Option-cases (filealloc t)) [
    | inl full ↦ rw full (keeps c)
    | inr ((f, t'), made) ↦
        rw made (open_fd-Keeps o f p t' (fdalloc f p) (filealloc-Counted c made) (fdalloc_lem f p))
  ]

pub open_inode-Keeps :
    {o : ℕ → ℕ} (ip omode : ℕ) (p : Caller) (t : Table)
    → Counted o p t
    → Keeps o (open_inode ip omode p t)
unfolding open_inode
open_inode-Keeps ip omode p t c =
    open_file-Keeps ip (not (wants_write omode)) (wants_write omode || wants_both omode) p t c
