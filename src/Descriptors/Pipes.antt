-- ===== src/Descriptors/Pipes.antt =====
-- `pipealloc` and `sys_pipe`.
use os.Prelude.{
  ℕ, ◌<◌, ◌≡◌, refl, inl, inr, true, Option, none, some, ◌==◌, Outcome, ok, ◌>>=◌, arith,
  Option-cases, List, [], ◌∷◌,
}
use os.Syscall.{Caller, argptr}
use os.File.{Table, filealloc}
use os.Descriptors.{
  PipeEnds, fdalloc, nofile, set_fd, two_closes, pipe_page, second_end, pipealloc, second_fd,
  first_fd, pipe_fds, sys_pipe,
}
use os.Descriptors.Uses.{Counted}
use os.Descriptors.Files.{
  extra, Counted-ext, filealloc-Counted, fileclose-Counted, set_fd-Counted, clear_fd-Counted,
}
use os.Descriptors.Dup.{Keeps, keeps, Takes, all_open, takes, fdalloc_lem}
use os.Descriptors.Open.{in_hand, fields-Counted}

-- With both ends in hand, or with none.
pub data Allocated (o : ℕ → ℕ) (p : Caller) : Outcome PipeEnds → Type 0 where
  no_pipe :
      {left : List _} {t : Table}
      → Counted o p t
      → Allocated o p (ok (record { ends = none; left = left; files = t }))
  new_pipe :
      {f f' : ℕ} {t : Table}
      → Counted (extra f (extra f' o)) p t
      → Allocated o p (ok (record { ends = some (f, f'); left = []; files = t }))

swapped :
    (o : ℕ → ℕ) {p : Caller} {t : Table} (f f' : ℕ)
    → Counted (extra f (extra f' o)) p t
    → Counted (extra f' (extra f o)) p t
swapped o f f' c = Counted-ext (λ i. omega arith) c

two_closes_run :
    {o : ℕ → ℕ} {p : Caller} {t : Table} (f f' : ℕ)
    → Counted (extra f (extra f' o)) p t
    → (e : PipeEnds) × (two_closes f f' t ≡ ok e) × (e.ends ≡ none) × Counted o p e.files
two_closes_run f f' c =
    let (x, t', run, c') = fileclose-Counted f c in
    let (x', t'', run', c'') = fileclose-Counted f' c' in
    (record { ends = none; left = x ∷ x' ∷ []; files = t'' }, rw (run, run') refl, refl, c'')

pipe_page-Allocated :
    {o : ℕ → ℕ} {p : Caller} {t : Table} (f f' : ℕ) (page : Option ℕ)
    → Counted (extra f (extra f' o)) p t
    → Allocated o p (pipe_page f f' t page)
pipe_page-Allocated f f' none c =
    let (x, t', run, c') = fileclose-Counted f c in
    let (x', t'', run', c'') = fileclose-Counted f' c' in rw (run, run') (no_pipe c'')
pipe_page-Allocated {o} {p} {t} f f' (some page) c =
    let c' =
      fields-Counted f (record (t f) { type = _; readable = _; writable = _; pipe = _ }) c
        (in_hand (extra f' o) f c) refl in
    new_pipe (fields-Counted f' _ c' (in_hand (extra f o) f' (swapped o f f' c')) refl)

second_end-Allocated :
    {o : ℕ → ℕ} {p : Caller} {t : Table} (page : Option ℕ) (f : ℕ)
    → Counted (extra f o) p t
    → Allocated o p (second_end page f t (filealloc t))
second_end-Allocated {o} {t = t} page f c = elim (Option-cases (filealloc t)) [
  | inl full ↦ let (x, t', run, c') = fileclose-Counted f c in rw (full, run) (no_pipe c')
  | inr ((f', t'), made) ↦
      rw made (pipe_page-Allocated f f' page (swapped o f' f (filealloc-Counted c made)))
]

pub pipealloc-Allocated :
    {o : ℕ → ℕ} {p : Caller} {t : Table} (page : Option ℕ)
    → Counted o p t
    → Allocated o p (pipealloc page t)
unfolding pipealloc
pipealloc-Allocated {t = t} page c = elim (Option-cases (filealloc t)) [
  | inl full ↦ rw full (no_pipe c)
  | inr ((f, t'), made) ↦ rw made (second_end-Allocated page f (filealloc-Counted c made))
]

module _ (a rf wf : ℕ) where
  second_fd-Keeps :
      {o : ℕ → ℕ} (fd0 : ℕ) (p : Caller) (t : Table) (q : Option (ℕ × Caller))
      → Counted (extra wf o) p t
      → fd0 < nofile
      → p.ofile fd0 ≡ some rf
      → Takes wf p q
      → Keeps o (second_fd a rf wf fd0 p t q)
  second_fd-Keeps fd0 p t none c l at (all_open full) =
      let c' = clear_fd-Counted rf fd0 c l at in
      let (e, run, _, done) = two_closes_run rf wf c' in rw run (keeps done)
  second_fd-Keeps fd0 p t (some _) c l at (takes fd1 m free lowest) =
      let c' = set_fd-Counted wf fd1 c m free in
      keeps (record { counts = c'.counts; idle = c'.idle })

  first_fd-Keeps :
      {o : ℕ → ℕ} (p : Caller) (t : Table) (q : Option (ℕ × Caller))
      → Counted (extra rf (extra wf o)) p t
      → Takes rf p q
      → Keeps o (first_fd a rf wf p t q)
  first_fd-Keeps p t none c (all_open full) =
      let (e, run, _, done) = two_closes_run rf wf c in rw run (keeps done)
  first_fd-Keeps p t (some _) c (takes fd0 m free lowest) =
      let p' = set_fd fd0 (some rf) p in
      let self : p'.ofile fd0 ≡ some rf =
        (let same : (fd0 == fd0) ≡ true = ground arith in rw same refl) in
      second_fd-Keeps fd0 p' t (fdalloc wf p') (set_fd-Counted rf fd0 c m free) m self
        (fdalloc_lem wf p')

pipe_fds-Keeps :
    {o : ℕ → ℕ} (a : ℕ) (p : Caller) (e : Outcome PipeEnds)
    → Allocated o p e
    → Keeps o (e >>= pipe_fds a p)
pipe_fds-Keeps a p _ (no_pipe c) = keeps c
pipe_fds-Keeps a p _ (new_pipe {f} {f'} {t} c) =
    first_fd-Keeps a f f' p t (fdalloc f p) c (fdalloc_lem f p)

pub sys_pipe-Keeps :
    {o : ℕ → ℕ} (page : Option ℕ) (p : Caller) (t : Table)
    → Counted o p t
    → Keeps o (sys_pipe page p t)
unfolding sys_pipe
sys_pipe-Keeps page p t c = elim (Option-cases (argptr 0 8 p)) [
  | inl outside ↦ rw outside (keeps c)
  | inr (a, at) ↦ rw at (pipe_fds-Keeps a p (pipealloc page t) (pipealloc-Allocated page c))
]
