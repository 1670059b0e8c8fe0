-- ===== src/Descriptors.antt =====
-- sysfile.c: the file descriptors of a process, over the table of open files.
--
-- A call takes the calling process and the table, and returns both with its result, `none` for -1.
-- What the last close of a file leaves to do is returned with it. The page that `kalloc` gives to
-- `pipealloc` is an argument, `none` where there is none. Of `sys_open`, the part is here that
-- follows the look-up of the inode, which is another argument; whether it keeps the inode is its
-- result. What a user's array of descriptors holds afterwards is in the process's memory.
pub mod Uses
pub mod Files
pub mod Dup
pub mod Close
pub mod Open
pub mod Pipes
pub mod Calls
mod Tests
use os.Prelude.{
  ℕ, ◌+◌, ◌-◌, ◌*◌, ◌/◌, ◌%◌, Bool, true, false, not, ◌&&◌, ◌||◌, Option, none, some, List, [], ◌∷◌,
  ◌==◌, ltb, if◌then◌else◌, find_index, Outcome, ok, panic, fault, ◌>>=◌,
}
use os.Syscall.{Caller, argint, argptr}
use os.Bmap.{byte_of}
use os.File.{
  File, Table, FileType, fd_pipe, fd_inode, set_file, filealloc, filedup, fileclose, Closing,
}

-- NOFILE
abbrev pub nofile : ℕ
nofile = 16

abbrev pub is_open : Option ℕ → Bool
is_open none = false
is_open (some f) = true

abbrev pub with_file : ℕ → Option ℕ → Option (ℕ × ℕ)
with_file fd none = none
with_file fd (some f) = some (fd, f)

-- The descriptor is an `int`, negative from 2 ^ 31 on.
abbrev pub look_fd : Caller → Option ℕ → Option (ℕ × ℕ)
look_fd p none = none
look_fd p (some fd) =
    if not (ltb fd 2147483648) || not (ltb fd nofile) then none else with_file fd (p.ofile fd)

pub argfd : ℕ → Caller → Option (ℕ × ℕ)
argfd n p = look_fd p (argint n p)

abbrev pub set_fd : ℕ → Option ℕ → Caller → Caller
set_fd fd f p = record p { ofile = λ fd'. if fd == fd' then f else p.ofile fd' }

abbrev pub taken_fd : ℕ → Caller → Option ℕ → Option (ℕ × Caller)
taken_fd f p none = none
taken_fd f p (some fd) = some (fd, set_fd fd (some f) p)

pub fdalloc : ℕ → Caller → Option (ℕ × Caller)
fdalloc f p = taken_fd f p (find_index (λ fd. not (is_open (p.ofile fd))) nofile 0)

-- What a call comes to: its result, what the closes in it leave to do, and the new state.
pub record SyscallResult : Type 0 where
  pub result : Option ℕ
  pub left : List Closing
  pub caller : Caller
  pub files : Table

abbrev pub failed : Caller → Table → Outcome SyscallResult
failed p t = ok (record { result = none; left = []; caller = p; files = t })

abbrev pub dup_end : ℕ → Caller → Table → Option (ℕ × Caller) → Outcome SyscallResult
dup_end f p t none = failed p t
dup_end f p t (some (fd, p')) =
    filedup f t >>= λ t'. ok (record { result = some fd; left = []; caller = p'; files = t' })

abbrev pub dup_file : Caller → Table → Option (ℕ × ℕ) → Outcome SyscallResult
dup_file p t none = failed p t
dup_file p t (some (_, f)) = dup_end f p t (fdalloc f p)

pub sys_dup : Caller → Table → Outcome SyscallResult
sys_dup p t = dup_file p t (argfd 0 p)

abbrev pub close_file : Caller → Table → Option (ℕ × ℕ) → Outcome SyscallResult
close_file p t none = failed p t
close_file p t (some (fd, f)) = fileclose f t >>= λ (c, t').
    ok (record { result = some 0; left = c ∷ []; caller = set_fd fd none p; files = t' })

pub sys_close : Caller → Table → Outcome SyscallResult
sys_close p t = close_file p t (argfd 0 p)

-- The end of `sys_open`: a file and a descriptor for the inode `ip`.
abbrev pub opened : ℕ → Bool → Bool → ℕ → Table → Table
opened ip readable writable f t =
    set_file f
      (record (t f) { type = fd_inode; ip = ip; off = 0; readable = readable; writable = writable })
      t

-- No descriptor is free: the file is closed again.
abbrev pub open_fd :
    ℕ → Bool → Bool → ℕ → Caller → Table → Option (ℕ × Caller) → Outcome SyscallResult
open_fd ip readable writable f p t none = fileclose f t >>= λ (c, t').
    ok (record { result = none; left = c ∷ []; caller = p; files = t' })
open_fd ip readable writable f p t (some (fd, p')) =
    ok
      (record { result = some fd; left = []; caller = p'; files = opened ip readable writable f t })

abbrev pub open_file : ℕ → Bool → Bool → Caller → Table → Option (ℕ × Table) → Outcome SyscallResult
open_file ip readable writable p t none = failed p t
open_file ip readable writable p t (some (f, t')) =
    open_fd ip readable writable f p t' (fdalloc f p)

-- `omode & O_WRONLY` and `omode & O_RDWR`
abbrev pub wants_write : ℕ → Bool
wants_write omode = omode % 2 == 1

abbrev pub wants_both : ℕ → Bool
wants_both omode = omode / 2 % 2 == 1

pub open_inode : ℕ → ℕ → Caller → Table → Outcome SyscallResult
open_inode ip omode p t =
    open_file ip (not (wants_write omode)) (wants_write omode || wants_both omode) p t (filealloc t)

abbrev pub set_int : ℕ → ℕ → (ℕ → ℕ) → ℕ → ℕ
set_int a v m x = if not (ltb x a) && ltb x (a + 4) then byte_of v (x - a) else m x

abbrev pub pipe_end : Bool → ℕ → ℕ → Table → Table
pipe_end writable page f t =
    set_file f
      (record (t f) { type = fd_pipe; readable = not writable; writable = writable; pipe = page }) t

-- The two ends of a pipe, or what the closes of `bad` leave to do.
pub record PipeEnds : Type 0 where
  pub ends : Option (ℕ × ℕ)
  pub left : List Closing
  pub files : Table

abbrev pub one_close : ℕ → Table → Outcome PipeEnds
one_close f t = fileclose f t >>= λ (c, t'). ok (record { ends = none; left = c ∷ []; files = t' })

abbrev pub two_closes : ℕ → ℕ → Table → Outcome PipeEnds
two_closes f f' t = fileclose f t >>= λ (c, t').
    fileclose f' t' >>= λ (c', t''). ok (record { ends = none; left = c ∷ c' ∷ []; files = t'' })

abbrev pub pipe_page : ℕ → ℕ → Table → Option ℕ → Outcome PipeEnds
pipe_page f f' t none = two_closes f f' t
pipe_page f f' t (some page) = ok (record {
  ends = some (f, f');
  left = [];
  files = pipe_end true page f' (pipe_end false page f t);
})

abbrev pub second_end : Option ℕ → ℕ → Table → Option (ℕ × Table) → Outcome PipeEnds
second_end page f t none = one_close f t
second_end page f t (some (f', t')) = pipe_page f f' t' page

abbrev pub first_end : Option ℕ → Table → Option (ℕ × Table) → Outcome PipeEnds
first_end page t none = ok (record { ends = none; left = []; files = t })
first_end page t (some (f, t')) = second_end page f t' (filealloc t')

pub pipealloc : Option ℕ → Table → Outcome PipeEnds
pipealloc page t = first_end page t (filealloc t)

-- The first end has its descriptor; where there is none for the second, both ends are closed.
abbrev pub second_fd : ℕ → ℕ → ℕ → ℕ → Caller → Table → Option (ℕ × Caller) → Outcome SyscallResult
second_fd a rf wf fd0 p t none = two_closes rf wf t >>= λ e.
    ok (record { result = none; left = e.left; caller = set_fd fd0 none p; files = e.files })
second_fd a rf wf fd0 p t (some (fd1, p')) = ok (record {
  result = some 0;
  left = [];
  caller = record p' { memory = set_int (a + 4) fd1 (set_int a fd0 p'.memory) };
  files = t;
})

abbrev pub first_fd : ℕ → ℕ → ℕ → Caller → Table → Option (ℕ × Caller) → Outcome SyscallResult
first_fd a rf wf p t none = two_closes rf wf t >>= λ e.
    ok (record { result = none; left = e.left; caller = p; files = e.files })
first_fd a rf wf p t (some (fd0, p')) = second_fd a rf wf fd0 p' t (fdalloc wf p')

abbrev pub pipe_fds : ℕ → Caller → PipeEnds → Outcome SyscallResult
pipe_fds a p e = elim e.ends [
  | none ↦ ok (record { result = none; left = e.left; caller = p; files = e.files })
  | some (rf, wf) ↦ first_fd a rf wf p e.files (fdalloc rf p)
]

abbrev pub pipe_at : Option ℕ → Caller → Table → Option ℕ → Outcome SyscallResult
pipe_at page p t none = failed p t
pipe_at page p t (some a) = pipealloc page t >>= pipe_fds a p

pub sys_pipe : Option ℕ → Caller → Table → Outcome SyscallResult
sys_pipe page p t = pipe_at page p t (argptr 0 8 p)
