-- ===== src/Descriptors/Close.antt =====
-- `sys_close`.
use os.Prelude.{ℕ, Option, none, some}
use os.Syscall.{Caller}
use os.File.{Table}
use os.Descriptors.{argfd, close_file, sys_close}
use os.Descriptors.Uses.{Counted}
use os.Descriptors.Files.{fileclose-Counted, clear_fd-Counted}
use os.Descriptors.Dup.{Keeps, keeps, IsFd, bad_fd, good_fd, argfd_lem}

close_file-Keeps :
    {o : ℕ → ℕ} (p : Caller) (t : Table) (a : Option (ℕ × ℕ))
    → Counted o p t
    → IsFd p a
    → Keeps o (close_file p t a)
close_file-Keeps p t none c bad_fd = keeps c
close_file-Keeps p t (some _) c (good_fd fd f l at) =
    let (closing, t', run, c') = fileclose-Counted f (clear_fd-Counted f fd c l at) in
    rw run (keeps c')

pub sys_close-Keeps : {o : ℕ → ℕ} (p : Caller) (t : Table) → Counted o p t → Keeps o (sys_close p t)
unfolding sys_close
sys_close-Keeps p t c = close_file-Keeps p t (argfd 0 p) c (argfd_lem 0 p)
