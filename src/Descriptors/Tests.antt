-- ===== src/Descriptors/Tests.antt =====
-- A pipe is made, its read end duplicated and closed.
use os.Prelude.{
  ℕ, ◌≡◌, refl, none, some, false, List, [], ◌∷◌, if◌then◌else◌, ◌==◌, ok, panic, fault, Outcome,
  find_index, Option,
}
use os.Syscall.{Caller, argint, argptr, fetchint}
use os.File.{Table, fd_none, filealloc, filedup, fileclose}
use os.Descriptors.{argfd, fdalloc, sys_dup, sys_close, sys_pipe, pipealloc}
use os.Descriptors.Uses.{Counted}
use os.Descriptors.Calls.{Request, dup, close, pipe, run_calls, AllKept, run_calls-AllKept}

abbrev no_files : Table
no_files i = record {
  type = fd_none;
  ref = 0;
  readable = false;
  writable = false;
  pipe = 0;
  ip = 0;
  off = 0;
}

-- The first argument is the byte 40.
abbrev argument : ℕ → ℕ → ℕ
argument v a = if a == 40 then v else 0

abbrev starting : Caller
starting = record { sz = 100; esp = 36; memory = argument 8; ofile = λ fd. none }

abbrev requests : List Request
requests =
    record { esp = 36; memory = argument 8; call = pipe (some 4096) }
    ∷ record { esp = 36; memory = argument 0; call = dup }
    ∷ record { esp = 36; memory = argument 0; call = close }
    ∷ record { esp = 36; memory = argument 1; call = close }
    ∷ []

abbrev open_files : Outcome (Caller × Table) → List (Option ℕ) × List ℕ
open_files (ok (p, t)) = (p.ofile 0 ∷ p.ofile 1 ∷ p.ofile 2 ∷ [], (t 0).ref ∷ (t 1).ref ∷ [])
open_files (panic m) = ([], [])
open_files fault = ([], [])

after_requests :
    open_files (run_calls requests starting no_files) ≡ (none ∷ none ∷ some 0 ∷ [], 1 ∷ 0 ∷ [])
unfolding sys_dup sys_close sys_pipe argfd fdalloc pipealloc argint argptr fetchint filealloc
    filedup fileclose find_index
after_requests = refl

starting-Counted : Counted (λ i. 0) starting no_files
starting-Counted = record { counts = λ i. refl; idle = λ i z. refl }

run_calls-AllKept_example : AllKept (λ i. 0) (run_calls requests starting no_files)
run_calls-AllKept_example = run_calls-AllKept requests starting no_files starting-Counted
