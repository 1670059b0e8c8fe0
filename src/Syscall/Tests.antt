-- ===== src/Syscall/Tests.antt =====
-- A process with 100 bytes of memory: its stack at 40 has the arguments 8, 96 and 50.
use os.Prelude.{◌≡◌, refl, none, some, if◌then◌else◌, ◌==◌, ltb, arith, find_index}
use os.Syscall.{Caller, fetchint, fetchstr, argint, argptr, argstr}
use os.Syscall.Bounds.{IsAnswer, HasRange, HasString, argptr_lem, argstr_lem}

abbrev caller : Caller
caller = record {
  sz = 100;
  esp = 36;
  memory = λ a.
      if a == 40
      then 8
      else if a == 44
      then 96
      else if a == 48
      then 50
      else if ltb a 90
      then 0
      else 65;
  ofile = λ fd. none;
}

whole_range : argptr 1 4 caller ≡ some 96
unfolding argptr argint fetchint
whole_range = refl

past_the_end : argptr 1 5 caller ≡ none
unfolding argptr argint fetchint
past_the_end = refl

-- A size of -1 goes through as well.
negative_size : argptr 1 4294967295 caller ≡ some 96
unfolding argptr argint fetchint
negative_size = refl

-- There is a zero byte at 8, and none from 96 on.
strings : (argstr 0 caller ≡ some (8, 0)) × (argstr 1 caller ≡ none)
unfolding argstr argint fetchint fetchstr find_index
strings = (refl, refl)

argptr_lem_example : IsAnswer (HasRange 1 4 caller) (argptr 1 4 caller)
argptr_lem_example = argptr_lem 1 4 caller (omega arith) (omega arith)

argstr_lem_example : IsAnswer (HasString 2 caller) (argstr 2 caller)
argstr_lem_example = argstr_lem 2 caller (omega arith)
