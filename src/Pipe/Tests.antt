-- ===== src/Pipe/Tests.antt =====
-- Runs of a pipe, and its theorems at inputs that meet their hypotheses.
use os.Prelude.{ℕ, ◌≡◌, refl, true, false, List, [], ◌∷◌, ◌-◌, ◌^◌, replicate}
use os.Pipe.{Pipe, put, get, writers, got, pipewrite, piperead}
use os.Pipe.Ring.{IsValid}
use os.Pipe.Stream.{
  Traffic, Reach, here, next, writes, reads, after_write, after_read, fresh, IsFaithful,
  pipe_stream,
}
use native.Mathlib.Omega.{arith}

abbrev page : List ℕ
page = replicate 512 0

-- Counters about to wrap: `nwrite` is 1 past the wrap, `nread` 3 before it.
abbrev wrapping : Pipe
wrapping = record {
  bytes = page;
  nread = 2 ^ 32 - 3;
  nwrite = 1;
  readopen = true;
  writeopen = true;
}

wrapping-IsValid : IsValid wrapping
wrapping-IsValid = record {
  page = refl;
  nread_uint = omega arith;
  nwrite_uint = omega arith;
  bounded = omega arith;
}

read_across_the_wrap :
    let (q, e, woken) = piperead false (pipewrite false wrapping (7 ∷ 8 ∷ [])).0 100 in
    (e ≡ got (0 ∷ 0 ∷ 0 ∷ 0 ∷ 7 ∷ 8 ∷ [])) × (woken ≡ writers ∷ [])
unfolding piperead pipewrite put get
read_across_the_wrap = (refl, refl)

abbrev exchanged : Traffic
exchanged = after_read false 1 (after_write false (5 ∷ 6 ∷ []) (fresh page))

exchanged-Reach : Reach (fresh page) exchanged
exchanged-Reach = next (next here (writes false (5 ∷ 6 ∷ []))) (reads false 1)

pipe_stream_example : IsFaithful exchanged
pipe_stream_example = pipe_stream page refl exchanged-Reach
