-- ===== src/Memory/Tests.antt =====
-- Concrete runs of the routines on byte ranges and strings.
use os.Prelude.{ℕ, ◌+◌, ◌≡◌, refl, if◌then◌else◌, inr, arith, ◌-◌, ltb}
use os.Memory.{Memory, memmove, safestrcpy}
use os.Memory.Ranges.{Written, memmove-Written}
use os.Memory.Strings.{IsString, IsCopied, safestrcpy-IsCopied}

-- The byte at `a` is `a`, below 5; above there is a NUL.
abbrev bytes : Memory
bytes a = if ltb a 5 then a else 0

-- A move to the right of an overlapping range.
moved_right : memmove 2 1 3 bytes 4 ≡ 3
unfolding memmove
moved_right = refl

memmove-Written_example : Written 2 3 (λ i. bytes (1 + i)) bytes (memmove 2 1 3 bytes)
memmove-Written_example = memmove-Written 2 1 3 bytes

one-IsString : IsString bytes 1 4
one-IsString = record { characters = λ i l. ground arith; end = refl }

safestrcpy-IsCopied_example : (k : ℕ) × IsCopied 20 1 (3 - 1) k bytes (safestrcpy 20 1 3 bytes)
safestrcpy-IsCopied_example = safestrcpy-IsCopied 20 1 3 bytes (omega arith) (inr (omega arith))
