-- ===== src/Syscall.antt =====
-- syscall.c: the arguments that a system call takes from the memory of the process that calls.
--
-- The process's memory is a function from addresses to bytes, and an `int` that is fetched is its 32
-- bits as a number. A pointer is an address; `fetchstr` and `argstr` give it with the length.
pub mod Bounds
mod Tests
use os.Prelude.{
  as_uint, ℕ, ◌+◌, ◌-◌, ◌*◌, ◌%◌, Bool, true, false, not, ◌||◌, Option, none, some, ◌==◌, ltb,
  if◌then◌else◌, find_index,
}

-- The `struct proc` as far as the calls read it; the trap frame's stack pointer is `esp`.
pub record Caller : Type 0 where
  pub sz : ℕ
  pub esp : ℕ
  pub memory : ℕ → ℕ
  pub ofile : ℕ → Option ℕ

abbrev pub int_at : (ℕ → ℕ) → ℕ → ℕ
int_at m a = m a + 256 * m (a + 1) + 65536 * m (a + 2) + 16777216 * m (a + 3)

unfoldable pub fetchint : Caller → ℕ → Option ℕ
fetchint p addr =
    if not (ltb addr p.sz) || ltb p.sz (as_uint (addr + 4))
    then none
    else some (int_at p.memory addr)

abbrev pub length_to : ℕ → Option ℕ → Option ℕ
length_to addr none = none
length_to addr (some s) = some (s - addr)

pub fetchstr : Caller → ℕ → Option ℕ
fetchstr p addr =
    if not (ltb addr p.sz)
    then none
    else length_to addr (find_index (λ s. p.memory s == 0) (p.sz - addr) addr)

unfoldable pub argint : ℕ → Caller → Option ℕ
argint n p = fetchint p (as_uint (p.esp + 4 + 4 * n))

-- `size` is converted to `uint`, as the comparison converts it.
abbrev pub in_memory : ℕ → Caller → ℕ → Bool
in_memory size p i = not (not (ltb i p.sz) || ltb p.sz (as_uint (i + size)))

abbrev pub check_range : ℕ → Caller → Option ℕ → Option ℕ
check_range size p none = none
check_range size p (some i) = if in_memory size p i then some i else none

unfoldable pub argptr : ℕ → ℕ → Caller → Option ℕ
argptr n size p = check_range size p (argint n p)

abbrev pub with_length : Caller → Option ℕ → Option (ℕ × ℕ)
with_length p none = none
with_length p (some addr) = elim (fetchstr p addr) [ none ↦ none | some len ↦ some (addr, len) ]

pub argstr : ℕ → Caller → Option (ℕ × ℕ)
argstr n p = with_length p (argint n p)
