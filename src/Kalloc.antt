-- ===== src/Kalloc.antt =====
-- kalloc.c: the list of free pages, which is threaded through the pages themselves.
--
-- Memory is a function from kernel addresses to bytes, and a `struct run *` the four bytes at the
-- start of a free page. `end`, the first address after the kernel, is set by the linker and an
-- argument. The lock is taken round each of these functions.
pub mod Words
pub mod Chain
pub mod Runs
pub mod Range
mod Tests
use os.Prelude.{
  as_uint, ℕ, zero, suc, ◌+◌, ◌-◌, ◌*◌, ◌/◌, ◌%◌, Bool, true, false, not, ◌&&◌, ◌||◌, ◌==◌, ltb,
  if◌then◌else◌, Outcome, ok, panic, fault, ◌>>=◌,
}
use os.Syscall.{int_at}
use os.Descriptors.{set_int}

-- PGSIZE
abbrev pub pgsize : ℕ
pgsize = 4096

-- KERNBASE
abbrev pub kernbase : ℕ
kernbase = 2147483648

-- PHYSTOP
abbrev pub phystop : ℕ
phystop = 234881024

abbrev pub v2p : ℕ → ℕ
v2p a = as_uint (a + 4294967296 - kernbase)

abbrev pub pgroundup : ℕ → ℕ
pgroundup sz = as_uint (sz + pgsize - 1) / pgsize * pgsize

pub record Kmem : Type 0 where
  pub memory : ℕ → ℕ
  pub freelist : ℕ

-- `memset(v, 1, PGSIZE)`
abbrev pub fill_junk : ℕ → (ℕ → ℕ) → ℕ → ℕ
fill_junk v m x = if not (ltb x v) && ltb x (v + pgsize) then 1 else m x

abbrev pub is_bad : ℕ → ℕ → Bool
is_bad end v = not (v % pgsize == 0) || (ltb v end || not (ltb (v2p v) phystop))

pub kfree : ℕ → ℕ → Kmem → Outcome Kmem
kfree end v k =
    if is_bad end v
    then panic "kfree"
    else ok (record { memory = set_int v k.freelist (fill_junk v k.memory); freelist = v })

pub kalloc : Kmem → ℕ × Kmem
kalloc k =
    if k.freelist == 0
    then (0, k)
    else (k.freelist, record k { freelist = int_at k.memory k.freelist })

-- The loop of `freerange`, with a bound on its rounds.
pub free_pages : ℕ → ℕ → ℕ → ℕ → Kmem → Outcome Kmem
free_pages end zero p vend k = fault
free_pages end (suc n) p vend k =
    let rest = λ (k' : Kmem). free_pages end n (p + pgsize) vend k' in
    if ltb vend (p + pgsize) then ok k else kfree end p k >>= rest

-- An address space has 2 ^ 20 pages.
pub freerange : ℕ → ℕ → ℕ → Kmem → Outcome Kmem
freerange end vstart vend k = free_pages end 1048576 (pgroundup vstart) vend k
