-- ===== src/Memory.antt =====
-- string.c: the routines on byte ranges and C strings.
--
-- Memory is a function from addresses to bytes, and a routine that writes returns the new one. The
-- ranges do not pass the end of the address space, so addresses do not wrap. `stosb` and `stosl`
-- of x86.h store a byte or a little-endian word again and again.
pub mod Ranges
pub mod Strings
mod Tests
use os.Prelude.{
  ℕ, zero, suc, ◌+◌, ◌-◌, ◌*◌, ◌/◌, ◌%◌, ◌^◌, Bool, true, false, not, ◌&&◌, ◌||◌, Option, none,
  some, ◌==◌, ltb, if◌then◌else◌, ℤ, pos, negsuc,
}

abbrev pub Memory : Type 0
Memory = ℕ → ℕ

abbrev pub store : ℕ → ℕ → Memory → Memory
store a v m b = if a == b then v else m b

pub stosb : ℕ → ℕ → ℕ → Memory → Memory
stosb addr v zero m = m
stosb addr v (suc n) m = stosb (addr + 1) v n (store addr (v % 256) m)

abbrev pub store_word : ℕ → ℕ → Memory → Memory
store_word a w m =
    store (a + 3) (w / 2 ^ 24 % 256)
      (store (a + 2) (w / 2 ^ 16 % 256) (store (a + 1) (w / 2 ^ 8 % 256) (store a (w % 256) m)))

pub stosl : ℕ → ℕ → ℕ → Memory → Memory
stosl addr w zero m = m
stosl addr w (suc n) m = stosl (addr + 4) w n (store_word addr w m)

-- The four copies of a byte in a word.
abbrev pub word_of : ℕ → ℕ
word_of c = c * 2 ^ 24 + c * 2 ^ 16 + c * 2 ^ 8 + c

pub memset : ℕ → ℕ → ℕ → Memory → Memory
unfolding stosb stosl
memset dst c n m =
    if dst % 4 == 0 && n % 4 == 0 then stosl dst (word_of (c % 256)) (n / 4) m else stosb dst c n m

-- The difference of two bytes as an `int`.
abbrev pub difference : ℕ → ℕ → ℤ
difference a b = if ltb a b then negsuc (b - a - 1) else pos (a - b)

pub memcmp : Memory → ℕ → ℕ → ℕ → ℤ
memcmp m s1 s2 zero = pos 0
memcmp m s1 s2 (suc n) =
    let rest = memcmp m (s1 + 1) (s2 + 1) n in
    if m s1 == m s2 then rest else difference (m s1) (m s2)

pub forward : ℕ → ℕ → ℕ → Memory → Memory
forward d s zero m = m
forward d s (suc n) m = forward (d + 1) (s + 1) n (store d (m s) m)

-- From the end; `d` and `s` are the ranges' starts.
pub backward : ℕ → ℕ → ℕ → Memory → Memory
backward d s zero m = m
backward d s (suc n) m = backward d s n (store (d + n) (m (s + n)) m)

pub memmove : ℕ → ℕ → ℕ → Memory → Memory
unfolding forward backward
memmove dst src n m =
    if ltb src dst && ltb dst (src + n) then backward dst src n m else forward dst src n m

pub memcpy : ℕ → ℕ → ℕ → Memory → Memory
unfolding memmove
memcpy dst src n m = memmove dst src n m

pub strncmp : Memory → ℕ → ℕ → ℕ → ℤ
strncmp m p q zero = pos 0
strncmp m p q (suc n) =
    let rest = strncmp m (p + 1) (q + 1) n in
    if m p == 0 || not (m p == m q) then difference (m p) (m q) else rest

-- The second loop of `strncpy`.
pub pad : ℕ → ℕ → Memory → Memory
pad s zero m = m
pad s (suc n) m = pad (s + 1) n (store s 0 m)

pub strncpy : ℕ → ℕ → ℕ → Memory → Memory
unfolding pad
strncpy s t zero m = m
strncpy s t (suc n) m =
    let rest = strncpy (s + 1) (t + 1) n (store s (m t) m) in
    if m t == 0 then pad (s + 1) n (store s (m t) m) else rest

-- `safestrcpy` with room for `n` bytes and the final NUL.
pub copy_then_end : ℕ → ℕ → ℕ → Memory → Memory
copy_then_end s t zero m = store s 0 m
copy_then_end s t (suc n) m =
    let rest = copy_then_end (s + 1) (t + 1) n (store s (m t) m) in
    if m t == 0 then store (s + 1) 0 (store s (m t) m) else rest

pub safestrcpy : ℕ → ℕ → ℕ → Memory → Memory
unfolding copy_then_end
safestrcpy s t zero m = m
safestrcpy s t (suc n) m = copy_then_end s t n m

-- On fuel: the characters looked at.
pub strlen : ℕ → Memory → ℕ → Option ℕ
strlen zero m s = none
strlen (suc fuel) m s =
    let rest = strlen fuel m (s + 1) in
    if m s == 0 then some 0 else elim rest [ none ↦ none | some n ↦ some (n + 1) ]
