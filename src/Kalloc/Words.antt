-- ===== src/Kalloc/Words.antt =====
-- Words in memory.
use os.Prelude.{
  ℕ, ◌+◌, ◌-◌, ◌<◌, ◌≡◌, refl, ◌∙◌, ap, inl, inr, true, false, not, ◌||◌, ltb, arith, Bool-cases,
}
use os.Syscall.{int_at}
use os.Descriptors.{set_int}
use os.Bmap.{byte_of}

pub int_at-ext :
    (m m' : ℕ → ℕ) (a : ℕ) → ((j : ℕ) → j < 4 → m (a + j) ≡ m' (a + j)) → int_at m a ≡ int_at m' a
int_at-ext m m' a h =
    let first : m a ≡ m' a = ap m (omega arith) ∙ h 0 (omega arith) ∙ ap m' (omega arith) in
    rw (first, h 1 (omega arith), h 2 (omega arith), h 3 (omega arith)) refl

byte_here : (a v j : ℕ) (m : ℕ → ℕ) → j < 4 → set_int a v m (a + j) ≡ byte_of v j
byte_here a v j m l =
    let lo : ltb (a + j) a ≡ false = ground arith in
    let hi : ltb (a + j) (a + 4) ≡ true = ground arith in
    let at : a + j - a ≡ j = omega arith in rw (lo, hi, at) refl

pub int_at-set_int : (a v : ℕ) (m : ℕ → ℕ) → v < 4294967296 → int_at (set_int a v m) a ≡ v
int_at-set_int a v m l =
    let b = λ (j : ℕ) (h : j < 4). byte_here a v j m h in
    let first : set_int a v m a ≡ byte_of v 0 =
      ap (set_int a v m) (omega arith) ∙ b 0 (omega arith) in
    rw (first, b 1 (omega arith), b 2 (omega arith), b 3 (omega arith)) (omega arith)

pub set_int-past :
    (a v x : ℕ) (m : ℕ → ℕ) → (ltb x a || not (ltb x (a + 4))) ≡ true → set_int a v m x ≡ m x
set_int-past a v x m h = elim (Bool-cases (ltb x a)) [
  | inl lo ↦ rw lo refl
  | inr hi ↦ let past : ltb x (a + 4) ≡ false = ground arith in rw (hi, past) refl
]
