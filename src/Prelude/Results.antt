-- ===== src/Prelude/Results.antt =====
-- What a C function can come to besides returning: the kernel's `panic`, or a memory access that C
-- leaves undefined (an index out of range, a null or dangling pointer).
use Prim.Native.String.{String}

pub data Outcome {ℓ} (A : Type ℓ) : Type ℓ where
  ok : A → Outcome A
  panic : String → Outcome A
  fault : Outcome A

infixl 5 ◌>>=◌
abbrev pub ◌>>=◌ {ℓ κ} : {A : Type ℓ} {B : Type κ} → Outcome A → (A → Outcome B) → Outcome B
ok a >>= f = f a
panic s >>= f = panic s
fault >>= f = fault
