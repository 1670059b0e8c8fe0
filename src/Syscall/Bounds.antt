-- ===== src/Syscall/Bounds.antt =====
-- The arguments that are accepted, against the size of the process's memory.
use os.Prelude.{
  as_uint, ℕ, ◌+◌, ◌-◌, ◌*◌, ◌≤◌, ◌<◌, ◌≡◌, ◌≢◌, refl, ◌∙◌, sym, inl, inr, Option, none, some, ◌==◌,
  ltb, find_index, arith, Bool-cases, Option-cases, find_index-Found, find_index-none,
}
use os.Syscall.{
  Caller, int_at, fetchint, fetchstr, argint, argptr, argstr, in_memory, check_range, with_length,
}

-- There is an answer `v` only with `P v`, and no answer only where `P` holds of nothing.
pub data IsAnswer {ℓ} {A : Type ℓ} (P : A → Type 0) : Option A → Type ℓ where
  answers : {v : A} → P v → IsAnswer P (some v)
  refuses : ((v : A) → ¬ (P v)) → IsAnswer P none

-- The word at `addr` is in the process's memory and has the value `v`.
pub record HasInt (p : Caller) (addr v : ℕ) : Type 0 where
  pub inside : addr + 4 ≤ p.sz
  pub value : v ≡ int_at p.memory addr

-- The argument `n` on the stack.
abbrev pub HasArg : ℕ → Caller → ℕ → Type 0
HasArg n p v = HasInt p (as_uint (p.esp + 4 + 4 * n)) v

-- The argument is a pointer to `size` bytes in the process's memory.
pub record HasRange (n size : ℕ) (p : Caller) (i : ℕ) : Type 0 where
  pub arg : HasArg n p i
  pub starts : i < p.sz
  pub ends : i + size ≤ p.sz

-- The `len` bytes before the first zero byte, which is in the process's memory.
pub record IsString (p : Caller) (addr len : ℕ) : Type 0 where
  pub inside : addr + len < p.sz
  pub nul : p.memory (addr + len) ≡ 0
  pub chars : (j : ℕ) → j < len → p.memory (addr + j) ≢ 0

pub record HasString (n : ℕ) (p : Caller) (s : ℕ × ℕ) : Type 0 where
  pub arg : HasArg n p s.0
  pub text : IsString p s.0 s.1

pub fetchint_lem :
    (p : Caller) (addr : ℕ) → p.sz ≤ 2147483648 → IsAnswer (HasInt p addr) (fetchint p addr)
unfolding fetchint
fetchint_lem p addr b = elim (Bool-cases (ltb addr p.sz)) [
  | inl lo ↦ elim (Bool-cases (ltb p.sz (as_uint (addr + 4)))) [
    | inl past ↦ rw (lo, past) (refuses λ v h. let a = h.inside in ground arith)
    | inr fits ↦ rw (lo, fits) (answers (record { inside = ground arith; value = refl }))
  ]
  | inr hi ↦ rw hi (refuses λ v h. let a = h.inside in ground arith)
]

pub argint_lem : (n : ℕ) (p : Caller) → p.sz ≤ 2147483648 → IsAnswer (HasArg n p) (argint n p)
unfolding argint
argint_lem n p b = fetchint_lem p (as_uint (p.esp + 4 + 4 * n)) b

same_arg : (n : ℕ) {p : Caller} {v w : ℕ} → HasArg n p v → HasArg n p w → v ≡ w
same_arg n h k = h.value ∙ sym k.value

check_range_lem :
    (n size : ℕ) (p : Caller) (a : Option ℕ)
    → p.sz ≤ 2147483648
    → size < 2147483648
    → IsAnswer (HasArg n p) a
    → IsAnswer (HasRange n size p) (check_range size p a)
check_range_lem n size p none b l (refuses never) = refuses λ v h. never v h.arg
check_range_lem n size p (some i) b l (answers h) = elim (Bool-cases (in_memory size p i)) [
  | inl fits ↦ rw fits (answers (record { arg = h; starts = ground arith; ends = ground arith }))
  | inr out ↦ rw out (
      refuses
        λ v k. let e = same_arg n k.arg h in let a = k.starts in let c = k.ends in ground arith)
]

-- In a process of at most 2 GB, a pointer argument with a size that is not negative is accepted
-- exactly where its word on the stack, the byte that it points to and all bytes of the size are in
-- the process's memory.
pub argptr_lem :
    (n size : ℕ) (p : Caller)
    → p.sz ≤ 2147483648
    → size < 2147483648
    → IsAnswer (HasRange n size p) (argptr n size p)
unfolding argptr
argptr_lem n size p b l = check_range_lem n size p (argint n p) b l (argint_lem n p b)

pub fetchstr_lem : (p : Caller) (addr : ℕ) → IsAnswer (IsString p addr) (fetchstr p addr)
unfolding fetchstr
fetchstr_lem p addr = elim (Bool-cases (ltb addr p.sz)) [
  | inr hi ↦ rw hi (refuses λ v h. let a = h.inside in ground arith)
  | inl lo ↦ elim (Option-cases (find_index (λ s. p.memory s == 0) (p.sz - addr) addr)) [
    | inl never ↦
        rw (lo, never)
          (refuses λ v h.
            let a = h.inside in
            let z = h.nul in
            let miss =
              find_index-none (λ s. p.memory s == 0) (p.sz - addr) addr never (addr + v)
                (omega arith) (ground arith) in
            ground (arith, miss))
    | inr (k, hit) ↦
        let f = find_index-Found (λ s. p.memory s == 0) (p.sz - addr) addr k hit in
        let from = f.from_start in
        let till = f.in_range in
        let at : addr + (k - addr) ≡ k = omega arith in
        let zero_at = f.passes in
        let chars : (j : ℕ) → j < k - addr → p.memory (addr + j) ≢ 0 =
          λ j l e. let miss = f.first (addr + j) (omega arith) (omega arith) in ground arith in
        let nul : p.memory (addr + (k - addr)) ≡ 0 = rw at (ground arith) in
        rw (lo, hit) (answers (record { inside = ground arith; nul = nul; chars = chars }))
  ]
]

same_length : {p : Caller} {addr m n : ℕ} → IsString p addr m → IsString p addr n → ¬ (m < n)
same_length h k l = k.chars _ l h.nul

with_length_lem :
    (n : ℕ) (p : Caller) (a : Option ℕ)
    → IsAnswer (HasArg n p) a
    → IsAnswer (HasString n p) (with_length p a)
with_length_lem n p none (refuses never) = refuses λ v h. never (v.0) h.arg
with_length_lem n p (some addr) (answers h) = found_lem (fetchstr p addr) (fetchstr_lem p addr)
  where
    found_lem :
        (r : Option ℕ)
        → IsAnswer (IsString p addr) r
        → IsAnswer (HasString n p) (elim r [ none ↦ none | some len ↦ some (addr, len) ])
    found_lem none (refuses never) = refuses λ v k. never (v.1) (rw (same_arg n h k.arg) k.text)
    found_lem (some len) (answers t) = answers (record { arg = h; text = t })

-- In a process of at most 2 GB, a string argument is accepted exactly where its word on the stack and
-- a zero byte at or behind the address are in the process's memory, and its length is up to the first
-- such byte.
pub argstr_lem : (n : ℕ) (p : Caller) → p.sz ≤ 2147483648 → IsAnswer (HasString n p) (argstr n p)
unfolding argstr
argstr_lem n p b = with_length_lem n p (argint n p) (argint_lem n p b)
