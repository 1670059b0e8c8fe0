-- ===== src/Descriptors/Uses.antt =====
-- How many descriptors of a process stand for a file.
use os.Prelude.{
  ℕ, zero, suc, ◌+◌, ◌≤◌, ◌<◌, ◌≡◌, refl, ◌∙◌, sym, ap, inl, inr, false, Option, none, some, ◌==◌,
  if◌then◌else◌, arith, Bool-cases,
}
use os.Syscall.{Caller}
use os.Descriptors.{nofile, set_fd}
use os.File.{Table, fd_none}

abbrev pub points_to : Option ℕ → ℕ → ℕ
points_to none i = 0
points_to (some f) i = if f == i then 1 else 0

abbrev pub uses : ℕ → (ℕ → Option ℕ) → ℕ → ℕ
uses zero ofile i = 0
uses (suc n) ofile i = points_to (ofile n) i + uses n ofile i

-- Every file's count is that of the process's descriptors and of the references that others hold,
-- and a file that is not in use has no type.
pub record Counted (others : ℕ → ℕ) (p : Caller) (t : Table) : Type 0 where
  pub counts : (i : ℕ) → (t i).ref ≡ others i + uses nofile p.ofile i
  pub idle : (i : ℕ) → (t i).ref ≡ 0 → (t i).type ≡ fd_none

uses-past :
    (n fd : ℕ) (f : Option ℕ) (p : Caller) (i : ℕ)
    → n ≤ fd
    → uses n (set_fd fd f p).ofile i ≡ uses n p.ofile i
uses-past zero fd f p i l = refl
uses-past (suc n) fd f p i l =
    let other : (fd == n) ≡ false = ground arith in
    rw other (ap (λ u. points_to (p.ofile n) i + u) (uses-past n fd f p i (omega arith)))

pub uses-set_fd :
    (n fd : ℕ) (f : Option ℕ) (p : Caller) (i : ℕ)
    → fd < n
    → uses n (set_fd fd f p).ofile i + points_to (p.ofile fd) i ≡ uses n p.ofile i + points_to f i
uses-set_fd zero fd f p i l = absurd (omega arith)
uses-set_fd (suc n) fd f p i l = elim (Bool-cases (fd == n)) [
  | inl last ↦
      let at : fd ≡ n = ground arith in
      let rest = uses-past n fd f p i (omega arith) in
      let old : points_to (p.ofile fd) i ≡ points_to (p.ofile n) i =
        ap (λ k. points_to (p.ofile k) i) at in
      rw last (omega (arith, rest, old))
  | inr other ↦
      let rest = uses-set_fd n fd f p i (ground (arith, other)) in rw other (omega (arith, rest))
]

pub uses-some :
    (n fd i : ℕ) (ofile : ℕ → Option ℕ) → fd < n → ofile fd ≡ some i → 0 < uses n ofile i
uses-some zero fd i ofile l e = absurd (omega arith)
uses-some (suc n) fd i ofile l e = elim (Bool-cases (fd == n)) [
  | inl last ↦
      let at : fd ≡ n = ground arith in
      let here : ofile n ≡ some i = ap ofile (sym at) ∙ e in
      let one : points_to (ofile n) i ≡ 1 = ap (λ o. points_to o i) here ∙ ground arith in
      omega arith
  | inr other ↦ omega (arith, uses-some n fd i ofile (ground (arith, other)) e)
]
