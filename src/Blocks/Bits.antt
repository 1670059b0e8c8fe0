-- ===== src/Blocks/Bits.antt =====
-- The bits of a number after one of them is set or cleared.
use os.Prelude.{ℕ, zero, suc, ◌+◌, ◌-◌, ◌*◌, ◌/◌, ◌%◌, ◌≤◌, ◌≡◌, ◌≢◌, refl, ap, arith}
use os.Blocks.{shifted, bit}

half_odd : (x : ℕ) → x % 2 ≡ 0 → (x + 1) / 2 ≡ x / 2
half_odd x e = omega arith

half_twice : (x p : ℕ) → (x + 2 * p) / 2 ≡ x / 2 + p
half_twice x p = omega arith

pub bit-set_here : (x k : ℕ) → bit x k ≡ 0 → bit (x + shifted k) k ≡ 1
bit-set_here x zero e = omega arith
bit-set_here x (suc k) e = rw (half_twice x (shifted k)) (bit-set_here (x / 2) k e)

pub bit-set_else : (x k j : ℕ) → bit x k ≡ 0 → k ≢ j → bit (x + shifted k) j ≡ bit x j
bit-set_else x zero zero e ne = absurd (ne refl)
bit-set_else x zero (suc j) e ne = ap (λ y. bit y j) (half_odd x e)
bit-set_else x (suc k) zero e ne = omega arith
bit-set_else x (suc k) (suc j) e ne =
    rw (half_twice x (shifted k)) (bit-set_else (x / 2) k j e (λ h. ne (ap suc h)))

-- A number with a bit set is the one without it and the bit.
shifted_le : (x k : ℕ) → bit x k ≢ 0 → shifted k ≤ x
shifted_le x zero ne = let odd : x % 2 ≢ 0 = ne in omega arith
shifted_le x (suc k) ne = let ih = shifted_le (x / 2) k ne in omega arith

half_less : (x p : ℕ) → 2 * p ≤ x → (x - 2 * p) / 2 ≡ x / 2 - p
half_less x p l = omega arith

half_even : (x : ℕ) → x % 2 ≢ 0 → (x - 1) / 2 ≡ x / 2
half_even x e = omega arith

pub bit-cleared_here : (x k : ℕ) → bit x k ≢ 0 → bit (x - shifted k) k ≡ 0
bit-cleared_here x zero ne = let odd : x % 2 ≢ 0 = ne in omega arith
bit-cleared_here x (suc k) ne =
    rw (half_less x (shifted k) (shifted_le x (suc k) ne)) (bit-cleared_here (x / 2) k ne)

pub bit-cleared_else : (x k j : ℕ) → bit x k ≢ 0 → k ≢ j → bit (x - shifted k) j ≡ bit x j
bit-cleared_else x zero zero e ne = absurd (ne refl)
bit-cleared_else x zero (suc j) e ne = ap (λ y. bit y j) (half_even x e)
bit-cleared_else x (suc k) zero e ne = let l = shifted_le x (suc k) e in omega arith
bit-cleared_else x (suc k) (suc j) e ne =
    rw (half_less x (shifted k) (shifted_le x (suc k) e))
      (bit-cleared_else (x / 2) k j e (λ h. ne (ap suc h)))
