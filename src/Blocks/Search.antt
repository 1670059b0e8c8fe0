-- ===== src/Blocks/Search.antt =====
-- The block that `balloc` comes to.
use mathlib.Core.Path.{subst}
use os.Prelude.{
  ℕ, zero, suc, ◌+◌, ◌*◌, ◌/◌, ◌%◌, ◌≤◌, ◌<◌, ◌≡◌, ◌≢◌, refl, ◌∙◌, sym, ap, inl, inr, Option, none,
  some, ◌==◌, ltb, Outcome, ok, panic, fault, arith, Bool-cases, if_split,
}
use os.Blocks.{
  Disk, Superblock, bblock, bit, map_bit, free_bit, map_blocks, from_bit, balloc_loop, balloc,
  bzero, mark_used,
}

-- The bit of block `b`: 1 where the block is in use.
abbrev pub used : Superblock → Disk → ℕ → ℕ
used sb d b = bit (d (bblock sb b) (b % 4096 / 8)) (b % 4096 % 8)

map_bit-used :
    (sb : Superblock) (d : Disk) (b bi : ℕ)
    → b % 4096 ≡ 0
    → bi < 4096
    → map_bit sb d b bi ≡ used sb d (b + bi)
map_bit-used sb d b bi e l =
    let block : bblock sb b ≡ bblock sb (b + bi) = omega arith in
    let at : (b + bi) % 4096 ≡ bi = omega arith in rw (block, at) refl

-- What a search of the blocks from `lo` up to `hi` finds, of the disk's blocks.
pub data IsFree (sb : Superblock) (d : Disk) (lo hi : ℕ) : Option ℕ → Type 0 where
  full : ((y : ℕ) → lo ≤ y → y < hi → y < sb.size → used sb d y ≢ 0) → IsFree sb d lo hi none
  free :
      (b : ℕ)
      → lo ≤ b
      → b < hi
      → b < sb.size
      → used sb d b ≡ 0
      → ((y : ℕ) → lo ≤ y → y < b → used sb d y ≢ 0)
      → IsFree sb d lo hi (some b)

abbrev at_block : ℕ → Option ℕ → Option ℕ
at_block b none = none
at_block b (some bi) = some (b + bi)

-- A block in use at the front.
IsFree-later :
    (sb : Superblock) (d : Disk) (lo mid hi : ℕ) (o : Option ℕ)
    → lo ≤ mid
    → ((y : ℕ) → lo ≤ y → y < mid → y < sb.size → used sb d y ≢ 0)
    → IsFree sb d mid hi o
    → IsFree sb d lo hi o
IsFree-later sb d lo mid hi none l before (full all) = full λ y a c e.
    elim (Bool-cases (ltb y mid)) [
      | inl early ↦ before y a (ground arith) e
      | inr late ↦ all y (ground arith) c e
    ]
IsFree-later sb d lo mid hi _ l before (free b a c e z all) = free b (omega arith) c e z λ y f g.
    elim (Bool-cases (ltb y mid)) [
      | inl early ↦ before y f (ground arith) (omega arith)
      | inr late ↦ all y (ground arith) g
    ]

free_bit-IsFree :
    (sb : Superblock) (d : Disk) (b n bi : ℕ)
    → b % 4096 ≡ 0
    → bi + n ≡ 4096
    → IsFree sb d (b + bi) (b + 4096) (at_block b (free_bit sb d b n bi))
unfolding free_bit
free_bit-IsFree sb d b zero bi e s = full λ y a c. absurd (omega arith)
free_bit-IsFree sb d b (suc n) bi e s =
    let P = λ (o : Option ℕ). IsFree sb d (b + bi) (b + 4096) (at_block b o) in
    let bit_used = map_bit-used sb d b bi e (omega arith) in
    if_split P (ltb (b + bi) sb.size)
      (λ inside.
        if_split P (map_bit sb d b bi == 0)
          (λ clear.
            free (b + bi) (omega arith) (omega arith) (ground arith) (sym bit_used ∙ ground arith)
              (λ y f g. absurd (omega arith)))
          (λ taken.
            IsFree-later sb d (b + bi) (b + (bi + 1)) (b + 4096) _ (omega arith)
              (λ y f g l z.
                let same : b + bi ≡ y = omega arith in
                let clear : map_bit sb d b bi ≡ 0 = bit_used ∙ ap (used sb d) same ∙ z in
                ground (arith, taken, clear))
              (free_bit-IsFree sb d b n (bi + 1) e (omega arith))))
      (λ outside. full λ y a c l. absurd (ground arith))

-- The bit of a block is set.
abbrev pub marked : Superblock → ℕ → Disk → Disk
marked sb x d = mark_used sb x (x % 4096) d

-- What `balloc` comes to when it searches from `lo` on: the first free block, zeroed and marked, or
-- a panic when there is none.
unfoldable pub IsAlloc : Superblock → Disk → ℕ → Outcome (ℕ × Disk) → Type 0
IsAlloc sb d lo (ok (x, d')) = IsFree sb d lo sb.size (some x) × (d' ≡ bzero x (marked sb x d))
IsAlloc sb d lo (panic m) = (m ≡ "balloc: out of blocks") × IsFree sb d lo sb.size none
IsAlloc sb d lo fault = ⊥

IsAlloc-later :
    (sb : Superblock) (d : Disk) (lo mid : ℕ) (o : Outcome (ℕ × Disk))
    → lo ≤ mid
    → IsFree sb d lo mid none
    → IsAlloc sb d mid o
    → IsAlloc sb d lo o
unfolding IsAlloc
IsAlloc-later sb d lo mid (ok (x, d')) l (full all) (f, e) =
    (IsFree-later sb d lo mid sb.size _ l (λ y a b c. all y a b c) f, e)
IsAlloc-later sb d lo mid (panic m) l (full all) (e, f) =
    (e, IsFree-later sb d lo mid sb.size none l (λ y a b c. all y a b c) f)
IsAlloc-later sb d lo mid fault l f e = e

from_bit-IsAlloc :
    (sb : Superblock) (d : Disk) (b : ℕ) (o : Option ℕ) (rest : Outcome (ℕ × Disk))
    → b % 4096 ≡ 0
    → IsFree sb d b (b + 4096) (at_block b o)
    → IsAlloc sb d (b + 4096) rest
    → IsAlloc sb d b (from_bit sb d b o rest)
unfolding IsAlloc
from_bit-IsAlloc sb d b none rest e f later =
    IsAlloc-later sb d b (b + 4096) rest (omega arith) f later
from_bit-IsAlloc sb d b (some bi) rest e (free _ lo hi inside clear before) later =
    let block : bblock sb b ≡ bblock sb (b + bi) = omega arith in
    let at : (b + bi) % 4096 ≡ bi = omega arith in
    (free (b + bi) (omega arith) inside inside clear before, rw (block, at) refl)

balloc_loop-IsAlloc :
    (sb : Superblock) (d : Disk) (n b : ℕ)
    → b % 4096 ≡ 0
    → sb.size ≤ b + 4096 * n
    → IsAlloc sb d b (balloc_loop sb d n b)
unfolding balloc_loop IsAlloc
balloc_loop-IsAlloc sb d zero b e l = (refl, full λ y a c z. absurd (omega arith))
balloc_loop-IsAlloc sb d (suc n) b e l =
    let enough : sb.size ≤ b + 4096 + 4096 * n = omega arith in
    if_split (IsAlloc sb d b) (ltb b sb.size)
      (λ inside.
        from_bit-IsAlloc sb d b (free_bit sb d b 4096 0) _ e
          (subst (λ lo. IsFree sb d lo (b + 4096) (at_block b (free_bit sb d b 4096 0)))
            (omega arith) (free_bit-IsFree sb d b 4096 0 e (omega arith)))
          (balloc_loop-IsAlloc sb d n (b + 4096) (omega arith) enough))
      (λ past. (refl, full λ y a c z. absurd (ground arith)))

pub balloc-IsAlloc : (sb : Superblock) (d : Disk) → IsAlloc sb d 0 (balloc sb d)
unfolding balloc
balloc-IsAlloc sb d = balloc_loop-IsAlloc sb d (map_blocks sb) 0 (omega arith) (omega arith)
