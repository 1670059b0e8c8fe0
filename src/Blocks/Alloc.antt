-- ===== src/Blocks/Alloc.antt =====
-- `balloc` and `bfree` on the set of the blocks in use.
use os.Prelude.{
  ℕ, ◌+◌, ◌-◌, ◌/◌, ◌%◌, ◌<◌, ◌≡◌, ◌≢◌, refl, ◌∙◌, sym, ap, inl, inr, true, false, some, ◌==◌,
  if◌then◌else◌, Outcome, ok, panic, fault, arith, Bool-cases, if_split, ◌&&◌,
}
use os.Blocks.{Disk, Superblock, bblock, bit, shifted, set_byte, bzero, balloc, bfree}
use os.Blocks.Bits.{bit-set_here, bit-set_else, bit-cleared_here, bit-cleared_else}
use os.Blocks.Search.{used, marked, IsFree, full, free, IsAlloc, balloc-IsAlloc}

set_byte-else :
    (bno k v : ℕ) (d : Disk) (b j : ℕ)
    → (b == bno && j == k) ≡ false
    → set_byte bno k v d b j ≡ d b j
set_byte-else bno k v d b j h = ground (arith, h)

same_place :
    (sb : Superblock) (x y : ℕ)
    → y ≡ x
    → (bblock sb y == bblock sb x && y % 4096 / 8 == x % 4096 / 8) ≡ true
same_place sb x y e = rw e (ground arith)

-- A byte of the bitmap that changes in the bit of block `x` alone.
used-set_byte :
    (sb : Superblock) (d : Disk) (x v n y : ℕ)
    → bit v (x % 4096 % 8) ≡ n
    → ((j : ℕ) → x % 4096 % 8 ≢ j → bit v j ≡ bit (d (bblock sb x) (x % 4096 / 8)) j)
    → used sb (set_byte (bblock sb x) (x % 4096 / 8) v d) y ≡ (if y == x then n else used sb d y)
used-set_byte sb d x v n y here else_same =
    elim (Bool-cases (bblock sb y == bblock sb x && y % 4096 / 8 == x % 4096 / 8)) [
      | inl same ↦
          let block : bblock sb y ≡ bblock sb x = ground arith in
          let byte : y % 4096 / 8 ≡ x % 4096 / 8 = ground arith in
          let value : set_byte (bblock sb x) (x % 4096 / 8) v d (bblock sb y) (y % 4096 / 8) ≡ v =
            ground (arith, block, byte) in
          let old : bit (d (bblock sb x) (x % 4096 / 8)) (y % 4096 % 8) ≡ used sb d y =
            rw (block, byte) refl in
          ap (λ b. bit b (y % 4096 % 8)) value ∙ elim (Bool-cases (y == x)) [
            | inl it ↦
                let e : y ≡ x = ground arith in rw it (ap (λ z. bit v (z % 4096 % 8)) e ∙ here)
            | inr other ↦
                let ne : y ≢ x = λ e. ground (arith, other, e) in
                let bits : x % 4096 % 8 ≢ y % 4096 % 8 = λ e. ne (omega arith) in
                rw other (else_same (y % 4096 % 8) bits ∙ old)
          ]
      | inr apart ↦
          let value : set_byte (bblock sb x) (x % 4096 / 8) v d (bblock sb y) (y % 4096 / 8)
              ≡ d (bblock sb y) (y % 4096 / 8) =
            set_byte-else (bblock sb x) (x % 4096 / 8) v d (bblock sb y) (y % 4096 / 8) apart in
          let other : (y == x) ≡ false = elim (Bool-cases (y == x)) [
            | inl it ↦
                let e : y ≡ x = ground arith in absurd (ground (arith, same_place sb x y e, apart))
            | inr apart_too ↦ apart_too
          ] in
          rw other (ap (λ b. bit b (y % 4096 % 8)) value)
    ]

-- The blocks that hold the bitmap are in use themselves.
abbrev pub IsMap : Superblock → Disk → Type 0
IsMap sb d = (y : ℕ) → y < sb.size → (bblock sb y < sb.size) × (used sb d (bblock sb y) ≢ 0)

-- What a call of `balloc` that returns block `x` does.
pub record IsAllocated (sb : Superblock) (d : Disk) (x : ℕ) (d' : Disk) : Type 0 where
  pub in_range : x < sb.size
  pub was_free : used sb d x ≡ 0
  pub first : (y : ℕ) → y < x → used sb d y ≢ 0
  pub now_used : (y : ℕ) → y < sb.size → used sb d' y ≡ (if y == x then 1 else used sb d y)
  pub zeroed : (k : ℕ) → d' x k ≡ 0
  pub others : (b k : ℕ) → b ≢ x → b ≢ bblock sb x → d' b k ≡ d b k
  pub map_stays : IsMap sb d'

-- How `balloc` ends: with a block that was free, or for want of one.
unfoldable pub BallocEnds : Superblock → Disk → Outcome (ℕ × Disk) → Type 0
BallocEnds sb d (ok (x, d')) = IsAllocated sb d x d'
BallocEnds sb d (panic m) =
    (m ≡ "balloc: out of blocks") × ((y : ℕ) → y < sb.size → used sb d y ≢ 0)
BallocEnds sb d fault = ⊥

marked-used :
    (sb : Superblock) (d : Disk) (x y : ℕ)
    → used sb d x ≡ 0
    → used sb (marked sb x d) y ≡ (if y == x then 1 else used sb d y)
marked-used sb d x y e =
    let byte = d (bblock sb x) (x % 4096 / 8) in
    used-set_byte sb d x (byte + shifted (x % 4096 % 8)) 1 y (bit-set_here byte (x % 4096 % 8) e)
      (λ j ne. bit-set_else byte (x % 4096 % 8) j e ne)

-- The new block is none of the bitmap's.
not_in_map :
    (sb : Superblock) (d : Disk) (x y : ℕ)
    → IsMap sb d
    → used sb d x ≡ 0
    → y < sb.size
    → (bblock sb y == x) ≡ false
not_in_map sb d x y map e l = elim (Bool-cases (bblock sb y == x)) [
  | inl it ↦
      let same : bblock sb y ≡ x = ground arith in absurd ((map y l).1 (ap (used sb d) same ∙ e))
  | inr other ↦ other
]

bzero-used :
    (sb : Superblock) (d : Disk) (x y : ℕ)
    → (bblock sb y == x) ≡ false
    → used sb (bzero x d) y ≡ used sb d y
bzero-used sb d x y h = rw h refl

marked-IsAllocated :
    (sb : Superblock) (d : Disk) (x : ℕ)
    → IsMap sb d
    → IsFree sb d 0 sb.size (some x)
    → IsAllocated sb d x (bzero x (marked sb x d))
marked-IsAllocated sb d x map (free _ lo hi inside clear before) =
    let after : (y : ℕ)
        → y < sb.size
        → used sb (bzero x (marked sb x d)) y ≡ (if y == x then 1 else used sb d y) =
      λ y l.
        bzero-used sb (marked sb x d) x y (not_in_map sb d x y map clear l)
        ∙ marked-used sb d x y clear in
    record {
      in_range = inside;
      was_free = clear;
      first = λ y l. before y (omega arith) l;
      now_used = after;
      zeroed = λ k. ground arith;
      others = λ b k n1 n2. ground (arith, n1, n2);
      map_stays = λ y l. (
        (map y l).0,
        λ z.
            let now = after (bblock sb y) (map y l).0 in
            let other = not_in_map sb d x y map clear l in
            (map y l).1 (sym (now ∙ rw other refl) ∙ z),
      );
    }

ends-BallocEnds :
    (sb : Superblock) (d : Disk) (o : Outcome (ℕ × Disk))
    → IsMap sb d
    → IsAlloc sb d 0 o
    → BallocEnds sb d o
unfolding IsAlloc BallocEnds
ends-BallocEnds sb d (ok (x, d')) map (f, e) = rw e (marked-IsAllocated sb d x map f)
ends-BallocEnds sb d (panic m) map (e, full all) = (e, λ y l. all y (omega arith) l l)
ends-BallocEnds sb d fault map h = h

-- Where the blocks of the bitmap are marked as in use, `balloc` returns the first free block: it is
-- marked and zeroed, every other block is in use as before, nothing but that block and one block
-- of the bitmap is written, and the bitmap's blocks stay marked; or it panics, and no block is free.
pub balloc_lem : (sb : Superblock) (d : Disk) → IsMap sb d → BallocEnds sb d (balloc sb d)
balloc_lem sb d map = ends-BallocEnds sb d (balloc sb d) map (balloc-IsAlloc sb d)

-- How `bfree` ends.
pub BfreeEnds : Superblock → ℕ → Disk → Outcome Disk → Type 0
BfreeEnds sb b d (ok d') =
    (used sb d b ≢ 0)
    × ((y : ℕ) → used sb d' y ≡ (if y == b then 0 else used sb d y))
    × ((c k : ℕ) → c ≢ bblock sb b → d' c k ≡ d c k)
BfreeEnds sb b d (panic m) = (m ≡ "freeing free block") × (used sb d b ≡ 0)
BfreeEnds sb b d fault = ⊥

-- `bfree` of a block in use takes its mark off, leaves every other block's, and writes no block but
-- one of the bitmap; for a free block it panics.
pub bfree_lem : (sb : Superblock) (b : ℕ) (d : Disk) → BfreeEnds sb b d (bfree sb b d)
unfolding bfree BfreeEnds
bfree_lem sb b d =
    let byte = d (bblock sb b) (b % 4096 / 8) in
    let k = b % 4096 % 8 in
    if_split (BfreeEnds sb b d) (bit byte k == 0) (λ clear. (refl, ground arith))
      (λ taken.
        let ne : bit byte k ≢ 0 = λ z. ground (arith, taken, z) in
        (
          ne,
          λ y.
              used-set_byte sb d b (byte - shifted k) 0 y (bit-cleared_here byte k ne)
                (λ j other. bit-cleared_else byte k j ne other),
          λ c j other. ground (arith, other),
        ))
