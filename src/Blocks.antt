-- ===== src/Blocks.antt =====
-- fs.c: the bitmap of the free disk blocks.
--
-- The disk is the bytes of its blocks, as the buffer cache and the log give and keep them: `bread`
-- reads the newest version of a block, and what is written to its buffer before `log_write` is the
-- next one. The super block's fields are those that `readsb` copies out of block 1.
pub mod Bits
pub mod Search
pub mod Alloc
mod Tests
use os.Prelude.{
  ℕ, zero, suc, ◌+◌, ◌-◌, ◌*◌, ◌/◌, ◌%◌, Bool, true, false, Option, none, some, ◌==◌, ltb,
  if◌then◌else◌, Outcome, ok, panic, fault, ◌>>=◌,
}

abbrev pub Disk : Type 0
Disk = ℕ → ℕ → ℕ

pub record Superblock : Type 0 where
  pub size : ℕ
  pub nblocks : ℕ
  pub ninodes : ℕ
  pub nlog : ℕ

-- BPB
abbrev pub bits_per_block : ℕ
bits_per_block = 4096

-- BBLOCK(b, ninodes), with IPB 8
abbrev pub bblock : Superblock → ℕ → ℕ
bblock sb b = b / bits_per_block + sb.ninodes / 8 + 3

-- 1 << k
abbrev pub shifted : ℕ → ℕ
shifted zero = 1
shifted (suc k) = 2 * shifted k

-- Bit `k`: 0 where `x & (1 << k)` is 0, and 1 otherwise.
abbrev pub bit : ℕ → ℕ → ℕ
bit x zero = x % 2
bit x (suc k) = bit (x / 2) k

abbrev pub set_byte : ℕ → ℕ → ℕ → Disk → Disk
set_byte bno k v d b j = if b == bno then (if j == k then v else d b j) else d b j

abbrev pub bzero : ℕ → Disk → Disk
bzero bno d b j = if b == bno then 0 else d b j

-- The bit of the loop of `balloc` at `b` and `bi`.
abbrev pub map_bit : Superblock → Disk → ℕ → ℕ → ℕ
map_bit sb d b bi = bit (d (bblock sb b) (bi / 8)) (bi % 8)

-- The inner loop: the first clear bit.
pub free_bit : Superblock → Disk → ℕ → ℕ → ℕ → Option ℕ
free_bit sb d b zero bi = none
free_bit sb d b (suc n) bi =
    let rest = free_bit sb d b n (bi + 1) in
    if ltb (b + bi) sb.size then if map_bit sb d b bi == 0 then some bi else rest else none

-- The bit is clear, so that `|=` adds it.
abbrev pub mark_used : Superblock → ℕ → ℕ → Disk → Disk
mark_used sb b bi d =
    set_byte (bblock sb b) (bi / 8) (d (bblock sb b) (bi / 8) + shifted (bi % 8)) d

abbrev pub from_bit : Superblock → Disk → ℕ → Option ℕ → Outcome (ℕ × Disk) → Outcome (ℕ × Disk)
from_bit sb d b (some bi) rest = ok (b + bi, bzero (b + bi) (mark_used sb b bi d))
from_bit sb d b none rest = rest

-- The outer loop, over the blocks of the bitmap.
pub balloc_loop : Superblock → Disk → ℕ → ℕ → Outcome (ℕ × Disk)
balloc_loop sb d zero b = panic "balloc: out of blocks"
balloc_loop sb d (suc n) b =
    let rest = balloc_loop sb d n (b + bits_per_block) in
    if ltb b sb.size
    then from_bit sb d b (free_bit sb d b bits_per_block 0) rest
    else panic "balloc: out of blocks"

-- Rounds enough for the outer loop.
abbrev pub map_blocks : Superblock → ℕ
map_blocks sb = sb.size / bits_per_block + 1

pub balloc : Superblock → Disk → Outcome (ℕ × Disk)
balloc sb d = balloc_loop sb d (map_blocks sb) 0

-- The bit is set, so that `&= ~m` takes it off.
pub bfree : Superblock → ℕ → Disk → Outcome Disk
bfree sb b d =
    let bi = b % bits_per_block in
    let byte = d (bblock sb b) (bi / 8) in
    if bit byte (bi % 8) == 0
    then panic "freeing free block"
    else ok (set_byte (bblock sb b) (bi / 8) (byte - shifted (bi % 8)) d)
