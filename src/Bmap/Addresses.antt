-- ===== src/Bmap/Addresses.antt =====
-- What an allocation does to the blocks of a file.
use os.Prelude.{
  ℕ, ◌-◌, ◌<◌, ◌≡◌, ◌≢◌, refl, ◌∙◌, sym, ap, inl, inr, true, false, ◌==◌, ltb, if◌then◌else◌, arith,
  Bool-cases,
}
use os.Blocks.{Disk, Superblock, bblock}
use os.Blocks.Search.{used}
use os.Blocks.Alloc.{IsMap, IsAllocated}
use os.Bmap.Words.{word-ext, word-zero}
use os.Bmap.{Addrs, set_addr, word}

-- Block `b` holds data that an allocation leaves alone.
pub record IsTaken (sb : Superblock) (d : Disk) (b : ℕ) : Type 0 where
  pub in_range : b < sb.size
  pub in_use : used sb d b ≢ 0
  pub no_map : (y : ℕ) → y < sb.size → bblock sb y ≢ b

-- The disk's bitmap is sound, block 0 is in use, block numbers fit a word, and the inode's indirect
-- block, if there is one, is taken.
pub record IsInode (sb : Superblock) (addrs : Addrs) (d : Disk) : Type 0 where
  pub bitmap : IsMap sb d
  pub small : sb.size < 4294967296
  pub some_size : 0 < sb.size
  pub reserved : used sb d 0 ≢ 0
  pub indirect : addrs 12 ≢ 0 → IsTaken sb d (addrs 12)

-- The number of the file's block `k`, or 0.
abbrev pub block_of : Addrs → Disk → ℕ → ℕ
block_of addrs d k =
    if ltb k 12 then addrs k else if addrs 12 == 0 then 0 else word d (addrs 12) (k - 12)

module _ (sb : Superblock) (d d' : Disk) (x : ℕ) (a : IsAllocated sb d x d') where
  pub fresh_nonzero : used sb d 0 ≢ 0 → x ≢ 0
  fresh_nonzero r e = r (ap (used sb d) (sym e) ∙ a.was_free)

  pub fresh_apart : (b : ℕ) → used sb d b ≢ 0 → b ≢ x
  fresh_apart b u e = u (ap (used sb d) e ∙ a.was_free)

  pub taken_kept : (b j : ℕ) → IsTaken sb d b → d' b j ≡ d b j
  taken_kept b j t = a.others b j (fresh_apart b t.in_use) (λ e. t.no_map x a.in_range (sym e))

  used_kept : (y : ℕ) → y < sb.size → used sb d y ≢ 0 → used sb d' y ≢ 0
  used_kept y l u z =
      let now = a.now_used y l in
      let other : (y == x) ≡ false = ground (arith, fresh_apart y u) in
      u (sym (now ∙ rw other refl) ∙ z)

  pub allocated-IsTaken : (b : ℕ) → IsTaken sb d b → IsTaken sb d' b
  allocated-IsTaken b t = record {
    in_range = t.in_range;
    in_use = used_kept b t.in_range t.in_use;
    no_map = t.no_map;
  }

  pub fresh-IsTaken : IsMap sb d → IsTaken sb d' x
  fresh-IsTaken map = record {
    in_range = a.in_range;
    in_use = λ z.
        let now = a.now_used x a.in_range in
        let it : (x == x) ≡ true = ground arith in
        let one : used sb d' x ≡ 1 = now ∙ rw it refl in ground (arith, one, z);
    no_map = λ y l e. (map y l).1 (ap (used sb d) e ∙ a.was_free);
  }

  pub allocated-IsInode : (addrs : Addrs) → IsInode sb addrs d → IsInode sb addrs d'
  allocated-IsInode addrs s = record {
    bitmap = a.map_stays;
    small = s.small;
    some_size = s.some_size;
    reserved = used_kept 0 s.some_size s.reserved;
    indirect = λ n. allocated-IsTaken (addrs 12) (s.indirect n);
  }

  pub set_addr-IsInode :
      (addrs : Addrs) (i : ℕ) → IsInode sb addrs d → IsInode sb (set_addr i x addrs) d'
  set_addr-IsInode addrs i s =
      let kept = allocated-IsInode addrs s in
      elim (Bool-cases (12 == i)) [
        | inl it ↦ record {
          bitmap = kept.bitmap;
          small = kept.small;
          some_size = kept.some_size;
          reserved = kept.reserved;
          indirect = λ n. rw it (fresh-IsTaken s.bitmap);
        }
        | inr other ↦ record {
          bitmap = kept.bitmap;
          small = kept.small;
          some_size = kept.some_size;
          reserved = kept.reserved;
          indirect = rw other kept.indirect;
        }
      ]

  pub word_kept :
      (addrs : Addrs) (k : ℕ) → IsInode sb addrs d → block_of addrs d' k ≡ block_of addrs d k
  word_kept addrs k s = elim (Bool-cases (addrs 12 == 0)) [
    | inl bare ↦ rw bare refl
    | inr some_block ↦
        let t = s.indirect (λ e. ground (arith, some_block, e)) in
        rw some_block (
          ap (λ w. if ltb k 12 then addrs k else w)
            (word-ext d d' (addrs 12) (k - 12) (λ j. taken_kept (addrs 12) j t)))
  ]

  -- An address that was 0 is set: no other block of the file changes.
  pub set_addr_kept :
      (addrs : Addrs) (i k : ℕ)
      → IsInode sb addrs d
      → addrs i ≡ 0
      → (k < 12 → k ≢ i)
      → block_of (set_addr i x addrs) d' k ≡ block_of addrs d k
  set_addr_kept addrs i k s bare ne = elim (Bool-cases (ltb k 12)) [
    | inl direct ↦
        let other : (k == i) ≡ false = ground (arith, ne, direct) in rw (direct, other) refl
    | inr past ↦ elim (Bool-cases (12 == i)) [
      | inl it ↦
          let e : 12 ≡ i = ground arith in
          let old : (addrs 12 == 0) ≡ true = rw (ap addrs e ∙ bare) refl in
          let new : (x == 0) ≡ false = ground (arith, fresh_nonzero s.reserved) in
          rw (past, it, old, new) (word-zero d' x (k - 12) a.zeroed)
      | inr other ↦
          let same : block_of (set_addr i x addrs) d' k ≡ block_of addrs d' k =
            rw (past, other) refl in
          same ∙ word_kept addrs k s
    ]
  ]
