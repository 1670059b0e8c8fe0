-- ===== src/Bmap/Adding.antt =====
-- The allocations of `bmap`, as additions of one block to a file.
use os.Prelude.{
  ℕ, ◌+◌, ◌-◌, ◌<◌, ◌≡◌, ◌≢◌, refl, ◌∙◌, sym, ap, inl, inr, true, false, ◌==◌, ltb, if◌then◌else◌,
  arith, Bool-cases,
}
use os.Blocks.{Disk, Superblock, bblock}
use os.Blocks.Search.{used}
use os.Blocks.Alloc.{IsAllocated}
use os.Bmap.{Addrs, set_addr, word, set_word}
use os.Bmap.Words.{word-set_word, word-else}
use os.Bmap.Addresses.{
  IsTaken, IsInode, block_of, fresh_apart, fresh-IsTaken, taken_kept, allocated-IsTaken,
  allocated-IsInode, word_kept, set_addr-IsInode, set_addr_kept,
}
use os.Bmap.Files.{pointer-block_of, Adds}

-- A word of the taken block `b` is written.
set_word-used :
    (sb : Superblock) (d : Disk) (b k v y : ℕ)
    → bblock sb y ≢ b
    → used sb (set_word b k v d) y ≡ used sb d y
set_word-used sb d b k v y ne =
    let other : (bblock sb y == b) ≡ false = ground (arith, ne) in rw other refl

set_word-IsInode :
    (sb : Superblock) (addrs : Addrs) (d : Disk) (k v : ℕ)
    → addrs 12 ≢ 0
    → IsInode sb addrs d
    → IsInode sb addrs (set_word (addrs 12) k v d)
set_word-IsInode sb addrs d k v n s =
    let t = s.indirect n in
    let same : (y : ℕ) → y < sb.size → used sb (set_word (addrs 12) k v d) y ≡ used sb d y =
      λ y l. set_word-used sb d (addrs 12) k v y (t.no_map y l) in
    record {
      bitmap = λ y l. ((s.bitmap y l).0, λ z. (s.bitmap y l).1 (sym (same _ (s.bitmap y l).0) ∙ z));
      small = s.small;
      some_size = s.some_size;
      reserved = λ z. s.reserved (sym (same 0 s.some_size) ∙ z);
      indirect = λ m. record {
        in_range = t.in_range;
        in_use = λ z. t.in_use (sym (same (addrs 12) t.in_range) ∙ z);
        no_map = t.no_map;
      };
    }

-- The file's blocks behind an indirect block that is there.
pub block_of-indirect :
    (addrs : Addrs) (d : Disk) (k : ℕ)
    → addrs 12 ≢ 0
    → block_of addrs d (12 + k) ≡ word d (addrs 12) k
block_of-indirect addrs d k n =
    let past : ltb (12 + k) 12 ≡ false = ground arith in
    let there : (addrs 12 == 0) ≡ false = ground (arith, n) in
    let at : 12 + k - 12 ≡ k = omega arith in rw (past, there, at) refl

block_of-set_word :
    (addrs : Addrs) (d : Disk) (k v j : ℕ)
    → addrs 12 ≢ 0
    → j ≢ 12 + k
    → block_of addrs (set_word (addrs 12) k v d) j ≡ block_of addrs d j
block_of-set_word addrs d k v j n ne = elim (Bool-cases (ltb j 12)) [
  | inl direct ↦ rw direct refl
  | inr past ↦
      let there : (addrs 12 == 0) ≡ false = ground (arith, n) in
      rw (past, there) (word-else (addrs 12) k (j - 12) v d (λ e. ne (ground arith)))
]

set_word-else : (b k v c j : ℕ) (d : Disk) → c ≢ b → set_word b k v d c j ≡ d c j
set_word-else b k v c j d n = let other : (c == b) ≡ false = ground (arith, n) in rw other refl

module _ (sb : Superblock) (addrs : Addrs) (d d' : Disk) (x : ℕ) (s : IsInode sb addrs d)
    (a : IsAllocated sb d x d') where
  -- A direct block is added.
  pub direct-Adds : (i : ℕ) → i < 12 → addrs i ≡ 0 → Adds sb addrs d i x (set_addr i x addrs) d'
  direct-Adds i l bare = record {
    inode = set_addr-IsInode sb d d' x a addrs i s;
    target = omega arith;
    missing =
        let direct : (i == 140) ≡ false = ground arith in
        let low : ltb i 12 ≡ true = ground arith in rw (direct, low) bare;
    was_free = a.was_free;
    pointers = λ k lk. elim (Bool-cases (k == 140)) [
      | inl last ↦
          let e : (k == i) ≡ false = ground arith in
          let f : (12 == i) ≡ false = ground arith in rw (last, e, f) refl
      | inr block ↦ rw block (elim (Bool-cases (k == i)) [
        | inl it ↦ let low : ltb k 12 ≡ true = ground arith in rw (it, low) refl
        | inr other ↦
            let right : (if k == i then x else block_of addrs d k) ≡ block_of addrs d k =
              rw other refl in
            set_addr_kept sb d d' x a addrs i k s bare (λ _ e. ground (arith, other, e)) ∙ sym right
      ])
    ];
    new = fresh-IsTaken sb d d' x a s.bitmap;
    stays = allocated-IsTaken sb d d' x a;
    zeroed = λ _. a.zeroed;
    kept = λ c j t _. taken_kept sb d d' x a c j t;
  }

  -- The indirect block is added.
  pub indirect-Adds : addrs 12 ≡ 0 → Adds sb addrs d 140 x (set_addr 12 x addrs) d'
  indirect-Adds bare = record {
    inode = set_addr-IsInode sb d d' x a addrs 12 s;
    target = omega arith;
    missing = bare;
    was_free = a.was_free;
    pointers = λ k lk. elim (Bool-cases (k == 140)) [
      | inl last ↦ rw last refl
      | inr block ↦ rw block (set_addr_kept sb d d' x a addrs 12 k s bare (λ low e. omega arith))
    ];
    new = fresh-IsTaken sb d d' x a s.bitmap;
    stays = allocated-IsTaken sb d d' x a;
    zeroed = λ n. absurd (n refl);
    kept = λ c j t _. taken_kept sb d d' x a c j t;
  }

  -- A block is added behind the indirect block.
  pub word-Adds :
      (k : ℕ)
      → k < 128
      → addrs 12 ≢ 0
      → word d (addrs 12) k ≡ 0
      → Adds sb addrs d (12 + k) x addrs (set_word (addrs 12) k x d')
  word-Adds k l n bare =
      let s' = allocated-IsInode sb d d' x a addrs s in
      let t' = s'.indirect n in
      let inside = a.in_range in
      let small = s.small in
      let stays : (c : ℕ) → IsTaken sb d' c → IsTaken sb (set_word (addrs 12) k x d') c = λ c h.
        record {
          in_range = h.in_range;
          in_use = λ z.
              h.in_use (sym (set_word-used sb d' (addrs 12) k x c (t'.no_map c h.in_range)) ∙ z);
          no_map = h.no_map;
        } in
      record {
        inode = set_word-IsInode sb addrs d' k x n s';
        target = omega arith;
        missing =
            pointer-block_of addrs d (12 + k) (omega arith) ∙ block_of-indirect addrs d k n ∙ bare;
        was_free = a.was_free;
        pointers = λ j lj. elim (Bool-cases (j == 140)) [
          | inl last ↦ let e : (j == 12 + k) ≡ false = ground arith in rw (last, e) refl
          | inr block ↦ rw block (elim (Bool-cases (j == 12 + k)) [
            | inl it ↦
                let e : j ≡ 12 + k = ground arith in
                rw it (
                  ap (block_of addrs (set_word (addrs 12) k x d')) e
                  ∙ block_of-indirect addrs (set_word (addrs 12) k x d') k n
                  ∙ word-set_word (addrs 12) k x d' (omega arith))
            | inr other ↦ rw other (
                block_of-set_word addrs d' k x j n (λ e. ground (arith, other, e))
                ∙ word_kept sb d d' x a addrs j s)
          ])
        ];
        new = stays x (fresh-IsTaken sb d d' x a s.bitmap);
        stays = λ c h. stays c (allocated-IsTaken sb d d' x a c h);
        zeroed = λ _ j.
            set_word-else (addrs 12) k x x j d'
              (λ e. fresh_apart sb d d' x a (addrs 12) (s.indirect n).in_use (sym e))
            ∙ a.zeroed j;
        kept =
            λ c j h apart. set_word-else (addrs 12) k x c j d' apart ∙ taken_kept sb d d' x a c j h;
      }
