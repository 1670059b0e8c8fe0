-- ===== src/Dinode/Alloc.antt =====
-- Which inode `ialloc` takes, and what it writes.
use os.Prelude.{
  ℕ, zero, suc, ◌+◌, ◌*◌, ◌/◌, ◌%◌, ◌≤◌, ◌<◌, ◌≡◌, ◌≢◌, refl, ◌∙◌, sym, ap, inl, inr, true, false,
  ◌==◌, ltb, if◌then◌else◌, Outcome, ok, panic, fault, arith, Bool-cases, if_split,
}
use os.Blocks.{Disk, Superblock}
use os.Bmap.{word, byte_of}
use os.Dinode.{iblock, half, dinode_at, in_dinode, claim, ialloc_loop, ialloc}
use os.Dinode.Bytes.{Same, other-Same}

-- Inode `inum`, which was free, has the type and zeros.
pub record IsClaimed (sb : Superblock) (type : ℕ) (d : Disk) (lo inum : ℕ) (d' : Disk)
    : Type 0 where
  pub in_range : (lo ≤ inum) × (inum < sb.ninodes)
  pub was_free : (dinode_at d inum).type ≡ 0
  pub first : (i : ℕ) → lo ≤ i → i < inum → (dinode_at d i).type ≢ 0
  pub claimed :
      Same
        (dinode_at d' inum)
        (record { type = type; major = 0; minor = 0; nlink = 0; size = 0; addrs = λ i. 0 })
  pub others : (other : ℕ) → other ≢ inum → Same (dinode_at d' other) (dinode_at d other)
  pub kept : (c j : ℕ) → in_dinode inum c j ≡ false → d' c j ≡ d c j

-- How `ialloc` ends.
unfoldable pub Claims : Superblock → ℕ → Disk → ℕ → Outcome (ℕ × Disk) → Type 0
Claims sb type d lo (ok (inum, d')) = IsClaimed sb type d lo inum d'
Claims sb type d lo (panic m) =
    (m ≡ "ialloc: no inodes") × ((i : ℕ) → lo ≤ i → i < sb.ninodes → (dinode_at d i).type ≢ 0)
Claims sb type d lo fault = ⊥

module _ (inum type : ℕ) (d : Disk) where
  -- A byte of the claimed inode.
  claimed_byte :
      (k : ℕ)
      → k < 64
      → claim inum type d (iblock inum) (64 * (inum % 8) + k)
        ≡ (if ltb k 2 then byte_of type k else 0)
  unfolding claim
  claimed_byte k l =
      let place : (64 * (inum % 8) + k) / 64 ≡ inum % 8 = omega arith in
      let low : (64 * (inum % 8) + k) % 64 ≡ k = omega arith in
      let self : (iblock inum == iblock inum) ≡ true = ground arith in
      let here : (inum % 8 == inum % 8) ≡ true = ground arith in rw (place, low, self, here) refl

  zero_byte : (k : ℕ) → 2 ≤ k → k < 64 → claim inum type d (iblock inum) (64 * (inum % 8) + k) ≡ 0
  zero_byte k a l = let past : ltb k 2 ≡ false = ground arith in claimed_byte k l ∙ rw past refl

  zero_half :
      (o : ℕ) → 2 ≤ o → o < 63 → half (claim inum type d) (iblock inum) (64 * (inum % 8) + o) ≡ 0
  zero_half o a l =
      let next : 64 * (inum % 8) + o + 1 ≡ 64 * (inum % 8) + (o + 1) = omega arith in
      rw (next, zero_byte o a (omega arith), zero_byte (o + 1) (omega arith) (omega arith)) refl

  zero_word :
      (w : ℕ) → 1 ≤ w → w < 16 → word (claim inum type d) (iblock inum) (16 * (inum % 8) + w) ≡ 0
  zero_word w a l =
      let d' = claim inum type d in
      let at : (j : ℕ) → j < 4 → d' (iblock inum) (4 * (16 * (inum % 8) + w) + j) ≡ 0 = λ j lj.
        ap (d' (iblock inum)) (omega arith) ∙ zero_byte (4 * w + j) (omega arith) (omega arith) in
      let first : d' (iblock inum) (4 * (16 * (inum % 8) + w)) ≡ 0 =
        ap (d' (iblock inum)) (omega arith) ∙ at 0 (omega arith) in
      rw (first, at 1 (omega arith), at 2 (omega arith), at 3 (omega arith)) refl

  claim-Same :
      type < 65536
      → Same
          (dinode_at (claim inum type d) inum)
          (record { type = type; major = 0; minor = 0; nlink = 0; size = 0; addrs = λ i. 0 })
  claim-Same l =
      let d' = claim inum type d in
      let low : d' (iblock inum) (64 * (inum % 8)) ≡ type % 256 =
        ap (d' (iblock inum)) (omega arith) ∙ claimed_byte 0 (omega arith) in
      let high : d' (iblock inum) (64 * (inum % 8) + 1) ≡ type / 256 % 256 =
        claimed_byte 1 (omega arith) in
      record {
        type = rw (low, high) (omega arith);
        major = zero_half 2 (omega arith) (omega arith);
        minor = zero_half 4 (omega arith) (omega arith);
        nlink = zero_half 6 (omega arith) (omega arith);
        size = zero_word 2 (omega arith) (omega arith);
        addrs = λ i li.
            ap (word d' (iblock inum)) (omega arith)
            ∙ zero_word (i + 3) (omega arith) (omega arith);
      }

  claim-else : (c j : ℕ) → in_dinode inum c j ≡ false → claim inum type d c j ≡ d c j
  unfolding claim
  claim-else c j h = rw h refl

-- An inode in use before the others.
Claims-later :
    (sb : Superblock) (type : ℕ) (d : Disk) (lo : ℕ) (o : Outcome (ℕ × Disk))
    → (dinode_at d lo).type ≢ 0
    → Claims sb type d (lo + 1) o
    → Claims sb type d lo o
unfolding Claims
Claims-later sb type d lo (ok (inum, d')) u c =
    let range = c.in_range in
    record {
      in_range = (omega arith, range.1);
      was_free = c.was_free;
      first = λ i a b e. elim (Bool-cases (i == lo)) [
        | inl it ↦
            let same : i ≡ lo = ground arith in u (ap (λ k. (dinode_at d k).type) (sym same) ∙ e)
        | inr later ↦ c.first i (ground arith) b e
      ];
      claimed = c.claimed;
      others = c.others;
      kept = c.kept;
    }
Claims-later sb type d lo (panic m) u (e, all) = (
  e,
  λ i a b z. elim (Bool-cases (i == lo)) [
    | inl it ↦ let same : i ≡ lo = ground arith in u (ap (λ k. (dinode_at d k).type) (sym same) ∙ z)
    | inr later ↦ all i (ground arith) b z
  ],
)
Claims-later sb type d lo fault u c = c

ialloc_loop-Claims :
    (sb : Superblock) (type : ℕ) (d : Disk) (n lo : ℕ)
    → type < 65536
    → sb.ninodes ≤ lo + n
    → Claims sb type d lo (ialloc_loop sb type d n lo)
unfolding ialloc_loop Claims
ialloc_loop-Claims sb type d zero lo t e = (refl, λ i a b z. absurd (omega arith))
ialloc_loop-Claims sb type d (suc n) lo t e =
    if_split (Claims sb type d lo) (ltb lo sb.ninodes)
      (λ inside.
        if_split (Claims sb type d lo) ((dinode_at d lo).type == 0)
          (λ free. record {
            in_range = (omega arith, ground arith);
            was_free = ground (arith, free);
            first = λ i a b z. absurd (omega arith);
            claimed = claim-Same lo type d t;
            others = other-Same lo d (claim lo type d) (claim-else lo type d);
            kept = claim-else lo type d;
          })
          (λ taken.
            Claims-later sb type d lo _ (λ z. ground (arith, taken, z))
              (ialloc_loop-Claims sb type d n (lo + 1) t (omega arith))))
      (λ past. (refl, λ i a b z. absurd (ground (arith, past))))

-- `ialloc` takes the first inode from 1 on that is free: it has the type, and zeros else; every other
-- inode reads as before and no byte outside of it is written. Or it panics, and no inode is free.
pub ialloc_lem :
    (sb : Superblock) (type : ℕ) (d : Disk) → type < 65536 → Claims sb type d 1 (ialloc sb type d)
unfolding ialloc
ialloc_lem sb type d t = ialloc_loop-Claims sb type d sb.ninodes 1 t (omega arith)
