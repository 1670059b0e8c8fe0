-- ===== src/Write/Blocks.antt =====
-- A write to one block of a file.
use os.Prelude.{
  ℕ, ◌-◌, ◌/◌, ◌%◌, ◌<◌, ◌≡◌, ◌≢◌, refl, ◌∙◌, sym, ap, inl, inr, false, List, ◌==◌, ltb,
  if◌then◌else◌, arith, Bool-cases,
}
use os.Blocks.{Disk, Superblock, bblock}
use os.Blocks.Search.{used}
use os.Bmap.{Addrs}
use os.Bmap.Words.{word-ext}
use os.Bmap.Addresses.{IsTaken, block_of}
use os.Bmap.Files.{pointer, byte_in, byte_at, byte_at-pointer, IsFile, IsForeign}
use os.Write.{write_bytes}

-- No block but `b`, the block that pointer `k` of the file goes to, is written.
module _ (sb : Superblock) (addrs : Addrs) (d d' : Disk) (k b : ℕ) (f : IsFile sb addrs d)
    (l : k < 140) (at : pointer addrs d k ≡ b) (n : b ≢ 0)
    (same : (c j : ℕ) → c ≢ b → d' c j ≡ d c j) where
  block-IsTaken : IsTaken sb d b
  block-IsTaken = rw (← at) (f.taken k (omega arith) (λ z. n (sym at ∙ z)))

  used-same : (y : ℕ) → y < sb.size → used sb d' y ≡ used sb d y
  used-same y ly = rw (same (bblock sb y) (y % 4096 / 8) (block-IsTaken.no_map y ly)) refl

  IsTaken-same : (c : ℕ) → IsTaken sb d c → IsTaken sb d' c
  IsTaken-same c t = record {
    in_range = t.in_range;
    in_use = λ z. t.in_use (sym (used-same c t.in_range) ∙ z);
    no_map = t.no_map;
  }

  indirect_apart : addrs 12 ≢ b
  indirect_apart e =
      let last : k ≡ 140 =
        f.distinct k 140 (omega arith) (omega arith) (λ z. n (sym at ∙ z)) (at ∙ sym e) in
      omega arith

  block_of-same : (j : ℕ) → block_of addrs d' j ≡ block_of addrs d j
  block_of-same j =
      ap (λ w. if ltb j 12 then addrs j else if addrs 12 == 0 then 0 else w)
        (word-ext d d' (addrs 12) (j - 12) (λ i. same (addrs 12) i indirect_apart))

  pub pointer-same : (j : ℕ) → pointer addrs d' j ≡ pointer addrs d j
  pointer-same j = ap (λ w. if j == 140 then addrs 12 else w) (block_of-same j)

  pub write-IsFile : IsFile sb addrs d'
  write-IsFile = record {
    inode = record {
      bitmap = λ y ly.
          let (inside, u) = f.inode.bitmap y ly in
          (inside, λ z. u (sym (used-same (bblock sb y) inside) ∙ z));
      small = f.inode.small;
      some_size = f.inode.some_size;
      reserved = λ z. f.inode.reserved (sym (used-same 0 f.inode.some_size) ∙ z);
      indirect = λ m. IsTaken-same (addrs 12) (f.inode.indirect m);
    };
    taken = λ j lj m.
        rw (pointer-same j)
          (IsTaken-same (pointer addrs d j) (f.taken j lj (λ z. m (pointer-same j ∙ z))));
    distinct = λ i j li lj m e.
        f.distinct i j li lj (λ z. m (pointer-same i ∙ z))
          (sym (pointer-same i) ∙ e ∙ pointer-same j);
  }

  pub write-IsForeign : (c : ℕ) → IsForeign sb addrs d c → IsForeign sb addrs d' c
  write-IsForeign c h = record {
    taken = IsTaken-same c h.taken;
    no_block = λ j lj e. h.no_block j lj (sym (pointer-same j) ∙ e);
  }

  pub foreign_apart : (c : ℕ) → IsForeign sb addrs d c → c ≢ b
  foreign_apart c h e = h.no_block k (omega arith) (at ∙ sym e)

  -- The bytes of the other blocks of the file.
  pub other_bytes : (j : ℕ) → j < 71680 → j / 512 ≢ k → byte_at addrs d' j ≡ byte_at addrs d j
  other_bytes j lj ne =
      let p = pointer addrs d (j / 512) in
      let bytes : byte_in d' p (j % 512) ≡ byte_in d p (j % 512) = elim (Bool-cases (p == 0)) [
        | inl bare ↦ rw bare refl
        | inr there ↦
            let apart : p ≢ b = λ e. ne (
              f.distinct (j / 512) k (omega arith) (omega arith) (λ z. ground (arith, there, z))
                (e ∙ sym at)) in
            rw there (same p (j % 512) apart)
      ] in
      byte_at-pointer addrs d' j lj
      ∙ ap (λ q. byte_in d' q (j % 512)) (pointer-same (j / 512))
      ∙ bytes
      ∙ sym (byte_at-pointer addrs d j lj)

  -- And those of this one.
  pub own_bytes : (j : ℕ) → j < 71680 → j / 512 ≡ k → byte_at addrs d' j ≡ d' b (j % 512)
  own_bytes j lj e =
      let there : (b == 0) ≡ false = ground (arith, n) in
      byte_at-pointer addrs d' j lj
      ∙ ap (λ q. byte_in d' q (j % 512)) (pointer-same (j / 512) ∙ ap (pointer addrs d) e ∙ at)
      ∙ rw there refl

  pub old_bytes : (j : ℕ) → j < 71680 → j / 512 ≡ k → byte_at addrs d j ≡ d b (j % 512)
  old_bytes j lj e =
      let there : (b == 0) ≡ false = ground (arith, n) in
      byte_at-pointer addrs d j lj
      ∙ ap (λ q. byte_in d q (j % 512)) (ap (pointer addrs d) e ∙ at)
      ∙ rw there refl

pub write_bytes-else :
    (b o : ℕ) (bs : List ℕ) (d : Disk) (c j : ℕ) → c ≢ b → write_bytes b o bs d c j ≡ d c j
write_bytes-else b o bs d c j n = let other : (c == b) ≡ false = ground (arith, n) in rw other refl
