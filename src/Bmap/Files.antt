-- ===== src/Bmap/Files.antt =====
-- A file as its blocks and its bytes, and what an allocation makes of them.
use os.Prelude.{
  ℕ, ◌/◌, ◌%◌, ◌≤◌, ◌<◌, ◌≡◌, ◌≢◌, refl, ◌∙◌, sym, ap, inl, inr, true, false, ◌==◌, if◌then◌else◌,
  arith, Bool-cases,
}
use os.Blocks.{Disk, Superblock}
use os.Blocks.Search.{used}
use os.Bmap.{Addrs}
use os.Bmap.Addresses.{IsTaken, IsInode, block_of}

-- Pointer `k` of a file: to its block `k`, or at 140 to its indirect block.
abbrev pub pointer : Addrs → Disk → ℕ → ℕ
pointer addrs d k = if k == 140 then addrs 12 else block_of addrs d k

abbrev pub byte_in : Disk → ℕ → ℕ → ℕ
byte_in d b o = if b == 0 then 0 else d b o

-- Byte `j` of a file; a block that is missing reads as zeros.
abbrev pub byte_at : Addrs → Disk → ℕ → ℕ
byte_at addrs d j = byte_in d (block_of addrs d (j / 512)) (j % 512)

pub pointer-block_of :
    (addrs : Addrs) (d : Disk) (k : ℕ) → k < 140 → pointer addrs d k ≡ block_of addrs d k
pointer-block_of addrs d k l = let other : (k == 140) ≡ false = ground arith in rw other refl

pub byte_at-pointer :
    (addrs : Addrs) (d : Disk) (j : ℕ)
    → j < 71680
    → byte_at addrs d j ≡ byte_in d (pointer addrs d (j / 512)) (j % 512)
byte_at-pointer addrs d j l =
    ap (λ b. byte_in d b (j % 512)) (sym (pointer-block_of addrs d (j / 512) (omega arith)))

-- The file's blocks are taken, and no two pointers share one.
pub record IsFile (sb : Superblock) (addrs : Addrs) (d : Disk) : Type 0 where
  pub inode : IsInode sb addrs d
  pub taken : (k : ℕ) → k ≤ 140 → pointer addrs d k ≢ 0 → IsTaken sb d (pointer addrs d k)
  pub distinct :
      (j k : ℕ)
      → j ≤ 140
      → k ≤ 140
      → pointer addrs d j ≢ 0
      → pointer addrs d j ≡ pointer addrs d k
      → j ≡ k

-- Block `c` is taken for something else than the file.
pub record IsForeign (sb : Superblock) (addrs : Addrs) (d : Disk) (c : ℕ) : Type 0 where
  pub taken : IsTaken sb d c
  pub no_block : (k : ℕ) → k ≤ 140 → pointer addrs d k ≢ c

-- The file may have more blocks than before, but it has the same bytes, and what is not the file's is
-- left alone.
pub record Extends (sb : Superblock) (addrs : Addrs) (d : Disk) (addrs' : Addrs) (d' : Disk)
    : Type 0 where
  pub file : IsFile sb addrs' d'
  pub bytes : (j : ℕ) → j < 71680 → byte_at addrs' d' j ≡ byte_at addrs d j
  pub blocks : (k : ℕ) → k ≤ 140 → pointer addrs d k ≢ 0 → pointer addrs' d' k ≡ pointer addrs d k
  pub foreign : (c : ℕ) → IsForeign sb addrs d c → IsForeign sb addrs' d' c
  pub kept : (c j : ℕ) → IsForeign sb addrs d c → d' c j ≡ d c j

pub Extends-refl :
    (sb : Superblock) (addrs : Addrs) (d : Disk) → IsFile sb addrs d → Extends sb addrs d addrs d
Extends-refl sb addrs d f = record {
  file = f;
  bytes = λ j l. refl;
  blocks = λ k l n. refl;
  foreign = λ c h. h;
  kept = λ c j h. refl;
}

pub Extends-trans :
    (sb : Superblock) (addrs addrs' addrs'' : Addrs) (d d' d'' : Disk)
    → Extends sb addrs d addrs' d'
    → Extends sb addrs' d' addrs'' d''
    → Extends sb addrs d addrs'' d''
Extends-trans sb addrs addrs' addrs'' d d' d'' e f = record {
  file = f.file;
  bytes = λ j l. f.bytes j l ∙ e.bytes j l;
  blocks = λ k l n. f.blocks k l (λ z. n (sym (e.blocks k l n) ∙ z)) ∙ e.blocks k l n;
  foreign = λ c h. f.foreign c (e.foreign c h);
  kept = λ c j h. f.kept c j (e.foreign c h) ∙ e.kept c j h;
}

-- Pointer `t`, which was missing, is set to the new block `x`. Only the indirect block is written.
pub record Adds (sb : Superblock) (addrs : Addrs) (d : Disk) (t x : ℕ) (addrs' : Addrs) (d' : Disk)
    : Type 0 where
  pub inode : IsInode sb addrs' d'
  pub target : t ≤ 140
  pub missing : pointer addrs d t ≡ 0
  pub was_free : used sb d x ≡ 0
  pub pointers : (k : ℕ) → k ≤ 140 → pointer addrs' d' k ≡ (if k == t then x else pointer addrs d k)
  pub new : IsTaken sb d' x
  pub stays : (c : ℕ) → IsTaken sb d c → IsTaken sb d' c
  pub zeroed : t ≢ 140 → (j : ℕ) → d' x j ≡ 0
  pub kept : (c j : ℕ) → IsTaken sb d c → c ≢ addrs 12 → d' c j ≡ d c j

module _ (sb : Superblock) (addrs addrs' : Addrs) (d d' : Disk) (t x : ℕ) (f : IsFile sb addrs d)
    (a : Adds sb addrs d t x addrs' d') where
  pointer-else : (k : ℕ) → k ≤ 140 → k ≢ t → pointer addrs' d' k ≡ pointer addrs d k
  pointer-else k l n =
      let other : (k == t) ≡ false = ground (arith, n) in a.pointers k l ∙ rw other refl

  pointer-here : (k : ℕ) → k ≤ 140 → k ≡ t → pointer addrs' d' k ≡ x
  pointer-here k l e = let it : (k == t) ≡ true = ground (arith, e) in a.pointers k l ∙ rw it refl

  -- The new block is none of those before.
  new_apart : (c : ℕ) → IsTaken sb d c → c ≢ x
  new_apart c h e = h.in_use (ap (used sb d) e ∙ a.was_free)

  pointer_apart : (k : ℕ) → k ≤ 140 → pointer addrs d k ≢ 0 → pointer addrs d k ≢ x
  pointer_apart k l n = new_apart (pointer addrs d k) (f.taken k l n)

  adds-IsFile : x ≢ 0 → IsFile sb addrs' d'
  adds-IsFile nx = record {
    inode = a.inode;
    taken = λ k l n. elim (Bool-cases (k == t)) [
      | inl it ↦ rw (pointer-here k l (ground arith)) a.new
      | inr other ↦
          let same = pointer-else k l (λ e. ground (arith, other, e)) in
          rw same (a.stays (pointer addrs d k) (f.taken k l (λ z. n (same ∙ z))))
    ];
    distinct = λ j k lj lk n e. elim (Bool-cases (j == t)) [
      | inl j_it ↦ elim (Bool-cases (k == t)) [
        | inl k_it ↦ ground arith
        | inr k_other ↦
            let same = pointer-else k lk (λ z. ground (arith, k_other, z)) in
            let its : x ≡ pointer addrs d k = sym (pointer-here j lj (ground arith)) ∙ e ∙ same in
            absurd (pointer_apart k lk (λ z. nx (its ∙ z)) (sym its))
      ]
      | inr j_other ↦
          let same_j = pointer-else j lj (λ z. ground (arith, j_other, z)) in
          let there : pointer addrs d j ≢ 0 = λ z. n (same_j ∙ z) in
          elim (Bool-cases (k == t)) [
            | inl k_it ↦
                absurd
                  (pointer_apart j lj there (sym same_j ∙ e ∙ pointer-here k lk (ground arith)))
            | inr k_other ↦
                f.distinct j k lj lk there
                  (sym same_j ∙ e ∙ pointer-else k lk (λ z. ground (arith, k_other, z)))
          ]
    ];
  }

  byte_kept :
      x ≢ 0
      → (k o : ℕ) → k < 140
      → byte_in d' (pointer addrs' d' k) o ≡ byte_in d (pointer addrs d k) o
  byte_kept nx k o l = elim (Bool-cases (k == t)) [
    | inl it ↦
        let e : k ≡ t = ground arith in
        let old : pointer addrs d k ≡ 0 = ap (pointer addrs d) e ∙ a.missing in
        let there : (x == 0) ≡ false = ground (arith, nx) in
        let new : byte_in d' x o ≡ 0 = rw there (a.zeroed (λ z. ground arith) o) in
        ap (λ b. byte_in d' b o) (pointer-here k (omega arith) e)
        ∙ new
        ∙ ap (λ b. byte_in d b o) (sym old)
    | inr other ↦
        ap (λ b. byte_in d' b o) (pointer-else k (omega arith) (λ z. ground (arith, other, z)))
        ∙ elim (Bool-cases (pointer addrs d k == 0)) [
          | inl bare ↦ rw bare refl
          | inr there ↦
              let n : pointer addrs d k ≢ 0 = λ z. ground (arith, there, z) in
              let apart : pointer addrs d k ≢ addrs 12 = λ e.
                let last : k ≡ 140 = f.distinct k 140 (omega arith) (omega arith) n e in
                omega arith in
              rw there (a.kept (pointer addrs d k) o (f.taken k (omega arith) n) apart)
        ]
  ]

  pub adds-Extends : x ≢ 0 → Extends sb addrs d addrs' d'
  adds-Extends nx = record {
    file = adds-IsFile nx;
    bytes = λ j l.
        byte_at-pointer addrs' d' j l
        ∙ byte_kept nx (j / 512) (j % 512) (omega arith)
        ∙ sym (byte_at-pointer addrs d j l);
    blocks = λ k l n. pointer-else k l (λ e. n (ap (pointer addrs d) e ∙ a.missing));
    foreign = λ c h. record {
      taken = a.stays c h.taken;
      no_block = λ k l e. elim (Bool-cases (k == t)) [
        | inl it ↦ new_apart c h.taken (sym e ∙ pointer-here k l (ground arith))
        | inr other ↦ h.no_block k l (sym (pointer-else k l (λ z. ground (arith, other, z))) ∙ e)
      ];
    };
    kept = λ c j h. a.kept c j h.taken (λ e. h.no_block 140 (omega arith) (sym e));
  }
