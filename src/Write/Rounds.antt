-- ===== src/Write/Rounds.antt =====
-- The rounds of `writei` against the bytes of a file.
use os.Prelude.{
  ℕ, zero, suc, ◌+◌, ◌-◌, ◌/◌, ◌%◌, ◌≤◌, ◌<◌, ◌≡◌, ◌≢◌, refl, ◌∙◌, sym, ap, inl, inr, Bool, true,
  false, ◌&&◌, List, [], ◌∷◌, ◌==◌, ltb, leb, if◌then◌else◌, length, take, drop, get_or,
  length-take, arith, Bool-cases,
}
use os.Blocks.{Disk, Superblock}
use os.Bmap.{Addrs}
use os.Bmap.Files.{pointer, byte_at, IsFile, IsForeign, Extends}
use os.Write.{write_bytes}
use os.Write.Blocks.{
  write_bytes-else, pointer-same, write-IsFile, write-IsForeign, foreign_apart, other_bytes,
  own_bytes, old_bytes,
}

abbrev pub in_range : ℕ → ℕ → ℕ → Bool
in_range off n j = leb off j && ltb j (off + n)

-- The first `n` bytes of `bs` stand at `off` in the file, and its other bytes are as before. What is not the
-- file's is left alone.
pub record Wrote (sb : Superblock) (off n : ℕ) (bs : List ℕ) (addrs : Addrs) (d : Disk)
    (addrs' : Addrs) (d' : Disk) : Type 0 where
  pub file : IsFile sb addrs' d'
  pub bytes :
      (j : ℕ)
      → j < 71680
      → byte_at addrs' d' j
        ≡ (if in_range off n j then get_or bs (j - off) 0 else byte_at addrs d j)
  pub blocks : (k : ℕ) → k ≤ 140 → pointer addrs d k ≢ 0 → pointer addrs' d' k ≢ 0
  pub filled : (j : ℕ) → off ≤ j → j < off + n → pointer addrs' d' (j / 512) ≢ 0
  pub foreign : (c : ℕ) → IsForeign sb addrs d c → IsForeign sb addrs' d' c
  pub kept : (c j : ℕ) → IsForeign sb addrs d c → d' c j ≡ d c j

pub get_or-take : (m : ℕ) (bs : List ℕ) (i : ℕ) → i < m → get_or (take m bs) i 0 ≡ get_or bs i 0
get_or-take zero bs i l = absurd (omega arith)
get_or-take (suc m) [] i l = refl
get_or-take (suc m) (x ∷ bs) zero l = refl
get_or-take (suc m) (x ∷ bs) (suc i) l = get_or-take m bs i (omega arith)

pub get_or-drop : (m : ℕ) (bs : List ℕ) (i : ℕ) → get_or (drop m bs) i 0 ≡ get_or bs (m + i) 0
get_or-drop zero bs i = ap (λ k. get_or bs k 0) (omega arith)
get_or-drop (suc m) [] i = refl
get_or-drop (suc m) (x ∷ bs) i =
    let next : suc m + i ≡ suc (m + i) = omega arith in rw next (get_or-drop m bs i)

pub range_parts :
    (off m n j : ℕ) → in_range (off + m) n j ≡ false → in_range off m j ≡ in_range off (m + n) j
range_parts off m n j h = elim (Bool-cases (in_range off m j)) [
  | inl early ↦ ground (arith, h, early)
  | inr late ↦ ground (arith, h, late)
]

range_none : (off j : ℕ) → in_range off 0 j ≡ false
range_none off j = ground arith

-- A byte of the file's range, as a byte of its block.
own_range :
    (off m j b : ℕ)
    → j / 512 ≡ off / 512
    → off ≤ j
    → j < off + m
    → (b == b && (leb (off % 512) (j % 512) && ltb (j % 512) (off % 512 + m))) ≡ true
own_range off m j b e from to =
    let low : off % 512 ≤ j % 512 = omega arith in
    let high : j % 512 < off % 512 + m = omega arith in ground (arith, low, high)

else_range :
    (off m j b : ℕ)
    → j / 512 ≡ off / 512
    → in_range off m j ≡ false
    → (b == b && (leb (off % 512) (j % 512) && ltb (j % 512) (off % 512 + m))) ≡ false
else_range off m j b e miss =
    elim (Bool-cases (leb (off % 512) (j % 512) && ltb (j % 512) (off % 512 + m))) [
      | inl hit ↦
          let low : off % 512 ≤ j % 512 = ground (arith, hit) in
          let high : j % 512 < off % 512 + m = ground (arith, hit) in
          let from : off ≤ j = omega arith in
          let to : j < off + m = omega arith in absurd (ground (arith, miss, from, to))
      | inr out ↦ ground (arith, out)
    ]

-- A round: `bs` of one block, where `m` bytes of it fit.
module _ (sb : Superblock) (off m : ℕ) (bs : List ℕ) (addrs : Addrs) (d : Disk) (b : ℕ)
    (f : IsFile sb addrs d) (l : off / 512 < 140) (at : pointer addrs d (off / 512) ≡ b) (n : b ≢ 0)
    (size : m ≤ length bs) (room : m ≤ 512 - off % 512) where
  unfoldable pub after_round : Disk
  after_round = write_bytes b (off % 512) (take m bs) d

  taken_length : length (take m bs) ≡ m
  taken_length = omega (arith, length-take m bs)

  outside_kept : (c j : ℕ) → c ≢ b → after_round c j ≡ d c j
  unfolding after_round
  outside_kept c j = write_bytes-else b (off % 512) (take m bs) d c j

  round_bytes :
      (j : ℕ)
      → j < 71680
      → byte_at addrs after_round j
        ≡ (if in_range off m j then get_or bs (j - off) 0 else byte_at addrs d j)
  unfolding after_round
  round_bytes j lj = elim (Bool-cases (j / 512 == off / 512)) [
    | inl same_block ↦
        let e : j / 512 ≡ off / 512 = ground arith in
        let own =
          own_bytes sb addrs d (write_bytes b (off % 512) (take m bs) d) (off / 512) b f l at n
            outside_kept j lj e in
        let old =
          old_bytes sb addrs d (write_bytes b (off % 512) (take m bs) d) (off / 512) b f l at n
            outside_kept j lj e in
        own ∙ elim (Bool-cases (in_range off m j)) [
          | inl hit ↦
              let from : off ≤ j = ground (arith, hit) in
              let to : j < off + m = ground (arith, hit) in
              let inside : (b == b
                    && (leb (off % 512) (j % 512)
                        && ltb (j % 512) (off % 512 + length (take m bs))))
                  ≡ true =
                rw taken_length (own_range off m j b e from to) in
              let at_byte : j % 512 - off % 512 ≡ j - off = omega arith in
              rw (inside, hit, at_byte) (get_or-take m bs (j - off) (omega arith))
          | inr miss ↦
              let outside : (b == b
                    && (leb (off % 512) (j % 512)
                        && ltb (j % 512) (off % 512 + length (take m bs))))
                  ≡ false =
                rw taken_length (else_range off m j b e miss) in
              rw miss (rw outside (sym old))
        ]
    | inr other_block ↦
        let ne : j / 512 ≢ off / 512 = λ e. ground (arith, other_block, e) in
        let out : in_range off m j ≡ false = elim (Bool-cases (in_range off m j)) [
          | inl hit ↦
              let from : off ≤ j = ground (arith, hit) in
              let to : j < off + m = ground (arith, hit) in absurd (ne (omega arith))
          | inr miss ↦ miss
        ] in
        rw out (
          other_bytes sb addrs d (write_bytes b (off % 512) (take m bs) d) (off / 512) b f l at n
            outside_kept j lj ne)
  ]

  pub round-Wrote : Wrote sb off m bs addrs d addrs after_round
  unfolding after_round
  round-Wrote =
      let d' = write_bytes b (off % 512) (take m bs) d in
      record {
        file = write-IsFile sb addrs d d' (off / 512) b f l at n outside_kept;
        bytes = round_bytes;
        blocks = λ k lk z e.
            z (sym (pointer-same sb addrs d d' (off / 512) b f l at n outside_kept k) ∙ e);
        filled = λ j a z e.
            let block : off / 512 ≡ j / 512 = omega arith in
            n (
              sym at
              ∙ sym (pointer-same sb addrs d d' (off / 512) b f l at n outside_kept (off / 512))
              ∙ ap (pointer addrs d') block
              ∙ e);
        foreign = write-IsForeign sb addrs d d' (off / 512) b f l at n outside_kept;
        kept = λ c j h.
            outside_kept c j (foreign_apart sb addrs d d' (off / 512) b f l at n outside_kept c h);
      }

pub Extends-Wrote :
    (sb : Superblock) (off n : ℕ) (bs : List ℕ) (addrs addrs' addrs'' : Addrs) (d d' d'' : Disk)
    → Extends sb addrs d addrs' d'
    → Wrote sb off n bs addrs' d' addrs'' d''
    → Wrote sb off n bs addrs d addrs'' d''
Extends-Wrote sb off n bs addrs addrs' addrs'' d d' d'' e w = record {
  file = w.file;
  bytes = λ j l.
      w.bytes j l ∙ ap (λ x. if in_range off n j then get_or bs (j - off) 0 else x) (e.bytes j l);
  blocks = λ k l z. w.blocks k l (λ x. z (sym (e.blocks k l z) ∙ x));
  filled = w.filled;
  foreign = λ c h. w.foreign c (e.foreign c h);
  kept = λ c j h. w.kept c j (e.foreign c h) ∙ e.kept c j h;
}

-- Two writes, one after the other.
pub Wrote-Wrote :
    (sb : Superblock) (off m n : ℕ) (bs : List ℕ) (addrs addrs' addrs'' : Addrs) (d d' d'' : Disk)
    → off + (m + n) ≤ 71680
    → Wrote sb off m bs addrs d addrs' d'
    → Wrote sb (off + m) n (drop m bs) addrs' d' addrs'' d''
    → Wrote sb off (m + n) bs addrs d addrs'' d''
Wrote-Wrote sb off m n bs addrs addrs' addrs'' d d' d'' max v w = record {
  file = w.file;
  bytes = λ j l. w.bytes j l ∙ elim (Bool-cases (in_range (off + m) n j)) [
    | inl late ↦
        let from : off + m ≤ j = ground (arith, late) in
        let to : j < off + m + n = ground (arith, late) in
        let all : in_range off (m + n) j ≡ true = ground arith in
        let at : m + (j - (off + m)) ≡ j - off = omega arith in
        rw (late, all) (get_or-drop m bs (j - (off + m)) ∙ ap (λ i. get_or bs i 0) at)
    | inr not_late ↦
        let same : in_range off m j ≡ in_range off (m + n) j = range_parts off m n j not_late in
        rw not_late
          (v.bytes j l ∙ ap (λ t. if t then get_or bs (j - off) 0 else byte_at addrs d j) same)
  ];
  blocks = λ k l z. w.blocks k l (v.blocks k l z);
  filled = λ j a z. elim (Bool-cases (ltb j (off + m))) [
    | inl early ↦ w.blocks (j / 512) (omega arith) (v.filled j a (ground arith))
    | inr late ↦ w.filled j (ground arith) (omega arith)
  ];
  foreign = λ c h. w.foreign c (v.foreign c h);
  kept = λ c j h. w.kept c j (v.foreign c h) ∙ v.kept c j h;
}

pub nothing-Wrote :
    (sb : Superblock) (off : ℕ) (bs : List ℕ) (addrs : Addrs) (d : Disk)
    → IsFile sb addrs d
    → Wrote sb off 0 bs addrs d addrs d
nothing-Wrote sb off bs addrs d f = record {
  file = f;
  bytes = λ j l. let out : in_range off 0 j ≡ false = range_none off j in rw out refl;
  blocks = λ k l z. z;
  filled = λ j a z. absurd (omega arith);
  foreign = λ c h. h;
  kept = λ c j h. refl;
}
