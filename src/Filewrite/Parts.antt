-- ===== src/Filewrite/Parts.antt =====
-- Two writes, one behind the other, as one.
use os.Prelude.{
  ℕ, zero, suc, ◌+◌, ◌-◌, ◌≤◌, ◌<◌, ◌≡◌, refl, ◌∙◌, ap, inl, inr, true, false, List, [], ◌∷◌, ltb,
  if◌then◌else◌, length, take, drop, get_or, arith, Bool-cases, length-take, length-drop,
}
use os.Inode.{DiskInode}
use os.Blocks.{Disk, Superblock}
use os.Bmap.Files.{byte_at, IsFile, IsForeign}
use os.Dinode.{in_dinode, dinode_at}
use os.Dinode.Bytes.{Fits, Same}
use os.Write.Rounds.{in_range, get_or-take, get_or-drop, range_parts}
use os.Write.Updates.{IsWritten}

-- The file has the bytes `bs` at `off` and its other bytes as before, and has grown as far as they
-- reach. What is neither the file's nor the inode's is left alone.
pub record IsStored (sb : Superblock) (inum : ℕ) (ip : DiskInode) (off : ℕ) (bs : List ℕ) (d : Disk)
    (ip' : DiskInode) (d' : Disk) : Type 0 where
  pub file : IsFile sb ip'.addrs d'
  pub bytes :
      (j : ℕ)
      → j < 71680
      → byte_at ip'.addrs d' j
        ≡ (if in_range off (length bs) j then get_or bs (j - off) 0 else byte_at ip.addrs d j)
  pub size : ip'.size ≡ (if ltb ip.size (off + length bs) then off + length bs else ip.size)
  pub rest : (ip'.type ≡ ip.type) × (ip'.nlink ≡ ip.nlink)
  pub saved : ip.size < off + length bs → Fits ip' → Same (dinode_at d' inum) ip'
  pub foreign : (c : ℕ) → IsForeign sb ip.addrs d c → IsForeign sb ip'.addrs d' c
  pub kept : (c j : ℕ) → IsForeign sb ip.addrs d c → in_dinode inum c j ≡ false → d' c j ≡ d c j

take_all : (m : ℕ) (bs : List ℕ) → length bs ≤ m → take m bs ≡ bs
take_all zero bs l = none_left bs l
  where
    none_left : (bs : List ℕ) → length bs ≤ 0 → take 0 bs ≡ bs
    none_left [] l = refl
    none_left (b ∷ bs) l = absurd (omega arith)
take_all (suc m) [] l = refl
take_all (suc m) (b ∷ bs) l = ap (λ bs. b ∷ bs) (take_all m bs (omega arith))

-- One write of all bytes.
pub IsWritten-IsStored :
    {sb : Superblock} {inum : ℕ} {ip : DiskInode} {off m : ℕ} {bs : List ℕ} {d : Disk} {n : ℕ}
    {ip' : DiskInode} {d' : Disk}
    → length bs ≤ m
    → IsWritten sb inum ip off (take m bs) d n ip' d'
    → IsStored sb inum ip off bs d ip' d'
IsWritten-IsStored {m = m} {bs = bs} l w =
    let v = rw (take_all m bs l) at w in
    record {
      file = v.file;
      bytes = v.bytes;
      size = v.size;
      rest = v.rest;
      saved = v.saved;
      foreign = v.foreign;
      kept = v.kept;
    }

module _ (sb : Superblock) (inum : ℕ) (ip ip' ip'' : DiskInode) (off m n : ℕ) (bs : List ℕ)
    (d d' d'' : Disk) (l : 0 < m) (fits : m < length bs)
    (w : IsWritten sb inum ip off (take m bs) d n ip' d')
    (v : IsStored sb inum ip' (off + m) (drop m bs) d' ip'' d'') where
  first_size : ip'.size ≡ (if ltb ip.size (off + m) then off + m else ip.size)
  first_size = let t : length (take m bs) ≡ m = omega (arith, length-take m bs) in rw t at w.size

  both_bytes :
      (j : ℕ)
      → j < 71680
      → byte_at ip''.addrs d'' j
        ≡ (if in_range off (length bs) j then get_or bs (j - off) 0 else byte_at ip.addrs d j)
  both_bytes j lj =
      let t : length (take m bs) ≡ m = omega (arith, length-take m bs) in
      let u : length (drop m bs) ≡ length bs - m = length-drop m bs in
      let all : m + (length bs - m) ≡ length bs = omega arith in
      let first : byte_at ip'.addrs d' j
          ≡ (if in_range off m j then get_or (take m bs) (j - off) 0 else byte_at ip.addrs d j) =
        rw t at (w.bytes j lj) in
      let second : byte_at ip''.addrs d'' j ≡ (
          if in_range (off + m) (length bs - m) j
          then get_or (drop m bs) (j - (off + m)) 0
          else byte_at ip'.addrs d' j) =
        rw u at (v.bytes j lj) in
      second ∙ elim (Bool-cases (in_range (off + m) (length bs - m) j)) [
        | inl late ↦
            let inside : in_range off (length bs) j ≡ true = ground arith in
            let at : m + (j - (off + m)) ≡ j - off = ground arith in
            rw (late, inside, ← at) (get_or-drop m bs (j - (off + m)))
        | inr early ↦
            let same : in_range off m j ≡ in_range off (length bs) j =
              range_parts off m (length bs - m) j early ∙ ap (λ k. in_range off k j) all in
            rw early (
              first ∙ elim (Bool-cases (in_range off (length bs) j)) [
                | inl hit ↦
                    let here = same ∙ hit in
                    rw (here, hit) (get_or-take m bs (j - off) (ground (arith, here)))
                | inr miss ↦ let here = same ∙ miss in rw (here, miss) refl
              ])
      ]

  second_grows : ip.size < off + length bs → ip'.size < off + m + length (drop m bs)
  second_grows g =
      let u = length-drop m bs in
      elim (Bool-cases (ltb ip.size (off + m))) [
        | inl grown ↦ let s : ip'.size ≡ off + m = first_size ∙ rw grown refl in omega arith
        | inr stays ↦ let s : ip'.size ≡ ip.size = first_size ∙ rw stays refl in omega arith
      ]

  both_size : ip''.size ≡ (if ltb ip.size (off + length bs) then off + length bs else ip.size)
  both_size =
      let u = length-drop m bs in
      let e : off + m + length (drop m bs) ≡ off + length bs = omega arith in
      let s : ip''.size ≡ (if ltb ip'.size (off + length bs) then off + length bs else ip'.size) =
        rw e at v.size in
      s ∙ elim (Bool-cases (ltb ip.size (off + length bs))) [
        | inl grown ↦
            let g = second_grows (ground arith) in
            let t : ltb ip'.size (off + length bs) ≡ true = ground arith in rw (t, grown) refl
        | inr stays ↦
            let first : ltb ip.size (off + m) ≡ false = ground arith in
            let same : ip'.size ≡ ip.size = first_size ∙ rw first refl in rw (same, stays) refl
      ]

  pub both-IsStored : IsStored sb inum ip off bs d ip'' d''
  both-IsStored = record {
    file = v.file;
    bytes = both_bytes;
    size = both_size;
    rest = (v.rest.0 ∙ w.rest.0, v.rest.1 ∙ w.rest.1);
    saved = λ g. v.saved (second_grows g);
    foreign = λ c h. v.foreign c (w.foreign c h);
    kept = λ c j h out. v.kept c j (w.foreign c h) out ∙ w.kept c j h out;
  }
