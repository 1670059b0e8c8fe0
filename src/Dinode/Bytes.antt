-- ===== src/Dinode/Bytes.antt =====
-- What `iupdate` writes, read back.
use os.Prelude.{
  ℕ, ◌+◌, ◌-◌, ◌*◌, ◌/◌, ◌%◌, ◌<◌, ◌≡◌, ◌≢◌, refl, ◌∙◌, ap, inl, inr, true, false, ◌&&◌, ◌==◌, ltb,
  arith, Bool-cases,
}
use os.Inode.{DiskInode}
use os.Blocks.{Disk}
use os.Bmap.{word, byte_of}
use os.Dinode.{iblock, half, dinode_at, dinode_byte, in_dinode, iupdate}

-- The fields fit their types.
pub record Fits (ip : DiskInode) : Type 0 where
  pub type : ip.type < 65536
  pub major : ip.major < 65536
  pub minor : ip.minor < 65536
  pub nlink : ip.nlink < 65536
  pub size : ip.size < 4294967296
  pub addrs : (i : ℕ) → i < 13 → ip.addrs i < 4294967296

-- The same inode, of whose addresses there are thirteen.
pub record Same (ip ip' : DiskInode) : Type 0 where
  pub type : ip.type ≡ ip'.type
  pub major : ip.major ≡ ip'.major
  pub minor : ip.minor ≡ ip'.minor
  pub nlink : ip.nlink ≡ ip'.nlink
  pub size : ip.size ≡ ip'.size
  pub addrs : (i : ℕ) → i < 13 → ip.addrs i ≡ ip'.addrs i

-- Byte `k` of the inode that was written.
byte_here :
    (inum k : ℕ) (ip : DiskInode) (d : Disk)
    → k < 64
    → iupdate inum ip d (iblock inum) (64 * (inum % 8) + k) ≡ dinode_byte ip k
unfolding iupdate
byte_here inum k ip d l =
    let place : (64 * (inum % 8) + k) / 64 ≡ inum % 8 = omega arith in
    let low : (64 * (inum % 8) + k) % 64 ≡ k = omega arith in
    let self : (iblock inum == iblock inum) ≡ true = ground arith in
    let here : (inum % 8 == inum % 8) ≡ true = ground arith in rw (place, low, self, here) refl

module _ (inum : ℕ) (ip : DiskInode) (d : Disk) where
  half_here :
      (o v : ℕ)
      → o < 63
      → v < 65536
      → dinode_byte ip o ≡ byte_of v 0
      → dinode_byte ip (o + 1) ≡ byte_of v 1
      → half (iupdate inum ip d) (iblock inum) (64 * (inum % 8) + o) ≡ v
  half_here o v l b e f =
      let next : 64 * (inum % 8) + o + 1 ≡ 64 * (inum % 8) + (o + 1) = omega arith in
      let low = byte_here inum o ip d (omega arith) ∙ e in
      let high = byte_here inum (o + 1) ip d (omega arith) ∙ f in rw (next, low, high) (omega arith)

  word_here :
      (w v : ℕ)
      → w < 16
      → v < 4294967296
      → ((j : ℕ) → j < 4 → dinode_byte ip (4 * w + j) ≡ byte_of v j)
      → word (iupdate inum ip d) (iblock inum) (16 * (inum % 8) + w) ≡ v
  word_here w v l b h =
      let at : (j : ℕ)
          → j < 4
          → iupdate inum ip d (iblock inum) (4 * (16 * (inum % 8) + w) + j) ≡ byte_of v j =
        λ j lj.
          ap (iupdate inum ip d (iblock inum)) (omega arith)
          ∙ byte_here inum (4 * w + j) ip d (omega arith)
          ∙ h j lj in
      let first : iupdate inum ip d (iblock inum) (4 * (16 * (inum % 8) + w)) ≡ byte_of v 0 =
        ap (iupdate inum ip d (iblock inum)) (omega arith) ∙ at 0 (omega arith) in
      rw (first, at 1 (omega arith), at 2 (omega arith), at 3 (omega arith)) (omega arith)

size_byte : (ip : DiskInode) (j : ℕ) → j < 4 → dinode_byte ip (8 + j) ≡ byte_of ip.size j
size_byte ip j l =
    let a : ltb (8 + j) 2 ≡ false = ground arith in
    let b : ltb (8 + j) 4 ≡ false = ground arith in
    let c : ltb (8 + j) 6 ≡ false = ground arith in
    let e : ltb (8 + j) 8 ≡ false = ground arith in
    let f : ltb (8 + j) 12 ≡ true = ground arith in
    let at : 8 + j - 8 ≡ j = omega arith in rw (a, b, c, e, f, at) refl

addr_byte :
    (ip : DiskInode) (i j : ℕ) → j < 4 → dinode_byte ip (4 * (i + 3) + j) ≡ byte_of (ip.addrs i) j
addr_byte ip i j l =
    let k = 4 * (i + 3) + j in
    let a : ltb k 2 ≡ false = ground arith in
    let b : ltb k 4 ≡ false = ground arith in
    let c : ltb k 6 ≡ false = ground arith in
    let e : ltb k 8 ≡ false = ground arith in
    let f : ltb k 12 ≡ false = ground arith in
    let at : (k - 12) / 4 ≡ i = omega arith in
    let low : (k - 12) % 4 ≡ j = omega arith in rw (a, b, c, e, f, at, low) refl

iupdate-Same :
    (inum : ℕ) (ip : DiskInode) (d : Disk) → Fits ip → Same (dinode_at (iupdate inum ip d) inum) ip
iupdate-Same inum ip d f =
    let d' = iupdate inum ip d in
    let b = iblock inum in
    record {
      type =
          ap (half d' b) (omega arith)
          ∙ half_here inum ip d 0 ip.type (omega arith) f.type refl refl;
      major = half_here inum ip d 2 ip.major (omega arith) f.major refl refl;
      minor = half_here inum ip d 4 ip.minor (omega arith) f.minor refl refl;
      nlink = half_here inum ip d 6 ip.nlink (omega arith) f.nlink refl refl;
      size = word_here inum ip d 2 ip.size (omega arith) f.size (λ j l. size_byte ip j l);
      addrs = λ i l.
          ap (word d' b) (omega arith)
          ∙ word_here inum ip d (i + 3) (ip.addrs i) (omega arith) (f.addrs i l)
              (λ j lj. addr_byte ip i j lj);
    }

-- A change of the bytes of inode `inum` alone.
pub other-Same :
    (inum : ℕ) (d d' : Disk)
    → ((c j : ℕ) → in_dinode inum c j ≡ false → d' c j ≡ d c j)
    → (other : ℕ) → other ≢ inum
    → Same (dinode_at d' other) (dinode_at d other)
other-Same inum d d' h other ne =
    let kept : (k : ℕ)
        → k < 64
        → d' (iblock other) (64 * (other % 8) + k) ≡ d (iblock other) (64 * (other % 8) + k) =
      λ k l.
        let place : (64 * (other % 8) + k) / 64 ≡ other % 8 = omega arith in
        h (iblock other) (64 * (other % 8) + k) (
          rw place (elim (Bool-cases (iblock other == iblock inum && other % 8 == inum % 8)) [
            | inl both ↦
                let e : iblock other ≡ iblock inum = ground arith in
                let f : other % 8 ≡ inum % 8 = ground arith in absurd (ne (omega arith))
            | inr no_place ↦ no_place
          ])) in
    let halves : (o : ℕ)
        → o < 63
        → half d' (iblock other) (64 * (other % 8) + o)
          ≡ half d (iblock other) (64 * (other % 8) + o) =
      λ o l.
        let next : 64 * (other % 8) + o + 1 ≡ 64 * (other % 8) + (o + 1) = omega arith in
        rw (next, kept o (omega arith), kept (o + 1) (omega arith)) refl in
    let words : (w : ℕ)
        → w < 16
        → word d' (iblock other) (16 * (other % 8) + w)
          ≡ word d (iblock other) (16 * (other % 8) + w) =
      λ w l.
        let at : (j : ℕ)
            → j < 4
            → d' (iblock other) (4 * (16 * (other % 8) + w) + j)
              ≡ d (iblock other) (4 * (16 * (other % 8) + w) + j) =
          λ j lj.
            ap (d' (iblock other)) (omega arith)
            ∙ kept (4 * w + j) (omega arith)
            ∙ ap (d (iblock other)) (omega arith) in
        let first : d' (iblock other) (4 * (16 * (other % 8) + w))
            ≡ d (iblock other) (4 * (16 * (other % 8) + w)) =
          ap (d' (iblock other)) (omega arith)
          ∙ at 0 (omega arith)
          ∙ ap (d (iblock other)) (omega arith) in
        rw (first, at 1 (omega arith), at 2 (omega arith), at 3 (omega arith)) refl in
    record {
      type =
          ap (half d' (iblock other)) (omega arith)
          ∙ halves 0 (omega arith)
          ∙ ap (half d (iblock other)) (omega arith);
      major = halves 2 (omega arith);
      minor = halves 4 (omega arith);
      nlink = halves 6 (omega arith);
      size = words 2 (omega arith);
      addrs = λ i l.
          ap (word d' (iblock other)) (omega arith)
          ∙ words (i + 3) (omega arith)
          ∙ ap (word d (iblock other)) (omega arith);
    }

pub iupdate-else :
    (inum : ℕ) (ip : DiskInode) (d : Disk) (c j : ℕ)
    → in_dinode inum c j ≡ false
    → iupdate inum ip d c j ≡ d c j
unfolding iupdate
iupdate-else inum ip d c j h = rw h refl

-- An inode written by `iupdate` is read back with all its fields, every other inode reads as before,
-- and no byte outside of the inode is written.
pub dinode_at-iupdate :
    (inum : ℕ) (ip : DiskInode) (d : Disk)
    → Fits ip
    → Same (dinode_at (iupdate inum ip d) inum) ip
      × ((other : ℕ)
          → other ≢ inum
          → Same (dinode_at (iupdate inum ip d) other) (dinode_at d other))
      × ((c j : ℕ) → in_dinode inum c j ≡ false → iupdate inum ip d c j ≡ d c j)
dinode_at-iupdate inum ip d f = (
  iupdate-Same inum ip d f,
  other-Same inum d (iupdate inum ip d) (iupdate-else inum ip d),
  iupdate-else inum ip d,
)
