-- ===== src/Write/Updates.antt =====
-- The whole of `writei`, with the inode's update on the disk.
use os.Prelude.{
  ℕ, ◌+◌, ◌-◌, ◌/◌, ◌%◌, ◌≤◌, ◌<◌, ◌≡◌, ◌≢◌, refl, ◌∙◌, sym, ap, false, List, [], ◌⊎◌, ◌==◌, ltb,
  if◌then◌else◌, length, get_or, Outcome, ok, panic, fault, arith,
}
use os.Inode.{DiskInode}
use os.Blocks.{Disk, Superblock, bblock}
use os.Blocks.Search.{used}
use os.Bmap.{Addrs}
use os.Bmap.Words.{word-ext}
use os.Bmap.Addresses.{IsTaken}
use os.Bmap.Files.{pointer, byte_in, byte_at, byte_at-pointer, IsFile, IsForeign}
use os.Dinode.{in_dinode, dinode_at}
use os.Dinode.Bytes.{Fits, Same}
use os.Write.{Writing, refuses, writes}
use os.Write.Rounds.{in_range}
use os.Transact.{Trans}
use os.Transact.Runs.{Runs, IsOpen}

-- Only block `b`, which is not the file's, is written.
module _ (sb : Superblock) (addrs : Addrs) (d d' : Disk) (b : ℕ) (f : IsFile sb addrs d)
    (h : IsForeign sb addrs d b) (same : (c j : ℕ) → c ≢ b → d' c j ≡ d c j) where
  used-apart : (y : ℕ) → y < sb.size → used sb d' y ≡ used sb d y
  used-apart y l = rw (same (bblock sb y) (y % 4096 / 8) (h.taken.no_map y l)) refl

  IsTaken-apart : (c : ℕ) → IsTaken sb d c → IsTaken sb d' c
  IsTaken-apart c t = record {
    in_range = t.in_range;
    in_use = λ z. t.in_use (sym (used-apart c t.in_range) ∙ z);
    no_map = t.no_map;
  }

  pub pointer-apart : (k : ℕ) → pointer addrs d' k ≡ pointer addrs d k
  pointer-apart k =
      ap
        (λ w.
          if k == 140
          then addrs 12
          else if ltb k 12
          then addrs k
          else if addrs 12 == 0
          then 0
          else w)
        (word-ext d d' (addrs 12) (k - 12) (λ j. same (addrs 12) j (h.no_block 140 (omega arith))))

  pub apart-IsFile : IsFile sb addrs d'
  apart-IsFile = record {
    inode = record {
      bitmap = λ y l.
          let (inside, u) = f.inode.bitmap y l in
          (inside, λ z. u (sym (used-apart (bblock sb y) inside) ∙ z));
      small = f.inode.small;
      some_size = f.inode.some_size;
      reserved = λ z. f.inode.reserved (sym (used-apart 0 f.inode.some_size) ∙ z);
      indirect = λ m. IsTaken-apart (addrs 12) (f.inode.indirect m);
    };
    taken = λ k l m.
        rw (pointer-apart k)
          (IsTaken-apart (pointer addrs d k) (f.taken k l (λ z. m (pointer-apart k ∙ z))));
    distinct = λ j k lj lk m e.
        f.distinct j k lj lk (λ z. m (pointer-apart j ∙ z))
          (sym (pointer-apart j) ∙ e ∙ pointer-apart k);
  }

  pub apart-IsForeign : (c : ℕ) → IsForeign sb addrs d c → IsForeign sb addrs d' c
  apart-IsForeign c g = record {
    taken = IsTaken-apart c g.taken;
    no_block = λ k l e. g.no_block k l (sym (pointer-apart k) ∙ e);
  }

  pub bytes-apart : (j : ℕ) → j < 71680 → byte_at addrs d' j ≡ byte_at addrs d j
  bytes-apart j l =
      byte_at-pointer addrs d' j l
      ∙ ap (λ q. byte_in d' q (j % 512)) (pointer-apart (j / 512))
      ∙ ap (λ x. if pointer addrs d (j / 512) == 0 then 0 else x)
          (same (pointer addrs d (j / 512)) (j % 512) (h.no_block (j / 512) (omega arith)))
      ∙ sym (byte_at-pointer addrs d j l)

-- What `writei` makes of the file: the bytes stand at `off`, its other bytes are as before, it has
-- grown as far as they reach, and every block that is not the file's is left alone, but for the
-- inode's own bytes.
pub record IsWritten (sb : Superblock) (inum : ℕ) (ip : DiskInode) (off : ℕ) (bs : List ℕ)
    (d : Disk) (n : ℕ) (ip' : DiskInode) (d' : Disk) : Type 0 where
  pub all : n ≡ length bs
  pub file : IsFile sb ip'.addrs d'
  pub bytes :
      (j : ℕ)
      → j < 71680
      → byte_at ip'.addrs d' j
        ≡ (if in_range off (length bs) j then get_or bs (j - off) 0 else byte_at ip.addrs d j)
  pub filled : (j : ℕ) → off ≤ j → j < off + length bs → pointer ip'.addrs d' (j / 512) ≢ 0
  pub size : ip'.size ≡ (if ltb ip.size (off + length bs) then off + length bs else ip.size)
  pub rest : (ip'.type ≡ ip.type) × (ip'.nlink ≡ ip.nlink)
  pub saved : ip.size < off + length bs → Fits ip' → Same (dinode_at d' inum) ip'
  pub foreign : (c : ℕ) → IsForeign sb ip.addrs d c → IsForeign sb ip'.addrs d' c
  pub kept : (c j : ℕ) → IsForeign sb ip.addrs d c → in_dinode inum c j ≡ false → d' c j ≡ d c j

-- The same, without the log.
unfoldable Fills : Superblock → ℕ → DiskInode → ℕ → List ℕ → Disk → Outcome Writing → Type 0
Fills sb inum ip off bs d (ok refuses) = ⊥
Fills sb inum ip off bs d (ok (writes n ip' d')) = IsWritten sb inum ip off bs d n ip' d'
Fills sb inum ip off bs d (panic m) = m ≡ "balloc: out of blocks"
Fills sb inum ip off bs d fault = ⊥

-- A write that fits the log: one transaction's first, into six blocks, on a disk with one block of
-- marks.
pub record IsSmall (sb : Superblock) (off : ℕ) (bs : List ℕ) (t : Trans) : Type 0 where
  pub one_map : sb.size ≤ 4096
  pub first : t.lh ≡ []
  pub reach : off % 512 + length bs ≤ 3072

-- The bytes are written and the transaction goes on; or the disk is full; or, for a write that is not
-- small, the log.
unfoldable pub WritesAll :
    Superblock → ℕ → DiskInode → ℕ → List ℕ → Disk → Trans → Outcome (Writing × Trans) → Type 0
WritesAll sb inum ip off bs d t (ok (refuses, t')) = ⊥
WritesAll sb inum ip off bs d t (ok (writes n ip' d', t')) =
    IsWritten sb inum ip off bs d n ip' d' × IsOpen t'
WritesAll sb inum ip off bs d t (panic m) =
    (m ≡ "balloc: out of blocks") ⊎ ((m ≡ "too big a transaction") × (¬ IsSmall sb off bs t))
WritesAll sb inum ip off bs d t fault = ⊥
