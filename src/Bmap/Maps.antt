-- ===== src/Bmap/Maps.antt =====
-- What `bmap` does to a file.
use mathlib.Core.Path.{subst}
use os.Prelude.{
  ℕ, ◌+◌, ◌-◌, ◌<◌, ◌≡◌, ◌≢◌, refl, ◌∙◌, sym, true, ◌==◌, ltb, Outcome, ok, panic, fault, ◌>>=◌,
  arith, if_split,
}
use os.Blocks.{Disk, Superblock, balloc}
use os.Blocks.Alloc.{IsAllocated, BallocEnds, balloc_lem}
use os.Bmap.{Addrs, set_addr, word, set_word, addr_at, word_at, allocated, put_word, bmap}
use os.Bmap.Addresses.{fresh_nonzero}
use os.Bmap.Files.{
  pointer, pointer-block_of, IsFile, Extends, Extends-refl, Extends-trans, Adds, adds-Extends,
}
use os.Bmap.Adding.{block_of-indirect, direct-Adds, indirect-Adds, word-Adds}

-- Pointer `k` of the file is there, and is returned.
unfoldable pub Maps : Superblock → ℕ → Addrs → Disk → Outcome (ℕ × Addrs × Disk) → Type 0
Maps sb k addrs d (ok (b, addrs', d')) =
    Extends sb addrs d addrs' d' × (b ≢ 0) × (pointer addrs' d' k ≡ b)
Maps sb k addrs d (panic m) = m ≡ "balloc: out of blocks"
Maps sb k addrs d fault = ⊥

Adds-Maps :
    (sb : Superblock) (addrs addrs' : Addrs) (d d' d'' : Disk) (t x : ℕ)
    → IsFile sb addrs d
    → IsAllocated sb d x d'
    → Adds sb addrs d t x addrs' d''
    → Maps sb t addrs d (ok (x, addrs', d''))
unfolding Maps
Adds-Maps sb addrs addrs' d d' d'' t x f a b =
    let n = fresh_nonzero sb d d' x a f.inode.reserved in
    let it : (t == t) ≡ true = ground arith in
    (adds-Extends sb addrs addrs' d d'' t x f b n, n, b.pointers t b.target ∙ rw it refl)

direct-Maps :
    (sb : Superblock) (i : ℕ) (addrs : Addrs) (d : Disk) (o : Outcome (ℕ × Disk))
    → i < 12
    → IsFile sb addrs d
    → addrs i ≡ 0
    → BallocEnds sb d o
    → Maps sb i addrs d (o >>= allocated i addrs)
unfolding Maps BallocEnds
direct-Maps sb i addrs d (ok (x, d')) l f bare a =
    Adds-Maps sb addrs (set_addr i x addrs) d d' d' i x f a
      (direct-Adds sb addrs d d' x f.inode a i l bare)
direct-Maps sb i addrs d (panic m) l f bare (e, all) = e
direct-Maps sb i addrs d fault l f bare a = a

indirect-Maps :
    (sb : Superblock) (addrs : Addrs) (d : Disk) (o : Outcome (ℕ × Disk))
    → IsFile sb addrs d
    → addrs 12 ≡ 0
    → BallocEnds sb d o
    → Maps sb 140 addrs d (o >>= allocated 12 addrs)
unfolding Maps BallocEnds
indirect-Maps sb addrs d (ok (x, d')) f bare a =
    Adds-Maps sb addrs (set_addr 12 x addrs) d d' d' 140 x f a
      (indirect-Adds sb addrs d d' x f.inode a bare)
indirect-Maps sb addrs d (panic m) f bare (e, all) = e
indirect-Maps sb addrs d fault f bare a = a

word-Maps :
    (sb : Superblock) (k : ℕ) (addrs : Addrs) (d : Disk) (o : Outcome (ℕ × Disk))
    → k < 128
    → IsFile sb addrs d
    → addrs 12 ≢ 0
    → word d (addrs 12) k ≡ 0
    → BallocEnds sb d o
    → Maps sb (12 + k) addrs d (o >>= put_word (addrs 12) k addrs)
unfolding Maps BallocEnds
word-Maps sb k addrs d (ok (x, d')) l f n bare a =
    Adds-Maps sb addrs addrs d d' (set_word (addrs 12) k x d') (12 + k) x f a
      (word-Adds sb addrs d d' x f.inode a k l n bare)
word-Maps sb k addrs d (panic m) l f n bare (e, all) = e
word-Maps sb k addrs d fault l f n bare a = a

-- A pointer that is there already.
there-Maps :
    (sb : Superblock) (k b : ℕ) (addrs : Addrs) (d : Disk)
    → IsFile sb addrs d
    → b ≢ 0
    → pointer addrs d k ≡ b
    → Maps sb k addrs d (ok (b, addrs, d))
unfolding Maps
there-Maps sb k b addrs d f n e = (Extends-refl sb addrs d f, n, e)

direct_at-Maps :
    (sb : Superblock) (i : ℕ) (addrs : Addrs) (d : Disk)
    → i < 12
    → IsFile sb addrs d
    → Maps sb i addrs d (addr_at sb i addrs d)
unfolding addr_at
direct_at-Maps sb i addrs d l f =
    if_split (Maps sb i addrs d) (addrs i == 0)
      (λ bare.
        direct-Maps sb i addrs d (balloc sb d) l f (ground arith) (balloc_lem sb d f.inode.bitmap))
      (λ there.
        let low : ltb i 12 ≡ true = ground arith in
        there-Maps sb i (addrs i) addrs d f (λ e. ground (arith, there, e))
          (pointer-block_of addrs d i (omega arith) ∙ rw low refl))

pub indirect_at-Maps :
    (sb : Superblock) (addrs : Addrs) (d : Disk)
    → IsFile sb addrs d
    → Maps sb 140 addrs d (addr_at sb 12 addrs d)
unfolding addr_at
indirect_at-Maps sb addrs d f =
    if_split (Maps sb 140 addrs d) (addrs 12 == 0)
      (λ bare.
        indirect-Maps sb addrs d (balloc sb d) f (ground arith) (balloc_lem sb d f.inode.bitmap))
      (λ there. there-Maps sb 140 (addrs 12) addrs d f (λ e. ground (arith, there, e)) refl)

word_at-Maps :
    (sb : Superblock) (k : ℕ) (addrs : Addrs) (d : Disk)
    → k < 128
    → IsFile sb addrs d
    → addrs 12 ≢ 0
    → Maps sb (12 + k) addrs d (word_at sb k (addrs 12, addrs, d))
unfolding word_at
word_at-Maps sb k addrs d l f n =
    if_split (Maps sb (12 + k) addrs d) (word d (addrs 12) k == 0)
      (λ bare.
        word-Maps sb k addrs d (balloc sb d) l f n (ground arith) (balloc_lem sb d f.inode.bitmap))
      (λ there.
        there-Maps sb (12 + k) (word d (addrs 12) k) addrs d f (λ e. ground (arith, there, e))
          (pointer-block_of addrs d (12 + k) (omega arith) ∙ block_of-indirect addrs d k n))

Maps-after :
    (sb : Superblock) (addrs addrs' : Addrs) (d d' : Disk) (k : ℕ) (o : Outcome (ℕ × Addrs × Disk))
    → Extends sb addrs d addrs' d'
    → Maps sb k addrs' d' o
    → Maps sb k addrs d o
unfolding Maps
Maps-after sb addrs addrs' d d' k (ok (b, addrs'', d'')) e (f, n, p) =
    (Extends-trans sb addrs addrs' addrs'' d d' d'' e f, n, p)
Maps-after sb addrs addrs' d d' k (panic m) e p = p
Maps-after sb addrs addrs' d d' k fault e p = p

behind-Maps :
    (sb : Superblock) (addrs : Addrs) (d : Disk) (k : ℕ) (o : Outcome (ℕ × Addrs × Disk))
    → k < 128
    → Maps sb 140 addrs d o
    → Maps sb (12 + k) addrs d (o >>= word_at sb k)
unfolding Maps
behind-Maps sb addrs d k (ok (b, addrs', d')) l (e, n, here) =
    Maps-after sb addrs addrs' d d' (12 + k) (word_at sb k (b, addrs', d')) e
      (rw (← here) (word_at-Maps sb k addrs' d' l e.file (λ z. n (sym here ∙ z))))
behind-Maps sb addrs d k (panic m) l e = e
behind-Maps sb addrs d k fault l e = e

-- For a block that a file can have `bmap` returns the file's block, a new one where there was none.
-- The file's blocks stay distinct and marked as in use, the file keeps all its bytes, where a missing
-- block counts as zeros, and no other file's block and no inode block is written. Else the disk is
-- full and it panics.
pub bmap-Maps :
    (sb : Superblock) (bn : ℕ) (addrs : Addrs) (d : Disk)
    → bn < 140
    → IsFile sb addrs d
    → Maps sb bn addrs d (bmap sb bn addrs d)
unfolding bmap
bmap-Maps sb bn addrs d l f =
    if_split (Maps sb bn addrs d) (ltb bn 12)
      (λ direct. direct_at-Maps sb bn addrs d (ground arith) f)
      (λ past.
        let inside : ltb (bn - 12) 128 ≡ true = ground arith in
        let at : 12 + (bn - 12) ≡ bn = ground arith in
        rw inside (
          subst (λ k. Maps sb k addrs d (addr_at sb 12 addrs d >>= word_at sb (bn - 12))) at
            (behind-Maps sb addrs d (bn - 12) (addr_at sb 12 addrs d) (omega arith)
              (indirect_at-Maps sb addrs d f))))
