-- ===== src/Write/Logged.antt =====
-- `writei` with its calls of `log_write`: how much of the log a write takes.
use os.Prelude.{
  ℕ, zero, suc, ◌+◌, ◌-◌, ◌*◌, ◌/◌, ◌%◌, ◌≤◌, ◌<◌, ◌≡◌, ◌⊎◌, refl, inl, inr, ◌&&◌, List, ◌==◌, ltb,
  length, take, drop, length-drop, ok, ◌>>=◌, arith, Bool-cases,
}
use os.Inode.{DiskInode}
use os.Blocks.{Disk, Superblock, bblock}
use os.Bmap.{Addrs, bmap}
use os.Bmap.Files.{IsFile}
use os.Bmap.Maps.{Maps, bmap-Maps}
use os.Dinode.{iblock}
use os.Read.{min}
use os.Write.{write_bytes, write_rounds, writei_loop, grow_file, all_written}
use os.Write.Rounds.{Wrote, round-Wrote, after_round}
use os.Transact.{Trans, log_sector}
use os.Transact.Budget.{cost-any, cost-again}
use os.Transact.Runs.{
  Runs, runs, breaks, bind-Runs, log_sector-Runs, or_map, or_both, IsOpen, logged, logged-IsOpen,
  Costs,
}
use os.Transact.Mapping.{Mapped, bmap-Runs}

-- The block that `bmap` has found is logged.
data-Costs :
    {O : Type 0} {b n : ℕ} (r : ℕ × Addrs × Disk) {t : Trans}
    → Mapped O b n r t
    → Costs O b (r.1 12) (suc n) (logged r.0 t)
data-Costs {b = b} {n = n} r {t} m = record {
  opened = logged-IsOpen r.0 m.opened;
  fits =
      or_map
        (λ f. elim f [
          | inl cheap ↦ omega (arith, cost-any b (r.1 12) r.0 t.lh, cheap)
          | inr (dear, there) ↦ omega (arith, cost-again b (r.1 12) r.0 t.lh there, dear)
        ])
        m.fits;
}

Mapped-short :
    {O : Type 0} {b n : ℕ} (r : ℕ × Addrs × Disk) {t : Trans}
    → n ≤ 7
    → Mapped O b n r t
    → O ⊎ (length t.lh ≤ 8)
Mapped-short r l m =
    or_map (λ f. elim f [ inl cheap ↦ omega arith | inr (dear, there) ↦ omega arith ]) m.fits

-- Where the bytes at `off` reach into no more blocks than the log has left, with a cost of `n` so far.
unfoldable pub Room : Type 0 → ℕ → ℕ → List ℕ → Type 0
Room O n off bs = O ⊎ ((n ≤ 8) × (0 < length bs → off % 512 + length bs + 512 * n ≤ 4096))

-- The file of the next round.
next_file :
    (sb : Superblock) (off m : ℕ) (bs : List ℕ) (addrs : Addrs) (d : Disk) (r : ℕ × Addrs × Disk)
    → off < 71680
    → m ≤ length bs
    → m ≤ 512 - off % 512
    → IsFile sb addrs d
    → bmap sb (off / 512) addrs d ≡ ok r
    → IsFile sb (r.1) (write_bytes r.0 (off % 512) (take m bs) r.2)
unfolding Maps after_round
next_file sb off m bs addrs d (b, addrs', d') start l room f e =
    let (x, n, at) = rw e at (bmap-Maps sb (off / 512) addrs d (omega arith) f) in
    let w : Wrote sb off m bs addrs' d' addrs' (write_bytes b (off % 512) (take m bs) d') =
      round-Wrote sb off m bs addrs' d' b x.file (omega arith) at n l room in
    w.file

-- With `O`, nothing need be left of the log.
spare :
    {O : Type 0} {b i n : ℕ} {t : Trans} (off : ℕ) (bs : List ℕ)
    → 0 < length bs
    → Room O n off bs
    → Costs O b i n t
    → (k : ℕ) × (k ≤ 7) × Costs O b i k t × (O ⊎ (off % 512 + length bs + 512 * k ≤ 4096))
unfolding Room
spare off bs l (inl o) c = (0, omega arith, record { opened = c.opened; fits = inl o }, inl o)
spare {n = n} off bs l (inr (h, r)) c = let q = r l in (n, omega arith, c, inr q)

module _ {O : Type 0} (sb : Superblock) (small : O ⊎ (sb.size ≤ 4096)) where
  pub writei_loop-Runs :
      (fuel off n : ℕ) (bs : List ℕ) (addrs : Addrs) (d : Disk) (t : Trans)
      → off + length bs ≤ 71680
      → IsFile sb addrs d
      → Room O n off bs
      → Costs O (bblock sb 0) (addrs 12) n t
      → Runs O
          (λ r t'. IsOpen t' × (O ⊎ (length t'.lh ≤ 8)))
          (write_rounds sb fuel off bs addrs d)
          (writei_loop sb fuel off bs addrs d t)
  unfolding write_rounds writei_loop Room
  writei_loop-Runs zero off n bs addrs d t max f room c = breaks refl
  writei_loop-Runs (suc fuel) off n bs addrs d t max f room c = elim (Bool-cases (length bs == 0)) [
    | inl finished ↦ rw finished (runs refl (c.opened, or_both (λ r e. omega arith) room c.fits))
    | inr more ↦
        let m = min (length bs) (512 - off % 512) in
        let some_left : 0 < length bs = ground arith in
        let within : m ≤ length bs = ground arith in
        let block : m ≤ 512 - off % 512 = ground arith in
        let left = length-drop m bs in
        let (k, few, c', room') = spare off bs some_left room c in
        rw more (
          bind-Runs
            (λ (b, addrs', d').
              write_rounds sb fuel (off + m) (drop m bs) addrs'
                (write_bytes b (off % 512) (take m bs) d'))
            (λ ((b, addrs', d'), t'). log_sector b t' >>= λ t''.
              writei_loop sb fuel (off + m) (drop m bs) addrs'
                (write_bytes b (off % 512) (take m bs) d') t'')
            (bmap-Runs sb small (off / 512) k addrs d t (omega arith) f few c')
            (λ r t' e w.
              log_sector-Runs r.0 t'
                (λ t''.
                  writei_loop sb fuel (off + m) (drop m bs) (r.1)
                    (write_bytes r.0 (off % 512) (take m bs) r.2) t'')
                w.opened (Mapped-short r few w)
                (writei_loop-Runs fuel (off + m) (suc k) (drop m bs) (r.1)
                  (write_bytes r.0 (off % 512) (take m bs) r.2) (logged r.0 t')
                  (omega (arith, left))
                  (next_file sb off m bs addrs d r (omega arith) within block f e)
                  (or_map
                    (λ q. (
                      omega arith,
                      λ l. next_room off (length bs) (length (drop m bs)) k m refl left l q,
                    ))
                    room')
                  (data-Costs r w))))
  ]
    where
      next_room :
          (off n left k m : ℕ)
          → min n (512 - off % 512) ≡ m
          → left ≡ n - m
          → 0 < left
          → off % 512 + n + 512 * k ≤ 4096
          → (off + m) % 512 + left + 512 * suc k ≤ 4096
      next_room off n left k m e l p q =
          let full : m ≡ 512 - off % 512 = ground arith in
          let wraps : (off + m) % 512 ≡ 0 = omega arith in omega arith

  pub all_written-Runs :
      (inum : ℕ) (ip : DiskInode) (off : ℕ) (bs : List ℕ) (r : Addrs × Disk) (t : Trans)
      → IsOpen t
      → O ⊎ (length t.lh ≤ 8)
      → Runs O (λ w t'. IsOpen t') (grow_file inum ip off bs r) (all_written inum ip off bs (r, t))
  all_written-Runs inum ip off bs (addrs, d) t o l =
      elim (Bool-cases (ltb 0 (length bs) && ltb ip.size (off + length bs))) [
        | inl grows ↦
            rw grows
              (log_sector-Runs (iblock inum) t _ o l (runs refl (logged-IsOpen (iblock inum) o)))
        | inr stays ↦ rw stays (runs refl o)
      ]
