-- ===== src/Write/Files.antt =====
-- The loop of `writei` against the bytes of a file.
use mathlib.Core.Path.{subst}
use os.Prelude.{
  ℕ, zero, suc, ◌+◌, ◌-◌, ◌/◌, ◌%◌, ◌≤◌, ◌<◌, ◌≡◌, List, ◌==◌, length, take, drop, length-drop,
  Outcome, ok, panic, fault, ◌>>=◌, arith, if_split,
}
use os.Blocks.{Disk, Superblock}
use os.Bmap.{Addrs, bmap}
use os.Bmap.Files.{IsFile}
use os.Bmap.Maps.{Maps, bmap-Maps}
use os.Read.{min}
use os.Write.{write_bytes, write_rounds}
use os.Write.Rounds.{Wrote, Extends-Wrote, Wrote-Wrote, nothing-Wrote, round-Wrote, after_round}

unfoldable pub Writes : Superblock → ℕ → List ℕ → Addrs → Disk → Outcome (Addrs × Disk) → Type 0
Writes sb off bs addrs d (ok (addrs', d')) = Wrote sb off (length bs) bs addrs d addrs' d'
Writes sb off bs addrs d (panic m) = m ≡ "balloc: out of blocks"
Writes sb off bs addrs d fault = ⊥

rest-Writes :
    (sb : Superblock) (off m : ℕ) (bs : List ℕ) (addrs addrs' : Addrs) (d d' : Disk)
    (o : Outcome (Addrs × Disk))
    → m ≤ length bs
    → off + length bs ≤ 71680
    → Wrote sb off m bs addrs d addrs' d'
    → Writes sb (off + m) (drop m bs) addrs' d' o
    → Writes sb off bs addrs d o
unfolding Writes
rest-Writes sb off m bs addrs addrs' d d' (ok (addrs'', d'')) l max v w =
    let parts : m + length (drop m bs) ≡ length bs = omega (arith, length-drop m bs) in
    subst (λ n. Wrote sb off n bs addrs d addrs'' d'') parts
      (Wrote-Wrote sb off m (length (drop m bs)) bs addrs addrs' addrs'' d d' d'' (omega arith) v w)
rest-Writes sb off m bs addrs addrs' d d' (panic e) l max v w = w
rest-Writes sb off m bs addrs addrs' d d' fault l max v w = w

round-Writes :
    (sb : Superblock) (off m : ℕ) (bs : List ℕ) (addrs : Addrs) (d : Disk)
    (rest : Addrs → Disk → Outcome (Addrs × Disk)) (o : Outcome (ℕ × Addrs × Disk))
    → off + length bs ≤ 71680
    → off < 71680
    → m ≤ length bs
    → m ≤ 512 - off % 512
    → ((addrs' : Addrs) (d' : Disk)
        → IsFile sb addrs' d'
        → Writes sb (off + m) (drop m bs) addrs' d' (rest addrs' d'))
    → Maps sb (off / 512) addrs d o
    → Writes sb off bs addrs d
        (o >>= λ (b, addrs', d'). rest addrs' (write_bytes b (off % 512) (take m bs) d'))
unfolding Maps Writes after_round
round-Writes sb off m bs addrs d rest (ok (b, addrs', d')) max start l room ih (e, n, at) =
    let d'' = write_bytes b (off % 512) (take m bs) d' in
    let w : Wrote sb off m bs addrs' d' addrs' d'' =
      round-Wrote sb off m bs addrs' d' b e.file (omega arith) at n l room in
    rest-Writes sb off m bs addrs addrs' d d'' (rest addrs' d'') l max
      (Extends-Wrote sb off m bs addrs addrs' addrs' d d' d'' e w) (ih addrs' d'' w.file)
round-Writes sb off m bs addrs d rest (panic x) max start l room ih e = e
round-Writes sb off m bs addrs d rest fault max start l room ih e = e

pub write_rounds-Writes :
    (sb : Superblock) (fuel off : ℕ) (bs : List ℕ) (addrs : Addrs) (d : Disk)
    → off + length bs ≤ 71680
    → length bs < fuel
    → IsFile sb addrs d
    → Writes sb off bs addrs d (write_rounds sb fuel off bs addrs d)
unfolding write_rounds Writes
write_rounds-Writes sb zero off bs addrs d max l f = absurd (omega arith)
write_rounds-Writes sb (suc fuel) off bs addrs d max l f =
    let m = min (length bs) (512 - off % 512) in
    let within : m ≤ length bs = ground arith in
    let room : m ≤ 512 - off % 512 = ground arith in
    if_split (Writes sb off bs addrs d) (length bs == 0)
      (λ finished.
        let e : 0 ≡ length bs = ground arith in
        subst (λ n. Wrote sb off n bs addrs d addrs d) e (nothing-Wrote sb off bs addrs d f))
      (λ more.
        let some_left : 0 < length bs = ground arith in
        let moves : 0 < m = ground arith in
        round-Writes sb off m bs addrs d
          (λ addrs' d'. write_rounds sb fuel (off + m) (drop m bs) addrs' d')
          (bmap sb (off / 512) addrs d) max (omega arith) within room
          (λ addrs' d' f'.
            let left = length-drop m bs in
            write_rounds-Writes sb fuel (off + m) (drop m bs) addrs' d' (omega (arith, left))
              (omega (arith, left)) f')
          (bmap-Maps sb (off / 512) addrs d (omega arith) f))
