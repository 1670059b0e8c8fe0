-- ===== src/Read/Files.antt =====
-- `readi` against the bytes of a file.
use os.Prelude.{
  ℕ, zero, suc, ◌+◌, ◌-◌, ◌/◌, ◌%◌, ◌≤◌, ◌<◌, ◌≡◌, ◌≢◌, refl, ◌∙◌, sym, ap, inl, inr, true, false,
  ◌||◌, List, ◌++◌, ◌==◌, ltb, Option, ok, arith, Bool-cases,
}
use os.Inode.{DiskInode}
use os.Blocks.{Disk, Superblock}
use os.Bmap.{Addrs, bmap, addr_at, word_at, word}
use os.Bmap.Addresses.{block_of}
use os.Bmap.Files.{byte_at}
use os.Read.{t_dev, bytes_from, min, clipped, reads, read_loop, readi}
use os.Read.Bytes.{bytes_from-ext, bytes_from-append}

-- The file has a block for each of its bytes from `lo` up to `hi`.
abbrev pub IsDense : Addrs → Disk → ℕ → ℕ → Type 0
IsDense addrs d lo hi = (j : ℕ) → lo ≤ j → j < hi → block_of addrs d (j / 512) ≢ 0

nonzero_test : (x : ℕ) → x ≢ 0 → (x == 0) ≡ false
nonzero_test x n = ground (arith, n)

bmap-block_of :
    (sb : Superblock) (bn : ℕ) (addrs : Addrs) (d : Disk)
    → bn < 140
    → block_of addrs d bn ≢ 0
    → bmap sb bn addrs d ≡ ok (block_of addrs d bn, addrs, d)
unfolding bmap addr_at word_at
bmap-block_of sb bn addrs d l n = elim (Bool-cases (ltb bn 12)) [
  | inl direct ↦
      let ne : addrs bn ≢ 0 =
        λ e. let none_there : block_of addrs d bn ≡ 0 = rw direct e in n none_there in
      let there : (addrs bn == 0) ≡ false = ground (arith, ne) in rw (direct, there) refl
  | inr past ↦
      let inside : ltb (bn - 12) 128 ≡ true = ground arith in
      let indirect_there : addrs 12 ≢ 0 = λ e.
        let bare : (addrs 12 == 0) ≡ true = ground (arith, e) in
        let none_there : block_of addrs d bn ≡ 0 = rw (past, bare) refl in n none_there in
      let indirect : (addrs 12 == 0) ≡ false = ground (arith, indirect_there) in
      let same : block_of addrs d bn ≡ word d (addrs 12) (bn - 12) = rw (past, indirect) refl in
      let word_there : word d (addrs 12) (bn - 12) ≢ 0 = λ e. n (same ∙ e) in
      let there : (word d (addrs 12) (bn - 12) == 0) ≡ false =
        nonzero_test (word d (addrs 12) (bn - 12)) word_there in
      rw (past, inside, indirect, there) refl
]

-- A round's bytes, and those of the rounds after it.
byte_at-parts :
    (addrs : Addrs) (d : Disk) (off left m : ℕ)
    → block_of addrs d (off / 512) ≢ 0
    → m ≤ left
    → m ≤ 512 - off % 512
    → bytes_from (byte_at addrs d) off left
      ≡ bytes_from (d (block_of addrs d (off / 512))) (off % 512) m
        ++ bytes_from (byte_at addrs d) (off + m) (left - m)
byte_at-parts addrs d off left m n l r =
    let parts : left ≡ m + (left - m) = omega arith in
    let there = nonzero_test (block_of addrs d (off / 512)) n in
    let here : bytes_from (byte_at addrs d) off m
        ≡ bytes_from (d (block_of addrs d (off / 512))) (off % 512) m =
      bytes_from-ext (byte_at addrs d) (d (block_of addrs d (off / 512))) m off (off % 512) λ j b.
        let block : (off + j) / 512 ≡ off / 512 = omega arith in
        let at : (off + j) % 512 ≡ off % 512 + j = omega arith in rw (block, at, there) refl in
    ap (bytes_from (byte_at addrs d) off) parts
    ∙ bytes_from-append (byte_at addrs d) m (left - m) off
    ∙ ap (λ bs. bs ++ bytes_from (byte_at addrs d) (off + m) (left - m)) here

read_loop_lem :
    (sb : Superblock) (addrs : Addrs) (d : Disk) (hi fuel off left : ℕ)
    → hi ≤ 71680
    → off + left ≤ hi
    → IsDense addrs d off hi
    → left < fuel
    → read_loop sb fuel off left addrs d ≡ ok (bytes_from (byte_at addrs d) off left, addrs, d)
unfolding read_loop
read_loop_lem sb addrs d hi zero off left max b dense f = absurd (omega arith)
read_loop_lem sb addrs d hi (suc fuel) off left max b dense f = elim (Bool-cases (left == 0)) [
  | inl finished ↦ let e : left ≡ 0 = ground arith in rw (finished, e) refl
  | inr more ↦
      let m = min left (512 - off % 512) in
      let some_left : 0 < left = ground arith in
      let within : m ≤ left = ground arith in
      let room : m ≤ 512 - off % 512 = ground arith in
      let moves : 0 < m = ground arith in
      let block = dense off (omega arith) (omega arith) in
      let there = bmap-block_of sb (off / 512) addrs d (omega arith) block in
      let rest =
        read_loop_lem sb addrs d hi fuel (off + m) (left - m) max (omega arith)
          (λ j a. dense j (omega arith)) (omega arith) in
      rw (more, there, rest)
        (ap (λ bs. ok (bs, addrs, d)) (sym (byte_at-parts addrs d off left m block within room)))
]

-- Where a file has a block for each of the bytes asked for, `readi` returns the bytes from `off` on,
-- `n` of them or those up to the end of the file, and changes neither the file nor the disk.
pub readi_lem :
    (sb : Superblock) (devsw : ℕ → Option (ℕ → List ℕ)) (ip : DiskInode) (off n : ℕ) (d : Disk)
    → ip.type ≢ t_dev
    → ip.size ≤ 71680
    → off ≤ ip.size
    → off + n < 4294967296
    → IsDense ip.addrs d off (off + min n (ip.size - off))
    → readi sb devsw ip off n d
      ≡ ok (reads (bytes_from (byte_at ip.addrs d) off (min n (ip.size - off))) ip.addrs d)
unfolding readi
readi_lem sb devsw ip off n d file max start no_wrap dense =
    let count = min n (ip.size - off) in
    let total : (off + n) % 4294967296 ≡ off + n = omega arith in
    let no_device : (ip.type == t_dev) ≡ false = ground (arith, file) in
    let inside : (ltb ip.size off || ltb ((off + n) % 4294967296) off) ≡ false = ground arith in
    let bytes : clipped ip off n ≡ count = ground arith in
    let loop =
      read_loop_lem sb ip.addrs d (off + count) (count + 1) off count (ground arith) (omega arith)
        dense (omega arith) in
    rw (no_device, inside, bytes, loop) refl
