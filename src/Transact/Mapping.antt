-- ===== src/Transact/Mapping.antt =====
-- `bmap` in a transaction.
use os.Prelude.{
  List, ℕ, suc, ◌-◌, ◌≤◌, ◌<◌, ◌≡◌, ◌≢◌, ◌⊎◌, refl, ◌∙◌, inl, inr, true, false, ◌==◌, ltb, ok,
  arith, Bool-cases,
}
use os.Log.{record_sector}
use os.Blocks.{Disk, Superblock, bblock}
use os.Bmap.{Addrs, set_addr, set_word, word, allocated, put_word, addr_at, word_at, bmap}
use os.Bmap.Files.{IsFile}
use os.Bmap.Maps.{Maps, indirect_at-Maps}
use os.Transact.{Trans, addr_set, addr_logged, word_set, word_logged, bmap_logged}
use os.Transact.Budget.{mem, mem-record, cost, cost-indirect}
use os.Transact.Runs.{
  Runs, runs, bind-Runs, log_sector-Runs, or_map, IsOpen, logged-IsOpen, Costs, short, balloc-Runs,
}

-- The block that is to be written costs one at most, with its own entry in the log.
pub record Mapped (O : Type 0) (b n : ℕ) (r : ℕ × Addrs × Disk) (t : Trans) : Type 0 where
  pub opened : IsOpen t
  pub fits :
      O ⊎ ((cost b (r.1 12) t.lh ≤ n) ⊎ ((cost b (r.1 12) t.lh ≤ suc n) × (mem r.0 t.lh ≡ true)))

there-Mapped :
    {O : Type 0} {b i n : ℕ} {t : Trans} (r : ℕ × Addrs × Disk)
    → Costs O b i n t
    → i ≡ r.1 12
    → Mapped O b n r t
there-Mapped r c e = record { opened = c.opened; fits = or_map (λ f. inl (rw e at f)) c.fits }

module _ {O : Type 0} (sb : Superblock) (small : O ⊎ (sb.size ≤ 4096)) where
  direct-Runs :
      (i n : ℕ) (addrs : Addrs) (d : Disk) (t : Trans)
      → i < 12
      → n ≤ 7
      → Costs O (bblock sb 0) (addrs 12) n t
      → Runs O (Mapped O (bblock sb 0) n) (addr_at sb i addrs d) (addr_logged sb i addrs d t)
  unfolding addr_at addr_logged
  direct-Runs i n addrs d t l m c = elim (Bool-cases (addrs i == 0)) [
    | inr there ↦ rw there (runs refl (there-Mapped (addrs i, addrs, d) c refl))
    | inl bare ↦ rw bare (
        bind-Runs (allocated i addrs) (addr_set i addrs) (balloc-Runs sb (addrs 12) n d t small m c)
          (λ (x, d') t' e a.
            let apart : (12 == i) ≡ false = ground arith in
            let same : addrs 12 ≡ set_addr i x addrs 12 = rw apart refl in
            runs refl (record {
              opened = a.costs.opened;
              fits = or_map (λ f. inr (rw same at f, a.there)) a.costs.fits;
            })))
  ]

  -- The indirect block, which is then not 0.
  indirect-Runs :
      (n : ℕ) (addrs : Addrs) (d : Disk) (t : Trans)
      → IsFile sb addrs d
      → n ≤ 7
      → Costs O (bblock sb 0) (addrs 12) n t
      → Runs O
          (λ r t'. Costs O (bblock sb 0) (r.1 12) n t' × (r.0 ≡ r.1 12) × (r.0 ≢ 0))
          (addr_at sb 12 addrs d)
          (addr_logged sb 12 addrs d t)
  unfolding addr_at addr_logged Maps
  indirect-Runs n addrs d t f m c = elim (Bool-cases (addrs 12 == 0)) [
    | inr there ↦ rw there (runs refl (c, refl, λ e. ground (arith, there)))
    | inl bare ↦
        let maps = rw bare at (indirect_at-Maps sb addrs d f) in
        rw bare (
          bind-Runs (allocated 12 addrs) (addr_set 12 addrs)
            (balloc-Runs sb (addrs 12) n d t small m c)
            (λ (x, d') t' e a.
              let found = rw e at maps in
              let zero_before : addrs 12 ≡ 0 = ground arith in
              runs refl (a.indirect zero_before found.1, refl, found.1)))
  ]

  word-Runs :
      (k n : ℕ) (r : ℕ × Addrs × Disk) (t : Trans)
      → n ≤ 7
      → Costs O (bblock sb 0) (r.1 12) n t
      → r.0 ≡ r.1 12
      → r.0 ≢ 0
      → Runs O (Mapped O (bblock sb 0) n) (word_at sb k r) (word_logged sb k (r, t))
  unfolding word_at word_logged
  word-Runs k n (b, addrs, d) t m c e ne = elim (Bool-cases (word d b k == 0)) [
    | inr there ↦ rw there (runs refl (there-Mapped (word d b k, addrs, d) c refl))
    | inl bare ↦ rw bare (
        bind-Runs (put_word b k addrs) (word_set b k addrs)
          (balloc-Runs sb (addrs 12) n d t small m c)
          (λ (x, d') t' z a.
            log_sector-Runs b t' (λ t''. ok ((x, addrs, set_word b k x d'), t'')) a.costs.opened
              (short (omega arith) a.costs)
              (runs refl (record {
                opened = logged-IsOpen b a.costs.opened;
                fits =
                    or_map
                      (λ f. inr (
                        omega (
                          arith,
                          cost-indirect (bblock sb 0) (addrs 12) b t'.lh e (λ y. ne (e ∙ y)),
                          f,
                        ),
                        still_there x b t'.lh a.there,
                      ))
                      a.costs.fits;
              }))))
  ]
    where
      still_there : (x b : ℕ) (lh : List ℕ) → mem x lh ≡ true → mem x (record_sector b lh) ≡ true
      still_there x b lh h = let y = mem-record x b lh in ground (arith, y, h)

  pub bmap-Runs :
      (bn n : ℕ) (addrs : Addrs) (d : Disk) (t : Trans)
      → bn < 140
      → IsFile sb addrs d
      → n ≤ 7
      → Costs O (bblock sb 0) (addrs 12) n t
      → Runs O (Mapped O (bblock sb 0) n) (bmap sb bn addrs d) (bmap_logged sb bn addrs d t)
  unfolding bmap bmap_logged
  bmap-Runs bn n addrs d t l f m c = elim (Bool-cases (ltb bn 12)) [
    | inl direct ↦ rw direct (direct-Runs bn n addrs d t (ground arith) m c)
    | inr past ↦
        let inside : ltb (bn - 12) 128 ≡ true = ground arith in
        rw (past, inside)
          (bind-Runs (word_at sb (bn - 12)) (word_logged sb (bn - 12))
            (indirect-Runs n addrs d t f m c)
            (λ r t' e (c', same, ne). word-Runs (bn - 12) n r t' m c' same ne))
  ]
