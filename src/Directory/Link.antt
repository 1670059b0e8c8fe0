-- ===== src/Directory/Link.antt =====
-- An entry written into a directory.
use os.Prelude.{
  ℕ, ◌+◌, ◌*◌, ◌≤◌, ◌<◌, ◌≡◌, ◌≢◌, refl, ◌∙◌, sym, ap, inl, inr, true, false, not, ◌&&◌, Option,
  none, some, ◌==◌, if◌then◌else◌, ok, arith, Bool-cases, find_index, Found, find_index-Found,
  find_index-none, find_index-first, find_index-ext, find_index-last,
}
use os.Directory.{Content, Dirent, Name, namecmp, look_up, rounds, write_entry}
use os.Directory.Scan.{IsWhole, is_entry, is_empty_entry, entry_of, offset_of, look_up_lem}
use os.Directory.Entries.{
  IsName, strncmp_equal_refl, strncmp_equal-take, dirent_at-else, dirent_at-write_entry,
}

-- An entry written in place of an empty one, or past the last.
pub record IsSlot (c : Content) (k : ℕ) : Type 0 where
  pub fits : k ≤ rounds c
  pub empty : k < rounds c → is_empty_entry c k ≡ true

pub offset_of-IsSlot :
    (c : Content) (o : Option ℕ)
    → find_index (is_empty_entry c) (rounds c) 0 ≡ o
    → IsWhole c
    → (k : ℕ) × (offset_of c o ≡ 16 * k) × IsSlot c k
offset_of-IsSlot c none e w =
    (rounds c, omega arith, record { fits = omega arith; empty = λ l. absurd (omega arith) })
offset_of-IsSlot c (some k) e w =
    let f = find_index-Found (is_empty_entry c) (rounds c) 0 k e in
    let b = f.in_range in (k, refl, record { fits = omega arith; empty = λ l. f.passes })

entry_of-none : (c : Content) (o : Option ℕ) → ok (entry_of c o) ≡ ok none → o ≡ none
entry_of-none c none e = refl
entry_of-none c (some k) e = absurd (ground (arith, e))

pub record IsLinked (c c' : Content) (name : Name) (inum : ℕ) : Type 0 where
  pub whole : IsWhole c'
  -- the name is found, with its number
  pub found : (off : ℕ) × (look_up c' name (rounds c') 0 ≡ ok (some (off, inum)))
  -- and every other name is found as before
  pub others :
      (other : Name)
      → namecmp other name ≡ false
      → look_up c' other (rounds c') 0 ≡ look_up c other (rounds c) 0

module _ (c : Content) (k inum : ℕ) (name : Name) (w : IsWhole c) (slot : IsSlot c k)
    (n : IsName name) (some_inum : 0 < inum) (b : inum < 65536) where
  c' : Content
  c' = write_entry c (16 * k) name inum

  written-IsWhole : IsWhole c'
  unfolding c'
  written-IsWhole = let a = slot.fits in ground arith

  -- The rounds over the directory after the write.
  written_rounds : rounds c' ≡ (if k == rounds c then rounds c + 1 else rounds c)
  unfolding c'
  written_rounds = let a = slot.fits in ground arith

  is_entry-here : (other : Name) → is_entry c' other k ≡ namecmp other name
  unfolding c'
  is_entry-here other =
      ap (λ de. not (de.inum == 0) && namecmp other de.name)
        (dirent_at-write_entry c k inum name n b)
      ∙ (let used : (inum == 0) ≡ false = ground arith in
          rw used (strncmp_equal-take 14 other name))

  is_entry-else : (other : Name) (j : ℕ) → k ≢ j → is_entry c' other j ≡ is_entry c other j
  unfolding c'
  is_entry-else other j ne =
      ap (λ de. not (de.inum == 0) && namecmp other de.name) (dirent_at-else c k j inum name ne)

  -- Where the directory was searched before, a search for a name that is not found at `k` ends alike.
  find_index-else :
      (other : Name)
      → is_entry c' other k ≡ false
      → (k < rounds c → is_entry c other k ≡ false)
      → find_index (is_entry c' other) (rounds c') 0 ≡ find_index (is_entry c other) (rounds c) 0
  find_index-else other now before =
      let same = find_index-ext (is_entry c other) (is_entry c' other) (rounds c) 0 λ j a l.
        elim (Bool-cases (k == j)) [
          | inl here ↦
              let e : k ≡ j = ground arith in
              ap (is_entry c' other) (sym e)
              ∙ now
              ∙ sym (before (omega arith))
              ∙ ap (is_entry c other) e
          | inr apart ↦ is_entry-else other j (λ e. ground arith)
        ] in
      elim (Bool-cases (k == rounds c)) [
        | inl past ↦
            let e : 0 + rounds c ≡ k = ground arith in
            ap (λ r. find_index (is_entry c' other) r 0) (written_rounds ∙ rw past refl)
            ∙ find_index-last (is_entry c' other) (rounds c) 0 (ap (is_entry c' other) e ∙ now)
            ∙ same
        | inr inside ↦
            ap (λ r. find_index (is_entry c' other) r 0) (written_rounds ∙ rw inside refl) ∙ same
      ]

  entry_of-else : (o : Option ℕ) → o ≢ some k → entry_of c' o ≡ entry_of c o
  unfolding c'
  entry_of-else none ne = refl
  entry_of-else (some j) ne =
      ap (λ (de : Dirent). some (16 * j, de.inum))
        (dirent_at-else c k j inum name (λ e. ne (ap some (sym e))))

  not_here : (other : Name) → k < rounds c → is_entry c other k ≡ false
  not_here other l = let e = slot.empty l in rw e refl

  others_found :
      (other : Name)
      → namecmp other name ≡ false
      → look_up c' other (rounds c') 0 ≡ look_up c other (rounds c) 0
  others_found other ne =
      let now : is_entry c' other k ≡ false = is_entry-here other ∙ ne in
      let o = find_index (is_entry c other) (rounds c) 0 in
      let search : find_index (is_entry c' other) (rounds c') 0 ≡ o =
        find_index-else other now (not_here other) in
      let missed : o ≢ some k = λ e.
        let f = find_index-Found (is_entry c other) (rounds c) 0 k e in
        let b = f.in_range in
        let p = f.passes in let q = not_here other (omega arith) in ground (arith, p, q) in
      look_up_lem c' other written-IsWhole
      ∙ ap (λ x. ok (entry_of c' x)) search
      ∙ ap ok (entry_of-else o missed)
      ∙ sym (look_up_lem c other w)

  new_found :
      look_up c name (rounds c) 0 ≡ ok none
      → look_up c' name (rounds c') 0 ≡ ok (some (16 * k, inum))
  unfolding c'
  new_found absent =
      let rs = written_rounds in
      let a = slot.fits in
      let none_before : (j : ℕ) → j < rounds c → is_entry c name j ≡ false = λ j l.
        find_index-none (is_entry c name) (rounds c) 0
          (entry_of-none c _ (sym (look_up_lem c name w) ∙ absent)) j (omega arith) (omega arith) in
      let first : Found (is_entry c' name) (rounds c') 0 k = record {
        passes =
            is_entry-here name
            ∙ (sym (strncmp_equal-take 14 name name) ∙ strncmp_equal_refl 14 name);
        from_start = omega arith;
        in_range = ground arith;
        first = λ j l m. is_entry-else name j (λ e. ground arith) ∙ none_before j (omega arith);
      } in
      look_up_lem c' name written-IsWhole
      ∙ ap (λ x. ok (entry_of c' x)) (find_index-first (is_entry c' name) (rounds c') 0 k first)
      ∙ ap (λ (de : Dirent). ok (some (16 * k, de.inum))) (dirent_at-write_entry c k inum name n b)

  pub write_entry-IsLinked :
      look_up c name (rounds c) 0 ≡ ok none
      → IsLinked c (write_entry c (16 * k) name inum) name inum
  unfolding c'
  write_entry-IsLinked absent = record {
    whole = written-IsWhole;
    found = (16 * k, new_found absent);
    others = others_found;
  }
