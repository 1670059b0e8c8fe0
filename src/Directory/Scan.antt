-- ===== src/Directory/Scan.antt =====
-- The loops over a directory's entries as searches for the first entry that passes.
use os.Prelude.{
  ℕ, zero, suc, ◌+◌, ◌*◌, ◌%◌, ◌≡◌, refl, ap, Bool, true, false, not, ◌&&◌, Option, none, some,
  ◌==◌, ltb, if◌then◌else◌, ok, arith, find_index,
}
use os.Directory.{Content, Name, dirent_at, namecmp, look_up, empty_entry, rounds}

-- The directory is a whole number of entries.
abbrev pub IsWhole : Content → Type 0
IsWhole c = c.size % 16 ≡ 0

-- Entry `k` is in use under this name.
abbrev pub is_entry : Content → Name → ℕ → Bool
is_entry c name k = let de = dirent_at c.byte (16 * k) in not (de.inum == 0) && namecmp name de.name

abbrev pub is_empty_entry : Content → ℕ → Bool
is_empty_entry c k = (dirent_at c.byte (16 * k)).inum == 0

abbrev pub entry_of : Content → Option ℕ → Option (ℕ × ℕ)
entry_of c none = none
entry_of c (some k) = some (16 * k, (dirent_at c.byte (16 * k)).inum)

abbrev pub offset_of : Content → Option ℕ → ℕ
offset_of c none = c.size
offset_of c (some k) = 16 * k

ok_of_if {ℓ κ} :
    {A : Type ℓ} {B : Type κ} (f : A → B) (b : Bool) (x y : A)
    → (if b then ok (f x) else ok (f y)) ≡ ok (f (if b then x else y))
ok_of_if f true x y = refl
ok_of_if f false x y = refl

skip_or_take {ℓ κ} :
    {A : Type ℓ} {B : Type κ} (f : A → B) (empty same : Bool) (x y : A)
    → (if empty then ok (f y) else if same then ok (f x) else ok (f y))
      ≡ ok (f (if not empty && same then x else y))
skip_or_take f true same x y = refl
skip_or_take f false same x y = ok_of_if f same x y

look_up-find_index :
    (c : Content) (name : Name) (n i : ℕ)
    → 16 * (i + n) ≡ c.size
    → look_up c name n (16 * i) ≡ ok (entry_of c (find_index (is_entry c name) n i))
unfolding look_up find_index
look_up-find_index c name zero i e = refl
look_up-find_index c name (suc n) i e =
    let next : 16 * i + 16 ≡ 16 * (i + 1) = omega arith in
    let ih : look_up c name n (16 * i + 16)
        ≡ ok (entry_of c (find_index (is_entry c name) n (i + 1))) =
      rw next (look_up-find_index c name n (i + 1) (omega arith)) in
    let inside : ltb (16 * i) c.size ≡ true = ground arith in
    let whole : ltb c.size (16 * i + 16) ≡ false = ground arith in
    rw (inside, whole, ih)
      (skip_or_take (entry_of c) ((dirent_at c.byte (16 * i)).inum == 0)
        (namecmp name (dirent_at c.byte (16 * i)).name) (some i)
        (find_index (is_entry c name) n (i + 1)))

empty_entry-find_index :
    (c : Content) (n i : ℕ)
    → 16 * (i + n) ≡ c.size
    → empty_entry c n (16 * i) ≡ ok (offset_of c (find_index (is_empty_entry c) n i))
unfolding empty_entry find_index
empty_entry-find_index c zero i e = ap ok (omega arith)
empty_entry-find_index c (suc n) i e =
    let next : 16 * i + 16 ≡ 16 * (i + 1) = omega arith in
    let ih : empty_entry c n (16 * i + 16)
        ≡ ok (offset_of c (find_index (is_empty_entry c) n (i + 1))) =
      rw next (empty_entry-find_index c n (i + 1) (omega arith)) in
    let inside : ltb (16 * i) c.size ≡ true = ground arith in
    let whole : ltb c.size (16 * i + 16) ≡ false = ground arith in
    rw (inside, whole, ih)
      (ok_of_if (offset_of c) ((dirent_at c.byte (16 * i)).inum == 0) (some i)
        (find_index (is_empty_entry c) n (i + 1)))

rounds_whole : (c : Content) → IsWhole c → 16 * (0 + rounds c) ≡ c.size
rounds_whole c w = omega arith

pub look_up_lem :
    (c : Content) (name : Name)
    → IsWhole c
    → look_up c name (rounds c) 0 ≡ ok (entry_of c (find_index (is_entry c name) (rounds c) 0))
look_up_lem c name w = look_up-find_index c name (rounds c) 0 (rounds_whole c w)

pub empty_entry_lem :
    (c : Content)
    → IsWhole c
    → empty_entry c (rounds c) 0 ≡ ok (offset_of c (find_index (is_empty_entry c) (rounds c) 0))
empty_entry_lem c w = empty_entry-find_index c (rounds c) 0 (rounds_whole c w)
