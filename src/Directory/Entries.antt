-- ===== src/Directory/Entries.antt =====
-- What the bytes of an entry are after it is written.
use os.Prelude.{
  ℕ, zero, suc, ◌+◌, ◌-◌, ◌*◌, ◌%◌, ◌/◌, ◌<◌, ◌≡◌, refl, ◌∙◌, ap, inl, inr, true, false, ◌&&◌, [],
  ◌∷◌, ◌==◌, ltb, get_or, take, arith, Bool-cases, ◌≢◌,
}
use os.Directory.{Content, Name, Dirent, dirent_at, until_nul, strncmp_equal, in_entry, write_entry}

abbrev pub IsName : Name → Type 0
IsName [] = Unit {0}
IsName (c ∷ s) = (c ≢ 0) × IsName s

get_or-suc : (c : ℕ) (s : Name) (j : ℕ) → get_or (c ∷ s) (j + 1) 0 ≡ get_or s j 0
get_or-suc c s j = let next : j + 1 ≡ suc j = omega arith in rw next refl

abbrev dirent : ℕ → Name → Dirent
dirent m s = record { inum = m; name = s }

same_dirent : {m m' : ℕ} {s s' : Name} → m ≡ m' → s ≡ s' → dirent m s ≡ dirent m' s'
same_dirent e f = rw (e, f) refl

pub until_nul-ext :
    (n : ℕ) (b b' : ℕ → ℕ) (o : ℕ)
    → ((j : ℕ) → j < n → b' (o + j) ≡ b (o + j))
    → until_nul n b' o ≡ until_nul n b o
unfolding until_nul
until_nul-ext zero b b' o h = refl
until_nul-ext (suc n) b b' o h =
    let here : b' o ≡ b o = ap b' (omega arith) ∙ h 0 (omega arith) ∙ ap b (omega arith) in
    let rest =
      until_nul-ext n b b' (o + 1)
        λ j l. ap b' (omega arith) ∙ h (j + 1) (omega arith) ∙ ap b (omega arith) in
    rw (here, rest) refl

-- The bytes of a name, padded with NULs.
until_nul_lem :
    (n : ℕ) (b : ℕ → ℕ) (o : ℕ) (s : Name)
    → IsName s
    → ((j : ℕ) → j < n → b (o + j) ≡ get_or s j 0)
    → until_nul n b o ≡ take n s
unfolding until_nul
until_nul_lem zero b o s w h = refl
until_nul_lem (suc n) b o [] w h =
    let here : b o ≡ 0 = ap b (omega arith) ∙ h 0 (omega arith) in
    let nul : (b o == 0) ≡ true = ground (arith, here) in rw nul refl
until_nul_lem (suc n) b o (c ∷ s) (nonzero, w) h =
    let here : b o ≡ c = ap b (omega arith) ∙ h 0 (omega arith) in
    let char : (b o == 0) ≡ false = ground (arith, here, nonzero) in
    let rest =
      until_nul_lem n b (o + 1) s w
        λ j l. ap b (omega arith) ∙ h (j + 1) (omega arith) ∙ get_or-suc c s j in
    rw (char, here, rest) refl

pub strncmp_equal_refl : (n : ℕ) (s : Name) → strncmp_equal n s (take n s) ≡ true
unfolding strncmp_equal
strncmp_equal_refl zero s = refl
strncmp_equal_refl (suc n) [] = refl
strncmp_equal_refl (suc n) (c ∷ s) = ground (arith, strncmp_equal_refl n s)

pub strncmp_equal-take : (n : ℕ) (s t : Name) → strncmp_equal n s (take n t) ≡ strncmp_equal n s t
unfolding strncmp_equal
strncmp_equal-take zero s t = refl
strncmp_equal-take (suc n) [] [] = refl
strncmp_equal-take (suc n) (a ∷ s) [] = refl
strncmp_equal-take (suc n) [] (b ∷ t) = refl
strncmp_equal-take (suc n) (a ∷ s) (b ∷ t) = ap (λ x. a == b && x) (strncmp_equal-take n s t)

-- An entry that was not written is the same as before.
pub dirent_at-else :
    (c : Content) (k k' inum : ℕ) (name : Name)
    → k ≢ k'
    → dirent_at (write_entry c (16 * k) name inum).byte (16 * k') ≡ dirent_at c.byte (16 * k')
dirent_at-else c k k' inum name ne =
    let b' = (write_entry c (16 * k) name inum).byte in
    let out : (j : ℕ) → j < 16 → in_entry (16 * k) (16 * k' + j) ≡ false = λ j l.
      elim (Bool-cases (ltb k k')) [ inl after ↦ ground arith | inr before ↦ ground arith ] in
    let kept : (j : ℕ) → j < 16 → b' (16 * k' + j) ≡ c.byte (16 * k' + j) =
      λ j l. rw (out j l) refl in
    let first : b' (16 * k') ≡ c.byte (16 * k') =
      ap b' (omega arith) ∙ kept 0 (omega arith) ∙ ap c.byte (omega arith) in
    same_dirent (rw (first, kept 1 (omega arith)) refl) (
      until_nul-ext 14 c.byte b' (16 * k' + 2)
        λ j l. ap b' (omega arith) ∙ kept (j + 2) (omega arith) ∙ ap c.byte (omega arith))

pub dirent_at-write_entry :
    (c : Content) (k inum : ℕ) (name : Name)
    → IsName name
    → inum < 65536
    → dirent_at (write_entry c (16 * k) name inum).byte (16 * k)
      ≡ record { inum = inum; name = take 14 name }
dirent_at-write_entry c k inum name w b =
    let b' = (write_entry c (16 * k) name inum).byte in
    let low : b' (16 * k) ≡ inum % 256 = ground arith in
    let high : b' (16 * k + 1) ≡ inum / 256 % 256 = ground arith in
    let char : (j : ℕ) → j < 14 → b' (16 * k + 2 + j) ≡ get_or name j 0 = λ j l.
      let into : in_entry (16 * k) (16 * k + 2 + j) ≡ true = ground arith in
      let at : 16 * k + 2 + j - 16 * k ≡ j + 2 = omega arith in
      let not_low : (j + 2 == 0) ≡ false = ground arith in
      let not_high : (j + 2 == 1) ≡ false = ground arith in
      let back : j + 2 - 2 ≡ j = omega arith in rw (into, at, not_low, not_high, back) refl in
    same_dirent (rw (low, high) (omega arith)) (until_nul_lem 14 b' (16 * k + 2) name w char)
