-- ===== src/Path/Elements.antt =====
-- The elements of a path, and `skipelem` against them.
use os.Prelude.{
  ℕ, suc, ◌≤◌, ◌<◌, ◌≡◌, refl, ◌∙◌, sym, ap, inl, inr, true, false, Option, none, some, List, [],
  ◌∷◌, ◌==◌, if◌then◌else◌, take, length, arith, Bool-cases, if_split,
}
use os.Directory.{Name, dirsiz}
use os.Path.{slash, skip_slashes, take_element, cut_element, skipelem, is_absolute}

-- The pieces between the slashes.
abbrev onto_first : ℕ → List Name → List Name
onto_first c [] = (c ∷ []) ∷ []
onto_first c (p ∷ ps) = (c ∷ p) ∷ ps

pub pieces : Name → List Name
pieces [] = [] ∷ []
pieces (c ∷ s) = if c == slash then [] ∷ pieces s else onto_first c (pieces s)

-- A piece that is not empty counts, with DIRSIZ characters at most.
abbrev pub named : List Name → List Name
named [] = []
named ([] ∷ ps) = named ps
named ((c ∷ p) ∷ ps) = take dirsiz (c ∷ p) ∷ named ps

pub elements : Name → List Name
elements path = named (pieces path)

-- What `skipelem` returns for a path: nothing without elements; else the first of them, and a path
-- of the other ones that is shorter and starts with no slash.
unfoldable pub IsSkipped : Name → Option (Name × Name) → Type 0
IsSkipped path none = elements path ≡ []
IsSkipped path (some (name, rest)) =
    (elements path ≡ name ∷ elements rest)
    × (length rest < length path)
    × (is_absolute rest ≡ false)

elements-slash : (c : ℕ) (s : Name) → (c == slash) ≡ true → elements (c ∷ s) ≡ elements s
unfolding elements pieces
elements-slash c s h = rw h refl

elements-skip_slashes : (s : Name) → elements (skip_slashes s) ≡ elements s
unfolding skip_slashes
elements-skip_slashes [] = refl
elements-skip_slashes (c ∷ s) =
    if_split (λ r. elements r ≡ elements (c ∷ s)) (c == slash)
      (λ h. elements-skip_slashes s ∙ sym (elements-slash c s h)) (λ h. refl)

skip_slashes-length : (s : Name) → length (skip_slashes s) ≤ length s
unfolding skip_slashes
skip_slashes-length [] = omega arith
skip_slashes-length (c ∷ s) =
    let ih = skip_slashes-length s in
    if_split (λ r. length r ≤ suc (length s)) (c == slash) {x = skip_slashes s} {y = c ∷ s}
      (λ h. omega arith) (λ h. omega arith)

skip_slashes-is_absolute : (s : Name) → is_absolute (skip_slashes s) ≡ false
unfolding skip_slashes
skip_slashes-is_absolute [] = refl
skip_slashes-is_absolute (c ∷ s) =
    if_split (λ r. is_absolute r ≡ false) (c == slash) (λ h. skip_slashes-is_absolute s) (λ h. h)

take_element-length : (s : Name) → length (take_element s).1 ≤ length s
unfolding take_element
take_element-length [] = omega arith
take_element-length (c ∷ s) =
    let ih = take_element-length s in
    if_split (λ (r : Name × Name). length r.1 ≤ suc (length s)) (c == slash) {x = ([], c ∷ s)}
      {y = (c ∷ (take_element s).0, (take_element s).1)} (λ h. omega arith) (λ h. omega arith)

-- The pieces of a text are its first element and the pieces after the slash that ends it.
abbrev then_pieces : Name → Name → List Name
then_pieces e [] = e ∷ []
then_pieces e (c ∷ s) = e ∷ pieces s

abbrev IsCut : Name → Type 0
IsCut [] = Unit {0}
IsCut (d ∷ s) = (d == slash) ≡ true

named-then_pieces :
    (c : ℕ) (e rest : Name)
    → IsCut rest
    → named (then_pieces (c ∷ e) rest) ≡ take dirsiz (c ∷ e) ∷ elements rest
unfolding elements pieces
named-then_pieces c e [] h = refl
named-then_pieces c e (d ∷ s) h = ap (λ ns. take dirsiz (c ∷ e) ∷ ns) (sym (elements-slash d s h))

take_element-IsCut : (s : Name) → IsCut (take_element s).1
unfolding take_element
take_element-IsCut [] = tt
take_element-IsCut (c ∷ s) =
    if_split (λ (r : Name × Name). IsCut r.1) (c == slash) {x = ([], c ∷ s)}
      {y = (c ∷ (take_element s).0, (take_element s).1)} (λ h. h) (λ h. take_element-IsCut s)

onto_first-then_pieces :
    (c : ℕ) (e rest : Name) → onto_first c (then_pieces e rest) ≡ then_pieces (c ∷ e) rest
onto_first-then_pieces c e [] = refl
onto_first-then_pieces c e (d ∷ s) = refl

pieces-take_element : (s : Name) → pieces s ≡ then_pieces (take_element s).0 (take_element s).1
unfolding pieces take_element
pieces-take_element [] = refl
pieces-take_element (c ∷ s) = elim (Bool-cases (c == slash)) [
  | inl slashed ↦ rw slashed refl
  | inr char ↦ rw char (
      ap (onto_first c) (pieces-take_element s)
      ∙ onto_first-then_pieces c (take_element s).0 (take_element s).1)
]

cut_element-IsSkipped :
    (path s : Name)
    → elements s ≡ elements path
    → length s ≤ length path
    → is_absolute s ≡ false
    → IsSkipped path (cut_element s)
unfolding IsSkipped elements pieces take_element
cut_element-IsSkipped path [] e l a = sym e
cut_element-IsSkipped path (c ∷ s) e l a =
    let (p, r) = take_element s in
    let cut : take_element (c ∷ s) ≡ (c ∷ p, r) = rw a refl in
    let front : elements (c ∷ s) ≡ named (then_pieces (c ∷ p) r) =
      ap named (pieces-take_element (c ∷ s) ∙ ap (λ (x : Name × Name). then_pieces x.0 x.1) cut) in
    let parted : elements (c ∷ s) ≡ take dirsiz (c ∷ p) ∷ elements (skip_slashes r) =
      front
      ∙ named-then_pieces c p r (take_element-IsCut s)
      ∙ ap (λ es. take dirsiz (c ∷ p) ∷ es) (sym (elements-skip_slashes r)) in
    let shorter : length (skip_slashes r) < length path =
      let x = skip_slashes-length r in let y = take_element-length s in omega arith in
    rw cut (sym e ∙ parted, shorter, skip_slashes-is_absolute r)

-- `skipelem` takes the first element off a path, or there is none; the path that it returns is
-- shorter and starts with no slash.
pub skipelem-IsSkipped : (path : Name) → IsSkipped path (skipelem path)
unfolding skipelem
skipelem-IsSkipped path =
    cut_element-IsSkipped path (skip_slashes path) (elements-skip_slashes path)
      (skip_slashes-length path) (skip_slashes-is_absolute path)
