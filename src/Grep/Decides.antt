-- ===== src/Grep/Decides.antt =====
-- The matcher decides what an expression matches, at the start of a text and anywhere in it.
use os.Prelude.{
  ℕ, ◌≡◌, refl, ap, ◌↔◌, inl, inr, Bool, true, false, ◌||◌, List, [], ◌∷◌, ◌++◌, ◌==◌,
  if◌then◌else◌, arith, Bool-cases,
}
use os.Grep.{star, dollar, caret, dot, matchstar, matchhere, match_from, match}
use os.Grep.Relation.{
  Hits, Matches, nothing_left, at_end, last_char, next_char, star_stops, star_takes, either,
  matchhere_sound,
}

Hits-test : (r t : ℕ) → Hits r t → (r == dot || r == t) ≡ true
Hits-test r t (inl e) = ground (arith, e)
Hits-test r t (inr e) = ground (arith, e)

Hits-star_test : (r t : ℕ) → Hits r t → (t == r || r == dot) ≡ true
Hits-star_test r t (inl e) = ground (arith, e)
Hits-star_test r t (inr e) = ground (arith, e)

matchstar_now :
    (r : ℕ) (here : List ℕ → Bool) (text : List ℕ) → here text ≡ true → matchstar r here text ≡ true
unfolding matchstar
matchstar_now r here [] e = e
matchstar_now r here (t ∷ text) e = rw e

matchstar_more :
    (r t : ℕ) (here : List ℕ → Bool) (text : List ℕ)
    → Hits r t
    → matchstar r here text ≡ true
    → matchstar r here (t ∷ text) ≡ true
unfolding matchstar
matchstar_more r t here text hit e = elim (Bool-cases (here (t ∷ text))) [
  | inl now ↦ rw now
  | inr later ↦ rw (later, Hits-star_test r t hit, e)
]

matchhere_complete : (re text : List ℕ) → Matches re text → matchhere re text ≡ true
unfolding matchhere
matchhere_complete _ _ (nothing_left text) = refl
matchhere_complete _ _ at_end = refl
matchhere_complete _ _ (last_char r t text ne hit) =
    let other : (r == dollar) ≡ false = ground (arith, ne) in rw (other, Hits-test r t hit)
matchhere_complete _ _ (next_char r s t re text ne hit rest) =
    let plain : (s == star) ≡ false = ground (arith, ne) in
    rw (plain, Hits-test r t hit) (matchhere_complete (s ∷ re) text rest)
matchhere_complete _ _ (star_stops r re text rest) =
    matchstar_now r (matchhere re) text (matchhere_complete re text rest)
matchhere_complete _ _ (star_takes r t re text hit rest) =
    matchstar_more r t (matchhere re) text hit (matchhere_complete (r ∷ star ∷ re) text rest)

-- `matchhere` decides the relation.
pub matchhere-Matches : (re text : List ℕ) → (matchhere re text ≡ true) ↔ Matches re text
matchhere-Matches re text = (matchhere_sound re text, matchhere_complete re text)

-- Somewhere in the text the expression matches.
pub IsFound : List ℕ → List ℕ → Type 0
IsFound re text = (before : List ℕ) × (rest : List ℕ) × (text ≡ before ++ rest) × Matches re rest

match_from_sound : (re text : List ℕ) → match_from (matchhere re) text ≡ true → IsFound re text
unfolding match_from IsFound
match_from_sound re [] e = ([], [], refl, matchhere_sound re [] e)
match_from_sound re (t ∷ text) e = elim (either (matchhere re (t ∷ text)) _ e) [
  | inl now ↦ ([], t ∷ text, refl, matchhere_sound re (t ∷ text) now)
  | inr later ↦
      let (before, rest, split, found) = match_from_sound re text later in
      (t ∷ before, rest, ap (λ ts. t ∷ ts) split, found)
]

match_from_complete :
    (re before rest : List ℕ) → Matches re rest → match_from (matchhere re) (before ++ rest) ≡ true
unfolding match_from
match_from_complete re [] [] found = matchhere_complete re [] found
match_from_complete re [] (t ∷ rest) found = rw (matchhere_complete re (t ∷ rest) found)
match_from_complete re (t ∷ before) rest found =
    elim (Bool-cases (matchhere re (t ∷ before ++ rest))) [
      | inl now ↦ rw now
      | inr later ↦ rw (later, match_from_complete re before rest found)
    ]

match_from-IsFound : (re text : List ℕ) → (match_from (matchhere re) text ≡ true) ↔ IsFound re text
unfolding IsFound
match_from-IsFound re text = (
  match_from_sound re text,
  λ f. let (before, rest, split, found) = f in rw split (match_from_complete re before rest found),
)

-- What `match` answers for: after a `^` a match at the start, else one anywhere.
pub Finds : List ℕ → List ℕ → Type 0
Finds [] text = IsFound [] text
Finds (r ∷ re) text = if r == caret then Matches re text else IsFound (r ∷ re) text

-- `match` is true exactly where the expression matches, at the start of the text if it begins with
-- a `^`, and else anywhere in it.
pub match-Finds : (re text : List ℕ) → (match re text ≡ true) ↔ Finds re text
unfolding match Finds
match-Finds [] text = match_from-IsFound [] text
match-Finds (r ∷ re) text = elim (Bool-cases (r == caret)) [
  | inl anchored ↦ rw anchored (matchhere-Matches re text)
  | inr free ↦ rw free (match_from-IsFound (r ∷ re) text)
]
