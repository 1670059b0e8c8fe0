-- ===== src/Grep/Relation.antt =====
-- What an expression matches, by rules, and that what the matcher accepts it matches.
use mathlib.Core.Bool.{false≢true}
use mathlib.Core.Path.{subst}
use os.Prelude.{
  ℕ, ◌≡◌, refl, sym, ◌≢◌, ◌⊎◌, inl, inr, Bool, true, false, ◌&&◌, ◌||◌, List, [], ◌∷◌, ◌==◌,
  if◌then◌else◌, arith, Bool-cases,
}
use os.Grep.{star, dollar, dot, matchstar, is_at_end, one_char, matchhere}

abbrev pub Hits : ℕ → ℕ → Type 0
Hits r t = (r ≡ dot) ⊎ (r ≡ t)

-- `re` matches at the start of the text.
pub data Matches : List ℕ → List ℕ → Type 0 where
  nothing_left : (text : List ℕ) → Matches [] text
  at_end : Matches (dollar ∷ []) []
  last_char : (r t : ℕ) (text : List ℕ) → r ≢ dollar → Hits r t → Matches (r ∷ []) (t ∷ text)
  next_char :
      (r s t : ℕ) (re text : List ℕ)
      → s ≢ star
      → Hits r t
      → Matches (s ∷ re) text
      → Matches (r ∷ s ∷ re) (t ∷ text)
  star_stops : (r : ℕ) (re text : List ℕ) → Matches re text → Matches (r ∷ star ∷ re) text
  star_takes :
      (r t : ℕ) (re text : List ℕ)
      → Hits r t
      → Matches (r ∷ star ∷ re) text
      → Matches (r ∷ star ∷ re) (t ∷ text)

when : {a : Bool} → (x y : Bool) → a ≡ true → (if a then x else y) ≡ true → x ≡ true
when {a} x y h e = subst (λ b. (if b then x else y) ≡ true) h e

otherwise : {a : Bool} → (x y : Bool) → a ≡ false → (if a then x else y) ≡ true → y ≡ true
otherwise {a} x y h e = subst (λ b. (if b then x else y) ≡ true) h e

never : {a : Bool} → (x : Bool) → a ≡ false → (if a then x else false) ≡ true → ⊥
never x h e = false≢true (otherwise x false h e)

hits : (r t : ℕ) → (r == dot || r == t) ≡ true → Hits r t
hits r t e = elim (Bool-cases (r == dot)) [
  | inl is_dot ↦ inl (ground arith)
  | inr other ↦ inr (ground (arith, e))
]

Hits-star : (r t : ℕ) → (t == r || r == dot) ≡ true → Hits r t
Hits-star r t e = elim (Bool-cases (r == dot)) [
  | inl is_dot ↦ inl (ground arith)
  | inr other ↦ inr (ground (arith, e))
]

pub either : (a b : Bool) → (if a then true else b) ≡ true → (a ≡ true) ⊎ (b ≡ true)
either true b e = inl refl
either false b e = inr e

both : (a b : Bool) → (a && b) ≡ true → (a ≡ true) × (b ≡ true)
both true b e = (refl, e)
both false b e = absurd (false≢true e)

-- A repetition matches where its rest does.
matchstar-Matches :
    (r : ℕ) (re : List ℕ)
    → ((text : List ℕ) → matchhere re text ≡ true → Matches re text)
    → (text : List ℕ) → matchstar r (matchhere re) text ≡ true
    → Matches (r ∷ star ∷ re) text
unfolding matchstar
matchstar-Matches r re sound [] e = star_stops r re [] (sound [] e)
matchstar-Matches r re sound (t ∷ text) e = elim (either (matchhere re (t ∷ text)) _ e) [
  | inl now ↦ star_stops r re (t ∷ text) (sound (t ∷ text) now)
  | inr later ↦
      let (hit, rest) = both (t == r || r == dot) _ later in
      star_takes r t re text (Hits-star r t hit) (matchstar-Matches r re sound text rest)
]

one_char-Matches :
    (r s : ℕ) (re : List ℕ)
    → s ≢ star
    → ((text : List ℕ) → matchhere (s ∷ re) text ≡ true → Matches (s ∷ re) text)
    → (text : List ℕ) → one_char r (matchhere (s ∷ re)) text ≡ true
    → Matches (r ∷ s ∷ re) text
one_char-Matches r s re ne sound [] e = absurd (false≢true e)
one_char-Matches r s re ne sound (t ∷ text) e = elim (Bool-cases (r == dot || r == t)) [
  | inl hit ↦ next_char r s t re text ne (hits r t hit) (sound text (when _ _ hit e))
  | inr miss ↦ absurd (never _ miss e)
]

last-Matches :
    (r : ℕ) (text : List ℕ)
    → (if r == dollar then is_at_end text else one_char r (λ ts. true) text) ≡ true
    → Matches (r ∷ []) text
last-Matches r [] e = elim (Bool-cases (r == dollar)) [
  | inl is_end ↦
      let same : r ≡ dollar = ground arith in subst (λ c. Matches (c ∷ []) []) (sym same) at_end
  | inr other ↦ absurd (ground (arith, other, e))
]
last-Matches r (t ∷ text) e = elim (Bool-cases (r == dollar)) [
  | inl is_end ↦ absurd (ground (arith, is_end, e))
  | inr other ↦ elim (Bool-cases (r == dot || r == t)) [
    | inl hit ↦ last_char r t text (ground arith) (hits r t hit)
    | inr miss ↦ absurd (ground (arith, other, miss, e))
  ]
]

pub matchhere_sound : (re text : List ℕ) → matchhere re text ≡ true → Matches re text
unfolding matchhere
matchhere_sound [] text e = nothing_left text
matchhere_sound (r ∷ []) text e = last-Matches r text e
matchhere_sound (r ∷ s ∷ re) text e = elim (Bool-cases (s == star)) [
  | inl starred ↦
      let same : s ≡ star = ground arith in
      subst (λ c. Matches (r ∷ c ∷ re) text) (sym same)
        (matchstar-Matches r re (matchhere_sound re) text (when _ _ starred e))
  | inr plain ↦
      one_char-Matches r s re (ground arith) (matchhere_sound (s ∷ re)) text (otherwise _ _ plain e)
]
