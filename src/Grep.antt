-- ===== src/Grep.antt =====
-- grep.c: the regular-expression matcher.
--
-- A C string is the list of its characters before the NUL. `matchhere` and `matchstar` call each
-- other; here `matchstar` takes what `matchhere` does with the rest of the expression.
pub mod Relation
pub mod Decides
mod Tests
use os.Prelude.{ℕ, Bool, true, false, ◌&&◌, ◌||◌, List, [], ◌∷◌, ◌==◌, if◌then◌else◌}

-- The characters of the syntax, in ASCII.
abbrev pub star : ℕ
star = 42

abbrev pub dollar : ℕ
dollar = 36

abbrev pub caret : ℕ
caret = 94

abbrev pub dot : ℕ
dot = 46

pub matchstar : ℕ → (List ℕ → Bool) → List ℕ → Bool
matchstar c here [] = here []
matchstar c here (t ∷ text) =
    let rest = matchstar c here text in
    if here (t ∷ text) then true else (t == c || c == dot) && rest

abbrev pub is_at_end : List ℕ → Bool
is_at_end [] = true
is_at_end (t ∷ text) = false

-- One character, and then the rest of the expression.
abbrev pub one_char : ℕ → (List ℕ → Bool) → List ℕ → Bool
one_char r rest [] = false
one_char r rest (t ∷ text) = if r == dot || r == t then rest text else false

pub matchhere : List ℕ → List ℕ → Bool
unfolding matchstar
matchhere [] text = true
matchhere (r ∷ []) text = if r == dollar then is_at_end text else one_char r (λ ts. true) text
matchhere (r ∷ s ∷ re) text =
    let starred = matchstar r (matchhere re) text in
    let plain = one_char r (matchhere (s ∷ re)) text in if s == star then starred else plain

-- The loop of `match`, from the start of `text` on.
pub match_from : (List ℕ → Bool) → List ℕ → Bool
match_from here [] = here []
match_from here (t ∷ text) =
    let rest = match_from here text in if here (t ∷ text) then true else rest

pub match : List ℕ → List ℕ → Bool
unfolding matchhere match_from
match [] text = match_from (matchhere []) text
match (r ∷ re) text = if r == caret then matchhere re text else match_from (matchhere (r ∷ re)) text
