-- ===== src/Grep/Tests.antt =====
-- Concrete expressions and texts.
use os.Prelude.{ℕ, true, false, ◌≡◌, refl, ◌↔◌, List, [], ◌∷◌}
use os.Grep.{star, dollar, caret, dot, match, matchhere, matchstar, match_from}
use os.Grep.Decides.{Finds, match-Finds}

-- `^a.*b$`
abbrev expression : List ℕ
expression = caret ∷ 97 ∷ dot ∷ star ∷ 98 ∷ dollar ∷ []

-- `acbcb`
abbrev line : List ℕ
line = 97 ∷ 99 ∷ 98 ∷ 99 ∷ 98 ∷ []

line_found : match expression line ≡ true
unfolding match matchhere matchstar match_from
line_found = refl

longer_line_not_found : match expression (98 ∷ line) ≡ false
unfolding match matchhere matchstar match_from
longer_line_not_found = refl

match-Finds_example : (match expression line ≡ true) ↔ Finds expression line
match-Finds_example = match-Finds expression line
