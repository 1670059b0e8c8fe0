-- ===== src/Console/Keys.antt =====
-- What the keys do to the lines.
use os.Prelude.{ℕ, ◌+◌, not, ◌&&◌, ◌||◌, List, [], ◌∷◌, ◌++◌, ◌==◌, ltb, if◌then◌else◌, length}
use os.Console.{input_buf, newline, control_d, control_h, control_p, control_u, delete, as_newline}
use os.Console.Window.{Lines, total}

abbrev pub without_last : List ℕ → List ℕ
without_last [] = []
without_last (c ∷ []) = []
without_last (c ∷ d ∷ cs) = c ∷ without_last (d ∷ cs)

-- The line is over where the character ends it or there is room for no other.
abbrev pub append_char : ℕ → Lines → Lines
append_char c l =
    let longer = l.line ++ (c ∷ []) in
    if c == newline || (c == control_d || length l.ready + length longer == input_buf)
    then record { ready = l.ready ++ longer; line = [] }
    else record { ready = l.ready; line = longer }

-- ^P changes nothing, ^U drops the line, ^H and DEL its last character.
abbrev pub press : ℕ → Lines → Lines
press c l =
    if c == control_p
    then l
    else if c == control_u
    then record { ready = l.ready; line = [] }
    else if c == control_h || c == delete
    then record { ready = l.ready; line = without_last l.line }
    else if not (c == 0) && ltb (total l) input_buf
    then append_char (as_newline c) l
    else l

abbrev pub press_all : List ℕ → Lines → Lines
press_all [] l = l
press_all (c ∷ cs) l = press_all cs (press c l)
