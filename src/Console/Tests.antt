-- ===== src/Console/Tests.antt =====
-- Lines typed and read.
use os.Prelude.{ℕ, ◌≡◌, ◌-◌, ◌^◌, refl, false, List, [], ◌∷◌, arith}
use os.Console.{Input, consoleintr, read_chars}
use os.Console.Window.{Lines, Holds}
use os.Console.Keys.{press_all}
use os.Console.Editing.{consoleintr_lem}
use os.Console.Reads.{Agrees, take_line, read_chars_lem}
use os.Console.RoundTrip.{Returned, read_chars-consoleintr}

-- An empty buffer whose indices are about to wrap.
abbrev idle : Input
idle = record { buf = λ i. 0; r = 2 ^ 32 - 2; w = 2 ^ 32 - 2; e = 2 ^ 32 - 2 }

abbrev nothing : Lines
nothing = record { ready = []; line = [] }

idle-Holds : Holds idle nothing
idle-Holds = record {
  fits = omega arith;
  r_fits = omega arith;
  w_at = omega arith;
  e_at = omega arith;
  readable = λ i l. absurd (omega arith);
  typed = λ i l. absurd (omega arith);
  one_line = λ i l. absurd (omega arith);
}

-- `lx`, ^H, `s`, carriage return, and `p`.
abbrev keys : List ℕ
keys = 108 ∷ 120 ∷ 8 ∷ 115 ∷ 13 ∷ 112 ∷ []

abbrev shown : Lines
shown = record { ready = 108 ∷ 115 ∷ 10 ∷ []; line = 112 ∷ [] }

keys_edit : press_all keys nothing ≡ shown
keys_edit = refl

consoleintr_lem_example : Holds (consoleintr keys idle) shown
consoleintr_lem_example = consoleintr_lem keys idle-Holds

read_chars_lem_example :
    Agrees false
      (112 ∷ [])
      (read_chars false false 100 (consoleintr keys idle))
      (take_line false 100 (108 ∷ 115 ∷ 10 ∷ []))
read_chars_lem_example =
    read_chars_lem false false 100 (108 ∷ 115 ∷ 10 ∷ []) (112 ∷ []) (consoleintr keys idle)
      consoleintr_lem_example

read_chars-consoleintr_example :
    Returned
      (108 ∷ 115 ∷ 10 ∷ [])
      (read_chars false false 100 (consoleintr (108 ∷ 115 ∷ 10 ∷ []) idle))
read_chars-consoleintr_example =
    read_chars-consoleintr false (108 ∷ 115 ∷ []) 100 idle
      ((((omega arith), (omega arith))), (((omega arith), (omega arith)), tt)) (omega arith)
      (omega arith) idle-Holds
