-- ===== src/Console/RoundTrip.antt =====
-- A line, typed and read.
use os.Prelude.{
  ℕ, zero, suc, ◌+◌, ◌≤◌, ◌<◌, ◌≡◌, refl, ◌∙◌, ap, Bool, true, false, List, [], ◌∷◌, ◌++◌, ◌==◌,
  ltb, length, length-append, arith,
}
use os.Console.{
  Input, Received, returns, input_buf, newline, control_d, control_h, control_p, control_u, delete,
  read_chars, consoleintr,
}
use os.Console.Window.{total, Holds}
use os.Console.Keys.{press, press_all}
use os.Console.Editing.{consoleintr_lem}
use os.Console.Reads.{gets, got, and_char, take_line, Agrees, read_chars_lem}
use mathlib.Core.List.{append_assoc}

-- Every character is printable.
abbrev pub IsText : List ℕ → Type 0
IsText [] = Unit {0}
IsText (c ∷ cs) = ((32 ≤ c) × (c < 127)) × IsText cs

press_one :
    (c : ℕ) (ready line : List ℕ)
    → 32 ≤ c
    → c < 127
    → length ready + length line < 127
    → press c (record { ready = ready; line = line })
      ≡ record { ready = ready; line = line ++ (c ∷ []) }
press_one c ready line lo hi room =
    let m = length-append line (c ∷ []) in
    let p : (c == control_p) ≡ false = ground arith in
    let u : (c == control_u) ≡ false = ground arith in
    let h : (c == control_h) ≡ false = ground arith in
    let x : (c == delete) ≡ false = ground arith in
    let z : (c == 0) ≡ false = ground arith in
    let fits : ltb (length ready + length line) input_buf ≡ true = ground arith in
    let cr : (c == 13) ≡ false = ground arith in
    let nl : (c == newline) ≡ false = ground arith in
    let d : (c == control_d) ≡ false = ground arith in
    let full : (length ready + length (line ++ (c ∷ [])) == input_buf) ≡ false = ground arith in
    rw (p, u, h, x, z, fits, cr, nl, d, full) refl

press_text :
    (cs line : List ℕ)
    → IsText cs
    → length line + length cs < 128
    → press_all (cs ++ (newline ∷ [])) (record { ready = []; line = line })
      ≡ record { ready = line ++ (cs ++ (newline ∷ [])); line = [] }
press_text [] line t room =
    let fits : ltb (0 + length line) input_buf ≡ true = ground arith in
    let at : ltb (total (record { ready = []; line = line })) input_buf ≡ true = fits in rw at refl
press_text (c ∷ cs) line t room =
    let m = length-append line (c ∷ []) in
    ap (press_all (cs ++ (newline ∷ []))) (press_one c [] line (t.0).0 (t.0).1 (omega arith))
    ∙ press_text cs (line ++ (c ∷ [])) t.1 (omega arith)
    ∙ ap (λ r. record { ready = r; line = [] }) (append_assoc line (c ∷ []) (cs ++ (newline ∷ [])))

take_text :
    (cs : List ℕ) (started : Bool) (n : ℕ)
    → IsText cs
    → length cs < n
    → take_line started n (cs ++ (newline ∷ [])) ≡ gets (cs ++ (newline ∷ [])) []
take_text [] started zero t l = absurd (omega arith)
take_text [] started (suc n) t l = refl
take_text (c ∷ cs) started zero t l = absurd (omega arith)
take_text (c ∷ cs) started (suc n) t l =
    let lo = (t.0).0 in
    let nl : (c == newline) ≡ false = ground arith in
    let d : (c == control_d) ≡ false = ground arith in
    rw (d, nl) (ap (and_char c) (take_text cs true n t.1 (omega arith)))

-- A run returned `cs` and left the buffer empty.
pub data Returned (cs : List ℕ) : Received → Type 0 where
  returned : {s : Input} → Holds s (record { ready = []; line = [] }) → Returned cs (returns cs s)

from_Agrees :
    {cs : List ℕ} {killed : Bool} {a : Received} → Agrees killed [] a (gets cs []) → Returned cs a
from_Agrees (got h) = returned h

-- A printable line that is typed with an empty buffer is what a read of enough characters returns,
-- by a killed process too.
pub read_chars-consoleintr :
    (killed : Bool) (cs : List ℕ) (n : ℕ) (s : Input)
    → IsText cs
    → length cs < 128
    → length cs < n
    → Holds s (record { ready = []; line = [] })
    → Returned
        (cs ++ (newline ∷ []))
        (read_chars killed false n (consoleintr (cs ++ (newline ∷ [])) s))
read_chars-consoleintr killed cs n s t l m h =
    let s' = consoleintr (cs ++ (newline ∷ [])) s in
    let held =
      rw (press_text cs [] t (omega arith)) at (consoleintr_lem (cs ++ (newline ∷ [])) h) in
    from_Agrees (
      rw (take_text cs false n t m) at
        (read_chars_lem killed false n (cs ++ (newline ∷ [])) [] s' held))
