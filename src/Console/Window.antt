-- ===== src/Console/Window.antt =====
-- The characters in the buffer, as two lists: those that a reader can have, and those of the line
-- being edited.
use os.Prelude.{as_uint, ℕ, ◌+◌, ◌%◌, ◌≤◌, ◌<◌, ◌≡◌, ◌≢◌, List, length, get_or}
use os.Console.{Input}

pub record Lines : Type 0 where
  pub ready : List ℕ
  pub line : List ℕ

abbrev pub total : Lines → ℕ
total l = length l.ready + length l.line

pub record Holds (s : Input) (l : Lines) : Type 0 where
  pub fits : total l ≤ 128
  pub r_fits : s.r < 4294967296
  pub w_at : s.w ≡ as_uint (s.r + length l.ready)
  pub e_at : s.e ≡ as_uint (s.r + total l)
  pub readable : (i : ℕ) → i < length l.ready → s.buf ((s.r + i) % 128) ≡ get_or l.ready i 0
  pub typed : (i : ℕ) → i < length l.line → s.buf ((s.w + i) % 128) ≡ get_or l.line i 0
  pub one_line : (i : ℕ) → i < length l.line → get_or l.line i 0 ≢ 10
