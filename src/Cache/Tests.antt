-- ===== src/Cache/Tests.antt =====
-- Concrete runs of the buffer cache.
use os.Prelude.{ℕ, false, List, [], ◌∷◌}
use os.Cache.{Buf}

abbrev buffer : ℕ → ℕ → Buf
buffer i s = record {
  id = i;
  dev = 1;
  sector = s;
  busy = false;
  valid = false;
  dirty = false;
  bytes = [];
}

abbrev two_buffers : List Buf
two_buffers = buffer 0 7 ∷ buffer 1 8 ∷ []
