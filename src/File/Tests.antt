-- ===== src/File/Tests.antt =====
-- Concrete runs of the file table.
use os.Prelude.{ℕ, refl, false, find_index}
use os.File.{Table, set_file, fd_none, filealloc}
use os.File.Counts.{held_with, Reach, start, allocates}

abbrev empty_table : Table
empty_table i = record {
  type = fd_none;
  ref = 0;
  readable = false;
  writable = false;
  pipe = 0;
  ip = 0;
  off = 0;
}

abbrev one_file : Table
one_file = set_file 0 (record (empty_table 0) { ref = 1 }) empty_table

abbrev one_held : ℕ → ℕ
one_held = held_with 0 1 (λ i. 0)

one_file-Reach : Reach one_file one_held
unfolding filealloc find_index
one_file-Reach = allocates empty_table one_file (λ i. 0) 0 (start empty_table (λ i. refl)) refl
