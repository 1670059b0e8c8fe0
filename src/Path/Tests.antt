-- ===== src/Path/Tests.antt =====
-- The examples of `skipelem`'s comment, and a walk.
use os.Prelude.{ℕ, ◌≡◌, refl, [], ◌∷◌, none, some, false, arith}
use os.Inode.{DiskInode, Icache, set_inode, recycled}
use os.Inode.Counts.{IsSound, held_with}
use os.Directory.{Name}
use os.Path.{skipelem, skip_slashes, take_element, namex}
use os.Path.Holders.{LeavesWalk, namex-LeavesWalk}

-- a/bb/c
abbrev path : Name
path = 97 ∷ 47 ∷ 98 ∷ 98 ∷ 47 ∷ 99 ∷ []

skipelem-path : skipelem path ≡ some (97 ∷ [], 98 ∷ 98 ∷ 47 ∷ 99 ∷ [])
unfolding skipelem skip_slashes take_element
skipelem-path = refl

-- ///a//bb
skipelem_extra_slashes :
    skipelem (47 ∷ 47 ∷ 47 ∷ 97 ∷ 47 ∷ 47 ∷ 98 ∷ 98 ∷ []) ≡ some (97 ∷ [], 98 ∷ 98 ∷ [])
unfolding skipelem skip_slashes take_element
skipelem_extra_slashes = refl

skipelem_only_slashes : skipelem (47 ∷ 47 ∷ 47 ∷ 47 ∷ []) ≡ none
unfolding skipelem skip_slashes take_element
skipelem_only_slashes = refl

abbrev no_content : DiskInode
no_content = record { type = 1; major = 0; minor = 0; nlink = 1; size = 0; addrs = λ k. 0 }

abbrev empty_cache : Icache
empty_cache i = record {
  dev = 0;
  inum = 0;
  ref = 0;
  busy = false;
  valid = false;
  copy = no_content;
}

abbrev disk : ℕ → ℕ → DiskInode
disk dev inum = no_content

abbrev at_root : Icache
at_root = set_inode 0 (recycled 1 1 (empty_cache 0)) empty_cache

abbrev root_held : ℕ → ℕ
root_held = held_with 0 1 (λ i. 0)

at_root-IsSound : IsSound at_root root_held
at_root-IsSound = record {
  counted = λ j. ground arith;
  in_range = λ j l. ground arith;
  unique = λ j k a b d e. ground arith;
}

namex-LeavesWalk_example :
    LeavesWalk root_held (namex disk (λ dp k. 0) (λ ip. ip.copy) 7 path false 0 at_root)
namex-LeavesWalk_example =
    namex-LeavesWalk disk (λ dp k. 0) (λ ip. ip.copy) root_held 7 path false 0 at_root (omega arith)
      at_root-IsSound (omega arith)
