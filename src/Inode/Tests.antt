-- ===== src/Inode/Tests.antt =====
-- Concrete runs of the inode cache.
use os.Prelude.{ℕ, refl, false}
use os.Inode.{DiskInode, Icache, iget, iget_loop, set_inode, recycled}
use os.Inode.Counts.{held_with, IsSound, Reach, start, gets, Reach-IsSound}

abbrev no_content : DiskInode
no_content = record { type = 0; major = 0; minor = 0; nlink = 0; size = 0; addrs = λ k. 0 }

abbrev empty_cache : Icache
empty_cache i = record {
  dev = 0;
  inum = 0;
  ref = 0;
  busy = false;
  valid = false;
  copy = no_content;
}

abbrev disk : ℕ → ℕ → DiskInode
disk dev inum = no_content

abbrev one_inode : Icache
one_inode = set_inode 0 (recycled 1 7 (empty_cache 0)) empty_cache

abbrev one_held : ℕ → ℕ
one_held = held_with 0 1 (λ i. 0)

one_inode-Reach : Reach disk one_inode one_held
unfolding iget iget_loop
one_inode-Reach = gets empty_cache one_inode (λ i. 0) 1 7 0 (start empty_cache (λ i. refl)) refl

Reach-IsSound_example : IsSound one_inode one_held
Reach-IsSound_example = Reach-IsSound disk one_inode one_held one_inode-Reach
