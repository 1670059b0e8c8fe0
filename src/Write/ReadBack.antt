-- ===== src/Write/ReadBack.antt =====
-- What `writei` wrote, read by `readi`.
use os.Prelude.{ℕ, ◌⊎◌, ◌≡◌, Option, List, Outcome, ok, panic, fault}
use os.Blocks.{Superblock}
use os.Read.{reads, readi}
use os.Write.{Writing, refuses, writes}
use os.Write.Updates.{IsSmall}
use os.Transact.{Trans}

-- What can be read at `off` once `writei` has returned.
unfoldable pub ReadsBack :
    Superblock → (ℕ → Option (ℕ → List ℕ)) → ℕ → List ℕ → Trans → Outcome (Writing × Trans) → Type 0
ReadsBack sb devsw off bs t (ok (refuses, t')) = ⊥
ReadsBack sb devsw off bs t (ok (writes n ip d, t')) =
    readi sb devsw ip off n d ≡ ok (reads bs ip.addrs d)
ReadsBack sb devsw off bs t (panic m) =
    (m ≡ "balloc: out of blocks") ⊎ ((m ≡ "too big a transaction") × (¬ IsSmall sb off bs t))
ReadsBack sb devsw off bs t fault = ⊥
