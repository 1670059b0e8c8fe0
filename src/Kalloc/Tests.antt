-- ===== src/Kalloc/Tests.antt =====
-- Three pages above a kernel of 1 MB.
use os.Prelude.{ℕ, ◌≡◌, ◌≢◌, refl, Bool, false, ◌==◌, arith}
use os.Kalloc.{Kmem, kalloc, kfree, freerange, fill_junk}
use os.Descriptors.{set_int}
use os.Kalloc.Chain.{IsPage}
use os.Kalloc.Runs.{Run, starts, frees, set_used, kalloc_fresh}
use os.Kalloc.Range.{Covers, freerange_lem}

abbrev no_pages : Kmem
no_pages = record { memory = λ x. 0; freelist = 0 }

freerange_lem_example :
    Covers 2148532224 2148532225 2148544600 (freerange 2148532224 2148532225 2148544600 no_pages)
freerange_lem_example =
    freerange_lem 2148532224 2148532225 2148544600 no_pages (omega arith) (omega arith)
      (omega arith) (omega arith) refl

abbrev in_use : ℕ → Bool
in_use p = p == 2148540416

abbrev one_page : Kmem
one_page = record {
  memory = set_int 2148540416 0 (fill_junk 2148540416 (λ x. 0));
  freelist = 2148540416;
}

one_page-Run : Run 2148532224 one_page (set_used 2148540416 false in_use)
unfolding kfree
one_page-Run =
    frees no_pages one_page in_use 2148540416 (starts no_pages in_use refl) refl (omega arith) refl

some_page : (kalloc one_page).0 ≢ 0
unfolding kalloc
some_page e = absurd (omega arith)

kalloc_fresh_example :
    IsPage 2148532224 (kalloc one_page).0
    × (set_used 2148540416 false in_use (kalloc one_page).0 ≡ false)
kalloc_fresh_example =
    kalloc_fresh one_page (set_used 2148540416 false in_use) one_page-Run some_page
