-- ===== src/Pmm/Tests.antt =====
-- The theorems on the allocator at eight pages, of which 0, 1, 4, 5 and 6 are free; and at a memory
-- that is all the kernel's.
use lcore.Base.{
  ℕ, ◌≡◌, refl, true, false, List, [], ◌∷◌, Outcome, ok, Returns, arith, ◌==◌, if◌then◌else◌,
}
use lcore.Pmm.Defs.{
  Page, Memory, default_alloc_pages, default_free_pages, reset_pages, merge, merge_with, place,
}
use lcore.Pmm.Blocks.{IsFreeArea}
use lcore.Pmm.Alloc.{Allocated, default_alloc_pages-Allocated}
use lcore.Pmm.Free.{IsFreed, IsInUse, default_free_pages-IsFreed}
use lcore.Pmm.Init.{IsZone}

abbrev used : Page
used = record { ref = 1; reserved = false; head = false; property = 0 }

abbrev block : ℕ → Page
block size = record { ref = 0; reserved = false; head = true; property = size }

abbrev two_blocks : Memory
two_blocks = record {
  pages = λ x. if x == 0 then block 2 else if x == 4 then block 3 else used;
  free_list = 0 ∷ 4 ∷ [];
  nr_free = 5;
}

two_blocks-IsFreeArea : IsFreeArea two_blocks
two_blocks-IsFreeArea = record {
  blocks = (omega arith, omega arith, refl, (omega arith, omega arith, refl, tt));
  counted = refl;
  heads = λ x h. ground arith;
}

pages_in_use : IsInUse 2 2 two_blocks
pages_in_use = record {
  some_pages = omega arith;
  not_free = λ x w. ground arith;
  not_reserved = λ x w. ground arith;
  fits = omega arith;
}

abbrev kernel_only : Memory
kernel_only = record {
  pages = λ x. record { ref = 0; reserved = true; head = false; property = 0 };
  free_list = [];
  nr_free = 0;
}

kernel_only-IsFreeArea : IsFreeArea kernel_only
kernel_only-IsFreeArea = record { blocks = tt; counted = refl; heads = λ x h. ground arith }

a_zone : IsZone 3 8 kernel_only
a_zone = record {
  some_pages = omega arith;
  behind = omega arith;
  all_reserved = λ x w. refl;
  fits = omega arith;
}

default_alloc_pages-Allocated_example :
    Returns (Allocated 3 two_blocks) (default_alloc_pages 3 two_blocks)
default_alloc_pages-Allocated_example =
    default_alloc_pages-Allocated 3 two_blocks two_blocks-IsFreeArea (omega arith)

default_free_pages-IsFreed_example :
    Returns (IsFreed 2 2 two_blocks) (default_free_pages 2 2 two_blocks)
default_free_pages-IsFreed_example =
    default_free_pages-IsFreed 2 2 two_blocks two_blocks-IsFreeArea pages_in_use

-- The freed pages join both neighbours.
abbrev list_of : Outcome Memory → List ℕ
list_of (ok s) = s.free_list
list_of _ = []

joined_both : list_of (default_free_pages 2 2 two_blocks) ≡ 0 ∷ []
unfolding default_free_pages reset_pages merge merge_with place
joined_both = refl
