-- ===== src/Pmm/PagingTests.antt =====
-- The theorems on page tables at a directory in frame 1 with a table in frame 2, which maps 0x1000
-- to page 3; the pages 4 to 6 are free.
use lcore.Base.{
  ◌≡◌, refl, true, false, some, [], ◌∷◌, Returns, arith, ◌==◌, ◌&&◌, if◌then◌else◌, none,
}
use lcore.Pmm.Defs.{Page, Memory}
use lcore.Pmm.Blocks.{IsFreeArea}
use lcore.Pmm.Paging.{
  Mmu, is_present, page_insert, page_remove, get_page, pgdir_alloc_page, get_pte, entry_in,
}
use lcore.Pmm.Walk.{walk, IsTables}
use lcore.Pmm.Release.{IsData}
use lcore.Pmm.Insert.{IsMappable, Inserted, page_insert-Inserted}
use lcore.Pmm.Fresh.{IsMissing, Mapped, pgdir_alloc_page-Mapped}
use lcore.Pmm.Remove.{IsRemovable, Removed, page_remove-Removed}

abbrev mapped : Page
mapped = record { ref = 1; reserved = false; head = false; property = 0 }

abbrev memory : Memory
memory = record {
  pages = λ x. if x == 4 then record mapped { ref = 0; head = true; property = 3 } else mapped;
  free_list = 4 ∷ [];
  nr_free = 3;
}

abbrev mmu : Mmu
mmu = record {
  memory = memory;
  npage = 8;
  words =
      λ f i. if (f == 1) && (i == 0) then 0x2007 else if (f == 2) && (i == 1) then 0x3007 else 0;
  cr3 = 1;
  tlb = λ n. if n == 1 then some 0x3007 else none;
}

memory-IsFreeArea : IsFreeArea memory
memory-IsFreeArea = record {
  blocks = (omega arith, omega arith, refl, tt);
  counted = refl;
  heads = λ x h. ground arith;
}

mmu-IsTables : IsTables 1 mmu
mmu-IsTables = record {
  area = memory-IsFreeArea;
  small = omega arith;
  managed = λ x h. ground arith;
  dir_used = refl;
  tables = λ i h. ground arith;
  distinct = λ i j h k e. ground arith;
}

page_three : IsData 1 3 mmu
page_three = record {
  inside = omega arith;
  used = refl;
  not_reserved = refl;
  not_dir = λ e. omega arith;
  no_table = λ i h e. ground arith;
}

abbrev mappable : IsMappable 1 7 0x1000 6 mmu
mappable = record {
  tables = mmu-IsTables;
  user = λ e. omega arith;
  range = omega arith;
  flags = omega arith;
  inside = omega arith;
  used = refl;
  replaced = λ p. page_three;
  room = omega arith;
}

-- Page 7 takes the place of page 3, which is freed.
page_insert-Inserted_example : Returns (Inserted 1 7 0x1000 6 mmu) (page_insert 1 7 0x1000 6 mmu)
page_insert-Inserted_example = page_insert-Inserted 1 7 0x1000 6 mmu mappable

abbrev removable : IsRemovable 1 0x1000 mmu
removable = record {
  tables = mmu-IsTables;
  user = λ e. omega arith;
  range = omega arith;
  named = λ p. page_three;
  room = omega arith;
}

page_remove-Removed_example :
    Returns
      (λ t. Removed 1 0x1000 mmu t (is_present (walk 1 0x1000 mmu)))
      (page_remove 1 0x1000 mmu)
page_remove-Removed_example = page_remove-Removed 1 0x1000 mmu removable

found_page : Returns (λ r. r.0 ≡ some 3) (get_page 1 0x1000 mmu)
unfolding get_page get_pte entry_in
found_page = refl

-- 0x2000 has a table and no page.
missing : IsMissing 1 0x2000 6 mmu
missing = record {
  tables = mmu-IsTables;
  user = λ e. omega arith;
  range = omega arith;
  flags = omega arith;
  absent = refl;
  clean = λ x f. ground arith;
  room = omega arith;
}

pgdir_alloc_page-Mapped_example : Returns (Mapped 1 0x2000 6 mmu) (pgdir_alloc_page 1 0x2000 6 mmu)
pgdir_alloc_page-Mapped_example = pgdir_alloc_page-Mapped 1 0x2000 6 mmu missing
