-- ===== src/Vmm/Tests.antt =====
-- The theorems on areas at a space with three of them, of which two meet.
use lcore.Base.{ℕ, ◌≡◌, refl, true, false, some, [], ◌∷◌, arith, inl, ◌↔◌}
use lcore.Vmm.Defs.{
  Vma, Mm, contains, find_vma, find_in, insert_vma_struct, mm_map, user_mem_check, check_areas,
}
use lcore.Vmm.Areas.{In, IsSpace}
use lcore.Vmm.Find.{find_vma-finds}
use lcore.Vmm.Insert.{Inserted, overlaps, insert_vma_struct-Inserted}
use lcore.Vmm.Map.{mapped, mm_map-mapped}
use lcore.Vmm.Check.{Checked, user_mem_check-Checked}

abbrev area : ℕ → ℕ → ℕ → Vma
area start end flags = record { vm_start = start; vm_end = end; vm_flags = flags }

abbrev three : Mm
three = record {
  mmap_list =
      area 0x00800000 0x00802000 5
      ∷ area 0x00802000 0x00803000 3
      ∷ area 0xaff00000 0xb0000000 11
      ∷ [];
  mmap_cache = some (area 0x00800000 0x00802000 5);
  map_count = 3;
}

three-IsSpace : IsSpace three
three-IsSpace = record {
  areas = (omega arith, omega arith, (omega arith, omega arith, (omega arith, omega arith, tt)));
  count = refl;
  cache = inl refl;
}

find_vma-finds_example :
    ((v : Vma)
      → ((find_vma 0x00802800 three).0 ≡ some v)
        ↔ (In v three.mmap_list × (contains 0x00802800 v ≡ true)))
    × IsSpace (find_vma 0x00802800 three).1
    × ((find_vma 0x00802800 three).1.mmap_list ≡ three.mmap_list)
find_vma-finds_example = find_vma-finds 0x00802800 three three-IsSpace

insert_vma_struct-Inserted_example :
    Inserted
      (area 0x00900000 0x00901000 1)
      three
      (overlaps (area 0x00900000 0x00901000 1) three.mmap_list)
      (insert_vma_struct (area 0x00900000 0x00901000 1) three)
insert_vma_struct-Inserted_example =
    insert_vma_struct-Inserted (area 0x00900000 0x00901000 1) three three-IsSpace (omega arith)

-- The page before the first area is free, the page behind it is not: the kernel stops.
mm_map-mapped_example :
    mm_map true 0x007ff000 0x2000 3 three ≡ mapped true 0x007ff000 0x2000 3 three
mm_map-mapped_example = mm_map-mapped true 0x007ff000 0x2000 3 three three-IsSpace

user_mem_check-Checked_example :
    Checked false 0x00801000 0x00802800 three
      (user_mem_check 0x2000 0x00801000 0x1800 false (some three))
user_mem_check-Checked_example =
    user_mem_check-Checked 0x2000 0x00801000 0x1800 false three three-IsSpace (omega arith)

-- Read across the border of two areas, and no write to the first.
reads_across :
    user_mem_check 3 0x00801000 0x1800 false (some three)
    ≡ some (true, some (record three { mmap_cache = some (area 0x00802000 0x00803000 3) }))
unfolding user_mem_check check_areas find_vma find_in
reads_across = refl
