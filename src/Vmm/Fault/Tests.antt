-- ===== src/Vmm/Fault/Tests.antt =====
-- A page fault at 0x300123, in a writable area without pages, and the refusal of a write to one that
-- is only readable. The directory is in frame 1, and the pages 4 to 6 are free.
use lcore.Base.{ℕ, ◌≡◌, refl, true, false, none, [], ◌∷◌, Returns, arith, ◌==◌, if◌then◌else◌}
use lcore.Fs.Defs.{err, e_inval}
use lcore.Pmm.Defs.{Page, Memory}
use lcore.Pmm.Paging.{Mmu}
use lcore.Pmm.Walk.{IsTables}
use lcore.Vmm.Defs.{Vma, find_vma, find_in}
use lcore.Vmm.Areas.{IsSpace}
use lcore.Vmm.Fault.{Space, do_pgfault, resolve, may_access}
use lcore.Vmm.Fault.Resolve.{IsFault, IsHandled, do_pgfault-IsHandled}

abbrev in_use : Page
in_use = record { ref = 1; reserved = false; head = false; property = 0 }

abbrev memory : Memory
memory = record {
  pages = λ x. if x == 4 then record in_use { ref = 0; head = true; property = 3 } else in_use;
  free_list = 4 ∷ [];
  nr_free = 3;
}

abbrev mmu : Mmu
mmu = record { memory = memory; npage = 8; words = λ f i. 0; cr3 = 1; tlb = λ n. none }

abbrev area : ℕ → ℕ → ℕ → Vma
area start end flags = record { vm_start = start; vm_end = end; vm_flags = flags }

abbrev world : Space
world = record {
  mm = record {
    mmap_list = area 0x200000 0x300000 1 ∷ area 0x300000 0x302000 3 ∷ [];
    mmap_cache = none;
    map_count = 2;
  };
  mmu = mmu;
  pgfault_num = 7;
}

world-IsSpace : IsSpace world.mm
world-IsSpace = record {
  areas = (omega arith, omega arith, (omega arith, omega arith, tt));
  count = refl;
  cache = tt;
}

mmu-IsTables : IsTables 1 mmu
mmu-IsTables = record {
  area = record {
    blocks = (omega arith, omega arith, refl, tt);
    counted = refl;
    heads = λ x h. ground arith;
  };
  small = omega arith;
  managed = λ x h. ground arith;
  dir_used = refl;
  tables = λ i h. ground arith;
  distinct = λ i j h k e. ground arith;
}

unpaged-IsFault : IsFault 1 0x300123 mmu
unpaged-IsFault = record {
  tables = mmu-IsTables;
  user = λ e. omega arith;
  range = omega arith;
  empty = refl;
  clean = λ x f. ground arith;
  room = omega arith;
}

do_pgfault-IsHandled_example :
    Returns (IsHandled 1 2 0x300123 world) (do_pgfault 1 2 0x300123 world)
do_pgfault-IsHandled_example = do_pgfault-IsHandled 1 2 0x300123 world world-IsSpace unpaged-IsFault

refused : Returns (λ r. r.0 ≡ err e_inval) (do_pgfault 1 2 0x200123 world)
unfolding do_pgfault resolve may_access find_vma find_in
refused = refl
