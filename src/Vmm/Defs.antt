-- ===== src/Vmm/Defs.antt =====
-- kern/mm/vmm.c: the areas of a process's address space. A `vma_struct` is not changed once it is in
-- the list, so it stands for itself; `mmap_list` is the sequence of the list, and `mmap_cache` a
-- copy of the area that was found last.
use lcore.Base.{
  ℕ, zero, suc, ◌+◌, ◌-◌, ◌/◌, ◌%◌, ◌^◌, Bool, true, false, not, ◌&&◌, Option, none, some, List, [],
  ◌∷◌, Outcome, ok, ◌>>=◌, ◌>>◌, assert, ltb, leb, ◌==◌, if◌then◌else◌,
}
use lcore.Fs.Defs.{Ret, done, err, e_inval, e_no_mem}

pub record Vma : Type 0 where
  pub vm_start : ℕ
  pub vm_end : ℕ
  pub vm_flags : ℕ

-- `mm_struct`; its page directory, lock and swap list are not in it.
pub record Mm : Type 0 where
  pub mmap_list : List Vma
  pub mmap_cache : Option Vma
  pub map_count : ℕ

abbrev pub vm_read : ℕ → Bool
vm_read flags = flags % 2 == 1

abbrev pub vm_write : ℕ → Bool
vm_write flags = flags / 2 % 2 == 1

abbrev pub vm_exec : ℕ → Bool
vm_exec flags = flags / 4 % 2 == 1

abbrev pub vm_stack : ℕ → Bool
vm_stack flags = flags / 8 % 2 == 1

-- `PGSIZE`
abbrev pub pgsize : ℕ
pgsize = 4096

-- `ROUNDDOWN` and `ROUNDUP` to pages, on 32-bit addresses.
abbrev pub rounddown : ℕ → ℕ
rounddown a = a - a % pgsize

abbrev pub roundup : ℕ → ℕ
roundup a = rounddown ((a + pgsize - 1) % 2 ^ 32)

-- `USER_ACCESS` and `KERN_ACCESS`
abbrev pub user_access : (start end : ℕ) → Bool
user_access start end = leb 0x00200000 start && (ltb start end && leb end 0xb0000000)

abbrev pub kern_access : (start end : ℕ) → Bool
kern_access start end = leb 0xc0000000 start && (ltb start end && leb end 0xf8000000)

-- `mm_create`, when `kmalloc` succeeds.
unfoldable pub mm_create : Mm
mm_create = record { mmap_list = []; mmap_cache = none; map_count = 0 }

-- `got` says whether `kmalloc` had the memory.
unfoldable pub vma_create : (got : Bool) → (start end flags : ℕ) → Option Vma
vma_create true start end flags = some (record { vm_start = start; vm_end = end; vm_flags = flags })
vma_create false start end flags = none

abbrev pub contains : ℕ → Vma → Bool
contains addr v = leb v.vm_start addr && ltb addr v.vm_end

-- The loop of `find_vma`.
unfoldable pub find_in : ℕ → List Vma → Option Vma
find_in addr [] = none
find_in addr (v ∷ vs) = if contains addr v then some v else find_in addr vs

abbrev pub remember : Option Vma → Mm → Mm
remember none mm = mm
remember (some v) mm = record mm { mmap_cache = some v }

abbrev pub cached : ℕ → Option Vma → Bool
cached addr none = false
cached addr (some v) = contains addr v

unfoldable pub find_vma : ℕ → Mm → Option Vma × Mm
find_vma addr mm =
    let found = if cached addr mm.mmap_cache then mm.mmap_cache else find_in addr mm.mmap_list in
    (found, remember found mm)

unfoldable pub check_vma_overlap : (prev next : Vma) → Outcome (Unit {0})
check_vma_overlap prev next = do
  assert (ltb prev.vm_start prev.vm_end)
  assert (leb prev.vm_end next.vm_start)
  assert (ltb next.vm_start next.vm_end)

-- `le_prev`, the last entry that the loop of `insert_vma_struct` passes, and `le_next`.
abbrev pub check_prev : Option Vma → Vma → Outcome (Unit {0})
check_prev none v = ok tt
check_prev (some p) v = check_vma_overlap p v

abbrev pub check_next : Vma → List Vma → Outcome (Unit {0})
check_next v [] = ok tt
check_next v (n ∷ ns) = check_vma_overlap v n

-- The loop of `insert_vma_struct` from the entry after `prev` on, with the insertion.
unfoldable pub insert_after : Option Vma → Vma → List Vma → Outcome (List Vma)
insert_after prev v [] = do check_prev prev v; check_next v []; ok (v ∷ [])
insert_after prev v (n ∷ ns) =
    let here = check_prev prev v >> (check_next v (n ∷ ns) >> ok (v ∷ n ∷ ns)) in
    let later = insert_after (some n) v ns >>= λ l. ok (n ∷ l) in
    if ltb v.vm_start n.vm_start then here else later

unfoldable pub insert_vma_struct : Vma → Mm → Outcome Mm
insert_vma_struct v mm = do
  assert (ltb v.vm_start v.vm_end)
  l ← insert_after none v mm.mmap_list
  ok (record mm { mmap_list = l; map_count = mm.map_count + 1 })

-- The result of `find_vma` at which `mm_map` gives up.
abbrev pub reaches : (end : ℕ) → Option Vma → Bool
reaches end none = false
reaches end (some v) = ltb v.vm_start end

abbrev pub map_created : Option Vma → Mm → Outcome (Ret (Unit {0}) × Mm)
map_created none mm = ok (err e_no_mem, mm)
map_created (some v) mm = insert_vma_struct v mm >>= λ m. ok (done tt, m)

unfoldable pub mm_map : (got : Bool) → (addr len flags : ℕ) → Mm → Outcome (Ret (Unit {0}) × Mm)
mm_map got addr len flags mm =
    let start = rounddown addr in
    let end = roundup ((addr + len) % 2 ^ 32) in
    let (found, m) = find_vma start mm in
    if user_access start end
    then if reaches end found
      then ok (err e_inval, m)
      else map_created (vma_create got start end flags) m
    else ok (err e_inval, mm)

-- What a write or a read asks of the area at `start`.
abbrev pub area_allows : (write : Bool) → (start : ℕ) → Vma → Bool
area_allows write start v =
    (if write then vm_write v.vm_flags else vm_read v.vm_flags)
    && not (write && (vm_stack v.vm_flags && ltb start (v.vm_start + pgsize)))

-- The loop of `user_mem_check`, with fuel for its rounds. (An area that `find_vma` answers starts at
-- or before the address, as the code tests once more.)
unfoldable pub check_areas : (fuel : ℕ) → (write : Bool) → (start end : ℕ) → Mm → Option (Bool × Mm)
check_areas zero write start end mm = none
check_areas (suc fuel) write start end mm =
    let next : Option (Bool × Mm) = elim (find_vma start mm).0 [
      | none ↦ some (false, (find_vma start mm).1)
      | some v ↦
          if ltb start v.vm_start
          then some (false, (find_vma start mm).1)
          else elim (area_allows write start v) [
            | true ↦ check_areas fuel write v.vm_end end (find_vma start mm).1
            | false ↦ some (false, (find_vma start mm).1)
          ]
    ] in
    if ltb start end then next else some (true, mm)

unfoldable pub user_mem_check :
    (fuel addr len : ℕ) → (write : Bool) → Option Mm → Option (Bool × Option Mm)
user_mem_check fuel addr len write none = some (kern_access addr ((addr + len) % 2 ^ 32), none)
user_mem_check fuel addr len write (some mm) =
    let end = (addr + len) % 2 ^ 32 in
    if user_access addr end
    then elim (check_areas fuel write addr end mm) [ none ↦ none | some (b, m) ↦ some (b, some m) ]
    else some (false, some mm)
