-- ===== src/Vmm/Fault.antt =====
-- kern/mm/vmm.c, `do_pgfault`, with swapping off: a page is found for an address that has none.
pub mod Resolve
mod Tests
use lcore.Base.{
  ℕ, ◌+◌, ◌-◌, ◌%◌, ◌^◌, Bool, true, false, ◌||◌, Option, none, some, Outcome, ok, panic, ◌>>=◌,
  ltb, ◌==◌, if◌then◌else◌,
}
use lcore.Fs.Defs.{Ret, done, err, e_inval, e_no_mem}
use lcore.Pmm.Paging.{Mmu, is_present, get_pte, pgdir_alloc_page}
use lcore.Vmm.Defs.{Vma, Mm, vm_read, vm_write, vm_exec, rounddown, find_vma}

-- The address space, the page tables and the counter `pgfault_num`.
pub record Space : Type 0 where
  pub mm : Mm
  pub mmu : Mmu
  pub pgfault_num : ℕ

-- The `switch` on the low bits of the error code: whether the area allows the access.
unfoldable pub may_access : (error_code : ℕ) → Vma → Bool
may_access error_code v =
    let reads = vm_read v.vm_flags || vm_exec v.vm_flags in
    if error_code % 4 == 0
    then reads
    else if error_code % 4 == 1
    then false
    else vm_write v.vm_flags

-- PTE_U, and PTE_W for a writable area.
abbrev pub perm_of : Vma → ℕ
perm_of v = if vm_write v.vm_flags then 4 + 2 else 4

abbrev pub answer_of : Option ℕ × Mmu → Ret (Unit {0}) × Mmu
answer_of (none, s) = (err e_no_mem, s)
answer_of (some page, s) = (done tt, s)

-- What the entry says: empty, a page, or a place in the swap area.
unfoldable pub fill_entry :
    (pgdir la perm : ℕ) → Option (ℕ × ℕ) × Mmu → Outcome (Ret (Unit {0}) × Mmu)
fill_entry pgdir la perm (none, s) = ok (err e_no_mem, s)
fill_entry pgdir la perm (some (table, index), s) =
    let filled = pgdir_alloc_page pgdir la perm s >>= λ r. ok (answer_of r) in
    if s.words table index == 0
    then filled
    else if is_present (s.words table index)
    then panic
    else ok (err e_no_mem, s)

unfoldable pub resolve :
    (pgdir error_code addr : ℕ) → Option Vma → Mmu → Outcome (Ret (Unit {0}) × Mmu)
resolve pgdir error_code addr none s = ok (err e_inval, s)
resolve pgdir error_code addr (some v) s =
    let la = rounddown addr in
    let filled = get_pte pgdir la true s >>= λ found. fill_entry pgdir la (perm_of v) found in
    if ltb addr v.vm_start
    then ok (err e_inval, s)
    else if may_access error_code v
    then filled
    else ok (err e_inval, s)

unfoldable pub do_pgfault : (pgdir error_code addr : ℕ) → Space → Outcome (Ret (Unit {0}) × Space)
do_pgfault pgdir error_code addr w =
    let (found, mm) = find_vma addr w.mm in
    resolve pgdir error_code addr found w.mmu >>= λ (answer, mmu).
    ok (answer, record { mm = mm; mmu = mmu; pgfault_num = (w.pgfault_num + 1) % 2 ^ 32 })
