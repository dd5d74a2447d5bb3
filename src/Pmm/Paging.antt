-- ===== src/Pmm/Paging.antt =====
-- kern/mm/pmm.c, pmm.h and mmu.h: page directories and page tables. Memory is words by frame and
-- index; a `pte_t *` is such a pair, and a page directory its frame. Swapping is off
-- (`swap_init_ok` is 0), as it is while the kernel's own tables are built.
use lcore.Base.{
  ℕ, ◌+◌, ◌-◌, ◌*◌, ◌/◌, ◌%◌, ◌^◌, Bool, true, false, Option, none, some, Outcome, ok, ◌>>=◌, ◌>>◌,
  assert, ltb, ◌==◌, if◌then◌else◌, update,
}
use lcore.Fs.Defs.{Ret, done, err, e_no_mem}
use lcore.Pmm.Defs.{Memory, set_page, default_alloc_pages, default_free_pages}

-- `tlb` holds what the processor remembers of the directory at frame `cr3`, by page of addresses.
pub record Mmu : Type 0 where
  pub memory : Memory
  pub npage : ℕ
  pub words : ℕ → ℕ → ℕ
  pub cr3 : ℕ
  pub tlb : ℕ → Option ℕ

-- `PDX`, `PTX` and `PPN`
abbrev pub pdx : ℕ → ℕ
pdx la = la / 2 ^ 22 % 1024

abbrev pub ptx : ℕ → ℕ
ptx la = la / 2 ^ 12 % 1024

abbrev pub ppn : ℕ → ℕ
ppn pa = pa / 2 ^ 12

-- The bit `PTE_P`.
abbrev pub is_present : ℕ → Bool
is_present entry = entry % 2 == 1

abbrev pub page2pa : ℕ → ℕ
page2pa page = page * 2 ^ 12 % 2 ^ 32

-- `pa2page`; `KADDR` makes the same test.
abbrev pub pa2page : ℕ → Mmu → Outcome ℕ
pa2page pa s = assert (ltb (ppn pa) s.npage) >> ok (ppn pa)

-- `pte2page`
abbrev pub pte2page : ℕ → Mmu → Outcome ℕ
pte2page entry s = assert (is_present entry) >> pa2page entry s

abbrev pub write : (frame index word : ℕ) → Mmu → Mmu
write frame index word s = record s {
  words = update s.words frame (update (s.words frame) index word);
}

-- `memset` of a frame to 0.
abbrev pub clear_frame : ℕ → Mmu → Mmu
clear_frame frame s = record s { words = update s.words frame (λ i. 0) }

abbrev pub set_ref : (page ref : ℕ) → Mmu → Mmu
set_ref page ref s = record s {
  memory = set_page page (record (s.memory.pages page) { ref = ref }) s.memory;
}

abbrev pub page_ref_inc : ℕ → Mmu → Mmu
page_ref_inc page s = set_ref page (((s.memory.pages page).ref + 1) % 2 ^ 32) s

abbrev pub page_ref_dec : ℕ → Mmu → Mmu
page_ref_dec page s = set_ref page (((s.memory.pages page).ref + 2 ^ 32 - 1) % 2 ^ 32) s

unfoldable pub alloc_page : Mmu → Outcome (Option ℕ × Mmu)
alloc_page s =
    default_alloc_pages 1 s.memory >>= λ answer. ok (answer.0, record s { memory = answer.1 })

unfoldable pub free_page : ℕ → Mmu → Outcome Mmu
free_page page s = default_free_pages page 1 s.memory >>= λ m. ok (record s { memory = m })

unfoldable pub tlb_invalidate : (pgdir la : ℕ) → Mmu → Mmu
tlb_invalidate pgdir la s = record s {
  tlb = if s.cr3 == pgdir then update s.tlb (ppn la) none else s.tlb;
}

-- Where the entry of `la` stands in the table that the directory's entry names.
unfoldable pub entry_in : (pde la : ℕ) → Mmu → Outcome (Option (ℕ × ℕ) × Mmu)
entry_in pde la s = pa2page pde s >>= λ table. ok (some (table, ptx la), s)

-- A new table, cleared, with the flags PTE_U, PTE_W and PTE_P.
unfoldable pub new_table : (pgdir la : ℕ) → Option ℕ × Mmu → Outcome (Option (ℕ × ℕ) × Mmu)
new_table pgdir la (none, s) = ok (none, s)
new_table pgdir la (some page, s) = do
  frame ← pa2page (page2pa page) s
  entry_in (page2pa page + 7) la
      (write pgdir (pdx la) (page2pa page + 7) (clear_frame frame (set_ref page 1 s)))

-- `none` is NULL.
unfoldable pub get_pte : (pgdir la : ℕ) → (create : Bool) → Mmu → Outcome (Option (ℕ × ℕ) × Mmu)
get_pte pgdir la create s =
    let pde = s.words pgdir (pdx la) in
    let created = alloc_page s >>= λ answer. new_table pgdir la answer in
    if is_present pde then entry_in pde la s else if create then created else ok (none, s)

abbrev pub page_at : Option (ℕ × ℕ) × Mmu → Outcome (Option ℕ × Mmu)
page_at (none, s) = ok (none, s)
page_at (some (table, index), s) =
    let entry = s.words table index in
    if is_present entry then (pte2page entry s >>= λ page. ok (some page, s)) else ok (none, s)

-- `get_page`, called with no `ptep_store`.
unfoldable pub get_page : (pgdir la : ℕ) → Mmu → Outcome (Option ℕ × Mmu)
get_page pgdir la s = get_pte pgdir la false s >>= λ found. page_at found

-- One reference less, and the page is freed with the last.
unfoldable pub release : ℕ → Mmu → Outcome Mmu
release page s =
    let t = page_ref_dec page s in if (t.memory.pages page).ref == 0 then free_page page t else ok t

unfoldable pub page_remove_pte : (pgdir la table index : ℕ) → Mmu → Outcome Mmu
page_remove_pte pgdir la table index s =
    let entry = s.words table index in
    let removed : Outcome Mmu = pte2page entry s >>= λ page.
    release page s >>= λ t. ok (tlb_invalidate pgdir la (write table index 0 t)) in
    if is_present entry then removed else ok s

abbrev pub remove_at : (pgdir la : ℕ) → Option (ℕ × ℕ) × Mmu → Outcome Mmu
remove_at pgdir la (none, s) = ok s
remove_at pgdir la (some (table, index), s) = page_remove_pte pgdir la table index s

unfoldable pub page_remove : (pgdir la : ℕ) → Mmu → Outcome Mmu
page_remove pgdir la s = get_pte pgdir la false s >>= λ found. remove_at pgdir la found

-- What `page_insert` does with a page that the entry already names.
unfoldable pub displace : (pgdir page la table index : ℕ) → Mmu → Outcome Mmu
displace pgdir page la table index s =
    let entry = s.words table index in
    let named : Outcome Mmu = pte2page entry s >>= λ p.
    if p == page then ok (page_ref_dec page s) else page_remove_pte pgdir la table index s in
    if is_present entry then named else ok s

-- The flags with PTE_P; `perm` is flags, below 2 ^ 12, as in every call.
abbrev pub with_p : ℕ → ℕ
with_p perm = perm + 1 - perm % 2

unfoldable pub insert_at :
    (pgdir page la perm : ℕ) → Option (ℕ × ℕ) × Mmu → Outcome (Ret (Unit {0}) × Mmu)
insert_at pgdir page la perm (none, s) = ok (err e_no_mem, s)
insert_at pgdir page la perm (some (table, index), s) = do
  t ← displace pgdir page la table index (page_ref_inc page s)
  ok (done tt, tlb_invalidate pgdir la (write table index (page2pa page + with_p perm) t))

unfoldable pub page_insert : (pgdir page la perm : ℕ) → Mmu → Outcome (Ret (Unit {0}) × Mmu)
page_insert pgdir page la perm s =
    get_pte pgdir la true s >>= λ found. insert_at pgdir page la perm found

-- The page is given back when it cannot be mapped.
abbrev pub kept_or_freed : ℕ → Ret (Unit {0}) × Mmu → Outcome (Option ℕ × Mmu)
kept_or_freed page (done _, s) = ok (some page, s)
kept_or_freed page (err e, s) = free_page page s >>= λ t. ok (none, t)

abbrev pub insert_fresh : (pgdir la perm : ℕ) → Option ℕ × Mmu → Outcome (Option ℕ × Mmu)
insert_fresh pgdir la perm (none, s) = ok (none, s)
insert_fresh pgdir la perm (some page, s) =
    page_insert pgdir page la perm s >>= λ answer. kept_or_freed page answer

unfoldable pub pgdir_alloc_page : (pgdir la perm : ℕ) → Mmu → Outcome (Option ℕ × Mmu)
pgdir_alloc_page pgdir la perm s = alloc_page s >>= λ answer. insert_fresh pgdir la perm answer
