-- ===== src/Pmm/Remove.antt =====
-- `page_remove`: the entry, the reference and the free pages that it changes.
use lcore.Base.{
  ℕ, ◌+◌, ◌^◌, ◌<◌, ◌≡◌, ◌≢◌, refl, sym, subst, Bool, true, false, ◌&&◌, ◌||◌, none, Returns,
  Returns-mono, arith, ltb, ◌==◌, if◌then◌else◌, Bool-cases, inl, inr,
}
use lcore.Pmm.Paging.{
  Mmu, pdx, ptx, ppn, is_present, page_remove_pte, get_pte, page_remove, entry_in,
}
use lcore.Pmm.Walk.{walk, vpt, is_free, names, IsTables}
use lcore.Pmm.Release.{ref_of, dec_ref, is_last, IsData}
use lcore.Pmm.Displace.{page_remove_pte-IsDisplaced}

-- The entry of `la` may go: a page that it names is in use.
pub record IsRemovable (pgdir la : ℕ) (s : Mmu) : Type 0 where
  pub tables : IsTables pgdir s
  pub user : pdx la ≡ vpt → ⊥
  pub range : la < 2 ^ 32
  pub named : is_present (walk pgdir la s) ≡ true → IsData pgdir (ppn (walk pgdir la s)) s
  pub room : s.memory.nr_free + 1 < 2 ^ 32

-- What is left when the entry `old` has gone.
pub record IsRemoved (pgdir la old : ℕ) (s t : Mmu) : Type 0 where
  pub sound : IsTables pgdir t
  pub entry : walk pgdir la t ≡ 0
  pub others :
      (lb : ℕ)
      → lb < 2 ^ 32
      → (pdx lb ≡ vpt → ⊥)
      → ppn lb ≢ ppn la
      → walk pgdir lb t ≡ walk pgdir lb s
  pub forgotten : t.cr3 ≡ pgdir → t.tlb (ppn la) ≡ none
  pub freed : (x : ℕ) → is_free x t ≡ (is_free x s || ((x == ppn old) && is_last x s))
  pub refs :
      (x : ℕ)
      → ((x == ppn old) && is_last x s) ≡ false
      → ref_of x t ≡ (if x == ppn old then dec_ref (ref_of x s) else ref_of x s)

abbrev pub Removed : (pgdir la : ℕ) → (s t : Mmu) → Bool → Type 0
Removed pgdir la s t true = IsRemoved pgdir la (walk pgdir la s) s t
Removed pgdir la s t false = t ≡ s

-- At the entry that the directory names.
pub page_remove_pte-Removed :
    (pgdir la : ℕ) (s : Mmu)
    → IsRemovable pgdir la s
    → is_present (s.words pgdir (pdx la)) ≡ true
    → Returns
        (λ t. Removed pgdir la s t (is_present (walk pgdir la s)))
        (page_remove_pte pgdir la (ppn (s.words pgdir (pdx la))) (ptx la) s)
unfolding page_remove_pte
page_remove_pte-Removed pgdir la s h here =
    let names_it : names pgdir (pdx la) s ≡ true = ground (arith, here, h.user) in
    elim (Bool-cases (is_present (walk pgdir la s))) [
      | inr absent ↦
          subst
            (λ b.
              Returns (λ t. Removed pgdir la s t b)
                (page_remove_pte pgdir la (ppn (s.words pgdir (pdx la))) (ptx la) s))
            (sym absent) (untouched here absent)
      | inl present ↦
          let old = walk pgdir la s in
          subst
            (λ b.
              Returns (λ t. Removed pgdir la s t b)
                (page_remove_pte pgdir la (ppn (s.words pgdir (pdx la))) (ptx la) s))
            (sym present)
            (Returns-mono _ _ (page_remove_pte pgdir la (ppn (s.words pgdir (pdx la))) (ptx la) s)
              (page_remove_pte-IsDisplaced pgdir la s h.tables names_it h.range h.room (ppn old + 1)
                present (ground arith) (h.named present))
              λ t (q, entry, forgotten). record {
                sound = q.sound;
                entry = entry;
                others = q.others;
                forgotten = forgotten;
                freed = λ x. ground (arith, q.freed x, present);
                refs = λ x kept. ground (arith, q.refs x, present);
              })
    ]
  where
    untouched :
        is_present (s.words pgdir (pdx la)) ≡ true
        → is_present (walk pgdir la s) ≡ false
        → Returns (λ t. t ≡ s) (page_remove_pte pgdir la (ppn (s.words pgdir (pdx la))) (ptx la) s)
    untouched named absent =
        let empty : is_present (s.words (ppn (s.words pgdir (pdx la))) (ptx la)) ≡ false =
          ground arith in
        rw (empty, page_remove_pte) refl

-- On sound tables, page_remove at a 32-bit address outside the range of VPT, whose page, if any,
-- is in use and no table, while the count of free pages can grow, returns: with no page there
-- nothing has changed; else the entry is 0, no address of another page has changed, the processor
-- has forgotten the entry, the page has lost a reference and is free if that was its last, no
-- other page has become free, and the tables are sound.
pub page_remove-Removed :
    (pgdir la : ℕ) (s : Mmu)
    → IsRemovable pgdir la s
    → Returns (λ t. Removed pgdir la s t (is_present (walk pgdir la s))) (page_remove pgdir la s)
unfolding page_remove get_pte entry_in
page_remove-Removed pgdir la s h = elim (Bool-cases (is_present (s.words pgdir (pdx la)))) [
  | inr absent ↦ rw absent refl
  | inl here ↦
      let inside : ltb (ppn (s.words pgdir (pdx la))) s.npage ≡ true =
        ground (arith, (h.tables.tables (pdx la) (ground (arith, here, h.user))).0) in
      let located : page_remove pgdir la s
          ≡ page_remove_pte pgdir la (ppn (s.words pgdir (pdx la))) (ptx la) s =
        rw (here, inside) refl in
      subst (λ m. Returns (λ t. Removed pgdir la s t (is_present (walk pgdir la s))) m)
        (sym located) (page_remove_pte-Removed pgdir la s h here)
]
