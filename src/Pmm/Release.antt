-- ===== src/Pmm/Release.antt =====
-- `page_ref_dec` and `free_page` together: a page loses a reference, and is freed with the last one.
use lcore.Base.{
  ℕ, ◌+◌, ◌-◌, ◌%◌, ◌^◌, ◌<◌, ◌≡◌, ◌≢◌, refl, sym, ◌∙◌, Bool, true, false, ◌&&◌, ◌||◌, Returns,
  Returns-bind, arith, ◌==◌, Bool-cases, inl, inr,
}
use lcore.Pmm.Defs.{Memory, default_free_pages}
use lcore.Pmm.Free.{IsInUse, IsFreed, default_free_pages-IsFreed}
use lcore.Pmm.Kept.{SameUse, Returns-WhenOk, default_free_pages-SameUse}
use lcore.Pmm.Paging.{Mmu, ppn, set_ref, page_ref_dec, free_page, release}
use lcore.Pmm.Walk.{is_free, names, IsTables, is_free-set_ref, set_ref-IsFreeArea}

abbrev pub ref_of : ℕ → Mmu → ℕ
ref_of page s = (s.memory.pages page).ref

abbrev pub dec_ref : ℕ → ℕ
dec_ref ref = (ref + 2 ^ 32 - 1) % 2 ^ 32

-- The last reference goes.
abbrev pub is_last : ℕ → Mmu → Bool
is_last page s = dec_ref (ref_of page s) == 0

-- A page that may lose a reference: it is in use, and no table.
pub record IsData (pgdir page : ℕ) (s : Mmu) : Type 0 where
  pub inside : page < s.npage
  pub used : is_free page s ≡ false
  pub not_reserved : (s.memory.pages page).reserved ≡ false
  pub not_dir : page ≢ pgdir
  pub no_table : (i : ℕ) → names pgdir i s ≡ true → ppn (s.words pgdir i) ≢ page

pub record IsReleased (pgdir page : ℕ) (s t : Mmu) : Type 0 where
  pub sound : IsTables pgdir t
  pub same : (t.words ≡ s.words) × (t.npage ≡ s.npage) × (t.cr3 ≡ s.cr3) × (t.tlb ≡ s.tlb)
  pub freed : (x : ℕ) → is_free x t ≡ (is_free x s || ((x == page) && is_last page s))
  pub others : (x : ℕ) → (x == page) ≡ false → SameUse (s.memory.pages x) (t.memory.pages x)
  pub counted : is_last page s ≡ false → ref_of page t ≡ dec_ref (ref_of page s)

-- A change of a count keeps the tables.
pub set_ref-IsTables :
    (pgdir page ref : ℕ) (s : Mmu) → IsTables pgdir s → IsTables pgdir (set_ref page ref s)
set_ref-IsTables pgdir page ref s v = record {
  area = set_ref-IsFreeArea page ref s v.area;
  small = v.small;
  managed = λ x h. v.managed x (sym (is_free-set_ref page ref s x) ∙ h);
  dir_used = is_free-set_ref page ref s pgdir ∙ v.dir_used;
  tables = λ i h. (
    (v.tables i h).0,
    (v.tables i h).1,
    is_free-set_ref page ref s (ppn (s.words pgdir i)) ∙ (v.tables i h).2,
  );
  distinct = v.distinct;
}

-- More free pages keep the tables, when no table is among them.
free_more-IsTables :
    (pgdir page : ℕ) (s : Mmu) (m : Memory)
    → IsTables pgdir s
    → IsData pgdir page s
    → IsFreed page 1 s.memory m
    → IsTables pgdir (record s { memory = m })
free_more-IsTables pgdir page s m v d f = record {
  area = f.area;
  small = v.small;
  managed = λ x h. ground (arith, f.covered x, v.managed x, d.inside);
  dir_used = ground (arith, f.covered pgdir, v.dir_used, d.not_dir);
  tables = λ i h.
      let t = v.tables i h in
      (t.0, t.1, ground (arith, f.covered (ppn (s.words pgdir i)), t.2, d.no_table i h));
  distinct = v.distinct;
}

module _ (pgdir page : ℕ) (s : Mmu) (v : IsTables pgdir s) (d : IsData pgdir page s)
    (room : s.memory.nr_free + 1 < 2 ^ 32) where
  abbrev less : Mmu
  less = page_ref_dec page s

  less-IsData : IsData pgdir page less
  less-IsData = record {
    inside = d.inside;
    used = is_free-set_ref page (dec_ref (ref_of page s)) s page ∙ d.used;
    not_reserved = ground (arith, d.not_reserved);
    not_dir = d.not_dir;
    no_table = d.no_table;
  }

  less-IsInUse : IsInUse page 1 less.memory
  less-IsInUse = record {
    some_pages = omega arith;
    not_free = λ x w. ground (arith, less-IsData.used);
    not_reserved = λ x w. ground (arith, d.not_reserved);
    fits = room;
  }

  pub release-IsReleased : Returns (IsReleased pgdir page s) (release page s)
  unfolding release free_page
  release-IsReleased =
      let w = set_ref-IsTables pgdir page (dec_ref (ref_of page s)) s v in
      let own : ref_of page less ≡ dec_ref (ref_of page s) = ground arith in
      elim (Bool-cases (is_last page s)) [
        | inr more ↦
            rw (own, more)
              (record {
                sound = w;
                same = (refl, refl, refl, refl);
                freed = λ x. ground (arith, is_free-set_ref page (dec_ref (ref_of page s)) s x);
                others = λ x h. ground arith;
                counted = λ h. ground arith;
              })
        | inl last ↦
            rw (own, last)
              (Returns-bind _ (IsReleased pgdir page s) (default_free_pages page 1 less.memory) _
                (Returns-WhenOk (IsFreed page 1 less.memory) _
                  (default_free_pages page 1 less.memory)
                  (default_free_pages-IsFreed page 1 less.memory w.area less-IsInUse)
                  (default_free_pages-SameUse page 1 less.memory))
                λ m (f, k). record {
                  sound = free_more-IsTables pgdir page less m w less-IsData f;
                  same = (refl, refl, refl, refl);
                  freed = λ x.
                      ground
                        (arith, f.covered x, is_free-set_ref page (dec_ref (ref_of page s)) s x);
                  others = λ x h. ground (arith, k x);
                  counted = λ h. ground arith;
                })
      ]
