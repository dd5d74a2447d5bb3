-- ===== src/Pmm/Displace.antt =====
-- `page_remove_pte`, and what `page_insert` does with the page that an entry named before.
use lcore.Base.{
  ℕ, ◌+◌, ◌%◌, ◌^◌, ◌<◌, ◌≡◌, ◌≢◌, refl, ap, ◌∙◌, Bool, true, false, not, ◌&&◌, ◌||◌, none, Returns,
  Returns-bind, Returns-mono, arith, ltb, ◌==◌, if◌then◌else◌, Bool-cases, inl, inr,
}
use lcore.Pmm.Paging.{
  Mmu, pdx, ptx, ppn, is_present, release, tlb_invalidate, page_remove_pte, displace,
}
use lcore.Pmm.Walk.{walk, vpt, is_free, names, IsTables, is_free-set_ref}
use lcore.Pmm.Release.{ref_of, dec_ref, is_last, IsData, release-IsReleased, set_ref-IsTables}
use lcore.Pmm.Rewrite.{write-IsRewritten}

-- What becomes of the pages in use: `page` gains a reference, the page that the old entry named
-- loses one, and is free now if that was its last.
abbrev pub gained : (page x : ℕ) → Mmu → ℕ
gained page x s = if x == page then (ref_of x s + 1) % 2 ^ 32 else ref_of x s

abbrev pub counted : (page old x : ℕ) → Mmu → ℕ
counted page old x s =
    if is_present old && (x == ppn old) then dec_ref (gained page x s) else gained page x s

abbrev pub gone : (page old x : ℕ) → Mmu → Bool
gone page old x s = is_present old && (not (ppn old == page) && ((x == ppn old) && is_last x s))

-- After `displace`, in a state where `page` has gained its reference.
pub record IsDisplaced (pgdir page la old : ℕ) (s t : Mmu) : Type 0 where
  pub sound : IsTables pgdir t
  pub dir : (i : ℕ) → t.words pgdir i ≡ s.words pgdir i
  pub others :
      (lb : ℕ)
      → lb < 2 ^ 32
      → (pdx lb ≡ vpt → ⊥)
      → ppn lb ≢ ppn la
      → walk pgdir lb t ≡ walk pgdir lb s
  pub same : (t.npage ≡ s.npage) × (t.cr3 ≡ s.cr3)
  pub tlb : (n : ℕ) → n ≢ ppn la → t.tlb n ≡ s.tlb n
  pub freed : (x : ℕ) → is_free x t ≡ (is_free x s || gone page old x s)
  pub refs :
      (x : ℕ)
      → gone page old x s ≡ false
      → ref_of x t ≡ (if is_present old && (x == ppn old) then dec_ref (ref_of x s) else ref_of x s)

module _ (pgdir la : ℕ) (s : Mmu) (v : IsTables pgdir s) (here : names pgdir (pdx la) s ≡ true)
    (range : la < 2 ^ 32) (room : s.memory.nr_free + 1 < 2 ^ 32) where
  -- The entry's page is released, and the entry cleared.
  pub page_remove_pte-IsDisplaced :
      (page : ℕ)
      → is_present (walk pgdir la s) ≡ true
      → (ppn (walk pgdir la s) == page) ≡ false
      → IsData pgdir (ppn (walk pgdir la s)) s
      → Returns
          (λ t.
            IsDisplaced pgdir page la (walk pgdir la s) s t
            × (walk pgdir la t ≡ 0)
            × ((t.cr3 ≡ pgdir) → t.tlb (ppn la) ≡ none))
          (page_remove_pte pgdir la (ppn (s.words pgdir (pdx la))) (ptx la) s)
  unfolding page_remove_pte tlb_invalidate
  page_remove_pte-IsDisplaced page present other d =
      let old : s.words (ppn (s.words pgdir (pdx la))) (ptx la) ≡ walk pgdir la s = ground arith in
      let inside : ltb (ppn (walk pgdir la s)) s.npage ≡ true = ground (arith, d.inside) in
      rw (old, present, inside)
        (Returns-bind _ _ (release (ppn (walk pgdir la s)) s) _
          (release-IsReleased pgdir (ppn (walk pgdir la s)) s v d room)
          λ t r.
            let row : (i : ℕ) → t.words pgdir i ≡ s.words pgdir i =
              λ i. ap (λ w. w pgdir i) (r.same.0) in
            let walks : (lb : ℕ) → walk pgdir lb t ≡ walk pgdir lb s =
              λ lb. ap (λ w. walk pgdir lb (record s { words = w })) (r.same.0) in
            let z =
              write-IsRewritten pgdir la 0 (ppn (s.words pgdir (pdx la))) t r.sound
                (ground (arith, here, row (pdx la))) range (ap ppn (row (pdx la))) in
            (
              record {
                sound = z.sound;
                dir = λ i. z.dir i ∙ row i;
                others = λ lb k user ne. z.others lb k user ne ∙ walks lb;
                same = (r.same.1, r.same.2);
                tlb = λ n ne. ground (arith, r.same.3);
                freed = λ x. ground (arith, r.freed x, present, other);
                refs = λ x h. ground (arith, r.others x, r.counted, present, other);
              },
              z.entry,
              λ e. ground arith,
            ))

module _ (pgdir la page : ℕ) (s : Mmu) (v : IsTables pgdir s) (here : names pgdir (pdx la) s ≡ true)
    (range : la < 2 ^ 32) (room : s.memory.nr_free + 1 < 2 ^ 32)
    (d : is_present (walk pgdir la s) ≡ true → IsData pgdir (ppn (walk pgdir la s)) s) where
  pub displace-IsDisplaced :
      Returns
        (IsDisplaced pgdir page la (walk pgdir la s) s)
        (displace pgdir page la (ppn (s.words pgdir (pdx la))) (ptx la) s)
  unfolding displace
  displace-IsDisplaced =
      let old : s.words (ppn (s.words pgdir (pdx la))) (ptx la) ≡ walk pgdir la s = ground arith in
      let fold : (if is_present (s.words pgdir (pdx la)) then walk pgdir la s else 0)
          ≡ walk pgdir la s =
        ground arith in
      elim (Bool-cases (is_present (walk pgdir la s))) [
        | inr absent ↦
            rw (old, absent)
              (record {
                sound = v;
                dir = λ i. refl;
                others = λ lb k user ne. refl;
                same = (refl, refl);
                tlb = λ n ne. refl;
                freed = λ x. ground (arith, absent);
                refs = λ x h. ground (arith, absent);
              })
        | inl present ↦
            let inside : ltb (ppn (walk pgdir la s)) s.npage ≡ true =
              ground (arith, (d present).inside) in
            elim (Bool-cases (ppn (walk pgdir la s) == page)) [
              | inl equal ↦
                  rw (old, present, inside, equal)
                    (record {
                      sound = set_ref-IsTables pgdir page _ s v;
                      dir = λ i. refl;
                      others = λ lb k user ne. refl;
                      same = (refl, refl);
                      tlb = λ n ne. refl;
                      freed =
                          λ x. ground (arith, is_free-set_ref page (dec_ref (ref_of page s)) s x);
                      refs = λ x h. ground (arith, present, equal);
                    })
              | inr other ↦
                  rw (old, present, inside, other)
                    (Returns-mono _
                      (λ t.
                        IsDisplaced pgdir page la
                          (if is_present (s.words pgdir (pdx la)) then walk pgdir la s else 0) s t)
                      (page_remove_pte pgdir la (ppn (s.words pgdir (pdx la))) (ptx la) s)
                      (page_remove_pte-IsDisplaced pgdir la s v here range room page present other
                        (d present))
                      λ t q. rw fold (q.0))
            ]
      ]
