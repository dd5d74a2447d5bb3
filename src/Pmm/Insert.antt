-- ===== src/Pmm/Insert.antt =====
-- `page_insert` and `page_remove`: which entries, references and free pages they change.
use lcore.Base.{
  ℕ, ◌+◌, ◌*◌, ◌%◌, ◌^◌, ◌<◌, ◌≡◌, ◌≢◌, refl, sym, ap, ap₂, subst, ◌∙◌, true, false, ◌&&◌, ◌||◌,
  Option, none, some, Returns, Returns-bind, arith, ◌==◌, if◌then◌else◌, inl, inr,
}
use lcore.Fs.Defs.{Ret, done, err, e_no_mem}
use lcore.Pmm.Paging.{
  Mmu, pdx, ptx, ppn, is_present, page2pa, write, set_ref, page_ref_inc, tlb_invalidate, displace,
  with_p, insert_at, page_insert, get_pte,
}
use lcore.Pmm.Walk.{walk, vpt, is_free, names, IsTables, IsLocated, Located, is_free-set_ref}
use lcore.Pmm.Entry.{get_pte-Located, page2pa_lem}
use lcore.Pmm.Release.{ref_of, dec_ref, IsData, set_ref-IsTables}
use lcore.Pmm.Rewrite.{write-IsRewritten}
use lcore.Pmm.Displace.{gained, counted, gone, IsDisplaced, displace-IsDisplaced}

-- `page` may be mapped at `la`: it is in use, and so is the page that it displaces.
pub record IsMappable (pgdir page la perm : ℕ) (s : Mmu) : Type 0 where
  pub tables : IsTables pgdir s
  pub user : pdx la ≡ vpt → ⊥
  pub range : la < 2 ^ 32
  pub flags : perm < 2 ^ 12
  pub inside : page < s.npage
  pub used : is_free page s ≡ false
  pub replaced : is_present (walk pgdir la s) ≡ true → IsData pgdir (ppn (walk pgdir la s)) s
  pub room : s.memory.nr_free + 1 < 2 ^ 32

-- What `page_insert` did.
pub record IsInserted (pgdir page la perm : ℕ) (s t : Mmu) : Type 0 where
  pub sound : IsTables pgdir t
  pub entry : walk pgdir la t ≡ page * 2 ^ 12 + with_p perm
  pub others :
      (lb : ℕ)
      → lb < 2 ^ 32
      → (pdx lb ≡ vpt → ⊥)
      → ppn lb ≢ ppn la
      → walk pgdir lb t ≡ walk pgdir lb s
  pub forgotten : t.cr3 ≡ pgdir → t.tlb (ppn la) ≡ none
  pub remembered : (n : ℕ) → n ≢ ppn la → t.tlb n ≡ s.tlb n
  pub freed : (x : ℕ) → is_free x s ≡ false → is_free x t ≡ gone page (walk pgdir la s) x s
  pub refs :
      (x : ℕ)
      → is_free x s ≡ false
      → gone page (walk pgdir la s) x s ≡ false
      → ref_of x t ≡ counted page (walk pgdir la s) x s

abbrev pub Inserted : (pgdir page la perm : ℕ) → Mmu → Ret (Unit {0}) × Mmu → Type 0
Inserted pgdir page la perm s (done _, t) = IsInserted pgdir page la perm s t
Inserted pgdir page la perm s (err e, t) =
    (e ≡ e_no_mem)
    × (t ≡ s)
    × (is_present (s.words pgdir (pdx la)) ≡ false)
    × ((x : ℕ) → is_free x s ≡ false)

-- A page in use stays so while `get_pte` makes a table.
IsData-located :
    (pgdir la table index page : ℕ) (s u : Mmu)
    → IsLocated pgdir la table index s u
    → IsData pgdir page s
    → IsData pgdir page u
IsData-located pgdir la table index page s u l d = record {
  inside = ground (arith, l.same_npage, d.inside);
  used = l.fewer page d.used;
  not_reserved = ground (arith, l.same_use page d.used, d.not_reserved);
  not_dir = d.not_dir;
  no_table = λ i h e. elim (l.from i h) [
    | inl (n, w) ↦ d.no_table i n (ap ppn (sym w) ∙ e)
    | inr free ↦ ground (arith, d.used)
  ];
}

IsData-counted :
    (pgdir page other ref : ℕ) (s : Mmu)
    → IsData pgdir page s
    → IsData pgdir page (set_ref other ref s)
IsData-counted pgdir page other ref s d = record {
  inside = d.inside;
  used = is_free-set_ref other ref s page ∙ d.used;
  not_reserved = ground (arith, d.not_reserved);
  not_dir = d.not_dir;
  no_table = d.no_table;
}

forgets : (pgdir la : ℕ) (s : Mmu) → s.cr3 ≡ pgdir → (tlb_invalidate pgdir la s).tlb (ppn la) ≡ none
unfolding tlb_invalidate
forgets pgdir la s e = ground arith

remembers :
    (pgdir la : ℕ) (s : Mmu) (n : ℕ) → n ≢ ppn la → (tlb_invalidate pgdir la s).tlb n ≡ s.tlb n
unfolding tlb_invalidate
remembers pgdir la s n ne = ground arith

gone-counted :
    (page la x pgdir table index : ℕ) (s u : Mmu)
    → IsLocated pgdir la table index s u
    → is_free x s ≡ false
    → (old : ℕ) → gone page old x (page_ref_inc page u) ≡ gone page old x s
gone-counted page la x pgdir table index s u l used old = ground (arith, l.same_use x used)

module _ (pgdir page la perm : ℕ) (s : Mmu) (h : IsMappable pgdir page la perm s) where
  -- From the entry that `get_pte` found.
  insert_at-IsInserted :
      (table index : ℕ) (u : Mmu)
      → IsLocated pgdir la table index s u
      → Returns
          (Inserted pgdir page la perm s)
          (insert_at pgdir page la perm (some (table, index), u))
  unfolding insert_at tlb_invalidate
  insert_at-IsInserted table index u l =
      let w : Mmu = page_ref_inc page u in
      let same : walk pgdir la u ≡ walk pgdir la s = l.same_walk la h.user in
      let here : names pgdir (pdx la) w ≡ true = ground (arith, l.named, h.user) in
      let d : is_present (walk pgdir la w) ≡ true → IsData pgdir (ppn (walk pgdir la w)) w = λ p.
        IsData-counted pgdir (ppn (walk pgdir la w)) page _ u (
          subst (λ e. IsData pgdir (ppn e) u) (sym same)
            (IsData-located pgdir la table index _ s u l
              (h.replaced (ap is_present (sym same) ∙ p)))) in
      let lost : (x : ℕ)
          → is_free x s ≡ false
          → gone page (walk pgdir la w) x w ≡ gone page (walk pgdir la s) x s =
        λ x used.
          ap (λ e. gone page e x w) same
          ∙ gone-counted page la x pgdir table index s u l used (walk pgdir la s) in
      let gain : (x : ℕ) → is_free x s ≡ false → ref_of x w ≡ gained page x s =
        λ x used. ground (arith, l.same_use x used) in
      rw (l.at_table, l.at_index)
        (Returns-bind (IsDisplaced pgdir page la (walk pgdir la w) w) _
          (displace pgdir page la (ppn (w.words pgdir (pdx la))) (ptx la) w) _
          (displace-IsDisplaced pgdir la page w (set_ref-IsTables pgdir page _ u l.sound) here
            h.range (omega (arith, l.count, h.room)) d)
          λ t q.
            let old : walk pgdir la w ≡ walk pgdir la s = same in
            let written : Mmu =
              write (ppn (u.words pgdir (pdx la))) (ptx la) (page2pa page + with_p perm) t in
            let z =
              write-IsRewritten pgdir la (page2pa page + with_p perm) (ppn (u.words pgdir (pdx la)))
                t q.sound (ground (arith, here, q.dir (pdx la))) h.range
                (ap ppn (q.dir (pdx la))) in
            record {
              sound = z.sound;
              entry =
                  z.entry
                  ∙ ap (λ a. a + with_p perm) (page2pa_lem page s.npage h.inside h.tables.small).0;
              others = λ lb k user ne.
                  z.others lb k user ne ∙ (q.others lb k user ne ∙ l.same_walk lb user);
              forgotten = λ e. forgets pgdir la written e;
              remembered =
                  λ n ne. remembers pgdir la written n ne ∙ (q.tlb n ne ∙ ap (λ f. f n) l.same_tlb);
              freed = λ x used.
                  q.freed x
                  ∙ ap₂ (λ a b. a || b)
                      (is_free-set_ref page (((u.memory.pages page).ref + 1) % 2 ^ 32) u x
                        ∙ l.fewer x used)
                      (lost x used);
              refs = λ x used kept.
                  q.refs x (lost x used ∙ kept)
                  ∙ ap₂ (λ e r. if is_present e && (x == ppn e) then dec_ref r else r) old
                      (gain x used);
            })

-- On sound tables, page_insert of a page in use with flags below 2 ^ 12, at a 32-bit address
-- outside the range of VPT whose old page, if any, is in use and no table, while the count of free
-- pages can grow, returns. Either there is no table for the address and no page free for one: it
-- answers -E_NO_MEM and nothing has changed. Or the address is mapped to the page with the rights
-- given, no address of another page has changed, the processor has forgotten the old entry and no
-- other, the page has one reference more and the old one has one less, or is free if that was its
-- last, and the tables are sound.
pub page_insert-Inserted :
    (pgdir page la perm : ℕ) (s : Mmu)
    → IsMappable pgdir page la perm s
    → Returns (Inserted pgdir page la perm s) (page_insert pgdir page la perm s)
unfolding page_insert insert_at
page_insert-Inserted pgdir page la perm s h =
    Returns-bind (Located pgdir la true s) _ (get_pte pgdir la true s) _
      (get_pte-Located pgdir la true s h.tables h.user) λ found l. from_entry found l
  where
    from_entry :
        (found : Option (ℕ × ℕ) × Mmu)
        → Located pgdir la true s found
        → Returns (Inserted pgdir page la perm s) (insert_at pgdir page la perm found)
    from_entry (none, u) l = (refl, l.0, l.1, l.2 refl)
    from_entry (some (table, index), u) l =
        insert_at-IsInserted pgdir page la perm s h table index u l
