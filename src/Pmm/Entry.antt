-- ===== src/Pmm/Entry.antt =====
-- `get_pte`: where it finds an entry, and what a new table changes.
use lcore.Base.{
  ℕ, ◌+◌, ◌*◌, ◌^◌, ◌≤◌, ◌<◌, ◌≡◌, ◌≢◌, refl, sym, ap, subst, ◌⊎◌, Bool, true, false, Option, none,
  some, List, [], ◌∷◌, AllOf, Returns, Returns-bind, arith, ltb, Bool-cases, inl, inr,
}
use lcore.Pmm.Defs.{Page, Memory, default_alloc_pages}
use lcore.Pmm.Blocks.{covers, AreBlocks, IsFreeArea}
use lcore.Pmm.Kept.{SameUse, Returns-WhenOk, default_alloc_pages-SameUse}
use lcore.Pmm.Alloc.{Allocated, default_alloc_pages-Allocated}
use lcore.Pmm.Paging.{
  Mmu, pdx, ptx, ppn, is_present, page2pa, write, clear_frame, set_ref, alloc_page, entry_in,
  new_table, get_pte,
}
use lcore.Pmm.Walk.{
  walk, vpt, is_free, names, IsTables, IsLocated, Located, is_free-set_ref, set_ref-IsFreeArea,
}

pub page2pa_lem :
    (page n : ℕ)
    → page < n
    → n ≤ 2 ^ 20
    → (page2pa page ≡ page * 2 ^ 12) × (ppn (page2pa page) ≡ page)
page2pa_lem page n h k = (omega (arith, h, k), omega (arith, h, k))

pub no_free :
    (pages : ℕ → Page) (lo : ℕ) (l : List ℕ) (x : ℕ)
    → AreBlocks pages lo l
    → AllOf (λ p. (pages p).property < 1) l
    → covers pages l x ≡ false
no_free pages lo [] x b h = refl
no_free pages lo (p ∷ l) x b h = absurd (omega (arith, b.1, h.0))

entry_in-IsLocated :
    (pgdir la : ℕ) (create : Bool) (s : Mmu)
    → IsTables pgdir s
    → (pdx la ≡ vpt → ⊥)
    → is_present (s.words pgdir (pdx la)) ≡ true
    → Returns (Located pgdir la create s) (entry_in (s.words pgdir (pdx la)) la s)
unfolding entry_in
entry_in-IsLocated pgdir la create s v user p =
    let inside : ltb (ppn (s.words pgdir (pdx la))) s.npage ≡ true =
      ground (arith, (v.tables (pdx la) (ground (arith, p, user))).0) in
    rw inside (record {
      sound = v;
      named = p;
      at_table = refl;
      at_index = refl;
      same_walk = λ lb u. refl;
      same_tlb = refl;
      same_cr3 = refl;
      same_npage = refl;
      fewer = λ x h. h;
      count = omega arith;
      same_use = λ x h. (refl, refl);
      same_reserved = λ x. refl;
      from = λ i h. inl (h, refl);
    })

module _ (pgdir la frame : ℕ) (s : Mmu) (m : Memory) (v : IsTables pgdir s)
    (user : pdx la ≡ vpt → ⊥) (absent : is_present (s.words pgdir (pdx la)) ≡ false)
    (a : Allocated 1 s.memory (some frame, m))
    (k : (x : ℕ) → SameUse (s.memory.pages x) (m.pages x)) where
  abbrev grown : Mmu
  grown =
      write pgdir (pdx la) (frame * 2 ^ 12 + 7)
        (clear_frame frame (set_ref frame 1 (record s { memory = m })))

  was_free : is_free frame s ≡ true
  was_free = a.3 frame (ground arith)

  in_memory : frame < s.npage
  in_memory = v.managed frame was_free

  grown-is_free : (x : ℕ) → is_free x grown ≡ covers m.pages m.free_list x
  grown-is_free x = is_free-set_ref frame 1 (record s { memory = m }) x

  word_lem : (ppn (frame * 2 ^ 12 + 7) ≡ frame) × (is_present (frame * 2 ^ 12 + 7) ≡ true)
  word_lem = (omega arith, ground arith)

  grown-walk : (lb : ℕ) → (pdx lb ≡ vpt → ⊥) → walk pgdir lb grown ≡ walk pgdir lb s
  grown-walk lb u = ground (arith, word_lem, v.dir_used, was_free, v.tables (pdx lb), absent)

  grown-names :
      (i : ℕ)
      → names pgdir i grown ≡ true
      → (ppn (grown.words pgdir i) ≡ frame)
        ⊎ ((names pgdir i s ≡ true) × (grown.words pgdir i ≡ s.words pgdir i) × (i ≢ pdx la))
  grown-names i h = ground (arith, word_lem, v.dir_used, was_free)

  grown-IsTables : IsTables pgdir grown
  grown-IsTables = record {
    area = set_ref-IsFreeArea frame 1 (record s { memory = m }) a.0;
    small = v.small;
    managed = λ x h. v.managed x (ground (arith, grown-is_free x, a.4 x));
    dir_used = ground (arith, grown-is_free pgdir, a.4 pgdir, v.dir_used);
    tables = λ i h. ground (
      arith,
      word_lem,
      grown-is_free frame,
      grown-is_free (ppn (s.words pgdir i)),
      a.4 frame,
      a.4 (ppn (s.words pgdir i)),
      v.tables i,
      v.dir_used,
      was_free,
      in_memory,
    );
    distinct = λ i j h k e.
        ground (arith, word_lem, was_free, v.tables i, v.tables j, v.distinct i j, v.dir_used);
  }

  grown-IsLocated : IsLocated pgdir la frame (ptx la) s grown
  grown-IsLocated = record {
    sound = grown-IsTables;
    named = ground (arith, word_lem, was_free, v.dir_used);
    at_table = ground (arith, word_lem, was_free, v.dir_used);
    at_index = refl;
    same_walk = grown-walk;
    same_tlb = refl;
    same_cr3 = refl;
    same_npage = refl;
    fewer = λ x h. ground (arith, grown-is_free x, a.4 x);
    count = omega (arith, a.2);
    same_use = λ x h. ground (arith, was_free, k x);
    same_reserved = λ x. ground (arith, k x);
    from = λ i h. ground (arith, grown-names i h, was_free);
  }

pub alloc_lem :
    (s : Mmu)
    → IsFreeArea s.memory
    → Returns
        (λ answer.
          Allocated 1 s.memory (answer.0, answer.1.memory)
          × ((x : ℕ) → SameUse (s.memory.pages x) (answer.1.memory.pages x))
          × (answer.1 ≡ record s { memory = answer.1.memory }))
        (alloc_page s)
unfolding alloc_page
alloc_lem s v =
    Returns-bind _ _ (default_alloc_pages 1 s.memory) _
      (Returns-WhenOk (Allocated 1 s.memory) _ (default_alloc_pages 1 s.memory)
        (default_alloc_pages-Allocated 1 s.memory v (omega arith))
        (default_alloc_pages-SameUse 1 s.memory))
      λ answer (a, k). (a, k, refl)

new_table-Located :
    (pgdir la : ℕ) (s : Mmu)
    → IsTables pgdir s
    → (pdx la ≡ vpt → ⊥)
    → is_present (s.words pgdir (pdx la)) ≡ false
    → (answer : Option ℕ) (m : Memory) → Allocated 1 s.memory (answer, m)
    → ((x : ℕ) → SameUse (s.memory.pages x) (m.pages x))
    → Returns (Located pgdir la true s) (new_table pgdir la (answer, record s { memory = m }))
unfolding new_table entry_in
new_table-Located pgdir la s v user absent none m a k = (
  ap (λ n. record s { memory = n }) a.0,
  absent,
  λ t x. no_free s.memory.pages 0 s.memory.free_list x v.area.blocks a.1,
)
new_table-Located pgdir la s v user absent (some frame) m a k =
    let inside : frame < s.npage = in_memory pgdir la frame s m v user absent a k in
    let pa = page2pa_lem frame s.npage inside v.small in
    let w = word_lem pgdir la frame s m v user absent a k in
    let ok_frame : ltb frame s.npage ≡ true = ground arith in
    rw (pa.1, pa.0, w.0, ok_frame) (grown-IsLocated pgdir la frame s m v user absent a k)

pub get_pte-Located :
    (pgdir la : ℕ) (create : Bool) (s : Mmu)
    → IsTables pgdir s
    → (pdx la ≡ vpt → ⊥)
    → Returns (Located pgdir la create s) (get_pte pgdir la create s)
unfolding get_pte
get_pte-Located pgdir la false s v user = elim (Bool-cases (is_present (s.words pgdir (pdx la)))) [
  | inl p ↦ rw p (entry_in-IsLocated pgdir la false s v user p)
  | inr absent ↦ rw absent (refl, absent, λ t. cc)
]
get_pte-Located pgdir la true s v user = elim (Bool-cases (is_present (s.words pgdir (pdx la)))) [
  | inl p ↦ rw p (entry_in-IsLocated pgdir la true s v user p)
  | inr absent ↦ rw absent (
      Returns-bind _ (Located pgdir la true s) (alloc_page s) (new_table pgdir la)
        (alloc_lem s v.area)
        λ (q, t) (a, k, e).
          subst (λ u. Returns (Located pgdir la true s) (new_table pgdir la (q, u))) (sym e)
            (new_table-Located pgdir la s v user absent q t.memory a k))
]
