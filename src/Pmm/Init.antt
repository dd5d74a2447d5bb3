-- ===== src/Pmm/Init.antt =====
-- `default_init_memmap`: a zone of the kernel's pages becomes free.
use lcore.Base.{
  ℕ, zero, suc, ◌+◌, ◌%◌, ◌^◌, ◌≤◌, ◌<◌, ◌≡◌, refl, true, false, ◌||◌, List, [], ◌∷◌, ◌++◌, Returns,
  Returns-bind, Returns-mono, arith, ltb, mem, mem-append,
}
use lcore.Pmm.Defs.{Page, Memory, set_page, clear_pages, default_init_memmap}
use lcore.Pmm.Blocks.{within, covers, total, AreBlocks, IsFreeArea}
use lcore.Pmm.Members.{AreBlocks-same, covers-same, total-same}

record IsCleared (n p : ℕ) (s t : Memory) : Type 0 where
  same_list : t.free_list ≡ s.free_list
  same_count : t.nr_free ≡ s.nr_free
  others : (x : ℕ) → within p n x ≡ false → t.pages x ≡ s.pages x
  clean : (x : ℕ) → within p n x ≡ true → (t.pages x).head ≡ false

clear_pages-IsCleared :
    (n p : ℕ) (s : Memory)
    → ((x : ℕ) → within p n x ≡ true → (s.pages x).reserved ≡ true)
    → Returns (IsCleared n p s) (clear_pages n p s)
unfolding clear_pages
clear_pages-IsCleared zero p s r = record {
  same_list = refl;
  same_count = refl;
  others = λ x w. refl;
  clean = λ x w. ground arith;
}
clear_pages-IsCleared (suc n) p s r =
    let s' = set_page p (record { ref = 0; reserved = false; head = false; property = 0 }) s in
    rw (r p (ground arith)) (
      Returns-mono (IsCleared n (p + 1) s') (IsCleared (suc n) p s) (clear_pages n (p + 1) s')
        (clear_pages-IsCleared n (p + 1) s' λ x w. ground (arith, r x))
        λ t v. record {
          same_list = v.same_list;
          same_count = v.same_count;
          others = λ x w. ground (arith, v.others x);
          clean = λ x w. ground (arith, v.others x, v.clean x);
        })

module _ (pages : ℕ → Page) where
  -- The end of the last block.
  abbrev pub end : ℕ → List ℕ → ℕ
  end lo [] = lo
  end lo (p ∷ l) = end (p + (pages p).property + 1) l

  end_lower : (lo : ℕ) (l : List ℕ) → AreBlocks pages lo l → lo ≤ end lo l
  end_lower lo [] b = omega arith
  end_lower lo (p ∷ l) b = omega (arith, b.0, end_lower (p + (pages p).property + 1) l b.3)

  member_below : (lo q : ℕ) (l : List ℕ) → AreBlocks pages lo l → mem q l ≡ true → q < end lo l
  member_below lo q [] b h = cc
  member_below lo q (p ∷ l) b h =
      let past = p + (pages p).property + 1 in
      ground (arith, end_lower past l b.3, member_below past q l b.3)

  AreBlocks-snoc :
      (lo a : ℕ) (l : List ℕ)
      → AreBlocks pages lo l
      → end lo l ≤ a
      → 0 < (pages a).property
      → (pages a).head ≡ true
      → AreBlocks pages lo (l ++ a ∷ [])
  AreBlocks-snoc lo a [] b h size head = (h, size, head, tt)
  AreBlocks-snoc lo a (p ∷ l) b h size head =
      (b.0, b.1, b.2, AreBlocks-snoc (p + (pages p).property + 1) a l b.3 h size head)

  covers-snoc :
      (a x : ℕ) (l : List ℕ)
      → covers pages (l ++ a ∷ []) x ≡ (covers pages l x || within a (pages a).property x)
  covers-snoc a x [] = ground arith
  covers-snoc a x (p ∷ l) = ground (arith, covers-snoc a x l)

  total-snoc : (a : ℕ) (l : List ℕ) → total pages (l ++ a ∷ []) ≡ total pages l + (pages a).property
  total-snoc a [] = omega arith
  total-snoc a (p ∷ l) = omega (arith, total-snoc a l)

end-same :
    (pages pages' : ℕ → Page) (lo : ℕ) (l : List ℕ)
    → ((a : ℕ) → mem a l ≡ true → pages' a ≡ pages a)
    → end pages' lo l ≡ end pages lo l
end-same pages pages' lo [] same = refl
end-same pages pages' lo (p ∷ l) same =
    rw (same p (ground arith))
      (end-same pages pages' (p + (pages p).property + 1) l λ a h. same a (ground arith))

module _ (base n : ℕ) (s : Memory) where
  pub record IsAdded (t : Memory) : Type 0 where
    pub area : IsFreeArea t
    pub covered :
        (x : ℕ) → covers t.pages t.free_list x ≡ (covers s.pages s.free_list x || within base n x)
    pub count : t.nr_free ≡ s.nr_free + n

  -- The zone lies behind the free pages and is the kernel's.
  pub record IsZone : Type 0 where
    pub some_pages : 0 < n
    pub behind : end s.pages 0 s.free_list ≤ base
    pub all_reserved : (x : ℕ) → within base n x ≡ true → (s.pages x).reserved ≡ true
    pub fits : s.nr_free + n < 2 ^ 32

  module _ (v : IsFreeArea s) (z : IsZone) (t : Memory) (r : IsCleared n base s t) where
    abbrev added : ℕ → Page
    added = (set_page base (record (t.pages base) { property = n; head = true }) t).pages

    same_pages : (q : ℕ) → mem q s.free_list ≡ true → added q ≡ s.pages q
    same_pages q h =
        ground (arith, r.others q, z.behind, member_below s.pages 0 q s.free_list v.blocks h)

    added-heads : (x : ℕ) → (added x).head ≡ true → mem x (s.free_list ++ base ∷ []) ≡ true
    added-heads x h =
        ground (arith, mem-append x s.free_list (base ∷ []), r.others x, r.clean x, v.heads x)

    count : (t.nr_free + n) % 2 ^ 32 ≡ s.nr_free + n
    count = ground (arith, r.same_count, z.fits)

    added-IsAdded : IsAdded (record {
      pages = added;
      free_list = t.free_list ++ base ∷ [];
      nr_free = (t.nr_free + n) % 2 ^ 32;
    })
    added-IsAdded = rw r.same_list (record {
      area = record {
        blocks =
            AreBlocks-snoc added 0 base s.free_list
              (AreBlocks-same s.pages added 0 s.free_list same_pages v.blocks)
              (omega (arith, end-same s.pages added 0 s.free_list same_pages, z.behind))
              (ground (arith, z.some_pages)) (ground arith);
        counted = ground (
          arith,
          count,
          v.counted,
          total-snoc added base s.free_list,
          total-same s.pages added s.free_list same_pages,
        );
        heads = added-heads;
      };
      covered = λ x. ground (
        arith,
        covers-snoc added base x s.free_list,
        covers-same s.pages added s.free_list x same_pages,
      );
      count = count;
    })

  -- default_init_memmap of a zone of n reserved pages behind the free ones, on a sound free area,
  -- returns: exactly the pages of the zone have joined the free ones, the count has grown by n,
  -- and the area is sound still.
  pub default_init_memmap-IsAdded :
      IsFreeArea s → IsZone → Returns IsAdded (default_init_memmap base n s)
  unfolding default_init_memmap
  default_init_memmap-IsAdded v z =
      let asks : ltb 0 n ≡ true = ground (arith, z.some_pages) in
      rw asks (
        Returns-bind (IsCleared n base s) IsAdded (clear_pages n base s) _
          (clear_pages-IsCleared n base s z.all_reserved) λ t r. added-IsAdded v z t r)
