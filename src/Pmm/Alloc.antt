-- ===== src/Pmm/Alloc.antt =====
-- `default_alloc_pages`: what the first fit takes and what it leaves.
use lcore.Base.{
  ℕ, ◌+◌, ◌-◌, ◌≤◌, ◌<◌, ◌≡◌, refl, true, false, not, ◌&&◌, Option, none, some, List, [], ◌∷◌,
  Returns, arith, ltb, leb, ◌==◌, if◌then◌else◌, remove, update, Bool-cases, inl, inr, AllOf, mem,
  mem-remove_ne, ◌||◌, Option-cases,
}
use lcore.Pmm.Defs.{Page, Memory, find_fit, add_after, split, take_block, default_alloc_pages}
use lcore.Pmm.Blocks.{
  within, covers, total, AreBlocks, IsFreeArea, AreBlocks-lower, covers_below, AreBlocks-agree,
  covers-agree, total-agree,
}
use lcore.Pmm.Fit.{
  find_fit-none, total_small, find_fit-mem, IsFirstFit, find_fit-IsFirstFit, find_fit-covers,
}

-- The pages and the list after `n` pages of the block at `p` are taken.
abbrev left_pages : (p n : ℕ) → (ℕ → Page) → ℕ → Page
left_pages p n pages =
    let rest =
      if ltb n (pages p).property
      then update pages (p + n)
          (record (pages (p + n)) { property = (pages p).property - n; head = true })
      else pages in
    update rest p (record (rest p) { head = false })

abbrev left_list : (p n : ℕ) → (ℕ → Page) → List ℕ → List ℕ
left_list p n pages l = remove p (if ltb n (pages p).property then add_after p (p + n) l else l)

module _ (pages : ℕ → Page) (n p : ℕ) (some_pages : 0 < n) where
  find_fit-lower :
      (lo : ℕ) (l : List ℕ)
      → AreBlocks pages lo l
      → find_fit pages n l ≡ some p
      → (lo ≤ p) × (n ≤ (pages p).property)
  unfolding find_fit
  find_fit-lower lo [] b e = cc
  find_fit-lower lo (a ∷ l) b e = ground (arith, find_fit-lower (a + (pages a).property + 1) l b.3)

  left-AreBlocks :
      (lo : ℕ) (l : List ℕ)
      → AreBlocks pages lo l
      → find_fit pages n l ≡ some p
      → AreBlocks (left_pages p n pages) lo (left_list p n pages l)
  unfolding find_fit add_after
  left-AreBlocks lo [] b e = cc
  left-AreBlocks lo (a ∷ l) b e =
      let past = a + (pages a).property + 1 in
      elim (Bool-cases (leb n (pages a).property)) [
        | inl fits ↦
            let same : a ≡ p = ground arith in
            let rest =
              AreBlocks-agree pages (left_pages p n pages) past l (λ c h. ground arith) b.3 in
            elim (Bool-cases (ltb n (pages p).property)) [
              | inl more ↦
                  let shorter : left_list p n pages (a ∷ l) ≡ (p + n) ∷ l = ground arith in
                  rw shorter (
                    ground arith,
                    ground arith,
                    ground arith,
                    AreBlocks-lower (left_pages p n pages) past _ l rest (ground arith),
                  )
              | inr all ↦
                  let shorter : left_list p n pages (a ∷ l) ≡ l = ground arith in
                  rw shorter
                    (AreBlocks-lower (left_pages p n pages) past lo l rest (omega (arith, b.0)))
            ]
        | inr small ↦ ground (arith, find_fit-lower past l b.3, left-AreBlocks past l b.3)
      ]

  covers-left :
      (lo : ℕ) (l : List ℕ) (x : ℕ)
      → AreBlocks pages lo l
      → find_fit pages n l ≡ some p
      → covers (left_pages p n pages) (left_list p n pages l) x
        ≡ (covers pages l x && not (within p n x))
  unfolding find_fit add_after
  covers-left lo [] x b e = cc
  covers-left lo (a ∷ l) x b e =
      let past = a + (pages a).property + 1 in
      elim (Bool-cases (leb n (pages a).property)) [
        | inl fits ↦ ground (
          arith,
          covers-agree pages (left_pages p n pages) past l x (λ c h. ground arith) b.3,
          covers_below pages past l x b.3,
        )
        | inr small ↦ ground (arith, find_fit-lower past l b.3, covers-left past l x b.3)
      ]

  total-left :
      (lo : ℕ) (l : List ℕ)
      → AreBlocks pages lo l
      → find_fit pages n l ≡ some p
      → total (left_pages p n pages) (left_list p n pages l) + n ≡ total pages l
  unfolding find_fit add_after
  total-left lo [] b e = cc
  total-left lo (a ∷ l) b e =
      let past = a + (pages a).property + 1 in
      elim (Bool-cases (leb n (pages a).property)) [
        | inl fits ↦
            ground
              (arith, total-agree pages (left_pages p n pages) past l (λ c h. ground arith) b.3)
        | inr small ↦ ground (arith, find_fit-lower past l b.3, total-left past l b.3)
      ]

mem-add_after :
    (x p q : ℕ) (l : List ℕ) → mem p l ≡ true → mem x (add_after p q l) ≡ ((x == q) || mem x l)
unfolding add_after
mem-add_after x p q [] h = cc
mem-add_after x p q (a ∷ l) h = ground (arith, mem-add_after x p q l)

module _ (n : ℕ) (s : Memory) where
  -- What `default_alloc_pages` answers, and the state that it leaves.
  abbrev pub Allocated : Option ℕ × Memory → Type 0
  Allocated (none, t) = (t ≡ s) × AllOf (λ p. (s.pages p).property < n) s.free_list
  Allocated (some p, t) =
      IsFreeArea t
      × IsFirstFit s.pages n p s.free_list
      × (t.nr_free + n ≡ s.nr_free)
      × ((x : ℕ) → within p n x ≡ true → covers s.pages s.free_list x ≡ true)
      × ((x : ℕ)
          → covers t.pages t.free_list x ≡ (covers s.pages s.free_list x && not (within p n x)))

  abbrev taken : ℕ → Memory
  taken p = record {
    pages = left_pages p n s.pages;
    free_list = left_list p n s.pages s.free_list;
    nr_free = s.nr_free - n;
  }

  take_block-taken : (p : ℕ) → take_block p n s ≡ taken p
  unfolding take_block split
  take_block-taken p = elim (Bool-cases (ltb n (s.pages p).property)) [
    | inl more ↦ rw more refl
    | inr all ↦ rw all refl
  ]

  module _ (v : IsFreeArea s) (some_pages : 0 < n) (p : ℕ)
      (e : find_fit s.pages n s.free_list ≡ some p) where
    taken-heads : (x : ℕ) → ((taken p).pages x).head ≡ true → mem x (taken p).free_list ≡ true
    taken-heads x h = ground (
      arith,
      v.heads x,
      mem-remove_ne x p s.free_list,
      mem-remove_ne x p (add_after p (p + n) s.free_list),
      mem-add_after x p (p + n) s.free_list (find_fit-mem s.pages n p s.free_list e),
    )

    taken-IsFreeArea : IsFreeArea (taken p)
    taken-IsFreeArea = record {
      blocks = left-AreBlocks s.pages n p some_pages 0 s.free_list v.blocks e;
      counted =
          omega (arith, v.counted, total-left s.pages n p some_pages 0 s.free_list v.blocks e);
      heads = taken-heads;
    }

    take_found-Allocated : Allocated (some p, taken p)
    take_found-Allocated = (
      taken-IsFreeArea,
      find_fit-IsFirstFit s.pages n p s.free_list e,
      omega (arith, v.counted, total-left s.pages n p some_pages 0 s.free_list v.blocks e),
      (λ x. find_fit-covers s.pages n p x s.free_list e),
      λ x. covers-left s.pages n p some_pages 0 s.free_list x v.blocks e,
    )

  -- default_alloc_pages of n pages, n positive, on a sound free area returns: either NULL, with
  -- nothing changed, and then every block is too small; or the first block of at least n pages,
  -- whose first n pages were free and are now the only ones that no longer are, the count has
  -- fallen by n, and the area is sound still.
  pub default_alloc_pages-Allocated :
      IsFreeArea s → 0 < n → Returns Allocated (default_alloc_pages n s)
  unfolding default_alloc_pages
  default_alloc_pages-Allocated v some_pages =
      let asks : ltb 0 n ≡ true = ground arith in
      elim (Bool-cases (ltb s.nr_free n)) [
        | inl short ↦
            rw (asks, short) (refl, total_small s.pages n s.free_list (ground (arith, v.counted)))
        | inr enough ↦ elim (Option-cases (find_fit s.pages n s.free_list)) [
          | inl e ↦ rw (asks, enough, e) (refl, find_fit-none s.pages n s.free_list e)
          | inr (p, e) ↦
              rw (asks, enough, e, take_block-taken p) (take_found-Allocated v some_pages p e)
        ]
      ]
