-- ===== src/Pmm/Free.antt =====
-- `default_free_pages`: the pages join the free ones, and the list stays merged.
use lcore.Base.{
  ℕ, zero, suc, ◌+◌, ◌%◌, ◌^◌, ◌<◌, ◌≡◌, refl, ◌∙◌, true, false, ◌||◌, ok, Returns, Returns-bind,
  Returns-mono, Outcome, ◌>>=◌, arith, ltb, mem,
}
use lcore.Pmm.Defs.{Memory, set_page, reset_pages, place, default_free_pages}
use lcore.Pmm.Blocks.{within, covers, total, IsFreeArea}
use lcore.Pmm.Members.{
  member_covered, member_size, AreBlocks-Distinct, AreBlocks-same, covers-same, total-same,
}
use lcore.Pmm.Place.{touches, IsPlaced, place-IsPlaced}
use lcore.Pmm.Join.{union, sum, IsMerging, IsLater}
use lcore.Pmm.Merge.{merge-Merged}

-- The `n` pages from `p` on are clean, and nothing else has changed.
record IsReset (n p : ℕ) (s t : Memory) : Type 0 where
  same_list : t.free_list ≡ s.free_list
  same_count : t.nr_free ≡ s.nr_free
  others : (x : ℕ) → within p n x ≡ false → t.pages x ≡ s.pages x
  clean : (x : ℕ) → within p n x ≡ true → (t.pages x).head ≡ false

reset_pages-IsReset :
    (n p : ℕ) (s : Memory)
    → ((x : ℕ) → within p n x ≡ true → (s.pages x).reserved ≡ false)
    → ((x : ℕ) → within p n x ≡ true → (s.pages x).head ≡ false)
    → Returns (IsReset n p s) (reset_pages n p s)
unfolding reset_pages
reset_pages-IsReset zero p s r h = record {
  same_list = refl;
  same_count = refl;
  others = λ x w. refl;
  clean = λ x w. ground arith;
}
reset_pages-IsReset (suc n) p s r h =
    let s' = set_page p (record (s.pages p) { ref = 0; reserved = false; head = false }) s in
    rw (r p (ground arith), h p (ground arith))
      (Returns-mono (IsReset n (p + 1) s') (IsReset (suc n) p s) (reset_pages n (p + 1) s')
        (reset_pages-IsReset n (p + 1) s' (λ x w. ground (arith, r x)) (λ x w. ground (arith, h x)))
        λ t v. record {
          same_list = v.same_list;
          same_count = v.same_count;
          others = λ x w. ground (arith, v.others x);
          clean = λ x w. ground (arith, v.others x, v.clean x);
        })

module _ (base n : ℕ) (s : Memory) where
  -- What `default_free_pages` leaves.
  pub record IsFreed (t : Memory) : Type 0 where
    pub area : IsFreeArea t
    pub covered :
        (x : ℕ) → covers t.pages t.free_list x ≡ (covers s.pages s.free_list x || within base n x)
    pub count : t.nr_free ≡ s.nr_free + n

  -- The pages are in use: none is free, and none is the kernel's.
  pub record IsInUse : Type 0 where
    pub some_pages : 0 < n
    pub not_free : (x : ℕ) → within base n x ≡ true → covers s.pages s.free_list x ≡ false
    pub not_reserved : (x : ℕ) → within base n x ≡ true → (s.pages x).reserved ≡ false
    pub fits : s.nr_free + n < 2 ^ 32

  module _ (v : IsFreeArea s) (u : IsInUse) where
    member_outside : (q : ℕ) → mem q s.free_list ≡ true → within base n q ≡ false
    member_outside q h = ground (
      arith,
      u.not_free q,
      member_covered s.pages 0 q q s.free_list v.blocks h,
      member_size s.pages 0 q s.free_list v.blocks h,
    )

    no_heads : (x : ℕ) → within base n x ≡ true → (s.pages x).head ≡ false
    no_heads x w = ground (arith, v.heads x, member_outside x)

    -- The state before the merging loop.
    abbrev opened : Memory → Memory
    opened t = set_page base (record (t.pages base) { property = n; head = true }) t

    module _ (t : Memory) (r : IsReset n base s t) where
      same_pages : (q : ℕ) → mem q s.free_list ≡ true → (opened t).pages q ≡ s.pages q
      same_pages q h = ground (arith, u.some_pages, r.others q, member_outside q h)

      opened-covers : (x : ℕ) → covers (opened t).pages s.free_list x ≡ covers s.pages s.free_list x
      opened-covers x = covers-same s.pages (opened t).pages s.free_list x same_pages

      opened-total : total (opened t).pages s.free_list ≡ total s.pages s.free_list
      opened-total = total-same s.pages (opened t).pages s.free_list same_pages

      opened-IsMerging : IsMerging base (opened t)
      opened-IsMerging = rw r.same_list (record {
        blocks = AreBlocks-same s.pages (opened t).pages 0 s.free_list same_pages v.blocks;
        size = ground (arith, u.some_pages);
        head = ground arith;
        outside = λ x w. ground (arith, opened-covers x, u.not_free x);
        heads = λ x h. ground (arith, r.others x, r.clean x, v.heads x);
        bounded = ground (arith, opened-total, v.counted, u.fits);
      })

      opened-sum : sum base (opened t) ≡ s.nr_free + n
      opened-sum = rw r.same_list (ground (arith, opened-total, v.counted))

      opened-union :
          (x : ℕ) → union base (opened t) x ≡ (covers s.pages s.free_list x || within base n x)
      opened-union x = rw r.same_list (ground (arith, opened-covers x))

      -- The rest of `default_free_pages`.
      abbrev finish : ℕ × Memory → Outcome Memory
      finish (b, m) = place m.pages b m.free_list >>= λ l.
          ok (record m { nr_free = (m.nr_free + n) % 2 ^ 32; free_list = l })

      finish-IsFreed :
          (b : ℕ) (m : Memory)
          → IsLater base (opened t) b m
          → ((q : ℕ) → mem q m.free_list ≡ true → touches m.pages q b ≡ false)
          → Returns IsFreed (finish (b, m))
      finish-IsFreed b m later alone =
          let w = later.merging in
          Returns-bind (IsPlaced m.pages b 0 m.free_list) IsFreed (place m.pages b m.free_list) _
            (place-IsPlaced m.pages b w.size w.head 0 m.free_list w.blocks (omega arith) w.outside
              alone)
            λ l q.
              let count : (m.nr_free + n) % 2 ^ 32 ≡ s.nr_free + n =
                ground (arith, later.same_count, r.same_count, u.fits) in
              record {
                area = record {
                  blocks = q.blocks;
                  counted = omega (arith, count, q.sum, later.same_sum, opened-sum);
                  heads = λ x h. ground (arith, q.members x, w.heads x h);
                };
                covered = λ x. q.covered x ∙ (later.same_union x ∙ opened-union x);
                count = count;
              }

    -- default_free_pages of n pages that are in use, on a sound free area, returns: exactly those
    -- pages have joined the free ones, the count has grown by n, and the area is sound still, so
    -- that its blocks stand in order of address and no two touch.
    pub default_free_pages-IsFreed : Returns IsFreed (default_free_pages base n s)
    unfolding default_free_pages
    default_free_pages-IsFreed =
        let asks : ltb 0 n ≡ true = ground (arith, u.some_pages) in
        rw asks (
          Returns-bind (IsReset n base s) IsFreed (reset_pages n base s) _
            (reset_pages-IsReset n base s u.not_reserved no_heads)
            λ t r.
              let o = opened-IsMerging t r in
              let (later, alone) =
                merge-Merged t.free_list base (opened t) o (λ q h. h)
                  (AreBlocks-Distinct (opened t).pages 0 t.free_list o.blocks)
                  (λ q h out. ground (arith, h, out)) in
              finish-IsFreed t r _ _ later alone)
