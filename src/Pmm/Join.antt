-- ===== src/Pmm/Join.antt =====
-- The freed block beside a free list, and the block that it makes with one that it touches.
use lcore.Base.{
  ℕ, ◌+◌, ◌^◌, ◌<◌, ◌≡◌, ◌≢◌, refl, Bool, true, false, not, ◌&&◌, ◌||◌, arith, ◌==◌, mem, remove,
  Bool-cases, inl, inr, mem-remove_self, mem-remove_ne, mem-remove, ◌⊎◌, ◌∙◌, ℕ_discrete,
}
use lcore.Pmm.Defs.{Page, Memory}
use lcore.Pmm.Blocks.{within, covers, total, AreBlocks}
use lcore.Pmm.Members.{
  member_covered, apart, AreBlocks-Distinct, AreBlocks-remove, covers-remove, total-remove,
  AreBlocks-same, covers-same, total-same,
}
use lcore.Pmm.Place.{touches}

-- The pages of the list and of the block at `base`.
abbrev pub union : ℕ → Memory → ℕ → Bool
union base s x = covers s.pages s.free_list x || within base (s.pages base).property x

abbrev pub sum : ℕ → Memory → ℕ
sum base s = total s.pages s.free_list + (s.pages base).property

-- A free list with the block at `base` beside it.
pub record IsMerging (base : ℕ) (s : Memory) : Type 0 where
  pub blocks : AreBlocks s.pages 0 s.free_list
  pub size : 0 < (s.pages base).property
  pub head : (s.pages base).head ≡ true
  pub outside :
      (x : ℕ) → within base (s.pages base).property x ≡ true → covers s.pages s.free_list x ≡ false
  pub heads : (x : ℕ) → (s.pages x).head ≡ true → ((x == base) || mem x s.free_list) ≡ true
  pub bounded : sum base s < 2 ^ 32

-- What holds from one state of the loop to a later one.
pub record IsLater (base : ℕ) (s : Memory) (base' : ℕ) (t : Memory) : Type 0 where
  pub merging : IsMerging base' t
  pub same_union : (x : ℕ) → union base' t x ≡ union base s x
  pub same_sum : sum base' t ≡ sum base s
  pub same_count : t.nr_free ≡ s.nr_free
  pub shrinks : (q : ℕ) → mem q t.free_list ≡ true → mem q s.free_list ≡ true
  pub keeps_apart :
      (q : ℕ)
      → mem q t.free_list ≡ true
      → touches s.pages q base ≡ false
      → touches t.pages q base' ≡ false

module _ (p base : ℕ) (s : Memory) (v : IsMerging base s) (m : mem p s.free_list ≡ true) where
  pub base_absent : mem base s.free_list ≡ false
  base_absent = elim (Bool-cases (mem base s.free_list)) [
    | inr out ↦ out
    | inl here ↦ ground (
      arith,
      v.size,
      v.outside base,
      member_covered s.pages 0 base base s.free_list v.blocks here,
    )
  ]

  -- The block at `p` joined with the one at `base`, as the block at `b`; `c` is the other of the two.
  module _ (pages : ℕ → Page) (b c : ℕ) (others : (a : ℕ) → a ≢ p → a ≢ base → pages a ≡ s.pages a)
      (head : (pages b).head ≡ true) (no_head : (pages c).head ≡ false)
      (size : (pages b).property ≡ (s.pages p).property + (s.pages base).property)
      (place : ((b ≡ base) × (c ≡ p) × (base + (s.pages base).property ≡ p))
        ⊎ ((b ≡ p) × (c ≡ base) × (p + (s.pages p).property ≡ base))) where
    abbrev pub joined : Memory
    joined = record s { pages = pages; free_list = remove p s.free_list }

    gone : mem p (remove p s.free_list) ≡ false
    gone = mem-remove_self p s.free_list (AreBlocks-Distinct s.pages 0 s.free_list v.blocks)

    stays : (q : ℕ) → mem q (remove p s.free_list) ≡ true → mem q s.free_list ≡ true
    stays q h = ground (arith, mem-remove q p s.free_list)

    same_pages : (q : ℕ) → mem q (remove p s.free_list) ≡ true → pages q ≡ s.pages q
    same_pages q h =
        others q (λ e. ground (arith, gone, h)) (λ e. ground (arith, stays q h, base_absent))

    covers-joined :
        (x : ℕ)
        → covers pages (remove p s.free_list) x
          ≡ (covers s.pages s.free_list x && not (within p (s.pages p).property x))
    covers-joined x =
        covers-same s.pages pages (remove p s.free_list) x same_pages
        ∙ covers-remove s.pages 0 p x s.free_list v.blocks m

    total-joined :
        total pages (remove p s.free_list) + (s.pages p).property ≡ total s.pages s.free_list
    total-joined = omega (
      arith,
      total-same s.pages pages (remove p s.free_list) same_pages,
      total-remove s.pages 0 p s.free_list v.blocks m,
    )

    joined-IsMerging : IsMerging b joined
    joined-IsMerging = record {
      blocks =
          AreBlocks-same s.pages pages 0 (remove p s.free_list) same_pages
            (AreBlocks-remove s.pages 0 p s.free_list v.blocks);
      size = omega (arith, size, v.size);
      head = head;
      outside = λ x h. ground (arith, covers-joined x, v.outside x, size, place);
      heads = λ x h. elim (ℕ_discrete x b) [
        | yes e ↦ ground arith
        | no ne ↦ ground (arith, place, no_head, others x, v.heads x, mem-remove_ne x p s.free_list)
      ];
      bounded = omega (arith, total-joined, size, v.bounded);
    }

    pub joined-IsLater : IsLater base s b joined
    joined-IsLater = record {
      merging = joined-IsMerging;
      same_union = λ x. ground (
        arith,
        covers-joined x,
        size,
        place,
        member_covered s.pages 0 p x s.free_list v.blocks m,
      );
      same_sum = omega (arith, total-joined, size);
      same_count = refl;
      shrinks = stays;
      keeps_apart = λ q h far. ground (
        arith,
        same_pages q h,
        place,
        size,
        far,
        apart s.pages 0 p q s.free_list v.blocks m (stays q h) λ e. ground (arith, gone, h),
      );
    }
