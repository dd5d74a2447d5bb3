-- ===== src/Pmm/Place.antt =====
-- The last loop of `default_free_pages`: the freed block takes its place in the list.
use lcore.Base.{
  ℕ, ◌+◌, ◌≤◌, ◌<◌, ◌≡◌, refl, Bool, true, false, ◌||◌, List, [], ◌∷◌, Returns, Returns-bind, arith,
  leb, ◌==◌, mem, Bool-cases, inl, inr,
}
use lcore.Pmm.Defs.{Page, place}
use lcore.Pmm.Blocks.{within, covers, total, AreBlocks}

-- Whether the blocks at `p` and `q` are neighbours.
abbrev pub touches : (ℕ → Page) → (p q : ℕ) → Bool
touches pages p q = (p + (pages p).property == q) || (q + (pages q).property == p)

module _ (pages : ℕ → Page) (base : ℕ) where
  -- The list with the block at `base` added.
  pub record IsPlaced (lo : ℕ) (l r : List ℕ) : Type 0 where
    pub blocks : AreBlocks pages lo r
    pub covered :
        (x : ℕ) → covers pages r x ≡ (covers pages l x || within base (pages base).property x)
    pub sum : total pages r ≡ total pages l + (pages base).property
    pub members : (x : ℕ) → mem x r ≡ ((x == base) || mem x l)

  module _ (size : 0 < (pages base).property) (head : (pages base).head ≡ true) where
    here :
        (lo p : ℕ) (l : List ℕ)
        → AreBlocks pages lo (p ∷ l)
        → lo ≤ base
        → base + (pages base).property < p
        → IsPlaced lo (p ∷ l) (base ∷ p ∷ l)
    here lo p l b h w = record {
      blocks = (h, size, head, (omega arith, b.1, b.2, b.3));
      covered = λ x. ground arith;
      sum = omega arith;
      members = λ x. refl;
    }

    pub place-IsPlaced :
        (lo : ℕ) (l : List ℕ)
        → AreBlocks pages lo l
        → lo ≤ base
        → ((x : ℕ) → within base (pages base).property x ≡ true → covers pages l x ≡ false)
        → ((q : ℕ) → mem q l ≡ true → touches pages q base ≡ false)
        → Returns (IsPlaced lo l) (place pages base l)
    unfolding place
    place-IsPlaced lo [] b h free alone = record {
      blocks = (h, size, head, tt);
      covered = λ x. ground arith;
      sum = omega arith;
      members = λ x. refl;
    }
    place-IsPlaced lo (p ∷ l) b h free alone =
        let past = p + (pages p).property + 1 in
        elim (Bool-cases (leb (base + (pages base).property) p)) [
          | inl before ↦
              let gap : base + (pages base).property < p = ground (arith, alone p) in
              let off : (base + (pages base).property == p) ≡ false = ground arith in
              rw (before, off) (here lo p l b h gap)
          | inr after ↦
              let above : past ≤ base = ground (arith, free p, free base, alone p) in
              rw after (
                Returns-bind (IsPlaced past l) (IsPlaced lo (p ∷ l)) (place pages base l) _
                  (place-IsPlaced past l b.3 above (λ x w. ground (arith, free x))
                    (λ q m. ground (arith, alone q)))
                  λ r v. record {
                    blocks = (b.0, b.1, b.2, v.blocks);
                    covered = λ x. ground (arith, v.covered x);
                    sum = omega (arith, v.sum);
                    members = λ x. ground (arith, v.members x);
                  })
        ]
