-- ===== src/Pmm/Members.antt =====
-- The blocks of a free list one by one: their distances, and the list without one of them.
use lcore.Base.{
  ℕ, ◌+◌, ◌≤◌, ◌<◌, ◌≡◌, ◌≢◌, refl, true, false, not, ◌&&◌, ◌⊎◌, inl, inr, List, [], ◌∷◌, arith,
  ◌==◌, mem, remove, Distinct, Bool-cases, ℕ_discrete,
}
use lcore.Pmm.Defs.{Page}
use lcore.Pmm.Blocks.{within, covers, total, AreBlocks, AreBlocks-lower, covers_below}

module _ (pages : ℕ → Page) where
  member_bounds :
      (lo p : ℕ) (l : List ℕ)
      → AreBlocks pages lo l
      → mem p l ≡ true
      → (lo ≤ p) × (0 < (pages p).property) × ((pages p).head ≡ true)
  member_bounds lo p [] b h = cc
  member_bounds lo p (a ∷ l) b h =
      ground (arith, b.0, b.1, b.2, member_bounds (a + (pages a).property + 1) p l b.3)

  pub member_lower : (lo p : ℕ) (l : List ℕ) → AreBlocks pages lo l → mem p l ≡ true → lo ≤ p
  member_lower lo p l b h = (member_bounds lo p l b h).0

  pub member_size :
      (lo p : ℕ) (l : List ℕ) → AreBlocks pages lo l → mem p l ≡ true → 0 < (pages p).property
  member_size lo p l b h = (member_bounds lo p l b h).1

  pub member_head :
      (lo p : ℕ) (l : List ℕ) → AreBlocks pages lo l → mem p l ≡ true → (pages p).head ≡ true
  member_head lo p l b h = (member_bounds lo p l b h).2

  pub member_covered :
      (lo p x : ℕ) (l : List ℕ)
      → AreBlocks pages lo l
      → mem p l ≡ true
      → within p (pages p).property x ≡ true
      → covers pages l x ≡ true
  member_covered lo p x [] b h w = cc
  member_covered lo p x (a ∷ l) b h w =
      ground (arith, member_covered (a + (pages a).property + 1) p x l b.3)

  -- Two blocks of the list do not touch.
  pub apart :
      (lo p q : ℕ) (l : List ℕ)
      → AreBlocks pages lo l
      → mem p l ≡ true
      → mem q l ≡ true
      → p ≢ q
      → (p + (pages p).property < q) ⊎ (q + (pages q).property < p)
  apart lo p q [] b hp hq ne = cc
  apart lo p q (a ∷ l) b hp hq ne =
      let past = a + (pages a).property + 1 in
      elim (ℕ_discrete p a) [
        | yes e ↦ inl (ground (arith, member_lower past q l b.3))
        | no d ↦ elim (ℕ_discrete q a) [
          | yes e ↦ inr (ground (arith, member_lower past p l b.3))
          | no d' ↦ apart past p q l b.3 (ground arith) (ground arith) ne
        ]
      ]

  pub below_absent : (lo p : ℕ) (l : List ℕ) → AreBlocks pages lo l → p < lo → mem p l ≡ false
  below_absent lo p l b h = elim (Bool-cases (mem p l)) [
    | inl m ↦ absurd (omega (arith, member_lower lo p l b m))
    | inr m ↦ m
  ]

  pub AreBlocks-Distinct : (lo : ℕ) (l : List ℕ) → AreBlocks pages lo l → Distinct l
  AreBlocks-Distinct lo [] b = tt
  AreBlocks-Distinct lo (a ∷ l) b = (
    below_absent (a + (pages a).property + 1) a l b.3 (omega arith),
    AreBlocks-Distinct (a + (pages a).property + 1) l b.3,
  )

  pub AreBlocks-remove :
      (lo p : ℕ) (l : List ℕ) → AreBlocks pages lo l → AreBlocks pages lo (remove p l)
  AreBlocks-remove lo p [] b = tt
  AreBlocks-remove lo p (a ∷ l) b =
      let past = a + (pages a).property + 1 in
      elim (Bool-cases (p == a)) [
        | inl e ↦ rw e (AreBlocks-lower pages past lo l b.3 (omega (arith, b.0)))
        | inr e ↦ rw e (b.0, b.1, b.2, AreBlocks-remove past p l b.3)
      ]

  pub covers-remove :
      (lo p x : ℕ) (l : List ℕ)
      → AreBlocks pages lo l
      → mem p l ≡ true
      → covers pages (remove p l) x ≡ (covers pages l x && not (within p (pages p).property x))
  covers-remove lo p x [] b h = cc
  covers-remove lo p x (a ∷ l) b h =
      let past = a + (pages a).property + 1 in
      ground (
        arith,
        covers_below pages past l x b.3,
        member_lower past p l b.3,
        covers-remove past p x l b.3,
      )

  pub total-remove :
      (lo p : ℕ) (l : List ℕ)
      → AreBlocks pages lo l
      → mem p l ≡ true
      → total pages (remove p l) + (pages p).property ≡ total pages l
  total-remove lo p [] b h = cc
  total-remove lo p (a ∷ l) b h = ground (arith, total-remove (a + (pages a).property + 1) p l b.3)

-- Along the list only its members matter.
module _ (pages pages' : ℕ → Page) where
  pub AreBlocks-same :
      (lo : ℕ) (l : List ℕ)
      → ((a : ℕ) → mem a l ≡ true → pages' a ≡ pages a)
      → AreBlocks pages lo l
      → AreBlocks pages' lo l
  AreBlocks-same lo [] same b = tt
  AreBlocks-same lo (p ∷ l) same b = ground (
    arith,
    same p,
    AreBlocks-same (p + (pages p).property + 1) l (λ a h. same a (ground arith)) b.3,
  )

  pub covers-same :
      (l : List ℕ) (x : ℕ)
      → ((a : ℕ) → mem a l ≡ true → pages' a ≡ pages a)
      → covers pages' l x ≡ covers pages l x
  covers-same [] x same = refl
  covers-same (p ∷ l) x same = ground (arith, same p, covers-same l x λ a h. same a (ground arith))

  pub total-same :
      (l : List ℕ)
      → ((a : ℕ) → mem a l ≡ true → pages' a ≡ pages a)
      → total pages' l ≡ total pages l
  total-same [] same = refl
  total-same (p ∷ l) same = ground (arith, same p, total-same l λ a h. same a (ground arith))
