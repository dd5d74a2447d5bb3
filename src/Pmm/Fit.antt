-- ===== src/Pmm/Fit.antt =====
-- The search of `default_alloc_pages`: what it finds.
use lcore.Base.{
  ℕ, ◌≤◌, ◌<◌, ◌≡◌, true, none, some, List, [], ◌∷◌, arith, leb, Bool-cases, inl, inr, ◌⊎◌, AllOf,
  mem,
}
use lcore.Pmm.Defs.{Page, find_fit}
use lcore.Pmm.Blocks.{within, covers, total}

module _ (pages : ℕ → Page) (n : ℕ) where
  -- Without a fit every block is too small.
  pub find_fit-none :
      (l : List ℕ) → find_fit pages n l ≡ none → AllOf (λ p. (pages p).property < n) l
  unfolding find_fit
  find_fit-none [] e = tt
  find_fit-none (a ∷ l) e = elim (Bool-cases (leb n (pages a).property)) [
    | inl fits ↦ ground arith
    | inr small ↦ (ground arith, find_fit-none l (ground arith))
  ]

  pub total_small : (l : List ℕ) → total pages l < n → AllOf (λ p. (pages p).property < n) l
  total_small [] h = tt
  total_small (a ∷ l) h = (omega arith, total_small l (omega arith))

  pub find_fit-mem : (p : ℕ) (l : List ℕ) → find_fit pages n l ≡ some p → mem p l ≡ true
  unfolding find_fit
  find_fit-mem p [] e = cc
  find_fit-mem p (a ∷ l) e = ground (arith, find_fit-mem p l)

  -- The first fit: the blocks before it are too small.
  abbrev pub IsFirstFit : ℕ → List ℕ → Type 0
  IsFirstFit p [] = ⊥
  IsFirstFit p (a ∷ l) =
      ((p ≡ a) × (n ≤ (pages a).property)) ⊎ (((pages a).property < n) × IsFirstFit p l)

  pub find_fit-IsFirstFit : (p : ℕ) (l : List ℕ) → find_fit pages n l ≡ some p → IsFirstFit p l
  unfolding find_fit
  find_fit-IsFirstFit p [] e = cc
  find_fit-IsFirstFit p (a ∷ l) e = elim (Bool-cases (leb n (pages a).property)) [
    | inl fits ↦ inl (ground arith, ground arith)
    | inr small ↦ inr (ground arith, find_fit-IsFirstFit p l (ground arith))
  ]

  pub find_fit-covers :
      (p x : ℕ) (l : List ℕ)
      → find_fit pages n l ≡ some p
      → within p n x ≡ true
      → covers pages l x ≡ true
  unfolding find_fit
  find_fit-covers p x [] e h = cc
  find_fit-covers p x (a ∷ l) e h = ground (arith, find_fit-covers p x l)
