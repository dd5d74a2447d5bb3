-- ===== src/Pmm/Blocks.antt =====
-- What the free list means: which pages it covers, and how its blocks stand in memory.
use lcore.Base.{
  mem, ℕ, ◌+◌, ◌≤◌, ◌<◌, ◌≡◌, refl, Bool, true, false, ◌&&◌, ◌||◌, List, [], ◌∷◌, arith, ltb, leb,
}
use lcore.Pmm.Defs.{Page, Memory}

abbrev pub within : (p n x : ℕ) → Bool
within p n x = leb p x && ltb x (p + n)

-- Whether a block of the list has the page `x`.
abbrev pub covers : (ℕ → Page) → List ℕ → ℕ → Bool
covers pages [] x = false
covers pages (p ∷ l) x = within p (pages p).property x || covers pages l x

abbrev pub total : (ℕ → Page) → List ℕ → ℕ
total pages [] = 0
total pages (p ∷ l) = (pages p).property + total pages l

-- From the page `lo` on: blocks of at least one page each, in order of address, that do not touch.
abbrev pub AreBlocks : (ℕ → Page) → ℕ → List ℕ → Type 0
AreBlocks pages lo [] = Unit {0}
AreBlocks pages lo (p ∷ l) =
    (lo ≤ p)
    × (0 < (pages p).property)
    × ((pages p).head ≡ true)
    × AreBlocks pages (p + (pages p).property + 1) l

pub record IsFreeArea (s : Memory) : Type 0 where
  pub blocks : AreBlocks s.pages 0 s.free_list
  pub counted : s.nr_free ≡ total s.pages s.free_list
  pub heads : (x : ℕ) → (s.pages x).head ≡ true → mem x s.free_list ≡ true

pub AreBlocks-lower :
    (pages : ℕ → Page) (lo lo' : ℕ) (l : List ℕ)
    → AreBlocks pages lo l
    → lo' ≤ lo
    → AreBlocks pages lo' l
AreBlocks-lower pages lo lo' [] b h = tt
AreBlocks-lower pages lo lo' (p ∷ l) b h = (omega (arith, b.0), b.1, b.2, b.3)

-- Pages below the list are not covered.
pub covers_below :
    (pages : ℕ → Page) (lo : ℕ) (l : List ℕ) (x : ℕ)
    → AreBlocks pages lo l
    → x < lo
    → covers pages l x ≡ false
covers_below pages lo [] x b h = refl
covers_below pages lo (p ∷ l) x b h =
    ground (arith, covers_below pages (p + (pages p).property + 1) l x b.3)

-- Along the list only the pages from `lo` on matter.
module _ (pages pages' : ℕ → Page) where
  pub AreBlocks-agree :
      (lo : ℕ) (l : List ℕ)
      → ((a : ℕ) → lo ≤ a → pages' a ≡ pages a)
      → AreBlocks pages lo l
      → AreBlocks pages' lo l
  AreBlocks-agree lo [] same b = tt
  AreBlocks-agree lo (p ∷ l) same b = ground (
    arith,
    same p,
    AreBlocks-agree (p + (pages p).property + 1) l (λ a h. same a (omega (arith, b.0))) b.3,
  )

  pub covers-agree :
      (lo : ℕ) (l : List ℕ) (x : ℕ)
      → ((a : ℕ) → lo ≤ a → pages' a ≡ pages a)
      → AreBlocks pages lo l
      → covers pages' l x ≡ covers pages l x
  covers-agree lo [] x same b = refl
  covers-agree lo (p ∷ l) x same b = ground (
    arith,
    same p,
    covers-agree (p + (pages p).property + 1) l x (λ a h. same a (omega (arith, b.0))) b.3,
  )

  pub total-agree :
      (lo : ℕ) (l : List ℕ)
      → ((a : ℕ) → lo ≤ a → pages' a ≡ pages a)
      → AreBlocks pages lo l
      → total pages' l ≡ total pages l
  total-agree lo [] same b = refl
  total-agree lo (p ∷ l) same b = ground (
    arith,
    same p,
    total-agree (p + (pages p).property + 1) l (λ a h. same a (omega (arith, b.0))) b.3,
  )
