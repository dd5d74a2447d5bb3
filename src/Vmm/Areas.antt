-- ===== src/Vmm/Areas.antt =====
-- When the areas of an address space are in order, and which of them has an address.
use lcore.Base.{
  ℕ, ◌≤◌, ◌<◌, ◌≡◌, refl, true, Option, none, some, List, [], ◌∷◌, arith, length, ◌⊎◌, inl, inr,
  Bool-cases,
}
use lcore.Vmm.Defs.{Vma, Mm, contains, find_in}

-- From the address `lo` on: areas that are not empty, by address, that do not overlap.
abbrev pub AreAreas : ℕ → List Vma → Type 0
AreAreas lo [] = Unit {0}
AreAreas lo (v ∷ vs) = (lo ≤ v.vm_start) × (v.vm_start < v.vm_end) × AreAreas v.vm_end vs

-- Whether the area is one of the list.
abbrev pub In : Vma → List Vma → Type 0
In v [] = ⊥
In v (w ∷ ws) = (v ≡ w) ⊎ In v ws

abbrev pub Cached : Option Vma → List Vma → Type 0
Cached none l = Unit {0}
Cached (some v) l = In v l

-- The areas are in order and counted, and the cached one is among them.
pub record IsSpace (mm : Mm) : Type 0 where
  pub areas : AreAreas 0 mm.mmap_list
  pub count : mm.map_count ≡ length mm.mmap_list
  pub cache : Cached mm.mmap_cache mm.mmap_list

pub AreAreas-lower : (lo lo' : ℕ) (l : List Vma) → AreAreas lo l → lo' ≤ lo → AreAreas lo' l
AreAreas-lower lo lo' [] a h = tt
AreAreas-lower lo lo' (v ∷ vs) a h = (omega (arith, a.0), a.1, a.2)

pub In-bounds :
    (v : Vma) (lo : ℕ) (l : List Vma)
    → AreAreas lo l
    → In v l
    → (lo ≤ v.vm_start) × (v.vm_start < v.vm_end)
In-bounds v lo [] a m = absurd m
In-bounds v lo (w ∷ ws) a (inl e) = rw e (a.0, a.1)
In-bounds v lo (w ∷ ws) a (inr m) =
    let (l, s) = In-bounds v w.vm_end ws a.2 m in (omega (arith, a.0, a.1, l), s)

-- No area below the first address has it.
pub find_in_below : (addr lo : ℕ) (l : List Vma) → AreAreas lo l → addr < lo → find_in addr l ≡ none
unfolding find_in
find_in_below addr lo [] a h = refl
find_in_below addr lo (v ∷ vs) a h = ground (arith, find_in_below addr v.vm_end vs a.2)

-- The area of the list that has the address is the one that is found.
pub find_in-In :
    (addr : ℕ) (v : Vma) (lo : ℕ) (l : List Vma)
    → AreAreas lo l
    → In v l
    → contains addr v ≡ true
    → find_in addr l ≡ some v
unfolding find_in
find_in-In addr v lo [] a m h = absurd m
find_in-In addr v lo (w ∷ ws) a (inl e) h = rw e (rw (rw e at h) refl)
find_in-In addr v lo (w ∷ ws) a (inr m) h =
    let (l, s) = In-bounds v w.vm_end ws a.2 m in
    ground (arith, l, find_in-In addr v w.vm_end ws a.2 m h)

pub find_in-some :
    (addr : ℕ) (v : Vma) (l : List Vma)
    → find_in addr l ≡ some v
    → In v l × (contains addr v ≡ true)
unfolding find_in
find_in-some addr v [] e = cc
find_in-some addr v (w ∷ ws) e = elim (Bool-cases (contains addr w)) [
  | inl here ↦ let same : v ≡ w = ground (arith, here) in (inl same, rw same here)
  | inr there ↦ let (m, h) = find_in-some addr v ws (ground (arith, there)) in (inr m, h)
]
