-- ===== src/Sched/Stride/Heap.antt =====
-- libs/skew_heap.h: which elements the operations of a heap keep.
use lcore.Base.{
  ℕ, ◌+◌, ◌≡◌, refl, Bool, false, Option, none, some, List, [], ◌∷◌, ◌++◌, arith, ltb, ◌==◌,
  if◌then◌else◌, mem, mem-append, Bool-cases, inl, inr,
}
use lcore.Sched.Defs.{Pool, null, node}
use lcore.Sched.Stride.{skew_heap_merge, skew_heap_remove}

abbrev pub elements : Pool → List ℕ
elements null = []
elements (node a l r) = a ∷ elements l ++ elements r

-- How often an element is in the heap, and how many there are.
unfoldable pub copies : ℕ → Pool → ℕ
copies b null = 0
copies b (node a l r) = (if b == a then 1 else 0) + copies b l + copies b r

unfoldable pub size : Pool → ℕ
size null = 0
size (node a l r) = 1 + size l + size r

pub mem-elements : (b : ℕ) (t : Pool) → mem b (elements t) ≡ ltb 0 (copies b t)
unfolding copies
mem-elements b null = refl
mem-elements b (node a l r) =
    ground (arith, mem-append b (elements l) (elements r), mem-elements b l, mem-elements b r)

module _ (less : ℕ → ℕ → Bool) where
  pub copies-merge :
      (b : ℕ) (s t : Pool) → copies b (skew_heap_merge less s t) ≡ copies b s + copies b t
  unfolding copies skew_heap_merge
  copies-merge b null t = omega arith
  copies-merge b (node x l r) null = omega arith
  copies-merge b (node x l r) (node y l' r') = elim (Bool-cases (less x y)) [
    | inl e ↦ rw (e, copies) (omega (arith, copies-merge b r (node y l' r')))
    | inr e ↦ rw (e, copies) (omega (arith, copies-merge b (node x l r) r'))
  ]

  pub size-merge : (s t : Pool) → size (skew_heap_merge less s t) ≡ size s + size t
  unfolding size skew_heap_merge
  size-merge null t = omega arith
  size-merge (node x l r) null = omega arith
  size-merge (node x l r) (node y l' r') = elim (Bool-cases (less x y)) [
    | inl e ↦ rw (e, size) (omega (arith, size-merge r (node y l' r')))
    | inr e ↦ rw (e, size) (omega (arith, size-merge (node x l r) r'))
  ]

  -- One copy of `a` is gone, and `a` was not there when there is no result.
  abbrev pub Removed : Pool → ℕ → Option Pool → Type 0
  Removed t a none = copies a t ≡ 0
  Removed t a (some u) =
      (size u + 1 ≡ size t) × ((b : ℕ) → copies b u + (if b == a then 1 else 0) ≡ copies b t)

  pub skew_heap_remove-Removed : (t : Pool) (a : ℕ) → Removed t a (skew_heap_remove less t a)
  unfolding copies size skew_heap_remove
  skew_heap_remove-Removed null a = refl
  skew_heap_remove-Removed (node x l r) a = elim (Bool-cases (x == a)) [
    | inl e ↦ rw e (ground (arith, size-merge l r), λ b. ground (arith, copies-merge b l r))
    | inr e ↦ rw e (
        beside (skew_heap_remove less l a) (skew_heap_remove less r a) e
          (skew_heap_remove-Removed l a) (skew_heap_remove-Removed r a))
  ]
    where
      beside :
          (on_left on_right : Option Pool)
          → (x == a) ≡ false
          → Removed l a on_left
          → Removed r a on_right
          → Removed (node x l r) a (elim on_left [
            | some l' ↦ some (node x l' r)
            | none ↦ elim on_right [ some r' ↦ some (node x l r') | none ↦ none ]
          ])
      beside (some l') o e p q = (omega (arith, p.0), λ b. omega (arith, p.1 b))
      beside none (some r') e p q = (omega (arith, q.0), λ b. omega (arith, q.1 b))
      beside none none e p q = let out : (a == x) ≡ false = ground arith in rw out (omega arith)
