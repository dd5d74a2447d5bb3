-- ===== src/Pmm/Kept.antt =====
-- kern/mm/default_pmm.c: allocation and release leave the reference counts and the PG_reserved flags
-- of the other pages.
use lcore.Base.{
  ℕ, zero, suc, ◌+◌, ◌≡◌, refl, Bool, true, false, Option, none, some, List, [], ◌∷◌, Outcome, ok,
  panic, assert, ◌>>◌, ◌>>=◌, Returns, arith, ltb, Bool-cases, inl, inr,
}
use lcore.Pmm.Defs.{
  Page, Memory, set_page, split, take_block, take_found, find_fit, default_alloc_pages, reset_pages,
  merge_with, merge, place, default_free_pages,
}
use lcore.Pmm.Blocks.{within}

-- If the code returns, its result satisfies `P`.
abbrev pub WhenOk {ℓ} : {A : Type ℓ} → (A → Type 0) → Outcome A → Type 0
WhenOk P (ok a) = P a
WhenOk P panic = Unit

WhenOk-bind {u v} :
    {S : Type u} {T : Type v} (Mid : S → Type 0) (Post : T → Type 0) (first : Outcome S)
    (next : S → Outcome T)
    → WhenOk Mid first
    → ((s : S) → Mid s → WhenOk Post (next s))
    → WhenOk Post (first >>= next)
WhenOk-bind Mid Post panic next r step = tt
WhenOk-bind Mid Post (ok s) next r step = step s r

WhenOk-assert {ℓ} :
    {A : Type ℓ} (P : A → Type 0) (test : Bool) (m : Outcome A)
    → WhenOk P m
    → WhenOk P (assert test >> m)
WhenOk-assert P true m h = h
WhenOk-assert P false m h = tt

WhenOk-mono {ℓ} :
    {A : Type ℓ} (P Q : A → Type 0) (m : Outcome A)
    → ((a : A) → P a → Q a)
    → WhenOk P m
    → WhenOk Q m
WhenOk-mono P Q (ok a) f h = f a h
WhenOk-mono P Q panic f h = tt

WhenOk-any {ℓ} : {A : Type ℓ} (m : Outcome A) → WhenOk (λ a. Unit {0}) m
WhenOk-any (ok a) = tt
WhenOk-any panic = tt

pub Returns-WhenOk {ℓ} :
    {A : Type ℓ} (P Q : A → Type 0) (m : Outcome A)
    → Returns P m
    → WhenOk Q m
    → Returns (λ a. P a × Q a) m
Returns-WhenOk P Q (ok a) p q = (p, q)
Returns-WhenOk P Q panic p q = p

abbrev pub SameUse : (p q : Page) → Type 0
SameUse p q = (q.ref ≡ p.ref) × (q.reserved ≡ p.reserved)

take_block-SameUse :
    (p n : ℕ) (s : Memory) (x : ℕ) → SameUse (s.pages x) ((take_block p n s).pages x)
unfolding take_block split
take_block-SameUse p n s x = ground arith

take_found-SameUse :
    (n : ℕ) (o : Option ℕ) (s : Memory) (x : ℕ) → SameUse (s.pages x) ((take_found n o s).1.pages x)
take_found-SameUse n none s x = (refl, refl)
take_found-SameUse n (some p) s x = take_block-SameUse p n s x

pub default_alloc_pages-SameUse :
    (n : ℕ) (s : Memory)
    → WhenOk (λ r. (x : ℕ) → SameUse (s.pages x) (r.1.pages x)) (default_alloc_pages n s)
unfolding default_alloc_pages
default_alloc_pages-SameUse n s = elim (Bool-cases (ltb 0 n)) [
  | inr e ↦ rw e tt
  | inl e ↦ elim (Bool-cases (ltb s.nr_free n)) [
    | inl f ↦ rw (e, f) (λ x. (refl, refl))
    | inr f ↦ rw (e, f) (take_found-SameUse n (find_fit s.pages n s.free_list) s)
  ]
]

reset_pages-SameUse :
    (n p : ℕ) (s : Memory)
    → WhenOk
        (λ t. (x : ℕ) → within p n x ≡ false → SameUse (s.pages x) (t.pages x))
        (reset_pages n p s)
unfolding reset_pages
reset_pages-SameUse zero p s = λ x w. (refl, refl)
reset_pages-SameUse (suc n) p s =
    let s' = set_page p (record (s.pages p) { ref = 0; reserved = false; head = false }) s in
    WhenOk-assert (λ t. (x : ℕ) → within p (suc n) x ≡ false → SameUse (s.pages x) (t.pages x)) _
      (reset_pages n (p + 1) s')
      (WhenOk-mono (λ t. (x : ℕ) → within (p + 1) n x ≡ false → SameUse (s'.pages x) (t.pages x)) _
        (reset_pages n (p + 1) s') (λ t h x w. ground (arith, h x))
        (reset_pages-SameUse n (p + 1) s'))

merge_with-SameUse :
    (p base : ℕ) (s : Memory) (x : ℕ) → SameUse (s.pages x) ((merge_with p base s).1.pages x)
unfolding merge_with
merge_with-SameUse p base s x = ground arith

merge-SameUse :
    (l : List ℕ) (base : ℕ) (s : Memory) (x : ℕ) → SameUse (s.pages x) ((merge l base s).1.pages x)
unfolding merge
merge-SameUse [] base s x = (refl, refl)
merge-SameUse (p ∷ l) base s x = ground (
  arith,
  merge_with-SameUse p base s x,
  merge-SameUse l (merge_with p base s).0 (merge_with p base s).1 x,
)

pub default_free_pages-SameUse :
    (base n : ℕ) (s : Memory)
    → WhenOk
        (λ t. (x : ℕ) → within base n x ≡ false → SameUse (s.pages x) (t.pages x))
        (default_free_pages base n s)
unfolding default_free_pages
default_free_pages-SameUse base n s = WhenOk-assert Kept (ltb 0 n) _ (
    WhenOk-bind Kept Kept (reset_pages n base s) _ (reset_pages-SameUse n base s) λ t h.
      let t' = set_page base (record (t.pages base) { property = n; head = true }) t in
      let m = merge t.free_list base t' in
      WhenOk-bind (λ l. Unit {0}) Kept (place m.1.pages m.0 m.1.free_list) _
        (WhenOk-any (place m.1.pages m.0 m.1.free_list))
        λ l _ x w. ground (arith, h x w, merge-SameUse t.free_list base t' x))
  where
    Kept : Memory → Type 0
    Kept t = (x : ℕ) → within base n x ≡ false → SameUse (s.pages x) (t.pages x)
