-- ===== src/Base/Members.antt =====
-- Lists of addresses: what stands for an intrusive list, where a node is at most once.
use Prim.Native.Nat.{ℕ, ◌+◌}
use mathlib.Core.Path.{◌≡◌, refl}
use mathlib.Core.Logic.{◌≢◌}
use mathlib.Core.Bool.{Bool, true, false, ◌||◌}
use mathlib.Core.List.{List, [], ◌∷◌, ◌++◌}
use native.Mathlib.Omega.{arith}
use lcore.Base.Tests.{◌==◌, if◌then◌else◌}
use lcore.Base.Lists.{length}

abbrev pub mem : ℕ → List ℕ → Bool
mem a [] = false
mem a (x ∷ xs) = (a == x) || mem a xs

-- Unlinks `a`.
abbrev pub remove : ℕ → List ℕ → List ℕ
remove a [] = []
remove a (x ∷ xs) = if a == x then xs else x ∷ remove a xs

abbrev pub Distinct : List ℕ → Type 0
Distinct [] = Unit {0}
Distinct (x ∷ xs) = (mem x xs ≡ false) × Distinct xs

abbrev pub AllOf {ℓ} : {A : Type ℓ} → (A → Type 0) → List A → Type 0
AllOf P [] = Unit {0}
AllOf P (x ∷ xs) = P x × AllOf P xs

-- Writes one cell of a store.
abbrev pub update {ℓ} : {A : Type ℓ} (m : ℕ → A) (key : ℕ) (value : A) → ℕ → A
update m key value k = if k == key then value else m k

pub mem-append : (a : ℕ) (xs ys : List ℕ) → mem a (xs ++ ys) ≡ (mem a xs || mem a ys)
mem-append a [] ys = refl
mem-append a (x ∷ xs) ys = ground (arith, mem-append a xs ys)

pub Distinct-snoc : (xs : List ℕ) (a : ℕ) → Distinct xs → mem a xs ≡ false → Distinct (xs ++ a ∷ [])
Distinct-snoc [] a d h = ground arith
Distinct-snoc (x ∷ xs) a d h = ground (arith, mem-append x xs (a ∷ []), Distinct-snoc xs a d.1)

pub mem-remove_ne : (a b : ℕ) (xs : List ℕ) → a ≢ b → mem a (remove b xs) ≡ mem a xs
mem-remove_ne a b [] ne = refl
mem-remove_ne a b (x ∷ xs) ne = ground (arith, mem-remove_ne a b xs ne)

pub mem-remove_self : (a : ℕ) (xs : List ℕ) → Distinct xs → mem a (remove a xs) ≡ false
mem-remove_self a [] d = refl
mem-remove_self a (x ∷ xs) d = ground (arith, mem-remove_self a xs d.1)

pub mem-remove : (b a : ℕ) (xs : List ℕ) → mem b xs ≡ false → mem b (remove a xs) ≡ false
mem-remove b a [] h = refl
mem-remove b a (x ∷ xs) h = ground (arith, mem-remove b a xs)

pub Distinct-remove : (a : ℕ) (xs : List ℕ) → Distinct xs → Distinct (remove a xs)
Distinct-remove a [] d = tt
Distinct-remove a (x ∷ xs) d = ground (arith, Distinct-remove a xs d.1, mem-remove x a xs)

pub length-remove : (a : ℕ) (xs : List ℕ) → mem a xs ≡ true → length (remove a xs) + 1 ≡ length xs
length-remove a [] h = ground arith
length-remove a (x ∷ xs) h = ground (arith, length-remove a xs)

pub AllOf-append {ℓ} :
    {A : Type ℓ} (P : A → Type 0) (xs ys : List A) → AllOf P xs → AllOf P ys → AllOf P (xs ++ ys)
AllOf-append P [] ys h k = k
AllOf-append P (x ∷ xs) ys h k = (h.0, AllOf-append P xs ys h.1 k)

pub AllOf-remove : (P : ℕ → Type 0) (a : ℕ) (xs : List ℕ) → AllOf P xs → AllOf P (remove a xs)
AllOf-remove P a [] h = tt
AllOf-remove P a (x ∷ xs) h = ground (arith, AllOf-remove P a xs h.1)

pub AllOf-mem : (P : ℕ → Type 0) (a : ℕ) (xs : List ℕ) → AllOf P xs → mem a xs ≡ true → P a
AllOf-mem P a [] h m = ground arith
AllOf-mem P a (x ∷ xs) h m = ground (arith, AllOf-mem P a xs h.1)

-- A fact that is changed at one address outside the list stays true along the list.
pub AllOf-map {ℓ} :
    {A : Type ℓ} (P Q : A → Type 0) (xs : List A) → ((x : A) → P x → Q x) → AllOf P xs → AllOf Q xs
AllOf-map P Q [] f h = tt
AllOf-map P Q (x ∷ xs) f h = (f x h.0, AllOf-map P Q xs f h.1)
