-- ===== src/Base/Panic.antt =====
-- The result of kernel code that may stop in `assert` or `panic`.
use mathlib.Core.Path.{◌≡◌, refl}
use mathlib.Core.Bool.{Bool, true, false}

pub data Outcome {ℓ} (A : Type ℓ) : Type ℓ where
  ok : A → Outcome A
  panic : Outcome A

-- One step of the code after another.
infixl 5 ◌>>◌ ◌>>=◌
abbrev pub ◌>>=◌ {u v} : {S : Type u} {T : Type v} → Outcome S → (S → Outcome T) → Outcome T
panic >>= next = panic
ok s >>= next = next s

abbrev pub ◌>>◌ {v} : {T : Type v} → Outcome (Unit {0}) → Outcome T → Outcome T
first >> second = first >>= λ _. second

-- `assert(b)`
abbrev pub assert : Bool → Outcome (Unit {0})
assert true = ok tt
assert false = panic

-- The code returns, and its result satisfies `P`.
abbrev pub Returns {ℓ} : {A : Type ℓ} → (A → Type 0) → Outcome A → Type 0
Returns P (ok a) = P a
Returns P panic = ⊥

pub >>=-eq-ok {u v} :
    {S : Type u} {T : Type v} {t : T} (first : Outcome S) (next : S → Outcome T)
    → (first >>= next) ≡ ok t
    → (s : S) × (first ≡ ok s) × (next s ≡ ok t)
>>=-eq-ok panic next e = cc
>>=-eq-ok (ok s) next e = (s, refl, e)

pub Returns-bind {u v} :
    {S : Type u} {T : Type v} (Mid : S → Type 0) (Post : T → Type 0) (first : Outcome S)
    (next : S → Outcome T)
    → Returns Mid first
    → ((s : S) → Mid s → Returns Post (next s))
    → Returns Post (first >>= next)
Returns-bind Mid Post panic next r step = r
Returns-bind Mid Post (ok s) next r step = step s r

pub Returns-mono {ℓ} :
    {A : Type ℓ} (P Q : A → Type 0) (m : Outcome A)
    → Returns P m
    → ((a : A) → P a → Q a)
    → Returns Q m
Returns-mono P Q (ok a) h g = g a h
Returns-mono P Q panic h g = h

-- The same with the result at hand.
pub Returns-with {ℓ} :
    {A : Type ℓ} (P Q : A → Type 0) (m : Outcome A)
    → Returns P m
    → ((a : A) → m ≡ ok a → P a → Q a)
    → Returns Q m
Returns-with P Q (ok a) h g = g a refl h
Returns-with P Q panic h g = h
