-- ===== src/Text/Scan.antt =====
-- `strcmp` on strings that end in a null.
use lcore.Base.{
  ℕ, ◌<◌, ◌≡◌, ◌≢◌, refl, ap, ap₂, false, ◌↔◌, List, [], ◌∷◌, ◌++◌, ◌^◌, ◌-◌, ◌⊎◌, sym, Returns,
  Returns-mono, arith, ◌==◌, drop, AllOf, Bool-cases, inl, inr,
}
use lcore.Text.Arch.{unequal, arch_strcmp}
use lcore.Text.Defs.{strcmp}

-- The bytes of a string without its null.
abbrev pub IsText : List ℕ → Type 0
IsText = AllOf λ c. (0 < c) × (c < 256)

abbrev first_byte : List ℕ → ℕ
first_byte [] = 0
first_byte (c ∷ cs) = c

-- At the first byte where they differ, or where the second ends, the first string is the larger.
Above : List ℕ → List ℕ → Type 0
Above [] ys = ⊥
Above (a ∷ xs) [] = Unit {0}
Above (a ∷ xs) (b ∷ ys) = (b < a) ⊎ ((a ≡ b) × Above xs ys)

-- What the answer says of two strings: 0, 1, or -1 as its 32 bits.
pub Compares : ℕ → List ℕ → List ℕ → Type 0
Compares d xs ys =
    ((d ≡ 0) ↔ (xs ≡ ys)) × ((d ≡ 1) ↔ Above xs ys) × ((d ≡ 2 ^ 32 - 1) ↔ Above ys xs)

differ-Compares : (a b : ℕ) (xs ys : List ℕ) → a ≢ b → Compares (unequal a b) (a ∷ xs) (b ∷ ys)
unfolding Above Compares
differ-Compares a b xs ys ne = (
  ((λ e. ground arith), λ e. absurd (ne (ap first_byte e))),
  ((λ e. inl (ground arith)), λ o. elim o [ inl h ↦ ground arith | inr h ↦ absurd (ne h.0) ]),
  ((λ e. inl (ground arith)), λ o. elim o [ inl h ↦ ground arith | inr h ↦ absurd (ne (sym h.0)) ]),
)

agree-Compares :
    (a b d : ℕ) (xs ys : List ℕ) → a ≡ b → Compares d xs ys → Compares d (a ∷ xs) (b ∷ ys)
unfolding Above Compares
agree-Compares a b d xs ys same (eq, above, below) = (
  ((λ e. ap₂ (λ x l. x ∷ l) same (eq.0 e)), λ e. eq.1 (ap (drop 1) e)),
  (
    (λ e. inr (same, above.0 e)),
    λ o. elim o [ inl h ↦ absurd (omega (arith, same, h)) | inr h ↦ above.1 h.1 ],
  ),
  (
    (λ e. inr (sym same, below.0 e)),
    λ o. elim o [ inl h ↦ absurd (omega (arith, same, h)) | inr h ↦ below.1 h.1 ],
  ),
)

-- strcmp of two strings that end in a null returns without reading past either null; it answers 0
-- if and only if they are equal up to it, 1 if and only if the first has the larger byte where
-- they first differ or goes on where the second ends, and -1 if and only if the second does.
pub strcmp-Compares :
    (xs ys rest rest' : List ℕ)
    → IsText xs
    → IsText ys
    → Returns (λ d. Compares d xs ys) (strcmp (xs ++ 0 ∷ rest) (ys ++ 0 ∷ rest'))
unfolding strcmp arch_strcmp Above Compares
strcmp-Compares [] [] rest rest' t u = (
  ((λ e. refl), λ e. refl),
  ((λ e. ground arith), λ o. absurd o),
  ((λ e. ground arith), λ o. absurd o),
)
strcmp-Compares [] (b ∷ ys) rest rest' t u =
    let stop : (0 == b) ≡ false = ground (arith, u.0) in
    let less : unequal 0 b ≡ 2 ^ 32 - 1 = ground (arith, u.0) in
    rw (stop, less)
      (((λ e. ground arith), λ e. cc), ((λ e. ground arith), λ o. absurd o), ((λ e. tt), λ o. refl))
strcmp-Compares (a ∷ xs) [] rest rest' t u =
    let stop : (a == 0) ≡ false = ground (arith, t.0) in
    let more : unequal a 0 ≡ 1 = ground arith in
    rw (stop, more)
      (((λ e. ground arith), λ e. cc), ((λ e. tt), λ o. refl), ((λ e. ground arith), λ o. absurd o))
strcmp-Compares (a ∷ xs) (b ∷ ys) rest rest' t u = elim (Bool-cases (a == b)) [
  | inl same ↦
      let go_on : (a == 0) ≡ false = ground (arith, t.0) in
      rw (same, go_on)
        (Returns-mono (λ d. Compares d xs ys) (λ d. Compares d (a ∷ xs) (b ∷ ys))
          (arch_strcmp (xs ++ 0 ∷ rest) (ys ++ 0 ∷ rest'))
          (strcmp-Compares xs ys rest rest' t.1 u.1)
          λ d c. agree-Compares a b d xs ys (ground arith) c)
  | inr other ↦ rw other (differ-Compares a b xs ys (ground arith))
]
