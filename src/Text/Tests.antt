-- ===== src/Text/Tests.antt =====
-- The theorems on strings at a string of two bytes.
use lcore.Base.{ℕ, ◌≡◌, List, [], ◌∷◌, Returns, arith}
use lcore.Text.Defs.{strcmp, memmove}
use lcore.Text.Move.{memmove-copied}
use lcore.Text.Scan.{IsText, Compares, strcmp-Compares}

abbrev hi : List ℕ
hi = 104 ∷ 105 ∷ []

hi-IsText : IsText hi
hi-IsText = ((omega arith, omega arith), ((omega arith, omega arith), tt))

abbrev he : List ℕ
he = 104 ∷ 101 ∷ []

he-IsText : IsText he
he-IsText = ((omega arith, omega arith), ((omega arith, omega arith), tt))

strcmp-Compares_example :
    Returns (λ d. Compares d hi he) (strcmp (104 ∷ 105 ∷ 0 ∷ []) (104 ∷ 101 ∷ 0 ∷ 9 ∷ []))
strcmp-Compares_example = strcmp-Compares hi he [] (9 ∷ []) hi-IsText he-IsText

-- Seven bytes move down by two places, over themselves.
memmove-copied_example : memmove (λ x. x) 1 3 7 5 ≡ 7
memmove-copied_example = memmove-copied (λ x. x) 1 3 7 5
