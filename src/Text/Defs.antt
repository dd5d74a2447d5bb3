-- ===== src/Text/Defs.antt =====
-- libs/string.c. A `char *` that is only read is the sequence of the bytes from it on, as far as the
-- object goes; reading or writing past its end is `panic`. The functions that move bytes work on
-- the whole memory. x86.h, which string.c includes, defines `__HAVE_ARCH_` for strcpy, strcmp, memset,
-- memmove and memcpy, so that these are the assembly of Text/Arch.
use lcore.Base.{
  ℕ, zero, suc, ◌+◌, ◌-◌, ◌%◌, ◌^◌, not, ◌&&◌, Option, none, some, List, [], ◌∷◌, Outcome, ok,
  panic, ◌>>=◌, ◌==◌, if◌then◌else◌,
}
use lcore.Text.Arch.{arch_strcpy, arch_strcmp, arch_memset, arch_memcpy, arch_memmove}

unfoldable pub strlen : List ℕ → Outcome ℕ
strlen [] = panic
strlen (c ∷ s) = let rest = strlen s in if c == 0 then ok 0 else rest >>= λ n. ok (n + 1)

unfoldable pub strnlen : List ℕ → ℕ → Outcome ℕ
strnlen s zero = ok 0
strnlen [] (suc len) = panic
strnlen (c ∷ s) (suc len) =
    let rest = strnlen s len in if c == 0 then ok 0 else rest >>= λ n. ok (n + 1)

unfoldable pub strcpy : (dst src : List ℕ) → Outcome (List ℕ)
strcpy = arch_strcpy

-- The bytes at `dst` afterwards; at the end of the source the null is written again and again.
unfoldable pub strncpy : (dst src : List ℕ) → ℕ → Outcome (List ℕ)
strncpy dst src zero = ok dst
strncpy dst [] (suc len) = panic
strncpy [] (c ∷ s) (suc len) = panic
strncpy (d ∷ ds) (c ∷ s) (suc len) =
    let rest = strncpy ds (if c == 0 then c ∷ s else s) len in rest >>= λ r. ok (c ∷ r)

-- The difference of two bytes, as the 32 bits of an `int`.
abbrev pub difference : (a b : ℕ) → ℕ
difference a b = (a + 2 ^ 32 - b) % 2 ^ 32

unfoldable pub strcmp : List ℕ → List ℕ → Outcome ℕ
strcmp = arch_strcmp

unfoldable pub strncmp : List ℕ → List ℕ → ℕ → Outcome ℕ
strncmp s t zero = ok 0
strncmp [] t (suc n) = panic
strncmp (a ∷ s) [] (suc n) = panic
strncmp (a ∷ s) (b ∷ t) (suc n) =
    let rest = strncmp s t n in if not (a == 0) && (a == b) then rest else ok (difference a b)

-- The offset of the answer; `none` is NULL.
unfoldable pub strchr : List ℕ → ℕ → Outcome (Option ℕ)
strchr [] c = panic
strchr (a ∷ s) c =
    let later = strchr s c >>= λ r. ok (elim r [ none ↦ none | some i ↦ some (i + 1) ]) in
    if a == 0 then ok none else (if a == c then ok (some 0) else later)

unfoldable pub strfind : List ℕ → ℕ → Outcome ℕ
strfind [] c = panic
strfind (a ∷ s) c =
    let later = strfind s c >>= λ i. ok (i + 1) in
    if a == 0 then ok 0 else (if a == c then ok 0 else later)

unfoldable pub memcmp : List ℕ → List ℕ → ℕ → Outcome ℕ
memcmp s t zero = ok 0
memcmp [] t (suc n) = panic
memcmp (a ∷ s) [] (suc n) = panic
memcmp (a ∷ s) (b ∷ t) (suc n) =
    let rest = memcmp s t n in if a == b then rest else ok (difference a b)

unfoldable pub memset : (ℕ → ℕ) → (s c n : ℕ) → ℕ → ℕ
memset = arch_memset

unfoldable pub memcpy : (ℕ → ℕ) → (d s n : ℕ) → ℕ → ℕ
memcpy = arch_memcpy

unfoldable pub memmove : (ℕ → ℕ) → (d s n : ℕ) → ℕ → ℕ
memmove = arch_memmove
