-- ===== src/Text/Numbers.antt =====
-- libs/printfmt.c's `printnum`, libs/string.c's `strtol`, libs/hash.c and libs/rand.c. Characters
-- are bytes, and the characters printed are the result.
use lcore.Base.{
  ℕ, zero, suc, ◌+◌, ◌-◌, ◌*◌, ◌/◌, ◌%◌, ◌^◌, Bool, true, false, ◌&&◌, ◌||◌, Option, none, some,
  List, [], ◌∷◌, ◌++◌, Outcome, ok, panic, ◌>>=◌, ltb, leb, ◌==◌, if◌then◌else◌, replicate,
}

-- "0123456789abcdef"[d]
abbrev pub digit : ℕ → ℕ
digit d = if ltb d 10 then 48 + d else 87 + d

abbrev pub followed_by : Option (List ℕ) → ℕ → Option (List ℕ)
followed_by none c = none
followed_by (some out) c = some (out ++ c ∷ [])

-- `none` is fuel that ran out. A negative `width` pads as 0 does.
unfoldable pub printnum : (fuel num base width padc : ℕ) → Option (List ℕ)
printnum zero num base width padc = none
printnum (suc fuel) num base width padc =
    let preceding = printnum fuel (num / base) base (width - 1) padc in
    followed_by (if leb base num then preceding else some (replicate (width - 1) padc))
      (digit (num % base))

abbrev pub between : (low high c : ℕ) → Bool
between low high c = leb low c && leb c high

-- What a character counts as, before the test against the base.
unfoldable pub digit_of : ℕ → Option ℕ
digit_of c =
    if between 48 57 c
    then some (c - 48)
    else if between 97 122 c
    then some (c - 97 + 10)
    else if between 65 90 c
    then some (c - 65 + 10)
    else none

unfoldable pub skip_blanks : List ℕ → Outcome (List ℕ)
skip_blanks [] = panic
skip_blanks (c ∷ s) = let rest = skip_blanks s in if (c == 32) || (c == 9) then rest else ok (c ∷ s)

-- Whether there is a minus sign, and what follows the sign.
abbrev pub take_sign : List ℕ → Outcome (Bool × List ℕ)
take_sign [] = panic
take_sign (c ∷ s) =
    if c == 43 then ok (false, s) else if c == 45 then ok (true, s) else ok (false, c ∷ s)

-- Whether "0x" stands there; the second character is read only after a 0.
abbrev pub is_hex_prefix : List ℕ → Outcome Bool
is_hex_prefix [] = panic
is_hex_prefix (c ∷ []) = if c == 48 then panic else ok false
is_hex_prefix (c ∷ (d ∷ s)) = ok ((c == 48) && (d == 120))

abbrev pub skip : ℕ → List ℕ → List ℕ
skip zero s = s
skip (suc n) [] = []
skip (suc n) (c ∷ s) = skip n s

abbrev pub starts_zero : List ℕ → Bool
starts_zero [] = false
starts_zero (c ∷ s) = c == 48

-- The base, and where the digits start.
unfoldable pub take_prefix : ℕ → List ℕ → Outcome (ℕ × List ℕ)
take_prefix base s =
    let other = if base == 0 then if starts_zero s then (8, skip 1 s) else (10, s) else (base, s) in
    if (base == 0) || (base == 16)
    then (is_hex_prefix s >>= λ hex. ok (if hex then (16, skip 2 s) else other))
    else ok other

-- The loop over the digits; `val` is a `long` of 32 bits.
unfoldable pub read_digits : (base val : ℕ) → List ℕ → Outcome (ℕ × List ℕ)
read_digits base val [] = panic
read_digits base val (c ∷ s) = elim (digit_of c) [
  | none ↦ ok (val, c ∷ s)
  | some dig ↦
      let rest = read_digits base ((val * base + dig) % 2 ^ 32) s in
      if ltb dig base then rest else ok (val, c ∷ s)
]

abbrev pub negate : Bool → ℕ → ℕ
negate neg val = if neg then (2 ^ 32 - val) % 2 ^ 32 else val

-- The 32 bits of the answer, and what `endptr` gets.
unfoldable pub strtol : List ℕ → ℕ → Outcome (ℕ × List ℕ)
strtol s base = skip_blanks s >>= λ signed. take_sign signed >>= λ (neg, body).
    take_prefix base body >>= λ (radix, digits).
    read_digits radix 0 digits >>= λ (val, end). ok (negate neg val, end)

-- `hash32`, for 0 < bits ≤ 32.
unfoldable pub hash32 : (val bits : ℕ) → ℕ
hash32 val bits = val * 0x9e370001 % 2 ^ 32 / 2 ^ (32 - bits)

-- `rand` and the new `next`; RAND_MAX is 2147483647.
unfoldable pub rand : ℕ → ℕ × ℕ
rand next =
    let next' = (next * 0x5deece66d + 0xb) % 2 ^ 64 % 2 ^ 48 in (next' / 2 ^ 12 % 2147483648, next')

unfoldable pub srand : ℕ → ℕ
srand seed = seed
