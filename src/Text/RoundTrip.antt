-- ===== src/Text/RoundTrip.antt =====
-- What `printnum` prints, `strtol` reads back.
use mathlib.Core.List.{append_assoc}
use lcore.Base.{
  ℕ, zero, suc, ◌%◌, ◌^◌, ◌≤◌, ◌<◌, ◌≡◌, refl, sym, ap, ◌∙◌, ◌⊎◌, false, Option, none, some, List,
  [], ◌∷◌, ◌++◌, map, ok, arith, ◌==◌, replicate, AllOf, inl, inr,
}
use lcore.Text.Numbers.{digit, printnum, digit_of, skip_blanks, take_prefix, strtol}
use lcore.Text.Digits.{value, value-zeros, read_digits-value, IsPrinted, Shows, printnum-IsPrinted}

-- Reading back: past the blanks.
skip_blanks-pads :
    (k c : ℕ) (s : List ℕ)
    → (c == 32) ≡ false
    → (c == 9) ≡ false
    → skip_blanks (replicate k 32 ++ c ∷ s) ≡ ok (c ∷ s)
unfolding skip_blanks
skip_blanks-pads zero c s h k = rw (h, k) refl
skip_blanks-pads (suc n) c s h k = skip_blanks-pads n c s h k

-- The second character is no `x`.
no_prefix :
    (base d c : ℕ) (ds rest : List ℕ)
    → 2 ≤ base
    → base ≤ 16
    → AllOf (λ e. e < base) ds
    → digit_of c ≡ none
    → take_prefix base (digit d ∷ map digit ds ++ c ∷ rest)
      ≡ ok (base, digit d ∷ map digit ds ++ c ∷ rest)
unfolding take_prefix digit_of
no_prefix base d c [] rest low high all stop = ground arith
no_prefix base d c (e ∷ ds) rest low high all stop = ground (arith, all.0)

-- From the first digit on.
strtol-digits :
    (base k c : ℕ) (ds rest : List ℕ)
    → 2 ≤ base
    → base ≤ 16
    → AllOf (λ d. d < base) ds
    → ((d : ℕ) × (es : List ℕ) × (ds ≡ d ∷ es))
    → digit_of c ≡ none
    → strtol (replicate k 32 ++ (map digit ds ++ c ∷ rest)) base
      ≡ ok (value base 0 ds % 2 ^ 32, c ∷ rest)
unfolding strtol
strtol-digits base k c [] rest low high all (d, es, e) stop = cc
strtol-digits base k c (d ∷ ds) rest low high all some_digit stop =
    let a : (digit d == 32) ≡ false = ground (arith, all.0) in
    let b : (digit d == 9) ≡ false = ground (arith, all.0) in
    let plus : (digit d == 43) ≡ false = ground (arith, all.0) in
    let minus : (digit d == 45) ≡ false = ground (arith, all.0) in
    rw
      (
        skip_blanks-pads k (digit d) (map digit ds ++ c ∷ rest) a b,
        plus,
        minus,
        no_prefix base d c ds rest low high all.1 stop,
        read_digits-value base 0 c (d ∷ ds) rest high all stop,
      )
      refl

-- Zeros as padding are digits.
zeros_text :
    (k : ℕ) (ds t : List ℕ)
    → replicate k 48 ++ (map digit ds ++ t) ≡ map digit (replicate k 0 ++ ds) ++ t
zeros_text zero ds t = refl
zeros_text (suc k) ds t = ap (λ r. 48 ∷ r) (zeros_text k ds t)

zeros_small :
    (base k : ℕ) (ds : List ℕ)
    → 2 ≤ base
    → AllOf (λ d. d < base) ds
    → AllOf (λ d. d < base) (replicate k 0 ++ ds)
zeros_small base zero ds h all = all
zeros_small base (suc k) ds h all = (omega (arith, h), zeros_small base k ds h all)

zeros_head :
    (k : ℕ) (ds : List ℕ)
    → ((d : ℕ) × (es : List ℕ) × (ds ≡ d ∷ es))
    → (d : ℕ) × (es : List ℕ) × (replicate k 0 ++ ds ≡ d ∷ es)
zeros_head zero ds head = head
zeros_head (suc k) ds head = (0, replicate k 0 ++ ds, refl)

-- What printnum prints of a number below 2 ^ 64 in a base from 2 to 16, padded to any width with
-- spaces or zeros, ends within 64 digits, and strtol in the same base reads it back: the answer is
-- the number as far as 32 bits go, and it stops at the character behind, when that is no digit or
-- letter.
pub strtol-printnum :
    (num base width padc c : ℕ) (rest : List ℕ)
    → num < 2 ^ 64
    → 2 ≤ base
    → base ≤ 16
    → (padc ≡ 32) ⊎ (padc ≡ 48)
    → digit_of c ≡ none
    → Shows
        (λ out. strtol (out ++ c ∷ rest) base ≡ ok (num % 2 ^ 32, c ∷ rest))
        (printnum 64 num base width padc)
strtol-printnum num base width padc c rest small low high pad stop =
    read_back (printnum 64 num base width padc)
      (printnum-IsPrinted 63 num base width padc low small)
  where
    -- The padding and the digits together, by what the padding is.
    from_text :
        (pads : ℕ) (ds : List ℕ)
        → AllOf (λ d. d < base) ds
        → value base 0 ds ≡ num
        → ((d : ℕ) × (es : List ℕ) × (ds ≡ d ∷ es))
        → (padc ≡ 32) ⊎ (padc ≡ 48)
        → strtol (replicate pads padc ++ (map digit ds ++ c ∷ rest)) base
          ≡ ok (num % 2 ^ 32, c ∷ rest)
    from_text pads ds all means head (inl blank) =
        rw (blank, sym means) (strtol-digits base pads c ds rest low high all head stop)
    from_text pads ds all means head (inr zero_pad) =
        rw (zero_pad, sym means)
          (ap (λ t. strtol t base) (zeros_text pads ds (c ∷ rest))
            ∙ (strtol-digits base 0 c (replicate pads 0 ++ ds) rest low high
                  (zeros_small base pads ds low all) (zeros_head pads ds head) stop
                ∙ ap (λ n. ok (n % 2 ^ 32, c ∷ rest)) (value-zeros base pads ds)))

    read_back :
        (o : Option (List ℕ))
        → Shows (IsPrinted base num padc) o
        → Shows (λ out. strtol (out ++ c ∷ rest) base ≡ ok (num % 2 ^ 32, c ∷ rest)) o
    read_back none v = v
    read_back (some out) v =
        ap (λ t. strtol (t ++ c ∷ rest) base) v.text
        ∙ (ap (λ t. strtol t base)
              (append_assoc (replicate v.pads padc) (map digit v.digits) (c ∷ rest))
            ∙ from_text v.pads v.digits v.small v.means v.head pad)
