-- ===== src/Text/Digits.antt =====
-- The digits that `printnum` prints and those that the loop of `strtol` reads.
use native.Mathlib.Nat.{
  mod-lt, mul-le-mul_left, pow-suc, mod-eq_of_lt, add-mul-mod_self_right, mod-add-div', add-mul,
  mul_right_comm, div-add-mod',
}
use mathlib.Core.List.{append_assoc, map-append}
use lcore.Base.{
  ℕ, zero, suc, ◌+◌, ◌-◌, ◌*◌, ◌/◌, ◌%◌, ◌^◌, ◌≤◌, ◌<◌, ◌≡◌, refl, sym, ap, ◌∙◌, true, Option, none,
  some, List, [], ◌∷◌, ◌++◌, map, ok, arith, ltb, leb, replicate, AllOf, AllOf-append, Bool-cases,
  inl, inr,
}
use lcore.Text.Numbers.{digit, followed_by, printnum, digit_of, read_digits}

-- The number that digits stand for, the first ones already read as `acc`.
abbrev pub value : (base acc : ℕ) → List ℕ → ℕ
value base acc [] = acc
value base acc (d ∷ ds) = value base (acc * base + d) ds

value-snoc :
    (base acc : ℕ) (ds : List ℕ) (d : ℕ)
    → value base acc (ds ++ d ∷ []) ≡ value base acc ds * base + d
value-snoc base acc [] d = refl
value-snoc base acc (e ∷ ds) d = value-snoc base (acc * base + e) ds d

pub value-zeros : (base k : ℕ) (ds : List ℕ) → value base 0 (replicate k 0 ++ ds) ≡ value base 0 ds
value-zeros base zero ds = refl
value-zeros base (suc k) ds =
    let none_yet : 0 * base + 0 ≡ 0 = omega arith in rw (none_yet, value) (value-zeros base k ds)

-- A step of the loop may drop what is beyond 32 bits.
step_wrap : (a base d : ℕ) → (a % 2 ^ 32 * base + d) % 2 ^ 32 ≡ (a * base + d) % 2 ^ 32
step_wrap a base d =
    let whole : (a % 2 ^ 32 + a / 2 ^ 32 * 2 ^ 32) * base ≡ a * base =
      ap (λ x. x * base) (mod-add-div' a (2 ^ 32)) in
    let parts = add-mul (a % 2 ^ 32) (a / 2 ^ 32 * 2 ^ 32) base in
    let moved = mul_right_comm (a / 2 ^ 32) (2 ^ 32) base in
    sym (add-mul-mod_self_right (a % 2 ^ 32 * base + d) (a / 2 ^ 32 * base) (2 ^ 32))
    ∙ ap (λ x. x % 2 ^ 32) (omega (arith, whole, parts, moved))

pub digit_of-digit : (d : ℕ) → d < 16 → digit_of (digit d) ≡ some d
unfolding digit_of
digit_of-digit d h = ground arith

pub read_digits-value :
    (base a c : ℕ) (ds rest : List ℕ)
    → base ≤ 16
    → AllOf (λ d. d < base) ds
    → digit_of c ≡ none
    → read_digits base (a % 2 ^ 32) (map digit ds ++ c ∷ rest)
      ≡ ok (value base a ds % 2 ^ 32, c ∷ rest)
unfolding read_digits
read_digits-value base a c [] rest h all stop = rw (stop, read_digits) refl
read_digits-value base a c (d ∷ ds) rest h all stop =
    let within : ltb d base ≡ true = ground (arith, all.0) in
    rw (digit_of-digit d (omega (arith, all.0)), within, step_wrap a base d, read_digits)
      (read_digits-value base (a * base + d) c ds rest h all.1 stop)

-- The printed text: padding, then digits that stand for the number.
pub record IsPrinted (base num padc : ℕ) (out : List ℕ) : Type 0 where
  pub pads : ℕ
  pub digits : List ℕ
  pub text : out ≡ replicate pads padc ++ map digit digits
  pub small : AllOf (λ d. d < base) digits
  pub means : value base 0 digits ≡ num
  pub head : (d : ℕ) × (ds : List ℕ) × (digits ≡ d ∷ ds)

abbrev pub Shows : (List ℕ → Type 0) → Option (List ℕ) → Type 0
Shows P none = ⊥
Shows P (some out) = P out

shorter : (num base fuel : ℕ) → 2 ≤ base → num < 2 ^ suc fuel → num / base < 2 ^ fuel
shorter num base fuel h k =
    let twice : num / base * 2 ≤ num / base * base = mul-le-mul_left (num / base) h in
    omega (arith, twice, div-add-mod' num base, pow-suc 2 fuel, k)

last_digit : (num base : ℕ) → 2 ≤ base → num % base < base
last_digit num base h = mod-lt num (omega (arith, h))

-- The less significant digit comes last.
followed-IsPrinted :
    (base num padc : ℕ) (o : Option (List ℕ))
    → 2 ≤ base
    → Shows (IsPrinted base (num / base) padc) o
    → Shows (IsPrinted base num padc) (followed_by o (digit (num % base)))
followed-IsPrinted base num padc none h v = v
followed-IsPrinted base num padc (some out) h v = record {
  pads = v.pads;
  digits = v.digits ++ num % base ∷ [];
  text =
      ap (λ t. t ++ digit (num % base) ∷ []) v.text
      ∙ (append_assoc (replicate v.pads padc) (map digit v.digits) _
          ∙ ap (λ t. replicate v.pads padc ++ t)
              (sym (map-append digit v.digits (num % base ∷ []))));
  small = AllOf-append _ v.digits _ v.small (last_digit num base h, tt);
  means =
      value-snoc base 0 v.digits (num % base)
      ∙ (ap (λ x. x * base + num % base) v.means ∙ div-add-mod' num base);
  head = (v.head.0, v.head.1 ++ num % base ∷ [], ap (λ t. t ++ num % base ∷ []) v.head.2);
}

printnum_step :
    (fuel num base width padc : ℕ)
    → 2 ≤ base
    → (leb base num ≡ true
        → Shows
            (IsPrinted base (num / base) padc)
            (printnum fuel (num / base) base (width - 1) padc))
    → Shows (IsPrinted base num padc) (printnum (suc fuel) num base width padc)
unfolding printnum
printnum_step fuel num base width padc h above = elim (Bool-cases (leb base num)) [
  | inl more ↦ rw more (
      followed-IsPrinted base num padc (printnum fuel (num / base) base (width - 1) padc) h
        (above more))
  | inr less ↦
      let small : num < base = ground arith in
      let own : num % base ≡ num = mod-eq_of_lt small in
      rw (less, own)
        (record {
          pads = width - 1;
          digits = num ∷ [];
          text = refl;
          small = (small, tt);
          means = omega arith;
          head = (num, [], refl);
        })
]

-- As much fuel as the number has bits is enough.
pub printnum-IsPrinted :
    (fuel num base width padc : ℕ)
    → 2 ≤ base
    → num < 2 ^ suc fuel
    → Shows (IsPrinted base num padc) (printnum (suc fuel) num base width padc)
printnum-IsPrinted zero num base width padc h k =
    printnum_step zero num base width padc h (λ more. ground arith)
printnum-IsPrinted (suc fuel) num base width padc h k =
    printnum_step (suc fuel) num base width padc h λ more.
      printnum-IsPrinted fuel (num / base) base (width - 1) padc h (shorter num base (suc fuel) h k)
