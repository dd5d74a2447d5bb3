-- ===== src/Text/NumberTests.antt =====
-- Numbers printed and read back.
use lcore.Base.{◌%◌, ◌^◌, ◌≡◌, refl, inl, some, [], ◌∷◌, ◌++◌, ok, arith}
use lcore.Text.Numbers.{printnum, strtol, digit_of, skip_blanks, take_prefix, read_digits, hash32}
use lcore.Text.Digits.{Shows}
use lcore.Text.RoundTrip.{strtol-printnum}

-- 0x2a in six places, and a minus sign by hand.
printed : printnum 64 42 16 6 48 ≡ some (48 ∷ 48 ∷ 48 ∷ 48 ∷ 50 ∷ 97 ∷ [])
unfolding printnum
printed = refl

read_negative : strtol (32 ∷ 45 ∷ 48 ∷ 120 ∷ 50 ∷ 65 ∷ 0 ∷ []) 0 ≡ ok (4294967254, 0 ∷ [])
unfolding strtol skip_blanks take_prefix read_digits digit_of
read_negative = refl

strtol-printnum_example :
    Shows
      (λ out. strtol (out ++ 10 ∷ []) 16 ≡ ok (5000000000 % 2 ^ 32, 10 ∷ []))
      (printnum 64 5000000000 16 12 32)
unfolding digit_of
strtol-printnum_example =
    strtol-printnum 5000000000 16 12 32 10 [] (omega arith) (omega arith) (omega arith) (inl refl)
      refl

hashed : hash32 7 10 ≡ 334
unfolding hash32
hashed = refl
