-- ===== src/Text/Bounds.antt =====
-- libs/hash.c and libs/rand.c: the ranges that they promise.
use native.Mathlib.Nat.{div-lt_iff_lt-mul, two-pow-succ, add-mul, one-le-pow}
use lcore.Base.{ℕ, zero, suc, ◌+◌, ◌-◌, ◌*◌, ◌%◌, ◌^◌, ◌≤◌, ◌<◌, ◌≡◌, ap, sym, subst, ◌∙◌, arith}
use lcore.Text.Numbers.{hash32}

pow_add : (a b : ℕ) → 2 ^ (a + b) ≡ 2 ^ a * 2 ^ b
pow_add zero b = let same : 0 + b ≡ b = omega arith in rw same (omega arith)
pow_add (suc a) b =
    let moved : suc a + b ≡ suc (a + b) = omega arith in
    rw moved (
      omega (
        arith,
        two-pow-succ (a + b),
        pow_add a b,
        two-pow-succ a,
        add-mul (2 ^ a) (2 ^ a) (2 ^ b),
        ap (λ n. n * 2 ^ b) (two-pow-succ a),
      ))

-- hash32 for 1 to 32 bits answers a number below 2 to the power of bits.
pub hash32_lt : (val bits : ℕ) → 0 < bits → bits ≤ 32 → hash32 val bits < 2 ^ bits
unfolding hash32
hash32_lt val bits h k =
    let whole : bits + (32 - bits) ≡ 32 = omega (arith, k) in
    let word : 2 ^ bits * 2 ^ (32 - bits) ≡ 2 ^ 32 =
      sym (pow_add bits (32 - bits)) ∙ ap (λ n. 2 ^ n) whole in
    let small : val * 0x9e370001 % 2 ^ 32 < 2 ^ bits * 2 ^ (32 - bits) =
      subst (λ n. val * 0x9e370001 % 2 ^ 32 < n) (sym word) (omega arith) in
    (div-lt_iff_lt-mul (one-le-pow (32 - bits) 2 (omega arith))).1 small
