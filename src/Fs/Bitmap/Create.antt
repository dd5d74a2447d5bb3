-- ===== src/Fs/Bitmap/Create.antt =====
-- `bitmap_create`.
use lcore.Base.{
  ℕ, zero, suc, ◌+◌, ◌-◌, ◌*◌, ◌/◌, ◌%◌, ◌^◌, ◌<◌, ◌≡◌, refl, ◌∙◌, true, false, not, ◌&&◌, Returns,
  arith, ltb, leb, ◌==◌, if◌then◌else◌, Bool-cases, inl, inr, ==_iff, lt→ltb,
}
use lcore.Fs.Bitmap.{Bitmap, toggle, clear_leftover, bitmap_create}
use lcore.Fs.Bitmap.Laws.{is_free, IsBitmap}

-- A new bitmap: every index is free.
pub record IsFresh (nbits : ℕ) (b : Bitmap) : Type 0 where
  pub size : b.nbits ≡ nbits
  pub sound : IsBitmap b
  pub all_free : (j : ℕ) → j < nbits → is_free b j ≡ true

clear_leftover_lem :
    (n ix overbits : ℕ) (b : Bitmap) (j k : ℕ)
    → (clear_leftover n ix overbits b).map j k ≡ (
        if (j == ix) && (leb overbits k && ltb k (overbits + n))
        then not (b.map j k)
        else b.map j k)
unfolding clear_leftover
clear_leftover_lem zero ix overbits b j k = ground arith
clear_leftover_lem (suc n) ix overbits b j k =
    clear_leftover_lem n ix (overbits + 1) (toggle ix overbits b) j k ∙ ground arith

clear_leftover-size :
    (n ix overbits : ℕ) (b : Bitmap)
    → let c = clear_leftover n ix overbits b in (c.nbits ≡ b.nbits) × (c.nwords ≡ b.nwords)
unfolding clear_leftover
clear_leftover-size zero ix overbits b = (refl, refl)
clear_leftover-size (suc n) ix overbits b =
    clear_leftover-size n ix (overbits + 1) (toggle ix overbits b)

trimmed-IsFresh :
    (nbits nwords ix over : ℕ)
    → ix + 1 ≡ nwords
    → ix * 32 + over ≡ nbits
    → 0 < over
    → over < 32
    → IsFresh nbits (
        clear_leftover
          (32 - over)
          ix
          over
          (record { nbits = nbits; nwords = nwords; map = λ j k. true }))
trimmed-IsFresh nbits nwords ix over h k some_over l =
    let c : Bitmap =
      clear_leftover (32 - over) ix over
        (record { nbits = nbits; nwords = nwords; map = λ j k. true }) in
    let sizes : (c.nbits ≡ nbits) × (c.nwords ≡ nwords) =
      clear_leftover-size (32 - over) ix over _ in
    let bits : (j : ℕ)
        → is_free c j ≡ (
            if (j / 32 == ix) && (leb over (j % 32) && ltb (j % 32) (over + (32 - over)))
            then false
            else true) =
      λ j. clear_leftover_lem (32 - over) ix over _ (j / 32) (j % 32) in
    record {
      size = sizes.0;
      sound = record {
        enough = omega (arith, sizes.0, sizes.1, h, k, l);
        needed = omega (arith, sizes.0, sizes.1, h, k, some_over);
        end_used = λ j m n. ground (arith, bits j, sizes);
      };
      all_free = λ j m. ground (arith, bits j);
    }

-- bitmap_create of a positive number of bits that does not come within 32 of 2 ^ 32 returns a
-- sound bitmap of that size in which every index is free, and none beyond the last.
pub bitmap_create-IsFresh :
    (nbits : ℕ) → 0 < nbits → nbits + 32 < 2 ^ 32 → Returns (IsFresh nbits) (bitmap_create nbits)
unfolding bitmap_create
bitmap_create-IsFresh nbits h k =
    let a : not (nbits == 0) ≡ true = ground arith in
    let b : ltb nbits ((nbits + 32) % 2 ^ 32) ≡ true = ground arith in
    elim (Bool-cases (nbits == (nbits + 31) % 2 ^ 32 / 32 * 32)) [
      | inl whole ↦
          rw (a, b, whole)
            (record {
              size = refl;
              sound = record {
                enough = ground arith;
                needed = ground arith;
                end_used = λ j l m. ground arith;
              };
              all_free = λ j l. refl;
            })
      | inr part ↦
          let ix : ℕ = (nbits + 31) % 2 ^ 32 / 32 - 1 in
          let over : ℕ = nbits - ix * 32 in
          let uneven : (nbits ≡ (nbits + 31) % 2 ^ 32 / 32 * 32) → ⊥ = ground arith in
          let last : (nbits / 32 == ix) ≡ true =
            (==_iff (nbits / 32) ix).1 (omega (arith, h, k, uneven)) in
          let lo : ltb 0 over ≡ true = lt→ltb 0 over (omega (arith, h, k, uneven)) in
          let hi : ltb over 32 ≡ true = lt→ltb over 32 (omega (arith, h, k, uneven)) in
          rw (a, b, part, last, lo, hi)
            (trimmed-IsFresh nbits ((nbits + 31) % 2 ^ 32 / 32) ix over (omega (arith, h, k))
              (omega (arith, h, k)) (omega (arith, h, k, uneven)) (omega (arith, h, k, uneven)))
    ]
