-- ===== src/Fs/Bitmap.antt =====
-- kern/fs/sfs/bitmap.c: which blocks of a file system are free. A word is given by its 32 bits, so a
-- mask of one bit is the bit's place; `kmalloc` has the memory.
pub mod Laws
pub mod Free
pub mod Create
mod Tests
use lcore.Base.{
  ℕ, zero, suc, ◌+◌, ◌-◌, ◌*◌, ◌/◌, ◌%◌, ◌^◌, Bool, true, false, not, ◌&&◌, ◌||◌, Option, none,
  some, Outcome, ok, panic, ◌>>=◌, ◌>>◌, assert, ltb, leb, ◌==◌, if◌then◌else◌, update,
}
use lcore.Fs.Defs.{Ret, done, err, e_no_mem}

-- `struct bitmap`: the bits of each word of `map`.
pub record Bitmap : Type 0 where
  pub nbits : ℕ
  pub nwords : ℕ
  pub map : ℕ → ℕ → Bool

-- `map[ix] ^= (1 << offset)`
abbrev pub toggle : (ix offset : ℕ) → Bitmap → Bitmap
toggle ix offset b = record b {
  map = update b.map ix (update (b.map ix) offset (not (b.map ix offset)));
}

-- The loop over the leftover bits; `n` are left.
unfoldable pub clear_leftover : (n ix overbits : ℕ) → Bitmap → Bitmap
clear_leftover zero ix overbits b = b
clear_leftover (suc n) ix overbits b = clear_leftover n ix (overbits + 1) (toggle ix overbits b)

unfoldable pub bitmap_create : ℕ → Outcome Bitmap
bitmap_create nbits =
    let nwords = (nbits + 31) % 2 ^ 32 / 32 in
    let full : Bitmap = record { nbits = nbits; nwords = nwords; map = λ ix offset. true } in
    let ix = nwords - 1 in
    let overbits = nbits - ix * 32 in
    let trimmed =
      assert (nbits / 32 == ix)
      >> (assert (ltb 0 overbits && ltb overbits 32)
          >> ok (clear_leftover (32 - overbits) ix overbits full)) in
    assert (not (nbits == 0) && ltb nbits ((nbits + 32) % 2 ^ 32))
    >> (if nbits == nwords * 32 then ok full else trimmed)

-- The inner loop of `bitmap_alloc`: the first set bit of a word; `n` bits are left.
unfoldable pub find_bit : (n offset : ℕ) → (ℕ → Bool) → Option ℕ
find_bit zero offset word = none
find_bit (suc n) offset word =
    let later = find_bit n (offset + 1) word in if word offset then some offset else later

-- Whether the word is not 0.
unfoldable pub is_nonzero : ℕ → (ℕ → Bool) → Bool
is_nonzero zero word = false
is_nonzero (suc n) word = word n || is_nonzero n word

abbrev pub take_bit : ℕ → Option ℕ → Bitmap → Outcome (Ret ℕ × Bitmap)
take_bit ix none b = panic
take_bit ix (some offset) b = ok (done (ix * 32 + offset), toggle ix offset b)

-- The outer loop; `n` words are left.
unfoldable pub alloc_from : (n ix : ℕ) → Bitmap → Outcome (Ret ℕ × Bitmap)
alloc_from zero ix b = ok (err e_no_mem, b)
alloc_from (suc n) ix b =
    let later = alloc_from n (ix + 1) b in
    if is_nonzero 32 (b.map ix) then take_bit ix (find_bit 32 0 (b.map ix)) b else later

unfoldable pub bitmap_alloc : Bitmap → Outcome (Ret ℕ × Bitmap)
bitmap_alloc b = alloc_from b.nwords 0 b

-- The word and the place of the bit.
unfoldable pub bitmap_translate : ℕ → Bitmap → Outcome (ℕ × ℕ)
bitmap_translate index b = assert (ltb index b.nbits) >> ok (index / 32, index % 32)

unfoldable pub bitmap_test : ℕ → Bitmap → Outcome Bool
bitmap_test index b = bitmap_translate index b >>= λ (ix, offset). ok (b.map ix offset)

unfoldable pub bitmap_free : ℕ → Bitmap → Outcome Bitmap
bitmap_free index b = bitmap_translate index b >>= λ (ix, offset).
    assert (not (b.map ix offset))
    >> ok (record b { map = update b.map ix (update (b.map ix) offset true) })

-- The length of the data in bytes.
unfoldable pub bitmap_getdata : Bitmap → (ℕ → ℕ → Bool) × ℕ
bitmap_getdata b = (b.map, 4 * b.nwords % 2 ^ 32)
