-- ===== src/Fs/Bitmap/Laws.antt =====
-- What the bitmap promises: a set of the free indices below `nbits`, the least of which is given out.
use lcore.Base.{
  ℕ, zero, suc, ◌+◌, ◌*◌, ◌/◌, ◌%◌, ◌≤◌, ◌<◌, ◌≡◌, refl, Bool, true, false, not, Option, none, some,
  Returns, arith, ◌==◌, if◌then◌else◌, Bool-cases, inl, inr, dec_lt,
}
use lcore.Fs.Defs.{Ret, done, err, e_no_mem}
use lcore.Fs.Bitmap.{Bitmap, toggle, find_bit, is_nonzero, take_bit, alloc_from, bitmap_alloc}

abbrev pub is_free : Bitmap → ℕ → Bool
is_free b i = b.map (i / 32) (i % 32)

-- The words are as many as the bits need, and no bit is free beyond the last.
pub record IsBitmap (b : Bitmap) : Type 0 where
  pub enough : b.nbits ≤ b.nwords * 32
  pub needed : b.nwords * 32 < b.nbits + 32
  pub end_used : (i : ℕ) → b.nbits ≤ i → i < b.nwords * 32 → is_free b i ≡ false

-- Bits of a word.
module _ (word : ℕ → Bool) where
  is_nonzero-false : (n : ℕ) → is_nonzero n word ≡ false → (k : ℕ) → k < n → word k ≡ false
  unfolding is_nonzero
  is_nonzero-false zero e k h = ground arith
  is_nonzero-false (suc n) e k h =
      let here : word n ≡ false = ground arith in
      ground (arith, is_nonzero-false n (ground arith) k)

  is_nonzero_empty : (n : ℕ) → ((k : ℕ) → k < n → word k ≡ false) → is_nonzero n word ≡ false
  unfolding is_nonzero
  is_nonzero_empty zero h = refl
  is_nonzero_empty (suc n) h =
      rw (h n (omega arith)) (is_nonzero_empty n (λ k l. h k (omega (arith, l))))

  abbrev IsFirst : (offset n : ℕ) → Option ℕ → Type 0
  IsFirst offset n none = (k : ℕ) → offset ≤ k → k < offset + n → word k ≡ false
  IsFirst offset n (some j) =
      (offset ≤ j)
      × (j < offset + n)
      × (word j ≡ true)
      × ((k : ℕ) → offset ≤ k → k < j → word k ≡ false)

  find_bit-IsFirst : (n offset : ℕ) → IsFirst offset n (find_bit n offset word)
  unfolding find_bit
  find_bit-IsFirst zero offset = λ k h l. ground arith
  find_bit-IsFirst (suc n) offset = elim (Bool-cases (word offset)) [
    | inl set ↦ rw set (omega arith, omega arith, set, λ k h l. ground arith)
    | inr clear ↦
        rw clear (later (find_bit n (offset + 1) word) clear (find_bit-IsFirst n (offset + 1)))
  ]
    where
      later :
          (o : Option ℕ) → word offset ≡ false → IsFirst (offset + 1) n o → IsFirst offset (suc n) o
      later none clear h = λ k a c. ground (arith, h k)
      later (some j) clear h =
          (omega (arith, h.0), omega (arith, h.1), h.2, λ k a c. ground (arith, h.3 k))

-- Only the bit `i` differs.
abbrev pub DiffersAt : (i : ℕ) → (b c : Bitmap) → Type 0
DiffersAt i b c =
    (c.nbits ≡ b.nbits)
    × (c.nwords ≡ b.nwords)
    × ((j : ℕ) → is_free c j ≡ (if j == i then not (is_free b j) else is_free b j))

-- The least free index is taken; or there is none, and nothing changes.
abbrev pub Allocated : Bitmap → Ret ℕ × Bitmap → Type 0
Allocated b (err e, c) = (e ≡ e_no_mem) × (c ≡ b) × ((j : ℕ) → j < b.nbits → is_free b j ≡ false)
Allocated b (done i, c) =
    (i < b.nbits)
    × (is_free b i ≡ true)
    × ((j : ℕ) → j < i → is_free b j ≡ false)
    × DiffersAt i b c
    × IsBitmap c

-- The place of an index.
index_place :
    (ix offset : ℕ)
    → offset < 32
    → ((ix * 32 + offset) / 32 ≡ ix) × ((ix * 32 + offset) % 32 ≡ offset)
index_place ix offset h = (omega arith, omega arith)

toggle-DiffersAt :
    (ix offset : ℕ) (b : Bitmap) → offset < 32 → DiffersAt (ix * 32 + offset) b (toggle ix offset b)
toggle-DiffersAt ix offset b h = (refl, refl, λ j. ground arith)

toggle-IsBitmap :
    (ix offset : ℕ) (b : Bitmap)
    → IsBitmap b
    → ix * 32 + offset < b.nbits
    → offset < 32
    → IsBitmap (toggle ix offset b)
toggle-IsBitmap ix offset b v h k = record {
  enough = v.enough;
  needed = v.needed;
  end_used = λ j l m. ground (arith, v.end_used j, (toggle-DiffersAt ix offset b k).2 j);
}

module _ (b : Bitmap) (v : IsBitmap b) where
  take_bit-Allocated :
      (ix : ℕ)
      → ix < b.nwords
      → ((j : ℕ) → j < ix * 32 → is_free b j ≡ false)
      → is_nonzero 32 (b.map ix) ≡ true
      → (o : Option ℕ) → IsFirst (b.map ix) 0 32 o
      → Returns (Allocated b) (take_bit ix o b)
  take_bit-Allocated ix h none_yet full none first =
      let none_set = is_nonzero_empty (b.map ix) 32 (λ k l. first k (omega arith) l) in ground arith
  take_bit-Allocated ix h none_yet full (some k) first =
      let at_place = index_place ix k (first.1) in
      let set : is_free b (ix * 32 + k) ≡ true = rw (at_place.0, at_place.1, is_free) (first.2) in
      let below : ix * 32 + k < b.nbits = ground (arith, v.end_used (ix * 32 + k), first.1, h) in
      (
        below,
        set,
        λ j l. elim (dec_lt j (ix * 32)) [
          | yes early ↦ none_yet j early
          | no late ↦
              let same : j / 32 ≡ ix = omega (arith, late, l, first.1) in
              rw (same, is_free)
                (first.3 (j % 32) (omega arith) (omega (arith, same, l, late, first.1)))
        ],
        toggle-DiffersAt ix k b first.1,
        toggle-IsBitmap ix k b v below first.1,
      )

  -- The words before `ix` have no free bit.
  alloc_from-Allocated :
      (n ix : ℕ)
      → ix + n ≡ b.nwords
      → ((j : ℕ) → j < ix * 32 → is_free b j ≡ false)
      → Returns (Allocated b) (alloc_from n ix b)
  unfolding alloc_from
  alloc_from-Allocated zero ix e none_yet =
      (refl, refl, λ j h. none_yet j (omega (arith, v.enough, e)))
  alloc_from-Allocated (suc n) ix e none_yet = elim (Bool-cases (is_nonzero 32 (b.map ix))) [
    | inl full ↦ rw full (
        take_bit-Allocated ix (omega (arith, e)) none_yet full (find_bit 32 0 (b.map ix))
          (find_bit-IsFirst (b.map ix) 32 0))
    | inr empty ↦ rw empty (
        alloc_from-Allocated n (ix + 1) (omega (arith, e)) λ j h. elim (dec_lt j (ix * 32)) [
          | yes early ↦ none_yet j early
          | no late ↦
              let same : j / 32 ≡ ix = omega (arith, late, h) in
              rw (same, is_free) (is_nonzero-false (b.map ix) 32 empty (j % 32) (omega arith))
        ])
  ]

-- On a sound bitmap bitmap_alloc returns: either the least free index, which is below the number
-- of bits and is the only one that changes, with the bitmap sound still; or -E_NO_MEM, and then no
-- index is free and nothing has changed.
pub bitmap_alloc-Allocated : (b : Bitmap) → IsBitmap b → Returns (Allocated b) (bitmap_alloc b)
unfolding bitmap_alloc
bitmap_alloc-Allocated b v = alloc_from-Allocated b v b.nwords 0 (omega arith) (λ j h. ground arith)
