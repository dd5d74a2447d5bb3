-- ===== src/Fs/Bitmap/Free.antt =====
-- `bitmap_free`, which gives back what `bitmap_alloc` took.
use lcore.Base.{ℕ, ◌<◌, ◌≡◌, refl, ◌∙◌, true, false, Returns, Returns-mono, arith, ltb}
use lcore.Fs.Defs.{Ret, done, err}
use lcore.Fs.Bitmap.{Bitmap, bitmap_alloc, bitmap_translate, bitmap_free}
use lcore.Fs.Bitmap.Laws.{is_free, IsBitmap, DiffersAt, Allocated, bitmap_alloc-Allocated}

-- What a free leaves: the bit is set, and no other changes.
abbrev pub Freed : ℕ → (b c : Bitmap) → Type 0
Freed i b c = DiffersAt i b c × (is_free c i ≡ true) × IsBitmap c

pub bitmap_free-Freed :
    (i : ℕ) (b : Bitmap)
    → IsBitmap b
    → i < b.nbits
    → is_free b i ≡ false
    → Returns (Freed i b) (bitmap_free i b)
unfolding bitmap_free bitmap_translate
bitmap_free-Freed i b v h used =
    let inside : ltb i b.nbits ≡ true = ground arith in
    rw (inside, used)
      (
        (refl, refl, λ j. ground (arith, used)),
        ground arith,
        record {
          enough = v.enough;
          needed = v.needed;
          end_used = λ j l m. ground (arith, v.end_used j l m);
        },
      )

-- Giving back what was taken restores every bit.
abbrev pub Restored : Bitmap → Ret ℕ → Bitmap → Type 0
Restored b (err e) c = c ≡ b
Restored b (done i) c =
    Returns
      (λ d. (d.nbits ≡ b.nbits) × (d.nwords ≡ b.nwords) × ((j : ℕ) → is_free d j ≡ is_free b j))
      (bitmap_free i c)

Allocated-Restored : (b c : Bitmap) (answer : Ret ℕ) → Allocated b (answer, c) → Restored b answer c
Allocated-Restored b c (err e) a = a.1
Allocated-Restored b c (done i) a =
    Returns-mono (Freed i c) _ (bitmap_free i c)
      (bitmap_free-Freed i c a.4 (ground arith) (ground (arith, a.3.2 i)))
      λ d f. (f.0.0 ∙ a.3.0, f.0.1 ∙ a.3.1, λ j. ground (arith, f.0.2 j, a.3.2 j))

-- On a sound bitmap, bitmap_free of the index that bitmap_alloc has just answered returns and
-- leaves every bit as it was before; when bitmap_alloc answers no index the bitmap is as it was.
pub bitmap_free-alloc :
    (b : Bitmap) → IsBitmap b → Returns (λ r. Restored b r.0 r.1) (bitmap_alloc b)
bitmap_free-alloc b v =
    Returns-mono (Allocated b) _ (bitmap_alloc b) (bitmap_alloc-Allocated b v)
      λ r a. Allocated-Restored b r.1 r.0 a
