-- ===== src/Fs/Bitmap/Tests.antt =====
-- A bitmap of 40 bits: two words, of which 24 bits of the second are beyond the end.
use lcore.Base.{◌≡◌, refl, arith, Returns, ltb, ◌==◌, if◌then◌else◌}
use lcore.Fs.Defs.{done}
use lcore.Fs.Bitmap.{Bitmap, bitmap_alloc, alloc_from, find_bit, is_nonzero}
use lcore.Fs.Bitmap.Laws.{IsBitmap, Allocated, bitmap_alloc-Allocated}
use lcore.Fs.Bitmap.Free.{Restored, bitmap_free-alloc}

abbrev forty : Bitmap
forty = record {
  nbits = 40;
  nwords = 2;
  map = λ ix offset. if ix == 0 then ltb 2 offset else ltb offset 8;
}

forty-IsBitmap : IsBitmap forty
forty-IsBitmap = record {
  enough = omega arith;
  needed = omega arith;
  end_used = λ i h k. ground arith;
}

bitmap_alloc-Allocated_example : Returns (Allocated forty) (bitmap_alloc forty)
bitmap_alloc-Allocated_example = bitmap_alloc-Allocated forty forty-IsBitmap

bitmap_free-alloc_example : Returns (λ r. Restored forty r.0 r.1) (bitmap_alloc forty)
bitmap_free-alloc_example = bitmap_free-alloc forty forty-IsBitmap

-- The third bit is the first that is free.
third : Returns (λ r. r.0 ≡ done 3) (bitmap_alloc forty)
unfolding bitmap_alloc alloc_from find_bit is_nonzero
third = refl
