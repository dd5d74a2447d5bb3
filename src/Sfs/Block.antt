-- ===== src/Sfs/Block.antt =====
-- kern/fs/sfs/sfs_inode.c: release of blocks, against the set of free ones.
pub mod Alloc
use lcore.Base.{
  ℕ, zero, suc, ◌+◌, ◌-◌, ◌*◌, ◌%◌, ◌^◌, ◌≤◌, ◌<◌, Bool-cases, inl, inr, ◌≡◌, ◌≢◌, refl, true,
  false, ok, ◌>>=◌, ◌>>◌, assert, ltb, ◌==◌, if◌then◌else◌, Returns, Returns-bind, arith, ◌∙◌, sym,
  dec_lt, subst,
}
use lcore.Fs.Defs.{Ret, done, err}
use lcore.Fs.Bitmap.{Bitmap, bitmap_alloc, bitmap_test, bitmap_free, bitmap_translate}
use lcore.Fs.Bitmap.Laws.{is_free, IsBitmap, DiffersAt, Allocated, bitmap_alloc-Allocated}
use lcore.Fs.Bitmap.Free.{Freed, bitmap_free-Freed}
use lcore.Sfs.Defs.{Bytes, sfs_blksize, DeviceOps, Sfs, IsDevice}
use lcore.Sfs.Io.{sfs_clear_block}
use lcore.Sfs.Io.Laws.{SameFs, Unchanged, WritesTo, sfs_clear_block-WritesTo}
use lcore.Sfs.Bmap.{sfs_block_inuse, sfs_block_alloc, sfs_block_free}

-- How many indices below `n` are free.
unfoldable pub count_free : ℕ → Bitmap → ℕ
count_free zero b = 0
count_free (suc n) b = count_free n b + (if is_free b n then 1 else 0)

module _ (b c : Bitmap) where
  count_free_same :
      (n : ℕ) → ((j : ℕ) → j < n → is_free c j ≡ is_free b j) → count_free n c ≡ count_free n b
  unfolding count_free
  count_free_same zero h = refl
  count_free_same (suc n) h = ground (arith, count_free_same n (λ j l. h j (omega (arith, l))), h n)

  pub count_free-taken :
      (i n : ℕ) → DiffersAt i b c → is_free b i ≡ true → i < n → count_free n c + 1 ≡ count_free n b
  unfolding count_free
  count_free-taken i (suc n) d f h = elim (dec_lt i n) [
    | yes l ↦ ground (arith, count_free-taken i n d f l, d.2 n)
    | no m ↦
        let same : i ≡ n = omega (arith, h, m) in
        let before = count_free_same n (λ j l. ground (arith, d.2 j)) in
        ground (arith, before, d.2 n, same)
  ]
  count_free-taken i zero d f h = absurd (omega (arith, h))

pub count_free-le : (n : ℕ) (b : Bitmap) → count_free n b ≤ n
unfolding count_free
count_free-le zero b = omega arith
count_free-le (suc n) b = ground (arith, count_free-le n b)

-- The super block and the bitmap agree: the bitmap covers the blocks, those beyond the last and
-- the first are not free, and the super block counts the free ones.
pub record IsSfs {W : Type 0} (s : Sfs W) : Type 0 where
  pub bits : IsBitmap s.freemap
  pub covers : s.blocks ≤ s.freemap.nbits
  pub few : s.freemap.nbits < 2 ^ 32
  pub small : s.blocks * sfs_blksize ≤ 2 ^ 31
  pub beyond : (i : ℕ) → s.blocks ≤ i → i < s.freemap.nbits → is_free s.freemap i ≡ false
  pub first : is_free s.freemap 0 ≡ false
  pub counted : s.unused_blocks ≡ count_free s.freemap.nbits s.freemap

module _ {W : Type 0} (content : W → ℕ → Bytes) where
  -- A block that is in use.
  abbrev pub IsUsed : ℕ → Sfs W → Type 0
  IsUsed b s = (b ≢ 0) × (b < s.blocks) × (is_free s.freemap b ≡ false)

  -- The file system is sound still, and what was in use is in use and holds what it held.
  abbrev pub Grows : (s t : Sfs W) → Type 0
  Grows s t =
      IsSfs t
      × (t.blocks ≡ s.blocks)
      × ((b : ℕ) → is_free s.freemap b ≡ false → is_free t.freemap b ≡ false)
      × ((b k : ℕ) → is_free s.freemap b ≡ false → content t.dev b k ≡ content s.dev b k)

  pub Grows-refl : (s : Sfs W) → IsSfs s → Grows s s
  Grows-refl s v = (v, refl, λ b e. e, λ b k e. refl)

  pub Grows-trans : (s t u : Sfs W) → Grows s t → Grows t u → Grows s u
  Grows-trans s t u g h =
      (h.0, h.1 ∙ g.1, λ b e. h.2 b (g.2 b e), λ b k e. h.3 b k (g.2 b e) ∙ g.3 b k e)

  pub Unchanged-IsSfs : (s t : Sfs W) → SameFs content s t → IsSfs s → IsSfs t
  Unchanged-IsSfs s t same v =
      let m : t.freemap ≡ s.freemap = same.2 in
      record {
        bits = subst IsBitmap (sym m) v.bits;
        covers = rw (same.0, m) v.covers;
        few = rw m v.few;
        small = rw same.0 v.small;
        beyond = rw (same.0, m) v.beyond;
        first = rw m v.first;
        counted = rw (same.1, m) v.counted;
      }

  pub Unchanged-Grows : (s t : Sfs W) → Unchanged content s t → IsSfs s → Grows s t
  Unchanged-Grows s t u v = (Unchanged-IsSfs s t u.0 v, u.0.0, λ b e. rw u.0.2 e, λ b k e. u.1 b k)

  -- What an allocation leaves: a block that was free, filled with zeros, or an error.
  abbrev pub BlockAlloc : Sfs W → Ret ℕ × Sfs W → Type 0
  BlockAlloc s (err e, t) = Grows s t
  BlockAlloc s (done b, t) =
      Grows s t
      × (is_free s.freemap b ≡ true)
      × IsUsed b t
      × ((k : ℕ) → k < sfs_blksize → content t.dev b k ≡ 0)

  -- What a release leaves.
  abbrev pub BlockFree : (b : ℕ) (s t : Sfs W) → Type 0
  BlockFree b s t =
      IsSfs t
      × (t.blocks ≡ s.blocks)
      × (t.dev ≡ s.dev)
      × ((j : ℕ) → is_free t.freemap j ≡ (if j == b then true else is_free s.freemap j))

  pub Grows-IsUsed : (s t : Sfs W) → Grows s t → (b : ℕ) → IsUsed b s → IsUsed b t
  Grows-IsUsed s t g b u = (u.0, rw g.1 u.1, g.2 b u.2)

  -- A release of what was not in use before.
  pub BlockFree-Grows :
      (o s t : Sfs W) (b : ℕ) → Grows o s → is_free o.freemap b ≡ true → BlockFree b s t → Grows o t
  BlockFree-Grows o s t b g f r = (
    r.0,
    r.1 ∙ g.1,
    λ c e. ground (arith, r.3 c, g.2 c e, f),
    λ c k e. subst (λ w. content w c k ≡ content o.dev c k) (sym r.2) (g.3 c k e),
  )

  pub Grows-fresh :
      (s t : Sfs W) (b : ℕ) → Grows s t → is_free t.freemap b ≡ true → is_free s.freemap b ≡ true
  Grows-fresh s t b g f = elim (Bool-cases (is_free s.freemap b)) [
    | inl e ↦ e
    | inr e ↦ ground (arith, g.2 b e, f)
  ]

module _ {W : Type 0} {ops : DeviceOps W} {content : W → ℕ → Bytes} (d : IsDevice ops content) where
  pub sfs_block_inuse-used :
      (b : ℕ) (s : Sfs W) → IsSfs s → IsUsed content b s → sfs_block_inuse ops b s ≡ ok true
  unfolding sfs_block_inuse bitmap_test bitmap_translate
  sfs_block_inuse-used b s v u =
      let named : (b == 0) ≡ false = ground (arith, u.0) in
      let inside : ltb b s.blocks ≡ true = ground (arith, u.1) in
      let covered : ltb b s.freemap.nbits ≡ true = ground (arith, v.covers, u.1) in
      rw (named, inside, covered, u.2) refl

  pub sfs_block_free-BlockFree :
      (b : ℕ) (s : Sfs W)
      → IsSfs s
      → IsUsed content b s
      → Returns (BlockFree content b s) (sfs_block_free ops b s)
  unfolding sfs_block_free
  sfs_block_free-BlockFree b s v u =
      let inside : b < s.freemap.nbits = omega (arith, v.covers, u.1) in
      rw (sfs_block_inuse-used b s v u) (
        Returns-bind (Freed b s.freemap) (BlockFree content b s) (bitmap_free b s.freemap) _
          (bitmap_free-Freed b s.freemap v.bits inside u.2)
          λ m f.
            let f' : (j : ℕ) → is_free m j ≡ (if j == b then true else is_free s.freemap j) =
              λ j. ground (arith, f.0.2 j, u.2) in
            let back : DiffersAt b m s.freemap =
              (sym f.0.0, sym f.0.1, λ j. ground (arith, f.0.2 j)) in
            let count = count_free-taken m s.freemap b s.freemap.nbits back f.1 inside in
            let le = count_free-le s.freemap.nbits m in
            (
              record {
                bits = f.2;
                covers = rw f.0.0 v.covers;
                few = rw f.0.0 v.few;
                small = v.small;
                beyond = λ i l k. ground (arith, f' i, u.1, v.beyond i l, f.0.0);
                first = ground (arith, f' 0, u.0, v.first);
                counted =
                    subst (λ n. (s.unused_blocks + 1) % 2 ^ 32 ≡ count_free n m) (sym f.0.0)
                      (omega (arith, count, le, v.counted, v.few));
              },
              refl,
              refl,
              f',
            ))
