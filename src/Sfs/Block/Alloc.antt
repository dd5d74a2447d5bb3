-- ===== src/Sfs/Block/Alloc.antt =====
-- kern/fs/sfs/sfs_inode.c: allocation of blocks.
use lcore.Base.{
  ℕ, ◌-◌, ◌<◌, ◌≡◌, ◌≢◌, refl, true, false, ok, ◌>>=◌, ◌>>◌, assert, ltb, Returns, Returns-bind,
  arith, ◌∙◌, sym, subst,
}
use lcore.Fs.Defs.{Ret, done, err}
use lcore.Fs.Bitmap.{Bitmap, bitmap_alloc}
use lcore.Fs.Bitmap.Laws.{is_free, DiffersAt, Allocated, bitmap_alloc-Allocated}
use lcore.Sfs.Defs.{Bytes, sfs_blksize, DeviceOps, Sfs, IsDevice}
use lcore.Sfs.Io.{sfs_clear_block}
use lcore.Sfs.Io.Laws.{Unchanged, WritesTo, sfs_clear_block-WritesTo}
use lcore.Sfs.Bmap.{sfs_block_inuse, sfs_block_alloc}
use lcore.Sfs.Block.{
  count_free, count_free-taken, IsSfs, IsUsed, Grows, Unchanged-IsSfs, Unchanged-Grows, BlockAlloc,
  sfs_block_inuse-used,
}

module _ {W : Type 0} {ops : DeviceOps W} {content : W → ℕ → Bytes} (d : IsDevice ops content) where
  -- On a sound file system sfs_block_alloc returns, and the file system is sound still, with the
  -- count of free blocks right, and every block in use kept; without an error the block was free,
  -- is within the file system and not that of the super block, is in use now and holds zeros.
  pub sfs_block_alloc-BlockAlloc :
      (s : Sfs W) → IsSfs s → Returns (BlockAlloc content s) (sfs_block_alloc ops s)
  unfolding sfs_block_alloc
  sfs_block_alloc-BlockAlloc s v =
      Returns-bind (Allocated s.freemap) (BlockAlloc content s) (bitmap_alloc s.freemap) _
        (bitmap_alloc-Allocated s.freemap v.bits) λ r a. found r.0 r.1 a
    where
      cleared :
          (b : ℕ) (t : Sfs W)
          → IsSfs t
          → t.blocks ≡ s.blocks
          → IsUsed content b t
          → is_free s.freemap b ≡ true
          → ((j : ℕ) → is_free s.freemap j ≡ false → is_free t.freemap j ≡ false)
          → t.dev ≡ s.dev
          → (r : Ret (Unit {0}) × Sfs W) → WritesTo content b 0 sfs_blksize (λ k. 0) t r
          → Returns
              (BlockAlloc content s)
              (elim r.0 [ done _ ↦ ok (done b, r.1) | err e ↦ ok (err e, r.1) ])
      cleared b t v' same u f kept dev (done _, t') w =
          let grown : Grows content s t' = (
            Unchanged-IsSfs content t t' w.0 v',
            w.0.0 ∙ same,
            λ j e. rw w.0.2 (kept j e),
            λ j k e. ground (arith, w.1 j k, dev),
          ) in
          (grown, f, (u.0, rw w.0.0 u.1, rw w.0.2 u.2), λ k l. ground (arith, w.2 k l))
      cleared b t v' same u f kept dev (err e, t') w = (
        Unchanged-IsSfs content t t' w.0 v',
        w.0.0 ∙ same,
        λ j e. rw w.0.2 (kept j e),
        λ j k e. w.1 j k ∙ rw dev refl,
      )

      found :
          (r : Ret ℕ) (m : Bitmap)
          → Allocated s.freemap (r, m)
          → Returns (BlockAlloc content s) (elim r [
            | err e ↦ ok (err e, record s { freemap = m })
            | done b ↦
                assert (ltb 0 s.unused_blocks)
                >> (let t = record s {
                  freemap = m;
                  unused_blocks = s.unused_blocks - 1;
                  super_dirty = true;
                } in
                    sfs_block_inuse ops b t >>= λ used.
                    assert used
                    >> (sfs_clear_block ops b 1 t >>= λ (q, u). elim q [
                      | done _ ↦ ok (done b, u)
                      | err e ↦ ok (err e, u)
                    ]))
          ])
      found (err e) m a =
          let unchanged : Unchanged content s (record s { freemap = m }) =
            ((refl, refl, a.1), λ c k. refl) in
          Unchanged-Grows content s (record s { freemap = m }) unchanged v
      found (done b) m a =
          let diff : DiffersAt b s.freemap m = a.3 in
          let t : Sfs W = record s {
            freemap = m;
            unused_blocks = s.unused_blocks - 1;
            super_dirty = true;
          } in
          let count = count_free-taken s.freemap m b s.freemap.nbits diff a.1 a.0 in
          let named : b ≢ 0 = λ e. ground (arith, v.first, a.1, e) in
          let inside : b < s.blocks = ground (arith, v.beyond b, a.1, a.0) in
          let left : ltb 0 s.unused_blocks ≡ true = ground (arith, v.counted, count) in
          let now : is_free m b ≡ false = ground (arith, diff.2 b, a.1) in
          let kept : (j : ℕ) → is_free s.freemap j ≡ false → is_free m j ≡ false =
            λ j e. ground (arith, diff.2 j, a.1, e) in
          let sound : IsSfs t = record {
            bits = a.4;
            covers = rw diff.0 v.covers;
            few = rw diff.0 v.few;
            small = v.small;
            beyond = λ i l k. kept i (v.beyond i l (omega (arith, k, diff.0)));
            first = kept 0 v.first;
            counted =
                subst (λ n. s.unused_blocks - 1 ≡ count_free n m) (sym diff.0)
                  (omega (arith, count, v.counted));
          } in
          let used : IsUsed content b t = (named, inside, now) in
          rw (left, sfs_block_inuse-used d b t sound used)
            (Returns-bind (WritesTo content b 0 sfs_blksize (λ k. 0) t) (BlockAlloc content s)
              (sfs_clear_block ops b 1 t) _
              (sfs_clear_block-WritesTo d b t (named, inside, v.small))
              (cleared b t sound refl used a.1 kept refl))
