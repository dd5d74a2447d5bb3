-- ===== src/Sfs/Load.antt =====
-- kern/fs/sfs/sfs_inode.c: `sfs_bmap_load_nolock`.
use lcore.Base.{
  ℕ, ◌+◌, ◌%◌, ◌^◌, ◌≤◌, ◌<◌, ◌≡◌, refl, true, false, ◌∙◌, leb, ◌==◌, if◌then◌else◌, arith, sym,
  Returns, Returns-bind, ok, ◌>>=◌, ◌>>◌, assert, subst, ℕ_discrete,
}
use lcore.Fs.Defs.{Ret, done, err}
use lcore.Fs.Bitmap.Laws.{is_free}
use lcore.Sfs.Defs.{Bytes, sfs_blksize, SfsInode, DeviceOps, Sfs, IsDevice}
use lcore.Sfs.Bmap.{sfs_block_inuse, sfs_bmap_get_nolock, sfs_bmap_load_nolock}
use lcore.Sfs.Block.{IsUsed, Grows, Grows-IsUsed, sfs_block_inuse-used}
use lcore.Sfs.Map.{max_blocks, block_of, IsMap, Extends, IsSound}
use lcore.Sfs.Grown.{block_of-kept}
use lcore.Sfs.Get.{Grows-IsSound, Grows-Extends, GetFound, GetAlloc, get_found, get_alloc}

module _ {W : Type 0} {ops : DeviceOps W} {content : W → ℕ → Bytes} (d : IsDevice ops content)
    (sin : SfsInode) (s : Sfs W) (v : IsSound content sin.din s) where
  -- What a load leaves.
  abbrev pub Loaded : ℕ → Ret ℕ × SfsInode × Sfs W → Type 0
  Loaded index (err e, sin', t) = (sin' ≡ sin) × Grows content s t
  Loaded index (done ino, sin', t) =
      IsSound content sin'.din t
      × Extends content sin.din s sin'.din t
      × (sin'.din.size ≡ sin.din.size)
      × (sin'.din.blocks ≡ (if index == sin.din.blocks then index + 1 else sin.din.blocks))
      × (block_of (content t.dev) sin'.din index ≡ ino)
      × (index ≡ sin.din.blocks
          → (is_free s.freemap ino ≡ true) × ((k : ℕ) → k < sfs_blksize → content t.dev ino k ≡ 0))

  abbrev counted_up : SfsInode → SfsInode
  counted_up sin1 = record sin1 {
    din = record sin1.din { blocks = (sin1.din.blocks + 1) % 2 ^ 32 };
  }

  load_new :
      sin.din.blocks < max_blocks
      → Returns (Loaded sin.din.blocks) (sfs_bmap_load_nolock ops sin.din.blocks sin s)
  unfolding sfs_bmap_load_nolock
  load_new l =
      let n = sin.din.blocks in
      let range : leb n n ≡ true = ground arith in
      let e : (n == n) ≡ true = ground arith in
      rw (range, e)
        (Returns-bind (GetAlloc d sin s v) (Loaded n) (sfs_bmap_get_nolock ops n true sin s) _
          (get_alloc d sin s v l) after)
    where
      after :
          (r : Ret ℕ × SfsInode × Sfs W)
          → GetAlloc d sin s v r
          → Returns (Loaded sin.din.blocks) (elim r.0 [
            | err x ↦ ok (err x, r.1, r.2)
            | done ino ↦ sfs_block_inuse ops ino r.2 >>= λ used.
                assert used
                >> ok (
                  done ino,
                  (if sin.din.blocks == sin.din.blocks then counted_up r.1 else r.1),
                  r.2,
                )
          ])
      after (err x, sin1, t) g = g
      after (done ino, sin1, t) g =
          let n = sin.din.blocks in
          let grown = g.2 in
          let next : (sin1.din.blocks + 1) % 2 ^ 32 ≡ n + 1 = omega (arith, g.0, l) in
          let map' =
            subst (λ k. IsMap content t (block_of (content t.dev) sin1.din) k sin1.din.indirect)
              (sym next) grown.1 in
          let same : (n == n) ≡ true = ground arith in
          let extends : Extends content sin.din s (counted_up sin1).din t =
            (grown.3.0, omega (arith, next), grown.3.2, grown.3.3) in
          rw (sfs_block_inuse-used d ino t grown.0 grown.5, same)
            ((grown.0, map'), extends, g.1, next, grown.2, λ _. (grown.4, grown.6))

  load_old :
      (index : ℕ)
      → index < sin.din.blocks
      → Returns (Loaded index) (sfs_bmap_load_nolock ops index sin s)
  unfolding sfs_bmap_load_nolock
  load_old index h =
      let range : leb index sin.din.blocks ≡ true = ground (arith, h) in
      let e : (index == sin.din.blocks) ≡ false = ground (arith, h) in
      rw (range, e)
        (Returns-bind (GetFound d sin s v index) (Loaded index)
          (sfs_bmap_get_nolock ops index false sin s) _ (get_found d sin s v index h) after)
    where
      after :
          (r : Ret ℕ × SfsInode × Sfs W)
          → GetFound d sin s v index r
          → Returns (Loaded index) (elim r.0 [
            | err x ↦ ok (err x, r.1, r.2)
            | done ino ↦ sfs_block_inuse ops ino r.2 >>= λ used.
                assert used
                >> ok (done ino, (if index == sin.din.blocks then counted_up r.1 else r.1), r.2)
          ])
      after (err x, sin1, t) g = g
      after (done ino, sin1, t) g =
          let u : IsUsed content ino t =
            Grows-IsUsed content s t g.2 ino
              (subst (λ b. IsUsed content b s) (sym g.1) (v.1.mapped index h)) in
          let differs : (index == sin.din.blocks) ≡ false = ground (arith, h) in
          let kept =
            block_of-kept content sin.din s t v.1 g.2 index (omega (arith, h, v.1.bounded)) in
          let loaded : Loaded index (done ino, sin1, t) =
            subst (λ x. Loaded index (done ino, x, t)) (sym g.0)
              (
                Grows-IsSound content sin.din s t v g.2,
                Grows-Extends content sin.din s t v g.2,
                refl,
                rw differs refl,
                kept ∙ sym g.1,
                λ q. absurd (ground (arith, q, h)),
              ) in
          rw (sfs_block_inuse-used d ino t g.2.0 u) (
            subst (λ b. Loaded index (done ino, (if b then counted_up sin1 else sin1), t))
              (sym differs) loaded)

  -- For a sound file, sfs_bmap_load_nolock of an index up to the number of blocks and below 1036
  -- returns: on an error the inode is unchanged and every block in use is kept; else it answers
  -- the block at that index, file and file system are sound, and a new block was free and is
  -- filled with zeros.
  pub sfs_bmap_load_nolock-Loaded :
      (index : ℕ)
      → index ≤ sin.din.blocks
      → index < max_blocks
      → Returns (Loaded index) (sfs_bmap_load_nolock ops index sin s)
  sfs_bmap_load_nolock-Loaded index h l = elim (ℕ_discrete index sin.din.blocks) [
    | yes e ↦
        subst (λ i. Returns (Loaded i) (sfs_bmap_load_nolock ops i sin s)) (sym e)
          (load_new (omega (arith, e, l)))
    | no n ↦ load_old index (omega (arith, h, n))
  ]
