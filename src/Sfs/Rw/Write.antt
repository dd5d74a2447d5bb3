-- ===== src/Sfs/Rw/Write.antt =====
-- kern/fs/sfs/sfs_inode.c: `sfs_io_nolock` of a write.
use lcore.Base.{
  ℕ, ◌+◌, ◌-◌, ◌*◌, ◌%◌, ◌^◌, ◌≤◌, ◌<◌, ◌≡◌, ◌≢◌, refl, true, false, not, ◌||◌, ◌&&◌, leb, ltb,
  ◌==◌, if◌then◌else◌, arith, sym, Bool-cases, inl, inr, subst, Returns, Returns-bind,
}
use lcore.Fs.Defs.{Ret, done, err}
use lcore.Sfs.Defs.{
  Bytes, sfs_blksize, copy_to, sfs_max_file_size, sfs_type_dir, SfsInode, DeviceOps, Sfs, IsDevice,
}
use lcore.Sfs.Io.{sfs_wbuf, sfs_wblock}
use lcore.Sfs.Io.Laws.{
  IsBlock, Wrote, WritesTo, BlockStored, sfs_wbuf-WritesTo, sfs_wblock-WritesTo,
}
use lcore.Sfs.Map.{max_blocks, block_of, IsSound, Others}
use lcore.Sfs.File.Resize.{WhenDone, Others-refl}
use lcore.Sfs.File.Trunc.{IsFitting}
use lcore.Sfs.Rw.{sfs_buf_op, sfs_block_op, move_range, finish, end_of, sfs_io_nolock}
use lcore.Sfs.Rw.Run.{IsOne, IsRun, Ran, move_range-Ran}
use lcore.Sfs.Rw.Stored.{byte_at, expected, Stored, Loaded-Stored, Wrote-Stored, Unchanged-Stored}

module _ {W : Type 0} {ops : DeviceOps W} {content : W → ℕ → Bytes} (d : IsDevice ops content)
    (lo : ℕ) (buf : Bytes) (sin : SfsInode) (s : Sfs W) where
  -- The bytes done are in the file.
  abbrev Inv : ℕ → Bytes → SfsInode → Sfs W → Type 0
  Inv alen buf1 sin1 t = Stored content lo buf sin s (lo + alen) buf1 sin1 t

  module _ (alen : ℕ) (buf1 : Bytes) (sin1 : SfsInode) (t : Sfs W)
      (g : Stored content lo buf sin s (lo + alen) buf1 sin1 t) (blkno off size : ℕ)
      (at : lo + alen ≡ blkno * 4096 + off) (fits : off + size ≤ 4096) (low : off < 4096) where
    WritesTo-IsOne :
        (ino : ℕ)
        → block_of (content t.dev) sin1.din blkno ≡ ino
        → blkno < sin1.din.blocks
        → (r : Ret (Unit {0})) (u : Sfs W)
        → WritesTo content ino off size (λ k. buf1 (alen + k)) t (r, u)
        → (buf2 : Bytes) → ((k : ℕ) → buf2 k ≡ buf1 k)
        → IsOne content Inv alen size sin1 (r, buf2, u)
    WritesTo-IsOne ino e within (err x) u w buf2 same =
        Unchanged-Stored d lo buf sin s (lo + alen) (omega arith) buf1 sin1 t g u w buf2 same
    WritesTo-IsOne ino e within (done _) u w buf2 same =
        let back : lo + alen - lo ≡ alen = omega arith in
        let next : lo + alen + size ≡ lo + (alen + size) = omega arith in
        let w1 : Wrote content (block_of (content t.dev) sin1.din blkno) off size
            (λ k. buf1 (alen + k)) t u =
          subst (λ b. Wrote content b off size (λ k. buf1 (alen + k)) t u) (sym e) w in
        let w2 : Wrote content (block_of (content t.dev) sin1.din blkno) off size
            (λ k. buf1 (lo + alen - lo + k)) t u =
          subst
            (λ n.
              Wrote content (block_of (content t.dev) sin1.din blkno) off size (λ k. buf1 (n + k)) t
                u)
            (sym back) w1 in
        subst (λ n. Stored content lo buf sin s n buf2 sin1 u) next
          (Wrote-Stored d lo buf sin s (lo + alen) (omega arith) buf1 sin1 t g blkno off size u
            within at fits w2 buf2 same)

    buf_op-IsOne :
        (ino : ℕ)
        → block_of (content t.dev) sin1.din blkno ≡ ino
        → blkno < sin1.din.blocks
        → Returns
            (λ r. IsOne content Inv alen size sin1 r)
            (sfs_buf_op ops true alen buf1 size ino off t)
    unfolding sfs_buf_op
    buf_op-IsOne ino e within =
        let u =
          subst (λ b. (b ≢ 0) × (b < t.blocks)) e
            ((g.0.1.mapped blkno within).0, (g.0.1.mapped blkno within).1) in
        Returns-bind (WritesTo content ino off size (λ k. buf1 (alen + k)) t)
          (λ r. IsOne content Inv alen size sin1 r)
          (sfs_wbuf ops (λ k. buf1 (alen + k)) size ino off t) _
          (sfs_wbuf-WritesTo d ino t (u.0, u.1, g.0.0.small) (λ k. buf1 (alen + k)) size off low
            fits)
          λ r w. WritesTo-IsOne ino e within r.0 r.1 w buf1 (λ k. refl)

    block_op-IsOne :
        (ino : ℕ)
        → block_of (content t.dev) sin1.din blkno ≡ ino
        → blkno < sin1.din.blocks
        → off ≡ 0
        → size ≡ 4096
        → Returns (λ r. IsOne content Inv alen size sin1 r) (sfs_block_op ops true alen buf1 ino t)
    unfolding sfs_block_op
    block_op-IsOne ino e within none whole =
        let u =
          subst (λ b. (b ≢ 0) × (b < t.blocks)) e
            ((g.0.1.mapped blkno within).0, (g.0.1.mapped blkno within).1) in
        let h : IsBlock content ino t = (u.0, u.1, g.0.0.small) in
        Returns-bind (BlockStored d ino t h (λ k. buf1 (alen + k)))
          (λ r. IsOne content Inv alen size sin1 r) (sfs_wblock ops (λ k. buf1 (alen + k)) ino 1 t)
          _ (sfs_wblock-WritesTo d ino t h (λ k. buf1 (alen + k)))
          λ r w.
            WritesTo-IsOne ino e within r.0 r.2
              (subst (λ z. WritesTo content ino z size (λ k. buf1 (alen + k)) t (r.0, r.2))
                (sym none)
                (subst (λ z. WritesTo content ino 0 z (λ k. buf1 (alen + k)) t (r.0, r.2))
                  (sym whole) w.0))
              (copy_to alen sfs_blksize r.1 buf1) λ k. ground (arith, w.1 (k - alen))

  write-IsRun : (limit : ℕ) → IsRun d true lo limit Inv
  write-IsRun limit = record {
    sound = λ alen buf1 sin1 t g. g.0;
    covered = λ alen buf1 sin1 t g. g.4;
    loaded = λ alen buf1 sin1 t g blkno h l r sin2 u q.
        Loaded-Stored d lo buf sin s (lo + alen) (omega arith) buf1 sin1 t g blkno r sin2 u q;
    part = λ alen buf1 sin1 t g blkno off size at fits low most ino e h.
        buf_op-IsOne alen buf1 sin1 t g blkno off size at fits low ino e h;
    whole = λ alen buf1 sin1 t g blkno at most ino e h.
        block_op-IsOne alen buf1 sin1 t g blkno 0 4096 (omega (arith, at)) (omega arith)
          (omega arith) ino e h refl refl;
  }

  abbrev MovedTo : ℕ → Ret (Unit {0}) × ℕ × Bytes × SfsInode × Sfs W → Type 0
  MovedTo goal r = Ran d true lo goal Inv (write-IsRun goal) goal r

  -- Before the first byte.
  start :
      IsSound content sin.din s
      → lo ≤ sin.din.blocks * 4096
      → Stored content lo buf sin s (lo + 0) buf sin s
  start v inside = (
    v,
    Others-refl content sin.din s,
    refl,
    omega arith,
    omega (arith, inside),
    λ k. refl,
    λ p h.
        let first : (leb lo p && ltb p (lo + 0)) ≡ false = ground arith in
        let old : ltb p (sin.din.blocks * 4096) ≡ true = ground (arith, h) in rw (first, old) refl,
  )

  -- What a write of `len` bytes leaves: `alen` of them are in the file, all if there is no error;
  -- the other bytes are kept, and new blocks hold zeros.
  abbrev pub Written : (len : ℕ) → Ret (Unit {0}) × ℕ × Bytes × SfsInode × Sfs W → Type 0
  Written len (r, alen, buf', sin', t) =
      IsSound content sin'.din t
      × Others content sin.din s sin'.din t
      × (sin'.din.size ≡ (if ltb sin.din.size (lo + alen) then lo + alen else sin.din.size))
      × (lo + alen ≤ sin'.din.blocks * 4096)
      × ((p : ℕ)
          → p < sin'.din.blocks * 4096
          → byte_at (content t.dev) sin'.din p ≡ expected content lo buf sin s (lo + alen) p)
      × (alen ≤ len)
      × WhenDone content r (alen ≡ len)

  all :
      (len : ℕ) (r : Ret (Unit {0})) (alen : ℕ) (buf' : Bytes) (sin' : SfsInode) (t : Sfs W)
      → MovedTo (lo + len) (r, alen, buf', sin', t)
      → WhenDone content r (alen ≡ len)
  all len (err e) alen buf' sin' t w = tt
  all len (done _) alen buf' sin' t w = omega (arith, w.2)

  -- For a sound file of a sound file system that is not a directory and has the blocks that its
  -- size needs, over a device that either moves a block or refuses, a write at a position up to
  -- the size, with its end within the 1036 blocks that an inode can hold, returns: the bytes that
  -- sfs_io_nolock says it has done are in the file, all of them if there is no error, the other
  -- bytes and the blocks of others are kept, and the size is the larger of the old one and the end
  -- of what was written.
  pub sfs_io_nolock-Written :
      (len : ℕ)
      → IsSound content sin.din s
      → sin.din.type ≢ sfs_type_dir
      → IsFitting sin.din
      → lo ≤ sin.din.size
      → lo + len ≤ max_blocks * 4096
      → Returns (Written len) (sfs_io_nolock ops true buf lo len sin s)
  unfolding sfs_io_nolock
  sfs_io_nolock-Written len v file fits at range =
      let inside : lo ≤ sin.din.blocks * 4096 = omega (arith, fits, at) in
      let kind : (sin.din.type == sfs_type_dir) ≡ false = ground (arith, file) in
      let end : (lo + len) % 2 ^ 32 ≡ lo + len = omega (arith, range) in
      let valid : (not (ltb lo (2 ^ 31))
            || not (ltb lo sfs_max_file_size)
            || not (ltb (lo + len) (2 ^ 31))
            || ltb (lo + len) lo)
          ≡ false =
        ground (arith, range) in
      let capped : end_of ops true (lo + len) sin.din.size ≡ lo + len = ground (arith, range) in
      elim (Bool-cases (lo == lo + len)) [
        | inl e ↦
            rw (kind, end, valid, e)
              (let none : 0 ≡ len = ground (arith, e) in
                let g = start v inside in
                let old : ltb sin.din.size (lo + 0) ≡ false = ground (arith, at) in
                (g.0, g.1, rw old refl, g.4, g.6, omega arith, none))
        | inr e ↦
            rw (kind, end, valid, e, capped)
              (Returns-bind (MovedTo (lo + len)) (Written len)
                (move_range ops true lo (lo + len) buf sin s) _
                (move_range-Ran d true lo (lo + len) Inv (write-IsRun (lo + len)) (lo + len) buf sin
                  s (start v inside) (ground (arith, e)) range (omega arith))
                after)
      ]
    where
      after :
          (r : Ret (Unit {0}) × ℕ × Bytes × SfsInode × Sfs W)
          → MovedTo (lo + len) r
          → Returns (Written len) (finish ops true lo r)
      after (r, alen, buf', sin', t) w = elim (Bool-cases (ltb sin'.din.size (lo + alen))) [
        | inl e ↦
            let old : ltb sin.din.size (lo + alen) ≡ true = ground (arith, e, w.0.2) in
            rw (e, old)
              (w.0.0, w.0.1, refl, w.0.4, w.0.6, omega (arith, w.1), all len r alen buf' sin' t w)
        | inr e ↦
            let old : ltb sin.din.size (lo + alen) ≡ false = ground (arith, e, w.0.2) in
            rw (e, old)
              (w.0.0, w.0.1, w.0.2, w.0.4, w.0.6, omega (arith, w.1), all len r alen buf' sin' t w)
      ]
