-- ===== src/Sfs/Rw/Read.antt =====
-- kern/fs/sfs/sfs_inode.c: `sfs_io_nolock` of a read.
use lcore.Base.{
  ℕ, ◌+◌, ◌-◌, ◌*◌, ◌/◌, ◌%◌, ◌^◌, ◌≤◌, ◌<◌, ◌≡◌, ◌≢◌, refl, true, false, not, ◌||◌, ◌&&◌, leb, ltb,
  ◌==◌, ◌∙◌, ap, arith, sym, Bool-cases, inl, inr, subst, dec_lt, Returns, Returns-bind, min,
}
use lcore.Fs.Defs.{Ret, done, err}
use lcore.Sfs.Defs.{
  Bytes, sfs_blksize, copy_to, sfs_max_file_size, sfs_type_dir, SfsInode, DeviceOps, Sfs, IsDevice,
}
use lcore.Sfs.Io.{sfs_rbuf, sfs_rblock}
use lcore.Sfs.Io.Laws.{Unchanged, ReadsTo, sfs_rbuf-ReadsTo, sfs_rblock-ReadsTo}
use lcore.Sfs.Block.{Unchanged-Grows}
use lcore.Sfs.Map.{max_blocks, block_of, IsSound}
use lcore.Sfs.Load.{Loaded}
use lcore.Sfs.Get.{Grows-IsSound, Grows-Extends}
use lcore.Sfs.File.Resize.{
  Resized, Resized-trans, Loaded-Resized, WhenDone, Kept-refl, Others-refl, Extends-Kept,
  Grows-Others,
}
use lcore.Sfs.File.Trunc.{IsFitting}
use lcore.Sfs.Rw.{sfs_buf_op, sfs_block_op, move_range, finish, end_of, sfs_io_nolock}
use lcore.Sfs.Rw.Run.{IsOne, IsRun, Ran, move_range-Ran}
use lcore.Sfs.Rw.Stored.{byte_at}

module _ {W : Type 0} {ops : DeviceOps W} {content : W → ℕ → Bytes} (d : IsDevice ops content)
    (lo : ℕ) (sin : SfsInode) (s : Sfs W) where
  -- The file is as it was, and the buffer begins with `alen` bytes of it.
  abbrev Fetched : ℕ → Bytes → SfsInode → Sfs W → Type 0
  Fetched alen buf sin1 t =
      Resized content sin.din.blocks sin s sin1 t
      × (sin1.din.size ≡ sin.din.size)
      × (sin1.din.blocks ≡ sin.din.blocks)
      × (lo + alen ≤ sin.din.blocks * 4096)
      × ((k : ℕ) → k < alen → buf k ≡ byte_at (content s.dev) sin.din (lo + k))

  module _ (limit : ℕ) (inside : limit ≤ sin.din.blocks * 4096) (alen : ℕ) (buf : Bytes)
      (sin1 : SfsInode) (t : Sfs W) (g : Fetched alen buf sin1 t) where
    Loaded-Fetched :
        (blkno : ℕ)
        → blkno * 4096 ≤ lo + alen
        → lo + alen < limit
        → (r : Ret ℕ) (sin2 : SfsInode) (u : Sfs W) → Loaded d sin1 t g.0.0 blkno (r, sin2, u)
        → Fetched alen buf sin2 u
    Loaded-Fetched blkno h l r sin2 u q =
        let x = Loaded-Resized d sin1 t g.0.0 blkno r sin2 u q in
        (
          Resized-trans d sin s sin.din.blocks sin1 t sin2 u g.0
              (x.0.0, (λ i m. x.0.1 i (omega (arith, m, g.2))), x.0.2),
          x.1 ∙ g.1,
          same r q ∙ g.2,
          g.3,
          g.4,
        )
      where
        same :
            (r : Ret ℕ)
            → Loaded d sin1 t g.0.0 blkno (r, sin2, u)
            → sin2.din.blocks ≡ sin1.din.blocks
        same (err e) q = ap (λ y. y.din.blocks) q.0
        same (done ino) q =
            let before : blkno < sin1.din.blocks = omega (arith, h, l, inside, g.2) in
            ground (arith, q.3, before)

    frame : (u : Sfs W) → Unchanged content t u → Resized content sin.din.blocks sin s sin1 u
    frame u w =
        let grown = Unchanged-Grows content t u w g.0.0.0 in
        let kept =
          Extends-Kept content sin1.din t sin1.din u g.0.0
            (Grows-Extends content sin1.din t u g.0.0 grown) in
        Resized-trans d sin s sin.din.blocks sin1 t sin1 u g.0 (
          Grows-IsSound content sin1.din t u g.0.0 grown,
          (λ i m. kept i (omega (arith, m, g.2))),
          Grows-Others content sin1.din t u g.0.0 grown,
        )

    module _ (blkno off size : ℕ) (at : lo + alen ≡ blkno * 4096 + off) (fits : off + size ≤ 4096)
        (low : off < 4096) (most : lo + (alen + size) ≤ limit) (ino : ℕ)
        (e : block_of (content t.dev) sin1.din blkno ≡ ino) (h : blkno < sin1.din.blocks) where
      ReadsTo-IsOne :
          (r : Ret (Unit {0})) (bytes : Bytes) (u : Sfs W)
          → ReadsTo content size ino off (λ k. buf (alen + k)) t (r, bytes, u)
          → (k' : ℕ) → size ≤ k'
          → IsOne content Fetched alen size sin1 (r, copy_to alen k' bytes buf, u)
      ReadsTo-IsOne (err x) bytes u w k' le = (
        frame u w.0,
        g.1,
        g.2,
        g.3,
        λ k l. let early : leb alen k ≡ false = ground (arith, l) in rw early (g.4 k l),
      )
      ReadsTo-IsOne (done _) bytes u w k' le = (
        frame u w.0,
        g.1,
        g.2,
        omega (arith, most, inside),
        λ k l. elim (dec_lt k alen) [
          | yes y ↦ let early : leb alen k ≡ false = ground (arith, y) in rw early (g.4 k y)
          | no n ↦
              let j = k - alen in
              let read : copy_to alen k' bytes buf k ≡ bytes j = ground (arith, n, l, le) in
              let got : bytes j ≡ content t.dev ino (off + j) =
                w.1 j
                ∙ (let first : (leb 0 j && ltb j (0 + size)) ≡ true = ground (arith, n, l) in
                    let back : j - 0 ≡ j = omega arith in rw (first, back) refl) in
              let block : (lo + k) / 4096 ≡ blkno = omega (arith, at, fits, n, l) in
              let place : (lo + k) % 4096 ≡ off + j = omega (arith, at, fits, n, l) in
              let kept = g.0.1 blkno (omega (arith, h, g.2)) in
              read
              ∙ (got
                  ∙ (ap (λ b. content t.dev b (off + j)) (sym e ∙ kept.0)
                      ∙ (kept.1 (off + j) ∙ rw (block, place) refl)))
        ],
      )

      part_fetched :
          Returns
            (λ r. IsOne content Fetched alen size sin1 r)
            (sfs_buf_op ops false alen buf size ino off t)
      unfolding sfs_buf_op
      part_fetched =
          let u =
            subst (λ b. (b ≢ 0) × (b < t.blocks)) e
              ((g.0.0.1.mapped blkno h).0, (g.0.0.1.mapped blkno h).1) in
          Returns-bind (ReadsTo content size ino off (λ k. buf (alen + k)) t)
            (λ r. IsOne content Fetched alen size sin1 r)
            (sfs_rbuf ops (λ k. buf (alen + k)) size ino off t) _
            (sfs_rbuf-ReadsTo d ino t (u.0, u.1, g.0.0.0.small) (λ k. buf (alen + k)) size off low
              fits)
            λ r w. ReadsTo-IsOne r.0 r.1 r.2 w size (omega arith)

      whole_fetched :
          off ≡ 0
          → size ≡ 4096
          → Returns
              (λ r. IsOne content Fetched alen size sin1 r)
              (sfs_block_op ops false alen buf ino t)
      unfolding sfs_block_op
      whole_fetched none all =
          let u =
            subst (λ b. (b ≢ 0) × (b < t.blocks)) e
              ((g.0.0.1.mapped blkno h).0, (g.0.0.1.mapped blkno h).1) in
          Returns-bind (ReadsTo content sfs_blksize ino 0 (λ k. buf (alen + k)) t)
            (λ r. IsOne content Fetched alen size sin1 r)
            (sfs_rblock ops (λ k. buf (alen + k)) ino 1 t) _
            (sfs_rblock-ReadsTo d ino t (u.0, u.1, g.0.0.0.small) (λ k. buf (alen + k)))
            λ r w.
              ReadsTo-IsOne r.0 r.1 r.2
                (subst (λ z. ReadsTo content z ino off (λ k. buf (alen + k)) t r) (sym all)
                  (subst (λ z. ReadsTo content sfs_blksize ino z (λ k. buf (alen + k)) t r)
                    (sym none) w))
                sfs_blksize (omega (arith, all))

  read-IsRun : (limit : ℕ) → limit ≤ sin.din.blocks * 4096 → IsRun d false lo limit Fetched
  read-IsRun limit inside = record {
    sound = λ alen buf sin1 t g. g.0.0;
    covered = λ alen buf sin1 t g. omega (arith, g.2, g.3);
    loaded = λ alen buf sin1 t g blkno h l r sin2 u q.
        Loaded-Fetched limit inside alen buf sin1 t g blkno h l r sin2 u q;
    part = λ alen buf sin1 t g blkno off size at fits low most ino e h.
        part_fetched limit inside alen buf sin1 t g blkno off size at fits low most ino e h;
    whole = λ alen buf sin1 t g blkno at most ino e h.
        whole_fetched limit inside alen buf sin1 t g blkno 0 4096 (omega (arith, at)) (omega arith)
          (omega arith) most ino e h refl refl;
  }

  -- What a read of `len` bytes leaves: the file and the blocks of others are as they were, and the
  -- buffer begins with `alen` bytes of the file, all that are asked for and within its size if there
  -- is no error.
  abbrev pub ReadBytes : (len : ℕ) → Ret (Unit {0}) × ℕ × Bytes × SfsInode × Sfs W → Type 0
  ReadBytes len (r, alen, buf, sin', t) =
      Resized content sin.din.blocks sin s sin' t
      × (sin'.din.size ≡ sin.din.size)
      × (sin'.din.blocks ≡ sin.din.blocks)
      × ((k : ℕ) → k < alen → buf k ≡ byte_at (content s.dev) sin.din (lo + k))
      × (alen ≤ min len (sin.din.size - lo))
      × WhenDone content r (alen ≡ min len (sin.din.size - lo))

  start :
      IsSound content sin.din s → lo ≤ sin.din.blocks * 4096 → (buf : Bytes) → Fetched 0 buf sin s
  start v inside buf = (
    (v, Kept-refl content sin.din.blocks sin.din s, Others-refl content sin.din s),
    refl,
    refl,
    omega (arith, inside),
    λ k l. absurd (omega (arith, l)),
  )

  -- For a sound file of a sound file system that is not a directory and has the blocks that its
  -- size needs, a read where neither position nor length is beyond the largest size of a file
  -- returns from sfs_io_nolock: the file and the blocks of others are as they were, and the buffer
  -- begins with as many bytes of the file from the position on as it says, which without an error
  -- is the fewer of those asked for and those up to the end.
  pub sfs_io_nolock-ReadBytes :
      (buf : Bytes) (len : ℕ)
      → IsSound content sin.din s
      → sin.din.type ≢ sfs_type_dir
      → IsFitting sin.din
      → lo < sfs_max_file_size
      → len ≤ sfs_max_file_size
      → Returns (ReadBytes len) (sfs_io_nolock ops false buf lo len sin s)
  unfolding sfs_io_nolock
  sfs_io_nolock-ReadBytes buf len v file fits low few =
      let kind : (sin.din.type == sfs_type_dir) ≡ false = ground (arith, file) in
      let end : (lo + len) % 2 ^ 32 ≡ lo + len = omega (arith, low, few) in
      let valid : (not (ltb lo (2 ^ 31))
            || not (ltb lo sfs_max_file_size)
            || not (ltb (lo + len) (2 ^ 31))
            || ltb (lo + len) lo)
          ≡ false =
        ground (arith, low, few) in
      let small : sin.din.size ≤ max_blocks * 4096 = omega (arith, fits, v.1.bounded) in
      elim (Bool-cases ((lo == lo + len) || (not false && not (ltb lo sin.din.size)))) [
        | inl e ↦
            let none : 0 ≡ min len (sin.din.size - lo) = ground (arith, e) in
            rw (kind, end, valid, e)
              (
                (v, Kept-refl content sin.din.blocks sin.din s, Others-refl content sin.din s),
                refl,
                refl,
                λ k l. absurd (omega (arith, l)),
                omega arith,
                none,
              )
        | inr e ↦
            let near : lo < sin.din.size = ground (arith, e) in
            let some : lo ≢ lo + len = λ q. ground (arith, e, q) in
            let stop : end_of ops false (lo + len) sin.din.size ≡ lo + min len (sin.din.size - lo) =
              ground (arith, near, some, small) in
            let goal = lo + min len (sin.din.size - lo) in
            let inside : goal ≤ sin.din.blocks * 4096 = omega (arith, fits, near) in
            rw (kind, end, valid, e, stop)
              (Returns-bind (Ran d false lo goal Fetched (read-IsRun goal inside) goal)
                (ReadBytes len) (move_range ops false lo goal buf sin s) _
                (move_range-Ran d false lo goal Fetched (read-IsRun goal inside) goal buf sin s
                  (start v (omega (arith, inside)) buf) (omega (arith, near, some))
                  (omega (arith, small, near)) (omega arith))
                (after near inside))
      ]
    where
      all :
          (r : Ret (Unit {0})) (alen n : ℕ)
          → WhenDone content r (lo + alen ≡ lo + n)
          → WhenDone content r (alen ≡ n)
      all (err e) alen n w = tt
      all (done _) alen n w = omega (arith, w)

      after :
          lo < sin.din.size
          → (inside : lo + min len (sin.din.size - lo) ≤ sin.din.blocks * 4096)
            (r : Ret (Unit {0}) × ℕ × Bytes × SfsInode × Sfs W)
          → Ran d false lo
              (lo + min len (sin.din.size - lo))
              Fetched
              (read-IsRun (lo + min len (sin.din.size - lo)) inside)
              (lo + min len (sin.din.size - lo))
              r
          → Returns (ReadBytes len) (finish ops false lo r)
      after near inside (r, alen, buf', sin', t) w =
          let same : ltb sin'.din.size (lo + alen) ≡ false =
            (let most : lo + alen ≤ sin'.din.size = omega (arith, near, w.1, w.0.1) in
              ground (arith, most)) in
          rw same (
            w.0.0,
            w.0.1,
            w.0.2,
            w.0.4,
            omega (arith, w.1),
            all r alen (min len (sin.din.size - lo)) w.2,
          )
