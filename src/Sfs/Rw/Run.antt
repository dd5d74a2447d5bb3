-- ===== src/Sfs/Rw/Run.antt =====
-- kern/fs/sfs/sfs_inode.c: how far `sfs_io_nolock` gets, for reads and writes alike.
use lcore.Base.{
  ℕ, zero, suc, ◌+◌, ◌-◌, ◌*◌, ◌/◌, ◌%◌, ◌≤◌, ◌<◌, ◌≡◌, ◌≢◌, refl, Bool, ◌==◌, if◌then◌else◌, arith,
  Bool-cases, inl, inr, subst, Returns, Returns-bind, Outcome, ok, ◌>>=◌,
}
use lcore.Fs.Defs.{Ret, done, err}
use lcore.Sfs.Defs.{Bytes, sfs_blksize, SfsInode, DeviceOps, Sfs, IsDevice}
use lcore.Sfs.Bmap.{sfs_bmap_load_nolock}
use lcore.Sfs.Map.{max_blocks, block_of, IsSound}
use lcore.Sfs.Load.{Loaded, sfs_bmap_load_nolock-Loaded}
use lcore.Sfs.File.Resize.{WhenDone}
use lcore.Sfs.Rw.{Transfer, sfs_buf_op, sfs_block_op, move_part, move_blocks, move_rest, move_range}

module _ {W : Type 0} (content : W → ℕ → Bytes) (Inv : ℕ → Bytes → SfsInode → Sfs W → Type 0) where
  -- After one more transfer of `size` bytes: done or refused.
  abbrev pub IsOne : (alen size : ℕ) → SfsInode → Ret (Unit {0}) × Bytes × Sfs W → Type 0
  IsOne alen size sin (err e, buf, u) = Inv alen buf sin u
  IsOne alen size sin (done _, buf, u) = Inv (alen + size) buf sin u

-- What holds of a transfer from `lo` on of which `alen` bytes are done, not beyond `limit`.
pub record IsRun {W : Type 0} {ops : DeviceOps W} {content : W → ℕ → Bytes}
    (d : IsDevice ops content) (write : Bool) (lo limit : ℕ)
    (Inv : ℕ → Bytes → SfsInode → Sfs W → Type 0) : Type 0 where
  pub sound :
      (alen : ℕ) (buf : Bytes) (sin : SfsInode) (t : Sfs W)
      → Inv alen buf sin t
      → IsSound content sin.din t
  pub covered :
      (alen : ℕ) (buf : Bytes) (sin : SfsInode) (t : Sfs W)
      → Inv alen buf sin t
      → lo + alen ≤ sin.din.blocks * 4096
  pub loaded :
      (alen : ℕ) (buf : Bytes) (sin : SfsInode) (t : Sfs W) (g : Inv alen buf sin t) (blkno : ℕ)
      → blkno * 4096 ≤ lo + alen
      → lo + alen < limit
      → (r : Ret ℕ) (sin' : SfsInode) (u : Sfs W)
      → Loaded d sin t (sound alen buf sin t g) blkno (r, sin', u)
      → Inv alen buf sin' u
  pub part :
      (alen : ℕ) (buf : Bytes) (sin : SfsInode) (t : Sfs W)
      → Inv alen buf sin t
      → (blkno off size : ℕ) → lo + alen ≡ blkno * 4096 + off
      → off + size ≤ 4096
      → off < 4096
      → lo + (alen + size) ≤ limit
      → (ino : ℕ) → block_of (content t.dev) sin.din blkno ≡ ino
      → blkno < sin.din.blocks
      → Returns
          (λ r. IsOne content Inv alen size sin r)
          (sfs_buf_op ops write alen buf size ino off t)
  pub whole :
      (alen : ℕ) (buf : Bytes) (sin : SfsInode) (t : Sfs W)
      → Inv alen buf sin t
      → (blkno : ℕ) → lo + alen ≡ blkno * 4096
      → lo + (alen + 4096) ≤ limit
      → (ino : ℕ) → block_of (content t.dev) sin.din blkno ≡ ino
      → blkno < sin.din.blocks
      → Returns (λ r. IsOne content Inv alen 4096 sin r) (sfs_block_op ops write alen buf ino t)

module _ {W : Type 0} {ops : DeviceOps W} {content : W → ℕ → Bytes} (d : IsDevice ops content)
    (write : Bool) (lo limit : ℕ) (Inv : ℕ → Bytes → SfsInode → Sfs W → Type 0)
    (run : IsRun d write lo limit Inv) where
  -- All up to `goal` is done without an error.
  abbrev pub Ran : (goal : ℕ) → Ret (Unit {0}) × ℕ × Bytes × SfsInode × Sfs W → Type 0
  Ran goal (r, alen, buf', sin', t) =
      Inv alen buf' sin' t × (lo + alen ≤ goal) × WhenDone content r (lo + alen ≡ goal)

  module _ (alen : ℕ) (buf1 : Bytes) (sin1 : SfsInode) (t : Sfs W) (g : Inv alen buf1 sin1 t)
      (blkno off size : ℕ) (at : lo + alen ≡ blkno * 4096 + off) (fits : off + size ≤ 4096)
      (low : off < 4096) (range : blkno < max_blocks) (some : 0 < size) where
    -- A load, then a write and the rest of the transfer.
    loaded_then :
        (goal : ℕ) (op : ℕ → Sfs W → Outcome (Ret (Unit {0}) × Bytes × Sfs W))
        (next : Bytes → SfsInode → Sfs W → Transfer W)
        → lo + (alen + size) ≤ goal
        → goal ≤ limit
        → ((sin2 : SfsInode) (u : Sfs W)
            → Inv alen buf1 sin2 u
            → (ino : ℕ) → block_of (content u.dev) sin2.din blkno ≡ ino
            → blkno < sin2.din.blocks
            → Returns (λ r. IsOne content Inv alen size sin2 r) (op ino u))
        → ((buf2 : Bytes) (sin2 : SfsInode) (u : Sfs W)
            → Inv (alen + size) buf2 sin2 u
            → Returns (Ran goal) (next buf2 sin2 u))
        → Returns (Ran goal) (
            sfs_bmap_load_nolock ops blkno sin1 t >>= λ (r, sin2, u). elim r [
              | err e ↦ ok (err e, alen, buf1, sin2, u)
              | done ino ↦ op ino u >>= λ (q, buf2, v). elim q [
                | err e ↦ ok (err e, alen, buf2, sin2, v)
                | done _ ↦ next buf2 sin2 v
              ]
            ])
    loaded_then goal op next le most each rest =
        let before : blkno ≤ sin1.din.blocks =
          omega (arith, run.covered alen buf1 sin1 t g, at, low) in
        Returns-bind (Loaded d sin1 t (run.sound alen buf1 sin1 t g) blkno) (Ran goal)
          (sfs_bmap_load_nolock ops blkno sin1 t) _
          (sfs_bmap_load_nolock-Loaded d sin1 t (run.sound alen buf1 sin1 t g) blkno before range)
          after
      where
        moved :
            (sin2 : SfsInode) (u : Sfs W) (r : Ret (Unit {0}) × Bytes × Sfs W)
            → IsOne content Inv alen size sin2 r
            → Returns
                (Ran goal)
                (elim r.0 [ err e ↦ ok (err e, alen, r.1, sin2, r.2) | done _ ↦ next r.1 sin2 r.2 ])
        moved sin2 u (err e, buf2, v) w = (w, omega (arith, le), tt)
        moved sin2 u (done _, buf2, v) w = rest buf2 sin2 v w

        after :
            (r : Ret ℕ × SfsInode × Sfs W)
            → Loaded d sin1 t (run.sound alen buf1 sin1 t g) blkno r
            → Returns (Ran goal) (elim r.0 [
              | err e ↦ ok (err e, alen, buf1, r.1, r.2)
              | done ino ↦ op ino r.2 >>= λ (q, buf2, v). elim q [
                | err e ↦ ok (err e, alen, buf2, r.1, v)
                | done _ ↦ next buf2 r.1 v
              ]
            ])
        after (err e, sin2, u) l = (
          run.loaded alen buf1 sin1 t g blkno (omega (arith, at)) (omega (arith, some, le, most))
              (err e) sin2 u l,
          omega (arith, le),
          tt,
        )
        after (done ino, sin2, u) l =
            let g' =
              run.loaded alen buf1 sin1 t g blkno (omega (arith, at))
                (omega (arith, some, le, most)) (done ino) sin2 u l in
            let inside : blkno < sin2.din.blocks =
              (let before : blkno ≤ sin1.din.blocks =
                  omega (arith, run.covered alen buf1 sin1 t g, at, low) in
                ground (arith, l.3, before)) in
            Returns-bind (λ r. IsOne content Inv alen size sin2 r) (Ran goal) (op ino u) _
              (each sin2 u g' ino l.4 inside) (moved sin2 u)

    move_part-Ran :
        lo + (alen + size) ≤ limit
        → Returns (Ran (lo + (alen + size))) (move_part ops write blkno size off alen buf1 sin1 t)
    unfolding move_part
    move_part-Ran most =
        loaded_then (lo + (alen + size)) (λ ino u. sfs_buf_op ops write alen buf1 size ino off u)
          (λ buf2 sin2 u. ok (done tt, alen + size, buf2, sin2, u)) (omega arith) most
          (λ sin2 u g' ino e h.
            run.part alen buf1 sin2 u g' blkno off size at fits low most ino e h)
          λ buf2 sin2 u w. (w, omega arith, refl)

  move_blocks-Ran :
      (n blkno alen : ℕ) (buf1 : Bytes) (sin1 : SfsInode) (t : Sfs W) (goal : ℕ)
      → Inv alen buf1 sin1 t
      → lo + alen ≡ blkno * 4096
      → blkno + n ≤ max_blocks
      → goal ≡ (blkno + n) * 4096
      → goal ≤ limit
      → Returns (Ran goal) (move_blocks ops write n blkno alen buf1 sin1 t)
  unfolding move_blocks
  move_blocks-Ran zero blkno alen buf1 sin1 t goal g at range end most =
      (g, omega (arith, at, end), omega (arith, at, end))
  move_blocks-Ran (suc n) blkno alen buf1 sin1 t goal g at range end most =
      let at' : lo + alen ≡ blkno * 4096 + 0 = omega (arith, at) in
      loaded_then alen buf1 sin1 t g blkno 0 4096 at' (omega arith) (omega arith)
        (omega (arith, range)) (omega arith) goal (λ ino u. sfs_block_op ops write alen buf1 ino u)
        (λ buf2 sin2 u. move_blocks ops write n (blkno + 1) (alen + sfs_blksize) buf2 sin2 u)
        (omega (arith, at, end)) most
        (λ sin2 u g' ino e h.
          run.whole alen buf1 sin2 u g' blkno at (omega (arith, at, end, most)) ino e h)
        λ buf2 sin2 u w.
          move_blocks-Ran n (blkno + 1) (alen + sfs_blksize) buf2 sin2 u goal w (omega (arith, at))
            (omega (arith, range)) (omega (arith, end)) most

  Ran-le :
      (near goal : ℕ) (e alen : ℕ) (buf1 : Bytes) (sin1 : SfsInode) (t : Sfs W)
      → near ≤ goal
      → Ran near (err e, alen, buf1, sin1, t)
      → Ran goal (err e, alen, buf1, sin1, t)
  Ran-le near goal e alen buf1 sin1 t le r = (r.0, omega (arith, r.1, le), tt)

  move_rest-Ran :
      (endpos n blkno alen : ℕ) (buf1 : Bytes) (sin1 : SfsInode) (t : Sfs W)
      → Inv alen buf1 sin1 t
      → lo + alen ≡ blkno * 4096
      → endpos / 4096 ≡ blkno + n
      → endpos ≤ max_blocks * 4096
      → endpos ≤ limit
      → Returns (Ran endpos) (move_rest ops write endpos n blkno alen buf1 sin1 t)
  unfolding move_rest
  move_rest-Ran endpos n blkno alen buf1 sin1 t g at whole range most =
      let near = (blkno + n) * 4096 in
      Returns-bind (Ran near) (Ran endpos) (move_blocks ops write n blkno alen buf1 sin1 t) _
        (move_blocks-Ran n blkno alen buf1 sin1 t near g at (omega (arith, whole, range)) refl
          (omega (arith, whole, most)))
        after
    where
      after :
          (r : Ret (Unit {0}) × ℕ × Bytes × SfsInode × Sfs W)
          → Ran ((blkno + n) * 4096) r
          → Returns (Ran endpos) (elim r.0 [
            | err e ↦ ok (err e, r.1, r.2, r.3, r.4)
            | done _ ↦
                if endpos % sfs_blksize == 0
                then ok (done tt, r.1, r.2, r.3, r.4)
                else move_part ops write (blkno + n) (endpos % sfs_blksize) 0 r.1 r.2 r.3 r.4
          ])
      after (err e, alen', buf2, sin2, u) w =
          Ran-le ((blkno + n) * 4096) endpos e alen' buf2 sin2 u (omega (arith, whole)) w
      after (done _, alen', buf2, sin2, u) w = elim (Bool-cases (endpos % sfs_blksize == 0)) [
        | inl e ↦
            let exact : endpos % 4096 ≡ 0 = ground (arith, e) in
            rw e (w.0, omega (arith, w.1, whole), omega (arith, w.2, whole, exact))
        | inr e ↦
            let size = endpos % 4096 in
            let part : size ≢ 0 = λ q. ground (arith, e, q) in
            let end : lo + (alen' + size) ≡ endpos = omega (arith, w.2, whole) in
            rw e (
              subst
                (λ m. Returns (Ran m) (move_part ops write (blkno + n) size 0 alen' buf2 sin2 u))
                end
                (move_part-Ran alen' buf2 sin2 u w.0 (blkno + n) 0 size (omega (arith, w.2))
                  (omega arith) (omega arith) (omega (arith, whole, range, part))
                  (omega (arith, part)) (omega (arith, end, most))))
      ]

  pub move_range-Ran :
      (endpos : ℕ)
      → (buf : Bytes) (sin : SfsInode) (s : Sfs W) → Inv 0 buf sin s
      → lo < endpos
      → endpos ≤ max_blocks * 4096
      → endpos ≤ limit
      → Returns (Ran endpos) (move_range ops write lo endpos buf sin s)
  unfolding move_range
  move_range-Ran endpos buf sin s g some range most = elim (Bool-cases (lo % sfs_blksize == 0)) [
    | inl e ↦ rw e (
        move_rest-Ran endpos (endpos / sfs_blksize - lo / sfs_blksize) (lo / sfs_blksize) 0 buf sin
          s g (ground (arith, e)) (omega (arith, some)) range most)
    | inr e ↦
        let off = lo % 4096 in
        let n = endpos / 4096 - lo / 4096 in
        let size = if n == 0 then endpos - lo else 4096 - off in
        let near = lo + (0 + size) in
        let fits : off + size ≤ 4096 = ground (arith, some) in
        rw e (
          Returns-bind (Ran near) (Ran endpos)
            (move_part ops write (lo / 4096) size off 0 buf sin s) _
            (move_part-Ran 0 buf sin s g (lo / 4096) off size (omega arith) fits (omega arith)
              (omega (arith, some, range)) (ground (arith, some)) (ground (arith, some, most)))
            after)
  ]
    where
      after :
          (r : Ret (Unit {0}) × ℕ × Bytes × SfsInode × Sfs W)
          → Ran
              (lo
                + (0 + (if endpos / 4096 - lo / 4096 == 0 then endpos - lo else 4096 - lo % 4096)))
              r
          → Returns (Ran endpos) (elim r.0 [
            | err e ↦ ok (err e, r.1, r.2, r.3, r.4)
            | done _ ↦
                if endpos / sfs_blksize - lo / sfs_blksize == 0
                then ok (done tt, r.1, r.2, r.3, r.4)
                else move_rest ops write endpos
                    (endpos / sfs_blksize - lo / sfs_blksize - 1)
                    (lo / sfs_blksize + 1)
                    r.1
                    r.2
                    r.3
                    r.4
          ])
      after (err e, alen, buf2, sin2, u) w = (w.0, ground (arith, w.1, some), tt)
      after (done _, alen, buf2, sin2, u) w =
          elim (Bool-cases (endpos / sfs_blksize - lo / sfs_blksize == 0)) [
            | inl e ↦
                let end : lo + alen ≡ endpos = ground (arith, w.2, e, some) in
                rw e (w.0, omega (arith, end), end)
            | inr e ↦
                let end : lo + alen ≡ (lo / 4096 + 1) * 4096 = ground (arith, w.2, e) in
                rw e (
                  move_rest-Ran endpos (endpos / sfs_blksize - lo / sfs_blksize - 1)
                    (lo / sfs_blksize + 1) alen buf2 sin2 u w.0 end (ground (arith, e, some)) range
                    most)
          ]
