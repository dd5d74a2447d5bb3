-- ===== src/Sfs/File/Trunc.antt =====
-- kern/fs/sfs/sfs_inode.c: `sfs_truncfile` as a whole.
use lcore.Base.{
  ℕ, ◌+◌, ◌-◌, ◌*◌, ◌/◌, ◌%◌, ◌^◌, ◌≤◌, ◌≡◌, refl, true, false, not, ◌||◌, ltb, ◌==◌, if◌then◌else◌,
  arith, Bool-cases, inl, inr, Returns, Returns-bind, Returns-mono, ok, ◌>>◌, assert, min,
}
use lcore.Fs.Defs.{Ret, done, err}
use lcore.Sfs.Defs.{
  Bytes, sfs_blksize, sfs_max_file_size, SfsInode, DiskInode, DeviceOps, Sfs, IsDevice,
}
use lcore.Sfs.Map.{max_blocks, IsSound}
use lcore.Sfs.File.{Changed, enlarge, reduce, sfs_truncfile}
use lcore.Sfs.File.Resize.{
  Resized, Resized-le, WhenDone, Zeroed, Enlarged, Reduced, Kept-refl, Others-refl,
  enlarge-Enlarged, reduce-Reduced,
}

-- The number of blocks of a file of that many bytes.
abbrev pub blocks_for : ℕ → ℕ
blocks_for size = (size + 4095) / 4096

-- The file has the blocks that its size needs.
abbrev pub IsFitting : DiskInode → Type 0
IsFitting din = din.blocks ≡ blocks_for din.size

module _ {W : Type 0} (content : W → ℕ → Bytes) where
  -- What a change of the length to `len` leaves.
  abbrev pub TruncatedTo : (len : ℕ) → SfsInode → Sfs W → Ret (Unit {0}) × SfsInode × Sfs W → Type 0
  TruncatedTo len sin s (err e, sin', t) =
      Resized content (min sin.din.blocks (blocks_for len)) sin s sin' t
      × (sin'.din.size ≡ sin.din.size)
  TruncatedTo len sin s (done _, sin', t) =
      Resized content (min sin.din.blocks (blocks_for len)) sin s sin' t
      × (sin'.din.size ≡ len)
      × IsFitting sin'.din
      × Zeroed content sin.din.blocks sin'.din.blocks sin'.din t

  -- Before the new length is stored.
  abbrev Refit : (len : ℕ) → SfsInode → Sfs W → Ret (Unit {0}) × SfsInode × Sfs W → Type 0
  Refit len sin s (r, sin', t) =
      Resized content (min sin.din.blocks (blocks_for len)) sin s sin' t
      × (sin'.din.size ≡ sin.din.size)
      × WhenDone content r (
          (sin'.din.blocks ≡ blocks_for len)
          × Zeroed content sin.din.blocks sin'.din.blocks sin'.din t)

module _ {W : Type 0} {ops : DeviceOps W} {content : W → ℕ → Bytes} (d : IsDevice ops content)
    (len : ℕ) (sin : SfsInode) (s : Sfs W) (v : IsSound content sin.din s) where
  abbrev resize : Changed ops
  resize =
      if ltb sin.din.blocks (blocks_for len)
      then enlarge ops (blocks_for len - sin.din.blocks) sin.din.blocks sin s
      else if ltb (blocks_for len) sin.din.blocks
      then reduce ops (sin.din.blocks - blocks_for len) sin s
      else ok (done tt, sin, s)

  resize-Refit : len ≤ max_blocks * sfs_blksize → Returns (Refit content len sin s) resize
  resize-Refit l = elim (Bool-cases (ltb sin.din.blocks (blocks_for len))) [
    | inl e ↦
        let n = blocks_for len - sin.din.blocks in
        rw e (
          Returns-mono (Enlarged content n sin s) (Refit content len sin s)
            (enlarge ops n sin.din.blocks sin s)
            (enlarge-Enlarged d n sin.din.blocks sin s v refl (ground (arith, e, l)))
            λ r x. enlarged e r.0 r.1 r.2 x)
    | inr e ↦ elim (Bool-cases (ltb (blocks_for len) sin.din.blocks)) [
      | inl f ↦
          let n = sin.din.blocks - blocks_for len in
          rw (e, f)
            (Returns-mono (Reduced content n sin s) (Refit content len sin s) (reduce ops n sin s)
              (reduce-Reduced d n sin s v (omega arith)) λ r x. reduced f r.0 r.1 r.2 x)
      | inr f ↦
          let same : sin.din.blocks ≡ blocks_for len = ground (arith, e, f) in
          rw (e, f)
            (
              (
                v,
                Kept-refl content (min sin.din.blocks (blocks_for len)) sin.din s,
                Others-refl content sin.din s,
              ),
              refl,
              (same, λ i lo hi k h. absurd (omega (arith, lo, hi))),
            )
    ]
  ]
    where
      enlarged :
          ltb sin.din.blocks (blocks_for len) ≡ true
          → (r : Ret (Unit {0})) (sin' : SfsInode) (t : Sfs W)
          → Enlarged content (blocks_for len - sin.din.blocks) sin s (r, sin', t)
          → Refit content len sin s (r, sin', t)
      enlarged e (err x) sin' t g = (
        Resized-le d (min sin.din.blocks (blocks_for len)) sin.din.blocks sin s sin' t (omega arith)
            g.0,
        g.1,
        tt,
      )
      enlarged e (done _) sin' t g =
          let at : sin'.din.blocks ≡ blocks_for len = ground (arith, e, g.2.0) in
          (
            Resized-le d (min sin.din.blocks (blocks_for len)) sin.din.blocks sin s sin' t
                (omega arith) g.0,
            g.1,
            (at, λ i lo hi. g.2.1 i lo (omega (arith, hi, g.2.0))),
          )

      reduced :
          ltb (blocks_for len) sin.din.blocks ≡ true
          → (r : Ret (Unit {0})) (sin' : SfsInode) (t : Sfs W)
          → Reduced content (sin.din.blocks - blocks_for len) sin s (r, sin', t)
          → Refit content len sin s (r, sin', t)
      reduced f (err x) sin' t g = (
        Resized-le d (min sin.din.blocks (blocks_for len))
            (sin.din.blocks - (sin.din.blocks - blocks_for len)) sin s sin' t (ground (arith, f))
            g.0,
        g.1,
        tt,
      )
      reduced f (done _) sin' t g = (
        Resized-le d (min sin.din.blocks (blocks_for len))
            (sin.din.blocks - (sin.din.blocks - blocks_for len)) sin s sin' t (ground (arith, f))
            g.0,
        g.1,
        (ground (arith, f, g.2), λ i lo hi k h. absurd (ground (arith, f, g.2, lo, hi))),
      )

  -- For a sound file with the blocks that its size needs, and a length within 1036 blocks,
  -- sfs_truncfile returns; blocks of others and those in both lengths keep their bytes and all
  -- stays sound, also on an error, which leaves the size; on success the size is the length, the
  -- blocks are those it needs, and the new ones are zeros.
  pub sfs_truncfile-TruncatedTo :
      len ≤ max_blocks * sfs_blksize
      → IsFitting sin.din
      → Returns (TruncatedTo content len sin s) (sfs_truncfile ops len sin s)
  unfolding sfs_truncfile
  sfs_truncfile-TruncatedTo l fits =
      let count : (len + sfs_blksize - 1) % 2 ^ 32 / sfs_blksize ≡ blocks_for len =
        omega (arith, l) in
      let valid : (not (ltb len (2 ^ 31)) || ltb sfs_max_file_size len) ≡ false =
        ground (arith, l) in
      elim (Bool-cases (sin.din.size == len)) [
        | inl e ↦
            let at : sin.din.size ≡ len = ground (arith, e) in
            let same : (blocks_for len == sin.din.blocks) ≡ true = ground (arith, at, fits) in
            rw (count, valid, e, same)
              (
                (
                  v,
                  Kept-refl content (min sin.din.blocks (blocks_for len)) sin.din s,
                  Others-refl content sin.din s,
                ),
                at,
                fits,
                λ i lo hi k h. absurd (omega (arith, lo, hi)),
              )
        | inr e ↦
            rw (count, valid, e)
              (Returns-bind (Refit content len sin s) (TruncatedTo content len sin s) resize _
                (resize-Refit l) after)
      ]
    where
      after :
          (r : Ret (Unit {0}) × SfsInode × Sfs W)
          → Refit content len sin s r
          → Returns (TruncatedTo content len sin s) (elim r.0 [
            | err e ↦ ok (err e, r.1, r.2)
            | done _ ↦
                assert (r.1.din.blocks == (len + sfs_blksize - 1) % 2 ^ 32 / sfs_blksize)
                >> ok
                    (done tt, record r.1 { din = record r.1.din { size = len }; dirty = true }, r.2)
          ])
      after (err x, sin', t) g = (g.0, g.1)
      after (done _, sin', t) g =
          let count : (len + sfs_blksize - 1) % 2 ^ 32 / sfs_blksize ≡ blocks_for len =
            omega (arith, l) in
          let same : (sin'.din.blocks == blocks_for len) ≡ true = ground (arith, g.2.0) in
          rw (count, same) (g.0, refl, g.2.0, g.2.1)
