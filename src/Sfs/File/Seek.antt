-- ===== src/Sfs/File/Seek.antt =====
-- kern/fs/sfs/sfs_inode.c: `sfs_tryseek`, which makes a file long enough for a position.
use lcore.Base.{
  ℕ, ◌*◌, ◌^◌, ◌≤◌, ◌<◌, ◌≡◌, refl, true, false, not, ◌||◌, ltb, if◌then◌else◌, arith, Bool-cases,
  inl, inr, Returns, Returns-mono, min,
}
use lcore.Fs.Defs.{Ret, done, err}
use lcore.Sfs.Defs.{Bytes, sfs_blksize, sfs_max_file_size, SfsInode, DeviceOps, Sfs, IsDevice}
use lcore.Sfs.Map.{max_blocks, IsSound}
use lcore.Sfs.File.{sfs_truncfile, sfs_tryseek}
use lcore.Sfs.File.Resize.{Resized, Kept-le, Kept-refl, Others-refl}
use lcore.Sfs.File.Trunc.{blocks_for, IsFitting, TruncatedTo, sfs_truncfile-TruncatedTo}

module _ {W : Type 0} {ops : DeviceOps W} {content : W → ℕ → Bytes} (d : IsDevice ops content)
    (pos : ℕ) (sin : SfsInode) (s : Sfs W) where
  -- What a seek leaves: all blocks with their bytes, and without an error a file that reaches `pos`.
  abbrev pub Sought : Ret (Unit {0}) × SfsInode × Sfs W → Type 0
  Sought (err e, sin', t) =
      Resized content sin.din.blocks sin s sin' t × (sin'.din.size ≡ sin.din.size)
  Sought (done _, sin', t) =
      Resized content sin.din.blocks sin s sin' t
      × IsFitting sin'.din
      × (sin'.din.size ≡ (if ltb sin.din.size pos then pos else sin.din.size))

  -- For a sound file with the blocks that its size needs, and a position within 1036 blocks,
  -- sfs_tryseek returns: all blocks of the file and of others keep their bytes, also on an error,
  -- which leaves the size; without one the size is the larger of the old one and the position, and
  -- the file has the blocks that it needs.
  pub sfs_tryseek-Sought :
      IsSound content sin.din s
      → IsFitting sin.din
      → pos ≤ max_blocks * sfs_blksize
      → Returns Sought (sfs_tryseek ops pos sin s)
  unfolding sfs_tryseek
  sfs_tryseek-Sought v fits l =
      let valid : (not (ltb pos (2 ^ 31)) || not (ltb pos sfs_max_file_size)) ≡ false =
        ground (arith, l) in
      elim (Bool-cases (ltb sin.din.size pos)) [
        | inl e ↦
            rw (valid, e)
              (Returns-mono (TruncatedTo content pos sin s) Sought (sfs_truncfile ops pos sin s)
                (sfs_truncfile-TruncatedTo d pos sin s v l fits) (longer e))
        | inr e ↦
            rw (valid, e)
              (
                (v, Kept-refl content sin.din.blocks sin.din s, Others-refl content sin.din s),
                fits,
                rw e refl,
              )
      ]
    where
      all_kept : ltb sin.din.size pos ≡ true → sin.din.blocks ≤ min sin.din.blocks (blocks_for pos)
      all_kept e = let more : sin.din.size < pos = ground (arith, e) in omega (arith, fits, more)

      kept :
          ltb sin.din.size pos ≡ true
          → (sin' : SfsInode) (t : Sfs W)
          → Resized content (min sin.din.blocks (blocks_for pos)) sin s sin' t
          → Resized content sin.din.blocks sin s sin' t
      kept e sin' t g =
          let near = min sin.din.blocks (blocks_for pos) in
          (g.0, Kept-le content sin.din.blocks near sin.din s sin'.din t (all_kept e) g.1, g.2)

      longer :
          ltb sin.din.size pos ≡ true
          → (r : Ret (Unit {0}) × SfsInode × Sfs W) → TruncatedTo content pos sin s r
          → Sought r
      longer e (err x, sin', t) g = (kept e sin' t g.0, g.1)
      longer e (done _, sin', t) g = (kept e sin' t g.0, g.2, rw e g.1)
