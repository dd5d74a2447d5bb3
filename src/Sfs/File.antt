-- ===== src/Sfs/File.antt =====
-- kern/fs/sfs/sfs_inode.c: the length of a file. The inode's semaphore is held throughout.
pub mod Resize
pub mod Trunc
pub mod Seek
use lcore.Base.{
  ℕ, zero, suc, ◌+◌, ◌-◌, ◌/◌, ◌%◌, ◌^◌, Bool, true, false, not, ◌||◌, Outcome, ok, panic, ◌>>=◌,
  ◌>>◌, assert, ltb, ◌==◌, if◌then◌else◌,
}
use lcore.Fs.Defs.{Ret, done, err, e_inval}
use lcore.Sfs.Defs.{sfs_blksize, sfs_max_file_size, SfsInode, DeviceOps, Sfs}
use lcore.Sfs.Bmap.{sfs_bmap_load_nolock, sfs_bmap_truncate_nolock}

module _ {W : Type 0} (ops : DeviceOps W) where
  abbrev pub Changed : Type 0
  Changed = Outcome (Ret (Unit {0}) × SfsInode × Sfs W)

  -- The loops of `sfs_truncfile`; `n` blocks are left.
  unfoldable pub enlarge : (n nblks : ℕ) → SfsInode → Sfs W → Changed
  enlarge zero nblks sin s = ok (done tt, sin, s)
  enlarge (suc n) nblks sin s = sfs_bmap_load_nolock ops nblks sin s >>= λ (r, sin', t). elim r [
    | err e ↦ ok (err e, sin', t)
    | done _ ↦ enlarge n ((nblks + 1) % 2 ^ 32) sin' t
  ]

  unfoldable pub reduce : (n : ℕ) → SfsInode → Sfs W → Changed
  reduce zero sin s = ok (done tt, sin, s)
  reduce (suc n) sin s = sfs_bmap_truncate_nolock ops sin s >>= λ (r, sin', t). elim r [
    | err e ↦ ok (err e, sin', t)
    | done _ ↦ reduce n sin' t
  ]

  -- `len` is an `off_t`, given by its 32 bits.
  unfoldable pub sfs_truncfile : (len : ℕ) → SfsInode → Sfs W → Changed
  sfs_truncfile len sin s =
      let tblks = (len + sfs_blksize - 1) % 2 ^ 32 / sfs_blksize in
      let nblks = sin.din.blocks in
      let unchanged : Changed = ok (done tt, sin, s) in
      let resized : Changed =
        if ltb nblks tblks
        then enlarge (tblks - nblks) nblks sin s
        else if ltb tblks nblks
        then reduce (nblks - tblks) sin s
        else unchanged in
      if not (ltb len (2 ^ 31)) || ltb sfs_max_file_size len
      then ok (err e_inval, sin, s)
      else if sin.din.size == len
      then assert (tblks == nblks) >> unchanged
      else (resized >>= λ (r, sin', t). elim r [
        | err e ↦ ok (err e, sin', t)
        | done _ ↦
            let sin'' = record sin' { din = record sin'.din { size = len }; dirty = true } in
            assert (sin'.din.blocks == tblks) >> ok (done tt, sin'', t)
      ])

  -- `pos` is an `off_t` too.
  unfoldable pub sfs_tryseek : (pos : ℕ) → SfsInode → Sfs W → Changed
  sfs_tryseek pos sin s =
      if not (ltb pos (2 ^ 31)) || not (ltb pos sfs_max_file_size)
      then ok (err e_inval, sin, s)
      else if ltb sin.din.size pos
      then sfs_truncfile pos sin s
      else ok (done tt, sin, s)
