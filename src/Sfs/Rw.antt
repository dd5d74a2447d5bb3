-- ===== src/Sfs/Rw.antt =====
-- kern/fs/sfs/sfs_inode.c: `sfs_io_nolock`, which reads or writes a range of a file.
pub mod Stored
pub mod Run
pub mod Write
pub mod Read
use lcore.Base.{
  ℕ, zero, suc, ◌+◌, ◌-◌, ◌/◌, ◌%◌, ◌^◌, Bool, true, not, ◌&&◌, ◌||◌, Outcome, ok, ◌>>=◌, ◌>>◌,
  assert, ltb, ◌==◌, if◌then◌else◌,
}
use lcore.Fs.Defs.{Ret, done, err, e_inval}
use lcore.Sfs.Defs.{
  Bytes, copy_to, sfs_blksize, sfs_max_file_size, sfs_type_dir, SfsInode, DeviceOps, Sfs,
}
use lcore.Sfs.Io.{Moved, sfs_rbuf, sfs_wbuf, sfs_rblock, sfs_wblock}
use lcore.Sfs.Bmap.{sfs_bmap_load_nolock}

-- The answer, the bytes done, the buffer, the inode and the file system.
abbrev pub Transfer : Type 0 → Type 0
Transfer W = Outcome (Ret (Unit {0}) × ℕ × Bytes × SfsInode × Sfs W)

module _ {W : Type 0} (ops : DeviceOps W) (write : Bool) where
  -- `sfs_buf_op` at `buf + pos`, and what `buf` holds then.
  unfoldable pub sfs_buf_op : (pos : ℕ) (buf : Bytes) (len blkno offset : ℕ) → Sfs W → Moved W
  sfs_buf_op pos buf len blkno offset s =
      let here : Bytes = λ k. buf (pos + k) in
      if write
      then (sfs_wbuf ops here len blkno offset s >>= λ (r, t). ok (r, buf, t))
      else (sfs_rbuf ops here len blkno offset s >>= λ (r, bytes, t).
          ok (r, copy_to pos len bytes buf, t))

  -- `sfs_block_op` of one block.
  unfoldable pub sfs_block_op : (pos : ℕ) (buf : Bytes) (blkno : ℕ) → Sfs W → Moved W
  sfs_block_op pos buf blkno s =
      let here : Bytes = λ k. buf (pos + k) in
      let r = if write then sfs_wblock ops here blkno 1 s else sfs_rblock ops here blkno 1 s in
      r >>= λ (q, bytes, t). ok (q, copy_to pos sfs_blksize bytes buf, t)

  -- A part of the file's block `blkno`; `alen` bytes are done.
  unfoldable pub move_part :
      (blkno size offset alen : ℕ) (buf : Bytes) → SfsInode → Sfs W → Transfer W
  move_part blkno size offset alen buf sin s =
      sfs_bmap_load_nolock ops blkno sin s >>= λ (r, sin', t). elim r [
        | err e ↦ ok (err e, alen, buf, sin', t)
        | done ino ↦ sfs_buf_op alen buf size ino offset t >>= λ (q, buf', u). elim q [
          | err e ↦ ok (err e, alen, buf', sin', u)
          | done _ ↦ ok (done tt, alen + size, buf', sin', u)
        ]
      ]

  -- The loop over whole blocks; `n` are left.
  unfoldable pub move_blocks : (n blkno alen : ℕ) (buf : Bytes) → SfsInode → Sfs W → Transfer W
  move_blocks zero blkno alen buf sin s = ok (done tt, alen, buf, sin, s)
  move_blocks (suc n) blkno alen buf sin s =
      sfs_bmap_load_nolock ops blkno sin s >>= λ (r, sin', t). elim r [
        | err e ↦ ok (err e, alen, buf, sin', t)
        | done ino ↦ sfs_block_op alen buf ino t >>= λ (q, buf', u). elim q [
          | err e ↦ ok (err e, alen, buf', sin', u)
          | done _ ↦ move_blocks n (blkno + 1) (alen + sfs_blksize) buf' sin' u
        ]
      ]

  -- From the loop to the last block.
  unfoldable pub move_rest : (endpos n blkno alen : ℕ) (buf : Bytes) → SfsInode → Sfs W → Transfer W
  move_rest endpos n blkno alen buf sin s =
      move_blocks n blkno alen buf sin s >>= λ (r, alen', buf', sin', t). elim r [
        | err e ↦ ok (err e, alen', buf', sin', t)
        | done _ ↦
            if endpos % sfs_blksize == 0
            then ok (done tt, alen', buf', sin', t)
            else move_part (blkno + n) (endpos % sfs_blksize) 0 alen' buf' sin' t
      ]

  -- From the first block, with `offset` before `endpos`.
  unfoldable pub move_range : (offset endpos : ℕ) (buf : Bytes) → SfsInode → Sfs W → Transfer W
  move_range offset endpos buf sin s =
      let blkno = offset / sfs_blksize in
      let nblks = endpos / sfs_blksize - blkno in
      let blkoff = offset % sfs_blksize in
      let size = if nblks == 0 then endpos - offset else sfs_blksize - blkoff in
      if blkoff == 0
      then move_rest endpos nblks blkno 0 buf sin s
      else (move_part blkno size blkoff 0 buf sin s >>= λ (r, alen, buf', sin', t). elim r [
        | err e ↦ ok (err e, alen, buf', sin', t)
        | done _ ↦
            if nblks == 0
            then ok (done tt, alen, buf', sin', t)
            else move_rest endpos (nblks - 1) (blkno + 1) alen buf' sin' t
      ])

  -- The label `out`.
  abbrev pub finish : (offset : ℕ) → Ret (Unit {0}) × ℕ × Bytes × SfsInode × Sfs W → Transfer W
  finish offset (r, alen, buf, sin, s) =
      let longer = record sin { din = record sin.din { size = offset + alen }; dirty = true } in
      ok (r, alen, buf, (if ltb sin.din.size (offset + alen) then longer else sin), s)

  -- The end of the range: within the file's limit, and within the file for a read.
  abbrev pub end_of : (endpos size : ℕ) → ℕ
  end_of endpos size =
      let capped = if ltb sfs_max_file_size endpos then sfs_max_file_size else endpos in
      if not write && ltb size capped then size else capped

  -- `offset` is an `off_t`, given by its 32 bits, and so is the sum.
  unfoldable pub sfs_io_nolock : (buf : Bytes) (offset alen : ℕ) → SfsInode → Sfs W → Transfer W
  sfs_io_nolock buf offset alen sin s =
      let endpos = (offset + alen) % 2 ^ 32 in
      let invalid =
        not (ltb offset (2 ^ 31))
        || not (ltb offset sfs_max_file_size)
        || not (ltb endpos (2 ^ 31))
        || ltb endpos offset in
      let past_end = not write && not (ltb offset sin.din.size) in
      assert (not (sin.din.type == sfs_type_dir))
      >> (if invalid
          then ok (err e_inval, 0, buf, sin, s)
          else if (offset == endpos) || past_end
          then ok (done tt, 0, buf, sin, s)
          else (move_range offset (end_of endpos sin.din.size) buf sin s >>= λ r. finish offset r))
