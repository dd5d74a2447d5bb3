-- ===== src/Fs/File.antt =====
-- kern/fs/file.c, second half: the operations on descriptors.
use lcore.Base.{
  ℕ, ◌+◌, ◌-◌, ◌%◌, ◌^◌, Bool, true, false, not, ◌&&◌, List, Outcome, ok, ◌>>=◌, ◌>>◌, ◌==◌,
  if◌then◌else◌,
}
use lcore.Fs.Defs.{
  Ret, done, err, e_inval, no_fd, Iobuf, Vop, op_read, op_write, op_fstat, op_fsync, op_tryseek,
  op_getdirentry, NodeOps, PathOps, Fs, is_opened,
}
use lcore.Fs.Inode.{vop_op, vfs_close}
use lcore.Fs.Table.{
  file_at, set_file, fd_array_alloc, fd_array_free, fd_array_acquire, fd_array_release,
  fd_array_open, fd_array_close, fd_array_dup, fd2file,
}
use lcore.Fs.Vfs.{o_accmode, o_append, vfs_open}

-- `iobuf_init` and `iobuf_used` of kern/fs/iobuf.c and iobuf.h.
abbrev pub iobuf_init : (base len offset : ℕ) → Iobuf
iobuf_init base len offset = record {
  io_base = base;
  io_offset = offset;
  io_len = len;
  io_resid = len;
}

abbrev pub iobuf_used : Iobuf → ℕ
iobuf_used b = (b.io_len + 2 ^ 32 - b.io_resid) % 2 ^ 32

-- Which argument of `lseek` is added to.
pub data Whence : Type 0 where
  lseek_set lseek_cur lseek_end other : Whence

abbrev pub succeeded {ℓ} : {A : Type ℓ} → Ret A → Bool
succeeded (done _) = true
succeeded (err _) = false

module _ {W : Type 0} where
  unfoldable pub file_testfd : ℕ → (readable writable : Bool) → Fs W → Bool
  file_testfd fd readable writable s = elim (fd2file fd s) [
    | err _ ↦ false
    | done i ↦
        not (readable && not (file_at i s).readable) && not (writable && not (file_at i s).writable)
  ]

  -- The end of `file_open`: the entry is completed.
  unfoldable pub finish_open : (i n pos flags : ℕ) → Fs W → Outcome (Ret ℕ × Fs W)
  finish_open i n pos flags s = do
    let f = record (file_at i s) {
      pos = pos;
      node = n;
      readable = not (o_accmode flags == 1);
      writable = not (o_accmode flags == 0);
    }
    s' ← fd_array_open i (set_file i f s)
    ok (done (file_at i s').fd, s')

module _ {W : Type 0} (ops : NodeOps W) where
  unfoldable pub give_up : (i e : ℕ) → Fs W → Outcome (Ret ℕ × Fs W)
  give_up i e s = fd_array_free ops i s >>= λ s'. ok (err e, s')

  -- `file_open` with the entry and the inode at hand.
  unfoldable pub open_at : (i n flags : ℕ) → Fs W → Outcome (Ret ℕ × Fs W)
  open_at i n flags s =
      let s0 = set_file i (record (file_at i s) { pos = 0 }) s in
      if o_append flags
      then (do
        vop_op ops op_fstat n s0
        let (r, w) = ops.vop_fstat n s0.world
        let s1 = record s0 { world = w }
        elim r [
          | err e ↦ vfs_close ops n s1 >>= give_up i e
          | done size ↦ finish_open i n size flags s1
        ])
      else finish_open i n 0 flags s0

  unfoldable pub file_close : ℕ → Fs W → Outcome (Ret (Unit {0}) × Fs W)
  file_close fd s = elim (fd2file fd s) [
    | err e ↦ ok (err e, s)
    | done i ↦ fd_array_close ops i s >>= λ s'. ok (done tt, s')
  ]

  -- `file_read` and `file_write` with the entry at hand: `io` is `vop_read` or `vop_write`, called `op`. The
  -- second part of the result is `*copied_store`.
  unfoldable pub transfer :
      Vop
      → (ℕ → Iobuf → W → Ret (Unit {0}) × Iobuf × W)
      → (i base len : ℕ) → Fs W
      → Outcome (Ret (Unit {0}) × ℕ × Fs W)
  transfer op io i base len s = do
    s1 ← fd_array_acquire i s
    let f = file_at i s1
    vop_op ops op f.node s1
    let (r, b, w) = io f.node (iobuf_init base len f.pos) s1.world
    let copied = iobuf_used b
    let s2 = record s1 { world = w }
    let g = file_at i s2
    let s3 =
        if is_opened g.status
        then set_file i (record g { pos = (g.pos + copied) % 2 ^ 32 }) s2
        else s2
    s4 ← fd_array_release ops i s3
    ok (r, copied, s4)

  unfoldable pub file_read : (fd base len : ℕ) → Fs W → Outcome (Ret (Unit {0}) × ℕ × Fs W)
  file_read fd base len s = elim (fd2file fd s) [
    | err e ↦ ok (err e, 0, s)
    | done i ↦
        if (file_at i s).readable
        then transfer op_read ops.vop_read i base len s
        else ok (err e_inval, 0, s)
  ]

  unfoldable pub file_write : (fd base len : ℕ) → Fs W → Outcome (Ret (Unit {0}) × ℕ × Fs W)
  file_write fd base len s = elim (fd2file fd s) [
    | err e ↦ ok (err e, 0, s)
    | done i ↦
        if (file_at i s).writable
        then transfer op_write ops.vop_write i base len s
        else ok (err e_inval, 0, s)
  ]

  -- The `switch` of `file_seek`: the new position.
  unfoldable pub seek_target : (pos i : ℕ) → Whence → Fs W → Outcome (Ret ℕ × Fs W)
  seek_target pos i Whence.lseek_set s = ok (done pos, s)
  seek_target pos i Whence.lseek_cur s = ok (done ((pos + (file_at i s).pos) % 2 ^ 32), s)
  seek_target pos i Whence.lseek_end s = do
    vop_op ops op_fstat (file_at i s).node s
    let (r, w) = ops.vop_fstat (file_at i s).node s.world
    let s' = record s { world = w }
    ok (elim r [ err e ↦ (err e, s') | done size ↦ (done ((pos + size) % 2 ^ 32), s') ])
  seek_target pos i Whence.other s = ok (err e_inval, s)

  unfoldable pub try_seek : (pos i : ℕ) → Fs W → Outcome (Ret (Unit {0}) × Fs W)
  try_seek pos i s = do
    vop_op ops op_tryseek (file_at i s).node s
    let (r, w) = ops.vop_tryseek (file_at i s).node pos s.world
    let s' = record s { world = w }
    ok (elim r [
      | err e ↦ (err e, s')
      | done _ ↦ (done tt, set_file i (record (file_at i s') { pos = pos }) s')
    ])

  abbrev pub seek_found : (i : ℕ) → Ret ℕ × Fs W → Outcome (Ret (Unit {0}) × Fs W)
  seek_found i (err e, s) = ok (err e, s)
  seek_found i (done p, s) = try_seek p i s

  unfoldable pub file_seek : (fd pos : ℕ) → Whence → Fs W → Outcome (Ret (Unit {0}) × Fs W)
  file_seek fd pos whence s = elim (fd2file fd s) [
    | err e ↦ ok (err e, s)
    | done i ↦ do
      s1 ← fd_array_acquire i s
      found ← seek_target pos i whence s1
      (r, s3) ← seek_found i found
      s4 ← fd_array_release ops i s3
      ok (r, s4)
  ]

  -- `file_fstat` and `file_fsync`: a query of the inode while the entry is held.
  unfoldable pub query :
      {A : Type 0} → Vop → (ℕ → W → Ret A × W) → ℕ → Fs W → Outcome (Ret A × Fs W)
  query op ask fd s = elim (fd2file fd s) [
    | err e ↦ ok (err e, s)
    | done i ↦ do
      s1 ← fd_array_acquire i s
      vop_op ops op (file_at i s1).node s1
      let (r, w) = ask (file_at i s1).node s1.world
      s2 ← fd_array_release ops i (record s1 { world = w })
      ok (r, s2)
  ]

  unfoldable pub file_fstat : ℕ → Fs W → Outcome (Ret ℕ × Fs W)
  file_fstat = query op_fstat ops.vop_fstat

  unfoldable pub file_fsync : ℕ → Fs W → Outcome (Ret (Unit {0}) × Fs W)
  file_fsync = query op_fsync ops.vop_fsync

  -- `direntp` is given by its offset and the address of its name, 256 bytes long.
  unfoldable pub file_getdirentry :
      (fd name offset : ℕ) → Fs W → Outcome (Ret (Unit {0}) × ℕ × Fs W)
  file_getdirentry fd name offset s = elim (fd2file fd s) [
    | err e ↦ ok (err e, offset, s)
    | done i ↦ do
      s1 ← fd_array_acquire i s
      vop_op ops op_getdirentry (file_at i s1).node s1
      let (r, b, w) = ops.vop_getdirentry (file_at i s1).node (iobuf_init name 256 offset) s1.world
      s2 ← fd_array_release ops i (record s1 { world = w })
      ok (r, (if succeeded r then (offset + iobuf_used b) % 2 ^ 32 else offset), s2)
  ]

  -- The end of `file_dup`, with the answer of `fd_array_alloc`.
  unfoldable pub dup_into : ℕ → Ret ℕ × Fs W → Outcome (Ret ℕ × Fs W)
  dup_into from (err e, s) = ok (err e, s)
  dup_into from (done to, s) = do t ← fd_array_dup ops to from s; ok (done (file_at to t).fd, t)

  unfoldable pub file_dup : (fd1 fd2 : ℕ) → Fs W → Outcome (Ret ℕ × Fs W)
  file_dup fd1 fd2 s = elim (fd2file fd1 s) [
    | err e ↦ ok (err e, s)
    | done from ↦ fd_array_alloc fd2 s >>= dup_into from
  ]

module _ {W : Type 0} (ops : NodeOps W) (paths : PathOps W) where
  unfoldable pub file_open : (stack : ℕ) → List ℕ → ℕ → Fs W → Outcome (Ret ℕ × Fs W)
  file_open stack path flags s = if o_accmode flags == 3 then ok (err e_inval, s) else (do
    (r, s') ← fd_array_alloc no_fd s
    elim r [
      | err e ↦ ok (err e, s')
      | done i ↦ do
        (q, t) ← vfs_open ops paths stack path flags s'
        elim q [ err e ↦ give_up ops i e t | done n ↦ open_at ops i n flags t ]
    ])
