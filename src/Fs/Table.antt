-- ===== src/Fs/Table.antt =====
-- kern/fs/file.c, first half: the entries of the descriptor table. A `struct file *` is the index
-- of its entry.
use lcore.Base.{
  ℕ, suc, ◌+◌, ◌-◌, Bool, not, ◌&&◌, ◌||◌, Option, none, some, List, [], ◌∷◌, Outcome, ok, ◌>>=◌,
  ◌>>◌, assert, ltb, ◌==◌, if◌then◌else◌, get_or, set,
}
use lcore.Fs.Defs.{
  Ret, done, err, e_inval, e_busy, e_max_open, no_fd, files_struct_nentry, fd_none, fd_init,
  fd_opened, fd_closed, File, NodeOps, Fs, is_none, is_init, is_opened, is_closed, blank,
}
use lcore.Fs.Inode.{inode_ref_inc, inode_open_inc, vfs_close}

abbrev pub testfd : ℕ → Bool
testfd fd = ltb fd files_struct_nentry

-- The entries from the `i`th on.
unfoldable pub fd_array_init_from : ℕ → ℕ → List File
fd_array_init_from ℕ.zero i = []
fd_array_init_from (suc n) i = blank i ∷ fd_array_init_from n (i + 1)

unfoldable pub fd_array_init : List File
unfolding fd_array_init_from
fd_array_init = fd_array_init_from files_struct_nentry 0

-- The search of `fd_array_alloc`, at the entries from the `i`th on.
unfoldable pub find_free : List File → ℕ → Option ℕ
find_free [] i = none
find_free (f ∷ fs) i = if is_none f.status then some i else find_free fs (i + 1)

module _ {W : Type 0} where
  abbrev pub file_at : ℕ → Fs W → File
  file_at i s = get_or s.fd_array i (blank 0)

  abbrev pub set_file : ℕ → File → Fs W → Fs W
  set_file i f s = record s { fd_array = set s.fd_array i f }

  -- The label `found` of `fd_array_alloc`.
  unfoldable pub take_entry : ℕ → Fs W → Outcome (Ret ℕ × Fs W)
  take_entry i s = do
    assert ((file_at i s).open_count == 0)
    ok (done i, set_file i (record (file_at i s) { status = fd_init; node = 0 }) s)

  abbrev pub take_free : Option ℕ → Fs W → Outcome (Ret ℕ × Fs W)
  take_free none s = ok (err e_max_open, s)
  take_free (some i) s = take_entry i s

  unfoldable pub fd_array_alloc : ℕ → Fs W → Outcome (Ret ℕ × Fs W)
  fd_array_alloc fd s =
      if fd == no_fd
      then take_free (find_free s.fd_array 0) s
      else (if testfd fd
          then (if is_none (file_at fd s).status then take_entry fd s else ok (err e_busy, s))
          else ok (err e_inval, s))

  unfoldable pub fd_array_acquire : ℕ → Fs W → Outcome (Fs W)
  fd_array_acquire i s = do
    let f = file_at i s
    assert (is_opened f.status)
    ok (set_file i (record f { open_count = f.open_count + 1 }) s)

  unfoldable pub fd_array_open : ℕ → Fs W → Outcome (Fs W)
  fd_array_open i s = do
    let f = file_at i s
    assert (is_init f.status && not (f.node == 0))
    ok (set_file i (record f { status = fd_opened; open_count = f.open_count + 1 }) s)

  unfoldable pub fd2file : ℕ → Fs W → Ret ℕ
  fd2file fd s =
      if testfd fd && (is_opened (file_at fd s).status && ((file_at fd s).fd == fd))
      then done fd
      else err e_inval

module _ {W : Type 0} (ops : NodeOps W) where
  unfoldable pub fd_array_free : ℕ → Fs W → Outcome (Fs W)
  fd_array_free i s = do
    let f = file_at i s
    assert (is_init f.status || is_closed f.status)
    assert (f.open_count == 0)
    s' ← if is_closed f.status then vfs_close ops f.node s else ok s
    ok (set_file i (record (file_at i s') { status = fd_none }) s')

  unfoldable pub fd_array_release : ℕ → Fs W → Outcome (Fs W)
  fd_array_release i s = do
    let f = file_at i s
    assert (is_opened f.status || is_closed f.status)
    assert (ltb 0 f.open_count)
    let left = f.open_count - 1
    let s' = set_file i (record f { open_count = left }) s
    if left == 0 then fd_array_free i s' else ok s'

  unfoldable pub fd_array_close : ℕ → Fs W → Outcome (Fs W)
  fd_array_close i s = do
    let f = file_at i s
    assert (is_opened f.status)
    assert (ltb 0 f.open_count)
    let left = f.open_count - 1
    let s' = set_file i (record f { status = fd_closed; open_count = left }) s
    if left == 0 then fd_array_free i s' else ok s'

  unfoldable pub fd_array_dup : (to from : ℕ) → Fs W → Outcome (Fs W)
  fd_array_dup to from s = do
    let t = file_at to s
    let f = file_at from s
    assert (is_init t.status && is_opened f.status)
    let s' = inode_open_inc ops f.node (inode_ref_inc ops f.node s)
    fd_array_open to (
        set_file to
          (record t { pos = f.pos; readable = f.readable; writable = f.writable; node = f.node })
          s')
