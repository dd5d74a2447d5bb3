-- ===== src/Fs/FileOpen.antt =====
-- `file_open` of a path without O_CREAT.
use lcore.Base.{
  ℕ, ◌+◌, ◌<◌, ◌≡◌, refl, sym, ap, true, false, ok, arith, ◌==◌, List, Returns, Returns-bind,
  Bool-cases, inl, inr, length, get_or-set_ne, length-set, ◌>>=◌,
}
use lcore.Fs.Defs.{Ret, done, err, no_fd, fd_init, File, NodeOps, PathOps, Fs, blank}
use lcore.Fs.Inode.{max_inode_count}
use lcore.Fs.Table.{file_at, fd_array_alloc}
use lcore.Fs.Counts.{IsBalanced, file_at-set_file, file_at-IsEntry, set_file-IsBalanced}
use lcore.Fs.Alloc.{is_free, reserved, Allocated, fd_array_alloc-Allocated}
use lcore.Fs.Lend.{IsSupplied}
use lcore.Fs.Open.{PathLaws, Opened, vfs_open-Opened}
use lcore.Fs.Vfs.{o_accmode, o_creat, vfs_open}
use lcore.Fs.File.{file_open, open_at, give_up}
use lcore.Fs.Held.{FileOpened, IsHeld, IsHeld-table, give_up-FileOpened, open_at-FileOpened}

module _ {W : Type 0} (ops : NodeOps W) (paths : PathOps W) (laws : PathLaws paths)
    {opens refs : ℕ → ℕ} (has : IsSupplied ops refs) (s : Fs W) (v : IsBalanced opens refs s)
    (flags : ℕ) (old : o_creat flags ≡ false)
    (room : (m : ℕ) → (s.nodes m).ref_count + 1 < max_inode_count) where
  looked-FileOpened :
      (i : ℕ) (l : List File) (r : Ret ℕ) (t : Fs W)
      → IsHeld opens refs s i (record s { fd_array = l })
      → Opened ops has l v.ordered (r, t)
      → Returns
          (FileOpened opens refs s flags)
          (elim r [ err e ↦ give_up ops i e t | done n ↦ open_at ops i n flags t ])
  looked-FileOpened i l (err e) t h w =
      give_up-FileOpened opens refs s ops i flags e t w.balanced
        (IsHeld-table opens refs s i (record s { fd_array = l }) t w.table h)
  looked-FileOpened i l (done n) t h w =
      open_at-FileOpened opens refs s ops i flags has v.ordered n w.0 t w.1.balanced
        (IsHeld-table opens refs s i (record s { fd_array = l }) t w.1.table h)

  reserved-IsBalanced :
      (i : ℕ)
      → i < length s.fd_array
      → is_free s.fd_array i ≡ true
      → IsBalanced opens refs (reserved s v i)
  reserved-IsBalanced i h free =
      set_file-IsBalanced v i _ h (ground (arith, file_at-IsEntry v i h, free))
        λ n. ground (arith, free)

  reserved-IsHeld :
      (i : ℕ)
      → i < length s.fd_array
      → is_free s.fd_array i ≡ true
      → ((j : ℕ) → j < i → is_free s.fd_array j ≡ false)
      → IsHeld opens refs s i (reserved s v i)
  reserved-IsHeld i h free first = record {
    reserve = record {
      bound =
          ground
            (arith, length-set s.fd_array i (record (file_at i s) { status = fd_init; node = 0 }));
      init = ap (λ f. f.status) (file_at-set_file s i _ h);
    };
    free = free;
    first = first;
    others = λ j ne. get_or-set_ne s.fd_array i j _ (blank 0) λ e. ne (sym e);
  }

  alloc_result_lem :
      (stack : ℕ) (path : List ℕ) (q : Ret ℕ) (t : Fs W)
      → Allocated s v no_fd (q, t)
      → Returns (FileOpened opens refs s flags) (elim q [
        | err e ↦ ok (err e, t)
        | done i ↦ vfs_open ops paths stack path flags t >>= λ (r, u). elim r [
          | err e ↦ give_up ops i e u
          | done n ↦ open_at ops i n flags u
        ]
      ])
  alloc_result_lem stack path (err e) t w = rw w.0 (v, (λ j. refl), λ j used. refl)
  alloc_result_lem stack path (done i) t (h, free, e, first, same) = rw e (
      Returns-bind (Opened ops has (reserved s v i).fd_array v.ordered)
        (FileOpened opens refs s flags) (vfs_open ops paths stack path flags (reserved s v i)) _
        (vfs_open-Opened ops paths laws has v.ordered stack path flags (reserved s v i) old
          (reserved-IsBalanced i h free) room)
        λ a o.
          looked-FileOpened i (reserved s v i).fd_array a.0 a.1
            (reserved-IsHeld i h free (first refl)) o)

  -- file_open without O_CREAT, on a balanced descriptor table with room for one more reference to
  -- every inode, over inodes that can be opened, closed and queried, of which those that only the
  -- descriptors hold can be reclaimed and those that open for writing with O_TRUNC can be
  -- truncated, and over a path lookup that counts one reference to what it finds and changes no
  -- other count, returns: either the lowest free descriptor, which is now found and has the rights
  -- of the access mode, with every other entry as it was; or an error, with the same entries free
  -- and those in use as they were. In both cases the table is balanced, so that on no path a
  -- reference or an opening is lost.
  pub file_open-FileOpened :
      (stack : ℕ) (path : List ℕ)
      → Returns (FileOpened opens refs s flags) (file_open ops paths stack path flags s)
  unfolding file_open
  file_open-FileOpened stack path = elim (Bool-cases (o_accmode flags == 3)) [
    | inl bad ↦ rw bad (v, (λ j. refl), λ j used. refl)
    | inr mode ↦ rw mode (
        Returns-bind (Allocated s v no_fd) (FileOpened opens refs s flags) (fd_array_alloc no_fd s)
          _ (fd_array_alloc-Allocated s v no_fd) λ a w. alloc_result_lem stack path a.0 a.1 w)
  ]
