-- ===== src/Fs/Dup.antt =====
-- `file_dup`.
use lcore.Base.{
  ℕ, ◌<◌, ◌+◌, ◌≡◌, ◌≢◌, refl, ap, sym, ◌∙◌, true, false, arith, ◌==◌, length, get_or-set_ne,
  set-set, ok, Returns, Returns-bind, inl, inr,
}
use lcore.Fs.Defs.{Ret, done, err, no_fd, fd_init, fd_opened, File, NodeOps, Fs, is_opened, blank}
use lcore.Fs.Inode.{max_inode_count, inode_ref_inc, inode_open_inc}
use lcore.Fs.Table.{file_at, set_file, fd2file, fd_array_alloc, fd_array_open, fd_array_dup}
use lcore.Fs.Counts.{
  IsBalanced, users-set_file, file_at-set_file, testfd-lt, file_at-IsEntry, set_file-entries,
  set_file-size,
}
use lcore.Fs.Find.{fd2file-done, Ret-cases}
use lcore.Fs.Alloc.{is_free, reserved, Allocated, fd_array_alloc-Allocated}
use lcore.Fs.File.{file_dup, dup_into}

module _ {W : Type 0} (ops : NodeOps W) where
  -- The entry `i` becomes a copy of the entry `k`, whose inode is counted once more.
  abbrev copied : (i k : ℕ) → Fs W → File
  copied i k s =
      let f = file_at k s in
      record (file_at i s) {
        status = fd_opened;
        pos = f.pos;
        readable = f.readable;
        writable = f.writable;
        node = f.node;
        open_count = 1;
      }

  abbrev counted : ℕ → Fs W → Fs W
  counted n s = inode_open_inc ops n (inode_ref_inc ops n s)

  module _ {opens refs : ℕ → ℕ} (s : Fs W) (v : IsBalanced opens refs s) (i k : ℕ)
      (h : i < length s.fd_array) (hk : k < length s.fd_array) (free : is_free s.fd_array i ≡ true)
      (o : is_opened (file_at k s).status ≡ true)
      (room : (s.nodes (file_at k s).node).ref_count + 1 < max_inode_count) where
    i≢k : i ≢ k
    i≢k e = ground (arith, free, o)

    source_kept : file_at k (reserved s v i) ≡ file_at k s
    source_kept = get_or-set_ne s.fd_array i k _ (blank 0) i≢k

    dup_state :
        fd_array_dup ops i k (reserved s v i)
        ≡ ok (set_file i (copied i k s) (counted (file_at k s).node s))
    unfolding fd_array_dup fd_array_open inode_open_inc inode_ref_inc
    dup_state =
        let g : File = record (file_at i s) { status = fd_init; node = 0 } in
        let f : File = file_at k s in
        let g' : File = record g {
          pos = f.pos;
          readable = f.readable;
          writable = f.writable;
          node = f.node;
        } in
        let t : Fs W = counted f.node (reserved s v i) in
        let some_node : (f.node == 0) ≡ false = ground (arith, file_at-IsEntry v k hk) in
        let unused : (file_at i s).open_count ≡ 0 = ground (arith, file_at-IsEntry v i h) in
        let at_i : file_at i (reserved s v i) ≡ g = file_at-set_file s i g h in
        let at_i' : file_at i (set_file i g' s) ≡ g' = file_at-set_file s i g' h in
        rw (at_i, source_kept, o, set-set s.fd_array i g g', at_i', some_node, set-set, unused)

    dup-IsBalanced :
        IsBalanced opens refs (set_file i (copied i k s) (counted (file_at k s).node s))
    unfolding inode_open_inc inode_ref_inc
    dup-IsBalanced = record {
      size = set_file-size v i _;
      entries =
          set_file-entries v i _ (ground (arith, file_at-IsEntry v i h, file_at-IsEntry v k hk));
      open_count = λ n. ground (arith, v.open_count n, users-set_file s i (copied i k s) h n);
      ref_count = λ n. ground (arith, v.ref_count n, users-set_file s i (copied i k s) h n);
      ordered = v.ordered;
      bounded = λ n. ground (arith, v.bounded n, room);
    }

  module _ {opens refs : ℕ → ℕ} (s : Fs W) (v : IsBalanced opens refs s) (fd1 fd2 : ℕ)
      (room : (s.nodes (file_at fd1 s).node).ref_count + 1 < max_inode_count) where
    -- The answer of `file_dup` and the state that it leaves.
    abbrev pub Duplicated : Ret ℕ × Fs W → Type 0
    Duplicated (done i, t) =
        IsBalanced opens refs t
        × (fd2file i t ≡ done i)
        × ((file_at i t).node ≡ (file_at fd1 s).node)
        × ((file_at i t).pos ≡ (file_at fd1 s).pos)
        × ((file_at i t).readable ≡ (file_at fd1 s).readable)
        × ((file_at i t).writable ≡ (file_at fd1 s).writable)
        × (is_free s.fd_array i ≡ true)
        × (fd2 ≢ no_fd → i ≡ fd2)
        × ((j : ℕ) → j ≢ i → file_at j t ≡ file_at j s)
    Duplicated (err e, t) = t ≡ s

    dup_found :
        (i : ℕ)
        → i < length s.fd_array
        → fd1 < length s.fd_array
        → is_free s.fd_array i ≡ true
        → is_opened (file_at fd1 s).status ≡ true
        → (fd2 ≢ no_fd → i ≡ fd2)
        → Duplicated (done i, set_file i (copied i fd1 s) (counted (file_at fd1 s).node s))
    unfolding fd2file inode_open_inc inode_ref_inc
    dup_found i h hk free o same =
        let t : Fs W = counted (file_at fd1 s).node s in
        let at_i : file_at i (set_file i (copied i fd1 s) s) ≡ copied i fd1 s =
          file_at-set_file s i (copied i fd1 s) h in
        (
          dup-IsBalanced s v i fd1 h hk free o room,
          ground (arith, at_i, file_at-IsEntry v i h, v.size),
          ap (λ f. f.node) at_i,
          ap (λ f. f.pos) at_i,
          ap (λ f. f.readable) at_i,
          ap (λ f. f.writable) at_i,
          free,
          same,
          λ j ne. get_or-set_ne s.fd_array i j _ (blank 0) λ e. ne (sym e),
        )

    dup_into-Duplicated :
        (a : Ret ℕ × Fs W)
        → fd1 < length s.fd_array
        → is_opened (file_at fd1 s).status ≡ true
        → Allocated s v fd2 a
        → Returns Duplicated (dup_into ops fd1 a)
    unfolding dup_into inode_open_inc inode_ref_inc
    dup_into-Duplicated (err e, t) hk o w = w.0
    dup_into-Duplicated (done i, t) hk o (h, free, e, first, same) =
        let at_i : (file_at i (set_file i (copied i fd1 s) s)).fd ≡ i =
          ap (λ f. f.fd) (file_at-set_file s i (copied i fd1 s) h)
          ∙ (file_at-IsEntry v i h).index in
        rw (e, dup_state s v i fd1 h hk free o room, at_i) (dup_found i h hk free o same)

    -- file_dup on a balanced descriptor table whose source has an inode with room for one more
    -- reference returns: either an error and the state as it was, or the index of an entry that
    -- was free, the one asked for if any, which is now found, is open on the same inode with the
    -- same position and rights, and every other entry is as it was; the table is balanced still.
    pub file_dup-Duplicated : Returns Duplicated (file_dup ops fd1 fd2 s)
    unfolding file_dup
    file_dup-Duplicated = elim (Ret-cases (fd2file fd1 s)) [
      | inr (e, h) ↦ rw (h, file_dup) refl
      | inl (k, h) ↦
          let (same, t, o) = fd2file-done s fd1 k h in
          let found : fd2file fd1 s ≡ done fd1 = rw same at h in
          rw (found, file_dup)
            (Returns-bind (Allocated s v fd2) Duplicated (fd_array_alloc fd2 s) (dup_into ops fd1)
              (fd_array_alloc-Allocated s v fd2) λ a. dup_into-Duplicated a (testfd-lt v fd1 t) o)
    ]
