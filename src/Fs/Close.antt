-- ===== src/Fs/Close.antt =====
-- `file_close` and the release of an entry.
use lcore.Base.{
  ℕ, ◌-◌, ◌<◌, ◌≤◌, ◌≢◌, ◌≡◌, refl, ap, true, false, arith, ltb, ◌==◌, if◌then◌else◌, length,
  update, ok, Returns, inl, inr, dec_lt, ◌↔◌,
}
use lcore.Fs.Defs.{
  Ret, done, err, e_inval, fd_none, fd_closed, File, Inode, op_close, op_reclaim, NodeOps, Fs,
  is_opened, blank,
}
use lcore.Fs.Inode.{max_inode_count, inode_check, vop_op, inode_open_dec, inode_ref_dec, vfs_close}
use lcore.Fs.Table.{file_at, set_file, fd2file, fd_array_free, fd_array_close}
use lcore.Fs.Counts.{
  in_use, holds, bit, users, IsBalanced, users-set_file, file_at-set_file, set_file-set_file,
  testfd-lt, file_at-IsEntry, set_file-entries, set_file-size, set_file-IsBalanced,
}
use lcore.Fs.Lend.{IsSupplied}
use lcore.Fs.Find.{fd2file-closed, fd2file-done, fd2file-err, Ret-cases}
use lcore.Fs.File.{file_close}

module _ {W : Type 0} (ops : NodeOps W) where
  -- The state after `vfs_close(n)`: the counters are down by one, and what reached zero is told to
  -- the file system.
  abbrev pub released : ℕ → Fs W → Fs W
  released n s =
      let v = s.nodes n in
      let v' : Inode = record v { open_count = v.open_count - 1 } in
      let w = if v.open_count == 1 then ops.vop_close n s.world else s.world in
      record s {
        nodes = update (update s.nodes n v') n (record v' { ref_count = v.ref_count - 1 });
        world = if v.ref_count == 1 then ops.vop_reclaim n w else w;
      }

  pub vfs_close-released :
      (n : ℕ) (s : Fs W)
      → 0 < (s.nodes n).open_count
      → (s.nodes n).open_count ≤ (s.nodes n).ref_count
      → (s.nodes n).ref_count < max_inode_count
      → n ≢ 0
      → ((w : W) → ops.supplies op_close n w ≡ true)
      → ((s.nodes n).ref_count ≡ 1 → (w : W) → ops.supplies op_reclaim n w ≡ true)
      → vfs_close ops n s ≡ ok (released n s)
  unfolding vfs_close inode_open_dec inode_ref_dec vop_op inode_check
  vfs_close-released n s o r b ne c d =
      let last_close : (s.nodes n).open_count ≡ 1 → ops.supplies op_close n s.world ≡ true =
        λ e. c s.world in
      let last_use : (s.nodes n).ref_count ≡ 1
          → (ops.supplies op_reclaim n s.world ≡ true)
            × (ops.supplies op_reclaim n (ops.vop_close n s.world) ≡ true) =
        λ e. (d e s.world, d e (ops.vop_close n s.world)) in
      ground arith

  -- Giving up the last use of an entry.
  abbrev emptied : ℕ → Fs W → Fs W
  emptied i s =
      set_file i (record (file_at i s) { status = fd_none; open_count = 0 })
        (released (file_at i s).node s)

  module _ {opens refs : ℕ → ℕ} (s : Fs W) (v : IsBalanced opens refs s) (i : ℕ)
      (h : i < length s.fd_array) where
    held : in_use (file_at i s).status ≡ true → holds (file_at i s).node (file_at i s) ≡ true
    held u = ground (arith, u)

    has_users : in_use (file_at i s).status ≡ true → 0 < users (file_at i s).node s.fd_array
    has_users u = omega (arith, users-set_file s i (blank 0) h (file_at i s).node, ap bit (held u))

    emptied-IsBalanced : in_use (file_at i s).status ≡ true → IsBalanced opens refs (emptied i s)
    emptied-IsBalanced u = record {
      size = set_file-size v i _;
      entries = set_file-entries v i _ (ground (arith, file_at-IsEntry v i h));
      open_count = λ n. ground (
        arith,
        v.open_count n,
        users-set_file s i (record (file_at i s) { status = fd_none; open_count = 0 }) h n,
      );
      ref_count = λ n. ground (
        arith,
        v.ref_count n,
        users-set_file s i (record (file_at i s) { status = fd_none; open_count = 0 }) h n,
      );
      ordered = v.ordered;
      bounded = λ n. ground (arith, v.bounded n);
    }

    -- `fd_array_free` of a closed entry.
    free-emptied :
        (has : IsSupplied ops refs) (f : File)
        → f.node ≡ (file_at i s).node
        → in_use (file_at i s).status ≡ true
        → fd_array_free ops i (set_file i (record f { status = fd_closed; open_count = 0 }) s)
          ≡ ok (set_file i (record f { status = fd_none; open_count = 0 }) (released f.node s))
    unfolding fd_array_free
    free-emptied has f e u =
        let g : File = record f { status = fd_closed; open_count = 0 } in
        let some_users : 0 < users f.node s.fd_array = rw e (has_users u) in
        let o : 0 < (s.nodes f.node).open_count = omega (arith, v.open_count f.node, some_users) in
        let r : (s.nodes f.node).open_count ≤ (s.nodes f.node).ref_count =
          omega (arith, v.ref_count f.node, v.open_count f.node, v.ordered f.node) in
        let some_node : f.node ≢ 0 = rw e ((file_at-IsEntry v i h).has_node u) in
        rw
          (
            file_at-set_file s i g h,
            vfs_close-released f.node (set_file i g s) o r (v.bounded f.node) some_node
                (has.closes f.node)
                λ last w.
                  has.reclaims f.node w (omega (arith, v.ref_count f.node, some_users, last)),
          )
          (rw (file_at-set_file (released f.node s) i g h)
            (ap ok (set_file-set_file (released f.node s) i g _)))

    -- `fd_array_close` of an open entry: emptied at its last use, and closed until then.
    close_last :
        IsSupplied ops refs
        → is_opened (file_at i s).status ≡ true
        → (file_at i s).open_count ≡ 1
        → fd_array_close ops i s ≡ ok (emptied i s)
    unfolding fd_array_close
    close_last has o e =
        let some_use : ltb 0 (file_at i s).open_count ≡ true = ground arith in
        let no_use : (file_at i s).open_count - 1 ≡ 0 = omega arith in
        rw (o, some_use, no_use) (free-emptied has (file_at i s) refl (ground arith))

    close_shared :
        is_opened (file_at i s).status ≡ true
        → 1 < (file_at i s).open_count
        → fd_array_close ops i s
          ≡ ok (
              set_file i
                (record (file_at i s) {
                  status = fd_closed;
                  open_count = (file_at i s).open_count - 1;
                })
                s)
    unfolding fd_array_close
    close_shared o e =
        let some_use : ltb 0 (file_at i s).open_count ≡ true = ground arith in
        let more_uses : ((file_at i s).open_count - 1 == 0) ≡ false = ground arith in
        rw (o, some_use, more_uses)

    closed-IsBalanced :
        is_opened (file_at i s).status ≡ true
        → 1 < (file_at i s).open_count
        → IsBalanced opens refs (
            set_file i
              (record (file_at i s) {
                status = fd_closed;
                open_count = (file_at i s).open_count - 1;
              })
              s)
    closed-IsBalanced o e =
        set_file-IsBalanced v i _ h (ground (arith, file_at-IsEntry v i h)) λ n. ground arith

  module _ {opens refs : ℕ → ℕ} (has : IsSupplied ops refs) (s : Fs W) (v : IsBalanced opens refs s)
      (fd : ℕ) where
    abbrev pub Closed : Ret (Unit {0}) × Fs W → Type 0
    Closed (r, t) =
        (fd2file fd t ≡ err e_inval)
        × IsBalanced opens refs t
        × ((r ≡ done tt) ↔ (fd2file fd s ≡ done fd))

    -- file_close on a balanced descriptor table, over inodes that can be opened, closed and
    -- queried, of which those that only the descriptors hold can be reclaimed and those that open
    -- for writing with O_TRUNC can be truncated, returns: afterwards the descriptor is not found,
    -- the table is balanced still, so the inode has lost the references of the entry if and only
    -- if its last use is gone, and the call succeeds exactly if the descriptor was open.
    pub file_close-Closed : Returns Closed (file_close ops fd s)
    unfolding file_close
    file_close-Closed = elim (Ret-cases (fd2file fd s)) [
      | inr (e, h) ↦
          rw (h, file_close) (rw h (ap err (fd2file-err s fd e h)), v, (λ q. cc, λ q. cc))
      | inl (i, h) ↦
          let (same, t, o) = fd2file-done s fd i h in
          let found : fd2file fd s ≡ done fd = rw same at h in
          let at : fd < length s.fd_array = testfd-lt v fd t in
          let counted = (file_at-IsEntry v fd at).counted (ground arith) in
          elim (dec_lt 1 (file_at fd s).open_count) [
            | yes shared ↦
                rw (found, file_close, close_shared s v fd at o shared)
                  (
                    fd2file-closed s fd _ at refl,
                    closed-IsBalanced s v fd at o shared,
                    (λ q. found, λ q. refl),
                  )
            | no last ↦
                rw (found, file_close, close_last s v fd at has o (omega arith))
                  (
                    fd2file-closed (released (file_at fd s).node s) fd _ at refl,
                    emptied-IsBalanced s v fd at (ground arith),
                    (λ q. found, λ q. refl),
                  )
          ]
    ]
