-- ===== src/Fs/Transfer.antt =====
-- `file_read` and `file_write`: the entry is held during the call.
use lcore.Base.{
  panic, assert, not, ℕ, ◌+◌, ◌-◌, ◌%◌, ◌^◌, ◌<◌, ◌≡◌, refl, Bool, true, false, ◌&&◌, arith, ltb,
  ◌==◌, if◌then◌else◌, length, set, List, set-set, ok, Bool-cases, inl, inr,
}
use lcore.Fs.Defs.{
  Ret, done, err, e_inval, File, Iobuf, Vop, op_read, op_write, NodeOps, Fs, is_opened,
}
use lcore.Fs.Inode.{inode_check, vop_op}
use lcore.Fs.Table.{file_at, set_file, testfd, fd2file, fd_array_acquire, fd_array_release}
use lcore.Fs.Counts.{
  IsEntry, IsBalanced, file_at-set_file, testfd-lt, file_at-IsEntry, set_file-IsBalanced,
}
use lcore.Fs.Find.{fd2file-done, fd2file-err, Ret-cases}
use lcore.Fs.File.{iobuf_init, iobuf_used, transfer, file_read, file_write}

module _ {W : Type 0} (ops : NodeOps W) where
  -- Whether the descriptor is open.
  abbrev pub is_open : ℕ → Fs W → Bool
  is_open fd s = testfd fd && is_opened (file_at fd s).status

  -- Whether the descriptor is open with the right asked for, on an inode that has no such function.
  abbrev pub lacks : Vop → (allowed : File → Bool) → (fd : ℕ) → Fs W → Bool
  lacks op allowed fd s =
      is_open fd s && (allowed (file_at fd s) && not (ops.supplies op (file_at fd s).node s.world))

  -- The call on the inode at the file's position, and the position moved on by what was copied.
  abbrev pub moved :
      (ℕ → Iobuf → W → Ret (Unit {0}) × Iobuf × W)
      → (i base len : ℕ) → Fs W
      → Ret (Unit {0}) × ℕ × Fs W
  moved io i base len s =
      let f = file_at i s in
      let (r, b, w) = io f.node (iobuf_init base len f.pos) s.world in
      (
        r,
        iobuf_used b,
        set_file i (record f { pos = (f.pos + iobuf_used b) % 2 ^ 32 }) (record s { world = w }),
      )

  module _ {opens refs : ℕ → ℕ} (s : Fs W) (v : IsBalanced opens refs s) where
    -- A call on an open entry's inode asserts just that the function is there.
    vop_op-held :
        (op : Vop) (i : ℕ) (l : List File)
        → i < length s.fd_array
        → is_opened (file_at i s).status ≡ true
        → vop_op ops op (file_at i s).node (record s { fd_array = l })
          ≡ assert (ops.supplies op (file_at i s).node s.world)
    unfolding vop_op inode_check
    vop_op-held op i l h o =
        let n = (file_at i s).node in
        ground (
          arith,
          (file_at-IsEntry v i h).has_node (ground arith),
          v.open_count n,
          v.ref_count n,
          v.ordered n,
          v.bounded n,
        )

    transfer-moved :
        (op : Vop) (io : ℕ → Iobuf → W → Ret (Unit {0}) × Iobuf × W) (i base len : ℕ)
        → i < length s.fd_array
        → is_opened (file_at i s).status ≡ true
        → ops.supplies op (file_at i s).node s.world ≡ true
        → transfer ops op io i base len s ≡ ok (moved io i base len s)
    unfolding transfer fd_array_acquire fd_array_release
    transfer-moved op io i base len h o has =
        let g : File = record (file_at i s) { open_count = (file_at i s).open_count + 1 } in
        let at_i : file_at i (set_file i g s) ≡ g = file_at-set_file s i g h in
        let (r, b, w) = io (file_at i s).node (iobuf_init base len (file_at i s).pos) s.world in
        let some_use : ltb 0 ((file_at i s).open_count + 1) ≡ true = ground arith in
        let back : (file_at i s).open_count + 1 - 1 ≡ (file_at i s).open_count = omega arith in
        let still : ((file_at i s).open_count == 0) ≡ false =
          ground (arith, (file_at-IsEntry v i h).counted (ground arith)) in
        let g' : File = record g { pos = (g.pos + iobuf_used b) % 2 ^ 32 } in
        let at_i' : file_at i (set_file i g' s) ≡ g' = file_at-set_file s i g' h in
        rw (
          o,
          at_i,
          vop_op-held op i (set s.fd_array i g) h o,
          has,
          o,
          set-set s.fd_array i g g',
          at_i',
          o,
          some_use,
          back,
          still,
          set-set,
        )

    transfer-panic :
        (op : Vop) (io : ℕ → Iobuf → W → Ret (Unit {0}) × Iobuf × W) (i base len : ℕ)
        → i < length s.fd_array
        → is_opened (file_at i s).status ≡ true
        → ops.supplies op (file_at i s).node s.world ≡ false
        → transfer ops op io i base len s ≡ panic
    unfolding transfer fd_array_acquire
    transfer-panic op io i base len h o none =
        let g : File = record (file_at i s) { open_count = (file_at i s).open_count + 1 } in
        let at_i : file_at i (set_file i g s) ≡ g = file_at-set_file s i g h in
        rw (o, at_i, vop_op-held op i (set s.fd_array i g) h o, none)

    moved-IsBalanced :
        (io : ℕ → Iobuf → W → Ret (Unit {0}) × Iobuf × W) (i base len : ℕ)
        → i < length s.fd_array
        → IsBalanced opens refs (moved io i base len s).2
    moved-IsBalanced io i base len h =
        let e = file_at-IsEntry v i h in
        let g : File = record (file_at i s) {
          pos =
              ((file_at i s).pos
                + iobuf_used
                    (io (file_at i s).node (iobuf_init base len (file_at i s).pos) s.world).1)
              % 2 ^ 32;
        } in
        let e' : IsEntry i g = record {
          index = e.index;
          counted = e.counted;
          uncounted = e.uncounted;
          has_node = e.has_node;
        } in
        let b = set_file-IsBalanced v i g h e' (λ n. refl) in
        record {
          size = b.size;
          entries = b.entries;
          open_count = b.open_count;
          ref_count = b.ref_count;
          ordered = b.ordered;
          bounded = b.bounded;
        }

    not_open : (fd i : ℕ) → fd2file fd s ≡ err i → is_open fd s ≡ false
    unfolding fd2file
    not_open fd i e = elim (Bool-cases (testfd fd)) [
      | inr out ↦ ground (arith, out)
      | inl within ↦ ground (arith, file_at-IsEntry v fd (testfd-lt v fd within), e)
    ]

    -- What `file_read` and `file_write` answer, with the right that they ask for.
    abbrev pub transferred :
        (ℕ → Iobuf → W → Ret (Unit {0}) × Iobuf × W)
        → (allowed : File → Bool) → (fd base len : ℕ) → Ret (Unit {0}) × ℕ × Fs W
    transferred io allowed fd base len =
        if is_open fd s && allowed (file_at fd s)
        then moved io fd base len s
        else (err e_inval, 0, s)

    choice-IsBalanced :
        (io : ℕ → Iobuf → W → Ret (Unit {0}) × Iobuf × W) (fd base len : ℕ) (c : Bool)
        → (c ≡ true → fd < length s.fd_array)
        → IsBalanced opens refs (if c then moved io fd base len s else (err e_inval, 0, s)).2
    choice-IsBalanced io fd base len false h = v
    choice-IsBalanced io fd base len true h = moved-IsBalanced io fd base len (h refl)

    transferred-IsBalanced :
        (io : ℕ → Iobuf → W → Ret (Unit {0}) × Iobuf × W) (allowed : File → Bool) (fd base len : ℕ)
        → IsBalanced opens refs (transferred io allowed fd base len).2
    transferred-IsBalanced io allowed fd base len =
        choice-IsBalanced io fd base len (is_open fd s && allowed (file_at fd s))
          λ h. testfd-lt v fd (ground arith)

    -- file_read on a balanced descriptor table: on a descriptor that is open for reading on an
    -- inode whose table has no vop_read it is a panic; on one whose table has it, it returns the
    -- answer of one call of vop_read at the file's position, and that position is moved on by what
    -- was copied, with every count as before; on any other it returns E_INVAL with nothing
    -- changed. Whenever it returns, the table is balanced still.
    pub file_read-transferred :
        (fd base len : ℕ)
        → (file_read ops fd base len s ≡ (
            if lacks op_read (λ f. f.readable) fd s
            then panic
            else ok (transferred ops.vop_read (λ f. f.readable) fd base len)))
          × IsBalanced opens refs (transferred ops.vop_read (λ f. f.readable) fd base len).2
    unfolding file_read
    file_read-transferred fd base len = (
      elim (Ret-cases (fd2file fd s)) [
        | inr (e, h) ↦ rw (h, file_read, fd2file-err s fd e h, not_open fd e h)
        | inl (k, h) ↦
            let (same, t, o) = fd2file-done s fd k h in
            let found : fd2file fd s ≡ done fd = rw same at h in
            let at : fd < length s.fd_array = testfd-lt v fd t in
            elim (Bool-cases (file_at fd s).readable) [
              | inl may ↦ elim (Bool-cases (ops.supplies op_read (file_at fd s).node s.world)) [
                | inl has ↦ rw (
                  found,
                  file_read,
                  transfer-moved op_read ops.vop_read fd base len at o has,
                  may,
                  t,
                  o,
                  has,
                )
                | inr none ↦ rw (
                  found,
                  file_read,
                  transfer-panic op_read ops.vop_read fd base len at o none,
                  may,
                  t,
                  o,
                  none,
                )
              ]
              | inr may_not ↦ rw (found, file_read, may_not, t, o)
            ]
      ],
      transferred-IsBalanced ops.vop_read (λ f. f.readable) fd base len,
    )

    -- file_write on a balanced descriptor table: on a descriptor that is open for writing on an
    -- inode whose table has no vop_write it is a panic; on one whose table has it, it returns the
    -- answer of one call of vop_write at the file's position, and that position is moved on by
    -- what was copied, with every count as before; on any other it returns E_INVAL with nothing
    -- changed. Whenever it returns, the table is balanced still.
    pub file_write-transferred :
        (fd base len : ℕ)
        → (file_write ops fd base len s ≡ (
            if lacks op_write (λ f. f.writable) fd s
            then panic
            else ok (transferred ops.vop_write (λ f. f.writable) fd base len)))
          × IsBalanced opens refs (transferred ops.vop_write (λ f. f.writable) fd base len).2
    unfolding file_write
    file_write-transferred fd base len = (
      elim (Ret-cases (fd2file fd s)) [
        | inr (e, h) ↦ rw (h, file_write, fd2file-err s fd e h, not_open fd e h)
        | inl (k, h) ↦
            let (same, t, o) = fd2file-done s fd k h in
            let found : fd2file fd s ≡ done fd = rw same at h in
            let at : fd < length s.fd_array = testfd-lt v fd t in
            elim (Bool-cases (file_at fd s).writable) [
              | inl may ↦ elim (Bool-cases (ops.supplies op_write (file_at fd s).node s.world)) [
                | inl has ↦ rw (
                  found,
                  file_write,
                  transfer-moved op_write ops.vop_write fd base len at o has,
                  may,
                  t,
                  o,
                  has,
                )
                | inr none ↦ rw (
                  found,
                  file_write,
                  transfer-panic op_write ops.vop_write fd base len at o none,
                  may,
                  t,
                  o,
                  none,
                )
              ]
              | inr may_not ↦ rw (found, file_write, may_not, t, o)
            ]
      ],
      transferred-IsBalanced ops.vop_write (λ f. f.writable) fd base len,
    )
