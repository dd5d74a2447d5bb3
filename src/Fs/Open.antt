-- ===== src/Fs/Open.antt =====
-- `vfs_open` of a path without O_CREAT: who holds the inode afterwards.
use lcore.Base.{
  ℕ, ◌+◌, ◌≤◌, ◌<◌, ◌≡◌, ◌≢◌, refl, true, false, ok, arith, ◌==◌, ◌&&◌, ◌||◌, if◌then◌else◌, List,
  Returns, Returns-bind, ◌>>=◌, Bool-cases, inl, inr,
}
use lcore.Fs.Defs.{
  Ret, done, err, e_noent, e_exists, File, Vop, op_open, op_truncate, NodeOps, PathOps, Fs,
}
use lcore.Fs.Inode.{
  max_inode_count, inode_check, vop_op, inode_ref_dec, inode_open_inc, inode_open_dec,
}
use lcore.Fs.Counts.{bit, IsBalanced}
use lcore.Fs.Lend.{
  plus, IsWith, IsSupplied, vop_op-lent, ref_dec-lent, open_dec-lent, open_inc-lent,
}
use lcore.Fs.Vfs.{
  o_accmode, o_creat, o_excl, o_trunc, undo_open, truncate_opened, open_node, create_node, vfs_open,
}

-- What `vfs_open` relies on in path lookup: a node that is found is counted once more, and no other
-- count changes.
pub record PathLaws {W : Type 0} (paths : PathOps W) : Type 0 where
  pub lookup_done :
      (path : List ℕ) (n : ℕ) (s t : Fs W)
      → paths.vfs_lookup path s ≡ (done n, t)
      → (n ≢ 0)
        × (t.fd_array ≡ s.fd_array)
        × ((m : ℕ) → (t.nodes m).open_count ≡ (s.nodes m).open_count)
        × ((m : ℕ) → (t.nodes m).ref_count ≡ (s.nodes m).ref_count + bit (m == n))
  pub lookup_err :
      (path : List ℕ) (e : ℕ) (s t : Fs W)
      → paths.vfs_lookup path s ≡ (err e, t)
      → (t.fd_array ≡ s.fd_array) × (t.nodes ≡ s.nodes)

module _ {W : Type 0} (ops : NodeOps W) {opens refs : ℕ → ℕ} (has : IsSupplied ops refs)
    (l : List File) (order : (m : ℕ) → opens m ≤ refs m) where
  -- A new world behind the inodes.
  pub world-IsWith :
      {o r : ℕ → ℕ} (s : Fs W) (w : W) → IsWith l o r s → IsWith l o r (record s { world = w })
  world-IsWith s w v =
      let b = v.balanced in
      record {
        balanced = record {
          size = b.size;
          entries = b.entries;
          open_count = b.open_count;
          ref_count = b.ref_count;
          ordered = b.ordered;
          bounded = b.bounded;
        };
        table = v.table;
      }

  -- The caller holds one opening of, and one reference to, the inode that is answered.
  abbrev pub Opened : Ret ℕ × Fs W → Type 0
  Opened (done n, t) = (n ≢ 0) × IsWith l (plus opens n) (plus refs n) t
  Opened (err e, t) = IsWith l opens refs t

  module _ (n : ℕ) (some_node : n ≢ 0) where
    undo_open-Opened :
        (e : ℕ) (s : Fs W)
        → IsWith l (plus opens n) (plus refs n) s
        → Returns Opened (undo_open ops n e s)
    unfolding undo_open
    undo_open-Opened e s v =
        Returns-bind (IsWith l opens (plus refs n)) Opened (inode_open_dec ops n s) _
          (open_dec-lent ops l n some_node order s has v)
          λ t w.
            Returns-bind (IsWith l opens refs) Opened (inode_ref_dec ops n t) _
              (ref_dec-lent ops l n some_node order t has w) λ u x. x

    pub vop_op-opened :
        (op : Vop) (s : Fs W)
        → ops.supplies op n s.world ≡ true
        → IsWith l (plus opens n) (plus refs n) s
        → vop_op ops op n s ≡ ok tt
    unfolding vop_op inode_check
    vop_op-opened op s h v =
        let b = v.balanced in
        rw h (ground (arith, b.open_count n, b.ref_count n, b.ordered n, b.bounded n))

    truncated-Opened :
        (r : Ret (Unit {0})) (s : Fs W)
        → IsWith l (plus opens n) (plus refs n) s
        → Returns Opened (elim r [ err e ↦ undo_open ops n e s | done _ ↦ ok (done n, s) ])
    truncated-Opened (done u) s v = (some_node, v)
    truncated-Opened (err e) s v = undo_open-Opened e s v

    truncate_opened-Opened :
        (s : Fs W)
        → ops.supplies op_truncate n s.world ≡ true
        → IsWith l (plus opens n) (plus refs n) s
        → Returns Opened (truncate_opened ops n s)
    unfolding truncate_opened
    truncate_opened-Opened s h v = rw (vop_op-opened op_truncate s h v) (
        truncated-Opened (ops.vop_truncate n 0 s.world).0 _
          (world-IsWith s (ops.vop_truncate n 0 s.world).1 v))

    open_result_lem :
        (flags : ℕ) (r : Ret (Unit {0})) (s : Fs W)
        → ((o_trunc flags || o_creat flags) ≡ true
            → r ≡ done tt
            → ops.supplies op_truncate n s.world ≡ true)
        → IsWith l opens (plus refs n) s
        → Returns Opened (elim r [
          | err e ↦ inode_ref_dec ops n s >>= λ t. ok (err e, t)
          | done _ ↦
              let t = inode_open_inc ops n s in
              if o_trunc flags || o_creat flags then truncate_opened ops n t else ok (done n, t)
        ])
    unfolding inode_open_inc
    open_result_lem flags (err e) s cuts v =
        Returns-bind (IsWith l opens refs) Opened (inode_ref_dec ops n s) _
          (ref_dec-lent ops l n some_node order s has v) λ t w. w
    open_result_lem flags (done u) s cuts v =
        let w = open_inc-lent ops l n some_node order s v in
        elim (Bool-cases (o_trunc flags || o_creat flags)) [
          | inl cut ↦ rw cut (truncate_opened-Opened _ (cuts cut refl) w)
          | inr whole ↦ rw whole (some_node, w)
        ]

    pub open_node-Opened :
        (flags : ℕ) (s : Fs W)
        → ((o_trunc flags || o_creat flags) ≡ true
            → (ops.vop_open n flags s.world).0 ≡ done tt
            → ops.supplies op_truncate n (ops.vop_open n flags s.world).1 ≡ true)
        → IsWith l opens (plus refs n) s
        → Returns Opened (open_node ops n flags s)
    unfolding open_node
    open_node-Opened flags s cuts v =
        let named : (n == 0) ≡ false = ground arith in
        rw (named, vop_op-lent ops l n some_node order s op_open (has.opens n s.world) v)
          (open_result_lem flags (ops.vop_open n flags s.world).0 _ cuts
            (world-IsWith s (ops.vop_open n flags s.world).1 v))

module _ {W : Type 0} (ops : NodeOps W) (paths : PathOps W) (laws : PathLaws paths)
    {opens refs : ℕ → ℕ} (has : IsSupplied ops refs) (order : (m : ℕ) → opens m ≤ refs m) where
  open laws use {lookup_done, lookup_err}

  looked_up-Opened :
      (stack : ℕ) (path : List ℕ) (flags : ℕ) (s : Fs W)
      → o_creat flags ≡ false
      → (o_trunc flags && (o_accmode flags == 0)) ≡ false
      → IsBalanced opens refs s
      → ((m : ℕ) → (s.nodes m).ref_count + 1 < max_inode_count)
      → (r : Ret ℕ) (t : Fs W) → paths.vfs_lookup path s ≡ (r, t)
      → Returns (Opened ops has s.fd_array order) (elim r [
        | err e ↦
            if (e == e_noent) && o_creat flags
            then create_node ops paths stack path flags t
            else ok (err e, t)
        | done n ↦
            if o_excl flags && o_creat flags then ok (err e_exists, t) else open_node ops n flags t
      ])
  looked_up-Opened stack path flags s old fine b room (err e) t q =
      let (table, nodes) = lookup_err path e s t q in
      let missing : ((e == e_noent) && o_creat flags) ≡ false = ground (arith, old) in
      rw missing (record {
        balanced = record {
          size = rw table b.size;
          entries = rw table b.entries;
          open_count = λ m. rw (table, nodes) (b.open_count m);
          ref_count = λ m. rw (table, nodes) (b.ref_count m);
          ordered = order;
          bounded = λ m. rw nodes (b.bounded m);
        };
        table = table;
      })
  looked_up-Opened stack path flags s old fine b room (done n) t q =
      let (some_node, table, opened, counted) = lookup_done path n s t q in
      let exclusive : (o_excl flags && o_creat flags) ≡ false = ground (arith, old) in
      rw exclusive (
        open_node-Opened ops has s.fd_array order n some_node flags t
          (λ c q.
            has.truncates n flags t.world (ground (arith, old, c)) (ground (arith, old, c, fine)) q)
          (record {
            balanced = record {
              size = rw table b.size;
              entries = rw table b.entries;
              open_count = λ m. rw table (omega (arith, opened m, b.open_count m));
              ref_count = λ m. rw table (omega (arith, counted m, b.ref_count m));
              ordered = λ m. omega (arith, order m);
              bounded = λ m. ground (arith, counted m, room m);
            };
            table = table;
          }))

  -- With room in every count, `vfs_open` without O_CREAT.
  pub vfs_open-Opened :
      (stack : ℕ) (path : List ℕ) (flags : ℕ) (s : Fs W)
      → o_creat flags ≡ false
      → IsBalanced opens refs s
      → ((m : ℕ) → (s.nodes m).ref_count + 1 < max_inode_count)
      → Returns (Opened ops has s.fd_array order) (vfs_open ops paths stack path flags s)
  unfolding vfs_open
  vfs_open-Opened stack path flags s old b room =
      let v : IsWith s.fd_array opens refs s = record { balanced = b; table = refl } in
      elim (Bool-cases (o_accmode flags == 3)) [
        | inl bad ↦ rw bad v
        | inr mode ↦ elim (Bool-cases (o_trunc flags && (o_accmode flags == 0))) [
          | inl cut ↦ rw (mode, cut) v
          | inr fine ↦
              rw (mode, fine)
                (looked_up-Opened stack path flags s old fine b room (paths.vfs_lookup path s).0 _
                  refl)
        ]
      ]
