-- ===== src/Fs/Lend.antt =====
-- The counters while a function holds a reference or an opening of an inode that is in no entry yet.
use lcore.Base.{
  ℕ, ◌+◌, ◌-◌, ◌≤◌, ◌≡◌, ◌≢◌, true, false, ok, arith, ltb, leb, ◌==◌, List, update, Returns,
  Returns-bind, Bool-cases, inl, inr,
}
use lcore.Fs.Defs.{
  File, Vop, op_open, op_close, op_reclaim, op_fstat, op_truncate, done, NodeOps, Fs,
}
use lcore.Fs.Inode.{
  max_inode_count, inode_check, vop_op, inode_ref_dec, inode_open_inc, inode_open_dec, vfs_close,
}
use lcore.Fs.Vfs.{o_accmode, o_trunc}
use lcore.Fs.Counts.{bit, IsBalanced}

-- One more of the inode `n`.
abbrev pub plus : (ℕ → ℕ) → ℕ → ℕ → ℕ
plus c n m = c m + bit (m == n)

-- What the tables of the inodes supply: all have the functions to open, to close and to query; those
-- without one to reclaim, the devices, are held by others than the descriptors; and those without
-- one to truncate, devices and directories, do not open for writing with O_TRUNC.
pub record IsSupplied {W : Type 0} (ops : NodeOps W) (refs : ℕ → ℕ) : Type 0 where
  pub opens : (n : ℕ) (w : W) → ops.supplies op_open n w ≡ true
  pub closes : (n : ℕ) (w : W) → ops.supplies op_close n w ≡ true
  pub queries : (n : ℕ) (w : W) → ops.supplies op_fstat n w ≡ true
  pub reclaims : (n : ℕ) (w : W) → refs n ≡ 0 → ops.supplies op_reclaim n w ≡ true
  pub truncates :
      (n flags : ℕ) (w : W)
      → o_trunc flags ≡ true
      → o_accmode flags ≢ 0
      → (ops.vop_open n flags w).0 ≡ done tt
      → ops.supplies op_truncate n (ops.vop_open n flags w).1 ≡ true

-- The state is balanced, and its table is `l`.
pub record IsWith {W : Type 0} (l : List File) (opens refs : ℕ → ℕ) (s : Fs W) : Type 0 where
  pub balanced : IsBalanced opens refs s
  pub table : s.fd_array ≡ l

module _ {W : Type 0} (ops : NodeOps W) {opens refs : ℕ → ℕ} (l : List File) (n : ℕ)
    (some_node : n ≢ 0) (order : (m : ℕ) → opens m ≤ refs m) (s : Fs W) where
  pub vop_op-lent :
      (op : Vop)
      → ops.supplies op n s.world ≡ true
      → IsWith l opens (plus refs n) s
      → vop_op ops op n s ≡ ok tt
  unfolding vop_op inode_check
  vop_op-lent op h v =
      let b = v.balanced in
      rw h (ground (arith, b.open_count n, b.ref_count n, b.ordered n, b.bounded n))

  -- The state after `inode_ref_dec`.
  abbrev dropped : W → Fs W
  dropped w = record s {
    nodes = update s.nodes n (record (s.nodes n) { ref_count = (s.nodes n).ref_count - 1 });
    world = w;
  }

  dropped-IsWith : (w : W) → IsWith l opens (plus refs n) s → IsWith l opens refs (dropped w)
  dropped-IsWith w v =
      let b = v.balanced in
      record {
        balanced = record {
          size = b.size;
          entries = b.entries;
          open_count = λ m. ground (arith, b.open_count m);
          ref_count = λ m. ground (arith, b.ref_count m);
          ordered = order;
          bounded = λ m. ground (arith, b.bounded m);
        };
        table = v.table;
      }

  pub ref_dec-lent :
      IsSupplied ops refs
      → IsWith l opens (plus refs n) s
      → Returns (IsWith l opens refs) (inode_ref_dec ops n s)
  unfolding inode_ref_dec vop_op inode_check
  ref_dec-lent has v =
      let b = v.balanced in
      let some_ref : ltb 0 (s.nodes n).ref_count ≡ true = ground (arith, b.ref_count n) in
      let named : (n == 0) ≡ false = ground arith in
      let order_kept : leb (s.nodes n).open_count ((s.nodes n).ref_count - 1) ≡ true =
        ground (arith, b.open_count n, b.ref_count n, order n) in
      let few : ltb ((s.nodes n).ref_count - 1) max_inode_count ≡ true =
        ground (arith, b.bounded n) in
      let few_opens : ltb (s.nodes n).open_count max_inode_count ≡ true =
        ground (arith, b.bounded n, b.open_count n, b.ref_count n, order n) in
      let itself : (n == n) ≡ true = ground arith in
      elim (Bool-cases ((s.nodes n).ref_count - 1 == 0)) [
        | inl last ↦
            rw
              (
                some_ref,
                last,
                has.reclaims n s.world (ground (arith, b.ref_count n)),
                itself,
                named,
                order_kept,
                few,
                few_opens,
              )
              (dropped-IsWith (ops.vop_reclaim n s.world) v)
        | inr more ↦ rw (some_ref, more) (dropped-IsWith s.world v)
      ]

  abbrev shut : W → Fs W
  shut w = record s {
    nodes = update s.nodes n (record (s.nodes n) { open_count = (s.nodes n).open_count - 1 });
    world = w;
  }

  shut-IsWith :
      (w : W) → IsWith l (plus opens n) (plus refs n) s → IsWith l opens (plus refs n) (shut w)
  shut-IsWith w v =
      let b = v.balanced in
      record {
        balanced = record {
          size = b.size;
          entries = b.entries;
          open_count = λ m. ground (arith, b.open_count m);
          ref_count = λ m. ground (arith, b.ref_count m);
          ordered = λ m. omega (arith, order m);
          bounded = λ m. ground (arith, b.bounded m);
        };
        table = v.table;
      }

  pub open_dec-lent :
      IsSupplied ops refs
      → IsWith l (plus opens n) (plus refs n) s
      → Returns (IsWith l opens (plus refs n)) (inode_open_dec ops n s)
  unfolding inode_open_dec vop_op inode_check
  open_dec-lent has v =
      let b = v.balanced in
      let some_open : ltb 0 (s.nodes n).open_count ≡ true = ground (arith, b.open_count n) in
      let named : (n == 0) ≡ false = ground arith in
      let order_kept : leb ((s.nodes n).open_count - 1) (s.nodes n).ref_count ≡ true =
        ground (arith, b.open_count n, b.ref_count n, order n) in
      let few : ltb (s.nodes n).ref_count max_inode_count ≡ true = ground (arith, b.bounded n) in
      let few_opens : ltb ((s.nodes n).open_count - 1) max_inode_count ≡ true =
        ground (arith, b.bounded n, b.open_count n, b.ref_count n, order n) in
      let itself : (n == n) ≡ true = ground arith in
      elim (Bool-cases ((s.nodes n).open_count - 1 == 0)) [
        | inl last ↦
            rw (some_open, last, has.closes n s.world, itself, named, order_kept, few, few_opens)
              (shut-IsWith (ops.vop_close n s.world) v)
        | inr more ↦ rw (some_open, more) (shut-IsWith s.world v)
      ]

  pub open_inc-lent :
      IsWith l opens (plus refs n) s
      → IsWith l (plus opens n) (plus refs n) (inode_open_inc ops n s)
  unfolding inode_open_inc
  open_inc-lent v =
      let b = v.balanced in
      record {
        balanced = record {
          size = b.size;
          entries = b.entries;
          open_count = λ m. ground (arith, b.open_count m);
          ref_count = λ m. ground (arith, b.ref_count m);
          ordered = λ m. omega (arith, order m);
          bounded = λ m. ground (arith, b.bounded m);
        };
        table = v.table;
      }

module _ {W : Type 0} (ops : NodeOps W) {opens refs : ℕ → ℕ} (l : List File) (n : ℕ)
    (some_node : n ≢ 0) (order : (m : ℕ) → opens m ≤ refs m) (s : Fs W) where
  pub close-lent :
      IsSupplied ops refs
      → IsWith l (plus opens n) (plus refs n) s
      → Returns (IsWith l opens refs) (vfs_close ops n s)
  unfolding vfs_close
  close-lent has v =
      Returns-bind (IsWith l opens (plus refs n)) (IsWith l opens refs) (inode_open_dec ops n s) _
        (open_dec-lent ops l n some_node order s has v)
        λ t w. ref_dec-lent ops l n some_node order t has w
