-- ===== src/Fs/Inode.antt =====
-- kern/fs/vfs/inode.c: the counters of an inode, and `vfs_close` of kern/fs/vfs/vfsfile.c.
use lcore.Base.{
  ℕ, ◌+◌, ◌-◌, Outcome, ok, ◌>>=◌, ◌>>◌, assert, ltb, leb, ◌&&◌, not, ◌==◌, if◌then◌else◌, update,
}
use lcore.Fs.Defs.{Inode, Vop, op_close, op_reclaim, NodeOps, Fs}

abbrev pub max_inode_count : ℕ
max_inode_count = 0x10000

module _ {W : Type 0} (ops : NodeOps W) where
  abbrev pub set_node : ℕ → Inode → Fs W → Fs W
  set_node n v s = record s { nodes = update s.nodes n v }

  -- What every `vop_` call checks; the magic number of the operations is not in the model.
  unfoldable pub inode_check : ℕ → Fs W → Outcome (Unit {0})
  inode_check n s = do
    assert (not (n == 0))
    assert (leb (s.nodes n).open_count (s.nodes n).ref_count)
    assert (ltb (s.nodes n).ref_count max_inode_count && ltb (s.nodes n).open_count max_inode_count)

  unfoldable pub inode_ref_inc : ℕ → Fs W → Fs W
  inode_ref_inc n s = set_node n (record (s.nodes n) { ref_count = (s.nodes n).ref_count + 1 }) s

  -- `__vop_op` of inode.h: what every call `vop_` asserts. That the inode is not NULL is asserted in
  -- `inode_check`.
  unfoldable pub vop_op : Vop → ℕ → Fs W → Outcome (Unit {0})
  vop_op op n s = do assert (ops.supplies op n s.world); inode_check n s

  -- The last reference gives the inode back to its file system; that call's error is only logged.
  unfoldable pub inode_ref_dec : ℕ → Fs W → Outcome (Fs W)
  inode_ref_dec n s = do
    assert (ltb 0 (s.nodes n).ref_count)
    let left = (s.nodes n).ref_count - 1
    let s' = set_node n (record (s.nodes n) { ref_count = left }) s
    if left == 0
        then (vop_op op_reclaim n s' >> ok (record s' { world = ops.vop_reclaim n s'.world }))
        else ok s'

  unfoldable pub inode_open_inc : ℕ → Fs W → Fs W
  inode_open_inc n s = set_node n (record (s.nodes n) { open_count = (s.nodes n).open_count + 1 }) s

  -- The last opening closes the file; that call's error is only logged.
  unfoldable pub inode_open_dec : ℕ → Fs W → Outcome (Fs W)
  inode_open_dec n s = do
    assert (ltb 0 (s.nodes n).open_count)
    let left = (s.nodes n).open_count - 1
    let s' = set_node n (record (s.nodes n) { open_count = left }) s
    if left == 0
        then (vop_op op_close n s' >> ok (record s' { world = ops.vop_close n s'.world }))
        else ok s'

  unfoldable pub vfs_close : ℕ → Fs W → Outcome (Fs W)
  vfs_close n s = inode_open_dec n s >>= inode_ref_dec n
