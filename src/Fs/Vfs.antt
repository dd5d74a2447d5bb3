-- ===== src/Fs/Vfs.antt =====
-- kern/fs/vfs/vfsfile.c: `vfs_open`.
use lcore.Base.{
  ℕ, ◌/◌, ◌%◌, Bool, not, ◌&&◌, ◌||◌, List, Outcome, ok, ◌>>=◌, ◌>>◌, assert, ◌==◌, if◌then◌else◌,
}
use lcore.Fs.Defs.{
  Ret, done, err, e_inval, e_noent, e_exists, op_open, op_truncate, op_create, NodeOps, PathOps, Fs,
}
use lcore.Fs.Inode.{vop_op, inode_ref_dec, inode_open_inc, inode_open_dec}

-- The flags of `open`, by their bits.
abbrev pub o_accmode : ℕ → ℕ
o_accmode flags = flags % 4

abbrev pub o_creat : ℕ → Bool
o_creat flags = flags / 4 % 2 == 1

abbrev pub o_excl : ℕ → Bool
o_excl flags = flags / 8 % 2 == 1

abbrev pub o_trunc : ℕ → Bool
o_trunc flags = flags / 16 % 2 == 1

abbrev pub o_append : ℕ → Bool
o_append flags = flags / 32 % 2 == 1

module _ {W : Type 0} (ops : NodeOps W) where
  -- The end of `vfs_open` when the truncation has failed.
  unfoldable pub undo_open : ℕ → ℕ → Fs W → Outcome (Ret ℕ × Fs W)
  undo_open n e s = do s' ← inode_open_dec ops n s; s'' ← inode_ref_dec ops n s'; ok (err e, s'')

  unfoldable pub truncate_opened : ℕ → Fs W → Outcome (Ret ℕ × Fs W)
  truncate_opened n s = do
    vop_op ops op_truncate n s
    let (r, w) = ops.vop_truncate n 0 s.world
    let s' = record s { world = w }
    elim r [ err e ↦ undo_open n e s' | done _ ↦ ok (done n, s') ]

  -- From `assert(node != NULL)` on.
  unfoldable pub open_node : ℕ → ℕ → Fs W → Outcome (Ret ℕ × Fs W)
  open_node n flags s = do
    assert (not (n == 0))
    vop_op ops op_open n s
    let (r, w) = ops.vop_open n flags s.world
    let s' = record s { world = w }
    elim r [
      | err e ↦ inode_ref_dec ops n s' >>= λ t. ok (err e, t)
      | done _ ↦
          let t = inode_open_inc ops n s' in
          if o_trunc flags || o_creat flags then truncate_opened n t else ok (done n, t)
    ]

-- What `node` holds after `vop_create`: if it fails, the word that was on the stack.
abbrev pub created : ℕ → Ret ℕ → ℕ
created stack (done n) = n
created stack (err e) = stack

module _ {W : Type 0} (ops : NodeOps W) (paths : PathOps W) where
  unfoldable pub create_node : (stack : ℕ) → List ℕ → ℕ → Fs W → Outcome (Ret ℕ × Fs W)
  create_node stack path flags s =
      let (r, s') = paths.vfs_lookup_parent path s in
      elim r [
        | err e ↦ ok (err e, s')
        | done (dir, name) ↦ do
          vop_op ops op_create dir s'
          let (c, t) = paths.vop_create dir name (o_excl flags) s'
          open_node ops (created stack c) flags t
      ]

  unfoldable pub vfs_open : (stack : ℕ) → List ℕ → ℕ → Fs W → Outcome (Ret ℕ × Fs W)
  vfs_open stack path flags s =
      if o_accmode flags == 3
      then ok (err e_inval, s)
      else (if o_trunc flags && (o_accmode flags == 0)
          then ok (err e_inval, s)
          else (let (r, s') = paths.vfs_lookup path s in
              elim r [
                | err e ↦
                    if (e == e_noent) && o_creat flags
                    then create_node stack path flags s'
                    else ok (err e, s')
                | done n ↦
                    if o_excl flags && o_creat flags
                    then ok (err e_exists, s')
                    else open_node ops n flags s'
              ]))
