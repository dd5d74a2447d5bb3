-- ===== src/Sfs/Bmap.antt =====
-- kern/fs/sfs/sfs_inode.c: the blocks of the file system and the map from a file's blocks to them.
-- Each function runs with the inode's semaphore held.
use lcore.Base.{
  ℕ, ◌+◌, ◌-◌, ◌*◌, ◌%◌, ◌^◌, Bool, true, not, ◌&&◌, ◌||◌, Outcome, ok, panic, ◌>>=◌, ◌>>◌, assert,
  ltb, leb, ◌==◌, if◌then◌else◌, update,
}
use lcore.Fs.Defs.{Ret, done, err}
use lcore.Fs.Bitmap.{bitmap_alloc, bitmap_test, bitmap_free}
use lcore.Sfs.Defs.{sfs_ndirect, sfs_blk_nentry, get_word, word_bytes, SfsInode, DeviceOps, Sfs}
use lcore.Sfs.Io.{sfs_rbuf, sfs_wbuf, sfs_clear_block}

module _ {W : Type 0} (ops : DeviceOps W) where
  unfoldable pub sfs_block_inuse : ℕ → Sfs W → Outcome Bool
  sfs_block_inuse ino s =
      if not (ino == 0) && ltb ino s.blocks
      then (bitmap_test ino s.freemap >>= λ free. ok (not free))
      else panic

  abbrev assert_inuse : ℕ → Sfs W → Outcome (Unit {0})
  assert_inuse ino s = sfs_block_inuse ino s >>= λ used. assert used

  unfoldable pub sfs_block_alloc : Sfs W → Outcome (Ret ℕ × Sfs W)
  sfs_block_alloc s = bitmap_alloc s.freemap >>= λ (r, map).
      let t = record s { freemap = map; unused_blocks = s.unused_blocks - 1; super_dirty = true } in
      elim r [
        | err e ↦ ok (err e, record s { freemap = map })
        | done ino ↦
            assert (ltb 0 s.unused_blocks)
            >> (sfs_block_inuse ino t >>= λ used.
                assert used
                >> (sfs_clear_block ops ino 1 t >>= λ (q, u). elim q [
                  | done _ ↦ ok (done ino, u)
                  | err e ↦ ok (err e, u)
                ]))
      ]

  unfoldable pub sfs_block_free : ℕ → Sfs W → Outcome (Sfs W)
  sfs_block_free ino s = sfs_block_inuse ino s >>= λ used.
      assert used
      >> (bitmap_free ino s.freemap >>= λ map. ok (record s {
        freemap = map;
        unused_blocks = (s.unused_blocks + 1) % 2 ^ 32;
        super_dirty = true;
      }))

  -- `failed_cleanup`: a block of entries that was allocated here is given back.
  unfoldable pub cleanup : (entp ent e : ℕ) → Sfs W → Outcome (Ret ℕ × ℕ × Sfs W)
  cleanup entp ent e s =
      if ent == entp
      then ok (err e, entp, s)
      else (sfs_block_free ent s >>= λ t. ok (err e, entp, t))

  -- The second half of `sfs_bmap_get_sub_nolock`: a new block and its entry.
  unfoldable pub alloc_entry : (entp ent index : ℕ) → Sfs W → Outcome (Ret ℕ × ℕ × Sfs W)
  alloc_entry entp ent index s = sfs_block_alloc s >>= λ (r, t). elim r [
    | err e ↦ cleanup entp ent e t
    | done ino ↦ sfs_wbuf ops (word_bytes ino) 4 ent (index * 4) t >>= λ (q, u). elim q [
      | done _ ↦ ok (done ino, ent, u)
      | err e ↦ sfs_block_free ino u >>= λ v. cleanup entp ent e v
    ]
  ]

  -- Answers the block, 0 for none, and the block of entries.
  unfoldable pub sfs_bmap_get_sub_nolock :
      (entp index : ℕ) (create : Bool) → Sfs W → Outcome (Ret ℕ × ℕ × Sfs W)
  sfs_bmap_get_sub_nolock entp index create s =
      let present : Outcome (Ret ℕ × ℕ × Sfs W) =
        sfs_rbuf ops (word_bytes 0) 4 entp (index * 4) s >>= λ (r, bytes, t). elim r [
          | err e ↦ ok (err e, entp, t)
          | done _ ↦
              let ino = get_word bytes 0 in
              if not (ino == 0) || not create
              then ok (done ino, entp, t)
              else alloc_entry entp entp index t
        ] in
      let absent : Outcome (Ret ℕ × ℕ × Sfs W) = sfs_block_alloc s >>= λ (r, t). elim r [
        | err e ↦ ok (err e, entp, t)
        | done ent ↦ alloc_entry entp ent index t
      ] in
      assert (ltb index sfs_blk_nentry)
      >> (if not (entp == 0) then present else if not create then ok (done 0, entp, s) else absent)

  -- The label `out` of `sfs_bmap_get_nolock`.
  abbrev pub got : ℕ → SfsInode → Sfs W → Outcome (Ret ℕ × SfsInode × Sfs W)
  got ino sin s =
      let result : Outcome (Ret ℕ × SfsInode × Sfs W) = ok (done ino, sin, s) in
      if ino == 0 then result else (sfs_block_inuse ino s >>= λ used. assert used >> result)

  unfoldable pub sfs_bmap_get_nolock :
      (index : ℕ) (create : Bool) → SfsInode → Sfs W → Outcome (Ret ℕ × SfsInode × Sfs W)
  sfs_bmap_get_nolock index create sin s =
      let din = sin.din in
      let allocated : Outcome (Ret ℕ × SfsInode × Sfs W) = sfs_block_alloc s >>= λ (r, t). elim r [
        | err e ↦ ok (err e, sin, t)
        | done ino ↦
            let din' = record din { direct = update din.direct index ino } in
            got ino (record sin { din = din'; dirty = true }) t
      ] in
      let sub : Outcome (Ret ℕ × SfsInode × Sfs W) =
        sfs_bmap_get_sub_nolock din.indirect (index - sfs_ndirect) create s >>= λ (r, ent, t).
        elim r [
          | err e ↦ ok (err e, sin, t)
          | done ino ↦
              let sin' = record sin { din = record din { indirect = ent }; dirty = true } in
              if ent == din.indirect
              then got ino sin t
              else assert (din.indirect == 0) >> got ino sin' t
        ] in
      if ltb index sfs_ndirect
      then (if din.direct index == 0 && create then allocated else got (din.direct index) sin s)
      else if ltb (index - sfs_ndirect) sfs_blk_nentry
      then sub
      else panic

  unfoldable pub sfs_bmap_free_sub_nolock :
      (ent index : ℕ) → Sfs W → Outcome (Ret (Unit {0}) × Sfs W)
  sfs_bmap_free_sub_nolock ent index s = sfs_block_inuse ent s >>= λ used.
      assert (used && ltb index sfs_blk_nentry)
      >> (sfs_rbuf ops (word_bytes 0) 4 ent (index * 4) s >>= λ (r, bytes, t). elim r [
        | err e ↦ ok (err e, t)
        | done _ ↦
            let ino = get_word bytes 0 in
            if ino == 0
            then ok (done tt, t)
            else (sfs_wbuf ops (word_bytes 0) 4 ent (index * 4) t >>= λ (q, u). elim q [
              | err e ↦ ok (err e, u)
              | done _ ↦ sfs_block_free ino u >>= λ v. ok (done tt, v)
            ])
      ])

  unfoldable pub sfs_bmap_free_nolock :
      ℕ → SfsInode → Sfs W → Outcome (Ret (Unit {0}) × SfsInode × Sfs W)
  sfs_bmap_free_nolock index sin s =
      let din = sin.din in
      let nothing : Outcome (Ret (Unit {0}) × SfsInode × Sfs W) = ok (done tt, sin, s) in
      let sin' = record sin {
        din = record din { direct = update din.direct index 0 };
        dirty = true;
      } in
      if ltb index sfs_ndirect
      then (if din.direct index == 0
          then nothing
          else (sfs_block_free (din.direct index) s >>= λ t. ok (done tt, sin', t)))
      else if ltb (index - sfs_ndirect) sfs_blk_nentry && not (din.indirect == 0)
      then (sfs_bmap_free_sub_nolock din.indirect (index - sfs_ndirect) s >>= λ (r, t).
          ok (r, sin, t))
      else nothing

  unfoldable pub sfs_bmap_load_nolock : ℕ → SfsInode → Sfs W → Outcome (Ret ℕ × SfsInode × Sfs W)
  sfs_bmap_load_nolock index sin s =
      let create = index == sin.din.blocks in
      assert (leb index sin.din.blocks)
      >> (sfs_bmap_get_nolock index create sin s >>= λ (r, sin1, t). elim r [
        | err e ↦ ok (err e, sin1, t)
        | done ino ↦ sfs_block_inuse ino t >>= λ used.
            let din' = record sin1.din { blocks = (sin1.din.blocks + 1) % 2 ^ 32 } in
            assert used >> ok (done ino, (if create then record sin1 { din = din' } else sin1), t)
      ])

  unfoldable pub sfs_bmap_truncate_nolock :
      SfsInode → Sfs W → Outcome (Ret (Unit {0}) × SfsInode × Sfs W)
  sfs_bmap_truncate_nolock sin s =
      assert (not (sin.din.blocks == 0))
      >> (sfs_bmap_free_nolock (sin.din.blocks - 1) sin s >>= λ (r, sin1, t). elim r [
        | err e ↦ ok (err e, sin1, t)
        | done _ ↦
            let din' = record sin1.din { blocks = sin1.din.blocks - 1 } in
            ok (done tt, record sin1 { din = din'; dirty = true }, t)
      ])
