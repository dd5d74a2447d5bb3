-- ===== src/Sfs/Dir.antt =====
-- kern/fs/sfs/sfs_inode.c: directories, and the operations on an inode that change no block map. A
-- directory has one entry in each of its blocks; `kmalloc` has the memory for one.
use lcore.Base.{
  ℕ, zero, suc, ◌+◌, ◌-◌, ◌/◌, ◌%◌, true, false, not, ◌&&◌, List, [], ◌∷◌, Outcome, ok, panic,
  ◌>>=◌, ◌>>◌, assert, ltb, leb, ◌==◌, if◌then◌else◌,
}
use lcore.Fs.Defs.{Ret, done, err, e_noent}
use lcore.Fs.Vfs.{o_accmode, o_append}
use lcore.Text.Defs.{strcmp, strlen}
use lcore.Sfs.Defs.{
  Bytes, sfs_type_file, sfs_type_dir, sfs_type_link, get_word, word_bytes, DiskInode, SfsInode,
  DeviceOps, Sfs,
}
use lcore.Sfs.Io.{sfs_rbuf, sfs_wbuf}
use lcore.Sfs.Bmap.{sfs_block_inuse, sfs_bmap_load_nolock}

abbrev sfs_max_fname_len : ℕ
sfs_max_fname_len = 255

-- `struct sfs_disk_entry`
pub record DiskEntry : Type 0 where
  pub ino : ℕ
  pub name : List ℕ

abbrev bytes_from : (n pos : ℕ) → Bytes → List ℕ
bytes_from zero pos m = 0 ∷ []
bytes_from (suc n) pos m = m pos ∷ bytes_from n (pos + 1) m

-- The entry in 260 bytes of memory, with the null that ends every name.
unfoldable pub entry_of : Bytes → DiskEntry
entry_of m = record { ino = get_word m 0; name = bytes_from sfs_max_fname_len 4 m }

module _ {W : Type 0} (ops : DeviceOps W) where
  unfoldable pub sfs_dirent_read_nolock :
      (slot : ℕ) → SfsInode → Sfs W → Outcome (Ret DiskEntry × SfsInode × Sfs W)
  sfs_dirent_read_nolock slot sin s =
      assert ((sin.din.type == sfs_type_dir) && ltb slot sin.din.blocks)
      >> (sfs_bmap_load_nolock ops slot sin s >>= λ (r, sin', t). elim r [
        | err e ↦ ok (err e, sin', t)
        | done ino ↦ sfs_block_inuse ops ino t >>= λ used.
            assert used
            >> (sfs_rbuf ops (λ k. 0) 260 ino 0 t >>= λ (q, bytes, u). elim q [
              | err e ↦ ok (err e, sin', u)
              | done _ ↦ ok (done (entry_of bytes), sin', u)
            ])
      ])

  -- The loop of `sfs_dirent_search_nolock`: `n` slots are left, and `empty` is the last one that
  -- was empty. Answers the slot and the inode number.
  unfoldable pub search_slots :
      (n slot empty : ℕ) (name : List ℕ)
      → SfsInode
      → Sfs W
      → Outcome (Ret (ℕ × ℕ) × ℕ × SfsInode × Sfs W)
  search_slots zero slot empty name sin s = ok (err e_noent, empty, sin, s)
  search_slots (suc n) slot empty name sin s = sfs_dirent_read_nolock slot sin s >>= λ (r, sin', t).
      elim r [
        | err e ↦ ok (err e, empty, sin', t)
        | done entry ↦
            let later = search_slots n (slot + 1) empty name sin' t in
            let after_empty = search_slots n (slot + 1) slot name sin' t in
            if entry.ino == 0
            then after_empty
            else (strcmp name entry.name >>= λ c.
                if c == 0 then ok (done (slot, entry.ino), empty, sin', t) else later)
      ]

  unfoldable pub sfs_dirent_search_nolock :
      (name : List ℕ) → SfsInode → Sfs W → Outcome (Ret (ℕ × ℕ) × ℕ × SfsInode × Sfs W)
  sfs_dirent_search_nolock name sin s = strlen name >>= λ len.
      assert (leb len sfs_max_fname_len) >> search_slots sin.din.blocks 0 sin.din.blocks name sin s

  -- The loop of `sfs_dirent_findino_nolock`.
  unfoldable pub find_ino :
      (n slot ino : ℕ) → SfsInode → Sfs W → Outcome (Ret DiskEntry × SfsInode × Sfs W)
  find_ino zero slot ino sin s = ok (err e_noent, sin, s)
  find_ino (suc n) slot ino sin s = sfs_dirent_read_nolock slot sin s >>= λ (r, sin', t). elim r [
    | err e ↦ ok (err e, sin', t)
    | done entry ↦
        let later = find_ino n (slot + 1) ino sin' t in
        if entry.ino == ino then ok (done entry, sin', t) else later
  ]

  unfoldable pub sfs_dirent_findino_nolock :
      (ino : ℕ) → SfsInode → Sfs W → Outcome (Ret DiskEntry × SfsInode × Sfs W)
  sfs_dirent_findino_nolock ino sin s = find_ino sin.din.blocks 0 ino sin s

  -- The loop of `sfs_getdirentry_sub_nolock`; `skip` used slots are to be passed over.
  unfoldable pub nth_entry :
      (n slot skip : ℕ) → SfsInode → Sfs W → Outcome (Ret DiskEntry × SfsInode × Sfs W)
  nth_entry zero slot skip sin s = ok (err e_noent, sin, s)
  nth_entry (suc n) slot skip sin s = sfs_dirent_read_nolock slot sin s >>= λ (r, sin', t). elim r [
    | err e ↦ ok (err e, sin', t)
    | done entry ↦
        let same = nth_entry n (slot + 1) skip sin' t in
        let fewer = nth_entry n (slot + 1) (skip - 1) sin' t in
        if entry.ino == 0 then same else if skip == 0 then ok (done entry, sin', t) else fewer
  ]

  unfoldable pub sfs_getdirentry_sub_nolock :
      (slot : ℕ) → SfsInode → Sfs W → Outcome (Ret DiskEntry × SfsInode × Sfs W)
  sfs_getdirentry_sub_nolock slot sin s = nth_entry sin.din.blocks 0 slot sin s

  -- `struct sfs_disk_inode` as it lies in memory.
  abbrev inode_bytes : DiskInode → Bytes
  inode_bytes din k =
      if ltb k 4
      then word_bytes din.size k
      else if ltb k 6
      then word_bytes din.type (k - 4)
      else if ltb k 8
      then word_bytes din.nlinks (k - 6)
      else if ltb k 12
      then word_bytes din.blocks (k - 8)
      else if ltb k 60
      then word_bytes (din.direct ((k - 12) / 4)) ((k - 12) % 4)
      else word_bytes din.indirect (k - 60)

  unfoldable pub sfs_fsync : SfsInode → Sfs W → Outcome (Ret (Unit {0}) × SfsInode × Sfs W)
  sfs_fsync sin s =
      let clean = record sin { dirty = false } in
      if sin.dirty
      then (sfs_wbuf ops (inode_bytes sin.din) 64 sin.ino 0 s >>= λ (r, t). elim r [
        | err e ↦ ok (err e, record clean { dirty = true }, t)
        | done _ ↦ ok (done tt, clean, t)
      ])
      else ok (done tt, sin, s)

-- `sfs_opendir`: a directory is opened for reading alone. `-E_ISDIR` is 17.
abbrev e_isdir : ℕ
e_isdir = 17

unfoldable pub sfs_opendir : ℕ → Ret (Unit {0})
sfs_opendir open_flags =
    if not (o_accmode open_flags == 0)
    then err e_isdir
    else if o_append open_flags
    then err e_isdir
    else done tt

-- `S_IFDIR`, `S_IFREG` and `S_IFLNK` are octal 20000, 10000 and 30000.
unfoldable pub sfs_gettype : SfsInode → Outcome (Ret ℕ)
sfs_gettype sin =
    if sin.din.type == sfs_type_dir
    then ok (done 8192)
    else if sin.din.type == sfs_type_file
    then ok (done 4096)
    else if sin.din.type == sfs_type_link
    then ok (done 12288)
    else panic
