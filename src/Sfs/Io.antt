-- ===== src/Sfs/Io.antt =====
-- kern/fs/sfs/sfs_io.c: transfers of blocks and parts of blocks. Each runs with `io_sem` held, so
-- none is interrupted by another.
pub mod Laws
use lcore.Base.{
  ℕ, zero, suc, ◌+◌, ◌*◌, ◌%◌, ◌/◌, ◌^◌, Bool, true, false, not, ◌&&◌, ◌||◌, Outcome, ok, ◌>>=◌,
  ◌>>◌, assert, ltb, leb, ◌==◌, if◌then◌else◌,
}
use lcore.Fs.Defs.{Ret, done, err}
use lcore.Fs.Bitmap.{bitmap_getdata}
use lcore.Sfs.Defs.{Bytes, sfs_blksize, copy_to, word_bytes, DeviceOps, Sfs}

-- The answer, the memory that was written or read, and the file system.
abbrev pub Moved : Type 0 → Type 0
Moved W = Outcome (Ret (Unit {0}) × Bytes × Sfs W)

-- The answer alone.
abbrev pub Synced : Type 0 → Type 0
Synced W = Outcome (Ret (Unit {0}) × Sfs W)

module _ {W : Type 0} (ops : DeviceOps W) where
  unfoldable pub sfs_rwblock_nolock :
      (buf : Bytes) (blkno : ℕ) (write check : Bool) → Sfs W → Moved W
  sfs_rwblock_nolock buf blkno write check s =
      assert ((not (blkno == 0) || not check) && ltb blkno s.blocks)
      >> (let r = ops.dop_io (blkno * sfs_blksize % 2 ^ 32) sfs_blksize buf write s.dev in
          ok (r.0, r.1, record s { dev = r.2 }))

  -- The loop of `sfs_rwblock`; `n` blocks are left, and `pos` bytes of `buf` are done.
  unfoldable pub rw_blocks : (n blkno pos : ℕ) (write : Bool) (buf : Bytes) → Sfs W → Moved W
  rw_blocks zero blkno pos write buf s = ok (done tt, buf, s)
  rw_blocks (suc n) blkno pos write buf s =
      sfs_rwblock_nolock (λ k. buf (pos + k)) blkno write true s >>= λ (r, bytes, t).
      let buf' = copy_to pos sfs_blksize bytes buf in
      elim r [
        | done _ ↦ rw_blocks n ((blkno + 1) % 2 ^ 32) (pos + sfs_blksize) write buf' t
        | err e ↦ ok (err e, buf', t)
      ]

  unfoldable pub sfs_rwblock : (buf : Bytes) (blkno nblks : ℕ) (write : Bool) → Sfs W → Moved W
  sfs_rwblock buf blkno nblks write s = rw_blocks nblks blkno 0 write buf s

  unfoldable pub sfs_rblock : (buf : Bytes) (blkno nblks : ℕ) → Sfs W → Moved W
  sfs_rblock buf blkno nblks s = sfs_rwblock buf blkno nblks false s

  unfoldable pub sfs_wblock : (buf : Bytes) (blkno nblks : ℕ) → Sfs W → Moved W
  sfs_wblock buf blkno nblks s = sfs_rwblock buf blkno nblks true s

  -- `offset` is not negative.
  abbrev in_block : (len offset : ℕ) → Bool
  in_block len offset = ltb offset sfs_blksize && leb (offset + len) sfs_blksize

  unfoldable pub sfs_rbuf : (buf : Bytes) (len blkno offset : ℕ) → Sfs W → Moved W
  sfs_rbuf buf len blkno offset s =
      assert (in_block len offset)
      >> (sfs_rwblock_nolock s.sfs_buffer blkno false true s >>= λ (r, bytes, t).
          let t' = record t { sfs_buffer = bytes } in
          elim r [
            | done _ ↦ ok (done tt, copy_to 0 len (λ k. bytes (offset + k)) buf, t')
            | err e ↦ ok (err e, buf, t')
          ])

  unfoldable pub sfs_wbuf : (buf : Bytes) (len blkno offset : ℕ) → Sfs W → Synced W
  sfs_wbuf buf len blkno offset s =
      assert (in_block len offset)
      >> (sfs_rwblock_nolock s.sfs_buffer blkno false true s >>= λ (r, bytes, t). elim r [
        | done _ ↦
            sfs_rwblock_nolock (copy_to offset len buf bytes) blkno true true t >>= λ (q, left, u).
            ok (q, record u { sfs_buffer = left })
        | err e ↦ ok (err e, record t { sfs_buffer = bytes })
      ])

  -- `struct sfs_super` as it lies in memory.
  abbrev super_bytes : Sfs W → Bytes
  super_bytes s = copy_to 0 4 (word_bytes s.magic) (
      copy_to 4 4 (word_bytes s.blocks)
        (copy_to 8 4 (word_bytes s.unused_blocks) (copy_to 12 32 s.info (λ k. 0))))

  unfoldable pub sfs_sync_super : Sfs W → Synced W
  sfs_sync_super s =
      sfs_rwblock_nolock (copy_to 0 44 (super_bytes s) (λ k. 0)) 0 true false s >>= λ (r, left, t).
      ok (r, record t { sfs_buffer = left })

  -- The bytes of the bitmap's words, least first.
  abbrev byte_of : (ℕ → ℕ → Bool) → Bytes
  byte_of map k =
      let bit : ℕ → ℕ = λ i. if map (k / 4) (k % 4 * 8 + i) then 2 ^ i else 0 in
      bit 0 + bit 1 + bit 2 + bit 3 + bit 4 + bit 5 + bit 6 + bit 7

  unfoldable pub sfs_sync_freemap : Sfs W → Synced W
  sfs_sync_freemap s =
      sfs_wblock (byte_of (bitmap_getdata s.freemap).0) 2 ((s.blocks + 32767) % 2 ^ 32 / 32768) s
      >>= λ (r, left, t). ok (r, t)

  -- The loop of `sfs_clear_block`; the buffer is zeros, and `n` blocks are left.
  unfoldable pub clear_blocks : (n blkno : ℕ) → Sfs W → Synced W
  clear_blocks zero blkno s = ok (done tt, s)
  clear_blocks (suc n) blkno s =
      sfs_rwblock_nolock s.sfs_buffer blkno true true s >>= λ (r, left, t).
      let t' = record t { sfs_buffer = left } in
      elim r [ done _ ↦ clear_blocks n ((blkno + 1) % 2 ^ 32) t' | err e ↦ ok (err e, t') ]

  -- With `nblks` not 0, as every caller has it (else the answer is not set).
  unfoldable pub sfs_clear_block : (blkno nblks : ℕ) → Sfs W → Synced W
  sfs_clear_block blkno nblks s = clear_blocks nblks blkno (record s { sfs_buffer = λ k. 0 })
