-- ===== src/Sfs/Io/Laws.antt =====
-- What the transfers of kern/fs/sfs/sfs_io.c do to the blocks of the device.
use lcore.Base.{
  ℕ, ◌+◌, ◌-◌, ◌*◌, ◌%◌, ◌^◌, ◌≤◌, ◌<◌, ◌≡◌, ◌≢◌, refl, true, false, ok, ltb, leb, ◌==◌, Returns,
  Returns-bind, arith, ◌∙◌, ◌>>=◌,
}
use lcore.Fs.Defs.{Ret, done, err}
use lcore.Sfs.Defs.{Bytes, sfs_blksize, copy_to, DeviceOps, Sfs, IsDevice, HasRead, HasWritten}
use lcore.Sfs.Io.{
  sfs_rwblock_nolock, rw_blocks, sfs_rwblock, sfs_rblock, sfs_wblock, sfs_rbuf, sfs_wbuf,
  clear_blocks, sfs_clear_block,
}

module _ {W : Type 0} (content : W → ℕ → Bytes) where
  -- A block of the file system other than that of the super block.
  abbrev pub IsBlock : ℕ → Sfs W → Type 0
  IsBlock b s = (b ≢ 0) × (b < s.blocks) × (s.blocks * sfs_blksize ≤ 2 ^ 31)

  abbrev pub SameFs : (s t : Sfs W) → Type 0
  SameFs s t = (t.blocks ≡ s.blocks) × (t.unused_blocks ≡ s.unused_blocks) × (t.freemap ≡ s.freemap)

  abbrev pub Unchanged : (s t : Sfs W) → Type 0
  Unchanged s t = SameFs s t × ((c k : ℕ) → content t.dev c k ≡ content s.dev c k)

  -- `len` bytes at `pos` of the block `b` are those of `src`.
  abbrev pub Wrote : (b pos len : ℕ) (src : Bytes) → (s t : Sfs W) → Type 0
  Wrote b pos len src s t =
      SameFs s t
      × ((c k : ℕ) → c ≢ b → content t.dev c k ≡ content s.dev c k)
      × ((k : ℕ) → k < sfs_blksize → content t.dev b k ≡ copy_to pos len src (content s.dev b) k)

  abbrev pub ReadsTo :
      (len b offset : ℕ) (buf : Bytes) (s : Sfs W) → Ret (Unit {0}) × Bytes × Sfs W → Type 0
  ReadsTo len b offset buf s (done _, out, t) =
      Unchanged s t × ((k : ℕ) → out k ≡ copy_to 0 len (λ j. content s.dev b (offset + j)) buf k)
  ReadsTo len b offset buf s (err e, out, t) = Unchanged s t × ((k : ℕ) → len ≤ k → out k ≡ buf k)

  abbrev pub WritesTo : (b pos len : ℕ) (src : Bytes) (s : Sfs W) → Ret (Unit {0}) × Sfs W → Type 0
  WritesTo b pos len src s (done _, t) = Wrote b pos len src s t
  WritesTo b pos len src s (err e, t) = Unchanged s t

module _ {W : Type 0} {ops : DeviceOps W} {content : W → ℕ → Bytes} (d : IsDevice ops content) where
  module _ (b : ℕ) (s : Sfs W) (h : IsBlock content b s) where
    place_of : (b * sfs_blksize % 2 ^ 32 ≡ b * sfs_blksize) × (b * sfs_blksize < 2 ^ 31)
    place_of = (omega (arith, h.1, h.2), omega (arith, h.1, h.2))

    abbrev BlockRead : Ret (Unit {0}) × Bytes × Sfs W → Type 0
    BlockRead (r, bytes, t) = SameFs content s t × HasRead content b s.dev (r, bytes, t.dev)

    rwblock_read : (buf : Bytes) → Returns BlockRead (sfs_rwblock_nolock ops buf b false true s)
    unfolding sfs_rwblock_nolock
    rwblock_read buf =
        let named : (b == 0) ≡ false = ground (arith, h.0) in
        let inside : ltb b s.blocks ≡ true = ground (arith, h.1) in
        rw (named, inside, place_of.0) ((refl, refl, refl), d.read b buf s.dev place_of.1)

    abbrev BlockWritten : Bytes → Ret (Unit {0}) × Bytes × Sfs W → Type 0
    BlockWritten buf (r, bytes, t) =
        SameFs content s t × HasWritten content b buf s.dev (r, bytes, t.dev)

    rwblock_write :
        (buf : Bytes) → Returns (BlockWritten buf) (sfs_rwblock_nolock ops buf b true true s)
    unfolding sfs_rwblock_nolock
    rwblock_write buf =
        let named : (b == 0) ≡ false = ground (arith, h.0) in
        let inside : ltb b s.blocks ≡ true = ground (arith, h.1) in
        rw (named, inside, place_of.0) ((refl, refl, refl), d.write b buf s.dev place_of.1)

  module _ (b : ℕ) (s : Sfs W) (h : IsBlock content b s) where
    pub sfs_rbuf-ReadsTo :
        (buf : Bytes) (len offset : ℕ)
        → offset < sfs_blksize
        → offset + len ≤ sfs_blksize
        → Returns (ReadsTo content len b offset buf s) (sfs_rbuf ops buf len b offset s)
    unfolding sfs_rbuf
    sfs_rbuf-ReadsTo buf len offset l m =
        let first : ltb offset sfs_blksize ≡ true = ground arith in
        let second : leb (offset + len) sfs_blksize ≡ true = ground arith in
        rw (first, second)
          (Returns-bind (BlockRead b s h) (ReadsTo content len b offset buf s)
            (sfs_rwblock_nolock ops s.sfs_buffer b false true s) _ (rwblock_read b s h s.sfs_buffer)
            after)
      where
        after :
            (r : Ret (Unit {0}) × Bytes × Sfs W)
            → BlockRead b s h r
            → Returns (ReadsTo content len b offset buf s) (elim r.0 [
              | done _ ↦ ok (
                done tt,
                copy_to 0 len (λ k. r.1 (offset + k)) buf,
                record r.2 { sfs_buffer = r.1 },
              )
              | err e ↦ ok (err e, buf, record r.2 { sfs_buffer = r.1 })
            ])
        after (done _, bytes, t) g = ((g.0, g.1.0), λ k. ground (arith, g.1.1 (offset + k)))
        after (err e, bytes, t) g = ((g.0, g.1), λ k l. refl)

    pub sfs_wbuf-WritesTo :
        (buf : Bytes) (len offset : ℕ)
        → offset < sfs_blksize
        → offset + len ≤ sfs_blksize
        → Returns (WritesTo content b offset len buf s) (sfs_wbuf ops buf len b offset s)
    unfolding sfs_wbuf
    sfs_wbuf-WritesTo buf len offset l m =
        let first : ltb offset sfs_blksize ≡ true = ground arith in
        let second : leb (offset + len) sfs_blksize ≡ true = ground arith in
        rw (first, second)
          (Returns-bind (BlockRead b s h) (WritesTo content b offset len buf s)
            (sfs_rwblock_nolock ops s.sfs_buffer b false true s) _ (rwblock_read b s h s.sfs_buffer)
            after)
      where
        written :
            (bytes : Bytes) (t : Sfs W)
            → BlockRead b s h (done tt, bytes, t)
            → (r : Ret (Unit {0}) × Bytes × Sfs W) → SameFs content t r.2
            → HasWritten content b (copy_to offset len buf bytes) t.dev (r.0, r.1, r.2.dev)
            → WritesTo content b offset len buf s (r.0, record r.2 { sfs_buffer = r.1 })
        written bytes t g (done _, left, u) same q = (
          (same.0 ∙ g.0.0, same.1 ∙ g.0.1, same.2 ∙ g.0.2),
          λ c k ne. q.1 c k ne ∙ g.1.0 c k,
          λ k lt. q.2 k lt ∙ ground (arith, g.1.1 k lt),
        )
        written bytes t g (err e, left, u) same q =
            ((same.0 ∙ g.0.0, same.1 ∙ g.0.1, same.2 ∙ g.0.2), λ c k. q.1 c k ∙ g.1.0 c k)

        after :
            (r : Ret (Unit {0}) × Bytes × Sfs W)
            → BlockRead b s h r
            → Returns (WritesTo content b offset len buf s) (elim r.0 [
              | done _ ↦
                  sfs_rwblock_nolock ops (copy_to offset len buf r.1) b true true r.2
                  >>= λ (q, left, u). ok (q, record u { sfs_buffer = left })
              | err e ↦ ok (err e, record r.2 { sfs_buffer = r.1 })
            ])
        after (done _, bytes, t) g =
            let h' : IsBlock content b t = (h.0, rw g.0.0 h.1, rw g.0.0 h.2) in
            Returns-bind (BlockWritten b t h' (copy_to offset len buf bytes))
              (WritesTo content b offset len buf s)
              (sfs_rwblock_nolock ops (copy_to offset len buf bytes) b true true t) _
              (rwblock_write b t h' (copy_to offset len buf bytes))
              λ r q. written bytes t g r q.0 q.1
        after (err e, bytes, t) g = (g.0, g.1)

    -- The block is filled with zeros.
    pub sfs_clear_block-WritesTo :
        Returns (WritesTo content b 0 sfs_blksize (λ k. 0) s) (sfs_clear_block ops b 1 s)
    unfolding sfs_clear_block clear_blocks
    sfs_clear_block-WritesTo =
        let z : Sfs W = record s { sfs_buffer = λ k. 0 } in
        Returns-bind (BlockWritten b z h (λ k. 0)) (WritesTo content b 0 sfs_blksize (λ k. 0) s)
          (sfs_rwblock_nolock ops (λ k. 0) b true true z) _ (rwblock_write b z h (λ k. 0)) after
      where
        after :
            (r : Ret (Unit {0}) × Bytes × Sfs W)
            → BlockWritten b (record s { sfs_buffer = λ k. 0 }) h (λ k. 0) r
            → Returns (WritesTo content b 0 sfs_blksize (λ k. 0) s) (elim r.0 [
              | done _ ↦ ok (done tt, record r.2 { sfs_buffer = r.1 })
              | err e ↦ ok (err e, record r.2 { sfs_buffer = r.1 })
            ])
        after (done _, left, t) g = (g.0, g.1.1, λ k l. ground (arith, g.1.2 k l))
        after (err e, left, t) g = (g.0, g.1.1)

    -- One whole block.
    pub sfs_rblock-ReadsTo :
        (buf : Bytes) → Returns (ReadsTo content sfs_blksize b 0 buf s) (sfs_rblock ops buf b 1 s)
    unfolding sfs_rblock sfs_rwblock rw_blocks
    sfs_rblock-ReadsTo buf =
        let from : Bytes = λ k. buf (0 + k) in
        Returns-bind (BlockRead b s h) (ReadsTo content sfs_blksize b 0 buf s)
          (sfs_rwblock_nolock ops from b false true s) _ (rwblock_read b s h from) after
      where
        after :
            (r : Ret (Unit {0}) × Bytes × Sfs W)
            → BlockRead b s h r
            → Returns (ReadsTo content sfs_blksize b 0 buf s) (elim r.0 [
              | done _ ↦ ok (done tt, copy_to 0 sfs_blksize r.1 buf, r.2)
              | err e ↦ ok (err e, copy_to 0 sfs_blksize r.1 buf, r.2)
            ])
        after (done _, bytes, t) g = ((g.0, g.1.0), λ k. ground (arith, g.1.1 k))
        after (err e, bytes, t) g = ((g.0, g.1), λ k l. ground arith)

    abbrev pub BlockStored : Bytes → Ret (Unit {0}) × Bytes × Sfs W → Type 0
    BlockStored buf (r, bytes, t) =
        WritesTo content b 0 sfs_blksize buf s (r, t) × ((k : ℕ) → bytes k ≡ buf k)

    pub sfs_wblock-WritesTo : (buf : Bytes) → Returns (BlockStored buf) (sfs_wblock ops buf b 1 s)
    unfolding sfs_wblock sfs_rwblock rw_blocks
    sfs_wblock-WritesTo buf =
        let from : Bytes = λ k. buf (0 + k) in
        Returns-bind (BlockWritten b s h from) (BlockStored buf)
          (sfs_rwblock_nolock ops from b true true s) _ (rwblock_write b s h from) after
      where
        after :
            (r : Ret (Unit {0}) × Bytes × Sfs W)
            → BlockWritten b s h (λ k. buf (0 + k)) r
            → Returns (BlockStored buf) (elim r.0 [
              | done _ ↦ ok (done tt, copy_to 0 sfs_blksize r.1 buf, r.2)
              | err e ↦ ok (err e, copy_to 0 sfs_blksize r.1 buf, r.2)
            ])
        after (done _, bytes, t) g = (
          (g.0, g.1.1, λ k l. ground (arith, g.1.2 k l)),
          λ k. ground (arith, g.1.0 k, g.1.0 (k - 0)),
        )
        after (err e, bytes, t) g = ((g.0, g.1.1), λ k. ground (arith, g.1.0 k, g.1.0 (k - 0)))
