-- ===== src/Sfs/Sub.antt =====
-- kern/fs/sfs/sfs_inode.c: `sfs_bmap_get_sub_nolock`, the map beyond the direct blocks.
use lcore.Base.{
  ℕ, ◌+◌, ◌-◌, ◌*◌, ◌<◌, ◌≡◌, ◌≢◌, refl, true, false, not, ◌||◌, ◌∙◌, ap, ltb, ◌==◌, if◌then◌else◌,
  arith, sym, Bool-cases, inl, inr, Returns, Returns-bind, Returns-mono, ok,
}
use lcore.Fs.Defs.{Ret, done, err}
use lcore.Sfs.Defs.{
  Bytes, sfs_ndirect, sfs_blk_nentry, copy_to, get_word, word_bytes, DiskInode, DeviceOps, Sfs,
  IsDevice,
}
use lcore.Sfs.Io.{sfs_rbuf}
use lcore.Sfs.Io.Laws.{ReadsTo, sfs_rbuf-ReadsTo}
use lcore.Sfs.Bmap.{sfs_block_alloc, alloc_entry, sfs_bmap_get_sub_nolock}
use lcore.Sfs.Block.{IsUsed, Grows, Grows-refl, Grows-IsUsed, Unchanged-Grows, BlockAlloc}
use lcore.Sfs.Block.Alloc.{sfs_block_alloc-BlockAlloc}
use lcore.Sfs.Map.{block_of, get_word-same, IsSound}
use lcore.Sfs.Entry.{IsEntryBlock, EntryAlloc, alloc_entry-EntryAlloc}
use lcore.Sfs.Grown.{SubFound, SubAlloc, EntryAlloc-SubAlloc}

module _ {W : Type 0} {ops : DeviceOps W} {content : W → ℕ → Bytes} (d : IsDevice ops content)
    (din : DiskInode) (s : Sfs W) (v : IsSound content din s) (index : ℕ)
    (l : index < sfs_blk_nentry) where
  -- Without a block of entries there is no block; with one, its word says which.
  pub no_entries :
      (j : ℕ) → (din.indirect == 0) ≡ true → block_of (content s.dev) din (sfs_ndirect + j) ≡ 0
  no_entries j z =
      let sub : ltb (sfs_ndirect + j) sfs_ndirect ≡ false = ground arith in rw (sub, z) refl

  pub in_entries :
      (j : ℕ)
      → (din.indirect == 0) ≡ false
      → block_of (content s.dev) din (sfs_ndirect + j)
        ≡ get_word (content s.dev din.indirect) (j * 4)
  in_entries j z =
      let sub : ltb (sfs_ndirect + j) sfs_ndirect ≡ false = ground arith in
      let back : sfs_ndirect + j - sfs_ndirect ≡ j = omega arith in rw (sub, z, back) refl

  pub entry_read :
      (bytes : Bytes)
      → ((k : ℕ)
          → bytes k
            ≡ copy_to 0 4 (λ j. content s.dev din.indirect (index * 4 + j)) (word_bytes 0) k)
      → get_word bytes 0 ≡ get_word (content s.dev din.indirect) (index * 4)
  entry_read bytes out =
      let byte : (k : ℕ) → k < 4 → bytes k ≡ content s.dev din.indirect (index * 4 + k) =
        λ k h. ground (arith, out k) in
      let zeroth : bytes 0 ≡ content s.dev din.indirect (index * 4) = ground (arith, byte 0) in
      rw (zeroth, byte 1 (omega arith), byte 2 (omega arith), byte 3 (omega arith)) refl

  pub sub_read :
      (din.indirect == 0) ≡ false
      → Returns
          (ReadsTo content 4 din.indirect (index * 4) (word_bytes 0) s)
          (sfs_rbuf ops (word_bytes 0) 4 din.indirect (index * 4) s)
  sub_read z =
      let u = v.1.entries (ground (arith, z)) in
      sfs_rbuf-ReadsTo d din.indirect s (u.0, u.1, v.0.small) (word_bytes 0) 4 (index * 4)
        (omega (arith, l)) (omega (arith, l))

  pub sfs_bmap_get_sub_nolock-SubFound :
      Returns
        (SubFound content din s v index)
        (sfs_bmap_get_sub_nolock ops din.indirect index false s)
  unfolding sfs_bmap_get_sub_nolock
  sfs_bmap_get_sub_nolock-SubFound =
      let in_range : ltb index sfs_blk_nentry ≡ true = ground (arith, l) in
      elim (Bool-cases (din.indirect == 0)) [
        | inl z ↦ rw (in_range, z) (refl, sym (no_entries index z), Grows-refl content s v.0)
        | inr z ↦
            rw (in_range, z)
              (Returns-bind (ReadsTo content 4 din.indirect (index * 4) (word_bytes 0) s)
                (SubFound content din s v index)
                (sfs_rbuf ops (word_bytes 0) 4 din.indirect (index * 4) s) _ (sub_read z) (after z))
      ]
    where
      after :
          (din.indirect == 0) ≡ false
          → (r : Ret (Unit {0}) × Bytes × Sfs W)
          → ReadsTo content 4 din.indirect (index * 4) (word_bytes 0) s r
          → Returns (SubFound content din s v index) (elim r.0 [
            | err e ↦ ok (err e, din.indirect, r.2)
            | done _ ↦
                let ino = get_word r.1 0 in
                if not (ino == 0) || true
                then ok (done ino, din.indirect, r.2)
                else alloc_entry ops din.indirect din.indirect index r.2
          ])
      after z (err e, bytes, t) g = Unchanged-Grows content s t g.0 v.0
      after z (done _, bytes, t) g =
          let all : (not (get_word bytes 0 == 0) || true) ≡ true = ground arith in
          rw all (
            refl,
            entry_read bytes g.1 ∙ sym (in_entries index z),
            Unchanged-Grows content s t g.0 v.0,
          )

  pub sfs_bmap_get_sub_nolock-SubAlloc :
      din.blocks ≡ sfs_ndirect + index
      → Returns (SubAlloc content din s v) (sfs_bmap_get_sub_nolock ops din.indirect index true s)
  unfolding sfs_bmap_get_sub_nolock
  sfs_bmap_get_sub_nolock-SubAlloc e =
      let in_range : ltb index sfs_blk_nentry ≡ true = ground (arith, l) in
      elim (Bool-cases (din.indirect == 0)) [
        | inl z ↦
            rw (in_range, z)
              (Returns-bind (BlockAlloc content s) (SubAlloc content din s v)
                (sfs_block_alloc ops s) _ (sfs_block_alloc-BlockAlloc d s v.0) (absent z))
        | inr z ↦
            rw (in_range, z)
              (Returns-bind (ReadsTo content 4 din.indirect (index * 4) (word_bytes 0) s)
                (SubAlloc content din s v)
                (sfs_rbuf ops (word_bytes 0) 4 din.indirect (index * 4) s) _ (sub_read z)
                (present z))
      ]
    where
      entry :
          (ent : ℕ) (t : Sfs W)
          → IsEntryBlock din.indirect ent s
          → Grows content s t
          → IsUsed content ent t
          → (ent ≢ din.indirect → din.indirect ≡ 0)
          → ((j : ℕ)
              → j < sfs_blk_nentry
              → get_word (content t.dev ent) (j * 4)
                ≡ block_of (content s.dev) din (sfs_ndirect + j))
          → Returns (SubAlloc content din s v) (alloc_entry ops din.indirect ent index t)
      entry ent t place g u first words =
          Returns-mono (EntryAlloc content din.indirect ent index s t) (SubAlloc content din s v)
            (alloc_entry ops din.indirect ent index t)
            (alloc_entry-EntryAlloc d din.indirect ent s place index l t g u)
            (EntryAlloc-SubAlloc content din s v ent index t l e place first words)

      absent :
          (din.indirect == 0) ≡ true
          → (r : Ret ℕ × Sfs W) → BlockAlloc content s r
          → Returns (SubAlloc content din s v) (elim r.0 [
            | err x ↦ ok (err x, din.indirect, r.1)
            | done ent ↦ alloc_entry ops din.indirect ent index r.1
          ])
      absent z (err x, t) g = g
      absent z (done ent, t) g =
          entry ent t (inr (ground (arith, g.2.0, z), g.1)) g.0 g.2 (λ _. ground (arith, z))
            λ j h. get_word-same (λ k. 0) (content t.dev ent) j h g.3 ∙ sym (no_entries j z)

      present :
          (din.indirect == 0) ≡ false
          → (r : Ret (Unit {0}) × Bytes × Sfs W)
          → ReadsTo content 4 din.indirect (index * 4) (word_bytes 0) s r
          → Returns (SubAlloc content din s v) (elim r.0 [
            | err x ↦ ok (err x, din.indirect, r.2)
            | done _ ↦
                let ino = get_word r.1 0 in
                if not (ino == 0) || false
                then ok (done ino, din.indirect, r.2)
                else alloc_entry ops din.indirect din.indirect index r.2
          ])
      present z (err x, bytes, t) g = Unchanged-Grows content s t g.0 v.0
      present z (done _, bytes, t) g =
          let u = v.1.entries (ground (arith, z)) in
          let grown = Unchanged-Grows content s t g.0 v.0 in
          let none_yet : get_word bytes 0 ≡ 0 =
            entry_read bytes g.1
            ∙ (sym (in_entries index z)
                ∙ (ap (block_of (content s.dev) din) (sym e)
                    ∙ v.1.unmapped din.blocks (omega arith) (omega (arith, e, l)))) in
          rw none_yet (
            entry din.indirect t (inl (refl, u.2)) grown
              (Grows-IsUsed content s t grown din.indirect u) (λ n. absurd (n refl))
              λ j h.
                get_word-same (content s.dev din.indirect) (content t.dev din.indirect) j h
                  (λ k _. g.0.1 din.indirect k)
                ∙ sym (in_entries j z))
