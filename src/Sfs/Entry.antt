-- ===== src/Sfs/Entry.antt =====
-- kern/fs/sfs/sfs_inode.c: the block of entries of a file.
use lcore.Base.{
  ℕ, ◌*◌, ◌^◌, ◌<◌, ◌≡◌, ◌≢◌, refl, true, false, ◌∙◌, ap, ◌==◌, if◌then◌else◌, arith, inl, inr, ◌⊎◌,
  Returns, Returns-bind, Returns-mono, ok, ◌>>=◌,
}
use lcore.Fs.Defs.{Ret, done, err}
use lcore.Fs.Bitmap.Laws.{is_free}
use lcore.Sfs.Defs.{
  Bytes, sfs_blksize, sfs_blk_nentry, copy_to, get_word, word_bytes, DeviceOps, Sfs, IsDevice,
}
use lcore.Sfs.Io.{sfs_wbuf}
use lcore.Sfs.Io.Laws.{WritesTo, sfs_wbuf-WritesTo}
use lcore.Sfs.Bmap.{sfs_block_alloc, sfs_block_free, cleanup, alloc_entry}
use lcore.Sfs.Block.{
  IsSfs, IsUsed, Grows, Grows-trans, Grows-IsUsed, Grows-fresh, Unchanged-Grows, Unchanged-IsSfs,
  BlockAlloc, BlockFree, BlockFree-Grows, sfs_block_free-BlockFree,
}
use lcore.Sfs.Block.Alloc.{sfs_block_alloc-BlockAlloc}
use lcore.Sfs.Map.{get_word-same, get_word-put}

-- Either the block of entries was there, or it has been allocated for this entry.
abbrev pub IsEntryBlock : {W : Type 0} (entp ent : ℕ) → Sfs W → Type 0
IsEntryBlock entp ent o =
    ((ent ≡ entp) × (is_free o.freemap ent ≡ false))
    ⊎ ((ent ≢ entp) × (is_free o.freemap ent ≡ true))

module _ {W : Type 0} (content : W → ℕ → Bytes) where
  abbrev pub GrowsBut : ℕ → (o u : Sfs W) → Type 0
  GrowsBut ent o u =
      IsSfs u
      × (u.blocks ≡ o.blocks)
      × ((b : ℕ) → is_free o.freemap b ≡ false → is_free u.freemap b ≡ false)
      × ((b k : ℕ) → is_free o.freemap b ≡ false → b ≢ ent → content u.dev b k ≡ content o.dev b k)

  -- What a new entry leaves of the state `o`, with `s` that in which the block of entries is there.
  abbrev pub EntryAlloc : (entp ent index : ℕ) (o s : Sfs W) → Ret ℕ × ℕ × Sfs W → Type 0
  EntryAlloc entp ent index o s (err e, p, u) = (p ≡ entp) × Grows content o u
  EntryAlloc entp ent index o s (done ino, p, u) =
      (p ≡ ent)
      × GrowsBut ent o u
      × (is_free o.freemap ino ≡ true)
      × IsUsed content ino u
      × IsUsed content ent u
      × (ino ≢ ent)
      × ((j : ℕ)
          → j < sfs_blk_nentry
          → get_word (content u.dev ent) (j * 4)
            ≡ (if j == index then ino else get_word (content s.dev ent) (j * 4)))
      × ((k : ℕ) → k < sfs_blksize → content u.dev ino k ≡ 0)

module _ {W : Type 0} {ops : DeviceOps W} {content : W → ℕ → Bytes} (d : IsDevice ops content)
    (entp ent : ℕ) (o : Sfs W) (place : IsEntryBlock entp ent o) where
  abbrev Failed : Ret ℕ × ℕ × Sfs W → Type 0
  Failed (err e, p, u) = (p ≡ entp) × Grows content o u
  Failed (done ino, p, u) = ⊥

  cleanup-Failed :
      (e : ℕ) (s : Sfs W)
      → Grows content o s
      → IsUsed content ent s
      → Returns Failed (cleanup ops entp ent e s)
  unfolding cleanup
  cleanup-Failed e s g u = elim place [
    | inl at ↦ let same : (ent == entp) ≡ true = ground (arith, at.0) in rw same (refl, g)
    | inr at ↦
        let differs : (ent == entp) ≡ false = ground (arith, at.0) in
        rw differs (
          Returns-bind (BlockFree content ent s) Failed (sfs_block_free ops ent s) _
            (sfs_block_free-BlockFree d ent s g.0 u)
            λ t r. (refl, BlockFree-Grows content o s t ent g at.1 r))
  ]

  module _ (index : ℕ) (l : index < sfs_blk_nentry) (s : Sfs W) (g : Grows content o s)
      (u : IsUsed content ent s) where
    Failed-EntryAlloc : (r : Ret ℕ × ℕ × Sfs W) → Failed r → EntryAlloc content entp ent index o s r
    Failed-EntryAlloc (err e, p, v) f = f
    Failed-EntryAlloc (done ino, p, v) f = absurd f

    module _ (ino : ℕ) (t : Sfs W) (a : BlockAlloc content s (done ino, t)) where
      written :
          (r : Ret (Unit {0}) × Sfs W)
          → WritesTo content ent (index * 4) 4 (word_bytes ino) t r
          → Returns (EntryAlloc content entp ent index o s) (elim r.0 [
            | done _ ↦ ok (done ino, ent, r.1)
            | err e ↦ sfs_block_free ops ino r.1 >>= λ v. cleanup ops entp ent e v
          ])
      written (done _, v) w =
          let fresh : is_free o.freemap ino ≡ true = Grows-fresh content o s ino g a.1 in
          let u' : IsUsed content ent t = Grows-IsUsed content s t a.0 ent u in
          let ne : ino ≢ ent = λ e. ground (arith, a.1, u.2, e) in
          let small : ino < 2 ^ 32 = omega (arith, a.0.0.small, a.2.1) in
          (
            refl,
            (
              Unchanged-IsSfs content t v w.0 a.0.0,
              w.0.0 ∙ (a.0.1 ∙ g.1),
              λ b e. rw w.0.2 (a.0.2 b (g.2 b e)),
              λ b k e n. w.1 b k n ∙ (a.0.3 b k (g.2 b e) ∙ g.3 b k e),
            ),
            fresh,
            (a.2.0, rw w.0.0 a.2.1, rw w.0.2 a.2.2),
            (u'.0, rw w.0.0 u'.1, rw w.0.2 u'.2),
            ne,
            λ j h.
                get_word-same (copy_to (index * 4) 4 (word_bytes ino) (content t.dev ent))
                  (content v.dev ent) j h w.2
                ∙ (get_word-put (content t.dev ent) ino index j small
                    ∙ ap (λ n. if j == index then ino else n)
                        (get_word-same (content s.dev ent) (content t.dev ent) j h
                          (λ k _. a.0.3 ent k u.2))),
            λ k h. w.1 ino k ne ∙ a.3 k h,
          )
      written (err e, v) w =
          let grown : Grows content s v =
            Grows-trans content s t v a.0 (Unchanged-Grows content t v w a.0.0) in
          let fresh : is_free o.freemap ino ≡ true = Grows-fresh content o s ino g a.1 in
          let used : IsUsed content ino v =
            Grows-IsUsed content t v (Unchanged-Grows content t v w a.0.0) ino a.2 in
          Returns-bind (BlockFree content ino v) (EntryAlloc content entp ent index o s)
            (sfs_block_free ops ino v) _ (sfs_block_free-BlockFree d ino v grown.0 used)
            λ x r.
              let grown' : Grows content s x = BlockFree-Grows content s v x ino grown a.1 r in
              Returns-mono Failed _ (cleanup ops entp ent e x)
                (cleanup-Failed e x (Grows-trans content o s x g grown')
                  (Grows-IsUsed content s x grown' ent u))
                Failed-EntryAlloc

    pub alloc_entry-EntryAlloc :
        Returns (EntryAlloc content entp ent index o s) (alloc_entry ops entp ent index s)
    unfolding alloc_entry
    alloc_entry-EntryAlloc =
        Returns-bind (BlockAlloc content s) (EntryAlloc content entp ent index o s)
          (sfs_block_alloc ops s) _ (sfs_block_alloc-BlockAlloc d s g.0) after
      where
        after :
            (r : Ret ℕ × Sfs W)
            → BlockAlloc content s r
            → Returns (EntryAlloc content entp ent index o s) (elim r.0 [
              | err e ↦ cleanup ops entp ent e r.1
              | done ino ↦ sfs_wbuf ops (word_bytes ino) 4 ent (index * 4) r.1 >>= λ (q, v).
                  elim q [
                    | done _ ↦ ok (done ino, ent, v)
                    | err e ↦ sfs_block_free ops ino v >>= λ x. cleanup ops entp ent e x
                  ]
            ])
        after (err e, t) a =
            Returns-mono Failed _ (cleanup ops entp ent e t)
              (cleanup-Failed e t (Grows-trans content o s t g a)
                (Grows-IsUsed content s t a ent u))
              Failed-EntryAlloc
        after (done ino, t) a =
            let u' : IsUsed content ent t = Grows-IsUsed content s t a.0 ent u in
            Returns-bind (WritesTo content ent (index * 4) 4 (word_bytes ino) t)
              (EntryAlloc content entp ent index o s)
              (sfs_wbuf ops (word_bytes ino) 4 ent (index * 4) t) _
              (sfs_wbuf-WritesTo d ent t (u'.0, u'.1, a.0.0.small) (word_bytes ino) 4 (index * 4)
                (omega (arith, l)) (omega (arith, l)))
              (written ino t a)
