-- ===== src/Sfs/Grown.antt =====
-- The file that has one block more, by a direct entry or by one in the block of entries.
use lcore.Base.{
  ℕ, ◌+◌, ◌-◌, ◌*◌, ◌<◌, ◌≡◌, ◌≢◌, refl, true, false, ◌∙◌, ap, ltb, ◌==◌, if◌then◌else◌, arith, sym,
  Bool-cases, inl, inr, subst, dec_lt,
}
use lcore.Fs.Defs.{Ret, done, err}
use lcore.Fs.Bitmap.Laws.{is_free}
use lcore.Sfs.Defs.{Bytes, sfs_blksize, sfs_ndirect, sfs_blk_nentry, get_word, DiskInode, Sfs}
use lcore.Sfs.Block.{IsSfs, IsUsed, Grows}
use lcore.Sfs.Map.{
  max_blocks, block_of, get_word-same, IsMap, IsMap-extend, IsFile, Extends, IsSound,
}
use lcore.Sfs.Entry.{IsEntryBlock, EntryAlloc}

module _ {W : Type 0} (content : W → ℕ → Bytes) where
  -- The map is kept while the blocks in use are.
  pub block_of-kept :
      (din : DiskInode) (s t : Sfs W)
      → IsFile content din s
      → Grows content s t
      → (i : ℕ) → i < max_blocks
      → block_of (content t.dev) din i ≡ block_of (content s.dev) din i
  block_of-kept din s t v g i h = elim (Bool-cases (ltb i sfs_ndirect)) [
    | inl e ↦ rw e refl
    | inr e ↦ elim (Bool-cases (din.indirect == 0)) [
      | inl z ↦ rw (e, z) refl
      | inr z ↦
          rw (e, z)
            (get_word-same (content s.dev din.indirect) (content t.dev din.indirect)
              (i - sfs_ndirect) (ground (arith, e))
              λ k _. g.3 din.indirect k (v.entries (ground (arith, z))).2)
    ]
  ]

  -- The file has the block `ino` more, which was free and is filled with zeros; `blocks` is to be
  -- counted up.
  abbrev pub Grown : (din : DiskInode) (s : Sfs W) (ino : ℕ) (din' : DiskInode) (t : Sfs W) → Type 0
  Grown din s ino din' t =
      IsSfs t
      × IsMap content t (block_of (content t.dev) din') (din.blocks + 1) din'.indirect
      × (block_of (content t.dev) din' din.blocks ≡ ino)
      × Extends content din s din' t
      × (is_free s.freemap ino ≡ true)
      × IsUsed content ino t
      × ((k : ℕ) → k < sfs_blksize → content t.dev ino k ≡ 0)

  module _ (din : DiskInode) (s : Sfs W) (v : IsSound content din s) where
    pub Grown-intro :
        (ino : ℕ) (din' : DiskInode) (t : Sfs W)
        → din.blocks < max_blocks
        → din'.blocks ≡ din.blocks
        → IsSfs t
        → t.blocks ≡ s.blocks
        → is_free s.freemap ino ≡ true
        → IsUsed content ino t
        → ino ≢ din'.indirect
        → (din'.indirect ≢ 0 → IsUsed content din'.indirect t)
        → ((b : ℕ)
            → is_free s.freemap b ≡ false
            → (is_free t.freemap b ≡ false)
              × (b ≢ din.indirect
                  → (b ≢ din'.indirect) × ((k : ℕ) → content t.dev b k ≡ content s.dev b k)))
        → ((i : ℕ)
            → i < max_blocks
            → block_of (content t.dev) din' i
              ≡ (if i == din.blocks then ino else block_of (content s.dev) din i))
        → ((k : ℕ) → k < sfs_blksize → content t.dev ino k ≡ 0)
        → Grown din s ino din' t
    Grown-intro ino din' t l meta sound same f u ne entries kept put zeros =
        let m : ℕ → ℕ = block_of (content s.dev) din in
        let m' : ℕ → ℕ = block_of (content t.dev) din' in
        let at : m' din.blocks ≡ (if din.blocks == din.blocks then ino else m din.blocks) =
          put din.blocks l in
        (
          sound,
          IsMap-extend content s t m m' din.blocks din.indirect din'.indirect v.1 ino same l f u ne
              entries (λ c w. ((kept c w.2).0, λ n. ((kept c w.2).1 n).0)) put,
          at ∙ ground arith,
          (
            same,
            omega (arith, meta),
            λ i h.
                put i (omega (arith, h, l))
                ∙ (let differs : (i == din.blocks) ≡ false = ground (arith, h) in rw differs refl),
            λ b e n. ((kept b e).0, ((kept b e).1 n).0, ((kept b e).1 n).1),
          ),
          f,
          u,
          zeros,
        )

    abbrev pub SubFound : ℕ → Ret ℕ × ℕ × Sfs W → Type 0
    SubFound index (err e, p, t) = Grows content s t
    SubFound index (done ino, p, t) =
        (p ≡ din.indirect)
        × (ino ≡ block_of (content s.dev) din (sfs_ndirect + index))
        × Grows content s t

    abbrev pub SubAlloc : Ret ℕ × ℕ × Sfs W → Type 0
    SubAlloc (err e, p, t) = Grows content s t
    SubAlloc (done ino, p, t) =
        (p ≢ din.indirect → din.indirect ≡ 0) × Grown din s ino (record din { indirect = p }) t

    -- The entry `index` is the next block of the file.
    pub EntryAlloc-SubAlloc :
        (ent index : ℕ) (s1 : Sfs W)
        → index < sfs_blk_nentry
        → din.blocks ≡ sfs_ndirect + index
        → IsEntryBlock din.indirect ent s
        → (ent ≢ din.indirect → din.indirect ≡ 0)
        → ((j : ℕ)
            → j < sfs_blk_nentry
            → get_word (content s1.dev ent) (j * 4)
              ≡ block_of (content s.dev) din (sfs_ndirect + j))
        → (r : Ret ℕ × ℕ × Sfs W) → EntryAlloc content din.indirect ent index s s1 r
        → SubAlloc r
    EntryAlloc-SubAlloc ent index s1 l e place first words (err x, p, t) a = a.1
    EntryAlloc-SubAlloc ent index s1 l e place first words (done ino, p, t) a =
        subst
          (λ q.
            (q ≢ din.indirect → din.indirect ≡ 0) × Grown din s ino (record din { indirect = q }) t)
          (sym a.0)
          (
            first,
            Grown-intro ino (record din { indirect = ent }) t (omega (arith, e, l)) refl a.1.0 a.1.1
                a.2 a.3 a.5 (λ _. a.4) kept put a.7,
          )
      where
        kept :
            (b : ℕ)
            → is_free s.freemap b ≡ false
            → (is_free t.freemap b ≡ false)
              × (b ≢ din.indirect → (b ≢ ent) × ((k : ℕ) → content t.dev b k ≡ content s.dev b k))
        kept b f = (
          a.1.2 b f,
          λ n.
              let apart : b ≢ ent = elim place [
                | inl at ↦ λ q. n (q ∙ at.0)
                | inr at ↦ λ q. ground (arith, f, at.1, q)
              ] in
              (apart, λ k. a.1.3 b k f apart),
        )

        put :
            (i : ℕ)
            → i < max_blocks
            → block_of (content t.dev) (record din { indirect = ent }) i
              ≡ (if i == din.blocks then ino else block_of (content s.dev) din i)
        put i h = elim (dec_lt i sfs_ndirect) [
          | yes x ↦
              let direct : ltb i sfs_ndirect ≡ true = ground (arith, x) in
              let before : (i == din.blocks) ≡ false = ground (arith, x, e) in
              rw (direct, before) refl
          | no x ↦
              let sub : ltb i sfs_ndirect ≡ false = ground (arith, x) in
              let some_block : (ent == 0) ≡ false = ground (arith, a.4.0) in
              let j : i ≡ sfs_ndirect + (i - sfs_ndirect) = omega (arith, x) in
              let in_entries : i - sfs_ndirect < sfs_blk_nentry = omega (arith, h, x) in
              let here = a.6 (i - sfs_ndirect) in_entries in
              let there = words (i - sfs_ndirect) in_entries in
              let whole = ap (block_of (content s.dev) din) j in
              let near : block_of (content t.dev) (record din { indirect = ent }) i
                  ≡ get_word (content t.dev ent) ((i - sfs_ndirect) * 4) =
                rw (sub, some_block) refl in
              let same : (i - sfs_ndirect == index) ≡ (i == din.blocks) = ground (arith, x, e) in
              near
              ∙ (here ∙ rw same (ap (λ n. if i == din.blocks then ino else n) (there ∙ sym whole)))
        ]
