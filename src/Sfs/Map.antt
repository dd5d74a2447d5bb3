-- ===== src/Sfs/Map.antt =====
-- The map from a file's blocks to the blocks of the file system, which kern/fs/sfs/sfs_inode.c keeps
-- in the inode and in one block of entries.
use lcore.Base.{
  ℕ, ◌+◌, ◌-◌, ◌*◌, ◌^◌, ◌≤◌, ◌<◌, ◌≡◌, ◌≢◌, refl, true, false, ◌∙◌, ltb, ◌==◌, if◌then◌else◌,
  arith, subst, ℕ_discrete, ap, sym, dec_lt, ◌⊎◌, inl, inr,
}
use lcore.Fs.Bitmap.Laws.{is_free}
use lcore.Sfs.Defs.{
  Bytes, sfs_blksize, sfs_ndirect, sfs_blk_nentry, copy_to, get_word, word_bytes, DiskInode, Sfs,
}
use lcore.Sfs.Block.{IsSfs, IsUsed}

abbrev pub max_blocks : ℕ
max_blocks = sfs_ndirect + sfs_blk_nentry

-- The block of a file's block `i`, 0 for none.
abbrev pub block_of : (blocks : ℕ → Bytes) → DiskInode → ℕ → ℕ
block_of blocks din i =
    if ltb i sfs_ndirect
    then din.direct i
    else if din.indirect == 0
    then 0
    else get_word (blocks din.indirect) ((i - sfs_ndirect) * 4)

-- Words of a block.
pub get_word-same :
    (m m' : Bytes) (j : ℕ)
    → j < sfs_blk_nentry
    → ((k : ℕ) → k < sfs_blksize → m' k ≡ m k)
    → get_word m' (j * 4) ≡ get_word m (j * 4)
get_word-same m m' j l h =
    rw
      (
        h (j * 4) (omega (arith, l)),
        h (j * 4 + 1) (omega (arith, l)),
        h (j * 4 + 2) (omega (arith, l)),
        h (j * 4 + 3) (omega (arith, l)),
      )
      refl

word_bytes-split :
    (n : ℕ)
    → n < 2 ^ 32
    → word_bytes n 0 + 256 * word_bytes n 1 + 65536 * word_bytes n 2 + 16777216 * word_bytes n 3 ≡ n
word_bytes-split n h = omega arith

copy_to-inside :
    (pos len : ℕ) (src m : Bytes) (k : ℕ) → k < len → copy_to pos len src m (pos + k) ≡ src k
copy_to-inside pos len src m k l =
    let same : pos + k - pos ≡ k = omega arith in ground (arith, same)

get_word-put_self :
    (m : Bytes) (n pos : ℕ) → n < 2 ^ 32 → get_word (copy_to pos 4 (word_bytes n) m) pos ≡ n
get_word-put_self m n pos h =
    let first : copy_to pos 4 (word_bytes n) m pos ≡ word_bytes n 0 =
      ground (arith, copy_to-inside pos 4 (word_bytes n) m 0) in
    rw
      (
        first,
        copy_to-inside pos 4 (word_bytes n) m 1 (omega arith),
        copy_to-inside pos 4 (word_bytes n) m 2 (omega arith),
        copy_to-inside pos 4 (word_bytes n) m 3 (omega arith),
      )
      (word_bytes-split n h)

copy_to-outside :
    (pos len : ℕ) (src m : Bytes) (k : ℕ)
    → (k < pos) ⊎ (pos + len ≤ k)
    → copy_to pos len src m k ≡ m k
copy_to-outside pos len src m k o = ground arith

away : (i j k : ℕ) → j ≢ i → k < 4 → (j * 4 + k < i * 4) ⊎ (i * 4 + 4 ≤ j * 4 + k)
away i j k ne l = elim (dec_lt j i) [
  | yes h ↦ inl (omega (arith, h, l))
  | no h ↦ inr (omega (arith, h, l, ne))
]

-- An entry that is written is read back, and leaves the others.
pub get_word-put :
    (m : Bytes) (n i j : ℕ)
    → n < 2 ^ 32
    → get_word (copy_to (i * 4) 4 (word_bytes n) m) (j * 4)
      ≡ (if j == i then n else get_word m (j * 4))
get_word-put m n i j h = elim (ℕ_discrete j i) [
  | yes e ↦
      let same : (j == i) ≡ true = ground (arith, e) in
      rw (same, e) (get_word-put_self m n (i * 4) h)
  | no ne ↦
      let differs : (j == i) ≡ false = ground (arith, ne) in
      rw
        (
          differs,
          copy_to-outside (i * 4) 4 (word_bytes n) m (j * 4) (ground (arith, away i j 0 ne)),
          copy_to-outside (i * 4) 4 (word_bytes n) m (j * 4 + 1) (away i j 1 ne (omega arith)),
          copy_to-outside (i * 4) 4 (word_bytes n) m (j * 4 + 2) (away i j 2 ne (omega arith)),
          copy_to-outside (i * 4) 4 (word_bytes n) m (j * 4 + 3) (away i j 3 ne (omega arith)),
        )
        refl
]

-- The map `m` of `n` blocks, which are in use and distinct, and not the block of entries.
pub record IsMap {W : Type 0} (content : W → ℕ → Bytes) (s : Sfs W) (m : ℕ → ℕ) (n ent : ℕ)
    : Type 0 where
  pub bounded : n ≤ max_blocks
  pub entries : ent ≢ 0 → IsUsed content ent s
  pub mapped : (i : ℕ) → i < n → IsUsed content (m i) s
  pub unmapped : (i : ℕ) → n ≤ i → i < max_blocks → m i ≡ 0
  pub apart : (i : ℕ) → i < n → m i ≢ ent
  pub distinct : (i j : ℕ) → i < n → j < n → m i ≡ m j → i ≡ j

module _ {W : Type 0} (content : W → ℕ → Bytes) where
  abbrev pub IsFile : DiskInode → Sfs W → Type 0
  IsFile din s = IsMap content s (block_of (content s.dev) din) din.blocks din.indirect

  -- The file has kept its blocks, and every other block in use is in use and holds what it held.
  abbrev pub Extends : (din : DiskInode) (s : Sfs W) (din' : DiskInode) (t : Sfs W) → Type 0
  Extends din s din' t =
      (t.blocks ≡ s.blocks)
      × (din.blocks ≤ din'.blocks)
      × ((i : ℕ)
          → i < din.blocks
          → block_of (content t.dev) din' i ≡ block_of (content s.dev) din i)
      × ((b : ℕ)
          → is_free s.freemap b ≡ false
          → b ≢ din.indirect
          → (is_free t.freemap b ≡ false)
            × (b ≢ din'.indirect)
            × ((k : ℕ) → content t.dev b k ≡ content s.dev b k))

  -- The first `n` blocks are the same blocks with the same bytes.
  abbrev pub Kept : (n : ℕ) (din : DiskInode) (s : Sfs W) (din' : DiskInode) (t : Sfs W) → Type 0
  Kept n din s din' t =
      (i : ℕ)
      → i < n
      → (block_of (content t.dev) din' i ≡ block_of (content s.dev) din i)
        × ((k : ℕ)
            → content t.dev (block_of (content s.dev) din i) k
              ≡ content s.dev (block_of (content s.dev) din i) k)

  -- A block in use that is not of the file.
  abbrev pub IsOther : (b : ℕ) (din : DiskInode) (s : Sfs W) → Type 0
  IsOther b din s =
      (is_free s.freemap b ≡ false)
      × (b ≢ din.indirect)
      × ((i : ℕ) → i < din.blocks → b ≢ block_of (content s.dev) din i)

  -- What belongs to others still does, and holds what it held.
  abbrev pub Others : (din : DiskInode) (s : Sfs W) (din' : DiskInode) (t : Sfs W) → Type 0
  Others din s din' t =
      (b : ℕ)
      → IsOther b din s
      → IsOther b din' t × ((k : ℕ) → content t.dev b k ≡ content s.dev b k)

  pub Kept-trans :
      (n : ℕ) (din : DiskInode) (s : Sfs W) (din' : DiskInode) (t : Sfs W) (din'' : DiskInode)
      (u : Sfs W)
      → Kept n din s din' t
      → Kept n din' t din'' u
      → Kept n din s din'' u
  Kept-trans n din s din' t din'' u g h i l = (
    (h i l).0 ∙ (g i l).0,
    λ k. subst (λ b. content u.dev b k ≡ content t.dev b k) (g i l).0 ((h i l).1 k) ∙ (g i l).1 k,
  )

  pub Others-trans :
      (din : DiskInode) (s : Sfs W) (din' : DiskInode) (t : Sfs W) (din'' : DiskInode) (u : Sfs W)
      → Others din s din' t
      → Others din' t din'' u
      → Others din s din'' u
  Others-trans din s din' t din'' u g h b o =
      let first = g b o in let second = h b first.0 in (second.0, λ k. second.1 k ∙ first.1 k)

  -- Both are sound.
  abbrev pub IsSound : DiskInode → Sfs W → Type 0
  IsSound din s = IsSfs s × IsFile din s

  module _ (s t : Sfs W) (m m' : ℕ → ℕ) (n e e' : ℕ) (v : IsMap content s m n e) where
    -- One block more, that was free.
    pub IsMap-extend :
        (b : ℕ)
        → t.blocks ≡ s.blocks
        → n < max_blocks
        → is_free s.freemap b ≡ true
        → IsUsed content b t
        → b ≢ e'
        → (e' ≢ 0 → IsUsed content e' t)
        → ((c : ℕ) → IsUsed content c s → (is_free t.freemap c ≡ false) × (c ≢ e → c ≢ e'))
        → ((i : ℕ) → i < max_blocks → m' i ≡ (if i == n then b else m i))
        → IsMap content t m' (n + 1) e'
    IsMap-extend b same l f u ne used kept put =
        let old : (i : ℕ) → i < n → m' i ≡ m i = λ i h. ground (arith, put i) in
        let new : m' n ≡ b = ground (arith, put n) in
        let not_old : (i : ℕ) → i < n → m' i ≢ b =
          λ i h q. ground (arith, old i h, (v.mapped i h).2, f, q) in
        record {
          bounded = omega arith;
          entries = used;
          mapped = λ i h. elim (dec_lt i n) [
            | yes k ↦
                rw (old i k)
                  ((v.mapped i k).0, rw same (v.mapped i k).1, (kept (m i) (v.mapped i k)).0)
            | no k ↦ let here : i ≡ n = omega (arith, h, k) in rw (here, new) u
          ];
          unmapped = λ i h k. ground (arith, put i, v.unmapped i);
          apart = λ i h. elim (dec_lt i n) [
            | yes k ↦ rw (old i k) ((kept (m i) (v.mapped i k)).1 (v.apart i k))
            | no k ↦ let here : i ≡ n = omega (arith, h, k) in rw (here, new) ne
          ];
          distinct = λ i j h k q. elim (dec_lt i n) [
            | yes x ↦ elim (dec_lt j n) [
              | yes y ↦ v.distinct i j x y (sym (old i x) ∙ (q ∙ old j y))
              | no y ↦
                  let here : j ≡ n = omega (arith, k, y) in
                  absurd (not_old i x (q ∙ (ap m' here ∙ new)))
            ]
            | no x ↦ elim (dec_lt j n) [
              | yes y ↦
                  let here : i ≡ n = omega (arith, h, x) in
                  absurd (not_old j y (sym q ∙ (ap m' here ∙ new)))
              | no y ↦ omega (arith, h, x, k, y)
            ]
          ];
        }
