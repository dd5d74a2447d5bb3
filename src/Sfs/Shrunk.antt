-- ===== src/Sfs/Shrunk.antt =====
-- kern/fs/sfs/sfs_inode.c: `sfs_bmap_free_sub_nolock`, which resets an entry and frees its block.
use lcore.Base.{
  ℕ, ◌+◌, ◌-◌, ◌*◌, ◌<◌, ◌≡◌, ◌≢◌, refl, true, false, ◌&&◌, ◌∙◌, ap, ltb, ◌==◌, if◌then◌else◌,
  arith, sym, Bool-cases, inl, inr, Returns, Returns-bind, ok, ◌>>=◌, subst, ℕ_discrete,
}
use lcore.Fs.Defs.{Ret, done, err}
use lcore.Fs.Bitmap.Laws.{is_free}
use lcore.Sfs.Defs.{
  Bytes, sfs_ndirect, sfs_blk_nentry, copy_to, get_word, word_bytes, DiskInode, SfsInode, DeviceOps,
  Sfs, IsDevice,
}
use lcore.Sfs.Io.{sfs_rbuf, sfs_wbuf}
use lcore.Sfs.Io.Laws.{ReadsTo, WritesTo, sfs_wbuf-WritesTo}
use lcore.Sfs.Bmap.{sfs_block_free, sfs_bmap_free_sub_nolock}
use lcore.Sfs.Block.{
  IsSfs, IsUsed, Grows, Grows-IsUsed, Unchanged-Grows, Unchanged-IsSfs, Grows-trans, BlockFree,
  sfs_block_inuse-used, sfs_block_free-BlockFree,
}
use lcore.Sfs.Map.{max_blocks, block_of, get_word-same, get_word-put, IsMap, IsSound}
use lcore.Sfs.Sub.{in_entries, entry_read, sub_read}

module _ {W : Type 0} (content : W → ℕ → Bytes) where
  -- The last block is gone; `blocks` is to be counted down.
  abbrev pub Shrunk : (din : DiskInode) (s : Sfs W) (din' : DiskInode) (t : Sfs W) → Type 0
  Shrunk din s din' t =
      IsSfs t
      × (din'.indirect ≡ din.indirect)
      × (t.blocks ≡ s.blocks)
      × ((i : ℕ)
          → i < max_blocks
          → block_of (content t.dev) din' i
            ≡ (if i == din.blocks - 1 then 0 else block_of (content s.dev) din i))
      × ((b : ℕ)
          → is_free s.freemap b ≡ false
          → b ≢ block_of (content s.dev) din (din.blocks - 1)
          → (is_free t.freemap b ≡ false)
            × (b ≢ din.indirect → (k : ℕ) → content t.dev b k ≡ content s.dev b k))
      × (is_free t.freemap (block_of (content s.dev) din (din.blocks - 1)) ≡ true)

  pub Shrunk-IsMap :
      (din : DiskInode) (s : Sfs W) (din' : DiskInode) (t : Sfs W)
      → IsSound content din s
      → din.blocks ≢ 0
      → Shrunk din s din' t
      → IsMap content t (block_of (content t.dev) din') (din.blocks - 1) din'.indirect
  Shrunk-IsMap din s din' t v some_block r =
      let n = din.blocks - 1 in
      let m = block_of (content s.dev) din in
      let w = v.1 in
      let old : (i : ℕ) → i < n → block_of (content t.dev) din' i ≡ m i =
        λ i h. ground (arith, r.3 i, w.bounded, h) in
      let apart : (i : ℕ) → i < n → m i ≢ m n =
        λ i h q. ground (arith, w.distinct i n (omega (arith, h)) (omega arith) q, h) in
      record {
        bounded = omega (arith, w.bounded);
        entries = λ e.
            let e' : din.indirect ≢ 0 = λ q. e (r.1 ∙ q) in
            let u = w.entries e' in
            subst (λ b. IsUsed content b t) (sym r.1)
              (u.0, rw r.2 u.1, (r.4 din.indirect u.2 (λ q. w.apart n (omega arith) (sym q))).0);
        mapped = λ i h.
            let u = w.mapped i (omega (arith, h)) in
            subst (λ b. IsUsed content b t) (sym (old i h))
              (u.0, rw r.2 u.1, (r.4 (m i) u.2 (apart i h)).0);
        unmapped = λ i h k. elim (ℕ_discrete i n) [
          | yes e ↦ r.3 i k ∙ (let same : (i == n) ≡ true = ground (arith, e) in rw same refl)
          | no e ↦
              r.3 i k
              ∙ (let differs : (i == n) ≡ false = ground (arith, e) in
                  rw differs (w.unmapped i (omega (arith, h, e)) k))
        ];
        apart = λ i h q. w.apart i (omega (arith, h)) (sym (old i h) ∙ (q ∙ r.1));
        distinct = λ i j h k q.
            w.distinct i j (omega (arith, h)) (omega (arith, k)) (sym (old i h) ∙ (q ∙ old j k));
      }

module _ {W : Type 0} {ops : DeviceOps W} {content : W → ℕ → Bytes} (d : IsDevice ops content)
    (sin : SfsInode) (s : Sfs W) (v : IsSound content sin.din s)
    (some_block : sin.din.blocks ≢ 0) where
  abbrev last : ℕ
  last = sin.din.blocks - 1

  abbrev pub SubFreed : Ret (Unit {0}) × Sfs W → Type 0
  SubFreed (err e, t) = Grows content s t
  SubFreed (done _, t) = Shrunk content sin.din s sin.din t

  pub sub_freed :
      (index : ℕ)
      → index < sfs_blk_nentry
      → last ≡ sfs_ndirect + index
      → (sin.din.indirect == 0) ≡ false
      → Returns SubFreed (sfs_bmap_free_sub_nolock ops sin.din.indirect index s)
  unfolding sfs_bmap_free_sub_nolock
  sub_freed index l e z =
      let ent = sin.din.indirect in
      let u : IsUsed content ent s = v.1.entries (ground (arith, z)) in
      let range : (true && ltb index sfs_blk_nentry) ≡ true = ground (arith, l) in
      rw (sfs_block_inuse-used d ent s v.0 u, range)
        (Returns-bind (ReadsTo content 4 ent (index * 4) (word_bytes 0) s) SubFreed
          (sfs_rbuf ops (word_bytes 0) 4 ent (index * 4) s) _ (sub_read d sin.din s v index l z)
          after)
    where
      put :
          (x : Sfs W)
          → ((j : ℕ)
              → j < sfs_blk_nentry
              → get_word (content x.dev sin.din.indirect) (j * 4)
                ≡ (if j == index then 0 else get_word (content s.dev sin.din.indirect) (j * 4)))
          → (i : ℕ) → i < max_blocks
          → block_of (content x.dev) sin.din i
            ≡ (if i == last then 0 else block_of (content s.dev) sin.din i)
      put x words i h = elim (Bool-cases (ltb i sfs_ndirect)) [
        | inl f ↦
            let before : (i == last) ≡ false = ground (arith, f, e) in
            let near : block_of (content x.dev) sin.din i ≡ sin.din.direct i = rw f refl in
            let there : block_of (content s.dev) sin.din i ≡ sin.din.direct i = rw f refl in
            rw before (near ∙ sym there)
        | inr f ↦
            let near : block_of (content x.dev) sin.din i
                ≡ get_word (content x.dev sin.din.indirect) ((i - sfs_ndirect) * 4) =
              rw (f, z) refl in
            let there : block_of (content s.dev) sin.din i
                ≡ get_word (content s.dev sin.din.indirect) ((i - sfs_ndirect) * 4) =
              rw (f, z) refl in
            let same : (i - sfs_ndirect == index) ≡ (i == last) = ground (arith, f, e) in
            near
            ∙ (words (i - sfs_ndirect) (ground (arith, f, h))
                ∙ rw same (ap (λ n. if i == last then 0 else n) (sym there)))
      ]

      freed :
          (b : ℕ) (t x : Sfs W)
          → b ≡ block_of (content s.dev) sin.din last
          → Grows content s t
          → ((c k : ℕ) → content t.dev c k ≡ content s.dev c k)
          → (u : Sfs W)
          → WritesTo content sin.din.indirect (index * 4) 4 (word_bytes 0) t (done tt, u)
          → BlockFree content b u x
          → SubFreed (done tt, x)
      freed b t x at g same u w r =
          let ent = sin.din.indirect in
          let cells : (c k : ℕ) → content x.dev c k ≡ content u.dev c k =
            λ c k. subst (λ dev. content dev c k ≡ content u.dev c k) (sym r.2) refl in
          let others : (c : ℕ)
              → is_free s.freemap c ≡ false
              → c ≢ block_of (content s.dev) sin.din last
              → (is_free x.freemap c ≡ false)
                × (c ≢ ent → (k : ℕ) → content x.dev c k ≡ content s.dev c k) =
            λ c f n.
              let differs : (c == b) ≡ false = ground (arith, n, at) in
              (r.3 c ∙ rw (differs, w.0.2) (g.2 c f), λ m k. cells c k ∙ (w.1 c k m ∙ same c k)) in
          let itself : (b == b) ≡ true = ground arith in
          (
            r.0,
            refl,
            r.1 ∙ (w.0.0 ∙ g.1),
            put x (λ j h.
                get_word-same (content u.dev ent) (content x.dev ent) j h (λ k _. cells ent k)
                ∙ (get_word-same (copy_to (index * 4) 4 (word_bytes 0) (content t.dev ent))
                      (content u.dev ent) j h w.2
                    ∙ (get_word-put (content t.dev ent) 0 index j (omega arith)
                        ∙ ap (λ n. if j == index then 0 else n)
                            (get_word-same (content s.dev ent) (content t.dev ent) j h
                              (λ k _. same ent k))))),
            others,
            subst (λ c. is_free x.freemap c ≡ true) at (r.3 b ∙ rw itself refl),
          )

      wrote :
          (b : ℕ) (t : Sfs W)
          → b ≡ block_of (content s.dev) sin.din last
          → Grows content s t
          → ((c k : ℕ) → content t.dev c k ≡ content s.dev c k)
          → (r : Ret (Unit {0}) × Sfs W)
          → WritesTo content sin.din.indirect (index * 4) 4 (word_bytes 0) t r
          → Returns SubFreed (elim r.0 [
            | done _ ↦ sfs_block_free ops b r.1 >>= λ x. ok (done tt, x)
            | err e ↦ ok (err e, r.1)
          ])
      wrote b t at g same (err x, u) w =
          let h = Unchanged-Grows content t u w g.0 in Grows-trans content s t u g h
      wrote b t at g same (done _, u) w =
          let used : IsUsed content b t =
            Grows-IsUsed content s t g b
              (subst (λ c. IsUsed content c s) (sym at) (v.1.mapped last (omega arith))) in
          Returns-bind (BlockFree content b u) SubFreed (sfs_block_free ops b u) _
            (sfs_block_free-BlockFree d b u (Unchanged-IsSfs content t u w.0 g.0)
              (used.0, rw w.0.0 used.1, rw w.0.2 used.2))
            λ x r. freed b t x at g same u w r

      after :
          (r : Ret (Unit {0}) × Bytes × Sfs W)
          → ReadsTo content 4 sin.din.indirect (index * 4) (word_bytes 0) s r
          → Returns SubFreed (elim r.0 [
            | err e ↦ ok (err e, r.2)
            | done _ ↦
                if get_word r.1 0 == 0
                then ok (done tt, r.2)
                else (sfs_wbuf ops (word_bytes 0) 4 sin.din.indirect (index * 4) r.2 >>= λ (q, u).
                    elim q [
                      | err e ↦ ok (err e, u)
                      | done _ ↦ sfs_block_free ops (get_word r.1 0) u >>= λ x. ok (done tt, x)
                    ])
          ])
      after (err x, bytes, t) g = Unchanged-Grows content s t g.0 v.0
      after (done _, bytes, t) g =
          let b : ℕ = get_word bytes 0 in
          let grown = Unchanged-Grows content s t g.0 v.0 in
          let at : b ≡ block_of (content s.dev) sin.din last =
            entry_read d sin.din s v index l bytes g.1
            ∙ (sym (in_entries d sin.din s v index l index z)
                ∙ ap (block_of (content s.dev) sin.din) (sym e)) in
          let u =
            Grows-IsUsed content s t grown sin.din.indirect (v.1.entries (ground (arith, z))) in
          let named : (b == 0) ≡ false = ground (arith, (v.1.mapped last (omega arith)).0, at) in
          rw named (
            Returns-bind (WritesTo content sin.din.indirect (index * 4) 4 (word_bytes 0) t) SubFreed
              (sfs_wbuf ops (word_bytes 0) 4 sin.din.indirect (index * 4) t) _
              (sfs_wbuf-WritesTo d sin.din.indirect t (u.0, u.1, grown.0.small) (word_bytes 0) 4
                (index * 4) (omega (arith, l)) (omega (arith, l)))
              (wrote b t at grown g.0.1))
