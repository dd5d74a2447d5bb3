-- ===== src/Sfs/Truncate.antt =====
-- kern/fs/sfs/sfs_inode.c: `sfs_bmap_truncate_nolock`, which frees the last block of a file.
use lcore.Base.{
  ℕ, ◌+◌, ◌-◌, ◌<◌, ◌≡◌, ◌≢◌, refl, true, false, not, ◌&&◌, ◌∙◌, ap, ltb, ◌==◌, if◌then◌else◌,
  arith, sym, Bool-cases, inl, inr, ◌⊎◌, Returns, Returns-bind, ok, update, subst,
}
use lcore.Fs.Defs.{Ret, done, err}
use lcore.Fs.Bitmap.Laws.{is_free}
use lcore.Sfs.Defs.{
  Bytes, sfs_ndirect, sfs_blk_nentry, DiskInode, SfsInode, DeviceOps, Sfs, IsDevice,
}
use lcore.Sfs.Bmap.{
  sfs_block_free, sfs_bmap_free_sub_nolock, sfs_bmap_free_nolock, sfs_bmap_truncate_nolock,
}
use lcore.Sfs.Block.{IsUsed, Grows, BlockFree, sfs_block_free-BlockFree}
use lcore.Sfs.Map.{max_blocks, block_of, IsMap, IsSound, Kept, Others}
use lcore.Sfs.Sub.{no_entries}
use lcore.Sfs.Shrunk.{Shrunk, Shrunk-IsMap, SubFreed, sub_freed}

module _ {W : Type 0} {ops : DeviceOps W} {content : W → ℕ → Bytes} (d : IsDevice ops content)
    (sin : SfsInode) (s : Sfs W) (v : IsSound content sin.din s)
    (some_block : sin.din.blocks ≢ 0) where
  abbrev last : ℕ
  last = sin.din.blocks - 1

  abbrev NodeFreed : Ret (Unit {0}) × SfsInode × Sfs W → Type 0
  NodeFreed (err e, sin', t) = (sin' ≡ sin) × Grows content s t
  NodeFreed (done _, sin', t) =
      (sin'.din.blocks ≡ sin.din.blocks)
      × (sin'.din.size ≡ sin.din.size)
      × Shrunk content sin.din s sin'.din t

  node_freed : Returns NodeFreed (sfs_bmap_free_nolock ops last sin s)
  unfolding sfs_bmap_free_nolock
  node_freed = elim (Bool-cases (ltb last sfs_ndirect)) [
    | inl e ↦
        let direct : block_of (content s.dev) sin.din last ≡ sin.din.direct last = rw e refl in
        let u : IsUsed content (sin.din.direct last) s =
          subst (λ b. IsUsed content b s) direct (v.1.mapped last (omega arith)) in
        let named : (sin.din.direct last == 0) ≡ false = ground (arith, u.0) in
        rw (e, named)
          (Returns-bind (BlockFree content (sin.din.direct last) s) NodeFreed
            (sfs_block_free ops (sin.din.direct last) s) _
            (sfs_block_free-BlockFree d (sin.din.direct last) s v.0 u) (direct_block e direct))
    | inr e ↦
        let index = last - sfs_ndirect in
        let range : index < sfs_blk_nentry = ground (arith, v.1.bounded, some_block, e) in
        let at : last ≡ sfs_ndirect + index = ground (arith, e) in
        let z : (sin.din.indirect == 0) ≡ false =
          named (last - sfs_ndirect) range at (Bool-cases (sin.din.indirect == 0)) in
        let test : (ltb index sfs_blk_nentry && not (sin.din.indirect == 0)) ≡ true =
          ground (arith, range, z) in
        rw (e, test)
          (Returns-bind (SubFreed d sin s v some_block) NodeFreed
            (sfs_bmap_free_sub_nolock ops sin.din.indirect index s) _
            (sub_freed d sin s v some_block index range at z) sub_block)
  ]
    where
      named :
          (index : ℕ)
          → index < sfs_blk_nentry
          → last ≡ sfs_ndirect + index
          → ((sin.din.indirect == 0) ≡ true) ⊎ ((sin.din.indirect == 0) ≡ false)
          → (sin.din.indirect == 0) ≡ false
      named index l at (inr q) = q
      named index l at (inl q) = absurd (
          (v.1.mapped last (omega arith)).0
            (ap (block_of (content s.dev) sin.din) at ∙ no_entries d sin.din s v index l index q))

      sub_block :
          (r : Ret (Unit {0}) × Sfs W) → SubFreed d sin s v some_block r → NodeFreed (r.0, sin, r.1)
      sub_block (err x, t) f = (refl, f)
      sub_block (done _, t) f = (refl, refl, f)

      direct_block :
          ltb last sfs_ndirect ≡ true
          → block_of (content s.dev) sin.din last ≡ sin.din.direct last
          → (x : Sfs W) → BlockFree content (sin.din.direct last) s x
          → NodeFreed (
            done tt,
            record sin {
              din = record sin.din { direct = update sin.din.direct last 0 };
              dirty = true;
            },
            x,
          )
      direct_block e direct x r =
          let b : ℕ = sin.din.direct last in
          let din' : DiskInode = record sin.din { direct = update sin.din.direct last 0 } in
          let itself : (b == b) ≡ true = ground arith in
          let put : (i : ℕ)
              → i < max_blocks
              → block_of (content s.dev) din' i
                ≡ (if i == last then 0 else block_of (content s.dev) sin.din i) =
            λ i h. elim (Bool-cases (ltb i sfs_ndirect)) [
              | inl f ↦ rw f refl
              | inr f ↦
                  let differs : (i == last) ≡ false = ground (arith, e, f) in rw (f, differs) refl
            ] in
          (
            refl,
            refl,
            (
              r.0,
              refl,
              r.1,
              λ i h.
                  subst
                    (λ dev.
                      block_of (content dev) din' i
                      ≡ (if i == last then 0 else block_of (content s.dev) sin.din i))
                    (sym r.2) (put i h),
              λ c f n.
                  let differs : (c == b) ≡ false = ground (arith, n, direct) in
                  (
                    r.3 c ∙ rw differs f,
                    λ _ k. subst (λ dev. content dev c k ≡ content s.dev c k) (sym r.2) refl,
                  ),
              subst (λ c. is_free x.freemap c ≡ true) (sym direct) (r.3 b ∙ rw itself refl),
            ),
          )

  -- What the removal of the last block leaves.
  abbrev pub Truncated : Ret (Unit {0}) × SfsInode × Sfs W → Type 0
  Truncated (err e, sin', t) = (sin' ≡ sin) × Grows content s t
  Truncated (done _, sin', t) =
      IsSound content sin'.din t
      × (sin'.din.blocks + 1 ≡ sin.din.blocks)
      × (sin'.din.size ≡ sin.din.size)
      × Kept content sin'.din.blocks sin.din s sin'.din t
      × Others content sin.din s sin'.din t
      × (is_free t.freemap (block_of (content s.dev) sin.din sin'.din.blocks) ≡ true)

  -- For a sound file with a block, sfs_bmap_truncate_nolock returns: on an error the inode is
  -- unchanged and every block in use is kept; else the last block is free, the others and those of
  -- others keep their bytes, and file and file system are sound.
  pub sfs_bmap_truncate_nolock-Truncated : Returns Truncated (sfs_bmap_truncate_nolock ops sin s)
  unfolding sfs_bmap_truncate_nolock
  sfs_bmap_truncate_nolock-Truncated =
      let test : (sin.din.blocks == 0) ≡ false = ground (arith, some_block) in
      rw test
        (Returns-bind NodeFreed Truncated (sfs_bmap_free_nolock ops last sin s) _ node_freed after)
    where
      after :
          (r : Ret (Unit {0}) × SfsInode × Sfs W)
          → NodeFreed r
          → Returns Truncated (elim r.0 [
            | err x ↦ ok (err x, r.1, r.2)
            | done _ ↦ ok (
              done tt,
              record r.1 { din = record r.1.din { blocks = r.1.din.blocks - 1 }; dirty = true },
              r.2,
            )
          ])
      after (err x, sin', t) f = f
      after (done _, sin1, t) f =
          let h = f.2 in
          let m = block_of (content s.dev) sin.din in
          let fewer : sin1.din.blocks - 1 ≡ last = omega (arith, f.0) in
          let map' = Shrunk-IsMap content sin.din s sin1.din t v some_block h in
          let w = v.1 in
          let apart : (i : ℕ) → i < last → m i ≢ m last =
            λ i l q. ground (arith, w.distinct i last (omega (arith, l)) (omega arith) q, l) in
          let old : (i : ℕ) → i < last → block_of (content t.dev) sin1.din i ≡ m i =
            λ i l. ground (arith, h.3 i, w.bounded, l) in
          (
            (
              h.0,
              subst (λ n. IsMap content t (block_of (content t.dev) sin1.din) n sin1.din.indirect)
                  (sym fewer) map',
            ),
            omega (arith, fewer),
            f.1,
            λ i l.
                let l' : i < last = omega (arith, l, fewer) in
                let u = w.mapped i (omega (arith, l')) in
                (old i l', (h.4 (m i) u.2 (apart i l')).1 (w.apart i (omega (arith, l')))),
            λ b o.
                let kept = h.4 b o.0 (o.2 last (omega arith)) in
                (
                  (
                    kept.0,
                    λ q. o.1 (q ∙ h.1),
                    λ i l q.
                        let l' : i < last = omega (arith, l, fewer) in
                        o.2 i (omega (arith, l')) (q ∙ old i l'),
                  ),
                  kept.1 o.1,
                ),
            subst (λ i. is_free t.freemap (m i) ≡ true) (sym fewer) h.5,
          )
