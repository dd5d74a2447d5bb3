-- ===== src/Sfs/Get.antt =====
-- kern/fs/sfs/sfs_inode.c: `sfs_bmap_get_nolock`.
use lcore.Base.{
  ℕ, ◌+◌, ◌-◌, ◌<◌, ◌≡◌, refl, true, false, ◌&&◌, ◌∙◌, ap, ltb, ◌==◌, if◌then◌else◌, arith, sym,
  Bool-cases, inl, inr, Returns, Returns-bind, ok, ◌>>◌, assert, update, subst,
}
use lcore.Fs.Defs.{Ret, done, err}
use lcore.Sfs.Defs.{
  Bytes, sfs_ndirect, sfs_blk_nentry, DiskInode, SfsInode, DeviceOps, Sfs, IsDevice,
}
use lcore.Sfs.Bmap.{sfs_block_alloc, sfs_bmap_get_sub_nolock, got, sfs_bmap_get_nolock}
use lcore.Sfs.Block.{
  IsSfs, IsUsed, Grows, Grows-refl, Grows-IsUsed, BlockAlloc, sfs_block_inuse-used,
}
use lcore.Sfs.Block.Alloc.{sfs_block_alloc-BlockAlloc}
use lcore.Sfs.Map.{max_blocks, block_of, IsMap, Extends, IsSound}
use lcore.Sfs.Sub.{sfs_bmap_get_sub_nolock-SubFound, sfs_bmap_get_sub_nolock-SubAlloc}
use lcore.Sfs.Grown.{block_of-kept, Grown, Grown-intro, SubFound, SubAlloc}

module _ {W : Type 0} (content : W → ℕ → Bytes) where
  -- The same map, where the blocks in use still are.
  pub IsMap-same :
      (s t : Sfs W) (m m' : ℕ → ℕ) (n e : ℕ)
      → ((b : ℕ) → IsUsed content b s → IsUsed content b t)
      → ((i : ℕ) → i < max_blocks → m' i ≡ m i)
      → IsMap content s m n e
      → IsMap content t m' n e
  IsMap-same s t m m' n e used same v = record {
    bounded = v.bounded;
    entries = λ q. used e (v.entries q);
    mapped = λ i h.
        subst (λ b. IsUsed content b t) (sym (same i (omega (arith, h, v.bounded))))
          (used (m i) (v.mapped i h));
    unmapped = λ i h k. same i k ∙ v.unmapped i h k;
    apart = λ i h q. v.apart i h (sym (same i (omega (arith, h, v.bounded))) ∙ q);
    distinct = λ i j h k q.
        v.distinct i j h k
          (sym (same i (omega (arith, h, v.bounded))) ∙ (q ∙ same j (omega (arith, k, v.bounded))));
  }

  pub Grows-IsSound :
      (din : DiskInode) (s t : Sfs W)
      → IsSound content din s
      → Grows content s t
      → IsSound content din t
  Grows-IsSound din s t v g = (
    g.0,
    IsMap-same s t (block_of (content s.dev) din) (block_of (content t.dev) din) din.blocks
        din.indirect (Grows-IsUsed content s t g) (block_of-kept content din s t v.1 g) v.1,
  )

  pub Grows-Extends :
      (din : DiskInode) (s t : Sfs W)
      → IsSound content din s
      → Grows content s t
      → Extends content din s din t
  Grows-Extends din s t v g = (
    g.1,
    omega arith,
    λ i h. block_of-kept content din s t v.1 g i (omega (arith, h, v.1.bounded)),
    λ b f n. (g.2 b f, n, λ k. g.3 b k f),
  )

module _ {W : Type 0} {ops : DeviceOps W} {content : W → ℕ → Bytes} (d : IsDevice ops content)
    (sin : SfsInode) (s : Sfs W) (v : IsSound content sin.din s) where
  abbrev pub GetFound : ℕ → Ret ℕ × SfsInode × Sfs W → Type 0
  GetFound index (err e, sin', t) = (sin' ≡ sin) × Grows content s t
  GetFound index (done ino, sin', t) =
      (sin' ≡ sin) × (ino ≡ block_of (content s.dev) sin.din index) × Grows content s t

  abbrev pub GetAlloc : Ret ℕ × SfsInode × Sfs W → Type 0
  GetAlloc (err e, sin', t) = (sin' ≡ sin) × Grows content s t
  GetAlloc (done ino, sin', t) =
      (sin'.din.blocks ≡ sin.din.blocks)
      × (sin'.din.size ≡ sin.din.size)
      × Grown content sin.din s ino sin'.din t

  -- The check before the answer.
  got-used :
      (ino : ℕ) (sin' : SfsInode) (t : Sfs W)
      → IsSfs t
      → IsUsed content ino t
      → got ops ino sin' t ≡ ok (done ino, sin', t)
  got-used ino sin' t w u =
      let named : (ino == 0) ≡ false = ground (arith, u.0) in
      rw (named, sfs_block_inuse-used d ino t w u) refl

  pub get_found :
      (index : ℕ)
      → index < sin.din.blocks
      → Returns (GetFound index) (sfs_bmap_get_nolock ops index false sin s)
  unfolding sfs_bmap_get_nolock
  get_found index h = elim (Bool-cases (ltb index sfs_ndirect)) [
    | inl e ↦
        let direct : block_of (content s.dev) sin.din index ≡ sin.din.direct index = rw e refl in
        let u : IsUsed content (sin.din.direct index) s =
          subst (λ b. IsUsed content b s) direct (v.1.mapped index h) in
        let no_create : (sin.din.direct index == 0 && false) ≡ false = ground arith in
        rw (e, no_create)
          (subst (λ m. Returns (GetFound index) m)
            (sym (got-used (sin.din.direct index) sin s v.0 u))
            (refl, sym direct, Grows-refl content s v.0))
    | inr e ↦
        let range : ltb (index - sfs_ndirect) sfs_blk_nentry ≡ true =
          ground (arith, h, v.1.bounded, e) in
        rw (e, range)
          (Returns-bind (SubFound content sin.din s v (index - sfs_ndirect)) (GetFound index)
            (sfs_bmap_get_sub_nolock ops sin.din.indirect (index - sfs_ndirect) false s) _
            (sfs_bmap_get_sub_nolock-SubFound d sin.din s v (index - sfs_ndirect)
              (ground (arith, range)))
            (after e))
  ]
    where
      after :
          ltb index sfs_ndirect ≡ false
          → (r : Ret ℕ × ℕ × Sfs W) → SubFound content sin.din s v (index - sfs_ndirect) r
          → Returns (GetFound index) (elim r.0 [
            | err e ↦ ok (err e, sin, r.2)
            | done ino ↦
                let sin' = record sin { din = record sin.din { indirect = r.1 }; dirty = true } in
                if r.1 == sin.din.indirect
                then got ops ino sin r.2
                else assert (sin.din.indirect == 0) >> got ops ino sin' r.2
          ])
      after e (err x, p, t) g = (refl, g)
      after e (done ino, p, t) g =
          let at : sfs_ndirect + (index - sfs_ndirect) ≡ index = ground (arith, e) in
          let found : ino ≡ block_of (content s.dev) sin.din index =
            g.1 ∙ ap (block_of (content s.dev) sin.din) at in
          let same : (p == sin.din.indirect) ≡ true = ground (arith, g.0) in
          let u : IsUsed content ino t =
            Grows-IsUsed content s t g.2 ino
              (subst (λ b. IsUsed content b s) (sym found) (v.1.mapped index h)) in
          rw same (
            subst (λ m. Returns (GetFound index) m) (sym (got-used ino sin t g.2.0 u))
              (refl, found, g.2))

  pub get_alloc :
      sin.din.blocks < max_blocks
      → Returns GetAlloc (sfs_bmap_get_nolock ops sin.din.blocks true sin s)
  unfolding sfs_bmap_get_nolock
  get_alloc h = elim (Bool-cases (ltb sin.din.blocks sfs_ndirect)) [
    | inl e ↦
        let empty : sin.din.direct sin.din.blocks ≡ 0 =
          subst (λ b. b ≡ 0) (rw e refl) (v.1.unmapped sin.din.blocks (omega arith) h) in
        let create : (sin.din.direct sin.din.blocks == 0 && true) ≡ true = ground (arith, empty) in
        rw (e, create)
          (Returns-bind (BlockAlloc content s) GetAlloc (sfs_block_alloc ops s) _
            (sfs_block_alloc-BlockAlloc d s v.0) (direct_block e))
    | inr e ↦
        let range : ltb (sin.din.blocks - sfs_ndirect) sfs_blk_nentry ≡ true =
          ground (arith, h, e) in
        rw (e, range)
          (Returns-bind (SubAlloc content sin.din s v) GetAlloc
            (sfs_bmap_get_sub_nolock ops sin.din.indirect (sin.din.blocks - sfs_ndirect) true s) _
            (sfs_bmap_get_sub_nolock-SubAlloc d sin.din s v (sin.din.blocks - sfs_ndirect)
              (ground (arith, range)) (ground (arith, e)))
            (after e))
  ]
    where
      put :
          ltb sin.din.blocks sfs_ndirect ≡ true
          → (ino : ℕ) (t : Sfs W) → Grows content s t
          → (i : ℕ) → i < max_blocks
          → block_of
              (content t.dev)
              (record sin.din { direct = update sin.din.direct sin.din.blocks ino })
              i
            ≡ (if i == sin.din.blocks then ino else block_of (content s.dev) sin.din i)
      put e ino t g i l = elim (Bool-cases (ltb i sfs_ndirect)) [
        | inl x ↦ rw x refl
        | inr x ↦
            let differs : (i == sin.din.blocks) ≡ false = ground (arith, x, e) in
            let near : block_of (content t.dev)
                  (record sin.din { direct = update sin.din.direct sin.din.blocks ino }) i
                ≡ block_of (content t.dev) sin.din i =
              rw x refl in
            near ∙ (block_of-kept content sin.din s t v.1 g i l ∙ rw differs refl)
      ]

      direct_block :
          ltb sin.din.blocks sfs_ndirect ≡ true
          → (r : Ret ℕ × Sfs W) → BlockAlloc content s r
          → Returns GetAlloc (elim r.0 [
            | err x ↦ ok (err x, sin, r.1)
            | done ino ↦
                let din' = record sin.din { direct = update sin.din.direct sin.din.blocks ino } in
                got ops ino (record sin { din = din'; dirty = true }) r.1
          ])
      direct_block e (err x, t) g = (refl, g)
      direct_block e (done ino, t) g =
          let din' : DiskInode = record sin.din {
            direct = update sin.din.direct sin.din.blocks ino;
          } in
          subst (λ m. Returns GetAlloc m)
            (sym (got-used ino (record sin { din = din'; dirty = true }) t g.0.0 g.2))
            (
              refl,
              refl,
              Grown-intro content sin.din s v ino din' t h refl g.0.0 g.0.1 g.1 g.2
                  (λ q. ground (arith, v.1.entries, g.1, g.2.0, q))
                  (λ n. Grows-IsUsed content s t g.0 sin.din.indirect (v.1.entries n))
                  (λ b f. (g.0.2 b f, λ n. (n, λ k. g.0.3 b k f))) (put e ino t g.0) g.3,
            )

      after :
          ltb sin.din.blocks sfs_ndirect ≡ false
          → (r : Ret ℕ × ℕ × Sfs W) → SubAlloc content sin.din s v r
          → Returns GetAlloc (elim r.0 [
            | err e ↦ ok (err e, sin, r.2)
            | done ino ↦
                let sin' = record sin { din = record sin.din { indirect = r.1 }; dirty = true } in
                if r.1 == sin.din.indirect
                then got ops ino sin r.2
                else assert (sin.din.indirect == 0) >> got ops ino sin' r.2
          ])
      after e (err x, p, t) g = (refl, g)
      after e (done ino, p, t) g = elim (Bool-cases (p == sin.din.indirect)) [
        | inl z ↦
            let same : p ≡ sin.din.indirect = ground (arith, z) in
            rw z (
              subst (λ m. Returns GetAlloc m) (sym (got-used ino sin t g.1.0 g.1.5))
                (
                  refl,
                  refl,
                  subst (λ q. Grown content sin.din s ino (record sin.din { indirect = q }) t) same
                      g.1,
                ))
        | inr z ↦
            let none : (sin.din.indirect == 0) ≡ true = ground (arith, g.0, z) in
            let sin' : SfsInode = record sin {
              din = record sin.din { indirect = p };
              dirty = true;
            } in
            rw (z, none)
              (subst (λ m. Returns GetAlloc m) (sym (got-used ino sin' t g.1.0 g.1.5))
                (refl, refl, g.1))
      ]
