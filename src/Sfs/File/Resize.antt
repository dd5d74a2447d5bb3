-- ===== src/Sfs/File/Resize.antt =====
-- kern/fs/sfs/sfs_inode.c: what `sfs_truncfile` does to the blocks of a file.
use lcore.Base.{
  ℕ, zero, suc, ◌+◌, ◌-◌, ◌%◌, ◌^◌, ◌≤◌, ◌<◌, ◌≡◌, ◌≢◌, refl, ◌∙◌, ap, arith, sym, Returns,
  Returns-bind, Returns-mono, ok, subst, dec_lt, ℕ_discrete,
}
use lcore.Fs.Defs.{Ret, done, err}
use lcore.Sfs.Defs.{Bytes, sfs_blksize, DiskInode, SfsInode, DeviceOps, Sfs, IsDevice}
use lcore.Sfs.Bmap.{sfs_bmap_load_nolock, sfs_bmap_truncate_nolock}
use lcore.Sfs.Block.{Grows}
use lcore.Sfs.Map.{max_blocks, block_of, IsSound, Extends, Kept, Others, Kept-trans, Others-trans}
use lcore.Sfs.Load.{Loaded, sfs_bmap_load_nolock-Loaded}
use lcore.Sfs.Get.{Grows-IsSound, Grows-Extends}
use lcore.Sfs.Truncate.{Truncated, sfs_bmap_truncate_nolock-Truncated}
use lcore.Sfs.File.{Changed, enlarge, reduce}

module _ {W : Type 0} (content : W → ℕ → Bytes) where
  pub Extends-Kept :
      (din : DiskInode) (s : Sfs W) (din' : DiskInode) (t : Sfs W)
      → IsSound content din s
      → Extends content din s din' t
      → Kept content din.blocks din s din' t
  Extends-Kept din s din' t v x i h =
      (x.2 i h, (x.3 (block_of (content s.dev) din i) (v.1.mapped i h).2 (v.1.apart i h)).2)

  pub Grows-Others :
      (din : DiskInode) (s t : Sfs W)
      → IsSound content din s
      → Grows content s t
      → Others content din s din t
  Grows-Others din s t v g b o = (
    (g.2 b o.0, o.1, λ i h q. o.2 i h (q ∙ (Grows-Extends content din s t v g).2 i h)),
    λ k. g.3 b k o.0,
  )

  -- The blocks from `lo` to `hi` are zeros.
  abbrev pub Zeroed : (lo hi : ℕ) → DiskInode → Sfs W → Type 0
  Zeroed lo hi din t =
      (i : ℕ)
      → lo ≤ i
      → i < hi
      → (k : ℕ) → k < sfs_blksize
      → content t.dev (block_of (content t.dev) din i) k ≡ 0

  -- What holds of a file after its length has changed, or should have.
  abbrev pub Resized :
      (kept : ℕ) → (sin : SfsInode) (s : Sfs W) (sin' : SfsInode) (t : Sfs W) → Type 0
  Resized kept sin s sin' t =
      IsSound content sin'.din t
      × Kept content kept sin.din s sin'.din t
      × Others content sin.din s sin'.din t

  abbrev pub WhenDone : Ret (Unit {0}) → Type 0 → Type 0
  WhenDone (done _) P = P
  WhenDone (err e) P = Unit {0}

  abbrev pub Enlarged :
      (n : ℕ) → (sin : SfsInode) (s : Sfs W) → Ret (Unit {0}) × SfsInode × Sfs W → Type 0
  Enlarged n sin s (r, sin', t) =
      Resized sin.din.blocks sin s sin' t
      × (sin'.din.size ≡ sin.din.size)
      × WhenDone r (
          (sin'.din.blocks ≡ sin.din.blocks + n)
          × Zeroed sin.din.blocks (sin.din.blocks + n) sin'.din t)

  abbrev pub Reduced :
      (n : ℕ) → (sin : SfsInode) (s : Sfs W) → Ret (Unit {0}) × SfsInode × Sfs W → Type 0
  Reduced n sin s (r, sin', t) =
      Resized (sin.din.blocks - n) sin s sin' t
      × (sin'.din.size ≡ sin.din.size)
      × WhenDone r (sin'.din.blocks + n ≡ sin.din.blocks)

  pub Kept-refl : (n : ℕ) (din : DiskInode) (s : Sfs W) → Kept content n din s din s
  Kept-refl n din s i h = (refl, λ k. refl)

  pub Kept-le :
      (m n : ℕ) (din : DiskInode) (s : Sfs W) (din' : DiskInode) (t : Sfs W)
      → m ≤ n
      → Kept content n din s din' t
      → Kept content m din s din' t
  Kept-le m n din s din' t le h i l = h i (omega (arith, l, le))

  pub Others-refl : (din : DiskInode) (s : Sfs W) → Others content din s din s
  Others-refl din s b o = (o, λ k. refl)

module _ {W : Type 0} {ops : DeviceOps W} {content : W → ℕ → Bytes} (d : IsDevice ops content) where
  -- A load, successful or not, leaves the file's blocks and what belongs to others.
  pub Loaded-Resized :
      (sin : SfsInode) (s : Sfs W) (v : IsSound content sin.din s) (index : ℕ) (r : Ret ℕ)
      (sin' : SfsInode) (t : Sfs W)
      → Loaded d sin s v index (r, sin', t)
      → Resized content sin.din.blocks sin s sin' t × (sin'.din.size ≡ sin.din.size)
  Loaded-Resized sin s v index (err e) sin' t l =
      subst (λ x. Resized content sin.din.blocks sin s x t × (x.din.size ≡ sin.din.size)) (sym l.0)
        (
          (
            Grows-IsSound content sin.din s t v l.1,
            Extends-Kept content sin.din s sin.din t v (Grows-Extends content sin.din s t v l.1),
            Grows-Others content sin.din s t v l.1,
          ),
          refl,
        )
  Loaded-Resized sin s v index (done ino) sin' t l = (
    (
      l.0,
      Extends-Kept content sin.din s sin'.din t v l.1,
      λ b o.
          let x = l.1.3 b o.0 o.1 in
          (
            (
              x.0,
              x.1,
              λ i h q. elim (dec_lt i sin.din.blocks) [
                | yes y ↦ o.2 i y (q ∙ l.1.2 i y)
                | no n ↦
                    let here : (i ≡ index) × (index ≡ sin.din.blocks) = ground (arith, l.3, h, n) in
                    let at : b ≡ ino = q ∙ (ap (block_of (content t.dev) sin'.din) here.0 ∙ l.4) in
                    ground (arith, (l.5 here.1).0, at, o.0)
              ],
            ),
            x.2,
          ),
    ),
    l.2,
  )

  module _ (sin : SfsInode) (s : Sfs W) (k : ℕ) where
    pub Resized-trans :
        (sin1 : SfsInode) (t : Sfs W) (sin2 : SfsInode) (u : Sfs W)
        → Resized content k sin s sin1 t
        → Resized content k sin1 t sin2 u
        → Resized content k sin s sin2 u
    Resized-trans sin1 t sin2 u g h = (
      h.0,
      Kept-trans content k sin.din s sin1.din t sin2.din u g.1 h.1,
      Others-trans content sin.din s sin1.din t sin2.din u g.2 h.2,
    )

  pub Resized-le :
      (m n : ℕ) (sin : SfsInode) (s : Sfs W) (sin' : SfsInode) (t : Sfs W)
      → m ≤ n
      → Resized content n sin s sin' t
      → Resized content m sin s sin' t
  Resized-le m n sin s sin' t le g = (g.0, Kept-le content m n sin.din s sin'.din t le g.1, g.2)

  -- One more block, then the others.
  Enlarged-suc :
      (n : ℕ) (sin : SfsInode) (s : Sfs W) (v : IsSound content sin.din s) (ino : ℕ)
      (sin1 : SfsInode) (t : Sfs W)
      → Loaded d sin s v sin.din.blocks (done ino, sin1, t)
      → (r : Ret (Unit {0})) (sin2 : SfsInode) (u : Sfs W) → Enlarged content n sin1 t (r, sin2, u)
      → Enlarged content (suc n) sin s (r, sin2, u)
  Enlarged-suc n sin s v ino sin1 t l r sin2 u x =
      let b = sin.din.blocks in
      let next : sin1.din.blocks ≡ b + 1 = ground (arith, l.3) in
      let one = Loaded-Resized sin s v b (done ino) sin1 t l in
      let rest = Resized-le b sin1.din.blocks sin1 t sin2 u (omega (arith, next)) x.0 in
      (Resized-trans sin s b sin1 t sin2 u one.0 rest, x.1 ∙ one.1, last next r x)
    where
      last :
          sin1.din.blocks ≡ sin.din.blocks + 1
          → (r : Ret (Unit {0})) → Enlarged content n sin1 t (r, sin2, u)
          → WhenDone content r (
              (sin2.din.blocks ≡ sin.din.blocks + suc n)
              × Zeroed content sin.din.blocks (sin.din.blocks + suc n) sin2.din u)
      last next (err e) x = tt
      last next (done _) x = (
        omega (arith, next, x.2.0),
        λ i lo hi k h. elim (ℕ_discrete i sin.din.blocks) [
          | yes e ↦
              let kept = x.0.1 i (omega (arith, e, next)) in
              let at : block_of (content t.dev) sin1.din i ≡ ino =
                ap (block_of (content t.dev) sin1.din) e ∙ l.4 in
              ap (λ c. content u.dev c k) (kept.0)
              ∙ (kept.1 k ∙ (ap (λ c. content t.dev c k) at ∙ (l.5 refl).1 k h))
          | no ne ↦ x.2.1 i (omega (arith, lo, ne, next)) (omega (arith, hi, next)) k h
        ],
      )

  enlarge_step :
      (n : ℕ) (sin : SfsInode) (s : Sfs W) (v : IsSound content sin.din s)
      (next : SfsInode → Sfs W → Changed ops)
      → ((sin1 : SfsInode) (t : Sfs W)
          → IsSound content sin1.din t
          → sin1.din.blocks ≡ sin.din.blocks + 1
          → Returns (Enlarged content n sin1 t) (next sin1 t))
      → (r : Ret ℕ × SfsInode × Sfs W) → Loaded d sin s v sin.din.blocks r
      → Returns
          (Enlarged content (suc n) sin s)
          (elim r.0 [ err e ↦ ok (err e, r.1, r.2) | done _ ↦ next r.1 r.2 ])
  enlarge_step n sin s v next rest (err e, sin1, t) l =
      let one = Loaded-Resized sin s v sin.din.blocks (err e) sin1 t l in (one.0, one.1, tt)
  enlarge_step n sin s v next rest (done ino, sin1, t) l =
      Returns-mono (Enlarged content n sin1 t) (Enlarged content (suc n) sin s) (next sin1 t)
        (rest sin1 t l.0 (ground (arith, l.3)))
        λ r x. Enlarged-suc n sin s v ino sin1 t l r.0 r.1 r.2 x

  reduce_step :
      (n : ℕ) (sin : SfsInode) (s : Sfs W) (v : IsSound content sin.din s)
      (some_block : sin.din.blocks ≢ 0) (next : SfsInode → Sfs W → Changed ops)
      → ((sin1 : SfsInode) (t : Sfs W)
          → IsSound content sin1.din t
          → sin1.din.blocks + 1 ≡ sin.din.blocks
          → Returns (Reduced content n sin1 t) (next sin1 t))
      → (r : Ret (Unit {0}) × SfsInode × Sfs W) → Truncated d sin s v some_block r
      → Returns
          (Reduced content (suc n) sin s)
          (elim r.0 [ err e ↦ ok (err e, r.1, r.2) | done _ ↦ next r.1 r.2 ])
  reduce_step n sin s v some_block next rest (err e, sin1, t) l =
      let one = Loaded-Resized sin s v 0 (err e) sin1 t l in
      (
        Resized-le (sin.din.blocks - suc n) sin.din.blocks sin s sin1 t (omega arith) one.0,
        one.1,
        tt,
      )
  reduce_step n sin s v some_block next rest (done _, sin1, t) l =
      let k = sin.din.blocks - suc n in
      let one : Resized content k sin s sin1 t = (
        l.0,
        Kept-le content k sin1.din.blocks sin.din s sin1.din t (omega (arith, l.1)) l.3,
        l.4,
      ) in
      Returns-mono (Reduced content n sin1 t) (Reduced content (suc n) sin s) (next sin1 t)
        (rest sin1 t l.0 l.1)
        λ r x.
          let le : k ≤ sin1.din.blocks - n = omega (arith, l.1) in
          let two = Resized-le k (sin1.din.blocks - n) sin1 t r.1 r.2 le x.0 in
          (Resized-trans sin s k sin1 t r.1 r.2 one two, x.1 ∙ l.2, last r.0 r.1 x.2)
    where
      last :
          (r : Ret (Unit {0})) (sin2 : SfsInode)
          → WhenDone content r (sin2.din.blocks + n ≡ sin1.din.blocks)
          → WhenDone content r (sin2.din.blocks + suc n ≡ sin.din.blocks)
      last (err e) sin2 x = tt
      last (done _) sin2 x = omega (arith, x, l.1)

  pub enlarge-Enlarged :
      (n nblks : ℕ) (sin : SfsInode) (s : Sfs W)
      → IsSound content sin.din s
      → nblks ≡ sin.din.blocks
      → nblks + n ≤ max_blocks
      → Returns (Enlarged content n sin s) (enlarge ops n nblks sin s)
  unfolding enlarge
  enlarge-Enlarged zero nblks sin s v e l = (
    (v, Kept-refl content sin.din.blocks sin.din s, Others-refl content sin.din s),
    refl,
    (omega arith, λ i lo hi k h. absurd (omega (arith, lo, hi))),
  )
  enlarge-Enlarged (suc n) nblks sin s v e l =
      subst (λ b. Returns (Enlarged content (suc n) sin s) (enlarge ops (suc n) b sin s)) (sym e)
        (Returns-bind (Loaded d sin s v sin.din.blocks) (Enlarged content (suc n) sin s)
          (sfs_bmap_load_nolock ops sin.din.blocks sin s) _
          (sfs_bmap_load_nolock-Loaded d sin s v sin.din.blocks (omega arith) (omega (arith, e, l)))
          (enlarge_step n sin s v (enlarge ops n ((sin.din.blocks + 1) % 2 ^ 32)) λ sin1 t w q.
            enlarge-Enlarged n ((sin.din.blocks + 1) % 2 ^ 32) sin1 t w (omega (arith, q, e, l))
              (omega (arith, e, l))))

  pub reduce-Reduced :
      (n : ℕ) (sin : SfsInode) (s : Sfs W)
      → IsSound content sin.din s
      → n ≤ sin.din.blocks
      → Returns (Reduced content n sin s) (reduce ops n sin s)
  unfolding reduce
  reduce-Reduced zero sin s v l = (
    (v, Kept-refl content (sin.din.blocks - 0) sin.din s, Others-refl content sin.din s),
    refl,
    omega arith,
  )
  reduce-Reduced (suc n) sin s v l =
      let some_block : sin.din.blocks ≢ 0 = λ e. ground (arith, l, e) in
      Returns-bind (Truncated d sin s v some_block) (Reduced content (suc n) sin s)
        (sfs_bmap_truncate_nolock ops sin s) _
        (sfs_bmap_truncate_nolock-Truncated d sin s v some_block)
        (reduce_step n sin s v some_block (reduce ops n)
          λ sin1 t w q. reduce-Reduced n sin1 t w (omega (arith, q, l)))
