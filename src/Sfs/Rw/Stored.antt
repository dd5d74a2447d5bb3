-- ===== src/Sfs/Rw/Stored.antt =====
-- The bytes of a file, and what a write into one of its blocks changes.
use lcore.Base.{
  ℕ, ◌+◌, ◌-◌, ◌*◌, ◌/◌, ◌%◌, ◌≤◌, ◌<◌, ◌≡◌, refl, Bool, false, ◌&&◌, ◌∙◌, ap, ltb, leb, ◌==◌,
  if◌then◌else◌, arith, sym, Bool-cases, inl, inr, dec_lt, ℕ_discrete,
}
use lcore.Fs.Defs.{Ret, done, err}
use lcore.Sfs.Defs.{Bytes, sfs_ndirect, DiskInode, SfsInode, DeviceOps, Sfs, IsDevice}
use lcore.Sfs.Io.Laws.{Unchanged, Wrote}
use lcore.Sfs.Block.{Unchanged-IsSfs, Unchanged-Grows}
use lcore.Sfs.Map.{max_blocks, block_of, get_word-same, IsSound, Others, Others-trans}
use lcore.Sfs.Load.{Loaded}
use lcore.Sfs.Get.{IsMap-same, Grows-IsSound}
use lcore.Sfs.Grown.{block_of-kept}
use lcore.Sfs.File.Resize.{Loaded-Resized, Grows-Others}

-- The byte at `p` of a file.
abbrev pub byte_at : (blocks : ℕ → Bytes) → DiskInode → ℕ → ℕ
byte_at blocks din p = blocks (block_of blocks din (p / 4096)) (p % 4096)

module _ {W : Type 0} (content : W → ℕ → Bytes) (din : DiskInode) (t : Sfs W)
    (v : IsSound content din t) (blkno : ℕ) (within : blkno < din.blocks) (off len : ℕ)
    (src : Bytes) (u : Sfs W)
    (w : Wrote content (block_of (content t.dev) din blkno) off len src t u) where
  abbrev ino : ℕ
  ino = block_of (content t.dev) din blkno

  Wrote-block_of :
      (i : ℕ) → i < max_blocks → block_of (content u.dev) din i ≡ block_of (content t.dev) din i
  Wrote-block_of i h = elim (Bool-cases (ltb i sfs_ndirect)) [
    | inl e ↦ rw e refl
    | inr e ↦ elim (Bool-cases (din.indirect == 0)) [
      | inl z ↦ rw (e, z) refl
      | inr z ↦
          rw (e, z)
            (get_word-same (content t.dev din.indirect) (content u.dev din.indirect)
              (i - sfs_ndirect) (ground (arith, e, h))
              λ k _. w.1 din.indirect k (λ q. v.1.apart blkno within (sym q)))
    ]
  ]

  pub Wrote-IsSound : IsSound content din u
  Wrote-IsSound = (
    Unchanged-IsSfs content t u w.0 v.0,
    IsMap-same content t u (block_of (content t.dev) din) (block_of (content u.dev) din) din.blocks
        din.indirect (λ b x. (x.0, rw w.0.0 x.1, rw w.0.2 x.2)) Wrote-block_of v.1,
  )

  pub Wrote-Others : Others content din t din u
  Wrote-Others b o = (
    (rw w.0.2 o.0, o.1, λ i h q. o.2 i h (q ∙ Wrote-block_of i (omega (arith, h, v.1.bounded)))),
    λ k. w.1 b k (o.2 blkno within),
  )

  chosen :
      {b c : Bool} {k k' x y : ℕ}
      → b ≡ c
      → k ≡ k'
      → x ≡ y
      → (if b then src k else x) ≡ (if c then src k' else y)
  chosen e f g = rw (e, f, g) refl

  -- The bytes from `blkno * 4096 + off` on are those of `src`.
  pub Wrote-byte_at :
      (p : ℕ)
      → off + len ≤ 4096
      → p < din.blocks * 4096
      → byte_at (content u.dev) din p ≡ (
          if leb (blkno * 4096 + off) p && ltb p (blkno * 4096 + off + len)
          then src (p - (blkno * 4096 + off))
          else byte_at (content t.dev) din p)
  Wrote-byte_at p fits h =
      let i = p / 4096 in
      let l : i < din.blocks = omega (arith, h) in
      let moved : byte_at (content u.dev) din p
          ≡ content u.dev (block_of (content t.dev) din i) (p % 4096) =
        ap (λ b. content u.dev b (p % 4096)) (Wrote-block_of i (omega (arith, l, v.1.bounded))) in
      elim (ℕ_discrete i blkno) [
        | yes e ↦
            let k = p % 4096 in
            let at : content u.dev (block_of (content t.dev) din i) k ≡ content u.dev ino k =
              ap (λ j. content u.dev (block_of (content t.dev) din j) k) e in
            let old : content t.dev ino k ≡ byte_at (content t.dev) din p =
              ap (λ j. content t.dev (block_of (content t.dev) din j) k) (sym e) in
            let same : (leb off k && ltb k (off + len))
                ≡ (leb (blkno * 4096 + off) p && ltb p (blkno * 4096 + off + len)) =
              ground (arith, e, fits) in
            let index : k - off ≡ p - (blkno * 4096 + off) = omega (arith, e) in
            moved ∙ (at ∙ (w.2 k (omega arith) ∙ chosen same index old))
        | no ne ↦
            let away : (leb (blkno * 4096 + off) p && ltb p (blkno * 4096 + off + len)) ≡ false =
              ground (arith, ne, fits) in
            rw away (
              moved
              ∙ w.1 (block_of (content t.dev) din i) (p % 4096)
                  λ q. ne (v.1.distinct i blkno l within q))
      ]

module _ {W : Type 0} (content : W → ℕ → Bytes) (lo : ℕ) (buf : Bytes) (sin : SfsInode)
    (s : Sfs W) where
  -- The byte at `p` once those from `lo` to `hi` are written: new blocks hold zeros elsewhere.
  abbrev pub expected : (hi p : ℕ) → ℕ
  expected hi p =
      if leb lo p && ltb p hi
      then buf (p - lo)
      else if ltb p (sin.din.blocks * 4096)
      then byte_at (content s.dev) sin.din p
      else 0

  -- The bytes of `buf` are in the file from `lo` to `hi`, and nothing else has changed.
  abbrev pub Stored : (hi : ℕ) → Bytes → SfsInode → Sfs W → Type 0
  Stored hi buf' sin' t =
      IsSound content sin'.din t
      × Others content sin.din s sin'.din t
      × (sin'.din.size ≡ sin.din.size)
      × (sin.din.blocks ≤ sin'.din.blocks)
      × (hi ≤ sin'.din.blocks * 4096)
      × ((k : ℕ) → buf' k ≡ buf k)
      × ((p : ℕ) → p < sin'.din.blocks * 4096 → byte_at (content t.dev) sin'.din p ≡ expected hi p)

module _ {W : Type 0} {ops : DeviceOps W} {content : W → ℕ → Bytes} (d : IsDevice ops content)
    (lo : ℕ) (buf : Bytes) (sin : SfsInode) (s : Sfs W) (hi : ℕ) (le : lo ≤ hi) (buf1 : Bytes)
    (sin1 : SfsInode) (t : Sfs W) (g : Stored content lo buf sin s hi buf1 sin1 t) where
  -- A load of the next block.
  pub Loaded-Stored :
      (index : ℕ) (r : Ret ℕ) (sin2 : SfsInode) (u : Sfs W)
      → Loaded d sin1 t g.0 index (r, sin2, u)
      → Stored content lo buf sin s hi buf1 sin2 u
  Loaded-Stored index r sin2 u l =
      let x = Loaded-Resized d sin1 t g.0 index r sin2 u l in
      let more = Loaded-blocks r l in
      (
        x.0.0,
        Others-trans content sin.din s sin1.din t sin2.din u g.1 x.0.2,
        x.1 ∙ g.2,
        omega (arith, more, g.3),
        omega (arith, more, g.4),
        g.5,
        λ p h. elim (dec_lt p (sin1.din.blocks * 4096)) [
          | yes y ↦
              let kept = x.0.1 (p / 4096) (omega (arith, y)) in
              ap (λ b. content u.dev b (p % 4096)) kept.0 ∙ (kept.1 (p % 4096) ∙ g.6 p y)
          | no n ↦ new r l p h n
        ],
      )
    where
      Loaded-blocks :
          (r : Ret ℕ) → Loaded d sin1 t g.0 index (r, sin2, u) → sin1.din.blocks ≤ sin2.din.blocks
      Loaded-blocks (err e) l = ground (arith, ap (λ x. x.din.blocks) l.0)
      Loaded-blocks (done ino) l = l.1.1

      new :
          (r : Ret ℕ)
          → Loaded d sin1 t g.0 index (r, sin2, u)
          → (p : ℕ) → p < sin2.din.blocks * 4096
          → ¬ (p < sin1.din.blocks * 4096)
          → byte_at (content u.dev) sin2.din p ≡ expected content lo buf sin s hi p
      new (err e) l p h n =
          let same : sin2.din.blocks ≡ sin1.din.blocks = ap (λ x. x.din.blocks) l.0 in
          absurd (ground (arith, same, h, n))
      new (done ino) l p h n =
          let here : (p / 4096 ≡ index) × (index ≡ sin1.din.blocks) = ground (arith, l.3, h, n) in
          let late : (leb lo p && ltb p hi) ≡ false = ground (arith, g.4, n) in
          let beyond : ltb p (sin.din.blocks * 4096) ≡ false = ground (arith, g.3, n) in
          let at : block_of (content u.dev) sin2.din (p / 4096) ≡ ino =
            ap (block_of (content u.dev) sin2.din) here.0 ∙ l.4 in
          rw (late, beyond)
            (ap (λ b. content u.dev b (p % 4096)) at ∙ (l.5 here.1).1 (p % 4096) (omega arith))

  extended :
      (q p size : ℕ)
      → hi ≡ q
      → (old : ℕ)
      → (if leb q p && ltb p (q + size)
          then buf1 (hi - lo + (p - q))
          else if leb lo p && ltb p hi
          then buf (p - lo)
          else old)
        ≡ (if leb lo p && ltb p (hi + size) then buf (p - lo) else old)
  extended q p size at old = elim (dec_lt p hi) [
    | yes y ↦
        let first : (leb q p && ltb p (q + size)) ≡ false = ground (arith, at, y) in
        let same : (leb lo p && ltb p hi) ≡ (leb lo p && ltb p (hi + size)) = ground (arith, y) in
        rw (first, same) refl
    | no n ↦
        let first : (leb q p && ltb p (q + size)) ≡ (leb lo p && ltb p (hi + size)) =
          ground (arith, at, n, le) in
        let second : (leb lo p && ltb p hi) ≡ false = ground (arith, n) in
        let index : hi - lo + (p - q) ≡ p - lo = omega (arith, at, n, le) in
        rw (first, second, index, g.5 (p - lo)) refl
  ]

  -- A write at the end of what is done.
  pub Wrote-Stored :
      (blkno off size : ℕ) (u : Sfs W)
      → blkno < sin1.din.blocks
      → hi ≡ blkno * 4096 + off
      → off + size ≤ 4096
      → Wrote content
          (block_of (content t.dev) sin1.din blkno)
          off
          size
          (λ k. buf1 (hi - lo + k))
          t
          u
      → (buf2 : Bytes) → ((k : ℕ) → buf2 k ≡ buf1 k)
      → Stored content lo buf sin s (hi + size) buf2 sin1 u
  Wrote-Stored blkno off size u within at fits w buf2 same =
      let src : Bytes = λ k. buf1 (hi - lo + k) in
      (
        Wrote-IsSound content sin1.din t g.0 blkno within off size src u w,
        Others-trans content sin.din s sin1.din t sin1.din u g.1
            (Wrote-Others content sin1.din t g.0 blkno within off size src u w),
        g.2,
        g.3,
        omega (arith, within, at, fits),
        λ k. same k ∙ g.5 k,
        λ p h.
            Wrote-byte_at content sin1.din t g.0 blkno within off size src u w p fits h
            ∙ (ap
                  (λ n.
                    if leb (blkno * 4096 + off) p && ltb p (blkno * 4096 + off + size)
                    then buf1 (hi - lo + (p - (blkno * 4096 + off)))
                    else n)
                  (g.6 p h)
                ∙ extended (blkno * 4096 + off) p size at (
                    if ltb p (sin.din.blocks * 4096)
                    then byte_at (content s.dev) sin.din p
                    else 0)),
      )

  -- A write that the device refused.
  pub Unchanged-Stored :
      (u : Sfs W)
      → Unchanged content t u
      → (buf2 : Bytes) → ((k : ℕ) → buf2 k ≡ buf1 k)
      → Stored content lo buf sin s hi buf2 sin1 u
  Unchanged-Stored u w buf2 same =
      let grown = Unchanged-Grows content t u w g.0.0 in
      (
        Grows-IsSound content sin1.din t u g.0 grown,
        Others-trans content sin.din s sin1.din t sin1.din u g.1
            (Grows-Others content sin1.din t u g.0 grown),
        g.2,
        g.3,
        g.4,
        λ k. same k ∙ g.5 k,
        λ p h.
            let kept =
              block_of-kept content sin1.din t u g.0.1 grown (p / 4096)
                (omega (arith, h, g.0.1.bounded)) in
            ap (λ b. content u.dev b (p % 4096)) kept
            ∙ (w.1 (block_of (content t.dev) sin1.din (p / 4096)) (p % 4096) ∙ g.6 p h),
      )
