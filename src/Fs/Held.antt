-- ===== src/Fs/Held.antt =====
-- `file_open` from the reserved entry on.
use lcore.Base.{
  ℕ, ◌≤◌, ◌<◌, ◌≡◌, ◌≢◌, refl, sym, ap, ◌∙◌, true, false, not, arith, ◌==◌, Returns, Returns-bind,
  Bool-cases, inl, inr, get_or-set_ne, length-set, ◌>>=◌,
}
use lcore.Fs.Defs.{Ret, done, err, fd_none, op_fstat, NodeOps, Fs, is_none, blank}
use lcore.Fs.Inode.{vfs_close}
use lcore.Fs.Table.{file_at, set_file, fd2file}
use lcore.Fs.Counts.{IsBalanced, file_at-set_file, file_at-IsEntry, set_file-IsBalanced}
use lcore.Fs.Alloc.{is_free}
use lcore.Fs.Lend.{plus, IsWith, IsSupplied, close-lent}
use lcore.Fs.Open.{world-IsWith, vop_op-opened}
use lcore.Fs.Install.{
  IsReserved, completed, give_up-given_up, given_up-IsBalanced, finish_open-completed,
  completed-IsBalanced,
}
use lcore.Fs.Vfs.{o_accmode, o_append}
use lcore.Fs.File.{open_at, finish_open, give_up}

module _ {W : Type 0} (opens refs : ℕ → ℕ) (s : Fs W) where
  -- What `file_open` answers, and the state that it leaves.
  abbrev pub FileOpened : ℕ → Ret ℕ × Fs W → Type 0
  FileOpened flags (done i, t) =
      IsBalanced opens refs t
      × (fd2file i t ≡ done i)
      × ((file_at i t).readable ≡ not (o_accmode flags == 1))
      × ((file_at i t).writable ≡ not (o_accmode flags == 0))
      × (is_free s.fd_array i ≡ true)
      × ((j : ℕ) → j < i → is_free s.fd_array j ≡ false)
      × ((j : ℕ) → j ≢ i → file_at j t ≡ file_at j s)
  FileOpened flags (err e, t) =
      IsBalanced opens refs t
      × ((j : ℕ) → is_free t.fd_array j ≡ is_free s.fd_array j)
      × ((j : ℕ) → is_free s.fd_array j ≡ false → file_at j t ≡ file_at j s)

  -- The table is that of `s` but for the entry `i`, which is reserved.
  pub record IsHeld (i : ℕ) (t : Fs W) : Type 0 where
    pub reserve : IsReserved i t
    pub free : is_free s.fd_array i ≡ true
    pub first : (j : ℕ) → j < i → is_free s.fd_array j ≡ false
    pub others : (j : ℕ) → j ≢ i → file_at j t ≡ file_at j s

  -- Only the table counts.
  pub IsHeld-table : (i : ℕ) (t u : Fs W) → u.fd_array ≡ t.fd_array → IsHeld i t → IsHeld i u
  IsHeld-table i t u e h = record {
    reserve = record { bound = rw e h.reserve.bound; init = rw e h.reserve.init };
    free = h.free;
    first = h.first;
    others = λ j ne. rw e (h.others j ne);
  }

  module _ (ops : NodeOps W) (i flags : ℕ) where
    pub give_up-FileOpened :
        (e : ℕ) (t : Fs W)
        → IsBalanced opens refs t
        → IsHeld i t
        → Returns (FileOpened flags) (give_up ops i e t)
    give_up-FileOpened e t v h = rw (give_up-given_up t v i h.reserve ops e) (
      given_up-IsBalanced t v i h.reserve,
      (λ j. elim (Bool-cases (j == i)) [
        | inl same ↦ ground (
          arith,
          file_at-set_file t i (record (file_at i t) { status = fd_none }) h.reserve.bound,
          h.free,
        )
        | inr other ↦
            ap (λ f. is_none f.status)
              (get_or-set_ne t.fd_array i j _ (blank 0) (ground arith) ∙ h.others j (ground arith))
      ]),
      λ j used.
          get_or-set_ne t.fd_array i j _ (blank 0) (ground (arith, h.free, used))
          ∙ h.others j (ground (arith, h.free, used)),
    )

    finish_open-FileOpened :
        (order : (m : ℕ) → opens m ≤ refs m) (n pos : ℕ) (t : Fs W)
        → n ≢ 0
        → IsBalanced (plus opens n) (plus refs n) t
        → IsHeld i t
        → Returns (FileOpened flags) (finish_open i n pos flags t)
    unfolding fd2file
    finish_open-FileOpened order n pos t some_node v h =
        let at_i : file_at i (set_file i (completed i n pos flags t) t)
            ≡ completed i n pos flags t =
          file_at-set_file t i (completed i n pos flags t) h.reserve.bound in
        rw (finish_open-completed t v i h.reserve n pos flags some_node) (
          completed-IsBalanced order t i n pos flags v h.reserve some_node,
          ground (arith, at_i, file_at-IsEntry v i h.reserve.bound, v.size, h.reserve.bound),
          ap (λ f. f.readable) at_i,
          ap (λ f. f.writable) at_i,
          h.free,
          h.first,
          λ j ne. get_or-set_ne t.fd_array i j _ (blank 0) (λ e. ne (sym e)) ∙ h.others j ne,
        )

    -- The entry with its position reset.
    abbrev rewound : Fs W → Fs W
    rewound t = set_file i (record (file_at i t) { pos = 0 }) t

    rewound-IsHeld : (t : Fs W) → IsHeld i t → IsHeld i (rewound t)
    rewound-IsHeld t h = record {
      reserve = record {
        bound =
            ground
              (arith, length-set t.fd_array i (record (file_at i t) { pos = 0 }), h.reserve.bound);
        init =
            ap (λ f. f.status)
              (file_at-set_file t i (record (file_at i t) { pos = 0 }) h.reserve.bound)
            ∙ h.reserve.init;
      };
      free = h.free;
      first = h.first;
      others = λ j ne. get_or-set_ne t.fd_array i j _ (blank 0) (λ e. ne (sym e)) ∙ h.others j ne;
    }

    rewound-IsBalanced :
        {o r : ℕ → ℕ} (t : Fs W) → IsBalanced o r t → IsHeld i t → IsBalanced o r (rewound t)
    rewound-IsBalanced t v h =
        let e = file_at-IsEntry v i h.reserve.bound in
        set_file-IsBalanced v i _ h.reserve.bound
          (record {
            index = e.index;
            counted = e.counted;
            uncounted = e.uncounted;
            has_node = e.has_node;
          })
          λ n. refl

    module _ (has : IsSupplied ops refs) (order : (m : ℕ) → opens m ≤ refs m) (n : ℕ)
        (some_node : n ≢ 0) where
      sized-FileOpened :
          (r : Ret ℕ) (t : Fs W)
          → IsBalanced (plus opens n) (plus refs n) t
          → IsHeld i t
          → Returns (FileOpened flags) (elim r [
            | err e ↦ vfs_close ops n t >>= give_up ops i e
            | done size ↦ finish_open i n size flags t
          ])
      sized-FileOpened (done size) t v h = finish_open-FileOpened order n size t some_node v h
      sized-FileOpened (err e) t v h =
          Returns-bind (IsWith t.fd_array opens refs) (FileOpened flags) (vfs_close ops n t) _
            (close-lent ops t.fd_array n some_node order t has
              (record { balanced = v; table = refl }))
            λ u w. give_up-FileOpened e u w.balanced (IsHeld-table i t u w.table h)

      pub open_at-FileOpened :
          (t : Fs W)
          → IsBalanced (plus opens n) (plus refs n) t
          → IsHeld i t
          → Returns (FileOpened flags) (open_at ops i n flags t)
      unfolding open_at
      open_at-FileOpened t v h =
          let s0 = rewound t in
          let v0 = rewound-IsBalanced t v h in
          let h0 = rewound-IsHeld t h in
          let v0' : IsWith s0.fd_array (plus opens n) (plus refs n) s0 = record {
            balanced = v0;
            table = refl;
          } in
          let (r, w) = ops.vop_fstat n s0.world in
          elim (Bool-cases (o_append flags)) [
            | inl end ↦
                rw
                  (
                    end,
                    vop_op-opened ops has s0.fd_array order n some_node op_fstat s0
                        (has.queries n s0.world) v0',
                  )
                  (sized-FileOpened r (record s0 { world = w })
                    (world-IsWith ops has s0.fd_array order s0 w v0').balanced
                    (IsHeld-table i s0 (record s0 { world = w }) refl h0))
            | inr start ↦ rw start (finish_open-FileOpened order n 0 s0 some_node v0 h0)
          ]
