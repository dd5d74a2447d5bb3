-- ===== src/Fs/Install.antt =====
-- The end of `file_open`: the reserved entry is completed, or given up.
use lcore.Base.{ℕ, ◌≤◌, ◌<◌, ◌≡◌, ◌≢◌, refl, ap, ◌∙◌, false, not, ok, arith, ◌==◌, length, set-set}
use lcore.Fs.Defs.{done, err, fd_none, fd_init, fd_opened, File, NodeOps, Fs}
use lcore.Fs.Table.{file_at, set_file, fd_array_free, fd_array_open}
use lcore.Fs.Counts.{
  IsBalanced, holds, users-set_file, file_at-set_file, file_at-IsEntry, set_file-entries,
  set_file-size, set_file-IsBalanced,
}
use lcore.Fs.Lend.{plus}
use lcore.Fs.Vfs.{o_accmode}
use lcore.Fs.File.{finish_open, give_up}

module _ {W : Type 0} where
  -- The entry `i` is reserved.
  pub record IsReserved (i : ℕ) (s : Fs W) : Type 0 where
    pub bound : i < length s.fd_array
    pub init : (file_at i s).status ≡ fd_init

  -- The completed entry.
  abbrev pub completed : (i n pos flags : ℕ) → Fs W → File
  completed i n pos flags s = record (file_at i s) {
    status = fd_opened;
    pos = pos;
    node = n;
    readable = not (o_accmode flags == 1);
    writable = not (o_accmode flags == 0);
    open_count = 1;
  }

  abbrev pub given_up : ℕ → Fs W → Fs W
  given_up i s = set_file i (record (file_at i s) { status = fd_none }) s

  module _ {opens refs : ℕ → ℕ} (s : Fs W) (v : IsBalanced opens refs s) (i : ℕ)
      (h : IsReserved i s) where
    unused : (file_at i s).open_count ≡ 0
    unused = (file_at-IsEntry v i h.bound).uncounted (rw h.init refl)

    pub give_up-given_up : (ops : NodeOps W) (e : ℕ) → give_up ops i e s ≡ ok (err e, given_up i s)
    unfolding give_up fd_array_free
    give_up-given_up ops e = rw (h.init, unused) refl

    pub given_up-IsBalanced : IsBalanced opens refs (given_up i s)
    given_up-IsBalanced =
        set_file-IsBalanced v i _ h.bound (ground (arith, file_at-IsEntry v i h.bound, unused))
          λ n. rw h.init refl

    pub finish_open-completed :
        (n pos flags : ℕ)
        → n ≢ 0
        → finish_open i n pos flags s ≡ ok (done i, set_file i (completed i n pos flags s) s)
    unfolding finish_open fd_array_open
    finish_open-completed n pos flags some_node =
        let f = record (file_at i s) {
          pos = pos;
          node = n;
          readable = not (o_accmode flags == 1);
          writable = not (o_accmode flags == 0);
        } in
        let at_i : file_at i (set_file i f s) ≡ f = file_at-set_file s i f h.bound in
        let named : (n == 0) ≡ false = ground arith in
        let at_i' = file_at-set_file s i (completed i n pos flags s) h.bound in
        let index = (file_at-IsEntry v i h.bound).index in
        rw (at_i, h.init, named, set-set, unused)
          (ap (λ x. ok (done x, set_file i (completed i n pos flags s) s))
            (ap (λ f. f.fd) at_i' ∙ index))

  pub completed-IsBalanced :
      {opens refs : ℕ → ℕ} (order : (m : ℕ) → opens m ≤ refs m) (s : Fs W) (i n pos flags : ℕ)
      → IsBalanced (plus opens n) (plus refs n) s
      → IsReserved i s
      → n ≢ 0
      → IsBalanced opens refs (set_file i (completed i n pos flags s) s)
  completed-IsBalanced order s i n pos flags v h some_node =
      let none_held : (m : ℕ) → holds m (file_at i s) ≡ false = λ m. rw h.init refl in
      let g = completed i n pos flags s in
      record {
        size = set_file-size v i g;
        entries = set_file-entries v i g (ground (arith, file_at-IsEntry v i h.bound, some_node));
        open_count =
            λ m. ground (arith, v.open_count m, users-set_file s i g h.bound m, none_held m);
        ref_count = λ m. ground (arith, v.ref_count m, users-set_file s i g h.bound m, none_held m);
        ordered = order;
        bounded = v.bounded;
      }
