-- ===== src/Fs/Tests.antt =====
-- The theorems on descriptors at a table where descriptor 3 is open on the inode 7 and all others
-- are free. The file system behind the inodes copies everything that is asked for.
use lcore.Base.{
  sym, List, [], ◌∷◌, ◌≢◌, update, ap, ℕ, ◌+◌, ◌≡◌, ◌<◌, refl, ◌∙◌, true, false, not, ◌&&◌, ◌||◌,
  if◌then◌else◌, Bool, arith, ◌==◌, set, length-set, ok, Returns,
}
use lcore.Fs.Defs.{
  Vop, PathOps, err, e_inval, e_noent, Ret, done, no_fd, fd_opened, File, NodeOps, Fs, Iobuf, blank,
}
use lcore.Fs.Inode.{max_inode_count}
use lcore.Fs.Table.{file_at, fd_array_init, fd_array_init_from}
use lcore.Fs.Counts.{
  IsBalanced, AreEntries-set, length-fd_array_init, fd_array_init-AreEntries, users, bit,
}
use lcore.Fs.Vfs.{o_trunc}
use lcore.Fs.Lend.{IsSupplied}
use lcore.Fs.Open.{PathLaws}
use lcore.Fs.FileOpen.{file_open-FileOpened}
use lcore.Fs.Held.{FileOpened}
use lcore.Fs.Close.{Closed, file_close-Closed}
use lcore.Fs.Dup.{Duplicated, file_dup-Duplicated}
use lcore.Fs.Transfer.{transferred, file_read-transferred, file_write-transferred}
use lcore.Fs.File.{file_open, file_close, file_dup, file_read, file_write}

abbrev eager : ℕ → Iobuf → Unit {0} → Ret (Unit {0}) × Iobuf × Unit {0}
eager n b w = (done tt, record b { io_resid = 0 }, tt)

-- The inode 5 is a directory and the inode 4 a device; all others are files.
abbrev has_vop : Vop → ℕ → Bool
has_vop Vop.op_read n = not (n == 5)
has_vop Vop.op_write n = not (n == 5)
has_vop Vop.op_tryseek n = not (n == 5)
has_vop Vop.op_truncate n = not (n == 5) && not (n == 4)
has_vop Vop.op_fsync n = not (n == 4)
has_vop Vop.op_reclaim n = not (n == 4)
has_vop Vop.op_getdirentry n = n == 5
has_vop Vop.op_create n = false
has_vop _ n = true

abbrev plain : NodeOps (Unit {0})
plain = record {
  supplies = λ op n w. has_vop op n;
  vop_open =
      λ n f w. (if has_vop Vop.op_truncate n || not (o_trunc f) then done tt else err e_inval, tt);
  vop_close = λ n w. tt;
  vop_reclaim = λ n w. tt;
  vop_read = eager;
  vop_write = eager;
  vop_fstat = λ n w. (done 100, tt);
  vop_fsync = λ n w. (done tt, tt);
  vop_tryseek = λ n p w. (done tt, tt);
  vop_truncate = λ n l w. (done tt, tt);
  vop_getdirentry = eager;
}

abbrev open_file : File
open_file = record (blank 3) {
  status = fd_opened;
  readable = true;
  writable = true;
  pos = 10;
  node = 7;
  open_count = 1;
}

abbrev one_open : Fs (Unit {0})
one_open = record {
  fd_array = set fd_array_init 3 open_file;
  nodes = λ n. record { ref_count = bit (7 == n) + 1; open_count = bit (7 == n) };
  world = tt;
}

users-one_open : (n : ℕ) → users n one_open.fd_array ≡ bit (7 == n)
unfolding fd_array_init fd_array_init_from
users-one_open n = ground arith

one_open-IsBalanced : IsBalanced (λ n. 0) (λ n. 1) one_open
one_open-IsBalanced = record {
  size = length-set fd_array_init 3 open_file ∙ length-fd_array_init;
  entries = AreEntries-set 3 0 fd_array_init open_file fd_array_init-AreEntries (record {
    index = refl;
    counted = λ h. omega arith;
    uncounted = λ h. cc;
    has_node = λ h. omega arith;
  });
  open_count = λ n. omega (arith, users-one_open n);
  ref_count = λ n. omega (arith, users-one_open n);
  ordered = λ n. omega arith;
  bounded = λ n. ground arith;
}

one_open-room : (one_open.nodes (file_at 3 one_open).node).ref_count + 1 < max_inode_count
unfolding fd_array_init fd_array_init_from
one_open-room = ground arith

plain-IsSupplied : IsSupplied plain (λ n. 1)
plain-IsSupplied = record {
  opens = λ n w. refl;
  closes = λ n w. refl;
  queries = λ n w. refl;
  reclaims = λ n w e. cc;
  truncates = λ n f w cut writes opened. ground arith;
}

file_close-Closed_example :
    Returns
      (Closed plain plain-IsSupplied one_open one_open-IsBalanced 3)
      (file_close plain 3 one_open)
file_close-Closed_example = file_close-Closed plain plain-IsSupplied one_open one_open-IsBalanced 3

file_dup-Duplicated_example :
    Returns
      (Duplicated plain one_open one_open-IsBalanced 3 no_fd one_open-room)
      (file_dup plain 3 no_fd one_open)
file_dup-Duplicated_example =
    file_dup-Duplicated plain one_open one_open-IsBalanced 3 no_fd one_open-room

file_read-transferred_example :
    let r =
      transferred plain one_open one_open-IsBalanced plain.vop_read (λ f. f.readable) 3 0x1000 20 in
    (file_read plain 3 0x1000 20 one_open ≡ ok r) × IsBalanced (λ n. 0) (λ n. 1) r.2
unfolding fd_array_init
file_read-transferred_example = file_read-transferred plain one_open one_open-IsBalanced 3 0x1000 20

file_write-transferred_example :
    let r =
      transferred plain one_open one_open-IsBalanced plain.vop_write
        (λ f. f.writable)
        3
        0x1000
        20 in
    (file_write plain 3 0x1000 20 one_open ≡ ok r) × IsBalanced (λ n. 0) (λ n. 1) r.2
unfolding fd_array_init
file_write-transferred_example =
    file_write-transferred plain one_open one_open-IsBalanced 3 0x1000 20

-- Every path but the empty one leads to the inode 9.
abbrev one_path : PathOps (Unit {0})
one_path = record {
  vfs_lookup = λ path s. elim path [
    | [] ↦ (err e_noent, s)
    | b ∷ bs ↦ (
      done 9,
      record s {
        nodes = update s.nodes 9 (record (s.nodes 9) { ref_count = (s.nodes 9).ref_count + 1 });
      },
    )
  ];
  vfs_lookup_parent = λ path s. (err e_noent, s);
  vop_create = λ dir name excl s. (err e_noent, s);
}

abbrev answer : Ret ℕ → ℕ
answer (done n) = n
answer (err e) = e

one_path-PathLaws : PathLaws one_path
one_path-PathLaws = record { lookup_done = found; lookup_err = missing }
  where
    found :
        (path : List ℕ) (n : ℕ) (s t : Fs (Unit {0}))
        → one_path.vfs_lookup path s ≡ (done n, t)
        → (n ≢ 0)
          × (t.fd_array ≡ s.fd_array)
          × ((m : ℕ) → (t.nodes m).open_count ≡ (s.nodes m).open_count)
          × ((m : ℕ) → (t.nodes m).ref_count ≡ (s.nodes m).ref_count + bit (m == n))
    found [] n s t q = cc
    found (b ∷ bs) n s t q =
        let nine : n ≡ 9 = ap (λ p. answer p.0) (sym q) in
        (
          omega (arith, nine),
          ap (λ p. p.1.fd_array) (sym q),
          (λ m. ap (λ p. (p.1.nodes m).open_count) (sym q) ∙ ground arith),
          λ m. ap (λ p. (p.1.nodes m).ref_count) (sym q) ∙ ground (arith, nine),
        )

    missing :
        (path : List ℕ) (e : ℕ) (s t : Fs (Unit {0}))
        → one_path.vfs_lookup path s ≡ (err e, t)
        → (t.fd_array ≡ s.fd_array) × (t.nodes ≡ s.nodes)
    missing [] e s t q = (ap (λ p. p.1.fd_array) (sym q), ap (λ p. p.1.nodes) (sym q))
    missing (b ∷ bs) e s t q = cc

-- Open for reading and writing at the end of the file, which is emptied.
file_open-FileOpened_example :
    Returns
      (FileOpened (λ n. 0) (λ n. 1) one_open 50)
      (file_open plain one_path 0 (47 ∷ 97 ∷ []) 50 one_open)
file_open-FileOpened_example =
    file_open-FileOpened plain one_path one_path-PathLaws plain-IsSupplied one_open
      one_open-IsBalanced 50 refl (λ m. ground arith) 0 (47 ∷ 97 ∷ [])
