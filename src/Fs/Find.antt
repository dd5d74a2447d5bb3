-- ===== src/Fs/Find.antt =====
-- `fd2file`: which descriptors are found.
use lcore.Base.{ℕ, ◌<◌, ◌≡◌, refl, true, false, arith, length, inl, inr, ◌⊎◌}
use lcore.Fs.Defs.{Ret, done, err, e_inval, File, Fs, is_opened}
use lcore.Fs.Table.{file_at, set_file, testfd, fd2file}
use lcore.Fs.Counts.{file_at-set_file}

pub Ret-cases : (r : Ret ℕ) → ((i : ℕ) × (r ≡ done i)) ⊎ ((e : ℕ) × (r ≡ err e))
Ret-cases (done i) = inl (i, refl)
Ret-cases (err e) = inr (e, refl)

module _ {W : Type 0} where
  -- A descriptor whose entry is not open is not found.
  pub fd2file-closed :
      (s : Fs W) (i : ℕ) (f : File)
      → i < length s.fd_array
      → is_opened f.status ≡ false
      → fd2file i (set_file i f s) ≡ err e_inval
  unfolding fd2file
  fd2file-closed s i f h o = ground (arith, file_at-set_file s i f h)

  pub fd2file-done :
      (s : Fs W) (fd i : ℕ)
      → fd2file fd s ≡ done i
      → (i ≡ fd) × (testfd fd ≡ true) × (is_opened (file_at fd s).status ≡ true)
  unfolding fd2file
  fd2file-done s fd i e = ground arith

  pub fd2file-err : (s : Fs W) (fd e : ℕ) → fd2file fd s ≡ err e → e ≡ e_inval
  unfolding fd2file
  fd2file-err s fd e h = ground arith
