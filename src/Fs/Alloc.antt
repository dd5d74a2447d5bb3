-- ===== src/Fs/Alloc.antt =====
-- `fd_array_alloc`: which entry it takes.
use lcore.Base.{
  ℕ, zero, suc, ◌+◌, ◌<◌, ◌≡◌, ◌≢◌, refl, Bool, true, false, List, [], ◌∷◌, arith, ◌==◌,
  if◌then◌else◌, length, get_or, Option, none, some, ok, Returns, Bool-cases, inl, inr, ℕ_discrete,
}
use lcore.Fs.Defs.{
  Ret, done, err, e_inval, e_busy, e_max_open, no_fd, fd_init, File, Fs, is_none, blank,
}
use lcore.Fs.Table.{file_at, set_file, testfd, find_free, take_free, take_entry, fd_array_alloc}
use lcore.Fs.Counts.{IsBalanced, testfd-lt, file_at-IsEntry}

abbrev pub is_free : List File → ℕ → Bool
is_free fs i = is_none (get_or fs i (blank 0)).status

-- The answer is the first free entry.
abbrev IsFirst : List File → ℕ → Type 0
IsFirst fs i = (i < length fs) × (is_free fs i ≡ true) × ((j : ℕ) → j < i → is_free fs j ≡ false)

find_free-some :
    (fs : List File) (k i : ℕ) → find_free fs k ≡ some i → (j : ℕ) × (i ≡ k + j) × IsFirst fs j
unfolding find_free
find_free-some [] k i e = cc
find_free-some (f ∷ fs) k i e = elim (Bool-cases (is_none f.status)) [
  | inl free ↦ (0, ground arith, (omega arith, free, λ j h. absurd (omega arith)))
  | inr used ↦
      let (j, p, q) = find_free-some fs (k + 1) i (ground arith) in
      (suc j, omega arith, (omega (arith, q.0), q.1, below used j q.2))
]
  where
    below :
        is_none f.status ≡ false
        → (j : ℕ) → ((m : ℕ) → m < j → is_free fs m ≡ false)
        → (m : ℕ) → m < suc j
        → is_free (f ∷ fs) m ≡ false
    below used j h zero l = used
    below used j h (suc m) l = h m (omega arith)

find_free-none :
    (fs : List File) (k : ℕ)
    → find_free fs k ≡ none
    → (j : ℕ) → j < length fs
    → is_free fs j ≡ false
unfolding find_free
find_free-none [] k e j h = absurd (omega arith)
find_free-none (f ∷ fs) k e zero h = ground arith
find_free-none (f ∷ fs) k e (suc j) h = find_free-none fs (k + 1) (ground arith) j (omega arith)

module _ {W : Type 0} {opens refs : ℕ → ℕ} (s : Fs W) (v : IsBalanced opens refs s) where
  abbrev pub reserved : ℕ → Fs W
  reserved i = set_file i (record (file_at i s) { status = fd_init; node = 0 }) s

  -- What `fd_array_alloc(fd)` answers, and the state it leaves.
  abbrev pub Allocated : ℕ → Ret ℕ × Fs W → Type 0
  Allocated fd (done i, t) =
      (i < length s.fd_array)
      × (is_free s.fd_array i ≡ true)
      × (t ≡ reserved i)
      × (fd ≡ no_fd → (j : ℕ) → j < i → is_free s.fd_array j ≡ false)
      × (fd ≢ no_fd → i ≡ fd)
  Allocated fd (err e, t) =
      (t ≡ s)
      × (fd ≡ no_fd
          → (e ≡ e_max_open) × ((j : ℕ) → j < length s.fd_array → is_free s.fd_array j ≡ false))
      × (fd ≢ no_fd → e ≡ (if testfd fd then e_busy else e_inval))
      × (fd ≢ no_fd → testfd fd ≡ true → is_free s.fd_array fd ≡ false)

  take_entry-reserved :
      (i : ℕ)
      → i < length s.fd_array
      → is_free s.fd_array i ≡ true
      → take_entry i s ≡ ok (done i, reserved i)
  unfolding take_entry
  take_entry-reserved i h f = ground (arith, file_at-IsEntry v i h)

  any_free : (o : Option ℕ) → find_free s.fd_array 0 ≡ o → Returns (Allocated no_fd) (take_free o s)
  any_free none e = (
    refl,
    (λ p. (refl, find_free-none s.fd_array 0 e)),
    (λ n. absurd (n refl)),
    λ n. absurd (n refl),
  )
  any_free (some i) e =
      let (j, p, (h, f, l)) = find_free-some s.fd_array 0 i e in
      let q : i ≡ j = omega arith in
      rw (q, take_entry-reserved j h f) (h, f, refl, (λ _. l), λ n. absurd (n refl))

  -- fd_array_alloc on a balanced descriptor table returns: the entry that it reserves was free, is
  -- the lowest free one if no descriptor is asked for and else the one asked for, and nothing else
  -- changes; it fails only with E_MAX_OPEN if no entry is free, with E_BUSY if the one asked for
  -- is not, and with E_INVAL if it is out of range.
  pub fd_array_alloc-Allocated : (fd : ℕ) → Returns (Allocated fd) (fd_array_alloc fd s)
  unfolding fd_array_alloc
  fd_array_alloc-Allocated fd = elim (ℕ_discrete fd no_fd) [
    | yes e ↦ rw e (any_free (find_free s.fd_array 0) refl)
    | no n ↦
        let other : (fd == no_fd) ≡ false = ground arith in
        elim (Bool-cases (testfd fd)) [
          | inr out ↦
              rw (other, out) (refl, (λ p. absurd (n p)), (λ _. ground (arith, out)), λ _ t. cc)
          | inl within ↦ elim (Bool-cases (is_free s.fd_array fd)) [
            | inr used ↦
                rw (other, within, used)
                  (refl, (λ p. absurd (n p)), (λ _. ground (arith, within)), λ _ _. used)
            | inl free ↦
                rw (other, within, free, take_entry-reserved fd (testfd-lt v fd within) free)
                  (testfd-lt v fd within, free, refl, (λ p. absurd (n p)), λ _. refl)
          ]
        ]
  ]
