-- ===== src/Fs/Counts.antt =====
-- What keeps the descriptor table and the inodes' counters in step.
use lcore.Base.{
  ℕ, zero, suc, ◌+◌, ◌<◌, ◌≤◌, ◌≡◌, ◌≢◌, refl, ap, subst, ◌∙◌, set-set, length-set, Bool, true,
  false, ◌&&◌, ◌||◌, List, [], ◌∷◌, arith, ◌==◌, length, get_or, set, get_or-set_self,
}
use lcore.Fs.Defs.{FileStatus, File, Fs, is_opened, is_closed, blank, files_struct_nentry}
use lcore.Fs.Inode.{max_inode_count}
use lcore.Fs.Table.{file_at, set_file, testfd, fd_array_init, fd_array_init_from}

abbrev pub in_use : FileStatus → Bool
in_use st = is_opened st || is_closed st

-- Whether the entry counts as an opening of the inode `n`.
abbrev pub holds : ℕ → File → Bool
holds n f = in_use f.status && (f.node == n)

abbrev pub bit : Bool → ℕ
bit true = 1
bit false = 0

-- How many entries hold the inode.
abbrev pub users : ℕ → List File → ℕ
users n [] = 0
users n (f ∷ fs) = bit (holds n f) + users n fs

-- An entry knows its index, is counted if and only if it is in use, and then has an inode.
pub record IsEntry (i : ℕ) (f : File) : Type 0 where
  pub index : f.fd ≡ i
  pub counted : in_use f.status ≡ true → 0 < f.open_count
  pub uncounted : in_use f.status ≡ false → f.open_count ≡ 0
  pub has_node : in_use f.status ≡ true → f.node ≢ 0

abbrev pub AreEntries : ℕ → List File → Type 0
AreEntries i [] = Unit {0}
AreEntries i (f ∷ fs) = IsEntry i f × AreEntries (i + 1) fs

-- Beside the entries of this table, `opens n` openings of the inode `n` and `refs n` references to
-- it are elsewhere: in other processes, in working directories and in mounted file systems.
pub record IsBalanced {W : Type 0} (opens refs : ℕ → ℕ) (s : Fs W) : Type 0 where
  pub size : length s.fd_array ≡ files_struct_nentry
  pub entries : AreEntries 0 s.fd_array
  pub open_count : (n : ℕ) → (s.nodes n).open_count ≡ users n s.fd_array + opens n
  pub ref_count : (n : ℕ) → (s.nodes n).ref_count ≡ users n s.fd_array + refs n
  pub ordered : (n : ℕ) → opens n ≤ refs n
  pub bounded : (n : ℕ) → (s.nodes n).ref_count < max_inode_count

pub users-set :
    (n i : ℕ) (fs : List File) (d g : File)
    → i < length fs
    → users n (set fs i g) + bit (holds n (get_or fs i d)) ≡ users n fs + bit (holds n g)
users-set n i [] d g h = absurd (omega arith)
users-set n zero (f ∷ fs) d g h = omega arith
users-set n (suc i) (f ∷ fs) d g h = omega (arith, users-set n i fs d g (omega arith))

AreEntries-get_or :
    (i k : ℕ) (fs : List File) (d : File)
    → AreEntries k fs
    → i < length fs
    → IsEntry (k + i) (get_or fs i d)
AreEntries-get_or i k [] d a h = absurd (omega arith)
AreEntries-get_or zero k (f ∷ fs) d a h = subst (λ j. IsEntry j f) (omega arith) a.0
AreEntries-get_or (suc i) k (f ∷ fs) d a h =
    subst (λ j. IsEntry j (get_or fs i d)) (omega arith)
      (AreEntries-get_or i (k + 1) fs d a.1 (omega arith))

pub AreEntries-set :
    (i k : ℕ) (fs : List File) (g : File)
    → AreEntries k fs
    → IsEntry (k + i) g
    → AreEntries k (set fs i g)
AreEntries-set i k [] g a e = tt
AreEntries-set zero k (f ∷ fs) g a e = (subst (λ j. IsEntry j g) (omega arith) e, a.1)
AreEntries-set (suc i) k (f ∷ fs) g a e =
    (a.0, AreEntries-set i (k + 1) fs g a.1 (subst (λ j. IsEntry j g) (omega arith) e))

module _ {W : Type 0} where
  -- Writing an entry.
  module _ (s : Fs W) (i : ℕ) (g : File) (h : i < length s.fd_array) where
    pub users-set_file :
        (n : ℕ)
        → users n (set_file i g s).fd_array + bit (holds n (file_at i s))
          ≡ users n s.fd_array + bit (holds n g)
    users-set_file n = users-set n i s.fd_array (blank 0) g h

    pub file_at-set_file : file_at i (set_file i g s) ≡ g
    file_at-set_file = get_or-set_self s.fd_array i g (blank 0) h

  pub set_file-set_file :
      (s : Fs W) (i : ℕ) (f g : File) → set_file i g (set_file i f s) ≡ set_file i g s
  set_file-set_file s i f g = ap (λ l. record s { fd_array = l }) (set-set s.fd_array i f g)

  module _ {opens refs : ℕ → ℕ} {s : Fs W} (v : IsBalanced opens refs s) where
    pub testfd-lt : (i : ℕ) → testfd i ≡ true → i < length s.fd_array
    testfd-lt i t = ground (arith, v.size)

    pub file_at-IsEntry : (i : ℕ) → i < length s.fd_array → IsEntry i (file_at i s)
    file_at-IsEntry i h =
        subst (λ j. IsEntry j (file_at i s)) (omega arith)
          (AreEntries-get_or i 0 s.fd_array (blank 0) v.entries h)

    pub set_file-entries : (i : ℕ) (g : File) → IsEntry i g → AreEntries 0 (set_file i g s).fd_array
    set_file-entries i g e =
        AreEntries-set i 0 s.fd_array g v.entries (subst (λ j. IsEntry j g) (omega arith) e)

    pub set_file-size : (i : ℕ) (g : File) → length (set_file i g s).fd_array ≡ files_struct_nentry
    set_file-size i g = length-set s.fd_array i g ∙ v.size

    -- A write that leaves the entry's hold on inodes as it is.
    pub set_file-IsBalanced :
        (i : ℕ) (g : File)
        → i < length s.fd_array
        → IsEntry i g
        → ((n : ℕ) → holds n g ≡ holds n (file_at i s))
        → IsBalanced opens refs (set_file i g s)
    set_file-IsBalanced i g h e same = record {
      size = set_file-size i g;
      entries = set_file-entries i g e;
      open_count = λ n. omega (arith, v.open_count n, users-set_file s i g h n, ap bit (same n));
      ref_count = λ n. omega (arith, v.ref_count n, users-set_file s i g h n, ap bit (same n));
      ordered = v.ordered;
      bounded = v.bounded;
    }

-- A fresh table (`fd_array_init`) has the right entries, all free.
fd_array_init_from-AreEntries : (n i : ℕ) → AreEntries i (fd_array_init_from n i)
unfolding fd_array_init_from
fd_array_init_from-AreEntries zero i = tt
fd_array_init_from-AreEntries (suc n) i = (
  record { index = refl; counted = λ h. cc; uncounted = λ h. refl; has_node = λ h. cc },
  fd_array_init_from-AreEntries n (i + 1),
)

users-fd_array_init_from : (m n i : ℕ) → users m (fd_array_init_from n i) ≡ 0
unfolding fd_array_init_from
users-fd_array_init_from m zero i = refl
users-fd_array_init_from m (suc n) i = omega (arith, users-fd_array_init_from m n (i + 1))

length-fd_array_init_from : (n i : ℕ) → length (fd_array_init_from n i) ≡ n
unfolding fd_array_init_from
length-fd_array_init_from zero i = refl
length-fd_array_init_from (suc n) i = omega (arith, length-fd_array_init_from n (i + 1))

pub length-fd_array_init : length fd_array_init ≡ files_struct_nentry
unfolding fd_array_init
length-fd_array_init = length-fd_array_init_from files_struct_nentry 0

pub fd_array_init-AreEntries : AreEntries 0 fd_array_init
unfolding fd_array_init
fd_array_init-AreEntries = fd_array_init_from-AreEntries files_struct_nentry 0

pub users-fd_array_init : (m : ℕ) → users m fd_array_init ≡ 0
unfolding fd_array_init
users-fd_array_init m = users-fd_array_init_from m files_struct_nentry 0
