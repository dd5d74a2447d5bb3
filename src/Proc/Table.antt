-- ===== src/Proc/Table.antt =====
-- The hash table of processes behaves as one map from numbers to processes.
use lcore.Base.{
  ℕ, ◌≡◌, ◌≢◌, refl, ◌∙◌, true, ◌&&◌, Option, none, some, List, [], ◌∷◌, arith, ltb, ◌==◌,
  if◌then◌else◌, remove, mem, Bool-cases, inl, inr,
}
use lcore.Proc.{max_pid, ProcTable, pid_hashfn, hash_proc, unhash_proc, find_in_list, find_proc}

-- A number is given to at most one process of a list.
abbrev pub AreUnique : (ℕ → ℕ) → List ℕ → Type 0
AreUnique pid_of [] = Unit {0}
AreUnique pid_of (p ∷ ps) = (find_in_list pid_of (pid_of p) ps ≡ none) × AreUnique pid_of ps

module _ (pid_of : ℕ → ℕ) where
  find_in_list-remove_ne :
      (proc pid : ℕ) (l : List ℕ)
      → pid_of proc ≢ pid
      → find_in_list pid_of pid (remove proc l) ≡ find_in_list pid_of pid l
  unfolding find_in_list
  find_in_list-remove_ne proc pid [] ne = refl
  find_in_list-remove_ne proc pid (p ∷ ps) ne =
      ground (arith, find_in_list-remove_ne proc pid ps ne)

  find_in_list-remove_self :
      (proc : ℕ) (l : List ℕ)
      → AreUnique pid_of l
      → mem proc l ≡ true
      → find_in_list pid_of (pid_of proc) (remove proc l) ≡ none
  unfolding find_in_list
  find_in_list-remove_self proc [] u m = refl
  find_in_list-remove_self proc (p ∷ ps) u m = elim (Bool-cases (proc == p)) [
    | inl same ↦ ground (arith, u.0)
    | inr other ↦ ground (arith, u.0, find_in_list-remove_self proc ps u.1, found_there proc ps)
  ]
    where
      found_there :
          (q : ℕ) (l : List ℕ) → mem q l ≡ true → find_in_list pid_of (pid_of q) l ≡ none → ⊥
      found_there q [] m e = ground arith
      found_there q (r ∷ rs) m e = ground (arith, found_there q rs)

-- What `find_proc` answers after `proc` has come or gone.
abbrev pub found_with : (proc pid : ℕ) → ProcTable → Option ℕ
found_with proc pid t =
    if (pid == t.pid_of proc) && (ltb 0 pid && ltb pid max_pid) then some proc else find_proc pid t

abbrev pub found_without : (proc pid : ℕ) → ProcTable → Option ℕ
found_without proc pid t = if pid == t.pid_of proc then none else find_proc pid t

find_proc-hash_proc :
    (proc pid : ℕ) (t : ProcTable) → find_proc pid (hash_proc proc t) ≡ found_with proc pid t
unfolding find_proc hash_proc find_in_list
find_proc-hash_proc proc pid t = ground arith

find_proc-unhash_proc :
    (proc pid : ℕ) (t : ProcTable)
    → AreUnique t.pid_of (t.hash_list (pid_hashfn (t.pid_of proc)))
    → mem proc (t.hash_list (pid_hashfn (t.pid_of proc))) ≡ true
    → find_proc pid (unhash_proc proc t) ≡ found_without proc pid t
unfolding find_proc unhash_proc
find_proc-unhash_proc proc pid t u m =
    let l = t.hash_list (pid_hashfn (t.pid_of proc)) in
    ground (
      arith,
      find_in_list-remove_ne t.pid_of proc pid l,
      find_in_list-remove_self t.pid_of proc l u m,
    )

restored :
    (proc pid : ℕ) (t : ProcTable)
    → find_in_list t.pid_of (t.pid_of proc) (t.hash_list (pid_hashfn (t.pid_of proc))) ≡ none
    → found_without proc pid (hash_proc proc t) ≡ find_proc pid t
unfolding find_proc hash_proc find_in_list
restored proc pid t new = ground (arith, new)

-- When the numbers in the list of a process are unique and its own is not among them: after
-- hash_proc find_proc answers that process for its number, if the number is in range, and as
-- before for every other; after unhash_proc as well it answers as at the start for every number.
pub find_proc-hashed :
    (proc pid : ℕ) (t : ProcTable)
    → AreUnique t.pid_of (t.hash_list (pid_hashfn (t.pid_of proc)))
    → find_in_list t.pid_of (t.pid_of proc) (t.hash_list (pid_hashfn (t.pid_of proc))) ≡ none
    → (find_proc pid (hash_proc proc t) ≡ found_with proc pid t)
      × (find_proc pid (unhash_proc proc (hash_proc proc t)) ≡ find_proc pid t)
unfolding hash_proc
find_proc-hashed proc pid t u new = (
  find_proc-hash_proc proc pid t,
  find_proc-unhash_proc proc pid (hash_proc proc t) (ground (arith, u, new)) (ground arith)
      ∙ restored proc pid t new,
)
