-- ===== src/Proc.antt =====
-- kern/process/proc.c: `get_pid`, where the list of processes is the sequence of their numbers, and
-- the hash table that finds a process by its number.
pub mod Pid
pub mod Links
pub mod Table
mod Tests
use lcore.Base.{
  ℕ, zero, suc, ◌+◌, ◌*◌, Bool, ◌&&◌, Option, none, some, List, [], ◌∷◌, ltb, leb, ◌==◌,
  if◌then◌else◌, remove, update,
}
use lcore.Text.Numbers.{hash32}

-- `MAX_PROCESS` and `MAX_PID`
abbrev pub max_process : ℕ
max_process = 4096

abbrev pub max_pid : ℕ
max_pid = max_process * 2

-- How a walk over the list ends: `goto repeat`, or at the end of the list.
pub data Walk : Type 0 where
  repeat : (last_pid : ℕ) → Walk
  finished : (last_pid next_safe : ℕ) → Walk

-- The inner loop.
unfoldable pub walk_list : List ℕ → (last_pid next_safe : ℕ) → Walk
walk_list [] last_pid next_safe = finished last_pid next_safe
walk_list (pid ∷ pids) last_pid next_safe =
    let next_one = walk_list pids (last_pid + 1) next_safe in
    let nearer = walk_list pids last_pid pid in
    let on = walk_list pids last_pid next_safe in
    let wrapped = repeat (if leb max_pid (last_pid + 1) then 1 else last_pid + 1) in
    if pid == last_pid
    then (if leb next_safe (last_pid + 1) then wrapped else next_one)
    else if ltb last_pid pid && ltb pid next_safe
    then nearer
    else on

-- From `inside` on, with fuel for the rounds of `repeat`; the answer is `last_pid` and `next_safe`.
unfoldable pub search_pid : (fuel : ℕ) → List ℕ → (last_pid : ℕ) → Option (ℕ × ℕ)
search_pid zero pids last_pid = none
search_pid (suc fuel) pids last_pid = elim (walk_list pids last_pid max_pid) [
  | repeat l ↦ search_pid fuel pids l
  | finished l n ↦ some (l, n)
]

unfoldable pub get_pid : (fuel : ℕ) → List ℕ → (last_pid next_safe : ℕ) → Option (ℕ × ℕ)
get_pid fuel pids last_pid next_safe =
    if leb max_pid (last_pid + 1)
    then search_pid fuel pids 1
    else if leb next_safe (last_pid + 1)
    then search_pid fuel pids (last_pid + 1)
    else some (last_pid + 1, next_safe)

-- The table of lists: which processes are in each, and the number of each process.
pub record ProcTable : Type 0 where
  pub hash_list : ℕ → List ℕ
  pub pid_of : ℕ → ℕ

unfoldable pub pid_hashfn : ℕ → ℕ
pid_hashfn pid = hash32 pid 10

unfoldable pub hash_proc : ℕ → ProcTable → ProcTable
hash_proc proc t =
    let h = pid_hashfn (t.pid_of proc) in
    record t { hash_list = update t.hash_list h (proc ∷ t.hash_list h) }

-- The process is in the list of its number.
unfoldable pub unhash_proc : ℕ → ProcTable → ProcTable
unhash_proc proc t =
    let h = pid_hashfn (t.pid_of proc) in
    record t { hash_list = update t.hash_list h (remove proc (t.hash_list h)) }

-- The loop of `find_proc`.
unfoldable pub find_in_list : (ℕ → ℕ) → (pid : ℕ) → List ℕ → Option ℕ
find_in_list pid_of pid [] = none
find_in_list pid_of pid (proc ∷ procs) =
    if pid_of proc == pid then some proc else find_in_list pid_of pid procs

unfoldable pub find_proc : ℕ → ProcTable → Option ℕ
find_proc pid t =
    if ltb 0 pid && ltb pid max_pid
    then find_in_list t.pid_of pid (t.hash_list (pid_hashfn pid))
    else none
