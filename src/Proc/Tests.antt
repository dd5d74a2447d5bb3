-- ===== src/Proc/Tests.antt =====
-- A new number when the last one was 8190 and the processes 0, 1 and 8191 live; and a table in which
-- process 20 has the number 2.
use lcore.Base.{◌≡◌, refl, some, [], ◌∷◌, arith, ◌==◌, if◌then◌else◌}
use lcore.Text.Numbers.{hash32}
use lcore.Proc.{
  max_pid, walk_list, search_pid, get_pid, ProcTable, hash_proc, unhash_proc, find_proc,
  find_in_list, pid_hashfn,
}
use lcore.Proc.Pid.{IsKept, Found, get_pid-Found}
use lcore.Proc.Links.{Family, AreChildren, remove_links}
use lcore.Proc.Links.Remove.{remove_links-AreChildren}
use lcore.Proc.Table.{found_with, find_proc-hashed}

numbers-IsKept : IsKept (0 ∷ 1 ∷ 8191 ∷ []) 8190 8191
numbers-IsKept = record {
  positive = omega arith;
  bounded = omega arith;
  limit = omega arith;
  gap = (refl, (refl, (refl, tt)));
}

get_pid-Found_example : Found (0 ∷ 1 ∷ 8191 ∷ []) (get_pid max_pid (0 ∷ 1 ∷ 8191 ∷ []) 8190 8191)
get_pid-Found_example =
    get_pid-Found 5 (0 ∷ 1 ∷ 8191 ∷ []) 8190 8191 (omega arith, omega arith) refl numbers-IsKept

-- 8191 and 1 are taken, so the search wraps around and goes on.
wraps : get_pid 3 (0 ∷ 1 ∷ 8191 ∷ []) 8190 8191 ≡ some (2, 8191)
unfolding get_pid search_pid walk_list
wraps = refl

abbrev table : ProcTable
table = record {
  hash_list = λ h. if h == 241 then 20 ∷ [] else [];
  pid_of = λ p. if p == 20 then 2 else 3;
}

find_proc-hashed_example :
    (find_proc 3 (hash_proc 30 table) ≡ found_with 30 3 table)
    × (find_proc 3 (unhash_proc 30 (hash_proc 30 table)) ≡ find_proc 3 table)
unfolding find_in_list pid_hashfn hash32
find_proc-hashed_example = find_proc-hashed 30 3 table tt refl

-- The children of process 1 are 4, 3 and 2, and 3 is taken out.
abbrev three_children : Family
three_children = record {
  kin = λ x. record {
    parent = 1;
    cptr = if x == 1 then 4 else 0;
    yptr = if x == 3 then 4 else if x == 2 then 3 else 0;
    optr = if x == 4 then 3 else if x == 3 then 2 else 0;
  };
  proc_list = 4 ∷ 3 ∷ 2 ∷ 1 ∷ [];
  nr_process = 4;
}

three_children-AreChildren : AreChildren 1 (4 ∷ 3 ∷ 2 ∷ []) three_children
three_children-AreChildren = ground arith

remove_links-AreChildren_example : AreChildren 1 (4 ∷ 2 ∷ []) (remove_links 3 three_children)
remove_links-AreChildren_example =
    remove_links-AreChildren 3 1 three_children refl (4 ∷ 3 ∷ 2 ∷ []) refl
      three_children-AreChildren
