-- ===== src/Sched/Defs.antt =====
-- kern/process/proc.h and kern/schedule/sched.h: a process, the run queue, and the operations
-- that a scheduling policy supplies. A process is named by the address of its `proc_struct`; the
-- fields kept are those that the scheduler and the timers read or write.
use lcore.Base.{ℕ, ◌+◌, ◌-◌, ◌%◌, ◌^◌, Bool, Option, List, Outcome}

-- `enum proc_state`
pub data ProcState : Type 0 where
  uninit sleeping runnable zombie : ProcState

-- `time_slice` is an `int` that is only set to 0 or `max_time_slice` and is decremented only while
-- positive, so it is a number here. `rq` says whether `proc->rq` points at the run queue.
pub record Proc : Type 0 where
  pub state : ProcState
  pub runs : ℕ
  pub need_resched : Bool
  pub wait_state : ℕ
  pub rq : Bool
  pub time_slice : ℕ
  pub lab6_stride : ℕ
  pub lab6_priority : ℕ

abbrev pub Procs : Type 0
Procs = ℕ → Proc

-- The run pool of the stride policy: a heap of processes (`skew_heap_entry_t` without `parent`).
pub data Pool : Type 0 where
  null : Pool
  node : ℕ → (left right : Pool) → Pool

-- `struct run_queue`. `run_list` holds the processes linked by `run_link`, first to last, so that
-- `list_empty(&proc->run_link)` says that `proc` is not in it.
pub record RunQueue : Type 0 where
  pub run_list : List ℕ
  pub proc_num : ℕ
  pub max_time_slice : ℕ
  pub lab6_run_pool : Pool

-- `unsigned int` increment and decrement of `proc_num`
abbrev pub inc32 : ℕ → ℕ
inc32 n = (n + 1) % 2 ^ 32

abbrev pub dec32 : ℕ → ℕ
dec32 n = (n + 2 ^ 32 - 1) % 2 ^ 32

-- What a policy reads and writes.
pub record Ready : Type 0 where
  pub queue : RunQueue
  pub procs : Procs

-- `struct sched_class`: the policy's functions, with the run queue passed in and returned.
pub record SchedClass : Type 0 where
  pub init : RunQueue → RunQueue
  pub enqueue : ℕ → Ready → Outcome Ready
  pub dequeue : ℕ → Ready → Outcome Ready
  pub pick_next : Ready → Option ℕ × Ready
  pub proc_tick : ℕ → Ready → Ready
