-- ===== src/Sched/Core.antt =====
-- kern/schedule/sched.c: `schedule`, `wakeup_proc` and the calls of the policy, over the state
-- that they share. Interrupts are off in each of them, so each is one step. `proc_run` is its
-- effect on `current`; the switch of stacks and page tables is the hardware's.
use lcore.Base.{
  ℕ, ◌+◌, ◌/◌, ◌%◌, ◌^◌, Bool, true, false, Option, none, some, List, [], Outcome, ok, ◌>>=◌, ◌>>◌,
  assert, ◌==◌, if◌then◌else◌, not, update,
}
use lcore.Sched.Defs.{ProcState, runnable, zombie, Proc, Ready, SchedClass}

-- `timer_t`, named by its address.
pub record Timer : Type 0 where
  pub address : ℕ
  pub expires : ℕ
  pub proc : ℕ

pub record Kernel : Type 0 where
  pub ready : Ready
  pub timer_list : List Timer
  pub current : ℕ
  pub idleproc : ℕ

abbrev pub proc_of : Kernel → ℕ → Proc
proc_of k a = k.ready.procs a

-- Writes the `proc_struct` at `a`.
abbrev pub set_proc : ℕ → Proc → Kernel → Kernel
set_proc a p k = record k {
  ready = record { queue = k.ready.queue; procs = update k.ready.procs a p };
}

abbrev pub is_runnable : ProcState → Bool
is_runnable runnable = true
is_runnable _ = false

abbrev pub is_zombie : ProcState → Bool
is_zombie zombie = true
is_zombie _ = false

-- `WT_INTERRUPTED` is bit 31.
abbrev pub interruptible : ℕ → Bool
interruptible w = w / 2 ^ 31 % 2 == 1

-- `next == NULL ? idleproc : next`
abbrev pub or_idle : ℕ → Option ℕ → ℕ
or_idle idle none = idle
or_idle idle (some a) = a

-- `next->runs ++` and `proc_run(next)`; `runs` is an `int`, taken as unbounded.
unfoldable pub launch : ℕ → Kernel → Kernel
launch next k =
    let p = proc_of k next in
    record (set_proc next (record p { runs = p.runs + 1 }) k) { current = next }

-- The policy table `sched_class_tb` of the source picks `C`.
module _ (C : SchedClass) where
  unfoldable pub sched_class_enqueue : ℕ → Kernel → Outcome Kernel
  sched_class_enqueue a k =
      if a == k.idleproc then ok k else do r ← C.enqueue a k.ready; ok (record k { ready = r })

  unfoldable pub sched_class_dequeue : ℕ → Kernel → Outcome Kernel
  sched_class_dequeue a k = do r ← C.dequeue a k.ready; ok (record k { ready = r })

  unfoldable pub sched_class_pick_next : Kernel → Option ℕ × Kernel
  sched_class_pick_next k = let (a, r) = C.pick_next k.ready in (a, record k { ready = r })

  unfoldable pub sched_class_proc_tick : ℕ → Kernel → Kernel
  sched_class_proc_tick a k =
      if a == k.idleproc
      then set_proc a (record (proc_of k a) { need_resched = true }) k
      else record k { ready = C.proc_tick a k.ready }

  unfoldable pub sched_init : Kernel → Kernel
  sched_init k = record k {
    timer_list = [];
    ready = record {
      queue = C.init (record (k.ready.queue) { max_time_slice = 5 });
      procs = k.ready.procs;
    };
  }

  -- A process that is runnable already is left alone, with a warning.
  unfoldable pub wakeup_proc : ℕ → Kernel → Outcome Kernel
  wakeup_proc a k = do
    assert (not (is_zombie (proc_of k a).state))
    if is_runnable (proc_of k a).state
        then ok k
        else (let k' = set_proc a (record (proc_of k a) { state = runnable; wait_state = 0 }) k in
            if a == k.current then ok k' else sched_class_enqueue a k')

  -- Step 2 of `schedule`: a process that can still run goes back to the queue.
  unfoldable pub requeue_current : Kernel → Outcome Kernel
  requeue_current k =
      if is_runnable (proc_of k k.current).state then sched_class_enqueue k.current k else ok k

  unfoldable pub dequeue_next : Option ℕ → Kernel → Outcome Kernel
  dequeue_next none k = ok k
  dequeue_next (some a) k = sched_class_dequeue a k

  -- Steps 3 to 5 of `schedule`.
  unfoldable pub switch_next : Kernel → Outcome Kernel
  switch_next k = do
    let (found, k') = sched_class_pick_next k
    k'' ← dequeue_next found k'
    ok (launch (or_idle k''.idleproc found) k'')

  unfoldable pub schedule : Kernel → Outcome Kernel
  schedule k = do
    k' ←
        requeue_current
          (set_proc k.current (record (proc_of k k.current) { need_resched = false }) k)
    switch_next k'
