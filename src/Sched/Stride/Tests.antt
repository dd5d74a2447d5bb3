-- ===== src/Sched/Stride/Tests.antt =====
-- Runs of the stride policy at a pool whose strides wrap around: process 2 is about to wrap, 3 has
-- wrapped, and 4 is the one to enqueue.
use lcore.Base.{ℕ, ◌≡◌, refl, true, false, [], arith, Returns, ◌==◌, if◌then◌else◌}
use lcore.Sched.Defs.{runnable, Proc, Ready, null, node}
use lcore.Sched.Stride.{
  skew_heap_merge, skew_heap_remove, stride_enqueue, stride_dequeue, stride_pick_next,
  stride_proc_tick, passed, stride_sched_class,
}
use lcore.Sched.Stride.Heap.{copies, size}
use lcore.Sched.Stride.Laws.{Counted, stride_laws}
use lcore.Sched.Stride.Fair.{IsFair, Taken, stride_enqueue-IsFair, stride_pick_next-Taken}
use lcore.Sched.Core.{Kernel, schedule}
use lcore.Sched.Conserve.{IsSound, Rescheduled, schedule-Rescheduled}

abbrev strided : ℕ → Proc
strided s = record {
  state = runnable;
  runs = 0;
  need_resched = false;
  wait_state = 0;
  rq = true;
  time_slice = 5;
  lab6_stride = s;
  lab6_priority = 3;
}

abbrev wrapping : Ready
wrapping = record {
  queue = record {
    run_list = [];
    proc_num = 2;
    max_time_slice = 5;
    lab6_run_pool = node 2 (node 3 null null) null;
  };
  procs = λ a. if a == 2 then strided 4294967286 else strided 7;
}

wrapping-Counted : Counted wrapping
unfolding copies size
wrapping-Counted = record { once = λ b. ground arith; count = refl }

wrapping-IsFair : IsFair 4294967280 wrapping
wrapping-IsFair = record {
  start = omega arith;
  strides = λ b. ground arith;
  heap = (omega arith, omega arith, (omega arith, omega arith, tt, tt), tt);
}

stride_enqueue-IsFair_example : Returns (IsFair 4294967280) (stride_enqueue 4 wrapping)
stride_enqueue-IsFair_example =
    stride_enqueue-IsFair 4294967280 4 wrapping wrapping-IsFair (omega arith)

stride_pick_next-Taken_example :
    Returns (Taken 4294967280 2 wrapping) (stride_dequeue 2 (stride_pick_next wrapping).1)
unfolding stride_pick_next
stride_pick_next-Taken_example =
    stride_pick_next-Taken 4294967280 2 wrapping wrapping-IsFair wrapping-Counted refl

-- 2 is picked although its stride is the larger number; then 3 is at the root.
picked :
    Returns
      (λ s. (s.queue.lab6_run_pool ≡ node 3 null null) × ((s.procs 2).lab6_stride ≡ 715827872))
      (stride_dequeue 2 (stride_pick_next wrapping).1)
unfolding stride_dequeue stride_pick_next skew_heap_remove skew_heap_merge passed
picked = (refl, refl)

abbrev cpu : Kernel
cpu = record { ready = wrapping; timer_list = []; current = 5; idleproc = 1 }

cpu-IsSound : IsSound stride_sched_class stride_laws cpu
unfolding stride_sched_class stride_pick_next stride_proc_tick
cpu-IsSound = record {
  inv = wrapping-Counted;
  current_out = refl;
  idle_out = refl;
  can_run = λ b w. ground arith;
}

-- The scheduler's own theorem serves this policy too.
schedules_stride :
    Returns (Rescheduled stride_sched_class stride_laws cpu) (schedule stride_sched_class cpu)
schedules_stride = schedule-Rescheduled stride_sched_class stride_laws cpu cpu-IsSound
