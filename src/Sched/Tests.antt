-- ===== src/Sched/Tests.antt =====
-- Runs of the scheduler, and the theorems at concrete states: process 1 is idle, 2 runs, 3 and 4
-- wait, 5 and 6 sleep until their timers.
use lcore.Base.{ℕ, ◌≡◌, refl, true, false, some, [], ◌∷◌, arith, Returns, ltb, if◌then◌else◌}
use lcore.Sched.Defs.{runnable, sleeping, Proc, Procs, null}
use lcore.Sched.RoundRobin.{
  rr_sched_class, rr_enqueue, rr_dequeue, rr_pick_next, rr_proc_tick, enqueued, ticked,
}
use lcore.Sched.RoundRobin.Laws.{IsValid, rr_laws}
use lcore.Sched.RoundRobin.Rotate.{Sound, Rotated, schedules, schedule-Rotated, schedules_reach}
use lcore.Sched.Core.{
  Timer, Kernel, schedule, requeue_current, switch_next, launch, dequeue_next, sched_class_enqueue,
  sched_class_dequeue, sched_class_pick_next, sched_class_proc_tick, wakeup_proc,
}
use lcore.Sched.Conserve.{Rescheduled, schedule-Rescheduled}
use lcore.Sched.Wakeup.{Woken, wakeup_proc-Woken}
use lcore.Sched.Timers.{delete, add_timer, del_timer, fire, fire_all, advance, run_timer_list}
use lcore.Sched.Timers.Deadlines.{deadlines}
use lcore.Sched.Timers.Spec.{IsTimed}
use lcore.Sched.Timers.Edit.{add_timer-insert_at, del_timer-remove_at}
use lcore.Sched.Timers.Tick.{Ticked, run_timer_list-Ticked}

abbrev waiting : Proc
waiting = record {
  state = runnable;
  runs = 0;
  need_resched = false;
  wait_state = 0;
  rq = true;
  time_slice = 5;
  lab6_stride = 0;
  lab6_priority = 0;
}

abbrev dozing : Proc
dozing = record waiting { state = sleeping; wait_state = 0x80000002; rq = false }

abbrev procs : Procs
procs a = if ltb 4 a then dozing else waiting

abbrev timer : ℕ → ℕ → ℕ → Timer
timer a e p = record { address = a; expires = e; proc = p }

abbrev busy : Kernel
busy = record {
  ready = record {
    queue = record {
      run_list = 3 ∷ 4 ∷ [];
      proc_num = 2;
      max_time_slice = 5;
      lab6_run_pool = null;
    };
    procs = procs;
  };
  timer_list = timer 100 1 5 ∷ timer 101 3 6 ∷ [];
  current = 2;
  idleproc = 1;
}

busy-IsValid : IsValid busy.ready
busy-IsValid = record {
  some_slice = omega arith;
  distinct = (refl, (refl, tt));
  count = refl;
  waiting = ((refl, omega arith, omega arith), ((refl, omega arith, omega arith), tt));
}

busy-Sound : Sound busy
unfolding rr_sched_class rr_pick_next
busy-Sound = record {
  inv = busy-IsValid;
  current_out = refl;
  idle_out = refl;
  can_run = λ b w. ground arith;
}

busy-IsTimed : IsTimed busy.timer_list
busy-IsTimed = omega arith

-- Two rounds: 4 runs, 2 and 3 wait.
two_rounds :
    Returns (λ l. (l.current ≡ 4) × (l.ready.queue.run_list ≡ 2 ∷ 3 ∷ [])) (schedules 2 busy)
unfolding schedules schedule requeue_current switch_next launch dequeue_next sched_class_enqueue
    sched_class_dequeue sched_class_pick_next rr_sched_class rr_enqueue rr_dequeue rr_pick_next
    enqueued
two_rounds = (refl, refl)

schedule-Rescheduled_example :
    Returns (Rescheduled rr_sched_class rr_laws busy) (schedule rr_sched_class busy)
schedule-Rescheduled_example = schedule-Rescheduled rr_sched_class rr_laws busy busy-Sound

schedule-Rotated_example : Returns (Rotated busy) (schedule rr_sched_class busy)
schedule-Rotated_example = schedule-Rotated busy busy-Sound

schedules_reach_example : Returns (λ l. some 4 ≡ some l.current) (schedules 2 busy)
schedules_reach_example = schedules_reach 1 busy busy-Sound (omega arith)

wakeup_proc-Woken_example :
    Returns (λ l. Woken rr_sched_class rr_laws busy l 5) (wakeup_proc rr_sched_class 5 busy)
wakeup_proc-Woken_example = wakeup_proc-Woken rr_sched_class rr_laws busy 5 busy-Sound refl

-- A timer for the same tick as the last one goes behind it.
add_timer-insert_at_example :
    Returns
      (λ l. (deadlines 0 l.timer_list ≡ (100, 1) ∷ (101, 4) ∷ (102, 4) ∷ []) × IsTimed l.timer_list)
      (add_timer (timer 102 4 7) busy)
add_timer-insert_at_example =
    add_timer-insert_at (timer 102 4 7) busy (omega arith) (omega arith) (omega arith) refl
      busy-IsTimed

del_timer-remove_at_example :
    let l = del_timer 100 busy in (deadlines 0 l.timer_list ≡ (101, 4) ∷ []) × IsTimed l.timer_list
del_timer-remove_at_example = del_timer-remove_at 100 busy busy-IsTimed

run_timer_list-Ticked_example :
    Returns (Ticked rr_sched_class rr_laws busy) (run_timer_list rr_sched_class busy)
run_timer_list-Ticked_example =
    run_timer_list-Ticked rr_sched_class rr_laws busy busy-Sound busy-IsTimed ((refl, refl), tt)

-- Process 5 wakes and is queued last; its timer is gone, and 6 has three ticks left.
one_tick :
    Returns
      (λ l. (l.ready.queue.run_list ≡ 3 ∷ 4 ∷ 5 ∷ []) × (deadlines 0 l.timer_list ≡ (101, 3) ∷ []))
      (run_timer_list rr_sched_class busy)
unfolding run_timer_list advance fire_all fire del_timer delete wakeup_proc sched_class_enqueue
    sched_class_proc_tick rr_sched_class rr_enqueue rr_proc_tick enqueued ticked
one_tick = (refl, refl)
