-- ===== src/Sync/Tests.antt =====
-- `up` at a semaphore that the processes 5 and 6 wait for, while 2 runs.
use lcore.Base.{ℕ, refl, false, [], ◌∷◌, arith, Returns, ◌==◌, if◌then◌else◌}
use lcore.Sched.Defs.{runnable, sleeping, Proc, null}
use lcore.Sched.RoundRobin.{rr_sched_class, rr_pick_next}
use lcore.Sched.RoundRobin.Laws.{rr_laws}
use lcore.Sched.Core.{Kernel}
use lcore.Sched.Conserve.{IsSound}
use lcore.Sync.Defs.{Semaphore, Wait, wt_ksem, wt_interrupted, up}
use lcore.Sync.Up.{Upped, up-Upped}

abbrev blocked : Proc
blocked = record {
  state = sleeping;
  runs = 0;
  need_resched = false;
  wait_state = wt_ksem;
  rq = false;
  time_slice = 5;
  lab6_stride = 0;
  lab6_priority = 0;
}

abbrev two_wait : Kernel
two_wait = record {
  ready = record {
    queue = record { run_list = []; proc_num = 0; max_time_slice = 5; lab6_run_pool = null };
    procs = λ a. if a == 2 then record blocked { state = runnable; wait_state = 0 } else blocked;
  };
  timer_list = [];
  current = 2;
  idleproc = 1;
}

two_wait-IsSound : IsSound rr_sched_class rr_laws two_wait
unfolding rr_sched_class rr_pick_next
two_wait-IsSound = record {
  inv = record { some_slice = omega arith; distinct = tt; count = refl; waiting = tt };
  current_out = refl;
  idle_out = refl;
  can_run = λ b w. ground arith;
}

abbrev entries : ℕ → Wait
entries w = record { proc = if w == 100 then 5 else 6; wakeup_flags = wt_interrupted }

up-Upped_example :
    let s : Semaphore = record {
      kernel = two_wait;
      waits = entries;
      wait_queue = 100 ∷ 101 ∷ [];
      value = 0;
    } in
    Returns (Upped rr_sched_class rr_laws s (100 ∷ 101 ∷ [])) (up rr_sched_class s)
up-Upped_example =
    up-Upped rr_sched_class rr_laws two_wait entries (100 ∷ 101 ∷ []) 0 two_wait-IsSound
      (refl, refl, (refl, refl, tt))
