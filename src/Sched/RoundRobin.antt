-- ===== src/Sched/RoundRobin.antt =====
-- kern/schedule/rr_sched.c: the round-robin policy.
pub mod Laws
pub mod Rotate
use lcore.Base.{
  ℕ, ◌-◌, true, not, ◌&&◌, ◌||◌, Option, none, some, List, [], ◌∷◌, ◌++◌, Outcome, ok, ◌>>=◌, ◌>>◌,
  assert, ltb, ◌==◌, if◌then◌else◌, mem, remove, update,
}
use lcore.Sched.Defs.{Proc, RunQueue, Ready, SchedClass, inc32, dec32}

unfoldable pub rr_init : RunQueue → RunQueue
rr_init rq = record rq { run_list = []; proc_num = 0 }

-- What `RR_enqueue` makes of the process: a full slice when the old one is used up or too large.
unfoldable pub enqueued : ℕ → Proc → Proc
enqueued most p = record p {
  time_slice = if (p.time_slice == 0) || ltb most p.time_slice then most else p.time_slice;
  rq = true;
}

unfoldable pub rr_enqueue : ℕ → Ready → Outcome Ready
rr_enqueue a r = do
  assert (not (mem a r.queue.run_list))
  ok (record {
    queue = record (r.queue) {
      run_list = r.queue.run_list ++ a ∷ [];
      proc_num = inc32 r.queue.proc_num;
    };
    procs = update r.procs a (enqueued r.queue.max_time_slice (r.procs a));
  })

unfoldable pub rr_dequeue : ℕ → Ready → Outcome Ready
rr_dequeue a r = do
  assert (mem a r.queue.run_list && (r.procs a).rq)
  ok (record r {
    queue = record (r.queue) {
      run_list = remove a r.queue.run_list;
      proc_num = dec32 r.queue.proc_num;
    };
  })

abbrev pub first : List ℕ → Option ℕ
first [] = none
first (a ∷ rest) = some a

unfoldable pub rr_pick_next : Ready → Option ℕ × Ready
rr_pick_next r = (first r.queue.run_list, r)

unfoldable pub ticked : Proc → Proc
ticked p =
    let left = p.time_slice - 1 in
    record p { time_slice = left; need_resched = if left == 0 then true else p.need_resched }

unfoldable pub rr_proc_tick : ℕ → Ready → Ready
rr_proc_tick a r = record r { procs = update r.procs a (ticked (r.procs a)) }

-- `RR_sched_class`
unfoldable pub rr_sched_class : SchedClass
rr_sched_class = record {
  init = rr_init;
  enqueue = rr_enqueue;
  dequeue = rr_dequeue;
  pick_next = rr_pick_next;
  proc_tick = rr_proc_tick;
}
