-- ===== src/Sched/Laws.antt =====
-- What `schedule` and `wakeup_proc` rely on in a scheduling policy (`struct sched_class`).
use lcore.Base.{ℕ, ◌≡◌, true, false, not, ◌||◌, ◌&&◌, none, some, List, Returns, ◌==◌, mem}
use lcore.Sched.Defs.{Proc, Procs, RunQueue, Ready, SchedClass}

-- The fields that belong to the policy are those of `p`.
pub record SamePolicy (p q : Proc) : Type 0 where
  pub slice : q.time_slice ≡ p.time_slice
  pub linked : q.rq ≡ p.rq
  pub stride : q.lab6_stride ≡ p.lab6_stride
  pub priority : q.lab6_priority ≡ p.lab6_priority

-- The fields that belong to the scheduler are those of `p`.
pub record SameCore (p q : Proc) : Type 0 where
  pub state : q.state ≡ p.state
  pub wait : q.wait_state ≡ p.wait_state
  pub resched : q.need_resched ≡ p.need_resched
  pub runs : q.runs ≡ p.runs

abbrev pub Policy-kept : Procs → Procs → Type 0
Policy-kept ps qs = (b : ℕ) → SamePolicy (ps b) (qs b)

abbrev pub Core-kept : Procs → Procs → Type 0
Core-kept ps qs = (b : ℕ) → SameCore (ps b) (qs b)

-- `Inv` is the policy's own invariant, and `queued` the processes that wait in the run queue.
pub record SchedLaws (C : SchedClass) : Type 1 where
  pub Inv : Ready → Type 0
  pub queued : RunQueue → List ℕ
  pub stable :
      (r : Ready) (ps : Procs)
      → Policy-kept r.procs ps
      → Inv r
      → Inv (record { queue = r.queue; procs = ps })
  pub enqueue_lem :
      (a : ℕ) (r : Ready)
      → Inv r
      → mem a (queued r.queue) ≡ false
      → Returns
          (λ s.
            Inv s
            × ((b : ℕ) → mem b (queued s.queue) ≡ ((b == a) || mem b (queued r.queue)))
            × Core-kept r.procs s.procs)
          (C.enqueue a r)
  pub dequeue_lem :
      (a : ℕ) (r : Ready)
      → Inv r
      → mem a (queued r.queue) ≡ true
      → Returns
          (λ s.
            Inv s
            × ((b : ℕ) → mem b (queued s.queue) ≡ (not (b == a) && mem b (queued r.queue)))
            × Core-kept r.procs s.procs)
          (C.dequeue a r)
  -- It picks a waiting process, and none only when none waits.
  pub pick_none :
      (r : Ready) → Inv r → (C.pick_next r).0 ≡ none → (b : ℕ) → mem b (queued r.queue) ≡ false
  pub pick_some :
      (r : Ready) (a : ℕ) → Inv r → (C.pick_next r).0 ≡ some a → mem a (queued r.queue) ≡ true
  pub pick_keeps :
      (r : Ready)
      → Inv r
      → let s = (C.pick_next r).1 in
        Inv s
        × ((b : ℕ) → mem b (queued s.queue) ≡ mem b (queued r.queue))
        × Core-kept r.procs s.procs
  -- The tick is for the running process, which is not queued.
  pub tick_keeps :
      (a : ℕ) (r : Ready)
      → Inv r
      → mem a (queued r.queue) ≡ false
      → let s = C.proc_tick a r in
        Inv s
        × ((b : ℕ) → mem b (queued s.queue) ≡ mem b (queued r.queue))
        × ((b : ℕ) → ((s.procs b).state ≡ (r.procs b).state))
