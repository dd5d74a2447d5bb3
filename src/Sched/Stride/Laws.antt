-- ===== src/Sched/Stride/Laws.antt =====
-- kern/schedule/stride_sched.c: the stride policy meets the laws of a policy, with each process at
-- most once in the pool.
use lcore.Base.{
  ℕ, ◌+◌, ◌%◌, ◌^◌, ◌≤◌, ◌≡◌, refl, Bool, true, false, not, ◌&&◌, ◌||◌, some, none, Option, arith,
  Returns, ◌==◌, if◌then◌else◌, mem,
}
use lcore.Sched.Defs.{Proc, Ready, Pool, null, node}
use lcore.Sched.Laws.{SchedLaws, SameCore, Core-kept}
use lcore.Sched.Stride.{
  skew_heap_insert, skew_heap_remove, stride_before, stride_enqueue, dequeued, stride_dequeue,
  stride_pick_next, pick_root, stride_proc_tick, stride_ticked, refilled, passed,
  stride_sched_class,
}
use lcore.Sched.Stride.Heap.{
  elements, copies, size, mem-elements, copies-merge, size-merge, Removed, skew_heap_remove-Removed,
}

pub record Counted (r : Ready) : Type 0 where
  pub once : (b : ℕ) → copies b r.queue.lab6_run_pool ≤ 1
  pub count : r.queue.proc_num ≡ size r.queue.lab6_run_pool % 2 ^ 32

refilled-SameCore : (most : ℕ) (p : Proc) → SameCore p (refilled most p)
unfolding refilled
refilled-SameCore most p = ground arith

passed-SameCore : (p : Proc) → SameCore p (passed p)
unfolding passed
passed-SameCore p = ground arith

-- stride_enqueue of a process that is not in the pool, where every process is at most once and
-- proc_num counts them, returns: the pool has that process and those that it had, the count is
-- right again, and the fields of the scheduler core are as they were.
pub stride_enqueue_lem :
    (a : ℕ) (r : Ready)
    → Counted r
    → mem a (elements r.queue.lab6_run_pool) ≡ false
    → Returns
        (λ s.
          Counted s
          × ((b : ℕ)
              → mem b (elements s.queue.lab6_run_pool)
                ≡ ((b == a) || mem b (elements r.queue.lab6_run_pool)))
          × Core-kept r.procs s.procs)
        (stride_enqueue a r)
unfolding stride_enqueue skew_heap_insert copies size
stride_enqueue_lem a r v m = (
  record {
    once = λ b. ground (arith, v.once b, added b, mem-elements a pool);
    count = ground (arith, v.count, grown);
  },
  λ b. ground (arith, added b, mem-elements b pool, mem-elements b bigger),
  λ b. ground (arith, refilled-SameCore r.queue.max_time_slice (r.procs a)),
)
  where
    open (r.queue) use {lab6_run_pool as pool}

    bigger : Pool
    bigger = skew_heap_insert (stride_before r.procs) pool a

    added : (b : ℕ) → copies b bigger ≡ copies b pool + (if b == a then 1 else 0)
    added b = omega (arith, copies-merge (stride_before r.procs) b pool (node a null null))

    grown : size bigger ≡ size pool + 1
    grown = omega (arith, size-merge (stride_before r.procs) pool (node a null null))

-- stride_dequeue of a process of the pool, where every process is at most once and proc_num counts
-- them, returns: the pool has the others that it had and not that process, the count is right
-- again, and the fields of the scheduler core are as they were.
pub stride_dequeue_lem :
    (a : ℕ) (r : Ready)
    → Counted r
    → mem a (elements r.queue.lab6_run_pool) ≡ true
    → Returns
        (λ s.
          Counted s
          × ((b : ℕ)
              → mem b (elements s.queue.lab6_run_pool)
                ≡ (not (b == a) && mem b (elements r.queue.lab6_run_pool)))
          × Core-kept r.procs s.procs)
        (stride_dequeue a r)
unfolding stride_dequeue
stride_dequeue_lem a r v m =
    left_over (skew_heap_remove less pool a) (skew_heap_remove-Removed less pool a)
  where
    open (r.queue) use {lab6_run_pool as pool}

    less : ℕ → ℕ → Bool
    less = stride_before r.procs

    left_over :
        (o : Option Pool)
        → Removed less pool a o
        → Returns
            (λ s.
              Counted s
              × ((b : ℕ)
                  → mem b (elements s.queue.lab6_run_pool)
                    ≡ (not (b == a) && mem b (elements pool)))
              × Core-kept r.procs s.procs)
            (dequeued o r)
    left_over none h = ground (arith, mem-elements a pool)
    left_over (some t) h = (
      record { once = λ b. omega (arith, v.once b, h.1 b); count = omega (arith, v.count, h.0) },
      λ b. ground (arith, v.once b, h.1 b, mem-elements b pool, mem-elements b t),
      λ b. record { state = refl; wait = refl; resched = refl; runs = refl },
    )

pub pick_root-none :
    (t : Pool) (r : Ready) → (pick_root t r).0 ≡ none → (b : ℕ) → mem b (elements t) ≡ false
pick_root-none null r e b = refl
pick_root-none (node a l q) r e b = ground arith

pub pick_root-some :
    (t : Pool) (r : Ready) (a : ℕ) → (pick_root t r).0 ≡ some a → mem a (elements t) ≡ true
pick_root-some null r a e = ground arith
pick_root-some (node x l q) r a e = ground arith

pub pick_root_lem :
    (t : Pool) (r : Ready)
    → let s = (pick_root t r).1 in (s.queue ≡ r.queue) × Core-kept r.procs s.procs
pick_root_lem null r =
    (refl, λ b. record { state = refl; wait = refl; resched = refl; runs = refl })
pick_root_lem (node a l q) r = (refl, λ b. ground (arith, passed-SameCore (r.procs a)))

pub Counted-queue : (r s : Ready) → s.queue ≡ r.queue → Counted r → Counted s
Counted-queue r s e v = record { once = λ b. rw e (v.once b); count = rw e (v.count) }

pub stride_tick-state :
    (a : ℕ) (r : Ready) (b : ℕ) → ((stride_proc_tick a r).procs b).state ≡ (r.procs b).state
unfolding stride_proc_tick stride_ticked
stride_tick-state a r b = ground arith

abbrev pub stride_laws : SchedLaws stride_sched_class
unfolding stride_sched_class stride_pick_next stride_proc_tick
stride_laws = record {
  Inv = Counted;
  queued = λ q. elements q.lab6_run_pool;
  stable = λ r ps same v. record { once = v.once; count = v.count };
  enqueue_lem = stride_enqueue_lem;
  dequeue_lem = stride_dequeue_lem;
  pick_none = λ r v. pick_root-none r.queue.lab6_run_pool r;
  pick_some = λ r a v. pick_root-some r.queue.lab6_run_pool r a;
  pick_keeps = λ r v.
      let kept = pick_root_lem r.queue.lab6_run_pool r in
      (Counted-queue r _ (kept.0) v, λ b. rw (kept.0) refl, kept.1);
  tick_keeps =
      λ a r v m. (record { once = v.once; count = v.count }, λ b. refl, stride_tick-state a r);
}
