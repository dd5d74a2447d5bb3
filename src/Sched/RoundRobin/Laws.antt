-- ===== src/Sched/RoundRobin/Laws.antt =====
-- The round-robin policy meets the laws of a policy, with each queued process's slice in range.
use lcore.Base.{
  ℕ, ◌%◌, ◌^◌, ◌≤◌, ◌<◌, ◌≡◌, refl, true, false, not, ◌&&◌, ◌||◌, some, none, List, [], ◌∷◌, arith,
  Returns, ◌==◌, length, length-append, mem, Distinct, AllOf, update, mem-append, Distinct-snoc,
  Distinct-remove, mem-remove_ne, mem-remove_self, length-remove, AllOf-append, AllOf-remove,
  AllOf-mem, AllOf-map, ==_iff,
}
use lcore.Sched.Defs.{Proc, Procs, Ready}
use lcore.Sched.Laws.{SchedLaws, SameCore, Policy-kept, Core-kept}
use lcore.Sched.RoundRobin.{
  rr_enqueue, rr_dequeue, rr_pick_next, rr_proc_tick, rr_sched_class, first, enqueued, ticked,
}

-- A queued process is linked to the queue and has a slice to run.
abbrev pub IsQueued : ℕ → Proc → Type 0
IsQueued most p = (p.rq ≡ true) × (0 < p.time_slice) × (p.time_slice ≤ most)

pub record IsValid (r : Ready) : Type 0 where
  pub some_slice : 0 < r.queue.max_time_slice
  pub distinct : Distinct r.queue.run_list
  pub count : r.queue.proc_num ≡ length r.queue.run_list % 2 ^ 32
  pub waiting : AllOf (λ a. IsQueued r.queue.max_time_slice (r.procs a)) r.queue.run_list

-- A change of the process at `a` does not reach a list without `a`.
AllOf-update :
    (P : Proc → Type 0) (f : Procs) (a : ℕ) (p : Proc) (xs : List ℕ)
    → mem a xs ≡ false
    → AllOf (λ b. P (f b)) xs
    → AllOf (λ b. P (update f a p b)) xs
AllOf-update P f a p [] m h = tt
AllOf-update P f a p (x ∷ xs) m h =
    let out : (x == a) ≡ false = ground arith in
    (rw out (h.0), AllOf-update P f a p xs (ground arith) h.1)

enqueued-IsQueued : (most : ℕ) (p : Proc) → 0 < most → IsQueued most (enqueued most p)
unfolding enqueued
enqueued-IsQueued most p h = ground arith

enqueued-SameCore : (most : ℕ) (p : Proc) → SameCore p (enqueued most p)
unfolding enqueued
enqueued-SameCore most p = ground arith

pub rr_stable :
    (r : Ready) (ps : Procs)
    → Policy-kept r.procs ps
    → IsValid r
    → IsValid (record { queue = r.queue; procs = ps })
rr_stable r ps same v = record {
  some_slice = v.some_slice;
  distinct = v.distinct;
  count = v.count;
  waiting = AllOf-map _ _ r.queue.run_list (λ b q. ground (arith, same b)) v.waiting;
}

pub rr_enqueue_lem :
    (a : ℕ) (r : Ready)
    → IsValid r
    → mem a r.queue.run_list ≡ false
    → Returns
        (λ s.
          IsValid s
          × ((b : ℕ) → mem b s.queue.run_list ≡ ((b == a) || mem b r.queue.run_list))
          × Core-kept r.procs s.procs)
        (rr_enqueue a r)
unfolding rr_enqueue
rr_enqueue_lem a r v m = rw m (
  record {
    some_slice = v.some_slice;
    distinct = Distinct-snoc list a v.distinct m;
    count = omega (arith, length-append list (a ∷ []), v.count);
    waiting =
        AllOf-append _ list (a ∷ []) (AllOf-update (IsQueued most) r.procs a _ list m v.waiting)
          (rw ((==_iff a a).1 refl) (enqueued-IsQueued most (r.procs a) v.some_slice), tt);
  },
  λ b. ground (arith, mem-append b list (a ∷ [])),
  λ b. ground (arith, enqueued-SameCore most (r.procs a)),
)
  where
    open (r.queue) use {run_list as list, max_time_slice as most}

pub rr_dequeue_lem :
    (a : ℕ) (r : Ready)
    → IsValid r
    → mem a r.queue.run_list ≡ true
    → Returns
        (λ s.
          IsValid s
          × ((b : ℕ) → mem b s.queue.run_list ≡ (not (b == a) && mem b r.queue.run_list))
          × Core-kept r.procs s.procs)
        (rr_dequeue a r)
unfolding rr_dequeue
rr_dequeue_lem a r v m =
    rw (m, (AllOf-mem _ a list v.waiting m).0)
      (
        record {
          some_slice = v.some_slice;
          distinct = Distinct-remove a list v.distinct;
          count = omega (arith, length-remove a list m, v.count);
          waiting = AllOf-remove _ a list v.waiting;
        },
        λ b. ground (arith, mem-remove_ne b a list, mem-remove_self a list v.distinct),
        λ b. record { state = refl; wait = refl; resched = refl; runs = refl },
      )
  where
    open (r.queue) use {run_list as list, max_time_slice as most}

pub first-none : (xs : List ℕ) → first xs ≡ none → (b : ℕ) → mem b xs ≡ false
first-none [] e b = refl
first-none (x ∷ xs) e b = ground arith

pub first-some : (xs : List ℕ) (a : ℕ) → first xs ≡ some a → mem a xs ≡ true
first-some [] a e = ground arith
first-some (x ∷ xs) a e = ground arith

-- The tick may take the last of a slice, so it is for a process that is not queued.
pub rr_proc_tick_lem :
    (a : ℕ) (r : Ready) → IsValid r → mem a r.queue.run_list ≡ false → IsValid (rr_proc_tick a r)
unfolding rr_proc_tick
rr_proc_tick_lem a r v m = record {
  some_slice = v.some_slice;
  distinct = v.distinct;
  count = v.count;
  waiting = AllOf-update (IsQueued r.queue.max_time_slice) r.procs a _ r.queue.run_list m v.waiting;
}

pub rr_tick-kept :
    (a : ℕ) (r : Ready)
    → let s = rr_proc_tick a r in
      ((b : ℕ) → mem b s.queue.run_list ≡ mem b r.queue.run_list)
      × ((b : ℕ) → ((s.procs b).state ≡ (r.procs b).state))
unfolding rr_proc_tick ticked
rr_tick-kept a r = (λ b. refl, λ b. ground arith)

abbrev pub rr_laws : SchedLaws rr_sched_class
unfolding rr_sched_class rr_pick_next
rr_laws = record {
  Inv = IsValid;
  queued = λ q. q.run_list;
  stable = rr_stable;
  enqueue_lem = rr_enqueue_lem;
  dequeue_lem = rr_dequeue_lem;
  pick_none = λ r v. first-none r.queue.run_list;
  pick_some = λ r a v. first-some r.queue.run_list a;
  pick_keeps =
      λ r v. (v, λ b. refl, λ b. record { state = refl; wait = refl; resched = refl; runs = refl });
  tick_keeps = λ a r v m. (rr_proc_tick_lem a r v m, (rr_tick-kept a r).0, (rr_tick-kept a r).1);
}
