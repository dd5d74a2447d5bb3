-- ===== src/Sched/RoundRobin/Rotate.antt =====
-- Round-robin scheduling is the rotation of a queue, and so everyone gets a turn.
use mathlib.Core.List.{append-nil}
use lcore.Base.{
  ℕ, zero, suc, ◌<◌, ◌≡◌, refl, sym, ◌∙◌, Bool, false, not, ◌&&◌, some, List, [], ◌∷◌, ◌++◌, arith,
  Outcome, ok, ◌>>=◌, Returns, Returns-bind, Returns-with, >>=-eq-ok, ap, length-append,
  get_elem?-append, ◌≤◌, Returns-mono, ◌==◌, if◌then◌else◌, length, get_elem?,
}
use lcore.Sched.RoundRobin.{rr_enqueue, rr_dequeue, rr_pick_next, rr_sched_class, first}
use lcore.Sched.RoundRobin.Laws.{rr_laws}
use lcore.Sched.Core.{
  Kernel, proc_of, set_proc, is_runnable, or_idle, launch, sched_class_enqueue, sched_class_dequeue,
  sched_class_pick_next, requeue_current, dequeue_next, switch_next, schedule,
}
use lcore.Sched.Conserve.{IsSound, Rescheduled, schedule-Rescheduled}

abbrev tail : List ℕ → List ℕ
tail [] = []
tail (x ∷ xs) = xs

abbrev pub Sound : Kernel → Type 0
Sound = IsSound rr_sched_class rr_laws

-- The running process can go on, and is not the idle one.
abbrev pub goes_on : Kernel → Bool
goes_on k = not (k.current == k.idleproc) && is_runnable (proc_of k k.current).state

-- The queue with the running process put back.
abbrev pub line : Kernel → List ℕ
line k = k.ready.queue.run_list ++ (if goes_on k then k.current ∷ [] else [])

requeue_current-line :
    (k l : Kernel)
    → requeue_current rr_sched_class k ≡ ok l
    → (l.ready.queue.run_list ≡ line k) × (l.idleproc ≡ k.idleproc)
unfolding requeue_current sched_class_enqueue rr_sched_class rr_enqueue
requeue_current-line k l h = ground (arith, append-nil k.ready.queue.run_list)

switch_next-line :
    (k : Kernel) (xs : List ℕ)
    → k.ready.queue.run_list ≡ xs
    → (l : Kernel) → switch_next rr_sched_class k ≡ ok l
    → (l.current ≡ or_idle k.idleproc (first xs)) × (l.ready.queue.run_list ≡ tail xs)
unfolding switch_next sched_class_pick_next sched_class_dequeue rr_sched_class rr_pick_next
    rr_dequeue launch dequeue_next
switch_next-line k [] e l h = ground arith
switch_next-line k (x ∷ xs) e l h = ground arith

-- What one call of `schedule` does to the queue.
pub record Rotated (k l : Kernel) : Type 0 where
  pub rescheduled : Rescheduled rr_sched_class rr_laws k l
  pub current : l.current ≡ or_idle k.idleproc (first (line k))
  pub queue : l.ready.queue.run_list ≡ tail (line k)

schedule-line :
    (k l : Kernel)
    → schedule rr_sched_class k ≡ ok l
    → (l.current ≡ or_idle k.idleproc (first (line k))) × (l.ready.queue.run_list ≡ tail (line k))
unfolding schedule
schedule-line k l h =
    let k' : Kernel =
      set_proc k.current (record (proc_of k k.current) { need_resched = false }) k in
    let (m, e, f) = >>=-eq-ok (requeue_current rr_sched_class k') (switch_next rr_sched_class) h in
    let (q, i) = requeue_current-line k' m e in
    let (c, t) = switch_next-line m (line k') q l f in ground (arith, c, t, i)

-- Under round robin schedule is the rotation of a queue: the first in line runs, the others move
-- up, and the running process goes to the end if it can go on and is not the idle one.
pub schedule-Rotated : (k : Kernel) → Sound k → Returns (Rotated k) (schedule rr_sched_class k)
schedule-Rotated k v =
    Returns-with (Rescheduled rr_sched_class rr_laws k) (Rotated k) (schedule rr_sched_class k)
      (schedule-Rescheduled rr_sched_class rr_laws k v)
      λ l e r. record {
        rescheduled = r;
        current = (schedule-line k l e).0;
        queue = (schedule-line k l e).1;
      }

-- Repeated calls, while no process changes its state in between.
unfoldable pub schedules : ℕ → Kernel → Outcome Kernel
schedules zero k = ok k
schedules (suc n) k = schedule rr_sched_class k >>= schedules n

get_elem?-line :
    (xs ys : List ℕ) (i : ℕ)
    → suc i < length xs
    → get_elem? (tail (xs ++ ys)) i ≡ get_elem? xs (suc i)
get_elem?-line [] ys i h = absurd (omega arith)
get_elem?-line (x ∷ xs) ys i h = get_elem?-append xs ys i (omega arith)

get_elem?-first :
    (xs ys : List ℕ) (d : ℕ) → 0 < length xs → get_elem? xs 0 ≡ some (or_idle d (first (xs ++ ys)))
get_elem?-first [] ys d h = absurd (omega arith)
get_elem?-first (x ∷ xs) ys d h = refl

length-line : (xs ys : List ℕ) → length (xs ++ ys) ≤ suc (length (tail (xs ++ ys)))
length-line [] [] = omega arith
length-line [] (y ∷ ys) = omega arith
length-line (x ∷ xs) ys = omega arith

-- Under round robin the process at position i of the run queue runs after i + 1 calls of schedule
-- between which no process changes its state.
pub schedules_reach :
    (i : ℕ) (k : Kernel)
    → Sound k
    → i < length k.ready.queue.run_list
    → Returns (λ l. get_elem? k.ready.queue.run_list i ≡ some l.current) (schedules (suc i) k)
unfolding schedules
schedules_reach zero k v h =
    Returns-bind (Rotated k) _ (schedule rr_sched_class k) (schedules 0) (schedule-Rotated k v)
      λ l r. rw r.current (get_elem?-first k.ready.queue.run_list back k.idleproc h)
  where
    back : List ℕ
    back = if goes_on k then k.current ∷ [] else []
schedules_reach (suc i) k v h =
    Returns-bind (Rotated k) _ (schedule rr_sched_class k) (schedules (suc i))
      (schedule-Rotated k v)
      λ l r.
        Returns-mono _ _ (schedules (suc i) l)
          (schedules_reach i l r.rescheduled.sound (longer l r))
          λ m e. sym (get_elem?-line k.ready.queue.run_list back i h) ∙ rw r.queue at e
  where
    back : List ℕ
    back = if goes_on k then k.current ∷ [] else []

    longer : (l : Kernel) → Rotated k l → i < length l.ready.queue.run_list
    longer l r = omega (
      arith,
      ap (length {A = ℕ}) r.queue,
      length-line k.ready.queue.run_list back,
      length-append k.ready.queue.run_list back,
    )
