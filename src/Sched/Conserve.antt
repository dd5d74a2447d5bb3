-- ===== src/Sched/Conserve.antt =====
-- `schedule` over any policy that meets the laws: it returns, and loses no process.
use lcore.Base.{
  ℕ, ◌≡◌, ◌≢◌, refl, sym, ◌∙◌, Bool, true, false, not, ◌&&◌, ◌||◌, Option, none, some, arith,
  Returns, Returns-bind, Returns-mono, ◌==◌, mem, Bool-cases, inl, inr,
}
use lcore.Sched.Defs.{ProcState, runnable, Proc, SchedClass}
use lcore.Sched.Laws.{SchedLaws, SamePolicy}
use lcore.Sched.Core.{
  Kernel, proc_of, set_proc, is_runnable, sched_class_enqueue, sched_class_dequeue,
  sched_class_pick_next, requeue_current, dequeue_next, launch, switch_next, schedule,
}

module _ (C : SchedClass) (L : SchedLaws C) where
  open L use {Inv, queued, stable, enqueue_lem, dequeue_lem, pick_none, pick_some, pick_keeps}

  abbrev pub waits : Kernel → ℕ → Bool
  waits k b = mem b (queued k.ready.queue)

  abbrev pub state_of : Kernel → ℕ → ProcState
  state_of k b = (proc_of k b).state

  -- The running process and the idle one are not in the run queue, and who is in it can run.
  pub record IsSound (k : Kernel) : Type 0 where
    pub inv : Inv k.ready
    pub current_out : waits k k.current ≡ false
    pub idle_out : waits k k.idleproc ≡ false
    pub can_run : (b : ℕ) → waits k b ≡ true → state_of k b ≡ runnable

  -- Who competes for the processor: those that wait, and the current one if it can still run.
  abbrev pub competes : Kernel → ℕ → Bool
  competes k b =
      waits k b
      || ((b == k.current) && (not (b == k.idleproc) && is_runnable (state_of k k.current)))

  -- After the first half of `schedule`.
  record Requeued (k l : Kernel) : Type 0 where
    inv : Inv l.ready
    contents : (b : ℕ) → waits l b ≡ competes k b
    states : (b : ℕ) → state_of l b ≡ state_of k b
    idle : l.idleproc ≡ k.idleproc

  set_proc-Inv :
      (k : Kernel) (a : ℕ) (p : Proc)
      → SamePolicy (proc_of k a) p
      → Inv k.ready
      → Inv (set_proc a p k).ready
  set_proc-Inv k a p same i = stable k.ready _ (λ b. ground (arith, same)) i

  requeue_current-Requeued : (k : Kernel) → IsSound k → Returns (Requeued k) (requeue_current C k)
  unfolding requeue_current sched_class_enqueue
  requeue_current-Requeued k v = elim (Bool-cases (is_runnable (state_of k k.current))) [
    | inl run ↦ elim (Bool-cases (k.current == k.idleproc)) [
      | inl idle ↦
          rw (run, idle)
            (record { inv = v.inv; contents = λ b. ground arith; states = λ b. refl; idle = refl })
      | inr user ↦
          rw (run, user)
            (Returns-bind _ (Requeued k) (C.enqueue k.current k.ready) _
              (enqueue_lem k.current k.ready v.inv v.current_out)
              λ r (i, c, s). record {
                inv = i;
                contents = λ b. ground (arith, c b);
                states = λ b. (s b).state;
                idle = refl;
              })
    ]
    | inr stop ↦
        rw stop
          (record { inv = v.inv; contents = λ b. ground arith; states = λ b. refl; idle = refl })
  ]

  -- After `schedule`: the new state is sound, the same processes compete (the idle process runs
  -- only if none does), and no process changes its state.
  pub record Rescheduled (k l : Kernel) : Type 0 where
    pub sound : IsSound l
    pub idle : l.idleproc ≡ k.idleproc
    pub conserved : (b : ℕ) → b ≢ k.idleproc → ((b == l.current) || waits l b) ≡ competes k b
    pub idle_last : l.current ≡ k.idleproc → (b : ℕ) → competes k b ≡ false
    pub states : (b : ℕ) → state_of l b ≡ state_of k b

  can_run_of : (k : Kernel) → IsSound k → (b : ℕ) → competes k b ≡ true → state_of k b ≡ runnable
  can_run_of k v b h = elim (Bool-cases (waits k b)) [
    | inl w ↦ v.can_run b w
    | inr w ↦ ground arith
  ]

  idle_competes : (k : Kernel) → IsSound k → competes k k.idleproc ≡ false
  idle_competes k v = ground (arith, v.idle_out)

  -- Before the switch: `next` has left the queue.
  record Chosen (k m : Kernel) (next : ℕ) : Type 0 where
    inv : Inv m.ready
    contents : (b : ℕ) → waits m b ≡ (not (b == next) && competes k b)
    states : (b : ℕ) → state_of m b ≡ state_of k b
    idle : m.idleproc ≡ k.idleproc
    others : next ≢ k.idleproc → competes k next ≡ true
    none_left : next ≡ k.idleproc → (b : ℕ) → competes k b ≡ false

  launch-Rescheduled :
      (k m : Kernel) (next : ℕ) → IsSound k → Chosen k m next → Rescheduled k (launch next m)
  unfolding launch
  launch-Rescheduled k m next v c = record {
    sound = record {
      inv = set_proc-Inv m next _ (ground arith) c.inv;
      current_out = ground (arith, c.contents next);
      idle_out = ground (arith, c.contents m.idleproc, c.idle, idle_competes k v);
      can_run = λ b w. ground (arith, c.contents b, c.states b, can_run_of k v b);
    };
    idle = c.idle;
    conserved = λ b ne. ground (arith, c.contents b, c.others);
    idle_last = λ e. c.none_left e;
    states = λ b. ground (arith, c.states b);
  }

  record Dequeued (k m : Kernel) (a : ℕ) : Type 0 where
    inv : Inv m.ready
    contents : (b : ℕ) → waits m b ≡ (not (b == a) && waits k b)
    states : (b : ℕ) → state_of m b ≡ state_of k b
    idle : m.idleproc ≡ k.idleproc

  dequeue-Dequeued :
      (k : Kernel) (a : ℕ)
      → Inv k.ready
      → waits k a ≡ true
      → Returns (λ m. Dequeued k m a) (sched_class_dequeue C a k)
  unfolding sched_class_dequeue
  dequeue-Dequeued k a i w =
      Returns-bind _ _ (C.dequeue a k.ready) _ (dequeue_lem a k.ready i w)
        λ r (i', c, s). record { inv = i'; contents = c; states = λ b. (s b).state; idle = refl }

  switch_next-Rescheduled :
      (k l : Kernel) → IsSound k → Requeued k l → Returns (Rescheduled k) (switch_next C l)
  unfolding switch_next sched_class_pick_next dequeue_next
  switch_next-Rescheduled k l v q = go (C.pick_next l.ready).0 refl
    where
      picked : Kernel
      picked = record l { ready = (C.pick_next l.ready).1 }

      open_picks : (b : ℕ) → waits picked b ≡ competes k b
      open_picks b = (pick_keeps l.ready q.inv).1 b ∙ q.contents b

      states : (b : ℕ) → state_of picked b ≡ state_of k b
      states b = ((pick_keeps l.ready q.inv).2 b).state ∙ q.states b

      go : (o : Option ℕ) → (C.pick_next l.ready).0 ≡ o → Returns (Rescheduled k) (switch_next C l)
      go none e =
          rw (e, dequeue_next)
            (launch-Rescheduled k _ l.idleproc v (record {
              inv = (pick_keeps l.ready q.inv).0;
              contents =
                  λ b. ground (arith, open_picks b, pick_none l.ready q.inv e b, q.contents b);
              states = states;
              idle = q.idle;
              others = λ ne. absurd (ne q.idle);
              none_left = λ i b. sym (q.contents b) ∙ pick_none l.ready q.inv e b;
            }))
      go (some a) e =
          let waiting : waits l a ≡ true = pick_some l.ready a q.inv e in
          let taken : waits picked a ≡ true = (pick_keeps l.ready q.inv).1 a ∙ waiting in
          rw (e, dequeue_next)
            (Returns-bind _ _ (sched_class_dequeue C a picked) _
              (dequeue-Dequeued picked a (pick_keeps l.ready q.inv).0 taken)
              λ m d. launch-Rescheduled k m a v (record {
                inv = d.inv;
                contents = λ b. ground (arith, d.contents b, open_picks b);
                states = λ b. d.states b ∙ states b;
                idle = d.idle ∙ q.idle;
                others = λ ne. sym (q.contents a) ∙ waiting;
                none_left = λ i. absurd (ground (arith, q.contents a, waiting, idle_competes k v));
              }))

  -- A change of the process at `a` that keeps its state and its policy fields.
  module _ (k : Kernel) (a : ℕ) (p : Proc) where
    pub set_proc-IsSound :
        SamePolicy (proc_of k a) p → p.state ≡ state_of k a → IsSound k → IsSound (set_proc a p k)
    set_proc-IsSound same e v = record {
      inv = set_proc-Inv k a p same v.inv;
      current_out = v.current_out;
      idle_out = v.idle_out;
      can_run = λ b w. ground (arith, v.can_run b w);
    }

    Rescheduled-set :
        p.state ≡ state_of k a → (l : Kernel) → Rescheduled (set_proc a p k) l → Rescheduled k l
    Rescheduled-set e l r = record {
      sound = r.sound;
      idle = r.idle;
      conserved = λ b ne. ground (arith, r.conserved b ne);
      idle_last = λ i b. ground (arith, r.idle_last i b);
      states = λ b. ground (arith, r.states b);
    }

  -- Over any policy that meets the laws, schedule on a sound state returns a sound state in which
  -- exactly the same processes compete for the processor, the idle process runs only if none does,
  -- and no process has changed its state.
  pub schedule-Rescheduled : (k : Kernel) → IsSound k → Returns (Rescheduled k) (schedule C k)
  unfolding schedule
  schedule-Rescheduled k v =
      let p = record (proc_of k k.current) { need_resched = false } in
      let k' : Kernel = set_proc k.current p k in
      let v' : IsSound k' = set_proc-IsSound k k.current p (ground arith) refl v in
      Returns-bind (Requeued k') (Rescheduled k) (requeue_current C k') (switch_next C)
        (requeue_current-Requeued k' v')
        λ l q.
          Returns-mono (Rescheduled k') (Rescheduled k) (switch_next C l)
            (switch_next-Rescheduled k' l v' q) (Rescheduled-set k k.current p refl)
