-- ===== src/Sched/Timers/Tick.antt =====
-- A tick of the clock (`run_timer_list`) over any policy that meets the laws.
use lcore.Base.{
  ℕ, ◌≡◌, refl, sym, ap, ◌∙◌, false, List, [], ◌∷◌, arith, ok, ◌>>=◌, Returns, Returns-bind, ◌==◌,
  mem, AllOf, AllOf-map, Bool-cases, inl, inr,
}
use lcore.Sched.Defs.{runnable, SchedClass}
use lcore.Sched.Laws.{SchedLaws}
use lcore.Sched.Core.{Timer, Kernel, proc_of, sched_class_proc_tick}
use lcore.Sched.Conserve.{state_of, IsSound, set_proc-IsSound}
use lcore.Sched.Wakeup.{IsWakeable}
use lcore.Sched.Timers.{fire_all, advance, run_timer_list}
use lcore.Sched.Timers.Deadlines.{deadlines}
use lcore.Sched.Timers.Spec.{
  elapse, due, IsTimed, expired, unexpired, closer, due-closer, deadlines-closer, unexpired-IsTimed,
}
use lcore.Sched.Timers.Fire.{Fired, fire_all-Fired, AreAwake}

module _ (C : SchedClass) (L : SchedLaws C) where
  -- After a tick: every deadline is one tick nearer, the processes that were due are awake, and no
  -- other process changes its state.
  pub record Ticked (k l : Kernel) : Type 0 where
    pub sound : IsSound C L l
    pub remaining : deadlines 0 l.timer_list ≡ elapse (deadlines 0 k.timer_list)
    pub awake : AllOf (λ p. state_of C L l p ≡ runnable) (due 0 k.timer_list)
    pub others : (b : ℕ) → mem b (due 0 k.timer_list) ≡ false → state_of C L l b ≡ state_of C L k b
    pub current : l.current ≡ k.current
    pub timed : IsTimed l.timer_list

  -- The policy's tick for the running process.
  record TickKept (k l : Kernel) : Type 0 where
    sound : IsSound C L l
    timers : l.timer_list ≡ k.timer_list
    current : l.current ≡ k.current
    states : (b : ℕ) → state_of C L l b ≡ state_of C L k b

  tick-TickKept : (k : Kernel) → IsSound C L k → TickKept k (sched_class_proc_tick C k.current k)
  unfolding sched_class_proc_tick
  tick-TickKept k v = elim (Bool-cases (k.current == k.idleproc)) [
    | inl idle ↦ rw idle (record {
      sound = set_proc-IsSound C L k k.current _ (ground arith) refl v;
      timers = refl;
      current = refl;
      states = λ b. ground arith;
    })
    | inr user ↦
        let (i, q, s) = L.tick_keeps k.current k.ready v.inv v.current_out in
        rw user (record {
          sound = record {
            inv = i;
            current_out = q k.current ∙ v.current_out;
            idle_out = q k.idleproc ∙ v.idle_out;
            can_run = λ b w. s b ∙ v.can_run b (sym (q b) ∙ w);
          };
          timers = refl;
          current = refl;
          states = s;
        })
  ]

  AllOf-awake :
      (l m : Kernel) (ps : List ℕ)
      → ((b : ℕ) → state_of C L m b ≡ state_of C L l b)
      → AreAwake C L l ps
      → AreAwake C L m ps
  AllOf-awake l m ps s = AllOf-map _ _ ps λ p h. s p ∙ h

  -- The loop from the advanced list `us`, and the policy's tick.
  finish-Ticked :
      (k : Kernel) (us : List Timer)
      → IsSound C L k
      → expired us ≡ due 0 k.timer_list
      → deadlines 0 (unexpired us) ≡ elapse (deadlines 0 k.timer_list)
      → AllOf (λ p. IsWakeable (proc_of k p)) (due 0 k.timer_list)
      → IsTimed (unexpired us)
      → Returns (Ticked k) (
          fire_all C us (record k { timer_list = us }) >>= λ l.
          ok (sched_class_proc_tick C l.current l))
  finish-Ticked k us v d e w h =
      let k' : Kernel = record k { timer_list = us } in
      let v' : IsSound C L k' = record {
        inv = v.inv;
        current_out = v.current_out;
        idle_out = v.idle_out;
        can_run = v.can_run;
      } in
      Returns-bind (λ l. Fired C L k' l (expired us) (unexpired us)) (Ticked k) (fire_all C us k') _
        (fire_all-Fired C L us k' v' refl (rw d w))
        λ l f.
          let t = tick-TickKept l f.sound in
          record {
            sound = t.sound;
            remaining = rw (t.timers, f.timers) e;
            awake =
                AllOf-awake l (sched_class_proc_tick C l.current l) (due 0 k.timer_list) t.states
                  (rw d at f.awake);
            others = λ b h. t.states b ∙ f.others b (rw d h);
            current = t.current ∙ f.current;
            timed = rw (t.timers, f.timers) h;
          }

  run_advanced :
      (k : Kernel) (us : List Timer)
      → advance k.timer_list ≡ ok us
      → IsSound C L k
      → expired us ≡ due 0 k.timer_list
      → deadlines 0 (unexpired us) ≡ elapse (deadlines 0 k.timer_list)
      → AllOf (λ p. IsWakeable (proc_of k p)) (due 0 k.timer_list)
      → IsTimed (unexpired us)
      → Returns (Ticked k) (run_timer_list C k)
  unfolding run_timer_list
  run_advanced k us e v d r w h = rw e (finish-Ticked k us v d r w h)

  run_list :
      (k : Kernel) (ts : List Timer)
      → k.timer_list ≡ ts
      → IsSound C L k
      → IsTimed ts
      → AllOf (λ p. IsWakeable (proc_of k p)) (due 0 k.timer_list)
      → Returns (Ticked k) (run_timer_list C k)
  unfolding advance
  run_list k [] e v h w =
      run_advanced k [] (ap advance e) v (sym (ap (due 0) e))
        (sym (ap (λ ts. elapse (deadlines 0 ts)) e)) w h
  run_list k (t ∷ ts) e v h w =
      let some_left : (t.expires == 0) ≡ false = ground arith in
      run_advanced k (closer t ∷ ts) (ap advance e ∙ rw some_left) v
        (due-closer t ts h.pending ∙ sym (ap (due 0) e))
        (deadlines-closer t ts h.pending ∙ sym (ap (λ ts. elapse (deadlines 0 ts)) e)) w
        (unexpired-IsTimed t ts h)

  -- Over any policy that meets the laws, run_timer_list on a sound state with a timed list, where
  -- the processes that are due can be woken, returns a sound state in which every deadline is one
  -- tick nearer, the processes that were due are awake, no other process has changed its state,
  -- and the list is timed again.
  pub run_timer_list-Ticked :
      (k : Kernel)
      → IsSound C L k
      → IsTimed k.timer_list
      → AllOf (λ p. IsWakeable (proc_of k p)) (due 0 k.timer_list)
      → Returns (Ticked k) (run_timer_list C k)
  run_timer_list-Ticked k v h w = run_list k k.timer_list refl v h w
