-- ===== src/Sched/Timers/Fire.antt =====
-- The loop of `run_timer_list`, which wakes the processes of the timers that expired.
use lcore.Base.{
  ℕ, ◌≡◌, refl, ◌∙◌, false, List, [], ◌∷◌, arith, Returns, Returns-bind, Returns-mono, ◌==◌, mem,
  AllOf, AllOf-map, Bool-cases, inl, inr,
}
use lcore.Sched.Defs.{runnable, SchedClass}
use lcore.Sched.Laws.{SchedLaws}
use lcore.Sched.Core.{Timer, Kernel, proc_of, wakeup_proc}
use lcore.Sched.Conserve.{state_of, IsSound}
use lcore.Sched.Wakeup.{Woken, IsWakeable, wakeup_proc-Woken}
use lcore.Sched.Timers.{fire, fire_all}
use lcore.Sched.Timers.Spec.{expired, unexpired, del_timer_first}

module _ (C : SchedClass) (L : SchedLaws C) where
  abbrev pub AreAwake : Kernel → List ℕ → Type 0
  AreAwake l = AllOf (λ p. state_of C L l p ≡ runnable)

  -- From `k` to `l` the processes `ps` were woken, and nothing else changed its state.
  pub record Fired (k l : Kernel) (ps : List ℕ) (ts : List Timer) : Type 0 where
    pub sound : IsSound C L l
    pub timers : l.timer_list ≡ ts
    pub awake : AreAwake l ps
    pub stays : (b : ℕ) → state_of C L k b ≡ runnable → state_of C L l b ≡ runnable
    pub others : (b : ℕ) → mem b ps ≡ false → state_of C L l b ≡ state_of C L k b
    pub current : l.current ≡ k.current
    pub idle : l.idleproc ≡ k.idleproc
    pub wakeable : (b : ℕ) → IsWakeable (proc_of k b) → IsWakeable (proc_of l b)

  no_fire : (k : Kernel) (ts : List Timer) → IsSound C L k → k.timer_list ≡ ts → Fired k k [] ts
  no_fire k ts v e = record {
    sound = v;
    timers = e;
    awake = tt;
    stays = λ b h. h;
    others = λ b h. refl;
    current = refl;
    idle = refl;
    wakeable = λ b h. h;
  }

  relist :
      (k l : Kernel) (p : ℕ) (ts : List Timer)
      → Woken C L k l p
      → Fired k (record l { timer_list = ts }) (p ∷ []) ts
  relist k l p ts u = record {
    sound = record {
      inv = u.sound.inv;
      current_out = u.sound.current_out;
      idle_out = u.sound.idle_out;
      can_run = u.sound.can_run;
    };
    timers = refl;
    awake = (u.awake, tt);
    stays = λ b h. ground (arith, u.others b, u.awake);
    others = λ b h. u.others b (ground arith);
    current = u.current;
    idle = u.idle;
    wakeable = u.wakeable;
  }

  -- One round of the loop.
  fire-Fired :
      (k : Kernel) (t : Timer) (ts : List Timer)
      → IsSound C L k
      → k.timer_list ≡ t ∷ ts
      → t.expires ≡ 0
      → IsWakeable (proc_of k t.proc)
      → Returns (λ l. Fired k l (t.proc ∷ []) ts) (fire C t k)
  unfolding fire
  fire-Fired k t ts v e z w = rw (w.1) (
      Returns-bind (λ l. Woken C L k l t.proc) _ (wakeup_proc C t.proc k) _
        (wakeup_proc-Woken C L k t.proc v w.0)
        λ l u. rw (del_timer_first l t ts (u.timers ∙ e) z) (relist k l t.proc ts u))

  Fired-trans :
      (k l m : Kernel) (p : ℕ) (ps : List ℕ) (ts us : List Timer)
      → Fired k l (p ∷ []) ts
      → Fired l m ps us
      → Fired k m (p ∷ ps) us
  Fired-trans k l m p ps ts us f g = record {
    sound = g.sound;
    timers = g.timers;
    awake = (g.stays p f.awake.0, g.awake);
    stays = λ b h. g.stays b (f.stays b h);
    others = λ b h. g.others b (ground arith) ∙ f.others b (ground arith);
    current = g.current ∙ f.current;
    idle = g.idle ∙ f.idle;
    wakeable = λ b h. g.wakeable b (f.wakeable b h);
  }

  pub fire_all-Fired :
      (ts : List Timer) (k : Kernel)
      → IsSound C L k
      → k.timer_list ≡ ts
      → AllOf (λ p. IsWakeable (proc_of k p)) (expired ts)
      → Returns (λ l. Fired k l (expired ts) (unexpired ts)) (fire_all C ts k)
  unfolding fire_all
  fire_all-Fired [] k v e w = no_fire k [] v e
  fire_all-Fired (t ∷ ts) k v e w = elim (Bool-cases (t.expires == 0)) [
    | inr later ↦ rw later (no_fire k (t ∷ ts) v e)
    | inl now ↦
        let w' : AllOf (λ p. IsWakeable (proc_of k p)) (t.proc ∷ expired ts) = rw now at w in
        rw now (
          Returns-bind (λ l. Fired k l (t.proc ∷ []) ts) _ (fire C t k) (fire_all C ts)
            (fire-Fired k t ts v e (ground arith) w'.0)
            λ l f.
              Returns-mono _ _ (fire_all C ts l)
                (fire_all-Fired ts l f.sound f.timers (AllOf-map _ _ (expired ts) f.wakeable w'.1))
                λ m g. Fired-trans k l m t.proc (expired ts) ts (unexpired ts) f g)
  ]
