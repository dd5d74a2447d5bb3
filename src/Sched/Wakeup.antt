-- ===== src/Sched/Wakeup.antt =====
-- `wakeup_proc` over any policy that meets the laws.
use lcore.Base.{
  ℕ, ◌≡◌, ◌≢◌, refl, Bool, false, not, ◌&&◌, ◌||◌, arith, Returns, Returns-bind, ◌==◌, true,
  if◌then◌else◌, Bool-cases, inl, inr,
}
use lcore.Sched.Defs.{Proc, runnable, SchedClass}
use lcore.Sched.Laws.{SchedLaws}
use lcore.Sched.Core.{
  Kernel, proc_of, set_proc, is_runnable, is_zombie, interruptible, sched_class_enqueue,
  wakeup_proc,
}
use lcore.Sched.Conserve.{waits, state_of, IsSound}

-- What waking a process by a timer relies on.
abbrev pub IsWakeable : Proc → Type 0
IsWakeable p =
    (is_zombie p.state ≡ false)
    × ((if p.wait_state == 0 then true else interruptible p.wait_state) ≡ true)

module _ (C : SchedClass) (L : SchedLaws C) where
  open L use {Inv, enqueue_lem, stable}

  -- Whether `wakeup_proc(a)` puts `a` into the run queue.
  abbrev pub joins : Kernel → ℕ → Bool
  joins k a =
      not (is_runnable (proc_of k a).state) && (not (a == k.current) && not (a == k.idleproc))

  pub record Woken (k l : Kernel) (a : ℕ) : Type 0 where
    pub sound : IsSound C L l
    pub awake : state_of C L l a ≡ runnable
    pub others : (b : ℕ) → b ≢ a → state_of C L l b ≡ state_of C L k b
    pub queue : (b : ℕ) → waits C L l b ≡ (waits C L k b || ((b == a) && joins k a))
    pub current : l.current ≡ k.current
    pub idle : l.idleproc ≡ k.idleproc
    pub timers : l.timer_list ≡ k.timer_list
    pub wakeable : (b : ℕ) → IsWakeable (proc_of k b) → IsWakeable (proc_of l b)

  awake-not_waiting :
      (k : Kernel) (a : ℕ)
      → IsSound C L k
      → is_runnable (proc_of k a).state ≡ false
      → waits C L k a ≡ false
  awake-not_waiting k a v n = elim (Bool-cases (waits C L k a)) [
    | inl w ↦ ground (arith, v.can_run a w)
    | inr o ↦ o
  ]

  abbrev woken : Kernel → ℕ → Kernel
  woken k a = set_proc a (record (proc_of k a) { state = runnable; wait_state = 0 }) k

  woken-Inv : (k : Kernel) (a : ℕ) → IsSound C L k → Inv (woken k a).ready
  woken-Inv k a v = stable k.ready _ (λ b. ground arith) v.inv

  -- A process that does not join the queue is made runnable in place.
  stays-Woken : (k : Kernel) (a : ℕ) → IsSound C L k → joins k a ≡ false → Woken k (woken k a) a
  stays-Woken k a v j = record {
    sound = record {
      inv = woken-Inv k a v;
      current_out = v.current_out;
      idle_out = v.idle_out;
      can_run = λ b w. ground (arith, v.can_run b w);
    };
    awake = ground arith;
    others = λ b ne. ground arith;
    queue = λ b. ground (arith, j);
    current = refl;
    idle = refl;
    timers = refl;
    wakeable = λ b w. ground arith;
  }

  enqueue-Woken :
      (k : Kernel) (a : ℕ)
      → IsSound C L k
      → is_runnable (proc_of k a).state ≡ false
      → (a == k.current) ≡ false
      → Returns (λ l. Woken k l a) (sched_class_enqueue C a (woken k a))
  unfolding sched_class_enqueue
  enqueue-Woken k a v n c = elim (Bool-cases (a == k.idleproc)) [
    | inl idle ↦ rw idle (stays-Woken k a v (ground arith))
    | inr user ↦ rw user (
        Returns-bind _ (λ l. Woken k l a) (C.enqueue a (woken k a).ready) _
          (enqueue_lem a (woken k a).ready (woken-Inv k a v) (awake-not_waiting k a v n))
          λ r (i, q, s). record {
            sound = record {
              inv = i;
              current_out = ground (arith, q k.current, v.current_out);
              idle_out = ground (arith, q k.idleproc, v.idle_out);
              can_run = λ b w. ground (arith, q b, s b, v.can_run b);
            };
            awake = ground (arith, s a);
            others = λ b ne. ground (arith, s b);
            queue = λ b. ground (arith, q b);
            current = refl;
            idle = refl;
            timers = refl;
            wakeable = λ b w. ground (arith, s b);
          })
  ]

  -- Over any policy that meets the laws, wakeup_proc of a process that is no zombie returns a
  -- sound state in which that process is runnable and no other has changed its state; it joins the
  -- run queue unless it runs, is idle or was awake already.
  pub wakeup_proc-Woken :
      (k : Kernel) (a : ℕ)
      → IsSound C L k
      → is_zombie (proc_of k a).state ≡ false
      → Returns (λ l. Woken k l a) (wakeup_proc C a k)
  unfolding wakeup_proc
  wakeup_proc-Woken k a v nz = elim (Bool-cases (is_runnable (proc_of k a).state)) [
    | inl run ↦
        rw (nz, run)
          (record {
            sound = v;
            awake = ground arith;
            others = λ b ne. refl;
            queue = λ b. ground arith;
            current = refl;
            idle = refl;
            timers = refl;
            wakeable = λ b w. w;
          })
    | inr stop ↦ elim (Bool-cases (a == k.current)) [
      | inl running ↦ rw (nz, stop, running) (stays-Woken k a v (ground arith))
      | inr other ↦ rw (nz, stop, other) (enqueue-Woken k a v stop other)
    ]
  ]
