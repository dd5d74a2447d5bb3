-- ===== src/Sync/Up.antt =====
-- `up`: a waiter is woken if there is one, and else the value grows.
use lcore.Base.{ℕ, ◌+◌, ◌≡◌, refl, true, false, List, [], ◌∷◌, arith, Returns, Returns-bind, ◌==◌}
use lcore.Sched.Defs.{SchedClass}
use lcore.Sched.Laws.{SchedLaws}
use lcore.Sched.Core.{Kernel, proc_of, is_zombie, wakeup_proc}
use lcore.Sched.Conserve.{IsSound}
use lcore.Sched.Wakeup.{Woken, wakeup_proc-Woken}
use lcore.Sync.Defs.{Semaphore, Wait, wt_ksem, wait_queue_del, wakeup_wait, up}

module _ (C : SchedClass) (L : SchedLaws C) where
  -- Every waiter is no zombie and waits for a semaphore.
  abbrev pub AreWaiting : Semaphore → List ℕ → Type 0
  AreWaiting s [] = Unit {0}
  AreWaiting s (w ∷ ws) =
      (is_zombie (proc_of s.kernel (s.waits w).proc).state ≡ false)
      × ((proc_of s.kernel (s.waits w).proc).wait_state ≡ wt_ksem)
      × AreWaiting s ws

  -- What `up` leaves.
  abbrev pub Upped : Semaphore → List ℕ → Semaphore → Type 0
  Upped s [] t = t ≡ record s { value = s.value + 1 }
  Upped s (w ∷ ws) t =
      Woken C L s.kernel t.kernel (s.waits w).proc
      × (t.wait_queue ≡ ws)
      × (t.value ≡ s.value)
      × ((t.waits w).wakeup_flags ≡ wt_ksem)

  -- Over any policy that meets the laws, up of a semaphore on a sound scheduler, whose waiters are
  -- no zombies and wait for a semaphore, returns: without a waiter the value grows by one and
  -- nothing else changes; else the first waiter leaves the queue, its process is woken with the
  -- flag WT_KSEM and no other changes its state, and the value stays.
  pub up-Upped :
      (k : Kernel) (waits : ℕ → Wait) (queue : List ℕ) (value : ℕ)
      → IsSound C L k
      → let s : Semaphore = record {
        kernel = k;
        waits = waits;
        wait_queue = queue;
        value = value;
      } in
        AreWaiting s queue → Returns (Upped s queue) (up C s)
  unfolding up wakeup_wait wait_queue_del
  up-Upped k waits [] value v a = refl
  up-Upped k waits (w ∷ ws) value v a =
      let for_sem : ((proc_of k (waits w).proc).wait_state == wt_ksem) ≡ true =
        ground (arith, a.1) in
      let itself : (w == w) ≡ true = ground arith in
      rw (for_sem, itself)
        (Returns-bind (λ l. Woken C L k l (waits w).proc) _ (wakeup_proc C (waits w).proc k) _
          (wakeup_proc-Woken C L k (waits w).proc v a.0)
          λ l x. (x, refl, refl, ground (arith, itself)))
