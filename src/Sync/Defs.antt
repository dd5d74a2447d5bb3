-- ===== src/Sync/Defs.antt =====
-- kern/sync/wait.c and kern/sync/sem.c: a wait queue, whose entries `wait_t` are named by their
-- addresses, and a semaphore over it. Interrupts are off in each function, so each is one step; the
-- two halves of `__down` are what it does before and after another process runs.
use lcore.Base.{
  ℕ, ◌+◌, ◌-◌, ◌^◌, Bool, true, false, not, ◌&&◌, Option, none, some, List, [], ◌∷◌, ◌++◌, Outcome,
  ok, ◌>>=◌, ◌>>◌, assert, ltb, ◌==◌, if◌then◌else◌, mem, remove, update,
}
use lcore.Sched.Defs.{SchedClass, sleeping}
use lcore.Sched.Core.{Kernel, proc_of, set_proc, wakeup_proc, schedule}

-- `wait_t`; its link says whether it is in the queue.
pub record Wait : Type 0 where
  pub proc : ℕ
  pub wakeup_flags : ℕ

-- `value` is an `int` that is decremented only while positive.
pub record Semaphore : Type 0 where
  pub kernel : Kernel
  pub waits : ℕ → Wait
  pub wait_queue : List ℕ
  pub value : ℕ

abbrev pub wt_interrupted : ℕ
wt_interrupted = 2 ^ 31

-- `WT_KSEM`
abbrev pub wt_ksem : ℕ
wt_ksem = 0x100

unfoldable pub sem_init : ℕ → Semaphore → Semaphore
sem_init value s = record s { value = value; wait_queue = [] }

unfoldable pub wait_init : (w proc : ℕ) → Semaphore → Semaphore
wait_init w proc s = record s {
  waits = update s.waits w (record { proc = proc; wakeup_flags = wt_interrupted });
}

unfoldable pub wait_queue_add : ℕ → Semaphore → Outcome Semaphore
wait_queue_add w s = do
  assert (not (mem w s.wait_queue) && not ((s.waits w).proc == 0))
  ok (record s { wait_queue = s.wait_queue ++ w ∷ [] })

unfoldable pub wait_queue_del : ℕ → Semaphore → Outcome Semaphore
wait_queue_del w s = do
  assert (mem w s.wait_queue)
  ok (record s { wait_queue = remove w s.wait_queue })

abbrev pub wait_queue_first : List ℕ → Option ℕ
wait_queue_first [] = none
wait_queue_first (w ∷ ws) = some w

unfoldable pub wait_in_queue : ℕ → Semaphore → Bool
wait_in_queue w s = mem w s.wait_queue

unfoldable pub wait_current_set : (w wait_state : ℕ) → Semaphore → Outcome Semaphore
wait_current_set w wait_state s = do
  let k = s.kernel
  assert (not (k.current == 0))
  let p = proc_of k k.current
  let k' = set_proc k.current (record p { state = sleeping; wait_state = wait_state }) k
  wait_queue_add w (wait_init w k.current (record s { kernel = k' }))

unfoldable pub wait_current_del : ℕ → Semaphore → Outcome Semaphore
wait_current_del w s = if wait_in_queue w s then wait_queue_del w s else ok s

unfoldable pub try_down : Semaphore → Bool × Semaphore
try_down s = if ltb 0 s.value then (true, record s { value = s.value - 1 }) else (false, s)

module _ (C : SchedClass) where
  unfoldable pub wakeup_wait : (w flags : ℕ) → (del : Bool) → Semaphore → Outcome Semaphore
  wakeup_wait w flags del s = do
    t ← if del then wait_queue_del w s else ok s
    k ← wakeup_proc C (t.waits w).proc t.kernel
    ok (record t {
      kernel = k;
      waits = update t.waits w (record (t.waits w) { wakeup_flags = flags });
    })

  abbrev pub wakeup_found : (flags : ℕ) → Bool → Option ℕ → Semaphore → Outcome Semaphore
  wakeup_found flags del none s = ok s
  wakeup_found flags del (some w) s = wakeup_wait w flags del s

  unfoldable pub wakeup_first : (flags : ℕ) → (del : Bool) → Semaphore → Outcome Semaphore
  wakeup_first flags del s = wakeup_found flags del (wait_queue_first s.wait_queue) s

  -- `__up` with the first of the queue.
  abbrev pub up_found : (wait_state : ℕ) → Option ℕ → Semaphore → Outcome Semaphore
  up_found wait_state none s = ok (record s { value = s.value + 1 })
  up_found wait_state (some w) s = do
    assert ((proc_of s.kernel (s.waits w).proc).wait_state == wait_state)
    wakeup_wait w wait_state true s

  unfoldable pub up : Semaphore → Outcome Semaphore
  up s = up_found wt_ksem (wait_queue_first s.wait_queue) s

  -- `__down` until another process runs; `w` is the `wait_t` on the caller's stack. The answer says
  -- whether the caller waits.
  unfoldable pub down_start : (w wait_state : ℕ) → Semaphore → Outcome (Bool × Semaphore)
  down_start w wait_state s =
      if ltb 0 s.value then ok (false, record s { value = s.value - 1 }) else (do
        t ← wait_current_set w wait_state s
        k ← schedule C t.kernel
        ok (true, record t { kernel = k }))

  -- The rest of `__down`, when the caller runs again.
  unfoldable pub down_end : (w wait_state : ℕ) → Semaphore → Outcome (ℕ × Semaphore)
  down_end w wait_state s = do
    t ← wait_current_del w s
    let flags = (t.waits w).wakeup_flags
    ok (if flags == wait_state then 0 else flags, t)
