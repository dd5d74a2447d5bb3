-- ===== src/Sched/Timers.antt =====
-- kern/schedule/sched.c: the timer list. A timer's `expires` counts from the timer before it, so
-- a tick of the clock changes the first one only. Also `do_sleep` of kern/process/proc.c up to the
-- switch, and its return.
pub mod Deadlines
pub mod Spec
pub mod Edit
pub mod Fire
pub mod Tick
use lcore.Base.{
  ℕ, suc, ◌+◌, ◌-◌, ◌/◌, ◌%◌, ◌^◌, Bool, true, false, not, ◌&&◌, List, [], ◌∷◌, Outcome, ok, panic,
  ◌>>=◌, ◌>>◌, assert, ltb, ◌==◌, if◌then◌else◌,
}
use lcore.Sched.Defs.{SchedClass, sleeping}
use lcore.Sched.Core.{
  Timer, Kernel, proc_of, interruptible, set_proc, schedule, wakeup_proc, sched_class_proc_tick,
}

-- Whether `timer_link` is in the list, that is, not `list_empty`.
abbrev pub linked : ℕ → List Timer → Bool
linked a [] = false
linked a (t ∷ ts) = if a == t.address then true else linked a ts

-- The loop of `add_timer` with the `list_add_before` that follows it.
unfoldable pub insert : Timer → List Timer → List Timer
insert t [] = t ∷ []
insert t (n ∷ ns) =
    let here = t ∷ record n { expires = n.expires - t.expires } ∷ ns in
    let later = n ∷ insert (record t { expires = t.expires - n.expires }) ns in
    if ltb t.expires n.expires then here else later

unfoldable pub add_timer : Timer → Kernel → Outcome Kernel
add_timer t k = do
  assert (ltb 0 t.expires && not (t.proc == 0))
  assert (not (linked t.address k.timer_list))
  ok (record k { timer_list = insert t k.timer_list })

-- `next->expires += timer->expires`, an `unsigned int`; nothing if the timer was the last.
abbrev pub hand_on : ℕ → List Timer → List Timer
hand_on e [] = []
hand_on e (n ∷ ns) = record n { expires = (n.expires + e) % 2 ^ 32 } ∷ ns

-- Unlinks the timer at the address. (With `expires` 0 the source skips an addition of 0.)
unfoldable pub delete : ℕ → List Timer → List Timer
delete a [] = []
delete a (t ∷ ts) =
    if a == t.address
    then (if t.expires == 0 then ts else hand_on t.expires ts)
    else t ∷ delete a ts

unfoldable pub del_timer : ℕ → Kernel → Kernel
del_timer a k = if linked a k.timer_list then record k { timer_list = delete a k.timer_list } else k

-- `timer->expires --` on the first timer.
unfoldable pub advance : List Timer → Outcome (List Timer)
advance [] = ok []
advance (t ∷ ts) = do assert (not (t.expires == 0)); ok (record t { expires = t.expires - 1 } ∷ ts)

module _ (C : SchedClass) where
  -- One round of the `while` loop: the process of an expired timer is woken, the timer unlinked.
  unfoldable pub fire : Timer → Kernel → Outcome Kernel
  fire t k = do
    let w = (proc_of k t.proc).wait_state
    assert (if w == 0 then true else interruptible w)
    k' ← wakeup_proc C t.proc k
    ok (del_timer t.address k')

  -- The `while` loop over the timers `ts`, the list as it stood when the loop began.
  unfoldable pub fire_all : List Timer → Kernel → Outcome Kernel
  fire_all [] k = ok k
  fire_all (t ∷ ts) k = if t.expires == 0 then fire t k >>= fire_all ts else ok k

  unfoldable pub run_timer_list : Kernel → Outcome Kernel
  run_timer_list k = do
    ts ← advance k.timer_list
    k' ← fire_all ts (record k { timer_list = ts })
    ok (sched_class_proc_tick C k'.current k')

  -- `WT_TIMER`
  abbrev pub wt_timer : ℕ
  wt_timer = 0x80000002

  -- `do_sleep` until it is switched out; the timer is a variable on the caller's stack, at `a`.
  -- The answer says whether the process sleeps: with no time to sleep it returns at once.
  unfoldable pub do_sleep : (a time : ℕ) → Kernel → Outcome (Bool × Kernel)
  do_sleep a time k = if time == 0 then ok (false, k) else (do
    let p = proc_of k k.current
    k' ←
        add_timer (record { address = a; expires = time; proc = k.current })
          (set_proc k.current (record p { state = sleeping; wait_state = wt_timer }) k)
    k'' ← schedule C k'
    ok (true, k''))

  -- The rest of it, when the process runs again.
  unfoldable pub do_sleep_end : ℕ → Kernel → Kernel
  do_sleep_end a k = del_timer a k
