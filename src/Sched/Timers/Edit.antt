-- ===== src/Sched/Timers/Edit.antt =====
-- `add_timer` and `del_timer` against the deadlines.
use lcore.Base.{
  ℕ, ◌+◌, ◌-◌, ◌^◌, ◌≤◌, ◌<◌, ◌≡◌, ◌≢◌, refl, sym, Bool-cases, inl, inr, true, false, List, [], ◌∷◌,
  arith, Returns, ltb, ◌==◌,
}
use lcore.Sched.Core.{Timer, Kernel}
use lcore.Sched.Timers.{linked, insert, delete, add_timer, del_timer}
use lcore.Sched.Timers.Deadlines.{
  deadlines, total, insert_at, remove_at, deadlines-insert, deadlines-delete,
}
use lcore.Sched.Timers.Spec.{IsPending, IsTimed}

total-insert :
    (t : Timer) (ts : List Timer) (n : ℕ) → t.expires < n → total ts < n → total (insert t ts) < n
unfolding insert
total-insert t [] n h k = ground arith
total-insert t (x ∷ ts) n h k =
    ground (arith, total-insert (record t { expires = t.expires - x.expires }) ts (n - x.expires))

insert-IsPending :
    (t : Timer) (ts : List Timer) → 0 < t.expires → IsPending ts → IsPending (insert t ts)
unfolding insert
insert-IsPending t [] h p = h
insert-IsPending t (x ∷ ts) h p = ground arith

insert-IsTimed :
    (t : Timer) (ts : List Timer)
    → 0 < t.expires
    → t.expires < 2 ^ 32
    → IsTimed ts
    → IsTimed (insert t ts)
insert-IsTimed t ts h k v = record {
  pending = insert-IsPending t ts h v.pending;
  fits = total-insert t ts (2 ^ 32) k v.fits;
}

total-delete : (a : ℕ) (ts : List Timer) → total ts < 2 ^ 32 → total (delete a ts) ≤ total ts
unfolding delete
total-delete a [] h = omega arith
total-delete a (t ∷ []) h = ground arith
total-delete a (t ∷ n ∷ ns) h = ground (arith, total-delete a (n ∷ ns))

delete-IsPending :
    (a : ℕ) (ts : List Timer) → total ts < 2 ^ 32 → IsPending ts → IsPending (delete a ts)
unfolding delete
delete-IsPending a [] h p = tt
delete-IsPending a (t ∷ []) h p = ground arith
delete-IsPending a (t ∷ n ∷ ns) h p = ground arith

remove_at-unlinked :
    (b a : ℕ) (ts : List Timer)
    → linked a ts ≡ false
    → remove_at a (deadlines b ts) ≡ deadlines b ts
remove_at-unlinked b a [] h = refl
remove_at-unlinked b a (t ∷ ts) h = ground (arith, remove_at-unlinked (b + t.expires) a ts)

-- add_timer of an unlinked timer with a process and a time to wait returns; the timer stands at
-- its deadline, behind those that are not later, no other deadline has moved, and the list stays
-- timed.
pub add_timer-insert_at :
    (t : Timer) (k : Kernel)
    → 0 < t.expires
    → t.expires < 2 ^ 32
    → t.proc ≢ 0
    → linked t.address k.timer_list ≡ false
    → IsTimed k.timer_list
    → Returns
        (λ l.
          (deadlines 0 l.timer_list ≡ insert_at (t.address, t.expires) (deadlines 0 k.timer_list))
          × IsTimed l.timer_list)
        (add_timer t k)
unfolding add_timer
add_timer-insert_at t k h s p u v =
    let some_time : ltb 0 t.expires ≡ true = ground arith in
    let some_proc : (t.proc == 0) ≡ false = ground arith in
    let from_zero : 0 + t.expires ≡ t.expires = omega arith in
    rw (some_time, some_proc, u)
      (rw from_zero at (deadlines-insert 0 t k.timer_list), insert-IsTimed t k.timer_list h s v)

-- del_timer on a timed list removes the deadline of the timer, if it has one, moves no other, and
-- the list stays timed.
pub del_timer-remove_at :
    (a : ℕ) (k : Kernel)
    → IsTimed k.timer_list
    → let l = del_timer a k in
      (deadlines 0 l.timer_list ≡ remove_at a (deadlines 0 k.timer_list)) × IsTimed l.timer_list
unfolding del_timer
del_timer-remove_at a k v = elim (Bool-cases (linked a k.timer_list)) [
  | inl is_in ↦ rw is_in (
    deadlines-delete 0 a k.timer_list v.fits,
    record {
      pending = delete-IsPending a k.timer_list v.fits v.pending;
      fits = omega (arith, total-delete a k.timer_list v.fits, v.fits);
    },
  )
  | inr out ↦ rw out (sym (remove_at-unlinked 0 a k.timer_list out), v)
]
