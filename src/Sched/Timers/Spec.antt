-- ===== src/Sched/Timers/Spec.antt =====
-- What a tick does to the timers: those at the front that expire, and the deadlines left.
use lcore.Base.{ℕ, ◌+◌, ◌-◌, ◌<◌, ◌≤◌, ◌≡◌, refl, List, [], ◌∷◌, ◌^◌, arith, ◌==◌, if◌then◌else◌}
use lcore.Sched.Core.{Timer, Kernel}
use lcore.Sched.Timers.{delete, del_timer}
use lcore.Sched.Timers.Deadlines.{deadlines, total}

-- The deadlines one tick later: those that are reached are gone.
abbrev pub elapse : List (ℕ × ℕ) → List (ℕ × ℕ)
elapse [] = []
elapse ((a, d) ∷ r) = if d == 1 then elapse r else (a, d - 1) ∷ elapse r

-- The processes whose deadline, counted from `b`, is the next tick.
abbrev pub due : ℕ → List Timer → List ℕ
due b [] = []
due b (t ∷ ts) =
    if b + t.expires == 1 then t.proc ∷ due (b + t.expires) ts else due (b + t.expires) ts

-- The first timer has not expired.
abbrev pub IsPending : List Timer → Type 0
IsPending [] = Unit {0}
IsPending (t ∷ ts) = 0 < t.expires

-- What the timer list keeps: the first has not expired, and the last deadline fits a word.
pub record IsTimed (ts : List Timer) : Type 0 where
  pub pending : IsPending ts
  pub fits : total ts < 2 ^ 32

-- The timers at the front that have expired, by their processes, and the others.
abbrev pub expired : List Timer → List ℕ
expired [] = []
expired (t ∷ ts) = if t.expires == 0 then t.proc ∷ expired ts else []

abbrev pub unexpired : List Timer → List Timer
unexpired [] = []
unexpired (t ∷ ts) = if t.expires == 0 then unexpired ts else t ∷ ts

elapse_later : (b : ℕ) (ts : List Timer) → 1 < b → deadlines (b - 1) ts ≡ elapse (deadlines b ts)
elapse_later b [] h = refl
elapse_later b (t ∷ ts) h = ground (arith, elapse_later (b + t.expires) ts)

elapse_one : (ts : List Timer) → deadlines 0 (unexpired ts) ≡ elapse (deadlines 1 ts)
elapse_one [] = refl
elapse_one (t ∷ ts) = ground (arith, elapse_one ts, elapse_later (1 + t.expires) ts)

due_later : (b : ℕ) (ts : List Timer) → 1 < b → due b ts ≡ []
due_later b [] h = refl
due_later b (t ∷ ts) h = ground (arith, due_later (b + t.expires) ts)

due_one : (ts : List Timer) → expired ts ≡ due 1 ts
due_one [] = refl
due_one (t ∷ ts) = ground (arith, due_one ts, due_later (1 + t.expires) ts)

-- `timer->expires --`
abbrev pub closer : Timer → Timer
closer t = record t { expires = t.expires - 1 }

pub due-closer :
    (t : Timer) (ts : List Timer) → 0 < t.expires → expired (closer t ∷ ts) ≡ due 0 (t ∷ ts)
due-closer t ts h = ground (arith, due_one ts, due_later t.expires ts)

pub deadlines-closer :
    (t : Timer) (ts : List Timer)
    → 0 < t.expires
    → deadlines 0 (unexpired (closer t ∷ ts)) ≡ elapse (deadlines 0 (t ∷ ts))
deadlines-closer t ts h = ground (arith, elapse_one ts, elapse_later t.expires ts)

pub del_timer_first :
    (l : Kernel) (t : Timer) (ts : List Timer)
    → l.timer_list ≡ t ∷ ts
    → t.expires ≡ 0
    → del_timer t.address l ≡ record l { timer_list = ts }
unfolding del_timer delete
del_timer_first l t ts e z = ground arith

unexpired-IsPending : (ts : List Timer) → IsPending (unexpired ts)
unexpired-IsPending [] = tt
unexpired-IsPending (t ∷ ts) = ground (arith, unexpired-IsPending ts)

total-unexpired : (ts : List Timer) → total (unexpired ts) ≤ total ts
total-unexpired [] = omega arith
total-unexpired (t ∷ ts) = ground (arith, total-unexpired ts)

pub unexpired-IsTimed :
    (t : Timer) (ts : List Timer) → IsTimed (t ∷ ts) → IsTimed (unexpired (closer t ∷ ts))
unexpired-IsTimed t ts v = record {
  pending = unexpired-IsPending (closer t ∷ ts);
  fits = omega (arith, total-unexpired (closer t ∷ ts), v.fits, v.pending);
}
