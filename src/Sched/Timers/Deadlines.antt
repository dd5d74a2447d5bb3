-- ===== src/Sched/Timers/Deadlines.antt =====
-- The timer list against the deadlines that it stands for.
use lcore.Base.{ℕ, ◌+◌, ◌-◌, ◌^◌, ◌<◌, ◌≡◌, refl, List, [], ◌∷◌, arith, ltb, ◌==◌, if◌then◌else◌}
use lcore.Sched.Core.{Timer}
use lcore.Sched.Timers.{insert, delete}

-- The timers with the ticks until they expire, counted from `b` on.
abbrev pub deadlines : ℕ → List Timer → List (ℕ × ℕ)
deadlines b [] = []
deadlines b (t ∷ ts) = (t.address, b + t.expires) ∷ deadlines (b + t.expires) ts

-- Insertion behind every earlier or equal deadline.
abbrev pub insert_at : ℕ × ℕ → List (ℕ × ℕ) → List (ℕ × ℕ)
insert_at (a, d) [] = (a, d) ∷ []
insert_at (a, d) ((c, e) ∷ r) = if ltb d e then (a, d) ∷ (c, e) ∷ r else (c, e) ∷ insert_at (a, d) r

abbrev pub remove_at : ℕ → List (ℕ × ℕ) → List (ℕ × ℕ)
remove_at a [] = []
remove_at a ((c, e) ∷ r) = if a == c then r else (c, e) ∷ remove_at a r

-- The last deadline.
abbrev pub total : List Timer → ℕ
total [] = 0
total (t ∷ ts) = t.expires + total ts

-- `add_timer` puts the timer at its deadline and moves no other deadline.
pub deadlines-insert :
    (b : ℕ) (t : Timer) (ts : List Timer)
    → deadlines b (insert t ts) ≡ insert_at (t.address, b + t.expires) (deadlines b ts)
unfolding insert
deadlines-insert b t [] = refl
deadlines-insert b t (n ∷ ns) =
    ground
      (arith, deadlines-insert (b + n.expires) (record t { expires = t.expires - n.expires }) ns)

-- `del_timer` moves no other deadline, if the deadlines fit a word.
pub deadlines-delete :
    (b a : ℕ) (ts : List Timer)
    → total ts < 2 ^ 32
    → deadlines b (delete a ts) ≡ remove_at a (deadlines b ts)
unfolding delete
deadlines-delete b a [] h = refl
deadlines-delete b a (t ∷ []) h = ground (arith)
deadlines-delete b a (t ∷ n ∷ ns) h = ground (arith, deadlines-delete (b + t.expires) a (n ∷ ns))
