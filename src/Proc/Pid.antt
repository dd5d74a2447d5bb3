-- ===== src/Proc/Pid.antt =====
-- `get_pid` answers a number that no process has, and ends while there is one.
use lcore.Base.{
  ℕ, zero, suc, ◌+◌, ◌-◌, ◌%◌, ◌≤◌, ◌<◌, ◌≡◌, refl, false, ◌&&◌, Option, none, some, List, [], ◌∷◌,
  arith, ltb, leb, ◌==◌, if◌then◌else◌, mem, AllOf, AllOf-map, Bool-cases, inl, inr,
}
use lcore.Proc.{max_pid, Walk, repeat, finished, walk_list, search_pid, get_pid}

-- A process neither has `last` nor a number between `last` and `next`.
abbrev pub Clear : (last next pid : ℕ) → Type 0
Clear last next pid = ((pid == last) ≡ false) × ((ltb last pid && ltb pid next) ≡ false)

abbrev pub IsPid : ℕ → Type 0
IsPid pid = (0 < pid) × (pid < max_pid)

-- How many steps it is from `last` up to `free`, past the end and on from 1.
abbrev distance : (free last : ℕ) → ℕ
distance free last = (free + 8191 - last) % 8191

-- What a walk from `last` finds: all is clear, or it is nearer to the free number.
abbrev Walked : (free last : ℕ) → (seen pids : List ℕ) → Walk → Type 0
Walked free last seen pids (repeat l) = IsPid l × (distance free l < distance free last)
Walked free last seen pids (finished l n) =
    IsPid l × (l < n) × (n ≤ max_pid) × AllOf (Clear l n) seen × AllOf (Clear l n) pids

Walked-nearer :
    (free last before : ℕ) (seen pids : List ℕ) (pid : ℕ) (w : Walk)
    → distance free last ≤ distance free before
    → Walked free last (pid ∷ seen) pids w
    → Walked free before seen (pid ∷ pids) w
Walked-nearer free last before seen pids pid (repeat l) h v = (v.0, omega (arith, v.1, h))
Walked-nearer free last before seen pids pid (finished l n) h v =
    (v.0, v.1, v.2, (v.3).1, ((v.3).0, v.4))

step_closer :
    (free last : ℕ)
    → IsPid free
    → IsPid last
    → ((free ≡ last) → ⊥)
    → last + 1 < max_pid
    → distance free (last + 1) ≤ distance free last
step_closer free last f p apart h = omega (arith, f.0, f.1, p.0, p.1)

wrapped-Walked :
    (free last : ℕ)
    → IsPid free
    → IsPid last
    → ((free ≡ last) → ⊥)
    → let l = if leb max_pid (last + 1) then 1 else last + 1 in
      IsPid l × (distance free l < distance free last)
wrapped-Walked free last f p apart = elim (Bool-cases (leb max_pid (last + 1))) [
  | inl over ↦
      let same : last ≡ 8191 = ground arith in
      rw over ((omega arith, omega arith), omega (arith, f.0, f.1, same, apart))
  | inr under ↦
      let less : last + 1 < max_pid = ground arith in
      rw under ((omega arith, less), omega (arith, f.0, f.1, p.0, p.1))
]

walk_list-Walked :
    (free : ℕ) (seen pids : List ℕ) (last next : ℕ)
    → IsPid free
    → mem free pids ≡ false
    → IsPid last
    → last < next
    → next ≤ max_pid
    → AllOf (Clear last next) seen
    → Walked free last seen pids (walk_list pids last next)
unfolding walk_list
walk_list-Walked free seen [] last next f m p h k clear = (p, h, k, clear, tt)
walk_list-Walked free seen (pid ∷ pids) last next f m p h k clear =
    let out : mem free pids ≡ false = ground arith in
    elim (Bool-cases (pid == last)) [
      | inl taken ↦
          let apart : (free ≡ last) → ⊥ = ground arith in
          elim (Bool-cases (leb next (last + 1))) [
            | inl over ↦ rw (taken, over) (wrapped-Walked free last f p apart)
            | inr room ↦
                rw (taken, room)
                  (Walked-nearer free (last + 1) last seen pids pid (walk_list pids (last + 1) next)
                    (step_closer free last f p apart (ground arith))
                    (walk_list-Walked free (pid ∷ seen) pids (last + 1) next f out (ground arith)
                      (ground arith) k
                      (ground arith, AllOf-map _ _ seen (λ q c. ground arith) clear)))
          ]
      | inr other ↦ elim (Bool-cases (ltb last pid && ltb pid next)) [
        | inl between ↦
            rw (other, between)
              (Walked-nearer free last last seen pids pid (walk_list pids last pid) (omega arith) (
                walk_list-Walked free (pid ∷ seen) pids last pid f out p (ground arith)
                  (ground arith) (ground arith, AllOf-map _ _ seen (λ q c. ground arith) clear)))
        | inr apart ↦
            rw (other, apart)
              (Walked-nearer free last last seen pids pid (walk_list pids last next) (omega arith) (
                walk_list-Walked free (pid ∷ seen) pids last next f out p h k
                  ((other, apart), clear)))
      ]
    ]

-- What `get_pid` promises, and what it relies on the next time.
abbrev pub Found : List ℕ → Option (ℕ × ℕ) → Type 0
Found pids none = ⊥
Found pids (some (l, n)) =
    IsPid l × (mem l pids ≡ false) × (l < n) × (n ≤ max_pid) × AllOf (Clear l n) pids

Clear-mem : (l n : ℕ) (pids : List ℕ) → AllOf (Clear l n) pids → mem l pids ≡ false
Clear-mem l n [] c = refl
Clear-mem l n (pid ∷ pids) c = ground (arith, Clear-mem l n pids c.1)

search_pid-Found :
    (free : ℕ) (pids : List ℕ) (fuel last : ℕ)
    → IsPid free
    → mem free pids ≡ false
    → IsPid last
    → distance free last < fuel
    → Found pids (search_pid fuel pids last)
unfolding search_pid
search_pid-Found free pids zero last f m p h = absurd (omega (arith, h))
search_pid-Found free pids (suc fuel) last f m p h =
    on (walk_list pids last max_pid)
      (walk_list-Walked free [] pids last max_pid f m p p.1 (omega arith) tt)
      (λ l q d. search_pid-Found free pids fuel l f m q (omega (arith, d, h)))
  where
    on :
        (w : Walk)
        → Walked free last [] pids w
        → ((l : ℕ)
            → IsPid l
            → distance free l < distance free last
            → Found pids (search_pid fuel pids l))
        → Found pids (elim w [ repeat l ↦ search_pid fuel pids l | finished l n ↦ some (l, n) ])
    on (repeat l) v again = again l v.0 v.1
    on (finished l n) v again = (v.0, Clear-mem l n pids v.4, v.1, v.2, v.4)

-- Between two calls: no process has a number between the two that are kept.
pub record IsKept (pids : List ℕ) (last next : ℕ) : Type 0 where
  pub positive : 0 < last
  pub bounded : last ≤ max_pid
  pub limit : next ≤ max_pid
  pub gap : AllOf (λ pid. (ltb last pid && ltb pid next) ≡ false) pids

-- While some number is free, and no process has one strictly between the two that are kept from
-- the last call, get_pid ends within max_pid rounds and answers a number from 1 to max_pid - 1
-- that no process has; again no process has one between the two that are kept now.
pub get_pid-Found :
    (free : ℕ) (pids : List ℕ) (last next : ℕ)
    → IsPid free
    → mem free pids ≡ false
    → IsKept pids last next
    → Found pids (get_pid max_pid pids last next)
unfolding get_pid
get_pid-Found free pids last next f m k = elim (Bool-cases (leb max_pid (last + 1))) [
  | inl over ↦
      rw over (search_pid-Found free pids max_pid 1 f m (omega arith, omega arith) (omega arith))
  | inr under ↦
      let less : last + 1 < max_pid = ground arith in
      elim (Bool-cases (leb next (last + 1))) [
        | inl past ↦
            rw (under, past)
              (search_pid-Found free pids max_pid (last + 1) f m (omega arith, less) (omega arith))
        | inr before ↦
            let clear : AllOf (Clear (last + 1) next) pids =
              AllOf-map _ _ pids (λ q c. ground arith) k.gap in
            rw (under, before)
              (
                (omega arith, less),
                Clear-mem (last + 1) next pids clear,
                ground arith,
                k.limit,
                clear,
              )
      ]
]
