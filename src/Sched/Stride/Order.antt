-- ===== src/Sched/Stride/Order.antt =====
-- kern/schedule/stride_sched.c: while the strides lie in a window of `BIG_STRIDE`, the comparison
-- with wrap-around agrees with how far they are in the window, and the pool is a heap for it.
use lcore.Base.{
  ℕ, ◌+◌, ◌-◌, ◌%◌, ◌^◌, ◌≤◌, ◌<◌, ◌≡◌, Bool, true, arith, ltb, mem, mem-append, Bool-cases, inl,
  inr,
}
use lcore.Sched.Defs.{Procs, Pool, null, node}
use lcore.Sched.Stride.{big_stride, skew_heap_merge, stride_before}
use lcore.Sched.Stride.Heap.{elements}

-- How far a process's stride is beyond `base`.
abbrev pub offset : Procs → (base a : ℕ) → ℕ
offset procs base a = ((procs a).lab6_stride + 2 ^ 32 - base) % 2 ^ 32

-- No element is below its parent, nor below `lo`, and none is out of the window.
abbrev pub IsHeap : (far : ℕ → ℕ) (lo : ℕ) → Pool → Type 0
IsHeap far lo null = Unit {0}
IsHeap far lo (node a l r) =
    (lo ≤ far a) × (far a ≤ big_stride) × IsHeap far (far a) l × IsHeap far (far a) r

IsHeap-weaken :
    (far : ℕ → ℕ) (lo lower : ℕ) (t : Pool) → lower ≤ lo → IsHeap far lo t → IsHeap far lower t
IsHeap-weaken far lo lower null h v = tt
IsHeap-weaken far lo lower (node a l r) h v = (omega arith, v.1, v.2, v.3)

pub IsHeap-least :
    (far : ℕ → ℕ) (lo : ℕ) (t : Pool) (b : ℕ)
    → IsHeap far lo t
    → mem b (elements t) ≡ true
    → lo ≤ far b
IsHeap-least far lo null b v m = ground arith
IsHeap-least far lo (node a l r) b v m = ground (
  arith,
  mem-append b (elements l) (elements r),
  IsHeap-least far (far a) l b v.2,
  IsHeap-least far (far a) r b v.3,
)

-- The window moves up by `c`.
pub IsHeap-shift :
    (far near : ℕ → ℕ) (lo c : ℕ) (t : Pool)
    → c ≤ lo
    → ((b : ℕ) → mem b (elements t) ≡ true → c ≤ far b → far b ≤ big_stride → near b + c ≡ far b)
    → IsHeap far lo t
    → IsHeap near (lo - c) t
IsHeap-shift far near lo c null h same v = tt
IsHeap-shift far near lo c (node a l r) h same v =
    let here : near a + c ≡ far a = same a (ground arith) (omega arith) (v.1) in
    let low : far a - c ≡ near a = omega arith in
    (
      omega arith,
      omega arith,
      rw low at (
          IsHeap-shift far near (far a) c l (omega arith)
            (λ b m. same b (ground (arith, mem-append b (elements l) (elements r)))) v.2),
      rw low at (
          IsHeap-shift far near (far a) c r (omega arith)
            (λ b m. same b (ground (arith, mem-append b (elements l) (elements r)))) v.3),
    )

module _ (less : ℕ → ℕ → Bool) (far : ℕ → ℕ)
    (agree : (a b : ℕ)
      → far a ≤ big_stride
      → far b ≤ big_stride
      → less a b ≡ ltb (far a) (far b)) where
  pub IsHeap-merge :
      (lo : ℕ) (s t : Pool)
      → IsHeap far lo s
      → IsHeap far lo t
      → IsHeap far lo (skew_heap_merge less s t)
  unfolding skew_heap_merge
  IsHeap-merge lo null t u v = v
  IsHeap-merge lo (node x l r) null u v = u
  IsHeap-merge lo (node x l r) (node y l' r') u v = elim (Bool-cases (less x y)) [
    | inl e ↦
        let order : far x ≤ far y = ground (arith, agree x y u.1 v.1) in
        rw (e, IsHeap)
          (u.0, u.1, IsHeap-merge (far x) r (node y l' r') u.3 (order, v.1, v.2, v.3), u.2)
    | inr e ↦
        let order : far y ≤ far x = ground (arith, agree x y u.1 v.1) in
        rw (e, IsHeap)
          (v.0, v.1, IsHeap-merge (far y) (node x l r) r' (order, u.1, u.2, u.3) v.3, v.2)
  ]

pub stride_before-offset :
    (procs : Procs) (base a b : ℕ)
    → base < 2 ^ 32
    → (procs a).lab6_stride < 2 ^ 32
    → (procs b).lab6_stride < 2 ^ 32
    → offset procs base a ≤ big_stride
    → offset procs base b ≤ big_stride
    → stride_before procs a b ≡ ltb (offset procs base a) (offset procs base b)
stride_before-offset procs base a b h i j k l = ground arith
