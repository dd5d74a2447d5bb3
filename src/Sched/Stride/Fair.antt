-- ===== src/Sched/Stride/Fair.antt =====
-- kern/schedule/stride_sched.c: the process that is picked is the least, and the pool stays a heap.
use lcore.Base.{
  ℕ, ◌+◌, ◌-◌, ◌%◌, ◌^◌, ◌≤◌, ◌<◌, ◌≡◌, refl, sym, subst, true, false, some, arith, Returns, ltb,
  ◌==◌, mem, mem-append, update, Bool-cases, inl, inr,
}
use native.Mathlib.Nat.{div-le_self}
use lcore.Sched.Defs.{Proc, Procs, Ready, Pool, null, node}
use lcore.Sched.Stride.{
  big_stride, skew_heap_insert, skew_heap_remove, stride_before, stride_enqueue, stride_dequeue,
  stride_pick_next, pick_root, refilled, passed,
}
use lcore.Sched.Stride.Heap.{elements, copies, mem-elements}
use lcore.Sched.Stride.Laws.{Counted}
use lcore.Sched.Stride.Order.{
  offset, IsHeap, IsHeap-least, IsHeap-shift, IsHeap-merge, stride_before-offset,
}

-- The pool is a heap in the window that starts at `base`.
pub record IsFair (base : ℕ) (r : Ready) : Type 0 where
  pub start : base < 2 ^ 32
  pub strides : (b : ℕ) → (r.procs b).lab6_stride < 2 ^ 32
  pub heap : IsHeap (offset r.procs base) 0 r.queue.lab6_run_pool

fair-agree :
    (base : ℕ) (r : Ready)
    → IsFair base r
    → (a b : ℕ) → offset r.procs base a ≤ big_stride
    → offset r.procs base b ≤ big_stride
    → stride_before r.procs a b ≡ ltb (offset r.procs base a) (offset r.procs base b)
fair-agree base r v a b = stride_before-offset r.procs base a b v.start (v.strides a) (v.strides b)

-- While the strides of the pool lie within BIG_STRIDE of a base, stride_enqueue of a process
-- within the same window returns, and the pool stays a heap in it.
pub stride_enqueue-IsFair :
    (base a : ℕ) (r : Ready)
    → IsFair base r
    → offset r.procs base a ≤ big_stride
    → Returns (IsFair base) (stride_enqueue a r)
unfolding stride_enqueue skew_heap_insert refilled
stride_enqueue-IsFair base a r v h = record {
  start = v.start;
  strides = λ b. ground (arith, v.strides b, v.strides a);
  heap =
      IsHeap-shift far _ 0 0 _ (omega arith) (λ b m c d. ground arith)
        (IsHeap-merge (stride_before r.procs) far (fair-agree base r v) 0 r.queue.lab6_run_pool
          (node a null null) v.heap (omega arith, h, tt, tt));
}
  where
    far : ℕ → ℕ
    far = offset r.procs base

-- `a` was picked and taken out: it was the least, the window now starts at its old stride, and it
-- is in the window for its return.
pub record Taken (base a : ℕ) (r s : Ready) : Type 0 where
  pub least :
      (b : ℕ)
      → mem b (elements r.queue.lab6_run_pool) ≡ true
      → offset r.procs base a ≤ offset r.procs base b
  pub fair : IsFair (r.procs a).lab6_stride s
  pub back : offset s.procs (r.procs a).lab6_stride a ≤ big_stride

-- The others keep their distance when the window moves up to `a`.
offset-passed :
    (base a b : ℕ) (r : Ready)
    → IsFair base r
    → offset r.procs base a ≤ offset r.procs base b
    → offset r.procs base b ≤ big_stride
    → offset r.procs (r.procs a).lab6_stride b + offset r.procs base a ≡ offset r.procs base b
offset-passed base a b r v h i = omega (arith, h, i, v.start, v.strides a, v.strides b)

passed-offset :
    (p : Proc)
    → p.lab6_stride < 2 ^ 32
    → ((passed p).lab6_stride + 2 ^ 32 - p.lab6_stride) % 2 ^ 32 ≤ big_stride
unfolding passed
passed-offset p h = elim (Bool-cases (p.lab6_priority == 0)) [
  | inl e ↦ rw e (omega (arith, h))
  | inr e ↦ rw e (omega (arith, h, div-le_self big_stride p.lab6_priority))
]

passed-stride : (p : Proc) → (passed p).lab6_stride < 2 ^ 32
unfolding passed
passed-stride p = omega arith

-- A part of the pool below `a`, and without it.
below-IsHeap :
    (base a : ℕ) (r : Ready) (t : Pool)
    → IsFair base r
    → IsHeap (offset r.procs base) (offset r.procs base a) t
    → mem a (elements t) ≡ false
    → IsHeap (offset (update r.procs a (passed (r.procs a))) (r.procs a).lab6_stride) 0 t
below-IsHeap base a r t v h out =
    let low : offset r.procs base a - offset r.procs base a ≡ 0 = omega arith in
    rw low at (
      IsHeap-shift (offset r.procs base)
        (offset (update r.procs a (passed (r.procs a))) (r.procs a).lab6_stride)
        (offset r.procs base a) (offset r.procs base a) t (omega arith)
        (λ b m c d.
          let other : (b == a) ≡ false = ground arith in rw other (offset-passed base a b r v c d))
        h)

-- What is left of the pool, `a` being its root.
Taken-root :
    (base a : ℕ) (l q : Pool) (r : Ready)
    → IsFair base r
    → r.queue.lab6_run_pool ≡ node a l q
    → ((b : ℕ) → copies b (node a l q) ≤ 1)
    → Returns
        (Taken base a r)
        (stride_dequeue a (record r { procs = update r.procs a (passed (r.procs a)) }))
unfolding stride_dequeue skew_heap_remove copies
Taken-root base a l q r v e once =
    let h : IsHeap far 0 (node a l q) = subst (λ t. IsHeap far 0 t) e (v.heap) in
    let same : (a == a) ≡ true = ground arith in
    let gone_l : mem a (elements l) ≡ false = ground (arith, mem-elements a l, once a) in
    let gone_q : mem a (elements q) ≡ false = ground (arith, mem-elements a q, once a) in
    let bounded : (b : ℕ) → (after b).lab6_stride < 2 ^ 32 =
      λ b. ground (arith, v.strides b, passed-stride (r.procs a)) in
    rw (e, same)
      (record {
        least = λ b m. ground (
          arith,
          mem-append b (elements l) (elements q),
          IsHeap-least far (far a) l b h.2,
          IsHeap-least far (far a) q b h.3,
        );
        fair = record {
          start = v.strides a;
          strides = bounded;
          heap =
              IsHeap-merge (stride_before after) (offset after (r.procs a).lab6_stride)
                (λ x y.
                  stride_before-offset after (r.procs a).lab6_stride x y (v.strides a) (bounded x)
                    (bounded y))
                0 l q (below-IsHeap base a r l v h.2 gone_l) (below-IsHeap base a r q v h.3 gone_q);
        };
        back = rw same (passed-offset (r.procs a) (v.strides a));
      })
  where
    far : ℕ → ℕ
    far = offset r.procs base

    after : Procs
    after = update r.procs a (passed (r.procs a))

-- While the strides of the pool lie within BIG_STRIDE of a base, wrap-around included, and every
-- process is in the pool once: the process that stride_pick_next picks is the one least far from
-- the base, and when it is taken out by stride_dequeue the pool is a heap in the window that
-- starts at its old stride, in which it lies itself with its new one.
pub stride_pick_next-Taken :
    (base a : ℕ) (r : Ready)
    → IsFair base r
    → Counted r
    → (stride_pick_next r).0 ≡ some a
    → Returns (Taken base a r) (stride_dequeue a (stride_pick_next r).1)
unfolding stride_pick_next
stride_pick_next-Taken base a r v once e = of_root r.queue.lab6_run_pool refl e
  where
    of_root :
        (t : Pool)
        → r.queue.lab6_run_pool ≡ t
        → (pick_root t r).0 ≡ some a
        → Returns (Taken base a r) (stride_dequeue a (pick_root t r).1)
    of_root null w i = ground arith
    of_root (node x l q) w i =
        let root : x ≡ a = ground arith in
        subst
          (λ y.
            Returns (Taken base a r)
              (stride_dequeue a (record r { procs = update r.procs y (passed (r.procs y)) })))
          (sym root)
          (Taken-root base a l q r v (rw (sym root) w) (λ b. rw (sym root, sym w) (once.once b)))
