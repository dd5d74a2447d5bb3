-- ===== src/Sched/Stride.antt =====
-- kern/schedule/stride_sched.c with libs/skew_heap.h: the stride policy, whose run queue is a heap
-- of processes. `parent` pointers are those of the tree.
pub mod Heap
pub mod Order
pub mod Laws
pub mod Fair
pub mod Tests
use lcore.Base.{
  ℕ, ◌+◌, ◌-◌, ◌/◌, ◌%◌, ◌^◌, Bool, true, false, ◌&&◌, ◌||◌, Option, none, some, Outcome, ok, panic,
  ◌>>=◌, ltb, leb, ◌==◌, if◌then◌else◌, update, [],
}
use lcore.Sched.Defs.{Proc, Procs, Pool, null, node, RunQueue, Ready, SchedClass, inc32, dec32}

-- `BIG_STRIDE`
abbrev pub big_stride : ℕ
big_stride = 0x7fffffff

-- Whether `proc_stride_comp_f` answers -1: the difference is negative as an `int32_t`.
abbrev pub stride_before : Procs → (a b : ℕ) → Bool
stride_before procs a b =
    leb (2 ^ 31) (((procs a).lab6_stride + 2 ^ 32 - (procs b).lab6_stride) % 2 ^ 32)

-- The merged heap keeps its root, and swaps its subtrees.
unfoldable pub skew_heap_merge : (less : ℕ → ℕ → Bool) → Pool → Pool → Pool
skew_heap_merge less null b = b
skew_heap_merge less (node x l r) null = node x l r
skew_heap_merge less (node x l r) (node y l' r') = elim (less x y) [
  | true ↦ node x (skew_heap_merge less r (node y l' r')) l
  | false ↦ node y (skew_heap_merge less (node x l r) r') l'
]

unfoldable pub skew_heap_insert : (less : ℕ → ℕ → Bool) → Pool → ℕ → Pool
skew_heap_insert less t b = skew_heap_merge less t (node b null null)

-- The entry `b` gives its place to what is below it; `none` where it is not in the heap.
unfoldable pub skew_heap_remove : (less : ℕ → ℕ → Bool) → Pool → ℕ → Option Pool
skew_heap_remove less null b = none
skew_heap_remove less (node x l r) b =
    let on_left = skew_heap_remove less l b in
    let on_right = skew_heap_remove less r b in
    if x == b then some (skew_heap_merge less l r) else elim on_left [
      | some l' ↦ some (node x l' r)
      | none ↦ elim on_right [ some r' ↦ some (node x l r') | none ↦ none ]
    ]

unfoldable pub stride_init : RunQueue → RunQueue
stride_init rq = record rq { run_list = []; lab6_run_pool = null; proc_num = 0 }

-- What `stride_enqueue` makes of the process.
unfoldable pub refilled : ℕ → Proc → Proc
refilled most p = record p {
  time_slice = if (p.time_slice == 0) || ltb most p.time_slice then most else p.time_slice;
  rq = true;
}

unfoldable pub stride_enqueue : ℕ → Ready → Outcome Ready
stride_enqueue a r = ok (record {
  queue = record (r.queue) {
    lab6_run_pool = skew_heap_insert (stride_before r.procs) r.queue.lab6_run_pool a;
    proc_num = inc32 r.queue.proc_num;
  };
  procs = update r.procs a (refilled r.queue.max_time_slice (r.procs a));
})

-- A process that is not in the pool has stale pointers.
abbrev pub dequeued : Option Pool → Ready → Outcome Ready
dequeued none r = panic
dequeued (some t) r =
    ok (record r {
      queue = record (r.queue) { lab6_run_pool = t; proc_num = dec32 r.queue.proc_num };
    })

unfoldable pub stride_dequeue : ℕ → Ready → Outcome Ready
stride_dequeue a r = dequeued (skew_heap_remove (stride_before r.procs) r.queue.lab6_run_pool a) r

-- The stride of a process that is picked grows, and wraps as a `uint32_t`.
unfoldable pub passed : Proc → Proc
passed p = record p {
  lab6_stride =
      (p.lab6_stride + (if p.lab6_priority == 0 then big_stride else big_stride / p.lab6_priority))
      % 2 ^ 32;
}

abbrev pub pick_root : Pool → Ready → Option ℕ × Ready
pick_root null r = (none, r)
pick_root (node a l t) r = (some a, record r { procs = update r.procs a (passed (r.procs a)) })

unfoldable pub stride_pick_next : Ready → Option ℕ × Ready
stride_pick_next r = pick_root r.queue.lab6_run_pool r

unfoldable pub stride_ticked : Proc → Proc
stride_ticked p =
    let left = p.time_slice - 1 in
    record p { time_slice = left; need_resched = if left == 0 then true else p.need_resched }

unfoldable pub stride_proc_tick : ℕ → Ready → Ready
stride_proc_tick a r = record r { procs = update r.procs a (stride_ticked (r.procs a)) }

-- `stride_sched_class`
unfoldable pub stride_sched_class : SchedClass
stride_sched_class = record {
  init = stride_init;
  enqueue = stride_enqueue;
  dequeue = stride_dequeue;
  pick_next = stride_pick_next;
  proc_tick = stride_proc_tick;
}
