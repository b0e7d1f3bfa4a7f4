-- ===== src/Stride.antt =====
-- The stride class of lab8/kern/schedule/default_sched_stride.c, over the skew heap of its run pool.
-- A process is the number of its `struct proc_struct`, and 0 is NULL. `none` is a failed `assert`, a
-- division by 0, or a merge that its fuel did not let finish.
pub mod Least
use os_experiment.Prelude.{
  ℕ, ◌+◌, ◌-◌, ◌/◌, ◌%◌, ◌^◌, ◌==◌, Bool, true, false, ◌&&◌, ◌||◌, Option, none, some,
  if◌then◌else◌, ◌>>=◌, ◌>>◌, assert, ltb, leb, u32, update,
}
use os_experiment.SkewHeap.{Heap, nil, node, skew_heap_insert, skew_heap_remove}

-- The fields of `struct proc_struct` that the class reads and writes.
pub record StrideProc : Type 0 where
  pub lab6_stride : ℕ
  pub lab6_priority : ℕ
  pub time_slice : ℕ
  pub need_resched : Bool
  pub has_rq : Bool

-- `struct run_queue`, with the processes.
pub record StrideQueue : Type 0 where
  pub procs : ℕ → StrideProc
  pub lab6_run_pool : Heap
  pub proc_num : ℕ
  pub max_time_slice : ℕ

abbrev pub big_stride : ℕ
big_stride = 2147483647

-- `proc_stride_comp_f(p, q) == -1`, on the two strides: their difference as an `int32_t` is negative.
unfoldable pub stride_first : ℕ → ℕ → Bool
stride_first p q = leb (2 ^ 31) ((2 ^ 32 + p - q) % 2 ^ 32)

abbrev pub proc_first : (ℕ → StrideProc) → ℕ → ℕ → Bool
proc_first procs p q = stride_first (procs p).lab6_stride (procs q).lab6_stride

unfoldable pub stride_init : StrideQueue → StrideQueue
stride_init q = record q { lab6_run_pool = nil; proc_num = 0 }

unfoldable pub stride_enqueue : ℕ → StrideQueue → ℕ → Option StrideQueue
unfolding skew_heap_insert stride_first
stride_enqueue fuel q p = skew_heap_insert (proc_first q.procs) fuel q.lab6_run_pool p >>= λ pool.
    (let r = q.procs p in
      let slice =
        if r.time_slice == 0 || ltb q.max_time_slice r.time_slice
        then q.max_time_slice
        else r.time_slice in
      some (record q {
        procs = update q.procs p (record r { time_slice = slice; has_rq = true });
        lab6_run_pool = pool;
        proc_num = u32 (q.proc_num + 1);
      }))

unfoldable pub stride_dequeue : ℕ → StrideQueue → ℕ → Option StrideQueue
unfolding skew_heap_remove stride_first
stride_dequeue fuel q p =
    assert ((q.procs p).has_rq && ltb 0 q.proc_num)
    >> (skew_heap_remove (proc_first q.procs) fuel q.lab6_run_pool p >>= λ pool.
        some (record q { lab6_run_pool = pool; proc_num = u32 (2 ^ 32 + q.proc_num - 1) }))

-- The process at the root of the pool, with its stride moved on.
unfoldable pub stride_pick : StrideQueue → Heap → Option (ℕ × StrideQueue)
stride_pick q nil = some (0, q)
stride_pick q (node l p r) =
    let proc = q.procs p in
    assert (ltb 0 proc.lab6_priority)
    >> some (
      p,
      record q {
        procs = update q.procs p (record proc {
          lab6_stride = u32 (proc.lab6_stride + big_stride / proc.lab6_priority);
        });
      },
    )

unfoldable pub stride_pick_next : StrideQueue → Option (ℕ × StrideQueue)
unfolding stride_pick
stride_pick_next q = stride_pick q q.lab6_run_pool

unfoldable pub stride_proc_tick : StrideQueue → ℕ → StrideQueue
stride_proc_tick q p =
    let r = q.procs p in
    let left = if ltb 0 r.time_slice then r.time_slice - 1 else r.time_slice in
    record q {
      procs = update q.procs p (record r {
        time_slice = left;
        need_resched = if left == 0 then true else r.need_resched;
      });
    }
