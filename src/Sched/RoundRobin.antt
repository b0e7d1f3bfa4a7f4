-- ===== src/Sched/RoundRobin.antt =====
-- The round-robin class of lab8/kern/schedule/default_sched.c.
use os_experiment.Prelude.{
  ℕ, ◌+◌, ◌-◌, ◌^◌, true, not, ◌&&◌, ◌||◌, Option, some, List, [], ◌∷◌, ◌++◌, ltb, ◌==◌,
  if◌then◌else◌, ◌>>◌, assert, u32,
}
use os_experiment.Sched.State.{Kernel, SchedClass, queued, set_proc}

unfoldable pub rr_init : Kernel → Kernel
rr_init k = record k { rq = record (k.rq) { run_list = []; proc_num = 0 } }

-- The stores of `RR_enqueue`. `max_time_slice` is an `int`, which is not negative here.
abbrev pub enqueued : Kernel → ℕ → Kernel
enqueued k p =
    let r = k.procs p in
    let slice =
      if r.time_slice == 0 || ltb k.rq.max_time_slice r.time_slice
      then k.rq.max_time_slice
      else r.time_slice in
    record (set_proc k p (record r { time_slice = slice; has_rq = true })) {
      rq = record (k.rq) { run_list = k.rq.run_list ++ p ∷ []; proc_num = u32 (k.rq.proc_num + 1) };
    }

unfoldable pub rr_enqueue : Kernel → ℕ → Option Kernel
rr_enqueue k p = assert (not (queued p k.rq.run_list)) >> some (enqueued k p)

-- `list_del_init` of the process's entry.
unfoldable pub unlink : ℕ → List ℕ → List ℕ
unlink p [] = []
unlink p (x ∷ xs) = if x == p then xs else x ∷ unlink p xs

-- The stores of `RR_dequeue`.
abbrev pub dequeued : Kernel → ℕ → Kernel
dequeued k p = record k {
  rq = record (k.rq) {
    run_list = unlink p k.rq.run_list;
    proc_num = u32 (2 ^ 32 + k.rq.proc_num - 1);
  };
}

unfoldable pub rr_dequeue : Kernel → ℕ → Option Kernel
unfolding unlink
rr_dequeue k p = assert (queued p k.rq.run_list && (k.procs p).has_rq) >> some (dequeued k p)

-- 0 is NULL.
abbrev pub first_or_null : List ℕ → ℕ
first_or_null [] = 0
first_or_null (x ∷ xs) = x

unfoldable pub rr_pick_next : Kernel → ℕ × Kernel
rr_pick_next k = (first_or_null k.rq.run_list, k)

unfoldable pub rr_proc_tick : Kernel → ℕ → Kernel
rr_proc_tick k p =
    let r = k.procs p in
    let left = if ltb 0 r.time_slice then r.time_slice - 1 else r.time_slice in
    set_proc k p
      (record r { time_slice = left; need_resched = if left == 0 then true else r.need_resched })

abbrev pub default_sched_class : SchedClass
default_sched_class = record {
  init = rr_init;
  enqueue = rr_enqueue;
  dequeue = rr_dequeue;
  pick_next = rr_pick_next;
  proc_tick = rr_proc_tick;
}
