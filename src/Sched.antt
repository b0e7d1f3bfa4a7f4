-- ===== src/Sched.antt =====
-- The core scheduler of lab8/kern/schedule/sched.c over a scheduling class. Interrupts are off
-- while these functions run, so each is one step.
pub mod State
pub mod Timers
pub mod RoundRobin
pub mod Queue
pub mod Fair
pub mod Wake
pub mod Expire
pub mod Due
pub mod Tick
use os_experiment.Prelude.{
  ℕ, ◌+◌, Bool, true, false, not, Option, none, some, List, [], ◌∷◌, ◌==◌, if◌then◌else◌, ◌>>=◌,
  ◌>>◌, assert, ltb, leb, ◌%◌, ◌/◌, ◌^◌, ◌-◌, ◌||◌,
}
use os_experiment.Sched.State.{
  ProcState, Proc, Timer, RunQueue, Kernel, SchedClass, runnable, is_runnable, is_zombie, set_proc,
}
use os_experiment.Sched.Timers.{del_timer}

-- `MAX_TIME_SLICE`.
abbrev pub max_time_slice : ℕ
max_time_slice = 5

-- `WT_INTERRUPTED` is bit 31 of a wait state.
abbrev pub interruptible : ℕ → Bool
interruptible w = w / 2 ^ 31 % 2 == 1

-- The end of `schedule`: `runs++` and `proc_run`, which makes the process `current`; its page table
-- and the switch of contexts are not modelled.
unfoldable pub run_proc : Kernel → ℕ → Kernel
run_proc k next =
    let counted = set_proc k next (record (k.procs next) { runs = (k.procs next).runs + 1 }) in
    if not (next == counted.current) then record counted { current = next } else counted

module _ (class : SchedClass) where
  unfoldable pub sched_class_enqueue : Kernel → ℕ → Option Kernel
  sched_class_enqueue k p = if not (p == k.idleproc) then class.enqueue k p else some k

  unfoldable pub sched_class_proc_tick : Kernel → ℕ → Kernel
  sched_class_proc_tick k p =
      if not (p == k.idleproc)
      then class.proc_tick k p
      else set_proc k p (record (k.procs p) { need_resched = true })

  -- The state is that before the timers and the run queue are used; `init` is the class's.
  unfoldable pub sched_init : Kernel → Kernel
  sched_init k =
      class.init (record k { timers = []; rq = record (k.rq) { max_time_slice = max_time_slice } })

  unfoldable pub wakeup_proc : Kernel → ℕ → Option Kernel
  unfolding sched_class_enqueue
  wakeup_proc k p =
      assert (not (is_zombie (k.procs p).state))
      >> (if not (is_runnable (k.procs p).state)
          then (let k' = set_proc k p (record (k.procs p) { state = runnable; wait_state = 0 }) in
              if not (p == k.current) then sched_class_enqueue k' p else some k')
          else some k)

  -- The class picks a process, which leaves the queue, or the idle process runs.
  unfoldable pub run_next : Kernel → Option Kernel
  run_next k =
      let (picked, k') = class.pick_next k in
      (if not (picked == 0) then class.dequeue k' picked else some k') >>= λ k''.
      some (run_proc k'' (if picked == 0 then k''.idleproc else picked))

  unfoldable pub schedule : Kernel → Option Kernel
  unfolding sched_class_enqueue
  schedule k =
      let k' = set_proc k k.current (record (k.procs k.current) { need_resched = false }) in
      (if is_runnable (k'.procs k'.current).state
        then sched_class_enqueue k' k'.current
        else some k')
      >>= λ k''. run_next k''

  -- The `while` of `run_timer_list`, over the timers from the first on.
  unfoldable pub expire_due : List Timer → Kernel → Option Kernel
  unfolding wakeup_proc del_timer
  expire_due [] k = some k
  expire_due (t ∷ ts) k =
      let wait = (k.procs t.proc).wait_state in
      let rest =
        assert (wait == 0 || interruptible wait)
        >> (wakeup_proc k t.proc >>= λ k'.
            expire_due ts (record k' { timers = del_timer t.node k'.timers })) in
      if t.expires == 0 then rest else some k

  -- The timers' part of `run_timer_list`.
  unfoldable pub tick_timers : List Timer → Kernel → Option Kernel
  unfolding expire_due
  tick_timers [] k = some k
  tick_timers (t ∷ ts) k =
      let ts' = record t { expires = t.expires - 1 } ∷ ts in
      assert (not (t.expires == 0)) >> expire_due ts' (record k { timers = ts' })

  -- `if (current) sched_class_proc_tick(current)`.
  unfoldable pub tick_current : Kernel → Kernel
  unfolding sched_class_proc_tick
  tick_current k = if not (k.current == 0) then sched_class_proc_tick k k.current else k

  unfoldable pub run_timer_list : Kernel → Option Kernel
  run_timer_list k = tick_timers k.timers k >>= λ k'. some (tick_current k')
