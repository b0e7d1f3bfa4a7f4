-- ===== src/Tests/Processes.antt =====
-- sched.c with the processes 2 (idle), 5, 6, 7 and 8: 5 runs, 6 and 7 are queued, 8 sleeps on a timer.
use os_experiment.Prelude.{
  ℕ, ◌+◌, ◌^◌, ◌≡◌, refl, true, false, some, List, [], ◌∷◌, ◌==◌, if◌then◌else◌, arith,
}
use os_experiment.Sched.{schedule, run_timer_list}
use os_experiment.Sched.State.{Proc, Timer, Kernel, sleeping, runnable, queued}
use os_experiment.Sched.Timers.{add_timer, del_timer}
use os_experiment.Sched.RoundRobin.{default_sched_class}
use os_experiment.Sched.Queue.{IsQueued, IsQueue}
use os_experiment.Sched.Fair.{Switched, schedule-rr, schedules, schedules-reach}
use os_experiment.Sched.Wake.{DueRunnable}
use os_experiment.Sched.Due.{due, insert_due, remove_due, add_timer-due, del_timer-due}
use os_experiment.Sched.Tick.{dec_all, tick_due}
use os_experiment.Sched.Expire.{counted_down, run_timer_list-rr}

abbrev ready_proc : Proc
ready_proc = record {
  state = runnable;
  wait_state = 0;
  need_resched = false;
  time_slice = 3;
  runs = 0;
  has_rq = true;
}

-- `WT_TIMER` is 2 with bit 31.
abbrev asleep : Proc
asleep = record ready_proc { state = sleeping; wait_state = 2 ^ 31 + 2 }

abbrev timer_a : Timer
timer_a = record { node = 100; expires = 1; proc = 8 }

abbrev timer_b : Timer
timer_b = record { node = 101; expires = 4; proc = 8 }

abbrev machine : Kernel
machine = record {
  procs = λ p. if p == 8 then asleep else ready_proc;
  rq = record { run_list = 6 ∷ 7 ∷ []; proc_num = 2; max_time_slice = 5 };
  timers = timer_a ∷ timer_b ∷ [];
  current = 5;
  idleproc = 2;
}

machine-IsQueue : IsQueue machine
machine-IsQueue = record {
  unique = ground arith;
  counted = omega arith;
  member = member;
  slices = omega arith;
  idle = omega arith;
}
  where
    member : (p : ℕ) → queued p (6 ∷ 7 ∷ []) ≡ true → IsQueued machine p
    member p q = ground arith

schedule-rr_example :
    (k : Kernel) × (schedule default_sched_class machine ≡ some k)
    × Switched machine (6 ∷ 7 ∷ 5 ∷ []) k
schedule-rr_example = schedule-rr machine machine-IsQueue (omega arith) (ground arith)

-- process 7 waits behind process 6
schedules-reach_example : (k : Kernel) × (schedules 2 machine ≡ some k) × (k.current ≡ 7)
schedules-reach_example =
    schedules-reach (6 ∷ []) machine 7 [] machine-IsQueue (omega arith) (omega arith) refl
      (ground arith) refl

-- a timer of three ticks goes between those due at 1 and at 5
add_timer-due_example :
    (l : List Timer) × (add_timer (record { node = 102; expires = 3; proc = 7 }) machine.timers
      ≡ some l)
    × (due 0 l ≡ insert_due 3 102 (due 0 machine.timers))
add_timer-due_example =
    add_timer-due (record { node = 102; expires = 3; proc = 7 }) machine.timers (omega arith)
      (omega arith) (ground arith)

insert_due_test : insert_due 3 102 (due 0 machine.timers) ≡ (1, 100) ∷ (3, 102) ∷ (5, 101) ∷ []
unfolding insert_due
insert_due_test = refl

del_timer-due_example : due 0 (del_timer 100 machine.timers) ≡ remove_due 100 (due 0 machine.timers)
del_timer-due_example = del_timer-due 100 machine.timers (omega arith)

remove_due_test : due 0 (del_timer 100 machine.timers) ≡ (5, 101) ∷ []
unfolding del_timer
remove_due_test = refl

run_timer_list-rr_example :
    (k : Kernel) × (run_timer_list default_sched_class machine ≡ some k)
    × DueRunnable k (counted_down machine.timers)
    × (k.current ≡ 5)
run_timer_list-rr_example =
    run_timer_list-rr machine machine-IsQueue (ground arith) (omega arith) (ground arith)

-- the machine after one tick
abbrev after_tick : Kernel
after_tick =
    (run_timer_list-rr machine machine-IsQueue (ground arith) (omega arith) (ground arith)).0

tick_did : run_timer_list default_sched_class machine ≡ some after_tick
tick_did = (run_timer_list-rr machine machine-IsQueue (ground arith) (omega arith) (ground arith)).1

tick_due_test : tick_due ((1, 100) ∷ (5, 101) ∷ []) ≡ (4, 101) ∷ []
unfolding tick_due dec_all
tick_due_test = refl
