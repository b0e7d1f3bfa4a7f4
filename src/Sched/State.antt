-- ===== src/Sched/State.antt =====
-- The data that lab8/kern/schedule works on: processes, timers, the run queue.
-- A process is the number of its `struct proc_struct`, from 1 on; 0 is NULL.
use os_experiment.Prelude.{ℕ, Bool, Option, List, [], ◌∷◌, true, false, ◌==◌, ◌||◌, update}

-- `enum proc_state`.
pub data ProcState : Type 0 where
  uninit sleeping runnable zombie : ProcState

-- The fields of `struct proc_struct` that scheduling reads or writes. `has_rq` is `rq != NULL`:
-- there is one run queue.
pub record Proc : Type 0 where
  pub state : ProcState
  pub wait_state : ℕ
  pub need_resched : Bool
  pub time_slice : ℕ
  pub runs : ℕ
  pub has_rq : Bool

-- `timer_t`, with its address.
pub record Timer : Type 0 where
  pub node : ℕ
  pub expires : ℕ
  pub proc : ℕ

-- `struct run_queue`; the list holds the queued processes, first to last.
pub record RunQueue : Type 0 where
  pub run_list : List ℕ
  pub proc_num : ℕ
  pub max_time_slice : ℕ

-- The variables of sched.c, with `current` and `idleproc`.
pub record Kernel : Type 0 where
  pub procs : ℕ → Proc
  pub rq : RunQueue
  pub timers : List Timer
  pub current : ℕ
  pub idleproc : ℕ

-- `struct sched_class` without its name. What `pick_next` returns is 0 for NULL, with the state
-- that it leaves.
pub record SchedClass : Type 0 where
  pub init : Kernel → Kernel
  pub enqueue : Kernel → ℕ → Option Kernel
  pub dequeue : Kernel → ℕ → Option Kernel
  pub pick_next : Kernel → ℕ × Kernel
  pub proc_tick : Kernel → ℕ → Kernel

abbrev pub is_runnable : ProcState → Bool
is_runnable runnable = true
is_runnable _ = false

abbrev pub is_zombie : ProcState → Bool
is_zombie zombie = true
is_zombie _ = false

-- Whether `run_link` is in the queue's ring.
abbrev pub queued : ℕ → List ℕ → Bool
queued p [] = false
queued p (x ∷ xs) = x == p || queued p xs

abbrev pub set_proc : Kernel → ℕ → Proc → Kernel
set_proc k p r = record k { procs = update k.procs p r }
