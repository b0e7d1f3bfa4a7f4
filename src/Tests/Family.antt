-- ===== src/Tests/Family.antt =====
-- proc.c with the processes 1 (first), 2 (idle), 4, 5, 6, 7 and 8: 5 runs and has the children 7, a
-- zombie, and 6, its parent 4 waits for a child, as 1 does, and 8 is queued.
use os_experiment.Prelude.{
  ℕ, ◌≡◌, refl, ◌||◌, true, false, some, List, [], ◌∷◌, ◌==◌, if◌then◌else◌, arith, inl, inr,
  Bool-cases, ◌<◌,
}
use os_experiment.Sched.State.{Proc, Kernel, runnable, sleeping, zombie, queued}
use os_experiment.Sched.RoundRobin.{default_sched_class}
use os_experiment.Sched.Queue.{IsQueued, IsQueue}
use os_experiment.Process.Pid.{PidState, get_pid}
use os_experiment.Process.Pid.Unique.{used}
use os_experiment.Process.Pid.Fresh.{IsPids, get_pid-IsPids}
use os_experiment.Process.Hash.{PidTable, pid_hashfn}
use os_experiment.Process.Links.{Relations}
use os_experiment.Process.Family.{IsFamily}
use os_experiment.Process.Exit.{Tasks, do_exit, do_wait, wt_child, asleep, Waited}
use os_experiment.Process.Dying.{CanExit, Exited}
use os_experiment.Process.Ending.{do_exit-rr}
use os_experiment.Process.Wait.{do_wait-sleeps}

abbrev ready_proc : Proc
ready_proc = record {
  state = runnable;
  wait_state = 0;
  need_resched = false;
  time_slice = 3;
  runs = 0;
  has_rq = true;
}

abbrev waiting_proc : Proc
waiting_proc = record ready_proc { state = sleeping; wait_state = wt_child }

abbrev kernel : Kernel
kernel = record {
  procs = λ p.
      if p == 7
      then record ready_proc { state = zombie }
      else if p == 4 || p == 1
      then waiting_proc
      else ready_proc;
  rq = record { run_list = 8 ∷ []; proc_num = 1; max_time_slice = 5 };
  timers = [];
  current = 5;
  idleproc = 2;
}

kernel-IsQueue : IsQueue kernel
kernel-IsQueue = record {
  unique = ground arith;
  counted = omega arith;
  member = member;
  slices = omega arith;
  idle = omega arith;
}
  where
    member : (p : ℕ) → queued p (8 ∷ []) ≡ true → IsQueued kernel p
    member p q = ground arith

abbrev relations : Relations
relations = record {
  parent =
      λ p. if p == 7 || p == 6 || p == 9 then 5 else if p == 5 then 4 else if p == 4 then 1 else 0;
  cptr = λ p. if p == 5 then 7 else if p == 4 then 5 else if p == 1 then 4 else 0;
  yptr = λ p. if p == 6 then 7 else 0;
  optr = λ p. if p == 7 then 6 else 0;
  proc_list = 7 ∷ 6 ∷ 5 ∷ 4 ∷ 1 ∷ [];
  nr_process = 5;
}

abbrev family : ℕ → List ℕ
family p = if p == 5 then 7 ∷ 6 ∷ [] else if p == 4 then 5 ∷ [] else if p == 1 then 4 ∷ [] else []

family-IsFamily : (p : ℕ) → IsFamily relations p (family p)
family-IsFamily p = elim (Bool-cases (p == 5)) [
  | inl e ↦
      let same : p ≡ 5 = ground arith in
      rw same (record {
        chain = (refl, omega arith, refl, refl, (refl, omega arith, refl, refl, refl));
        unique = ground arith;
      })
  | inr e ↦ elim (Bool-cases (p == 4)) [
    | inl f ↦
        let same : p ≡ 4 = ground arith in
        rw same (record { chain = (refl, omega arith, refl, refl, refl); unique = ground arith })
    | inr f ↦ elim (Bool-cases (p == 1)) [
      | inl g ↦
          let same : p ≡ 1 = ground arith in
          rw same (record { chain = (refl, omega arith, refl, refl, refl); unique = ground arith })
      | inr g ↦ rw (e, f, g) (record { chain = rw (e, f, g) refl; unique = tt })
    ]
  ]
]

abbrev pids : PidTable
pids = record { hash_list = λ b. if b == pid_hashfn 7 then 7 ∷ [] else []; pid = λ p. p }

abbrev tasks : Tasks
tasks = record {
  kernel = kernel;
  relations = relations;
  pids = pids;
  exit_code = λ p. if p == 7 then 42 else 0;
  exiting = λ p. false;
  initproc = 1;
}

tasks-CanExit : CanExit tasks (7 ∷ 6 ∷ []) (4 ∷ [])
tasks-CanExit = record {
  queue = kernel-IsQueue;
  out = refl;
  not_null = omega arith;
  not_idle = omega arith;
  not_init = omega arith;
  parent = record { not_null = omega arith; not_idle = omega arith; alive = ground arith };
  not_own = omega arith;
  init = record { not_null = omega arith; not_idle = omega arith; alive = ground arith };
  children = family-IsFamily 5;
  init_children = family-IsFamily 1;
}

do_exit-rr_example :
    (t : Tasks) × (do_exit default_sched_class 3 9 tasks ≡ some t)
    × Exited tasks 5 (7 ∷ 6 ∷ []) (4 ∷ []) 9 t
do_exit-rr_example = do_exit-rr 3 9 tasks (7 ∷ 6 ∷ []) (4 ∷ []) tasks-CanExit (omega arith)

get_pid-IsPids_example :
    (t : PidState) × (get_pid 20000 (2 ∷ 1 ∷ []) (record { last_pid = 2; next_safe = 8192 })
      ≡ some t)
    × (used t.last_pid (2 ∷ 1 ∷ []) ≡ false)
    × (0 < t.last_pid)
    × (t.last_pid < 8192)
    × IsPids (t.last_pid ∷ 2 ∷ 1 ∷ []) t
get_pid-IsPids_example =
    get_pid-IsPids 20000 (2 ∷ 1 ∷ []) (record { last_pid = 2; next_safe = 8192 })
      (record { gap = (inl (omega arith), (inl (omega arith), tt)); bound = omega arith })
      (omega arith) (omega arith)

no_family : (x : ℕ) → queued 9 (family x) ≡ false
no_family x = ground arith

-- The parent runs while its child is no zombie.
abbrev idling : Kernel
idling = record kernel { current = 4 }

idling-IsQueue : IsQueue idling
idling-IsQueue = record {
  unique = kernel-IsQueue.unique;
  counted = kernel-IsQueue.counted;
  member = λ p q. ground (arith, kernel-IsQueue.member p q);
  slices = kernel-IsQueue.slices;
  idle = kernel-IsQueue.idle;
}

do_wait-sleeps_example :
    (r : Waited) × (t : Tasks) × (do_wait default_sched_class 3 0 (record tasks { kernel = idling })
      ≡ some (r, t))
    × ((r ≡ asleep)
        × IsQueue t.kernel
        × ((t.kernel.procs 4).state ≡ sleeping)
        × ((t.kernel.procs 4).wait_state ≡ wt_child)
        × (t.kernel.current ≡ 8)
        × (t.kernel.rq.run_list ≡ []))
do_wait-sleeps_example =
    do_wait-sleeps 3 (record tasks { kernel = idling }) (5 ∷ []) (family-IsFamily 4) (omega arith)
      refl idling-IsQueue (omega arith) refl
