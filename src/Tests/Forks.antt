-- ===== src/Tests/Forks.antt =====
-- `do_fork` of lab8/kern/process/proc.c: process 5, a child of 1, forks, and gets 30 as its child.
use os_experiment.Prelude.{
  ℕ, ◌+◌, ◌-◌, ◌≡◌, refl, true, false, some, List, [], ◌∷◌, ◌==◌, if◌then◌else◌, arith, inl, inr,
  Bool-cases, update,
}
use os_experiment.Sched.State.{Kernel, runnable, uninit, queued}
use os_experiment.Sched.RoundRobin.{default_sched_class}
use os_experiment.Sched.Queue.{IsQueued, IsQueue}
use os_experiment.Process.Links.{Relations}
use os_experiment.Process.Family.{IsFamily}
use os_experiment.Process.Fork.{Memory, Forking, child, start_child}
use os_experiment.Process.Fork.Start.{IsStarted, start_child-IsStarted}

-- Memory that is only counted, and has no room for files.
abbrev more : ℕ → (ℕ → ℕ) → ℕ → ℕ
more n w = update w 0 (w 0 + n)

abbrev less : ℕ → (ℕ → ℕ) → ℕ → ℕ
less n w = update w 0 (w 0 - n)

abbrev counting : Memory (ℕ → ℕ)
counting = record {
  kmalloc_proc = λ w. (30, more 1 w);
  kfree_proc = λ p w. less 1 w;
  alloc_pages = λ n w. (4096, more n w);
  free_pages = λ a n w. less n w;
  copy_boot_pgdir = λ a w. w;
  mm_create = λ w. (if w 40 == 0 then 40 else 0, if w 40 == 0 then more 1 w else w);
  mm_destroy = λ mm w. less 1 w;
  dup_mmap = λ mm old w. (0, update w mm (w old));
  exit_mmap = λ mm w. update w mm 0;
  files_create = λ w. (0, w);
  files_destroy = λ f w. less 1 w;
  dup_files = λ f old w. (0, w);
}

-- Process 30 is blank already.
abbrev kernel : Kernel
kernel = record {
  procs = λ p. record {
    state = if p == 30 then uninit else runnable;
    wait_state = 0;
    need_resched = false;
    time_slice = 3;
    runs = 0;
    has_rq = true;
  };
  rq = record { run_list = 8 ∷ []; proc_num = 1; max_time_slice = 5 };
  timers = [];
  current = 5;
  idleproc = 2;
}

kernel-IsQueue : IsQueue kernel
kernel-IsQueue = record {
  unique = ground arith;
  counted = omega arith;
  member = member;
  slices = omega arith;
  idle = omega arith;
}
  where
    member : (p : ℕ) → queued p (8 ∷ []) ≡ true → IsQueued kernel p
    member p q = ground arith

abbrev relations : Relations
relations = record {
  parent = λ p. if p == 5 then 1 else 0;
  cptr = λ p. if p == 1 then 5 else 0;
  yptr = λ p. 0;
  optr = λ p. 0;
  proc_list = 5 ∷ 1 ∷ [];
  nr_process = 2;
}

abbrev family : ℕ → List ℕ
family p = if p == 1 then 5 ∷ [] else []

family-IsFamily : (p : ℕ) → IsFamily relations p (family p)
family-IsFamily p = elim (Bool-cases (p == 1)) [
  | inl e ↦
      let same : p ≡ 1 = ground arith in
      rw same (record { chain = (refl, omega arith, refl, refl, refl); unique = ground arith })
  | inr e ↦ rw e (record { chain = rw e refl; unique = tt })
]

abbrev parent : Forking (ℕ → ℕ)
parent = record {
  tasks = record {
    kernel = kernel;
    relations = relations;
    pids = record { hash_list = λ b. []; pid = λ p. p };
    exit_code = λ p. 0;
    exiting = λ p. false;
    initproc = 1;
  };
  pid_state = record { last_pid = 5; next_safe = 8192 };
  kstack = λ p. 4096;
  mm = λ p. if p == 5 then 20 else 0;
  filesp = λ p. 50;
  pgdir = λ mm. 4096;
  mm_count = λ mm. 1;
  files_count = λ f. 1;
  world = λ x. if x == 20 then 12 else 0;
}

start_child-IsStarted_example :
    (pid : ℕ) × (t : Forking (ℕ → ℕ)) × (start_child default_sched_class 20000 30 parent
      ≡ some (child pid, t))
    × IsStarted family 30 pid parent t
start_child-IsStarted_example =
    start_child-IsStarted 20000 30 parent family kernel-IsQueue (omega arith) (omega arith)
      (omega arith) refl refl
      (record { gap = (inl (omega arith), (inl (omega arith), tt)); bound = omega arith })
      (omega arith) (omega arith) family-IsFamily (λ x. ground arith)
