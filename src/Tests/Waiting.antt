-- ===== src/Tests/Waiting.antt =====
-- Semaphores with the processes 2 (idle), 5, 6, 8 and 9: 5 runs, 6 is queued to run, and 8 and 9 wait
-- for the semaphore 50 in the entries 61 and 62; the semaphore 51 has three units.
use os_experiment.Prelude.{
  ℕ, ◌≡◌, ◌≢◌, refl, ◌||◌, true, false, some, [], ◌∷◌, ◌==◌, if◌then◌else◌, arith, inl, inr, ◌⊎◌,
  Bool-cases, sym, ◌∙◌, update,
}
use os_experiment.Sched.State.{Proc, Kernel, runnable, sleeping, queued}
use os_experiment.Sched.RoundRobin.{default_sched_class}
use os_experiment.Sched.Queue.{IsQueued, IsQueue, Unique}
use os_experiment.Sync.{Sync, wt_ksem, wt_interrupted, up, down_with, down_returns}
use os_experiment.Sync.Invariant.{IsWaiting, IsSync}
use os_experiment.Sync.Wake.{Raised, up-IsSync}
use os_experiment.Sync.Serve.{ups, ups-serve}
use os_experiment.Sync.Monitor.{Monitor, cond_signal, cond_wait_resumed, cond_signal-hands_over}
use os_experiment.Sync.Asleep.{CanWait}
use os_experiment.Sync.Sleep.{Undisturbed, Lowered, down_with-IsSync}

abbrev ready_proc : Proc
ready_proc = record {
  state = runnable;
  wait_state = 0;
  need_resched = false;
  time_slice = 3;
  runs = 0;
  has_rq = true;
}

abbrev kernel : Kernel
kernel = record {
  procs = λ p.
      if p == 8 || p == 9
      then record ready_proc { state = sleeping; wait_state = wt_ksem }
      else ready_proc;
  rq = record { run_list = 6 ∷ []; proc_num = 1; max_time_slice = 5 };
  timers = [];
  current = 5;
  idleproc = 2;
}

kernel-IsQueue : IsQueue kernel
kernel-IsQueue = record {
  unique = ground arith;
  counted = omega arith;
  member = member;
  slices = omega arith;
  idle = omega arith;
}
  where
    member : (p : ℕ) → queued p (6 ∷ []) ≡ true → IsQueued kernel p
    member p q = ground arith

abbrev pub sync : Sync
sync = record {
  kernel = kernel;
  wait = λ w. record {
    proc = if w == 61 then 8 else if w == 62 then 9 else 0;
    wakeup_flags = wt_interrupted;
    wait_queue = 50;
    linked = w == 61 || w == 62;
  };
  queue = λ q. if q == 50 then 61 ∷ 62 ∷ [] else [];
  value = λ q. if q == 51 then 3 else 0;
}

abbrev pub all_ksem : ℕ → ℕ
all_ksem q = wt_ksem

listed : (q w : ℕ) → queued w (sync.queue q) ≡ true → (q ≡ 50) × ((w ≡ 61) ⊎ (w ≡ 62))
listed q w h = elim (Bool-cases (q == 50)) [
  | inl e ↦ (
    ground arith,
    elim (Bool-cases (w == 61)) [ inl f ↦ inl (ground arith) | inr f ↦ inr (ground arith) ],
  )
  | inr e ↦ absurd (ground arith)
]

pub sync-IsSync : IsSync all_ksem sync
sync-IsSync = record {
  ready = kernel-IsQueue;
  unique = unique;
  waiting = waiting;
  alone = λ q r v w h g e.
      let (a, b) = listed q v h in
      let (c, d) = listed r w g in
      elim b [
        | inl f ↦ elim d [ inl k ↦ f ∙ sym k | inr k ↦ absurd (ground arith) ]
        | inr f ↦ elim d [ inl k ↦ absurd (ground arith) | inr k ↦ f ∙ sym k ]
      ];
  guarded = λ q f g. ground arith;
}
  where
    unique : (q : ℕ) → Unique (sync.queue q)
    unique q = elim (Bool-cases (q == 50)) [
      | inl e ↦ rw e (ground arith, (refl, tt))
      | inr e ↦ rw e tt
    ]

    waiting : (q w : ℕ) → queued w (sync.queue q) ≡ true → IsWaiting all_ksem sync q w
    waiting q w h =
        let (a, b) = listed q w h in
        elim b [
          | inl f ↦
              rw (a, f)
                (record {
                  not_null = omega arith;
                  linked = refl;
                  wait_queue = refl;
                  proc_not_null = omega arith;
                  proc_not_idle = omega arith;
                  asleep = refl;
                  waits_for = refl;
                })
          | inr f ↦
              rw (a, f)
                (record {
                  not_null = omega arith;
                  linked = refl;
                  wait_queue = refl;
                  proc_not_null = omega arith;
                  proc_not_idle = omega arith;
                  asleep = refl;
                  waits_for = refl;
                })
        ]

up-IsSync_example :
    (s : Sync) × (up default_sched_class 50 sync ≡ some s)
    × IsSync all_ksem s
    × Raised sync 50 (61 ∷ 62 ∷ []) s
    × ((r : ℕ) → r ≢ 50 → s.value r ≡ sync.value r)
up-IsSync_example = up-IsSync all_ksem sync 50 sync-IsSync refl

ups-serve_example :
    (s : Sync) × (ups 2 50 sync ≡ some s)
    × IsSync all_ksem s
    × (s.queue 50 ≡ [])
    × ((s.kernel.procs 9).state ≡ runnable)
    × (down_returns 50 62 s ≡ some s)
ups-serve_example = ups-serve (61 ∷ []) all_ksem sync 50 62 [] sync-IsSync refl refl

not_listed : (q : ℕ) → queued 63 (sync.queue q) ≡ false
not_listed q = elim (Bool-cases (q == 50)) [ inl e ↦ rw e refl | inr e ↦ rw e refl ]

may_wait : CanWait sync 63
may_wait = record {
  not_null = omega arith;
  new = not_listed;
  proc_not_null = omega arith;
  proc_not_idle = omega arith;
  runs = refl;
  out = refl;
}

down_with-IsSync_example :
    (s : Sync) × (down_with default_sched_class 50 63 wt_ksem sync ≡ some (false, s))
    × IsSync all_ksem s
    × Lowered sync 50 63 false s
    × Undisturbed sync 50 63 s
down_with-IsSync_example = down_with-IsSync all_ksem sync 50 63 sync-IsSync refl may_wait

abbrev monitor : Monitor
monitor = record { mutex = 51; next = 52; next_count = 0; count = λ cv. if cv == 50 then 2 else 0 }

cond_signal-hands_over_example :
    (s : Sync) × (cond_signal default_sched_class 50 63 monitor sync
      ≡ some (false, record monitor { next_count = 1 }, s))
    × IsSync all_ksem s
    × (s.queue 50 ≡ 62 ∷ [])
    × (s.queue 52 ≡ 63 ∷ [])
    × ((s.kernel.procs 8).state ≡ runnable)
    × (cond_wait_resumed 50 61 (record monitor { next_count = 1 }) s
        ≡ some (record monitor { next_count = 1; count = update monitor.count 50 1 }, s))
    × ((s.kernel.procs 5).state ≡ sleeping)
    × (s.kernel.current ≡ 6)
    × (s.kernel.rq.run_list ≡ 8 ∷ [])
cond_signal-hands_over_example =
    cond_signal-hands_over all_ksem 50 63 61 (62 ∷ []) monitor sync sync-IsSync refl refl
      (omega arith) refl refl refl may_wait
