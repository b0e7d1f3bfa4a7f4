-- ===== src/Sched/Wake.antt =====
-- `wakeup_proc` and the clock tick of sched.c under the round-robin class.
use os_experiment.Prelude.{
  ℕ, zero, suc, ◌-◌, ◌≡◌, ◌≢◌, refl, ap, true, false, not, ◌||◌, ◌&&◌, some, List, [], ◌∷◌, ◌++◌,
  ◌==◌, leb, if◌then◌else◌, Bool-cases, inl, inr, arith,
}
use os_experiment.Sched.{sched_class_enqueue, wakeup_proc, interruptible}
use os_experiment.Sched.State.{Timer, Kernel, queued, runnable, is_runnable, is_zombie, set_proc}
use os_experiment.Sched.RoundRobin.{default_sched_class, rr_proc_tick}
use os_experiment.Sched.Queue.{IsQueued, IsQueue, rr_enqueue-IsQueue}

-- The stores of `wakeup_proc`.
abbrev awake : Kernel → ℕ → Kernel
awake k p = set_proc k p (record (k.procs p) { state = runnable; wait_state = 0 })

awake-IsQueue : (k : Kernel) (p : ℕ) → IsQueue k → IsQueue (awake k p)
awake-IsQueue k p v = record {
  unique = v.unique;
  counted = v.counted;
  member = kept;
  slices = v.slices;
  idle = v.idle;
}
  where
    kept : (x : ℕ) → queued x k.rq.run_list ≡ true → IsQueued (awake k p) x
    kept x q = elim (Bool-cases (x == p)) [
      | inl here ↦ let e : x ≡ p = ground arith in ground (arith, v.member x q, ap k.procs e)
      | inr there ↦ ground (arith, v.member x q)
    ]

not_queued :
    (k : Kernel) (p : ℕ)
    → IsQueue k
    → is_runnable (k.procs p).state ≡ false
    → queued p k.rq.run_list ≡ false
not_queued k p v halted = elim (Bool-cases (queued p k.rq.run_list)) [
  | inl q ↦ absurd (ground (arith, (v.member p q).runnable))
  | inr q ↦ q
]

-- Waking a process that is neither idle nor a zombie never fails. It becomes runnable, and is
-- queued last unless it was runnable already, where nothing changes, or is the running process; it
-- waits for nothing any more unless it was runnable. No other process changes its state or what
-- it waits for, and the queue stays well formed.
pub wakeup_proc-rr :
    (k : Kernel) (p : ℕ)
    → IsQueue k
    → p ≢ 0
    → p ≢ k.idleproc
    → is_zombie (k.procs p).state ≡ false
    → (k' : Kernel) × (wakeup_proc default_sched_class k p ≡ some k')
      × IsQueue k'
      × (k'.rq.run_list ≡ (
          if is_runnable (k.procs p).state || p == k.current
          then k.rq.run_list
          else k.rq.run_list ++ p ∷ []))
      × ((x : ℕ) → (k'.procs x).state ≡ (if x == p then runnable else (k.procs x).state))
      × ((x : ℕ)
          → (k'.procs x).wait_state
            ≡ (if x == p && not (is_runnable (k.procs p).state) then 0 else (k.procs x).wait_state))
      × (k'.current ≡ k.current)
      × (k'.idleproc ≡ k.idleproc)
unfolding wakeup_proc sched_class_enqueue
wakeup_proc-rr k p v nn ni alive = elim (Bool-cases (is_runnable (k.procs p).state)) [
  | inl run ↦ (
    k,
    ground (arith, alive, run),
    v,
    ground (arith, run),
    (λ x. still_runnable x run),
    (λ x. ground (arith, run)),
    refl,
    refl,
  )
  | inr halted ↦ elim (Bool-cases (p == k.current)) [
    | inl cur ↦ (
      awake k p,
      ground (arith, alive, halted, cur),
      awake-IsQueue k p v,
      ground (arith, halted, cur),
      (λ x. ground arith),
      (λ x. ground (arith, halted)),
      refl,
      refl,
    )
    | inr other ↦
        let (k', put, w, list, cur, idle, states, waits) =
          rr_enqueue-IsQueue (awake k p) p (awake-IsQueue k p v) nn ni (ground arith)
            (not_queued k p v halted) in
        (
          k',
          ground (arith, alive, halted, other, put),
          w,
          ground (arith, halted, other, list),
          (λ x. ground (arith, states x)),
          (λ x. ground (arith, halted, waits x)),
          cur,
          idle,
        )
  ]
]
  where
    still_runnable :
        (x : ℕ)
        → is_runnable (k.procs p).state ≡ true
        → (k.procs x).state ≡ (if x == p then runnable else (k.procs x).state)
    still_runnable x run = elim (Bool-cases (x == p)) [
      | inl same ↦ let e : x ≡ p = ground arith in rw same (rw e (ground (arith, run)))
      | inr other ↦ rw other refl
    ]

-- `n` ticks of the clock while `p` runs.
unfoldable pub ticks : ℕ → Kernel → ℕ → Kernel
ticks zero k p = k
ticks (suc n) k p = ticks n (rr_proc_tick k p) p

-- After one or more ticks the process has that much less of its time slice, down to 0, and it is
-- marked for rescheduling exactly when the slice is used up or it was marked before.
pub rr_proc_tick-slice :
    (n : ℕ) (k : Kernel) (p : ℕ)
    → let k' = ticks (suc n) k p in
      ((k'.procs p).time_slice ≡ (k.procs p).time_slice - suc n)
      × ((k'.procs p).need_resched
          ≡ (leb (k.procs p).time_slice (suc n) || (k.procs p).need_resched))
unfolding ticks rr_proc_tick
rr_proc_tick-slice zero k p = ground arith
rr_proc_tick-slice (suc n) k p = ground (arith, rr_proc_tick-slice n (rr_proc_tick k p) p)

-- A timer whose process can be woken when it falls due.
pub record Wakeable (k : Kernel) (p : ℕ) : Type 0 where
  pub not_null : p ≢ 0
  pub not_idle : p ≢ k.idleproc
  pub alive : is_zombie (k.procs p).state ≡ false
  pub waits : ((k.procs p).wait_state == 0 || interruptible (k.procs p).wait_state) ≡ true

abbrev pub AllWakeable : Kernel → List Timer → Type 0
AllWakeable k [] = Unit
AllWakeable k (t ∷ ts) = Wakeable k t.proc × AllWakeable k ts

-- The processes of the timers that fall due first, one behind the other, are runnable.
abbrev pub DueRunnable : Kernel → List Timer → Type 0
DueRunnable k [] = Unit
DueRunnable k (t ∷ ts) =
    if t.expires == 0 then ((k.procs t.proc).state ≡ runnable) × DueRunnable k ts else Unit
