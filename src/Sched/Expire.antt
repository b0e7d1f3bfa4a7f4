-- ===== src/Sched/Expire.antt =====
-- `run_timer_list` of sched.c under the round-robin class does not fail, and wakes what is due.
use os_experiment.Prelude.{
  ℕ, ◌-◌, ◌<◌, ◌≡◌, refl, ◌∙◌, false, some, List, [], ◌∷◌, ◌==◌, Bool-cases, inl, inr, arith,
}
use os_experiment.Sched.{wakeup_proc, expire_due, tick_timers, tick_current, run_timer_list}
use os_experiment.Sched.State.{Timer, Kernel, queued, runnable}
use os_experiment.Sched.Timers.{del_timer}
use os_experiment.Sched.RoundRobin.{default_sched_class, rr_proc_tick, rr_enqueue}
use os_experiment.Sched.Queue.{IsQueue, queued-append}
use os_experiment.Sched.Tick.{KeepsTimers}
use os_experiment.Sched.Wake.{wakeup_proc-rr, Wakeable, AllWakeable, DueRunnable}

-- A kernel between two wake-ups: what the loop over the due timers keeps.
record Awaking (k k' : Kernel) : Type 0 where
  queue : IsQueue k'
  out : queued k'.current k'.rq.run_list ≡ false
  current : k'.current ≡ k.current
  wakeable : (p : ℕ) → Wakeable k p → Wakeable k' p
  still : (p : ℕ) → (k.procs p).state ≡ runnable → (k'.procs p).state ≡ runnable

wakeup-Awaking :
    (k : Kernel) (p : ℕ)
    → IsQueue k
    → queued k.current k.rq.run_list ≡ false
    → Wakeable k p
    → (k' : Kernel) × (wakeup_proc default_sched_class k p ≡ some k')
      × ((k'.procs p).state ≡ runnable)
      × Awaking k k'
wakeup-Awaking k p v out w =
    let (k', did, u, list, states, waits, cur, idle) =
      wakeup_proc-rr k p v w.not_null w.not_idle w.alive in
    (
      k',
      did,
      ground (arith, states p),
      record {
        queue = u;
        out = ground (arith, cur, list, queued-append k.current k.rq.run_list p);
        current = cur;
        wakeable = λ q x. record {
          not_null = x.not_null;
          not_idle = rw idle x.not_idle;
          alive = rw (states q) (ground (arith, x.alive));
          waits = rw (waits q) (ground (arith, x.waits));
        };
        still = λ q x. rw (states q) (ground arith);
      },
    )

AllWakeable-kept :
    (k k' : Kernel) (ts : List Timer)
    → ((p : ℕ) → Wakeable k p → Wakeable k' p)
    → AllWakeable k ts
    → AllWakeable k' ts
AllWakeable-kept k k' [] f w = tt
AllWakeable-kept k k' (t ∷ ts) f w = (f t.proc w.0, AllWakeable-kept k k' ts f w.1)

-- A store to the timer list leaves the rest alone.
retimed : (k k' : Kernel) (l : List Timer) → Awaking k k' → Awaking k (record k' { timers = l })
retimed k k' l a = record {
  queue = record {
    unique = a.queue.unique;
    counted = a.queue.counted;
    member = λ p q. ground (arith, a.queue.member p q);
    slices = a.queue.slices;
    idle = a.queue.idle;
  };
  out = a.out;
  current = a.current;
  wakeable = λ p w. ground (arith, a.wakeable p w);
  still = a.still;
}

expire_due-rr :
    (ts : List Timer) (k : Kernel)
    → IsQueue k
    → queued k.current k.rq.run_list ≡ false
    → AllWakeable k ts
    → (k' : Kernel) × (expire_due default_sched_class ts k ≡ some k')
      × DueRunnable k' ts
      × Awaking k k'
unfolding expire_due
expire_due-rr [] k v out w = (
  k,
  refl,
  tt,
  record { queue = v; out = out; current = refl; wakeable = λ p x. x; still = λ p x. x },
)
expire_due-rr (t ∷ ts) k v out w = elim (Bool-cases (t.expires == 0)) [
  | inl now ↦
      let (k1, did1, woken, a) = wakeup-Awaking k t.proc v out w.0 in
      let k2 = record k1 { timers = del_timer t.node k1.timers } in
      let a2 = retimed k k1 (del_timer t.node k1.timers) a in
      let (k', did, done, b) =
        expire_due-rr ts k2 a2.queue a2.out (AllWakeable-kept k k2 ts a2.wakeable w.1) in
      (
        k',
        rw now (rw (w.0.waits) (rw did1 did)),
        rw now (b.still t.proc woken, done),
        record {
          queue = b.queue;
          out = b.out;
          current = b.current ∙ a2.current;
          wakeable = λ p x. b.wakeable p (a2.wakeable p x);
          still = λ p x. b.still p (a2.still p x);
        },
      )
  | inr later ↦ (
    k,
    ground (arith, later),
    rw later tt,
    record { queue = v; out = out; current = refl; wakeable = λ p x. x; still = λ p x. x },
  )
]

-- The timers as `run_timer_list` sees them after it has counted the first one down.
abbrev pub counted_down : List Timer → List Timer
counted_down [] = []
counted_down (t ∷ ts) = record t { expires = t.expires - 1 } ∷ ts

abbrev pub FirstPending : List Timer → Type 0
FirstPending [] = Unit
FirstPending (t ∷ ts) = 0 < t.expires

tick_timers-rr :
    (ts : List Timer) (k : Kernel)
    → IsQueue k
    → queued k.current k.rq.run_list ≡ false
    → FirstPending ts
    → AllWakeable k ts
    → (k' : Kernel) × (tick_timers default_sched_class ts k ≡ some k')
      × DueRunnable k' (counted_down ts)
      × (k'.current ≡ k.current)
unfolding tick_timers
tick_timers-rr [] k v out f w = (k, refl, tt, refl)
tick_timers-rr (t ∷ ts) k v out f w =
    let ts' = counted_down (t ∷ ts) in
    let a =
      retimed k k ts'
        (record { queue = v; out = out; current = refl; wakeable = λ p x. x; still = λ p x. x }) in
    let (k', did, due, b) =
      expire_due-rr ts' (record k { timers = ts' }) a.queue a.out
        (AllWakeable-kept k (record k { timers = ts' }) ts' a.wakeable w) in
    (k', ground (arith, did), due, b.current)

tick_current-same :
    (k : Kernel)
    → ((tick_current default_sched_class k).current ≡ k.current)
      × ((p : ℕ) → ((tick_current default_sched_class k).procs p).state ≡ (k.procs p).state)
unfolding tick_current rr_proc_tick
tick_current-same k = (ground arith, (λ p. ground arith))

DueRunnable-same :
    (k k' : Kernel) (ts : List Timer)
    → ((p : ℕ) → (k'.procs p).state ≡ (k.procs p).state)
    → DueRunnable k ts
    → DueRunnable k' ts
DueRunnable-same k k' [] e d = tt
DueRunnable-same k k' (t ∷ ts) e d = elim (Bool-cases (t.expires == 0)) [
  | inl now ↦ let d' = rw now at d in rw now (e t.proc ∙ d'.0, DueRunnable-same k k' ts e d'.1)
  | inr later ↦ rw later tt
]

-- A tick never fails where the queue is well formed without `current`, the first timer has a
-- positive count, and every timer's process can be woken: it is neither NULL nor idle nor a
-- zombie, and waits for nothing or interruptibly. Afterwards the processes of all timers that fall
-- due at the tick are runnable, and the same process is still running.
pub run_timer_list-rr :
    (k : Kernel)
    → IsQueue k
    → queued k.current k.rq.run_list ≡ false
    → FirstPending k.timers
    → AllWakeable k k.timers
    → (k' : Kernel) × (run_timer_list default_sched_class k ≡ some k')
      × DueRunnable k' (counted_down k.timers)
      × (k'.current ≡ k.current)
unfolding run_timer_list
run_timer_list-rr k v out f w =
    let (k', did, due, cur) = tick_timers-rr k.timers k v out f w in
    let (cur', states) = tick_current-same k' in
    (
      tick_current default_sched_class k',
      rw did refl,
      DueRunnable-same k' (tick_current default_sched_class k') (counted_down k.timers) states due,
      cur' ∙ cur,
    )

-- The round-robin class leaves the timers alone.
pub rr-KeepsTimers : KeepsTimers default_sched_class
unfolding rr_enqueue rr_proc_tick
rr-KeepsTimers = record { enqueue = λ k p k' e. ground arith; proc_tick = λ k p. ground arith }
