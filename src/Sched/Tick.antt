-- ===== src/Sched/Tick.antt =====
-- One tick of sched.c's `run_timer_list`, on the due times of the timers.
use os_experiment.Prelude.{
  ℕ, ◌+◌, ◌-◌, ◌≡◌, refl, ap, ◌∙◌, false, some, List, [], ◌∷◌, ◌==◌, if◌then◌else◌, Bool-cases, inl,
  inr, arith, sym,
}
use os_experiment.Sched.State.{Timer, Kernel, SchedClass}
use os_experiment.Sched.Timers.{del_timer}
use os_experiment.Sched.{
  wakeup_proc, sched_class_enqueue, expire_due, tick_timers, tick_current, run_timer_list,
}
use os_experiment.Sched.Due.{due}

-- All due times one tick nearer.
unfoldable pub dec_all : List (ℕ × ℕ) → List (ℕ × ℕ)
dec_all [] = []
dec_all ((d, n) ∷ l) = (d - 1, n) ∷ dec_all l

-- After one tick: those that were due at it are gone, and the others one tick nearer.
unfoldable pub tick_due : List (ℕ × ℕ) → List (ℕ × ℕ)
tick_due [] = []
tick_due ((d, n) ∷ l) = let others = tick_due l in if d == 1 then others else (d - 1, n) ∷ dec_all l

drop_expired : List Timer → List Timer
drop_expired [] = []
drop_expired (t ∷ ts) = if t.expires == 0 then drop_expired ts else t ∷ ts

dec_all-due : (n : ℕ) (ts : List Timer) → dec_all (due (n + 1) ts) ≡ due n ts
unfolding dec_all
dec_all-due n [] = refl
dec_all-due n (t ∷ ts) =
    let sum : n + 1 + t.expires ≡ n + t.expires + 1 = omega arith in
    let one : n + t.expires + 1 - 1 ≡ n + t.expires = omega arith in
    rw sum (rw (one, dec_all-due (n + t.expires) ts))

tick_due-due : (ts : List Timer) → tick_due (due 1 ts) ≡ due 0 (drop_expired ts)
unfolding tick_due drop_expired
tick_due-due [] = refl
tick_due-due (t ∷ ts) = elim (Bool-cases (t.expires == 0)) [
  | inl z ↦ let sum : 1 + t.expires ≡ 1 = ground arith in rw (z, sum) (tick_due-due ts)
  | inr p ↦
      let sum : 1 + t.expires ≡ t.expires + 1 = omega arith in
      let ne : (t.expires + 1 == 1) ≡ false = ground arith in
      let one : t.expires + 1 - 1 ≡ 0 + t.expires = omega arith in
      let zero_sum : t.expires ≡ 0 + t.expires = omega arith in
      rw (p, sum)
        (rw ne (
          rw one (
            rw (dec_all-due t.expires ts) (ap (λ x. (0 + t.expires, t.node) ∷ due x ts) zero_sum))))
]

-- A class whose functions leave the timers alone.
pub record KeepsTimers (class : SchedClass) : Type 0 where
  pub enqueue :
      (k : Kernel) (p : ℕ) (k' : Kernel) → class.enqueue k p ≡ some k' → k'.timers ≡ k.timers
  pub proc_tick : (k : Kernel) (p : ℕ) → (class.proc_tick k p).timers ≡ k.timers

module _ {class : SchedClass} (keeps : KeepsTimers class) where
  timers-enqueue :
      (k : Kernel) (p : ℕ) (k' : Kernel)
      → sched_class_enqueue class k p ≡ some k'
      → k'.timers ≡ k.timers
  unfolding sched_class_enqueue
  timers-enqueue k p k' e = ground (arith, keeps.enqueue k p k')

  timers-wakeup_proc :
      (k : Kernel) (p : ℕ) (k' : Kernel) → wakeup_proc class k p ≡ some k' → k'.timers ≡ k.timers
  unfolding wakeup_proc
  timers-wakeup_proc k p k' e = grind (arith, timers-enqueue)

  del_first : (t : Timer) (ts : List Timer) → t.expires ≡ 0 → del_timer t.node (t ∷ ts) ≡ ts
  unfolding del_timer
  del_first t ts e = ground arith

  timers-expire_due :
      (ts : List Timer) (k k' : Kernel)
      → k.timers ≡ ts
      → expire_due class ts k ≡ some k'
      → k'.timers ≡ drop_expired ts
  unfolding expire_due drop_expired
  timers-expire_due [] k k' l e = ground arith
  timers-expire_due (t ∷ ts) k k' l e =
      grind (arith, timers-wakeup_proc, del_first, timers-expire_due ts)

  timers-tick_timers :
      (ts : List Timer) (k k' : Kernel)
      → k.timers ≡ ts
      → tick_timers class ts k ≡ some k'
      → due 0 k'.timers ≡ tick_due (due 0 ts)
  unfolding tick_timers tick_due
  timers-tick_timers [] k k' l e = let same : k'.timers ≡ [] = ground arith in rw same
  timers-tick_timers (t ∷ ts) k k' l e = elim (Bool-cases (t.expires == 0)) [
    | inl z ↦ absurd (ground arith)
    | inr p ↦
        let t' = record t { expires = t.expires - 1 } in
        let sum : 1 + t'.expires ≡ 0 + t.expires = ground arith in
        ap (due 0) (timers-expire_due (t' ∷ ts) (record k { timers = t' ∷ ts }) k' refl (rw p at e))
        ∙ sym (tick_due-due (t' ∷ ts))
        ∙ ap (λ x. tick_due ((x, t.node) ∷ due x ts)) sum
  ]

  -- A tick that does not fail drops the timers that were due at it and brings all others one tick
  -- nearer, whatever the scheduling class, as long as it leaves the timers alone.
  pub run_timer_list-due :
      (k k' : Kernel)
      → run_timer_list class k ≡ some k'
      → due 0 k'.timers ≡ tick_due (due 0 k.timers)
  unfolding run_timer_list tick_current
  run_timer_list-due k k' e = grind (arith, timers-tick_timers k.timers k, keeps.proc_tick)
