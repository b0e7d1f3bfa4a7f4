-- ===== src/Sync/Sleep.antt =====
-- `down` of lab8/kern/sync/sem.c under the round-robin class.
use os_experiment.Prelude.{
  ℕ, ◌-◌, ◌≡◌, ◌≢◌, refl, Bool, true, false, some, [], ◌∷◌, ◌++◌, update, arith, Bool-cases, inl,
  inr, ap, ◌∙◌,
}
use os_experiment.Sched.State.{sleeping}
use os_experiment.Sched.RoundRobin.{default_sched_class}
use os_experiment.Sched.Queue.{set_proc-IsQueue_out}
use os_experiment.LinkedList.Chain.{first_or}
use os_experiment.Sched.Fair.{behind_first, schedule-rr}
use os_experiment.Sync.{Sync, Wait, wt_ksem, wt_interrupted, positive, down_with}
use os_experiment.Sync.Invariant.{IsSync}
use os_experiment.Sync.Wake.{free_value-IsSync}
use os_experiment.Sync.Asleep.{CanWait, entered, set_entered, IsSync-entered}

-- What `down` makes of a semaphore: it takes a unit, or the caller waits behind the others.
abbrev pub Lowered : (s : Sync) (q w : ℕ) (at_once : Bool) (s' : Sync) → Type 0
Lowered s q w true s' = (s'.value q ≡ s.value q - 1) × (s'.queue q ≡ []) × (s'.kernel ≡ s.kernel)
Lowered s q w false s' =
    (s'.value q ≡ s.value q)
    × (s'.queue q ≡ s.queue q ++ w ∷ [])
    × ((s'.wait w).proc ≡ s.kernel.current)
    × ((s'.wait w).wakeup_flags ≡ wt_interrupted)
    × ((s'.kernel.procs s.kernel.current).state ≡ sleeping)
    × (s'.kernel.current ≡ first_or s.kernel.rq.run_list s.kernel.idleproc)
    × (s'.kernel.rq.run_list ≡ behind_first s.kernel.rq.run_list)

-- What `down` leaves alone.
pub record Undisturbed (s : Sync) (q w : ℕ) (s' : Sync) : Type 0 where
  pub entries : (v : ℕ) → v ≢ w → s'.wait v ≡ s.wait v
  pub queues : (r : ℕ) → r ≢ q → s'.queue r ≡ s.queue r
  pub states : (x : ℕ) → x ≢ s.kernel.current → (s'.kernel.procs x).state ≡ (s.kernel.procs x).state

-- `down` by a running process never fails and keeps well-formed queues well formed: while the value
-- is positive it takes a unit and returns, and else the process sleeps behind those that wait
-- already, in an entry of its own that is marked as not woken yet, and the first of the run queue
-- runs, or the idle process where none is queued, with the others queued in their order. Other
-- queues, entries and states of processes stay. The process is not idle and not queued to run, and
-- its entry is in no queue.
pub down_with-IsSync :
    (flag : ℕ → ℕ) (s : Sync) (q w : ℕ)
    → IsSync flag s
    → flag q ≡ wt_ksem
    → CanWait s w
    → (s' : Sync) × (down_with default_sched_class q w wt_ksem s ≡ some (positive (s.value q), s'))
      × IsSync flag s'
      × Lowered s q w (positive (s.value q)) s'
      × Undisturbed s q w s'
unfolding down_with
down_with-IsSync flag s q w i sem c = elim (Bool-cases (positive (s.value q))) [
  | inl e ↦
      let free : s.queue q ≡ [] = i.guarded q sem e in
      rw e (
        record s { value = update s.value q (s.value q - 1) },
        refl,
        free_value-IsSync flag s q (s.value q - 1) i free,
        (ground arith, free, refl),
        record { entries = λ v ne. refl; queues = λ r ne. refl; states = λ x ne. refl },
      )
  | inr e ↦
      let (t, set, same, entries, queues, values) = set_entered q w wt_ksem s c.proc_not_null in
      let p = s.kernel.current in
      let (k, switched, sw) =
        schedule-rr (entered q w wt_ksem s).kernel
          (set_proc-IsQueue_out s.kernel p
            (record (s.kernel.procs p) { state = sleeping; wait_state = wt_ksem }) i.ready c.out)
          c.proc_not_null c.out in
      let t' = record t { kernel = k } in
      rw e (
        t',
        rw (set, same, switched) refl,
        IsSync-entered flag s q w i c t' sem e sw.queue sw.same.idle
            (λ x. sw.same.states x ∙ ground arith) (λ x. sw.same.waits x ∙ ground arith) entries
            (λ r. ap (λ f. f r) queues) (λ r. ap (λ f. f r) values),
        (
          ap (λ f. f q) values,
          ap (λ f. f q) queues ∙ ground arith,
          ap (λ (x : Wait). x.proc) (entries w) ∙ ground arith,
          ap (λ (x : Wait). x.wakeup_flags) (entries w) ∙ ground arith,
          sw.same.states p ∙ ground arith,
          sw.current ∙ ground arith,
          sw.run_list ∙ ground arith,
        ),
        record {
          entries = λ v ne. entries v ∙ ground arith;
          queues = λ r ne. ap (λ f. f r) queues ∙ ground arith;
          states = λ x ne. sw.same.states x ∙ ground arith;
        },
      )
]
