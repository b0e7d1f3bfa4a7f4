-- ===== src/Sync/Invariant.antt =====
-- What wait.c and sem.c keep true of wait queues and semaphores.
use os_experiment.Prelude.{
  ℕ, ◌≡◌, ◌≢◌, true, List, [], ◌==◌, update, arith, Bool-cases, inl, inr, ap, sym, ◌∙◌,
}
use os_experiment.Sched.State.{sleeping, queued}
use os_experiment.Sched.RoundRobin.{unlink}
use os_experiment.Sched.Queue.{IsQueue, Unique, queued-unlink, queued-unlink_self}
use os_experiment.Sync.{Sync, wt_ksem, positive}

-- What holds of an entry of the queue `q`, where `flag` says what the processes of a queue wait for.
pub record IsWaiting (flag : ℕ → ℕ) (s : Sync) (q w : ℕ) : Type 0 where
  pub not_null : w ≢ 0
  pub linked : (s.wait w).linked ≡ true
  pub wait_queue : (s.wait w).wait_queue ≡ q
  pub proc_not_null : (s.wait w).proc ≢ 0
  pub proc_not_idle : (s.wait w).proc ≢ s.kernel.idleproc
  pub asleep : (s.kernel.procs (s.wait w).proc).state ≡ sleeping
  pub waits_for : (s.kernel.procs (s.wait w).proc).wait_state ≡ flag q

-- The queues hold sleeping processes, none twice, and a semaphore that can be taken has no waiters.
pub record IsSync (flag : ℕ → ℕ) (s : Sync) : Type 0 where
  pub ready : IsQueue s.kernel
  pub unique : (q : ℕ) → Unique (s.queue q)
  pub waiting : (q w : ℕ) → queued w (s.queue q) ≡ true → IsWaiting flag s q w
  pub alone :
      (q r v w : ℕ)
      → queued v (s.queue q) ≡ true
      → queued w (s.queue r) ≡ true
      → (s.wait v).proc ≡ (s.wait w).proc
      → v ≡ w
  pub guarded : (q : ℕ) → flag q ≡ wt_ksem → positive (s.value q) ≡ true → s.queue q ≡ []

-- The queues without the entry `w` of `q`.
abbrev pub without : ℕ → ℕ → Sync → ℕ → List ℕ
without q w s = update s.queue q (unlink w (s.queue q))

-- What is still queued was queued, and is another entry.
module _ (flag : ℕ → ℕ) (s : Sync) (q w : ℕ) (i : IsSync flag s)
    (h : queued w (s.queue q) ≡ true) where
  pub without-queued : (r v : ℕ) → queued v (without q w s r) ≡ true → queued v (s.queue r) ≡ true
  without-queued r v g = elim (Bool-cases (r == q)) [
    | inl e ↦
        let same : r ≡ q = ground arith in rw same (queued-unlink w v (s.queue q) (ground arith))
    | inr e ↦ ground arith
  ]

  pub without-ne : (r v : ℕ) → queued v (without q w s r) ≡ true → v ≢ w
  without-ne r v g same =
      let here : queued w (without q w s r) ≡ true =
        ap (λ x. queued x (without q w s r)) (sym same) ∙ g in
      elim (Bool-cases (r == q)) [
        | inl e ↦ absurd (ground (arith, queued-unlink_self w (s.queue q) (i.unique q)))
        | inr e ↦
            let mine = (i.waiting q w h).wait_queue in
            let theirs = (i.waiting r w (ground arith)).wait_queue in absurd (ground arith)
      ]

  -- No other entry is of the same process.
  pub without-proc :
      (r v : ℕ) → queued v (without q w s r) ≡ true → (s.wait v).proc ≢ (s.wait w).proc
  without-proc r v g same = without-ne r v g (i.alone r q v w (without-queued r v g) h same)
