-- ===== src/Sync/Wake.antt =====
-- `wakeup_wait` and `up` of lab8/kern/sync under the round-robin class.
use os_experiment.Prelude.{
  ℕ, ◌+◌, ◌≡◌, ◌≢◌, refl, true, false, ◌&&◌, some, List, [], ◌∷◌, ◌++◌, ◌==◌, update, u32, arith,
  Bool-cases, inl, inr, ap, sym, ◌∙◌,
}
use os_experiment.Sched.State.{runnable, queued}
use os_experiment.Sched.RoundRobin.{default_sched_class, unlink}
use os_experiment.Sched.Queue.{queued-append, Unique, Unique-unlink}
use os_experiment.Sched.Fair.{first-unlink}
use os_experiment.Sched.Wake.{wakeup_proc-rr}
use os_experiment.Sync.{
  Sync, wait_queue_first, first_of, wt_ksem, wait_queue_del, wakeup_wait, up_with, up,
}
use os_experiment.Sync.Invariant.{IsSync, without, without-queued, without-ne, without-proc}

-- What waking the process of the entry `w` of `q` leaves.
pub record Woken (s : Sync) (q w wakeup_flags : ℕ) (s' : Sync) : Type 0 where
  pub proc : (s'.kernel.procs (s.wait w).proc).state ≡ runnable
  pub runs : (x : ℕ) → (s.kernel.procs x).state ≡ runnable → (s'.kernel.procs x).state ≡ runnable
  pub flags : (s'.wait w).wakeup_flags ≡ wakeup_flags
  pub unlinked : (s'.wait w).linked ≡ false
  pub others : (v : ℕ) → v ≢ w → s'.wait v ≡ s.wait v
  pub queues : (r : ℕ) → s'.queue r ≡ without q w s r
  pub values : s'.value ≡ s.value
  pub current : s'.kernel.current ≡ s.kernel.current
  pub idle : s'.kernel.idleproc ≡ s.kernel.idleproc
  pub out :
      (x : ℕ)
      → x ≢ (s.wait w).proc
      → queued x s.kernel.rq.run_list ≡ false
      → queued x s'.kernel.rq.run_list ≡ false
  pub run_list :
      (s.wait w).proc ≢ s.kernel.current
      → s'.kernel.rq.run_list ≡ s.kernel.rq.run_list ++ (s.wait w).proc ∷ []

pub wakeup_wait-IsSync :
    (flag : ℕ → ℕ) (s : Sync) (q w wakeup_flags : ℕ)
    → IsSync flag s
    → queued w (s.queue q) ≡ true
    → (s' : Sync) × (wakeup_wait default_sched_class q w wakeup_flags true s ≡ some s')
      × IsSync flag s'
      × Woken s q w wakeup_flags s'
unfolding wakeup_wait wait_queue_del unlink
wakeup_wait-IsSync flag s q w wakeup_flags i h =
    let m = i.waiting q w h in
    let p = (s.wait w).proc in
    let (k, did, v, list, states, waits, cur, idle) =
      wakeup_proc-rr s.kernel p i.ready m.proc_not_null m.proc_not_idle
        (ground (arith, m.asleep)) in
    let linked : ((s.wait w).linked && (s.wait w).wait_queue == q) ≡ true =
      ground (arith, m.linked, m.wait_queue) in
    let unlinked = record (s.wait w) { linked = false } in
    let s' = record s {
      kernel = k;
      wait = update (update s.wait w unlinked) w (record unlinked { wakeup_flags = wakeup_flags });
      queue = without q w s;
    } in
    (
      s',
      rw linked (ground (arith, did)),
      record {
        ready = v;
        unique = λ r. shorter r;
        waiting = λ r x g.
            let u = i.waiting r x (without-queued flag s q w i h r x g) in
            let ne : x ≢ w = without-ne flag s q w i h r x g in
            let np : (s.wait x).proc ≢ p = without-proc flag s q w i h r x g in
            record {
              not_null = u.not_null;
              linked = ground (arith, u.linked);
              wait_queue = ground (arith, u.wait_queue);
              proc_not_null = ground (arith, u.proc_not_null);
              proc_not_idle = ground (arith, u.proc_not_idle);
              asleep = ground (arith, u.asleep, states (s.wait x).proc);
              waits_for = ground (arith, u.waits_for, waits (s.wait x).proc);
            };
        alone = λ r t x y g f e.
            let nx : x ≢ w = without-ne flag s q w i h r x g in
            let ny : y ≢ w = without-ne flag s q w i h t y f in
            i.alone r t x y (without-queued flag s q w i h r x g)
              (without-queued flag s q w i h t y f) (ground arith);
        guarded = λ r f g. emptied r (i.guarded r f g);
      },
      record {
        proc = ground (arith, states p);
        runs = λ x e. ground (arith, states x);
        flags = ground arith;
        unlinked = ground arith;
        others = λ x ne. ground arith;
        queues = λ r. refl;
        values = refl;
        current = cur;
        idle = idle;
        out = λ x ne g. ground (arith, list, queued-append x s.kernel.rq.run_list p);
        run_list = λ ne. list ∙ ground (arith, m.asleep);
      },
    )
  where
    shorter : (r : ℕ) → Unique (without q w s r)
    shorter r = elim (Bool-cases (r == q)) [
      | inl e ↦ rw e (Unique-unlink w (s.queue q) (i.unique q))
      | inr e ↦ rw e (i.unique r)
    ]

    emptied : (r : ℕ) → s.queue r ≡ [] → without q w s r ≡ []
    emptied r e = elim (Bool-cases (r == q)) [
      | inl f ↦ let same : r ≡ q = ground arith in rw f (ap (unlink w) (ap s.queue (sym same) ∙ e))
      | inr f ↦ rw f e
    ]

-- What `up` makes of a semaphore with the waiters `ws`: the first one is handed the unit, or it is
-- added where nobody waits.
abbrev pub Raised : (s : Sync) (q : ℕ) (ws : List ℕ) (s' : Sync) → Type 0
Raised s q [] s' = (s'.value q ≡ u32 (s.value q + 1)) × (s'.queue q ≡ []) × (s'.kernel ≡ s.kernel)
Raised s q (w ∷ ws) s' = (s'.value q ≡ s.value q) × (s'.queue q ≡ ws) × Woken s q w wt_ksem s'

-- Any value suits a semaphore without waiters.
pub free_value-IsSync :
    (flag : ℕ → ℕ) (s : Sync) (q value : ℕ)
    → IsSync flag s
    → s.queue q ≡ []
    → IsSync flag (record s { value = update s.value q value })
free_value-IsSync flag s q value i free = record {
  ready = i.ready;
  unique = i.unique;
  waiting = λ r x g.
      let u = i.waiting r x g in
      record {
        not_null = u.not_null;
        linked = u.linked;
        wait_queue = u.wait_queue;
        proc_not_null = u.proc_not_null;
        proc_not_idle = u.proc_not_idle;
        asleep = u.asleep;
        waits_for = u.waits_for;
      };
  alone = i.alone;
  guarded = λ r f g. elim (Bool-cases (r == q)) [
    | inl e ↦ let same : r ≡ q = ground arith in ap s.queue same ∙ free
    | inr e ↦ i.guarded r f (ground arith)
  ];
}

-- `up` of a semaphore never fails and keeps well-formed queues well formed: without waiters its
-- value, a 32-bit word, grows by one, and else the process that has waited longest leaves the queue
-- and becomes runnable, told why it was woken, and the value stays. Other semaphores keep their
-- values.
pub up-IsSync :
    (flag : ℕ → ℕ) (s : Sync) (q : ℕ)
    → IsSync flag s
    → flag q ≡ wt_ksem
    → (s' : Sync) × (up default_sched_class q s ≡ some s')
      × IsSync flag s'
      × Raised s q (s.queue q) s'
      × ((r : ℕ) → r ≢ q → s'.value r ≡ s.value r)
unfolding up up_with
up-IsSync flag s q i sem = raised (s.queue q) refl
  where
    raised :
        (ws : List ℕ)
        → s.queue q ≡ ws
        → (s' : Sync) × (up default_sched_class q s ≡ some s')
          × IsSync flag s'
          × Raised s q ws s'
          × ((r : ℕ) → r ≢ q → s'.value r ≡ s.value r)
    raised [] e = (
      record s { value = update s.value q (u32 (s.value q + 1)) },
      rw e refl,
      free_value-IsSync flag s q (u32 (s.value q + 1)) i e,
      (ground arith, e, refl),
      λ r ne. ground arith,
    )
    raised (w ∷ ws) e =
        let h : queued w (s.queue q) ≡ true = rw e (ground arith) in
        let m = i.waiting q w h in
        let (s', did, j, woken) = wakeup_wait-IsSync flag s q w wt_ksem i h in
        let at : wait_queue_first q s ≡ w = ap first_of e in
        let found : (w == 0) ≡ false = ground (arith, m.not_null) in
        let called : ((s.kernel.procs (s.wait w).proc).wait_state == wt_ksem) ≡ true =
          ground (arith, m.waits_for, sem) in
        (
          s',
          rw (at, found, called) did,
          j,
          (
            ap (λ f. f q) woken.values,
            woken.queues q ∙ ground (arith, ap (unlink w) e, first-unlink w ws),
            woken,
          ),
          λ r ne. ap (λ f. f r) woken.values,
        )
