-- ===== src/Sync/Monitor.antt =====
-- lab8/kern/sync/monitor.c: condition variables over semaphores. A call that sleeps is two functions,
-- up to its sleep and from there on; what they print is left out.
use mathlib.Core.Path.{subst}
use os_experiment.Prelude.{
  ℕ, ◌+◌, ◌-◌, ◌^◌, ◌≡◌, ◌≢◌, refl, Bool, true, false, Option, none, some, List, [], ◌∷◌, ◌++◌,
  if◌then◌else◌, ◌>>=◌, update, u32, arith, Bool-cases, inl, inr, ap, sym, ◌∙◌,
}
use os_experiment.Sched.State.{SchedClass, sleeping, runnable, queued}
use os_experiment.Sched.RoundRobin.{default_sched_class}
use os_experiment.LinkedList.Chain.{first_or}
use os_experiment.Sched.Fair.{behind_first}
use os_experiment.Sync.{Sync, wt_ksem, positive, sem_init, up, down_with, down_returns}
use os_experiment.Sync.Invariant.{IsSync, without-queued}
use os_experiment.Sync.Wake.{Woken, Raised, up-IsSync}
use os_experiment.Sync.Serve.{down_returns-woken}
use os_experiment.Sync.Asleep.{CanWait, old_proc}
use os_experiment.Sync.Sleep.{Lowered, down_with-IsSync}

-- `monitor_t`, with its semaphores by their addresses, and each condition variable by that of its
-- semaphore. The counters are ints, as 32-bit words.
pub record Monitor : Type 0 where
  pub mutex : ℕ
  pub next : ℕ
  pub next_count : ℕ
  pub count : ℕ → ℕ

-- `monitor_init` for the condition variables `cvs`.
unfoldable pub cv_init : List ℕ → Monitor × Sync → Monitor × Sync
unfolding sem_init
cv_init [] (m, s) = (m, s)
cv_init (cv ∷ cvs) (m, s) = cv_init cvs (record m { count = update m.count cv 0 }, sem_init cv 0 s)

unfoldable pub monitor_init : List ℕ → Monitor → Sync → Option (Monitor × Sync)
unfolding cv_init sem_init
monitor_init [] m s = none
monitor_init (cv ∷ cvs) m s =
    some
      (cv_init (cv ∷ cvs) (record m { next_count = 0 }, sem_init m.next 0 (sem_init m.mutex 1 s)))

module _ (class : SchedClass) where
  -- `cond_signal` up to its `down`, in the entry `w`; the first result is whether it goes on at once.
  unfoldable pub cond_signal : ℕ → ℕ → Monitor → Sync → Option (Bool × Monitor × Sync)
  cond_signal cv w m s =
      if positive (m.count cv)
      then (up class cv s >>= λ t. down_with class m.next w wt_ksem t >>= λ (at_once, u).
          some (at_once, record m { next_count = u32 (m.next_count + 1) }, u))
      else some (true, m, s)

  -- `cond_wait` up to its `down`.
  unfoldable pub cond_wait : ℕ → ℕ → Monitor → Sync → Option (Bool × Monitor × Sync)
  cond_wait cv w m s =
      let counted = record m { count = update m.count cv (u32 (m.count cv + 1)) } in
      up class (if positive m.next_count then m.next else m.mutex) s >>= λ t.
      down_with class cv w wt_ksem t >>= λ (at_once, u). some (at_once, counted, u)

-- The rest of `cond_signal` once its `down` came to sleep.
unfoldable pub cond_signal_resumed : ℕ → Monitor → Sync → Option (Monitor × Sync)
cond_signal_resumed w m s = down_returns m.next w s >>= λ t.
    some (record m { next_count = u32 (m.next_count + 2 ^ 32 - 1) }, t)

-- The rest of `cond_wait`.
unfoldable pub cond_wait_resumed : ℕ → ℕ → Monitor → Sync → Option (Monitor × Sync)
cond_wait_resumed cv w m s = down_returns cv w s >>= λ t.
    some (record m { count = update m.count cv (u32 (m.count cv + 2 ^ 32 - 1)) }, t)

-- After an `up` the running process may still wait.
CanWait-raised :
    (flag : ℕ → ℕ) (s : Sync) (q w v : ℕ) (s' : Sync)
    → IsSync flag s
    → queued v (s.queue q) ≡ true
    → Woken s q v wt_ksem s'
    → CanWait s w
    → CanWait s' w
CanWait-raised flag s q w v s' i h woken c = record {
  not_null = c.not_null;
  new = λ r. elim (Bool-cases (queued w (s'.queue r))) [
    | inl g ↦ absurd (
        ground (
          arith,
          c.new r,
          without-queued flag s q v i h r w (ap (queued w) (sym (woken.queues r)) ∙ g),
        ))
    | inr g ↦ g
  ];
  proc_not_null = rw woken.current c.proc_not_null;
  proc_not_idle = rw (woken.current, woken.idle) c.proc_not_idle;
  runs = rw woken.current (woken.runs s.kernel.current c.runs);
  out =
      rw woken.current
        (woken.out s.kernel.current (λ e. old_proc flag s q w i c q v h (sym e)) c.out);
}

-- `cond_signal` while processes wait: the one that waited longest is runnable, last in the run
-- queue, and its `cond_wait` goes on; the signalling process sleeps behind those that have signalled
-- before, and the first of that run queue runs, with the others left in their order. It holds with
-- well-formed queues where the count is positive, as it is while processes wait, the semaphore
-- `next` is another one and has no unit, and the process that signals may wait.
pub cond_signal-hands_over :
    (flag : ℕ → ℕ) (cv w x : ℕ) (ws : List ℕ) (m : Monitor) (s : Sync)
    → IsSync flag s
    → flag cv ≡ wt_ksem
    → flag m.next ≡ wt_ksem
    → cv ≢ m.next
    → s.queue cv ≡ x ∷ ws
    → positive (m.count cv) ≡ true
    → positive (s.value m.next) ≡ false
    → CanWait s w
    → (s' : Sync) × (cond_signal default_sched_class cv w m s
        ≡ some (false, record m { next_count = u32 (m.next_count + 1) }, s'))
      × IsSync flag s'
      × (s'.queue cv ≡ ws)
      × (s'.queue m.next ≡ s.queue m.next ++ w ∷ [])
      × ((s'.kernel.procs (s.wait x).proc).state ≡ runnable)
      × (cond_wait_resumed cv x (record m { next_count = u32 (m.next_count + 1) }) s'
          ≡ some (
            record m {
              next_count = u32 (m.next_count + 1);
              count = update m.count cv (u32 (m.count cv + 2 ^ 32 - 1));
            },
            s',
          ))
      × ((s'.kernel.procs s.kernel.current).state ≡ sleeping)
      × (s'.kernel.current
          ≡ first_or (s.kernel.rq.run_list ++ (s.wait x).proc ∷ []) s.kernel.idleproc)
      × (s'.kernel.rq.run_list ≡ behind_first (s.kernel.rq.run_list ++ (s.wait x).proc ∷ []))
unfolding cond_signal cond_wait_resumed
cond_signal-hands_over flag cv w x ws m s i sem sem' apart e counted none_left c =
    let (s1, did, j, r, same) = up-IsSync flag s cv i sem in
    let (value, left, woken) = subst (λ l. Raised s cv l s1) e r in
    let h : queued x (s.queue cv) ≡ true = rw e (ground arith) in
    let c1 = CanWait-raised flag s cv w x s1 i h woken c in
    let (s', done, j', low, kept) = down_with-IsSync flag s1 m.next w j sem' c1 in
    let none_after : positive (s1.value m.next) ≡ false =
      ap positive (same m.next (λ g. apart (sym g))) ∙ none_left in
    let (value', queue', proc', flags', asleep, runs', list') =
      subst (λ b. Lowered s1 m.next w b s') none_after low in
    let other : (s.wait x).proc ≢ s.kernel.current = old_proc flag s cv w i c cv x h in
    let entry : s'.wait x ≡ s1.wait x =
      kept.entries x (λ g. ground (arith, c.new cv, ap (λ z. queued z (s.queue cv)) g)) in
    (
      s',
      rw (counted, did, done, none_after) refl,
      j',
      kept.queues cv apart ∙ left,
      queue' ∙ ap (λ l. l ++ w ∷ []) (woken.queues m.next ∙ ground arith),
      kept.states (s.wait x).proc (λ g. other (g ∙ woken.current)) ∙ woken.proc,
      rw (down_returns-woken s' cv x (rw entry woken.unlinked) (rw entry woken.flags)) refl,
      subst (λ p. (s'.kernel.procs p).state ≡ sleeping) woken.current asleep,
      runs'
          ∙ ap (λ l. first_or l s1.kernel.idleproc) (woken.run_list other)
          ∙ ap (first_or (s.kernel.rq.run_list ++ (s.wait x).proc ∷ [])) woken.idle,
      list' ∙ ap behind_first (woken.run_list other),
    )
