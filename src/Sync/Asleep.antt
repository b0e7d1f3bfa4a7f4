-- ===== src/Sync/Asleep.antt =====
-- A process that goes to sleep in a wait queue of lab8/kern/sync, before the next one runs.
use os_experiment.Prelude.{
  ℕ, ◌≡◌, ◌≢◌, refl, true, false, ◌||◌, some, [], ◌∷◌, ◌++◌, ◌==◌, if◌then◌else◌, update, arith,
  Bool-cases, inl, inr, ap, sym, ◌∙◌, ◌⊎◌,
}
use os_experiment.Sched.State.{sleeping, runnable, is_runnable, queued, set_proc}
use os_experiment.Sched.Queue.{IsQueue, Unique, Unique-append, queued-append}
use os_experiment.Sync.{
  Sync, Wait, wt_ksem, wt_interrupted, positive, wait_init, wait_queue_add, wait_current_set,
}
use os_experiment.Sync.Invariant.{IsWaiting, IsSync}

-- Who calls `down`: a process that runs and may sleep, with an entry that is in no queue.
pub record CanWait (s : Sync) (w : ℕ) : Type 0 where
  pub not_null : w ≢ 0
  pub new : (q : ℕ) → queued w (s.queue q) ≡ false
  pub proc_not_null : s.kernel.current ≢ 0
  pub proc_not_idle : s.kernel.current ≢ s.kernel.idleproc
  pub runs : (s.kernel.procs s.kernel.current).state ≡ runnable
  pub out : queued s.kernel.current s.kernel.rq.run_list ≡ false

-- The entry that `wait_current_set` makes, and the process that goes to sleep.
abbrev pub entered : ℕ → ℕ → ℕ → Sync → Sync
entered q w wait_state s =
    let p = s.kernel.current in
    record s {
      kernel =
          set_proc s.kernel p
            (record (s.kernel.procs p) { state = sleeping; wait_state = wait_state });
      wait =
          update s.wait w
            (record { proc = p; wakeup_flags = wt_interrupted; wait_queue = q; linked = true });
      queue = update s.queue q (s.queue q ++ w ∷ []);
    }

pub set_entered :
    (q w wait_state : ℕ) (s : Sync)
    → s.kernel.current ≢ 0
    → (t : Sync) × (wait_current_set q w wait_state s ≡ some t)
      × (t.kernel ≡ (entered q w wait_state s).kernel)
      × ((v : ℕ) → t.wait v ≡ (entered q w wait_state s).wait v)
      × (t.queue ≡ (entered q w wait_state s).queue)
      × (t.value ≡ s.value)
unfolding wait_current_set wait_queue_add wait_init
set_entered q w wait_state s nn =
    let t = record (wait_init w s.kernel.current s) {
      kernel = (entered q w wait_state s).kernel;
    } in
    let some_proc : (s.kernel.current == 0) ≡ false = ground (arith, nn) in
    let own : (w == w) ≡ true = ground arith in
    (
      record t {
        wait = update t.wait w (record (t.wait w) { wait_queue = q; linked = true });
        queue = update t.queue q (t.queue q ++ w ∷ []);
      },
      rw (own, some_proc) (ground (arith, own, some_proc)),
      refl,
      λ v. ground arith,
      refl,
      refl,
    )

-- A sleeping process stands in no other entry, since it ran.
module _ (flag : ℕ → ℕ) (s : Sync) (q w : ℕ) (i : IsSync flag s) (c : CanWait s w) where
  old_ne : (r v : ℕ) → queued v (s.queue r) ≡ true → v ≢ w
  old_ne r v h e = ground (arith, c.new r, ap (λ z. queued z (s.queue r)) e)

  pub old_proc : (r v : ℕ) → queued v (s.queue r) ≡ true → (s.wait v).proc ≢ s.kernel.current
  old_proc r v h e =
      let m = i.waiting r v h in
      let same : is_runnable (s.kernel.procs (s.wait v).proc).state
          ≡ is_runnable (s.kernel.procs s.kernel.current).state =
        ap (λ z. is_runnable (s.kernel.procs z).state) e in
      ground (arith, ap is_runnable m.asleep, ap is_runnable c.runs)

  old_or_new :
      (r v : ℕ)
      → queued v (update s.queue q (s.queue q ++ w ∷ []) r) ≡ true
      → (queued v (s.queue r) ≡ true) ⊎ ((r ≡ q) × (v ≡ w))
  old_or_new r v h = elim (Bool-cases (r == q)) [
    | inl e ↦
        let same : r ≡ q = ground arith in
        let here : (queued v (s.queue q) || w == v) ≡ true =
          sym (queued-append v (s.queue q) w) ∙ ground arith in
        elim (Bool-cases (w == v)) [
          | inl f ↦ inr (same, ground arith)
          | inr f ↦ inl (ap (λ z. queued v (s.queue z)) same ∙ ground arith)
        ]
    | inr e ↦ inl (ground arith)
  ]

  -- A process that went to sleep in `q` leaves the queues well formed.
  module _ (t : Sync) (sem : flag q ≡ wt_ksem) (taken : positive (s.value q) ≡ false)
      (ready_after : IsQueue t.kernel) (idle : t.kernel.idleproc ≡ s.kernel.idleproc)
      (states : (x : ℕ)
        → (t.kernel.procs x).state
          ≡ (if x == s.kernel.current then sleeping else (s.kernel.procs x).state))
      (calls : (x : ℕ)
        → (t.kernel.procs x).wait_state
          ≡ (if x == s.kernel.current then wt_ksem else (s.kernel.procs x).wait_state))
      (entries : (v : ℕ) → t.wait v ≡ (entered q w wt_ksem s).wait v)
      (queues : (r : ℕ) → t.queue r ≡ (entered q w wt_ksem s).queue r)
      (values : (r : ℕ) → t.value r ≡ s.value r) where
    was :
        (r v : ℕ)
        → queued v (t.queue r) ≡ true
        → (queued v (s.queue r) ≡ true) ⊎ ((r ≡ q) × (v ≡ w))
    was r v h = old_or_new r v (ap (queued v) (sym (queues r)) ∙ h)

    old_entry : (r v : ℕ) → queued v (s.queue r) ≡ true → t.wait v ≡ s.wait v
    old_entry r v h = let ne = old_ne r v h in entries v ∙ ground arith

    made : t.wait w ≡ record {
      proc = s.kernel.current;
      wakeup_flags = wt_interrupted;
      wait_queue = q;
      linked = true;
    }
    made = entries w ∙ ground arith

    IsWaiting-after : (r v : ℕ) → queued v (t.queue r) ≡ true → IsWaiting flag t r v
    IsWaiting-after r v h = elim (was r v h) [
      | inl g ↦
          let u = i.waiting r v g in
          let np : (s.wait v).proc ≢ s.kernel.current = old_proc r v g in
          let e = old_entry r v g in
          record {
            not_null = u.not_null;
            linked = rw e u.linked;
            wait_queue = rw e u.wait_queue;
            proc_not_null = rw e u.proc_not_null;
            proc_not_idle = rw (e, idle) u.proc_not_idle;
            asleep = rw e (states (s.wait v).proc ∙ ground (arith, u.asleep));
            waits_for = rw e (calls (s.wait v).proc ∙ ground (arith, u.waits_for));
          }
      | inr (at, here) ↦
          rw (at, here)
            (record {
              not_null = c.not_null;
              linked = rw made refl;
              wait_queue = rw made refl;
              proc_not_null = rw made c.proc_not_null;
              proc_not_idle = rw (made, idle) c.proc_not_idle;
              asleep = rw made (states s.kernel.current ∙ ground arith);
              waits_for = rw made (calls s.kernel.current ∙ ground (arith, sem));
            })
    ]

    alone_after :
        (r r' v v' : ℕ)
        → queued v (t.queue r) ≡ true
        → queued v' (t.queue r') ≡ true
        → (t.wait v).proc ≡ (t.wait v').proc
        → v ≡ v'
    alone_after r r' v v' h h' e = elim (was r v h) [
      | inl g ↦ elim (was r' v' h') [
        | inl g' ↦ i.alone r r' v v' g g' (
            ap (λ (x : Wait). x.proc) (sym (old_entry r v g))
            ∙ e
            ∙ ap (λ (x : Wait). x.proc) (old_entry r' v' g'))
        | inr (at', here') ↦ absurd (
            old_proc r v g (
              ap (λ (x : Wait). x.proc) (sym (old_entry r v g))
              ∙ e
              ∙ ap (λ x. (t.wait x).proc) here'
              ∙ ap (λ (x : Wait). x.proc) made))
      ]
      | inr (at, here) ↦ elim (was r' v' h') [
        | inl g' ↦ absurd (
            old_proc r' v' g' (
              ap (λ (x : Wait). x.proc) (sym (old_entry r' v' g'))
              ∙ sym e
              ∙ ap (λ x. (t.wait x).proc) here
              ∙ ap (λ (x : Wait). x.proc) made))
        | inr (at', here') ↦ here ∙ sym here'
      ]
    ]

    pub IsSync-entered : IsSync flag t
    IsSync-entered = record {
      ready = ready_after;
      unique = λ r. rw (queues r) (longer r);
      waiting = IsWaiting-after;
      alone = alone_after;
      guarded = λ r f g. elim (Bool-cases (r == q)) [
        | inl e ↦
            let same : r ≡ q = ground arith in absurd (ground (arith, values r, ap s.value same))
        | inr e ↦ queues r ∙ ground (arith, i.guarded r f (ap positive (sym (values r)) ∙ g))
      ];
    }
      where
        longer : (r : ℕ) → Unique ((entered q w wt_ksem s).queue r)
        longer r = elim (Bool-cases (r == q)) [
          | inl e ↦ rw e (Unique-append (s.queue q) w (i.unique q) (c.new q))
          | inr e ↦ rw e (i.unique r)
        ]
