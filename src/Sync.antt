-- ===== src/Sync.antt =====
-- lab8/kern/sync: wait queues (wait.c) and semaphores (sem.c), over the scheduler.
pub mod Invariant
pub mod Wake
pub mod Serve
pub mod Asleep
pub mod Sleep
pub mod Monitor
use os_experiment.Prelude.{
  ℕ, zero, suc, ◌+◌, ◌-◌, ◌^◌, ◌++◌, Bool, true, false, not, ◌&&◌, ◌||◌, Option, none, some, List,
  [], ◌∷◌, ◌==◌, ltb, if◌then◌else◌, ◌>>=◌, ◌>>◌, assert, update, u32,
}
use os_experiment.Sched.{wakeup_proc, schedule}
use os_experiment.Sched.State.{Kernel, SchedClass, sleeping, set_proc}
use os_experiment.Sched.RoundRobin.{unlink}

-- `wait_t`; `linked` is whether its link is in a ring with others, and 0 is NULL.
pub record Wait : Type 0 where
  pub proc : ℕ
  pub wakeup_flags : ℕ
  pub wait_queue : ℕ
  pub linked : Bool

-- The entries by their addresses, the wait queues by theirs, each as its entries first to last, and
-- the values of semaphores by the addresses of their wait queues, as 32-bit words.
pub record Sync : Type 0 where
  pub kernel : Kernel
  pub wait : ℕ → Wait
  pub queue : ℕ → List ℕ
  pub value : ℕ → ℕ

-- `WT_KSEM` and `WT_INTERRUPTED`.
abbrev pub wt_ksem : ℕ
wt_ksem = 0x100

abbrev pub wt_interrupted : ℕ
wt_interrupted = 2 ^ 31

unfoldable pub wait_init : ℕ → ℕ → Sync → Sync
wait_init w p s = record s {
  wait =
      update s.wait w
        (record (s.wait w) { proc = p; wakeup_flags = wt_interrupted; linked = false });
}

unfoldable pub wait_queue_init : ℕ → Sync → Sync
wait_queue_init q s = record s { queue = update s.queue q [] }

unfoldable pub wait_queue_add : ℕ → ℕ → Sync → Option Sync
wait_queue_add q w s =
    assert (not (s.wait w).linked && not ((s.wait w).proc == 0))
    >> some (record s {
      wait = update s.wait w (record (s.wait w) { wait_queue = q; linked = true });
      queue = update s.queue q (s.queue q ++ w ∷ []);
    })

unfoldable pub wait_queue_del : ℕ → ℕ → Sync → Option Sync
unfolding unlink
wait_queue_del q w s =
    assert ((s.wait w).linked && (s.wait w).wait_queue == q)
    >> some (record s {
      wait = update s.wait w (record (s.wait w) { linked = false });
      queue = update s.queue q (unlink w (s.queue q));
    })

-- What stands behind `w` in the list, 0 for nothing.
unfoldable pub behind : ℕ → List ℕ → ℕ
behind w [] = 0
behind w (x ∷ []) = 0
behind w (x ∷ y ∷ l) = if x == w then y else behind w (y ∷ l)

-- What stands in front of `w`, with `before` in front of the list.
unfoldable pub in_front : ℕ → ℕ → List ℕ → ℕ
in_front before w [] = 0
in_front before w (x ∷ l) = if x == w then before else in_front x w l

unfoldable pub wait_queue_next : ℕ → ℕ → Sync → Option ℕ
unfolding behind
wait_queue_next q w s =
    assert ((s.wait w).linked && (s.wait w).wait_queue == q) >> some (behind w (s.queue q))

unfoldable pub wait_queue_prev : ℕ → ℕ → Sync → Option ℕ
unfolding in_front
wait_queue_prev q w s =
    assert ((s.wait w).linked && (s.wait w).wait_queue == q) >> some (in_front 0 w (s.queue q))

abbrev pub first_of : List ℕ → ℕ
first_of [] = 0
first_of (x ∷ l) = x

abbrev pub last_of : List ℕ → ℕ
last_of [] = 0
last_of (x ∷ []) = x
last_of (x ∷ y ∷ l) = last_of (y ∷ l)

abbrev pub wait_queue_first : ℕ → Sync → ℕ
wait_queue_first q s = first_of (s.queue q)

abbrev pub wait_queue_last : ℕ → Sync → ℕ
wait_queue_last q s = last_of (s.queue q)

abbrev pub is_nil : List ℕ → Bool
is_nil [] = true
is_nil (x ∷ l) = false

abbrev pub wait_queue_empty : ℕ → Sync → Bool
wait_queue_empty q s = is_nil (s.queue q)

abbrev pub wait_in_queue : ℕ → Sync → Bool
wait_in_queue w s = (s.wait w).linked

-- `wait_current_del`.
unfoldable pub wait_current_del : ℕ → ℕ → Sync → Option Sync
unfolding wait_queue_del
wait_current_del q w s = if wait_in_queue w s then wait_queue_del q w s else some s

unfoldable pub wait_current_set : ℕ → ℕ → ℕ → Sync → Option Sync
unfolding wait_init wait_queue_add
wait_current_set q w wait_state s =
    let p = s.kernel.current in
    let asleep = record (s.kernel.procs p) { state = sleeping; wait_state = wait_state } in
    assert (not (p == 0))
    >> wait_queue_add q w (record (wait_init w p s) { kernel = set_proc s.kernel p asleep })

unfoldable pub sem_init : ℕ → ℕ → Sync → Sync
unfolding wait_queue_init
sem_init q value s = record (wait_queue_init q s) { value = update s.value q value }

-- `value > 0`, of a signed word.
abbrev pub positive : ℕ → Bool
positive v = ltb 0 v && ltb v (2 ^ 31)

unfoldable pub try_down : ℕ → Sync → Bool × Sync
try_down q s =
    if positive (s.value q)
    then (true, record s { value = update s.value q (s.value q - 1) })
    else (false, s)

module _ (class : SchedClass) where
  unfoldable pub wakeup_wait : ℕ → ℕ → ℕ → Bool → Sync → Option Sync
  unfolding wait_queue_del
  wakeup_wait q w wakeup_flags del s = (if del then wait_queue_del q w s else some s) >>= λ t.
      let flagged = update t.wait w (record (t.wait w) { wakeup_flags = wakeup_flags }) in
      wakeup_proc class t.kernel (t.wait w).proc >>= λ k.
      some (record t { kernel = k; wait = flagged })

  unfoldable pub wakeup_first : ℕ → ℕ → Bool → Sync → Option Sync
  unfolding wakeup_wait
  wakeup_first q wakeup_flags del s =
      let w = wait_queue_first q s in if w == 0 then some s else wakeup_wait q w wakeup_flags del s

  -- The first loop of `wakeup_queue`, which takes every entry out.
  unfoldable pub wakeup_all : ℕ → ℕ → ℕ → Sync → Option Sync
  unfolding wakeup_wait
  wakeup_all zero q wakeup_flags s = none
  wakeup_all (suc fuel) q wakeup_flags s =
      let w = wait_queue_first q s in
      let rest = wakeup_wait q w wakeup_flags true s >>= λ t. wakeup_all fuel q wakeup_flags t in
      if w == 0 then some s else rest

  -- The second loop, from the entry `w` on.
  unfoldable pub wakeup_each : ℕ → ℕ → ℕ → ℕ → Sync → Option Sync
  unfolding wakeup_wait wait_queue_next
  wakeup_each zero q w wakeup_flags s = none
  wakeup_each (suc fuel) q w wakeup_flags s =
      let rest = wakeup_wait q w wakeup_flags false s >>= λ t.
      wait_queue_next q w t >>= λ next. wakeup_each fuel q next wakeup_flags t in
      if w == 0 then some s else rest

  unfoldable pub wakeup_queue : ℕ → ℕ → ℕ → Bool → Sync → Option Sync
  unfolding wakeup_all wakeup_each
  wakeup_queue fuel q wakeup_flags del s =
      if del
      then wakeup_all fuel q wakeup_flags s
      else wakeup_each fuel q (wait_queue_first q s) wakeup_flags s

  -- `__up`.
  unfoldable pub up_with : ℕ → ℕ → Sync → Option Sync
  unfolding wakeup_wait
  up_with q wait_state s =
      let w = wait_queue_first q s in
      if w == 0
      then some (record s { value = update s.value q (u32 (s.value q + 1)) })
      else (assert ((s.kernel.procs (s.wait w).proc).wait_state == wait_state)
          >> wakeup_wait q w wait_state true s)

  unfoldable pub up : ℕ → Sync → Option Sync
  unfolding up_with
  up q s = up_with q wt_ksem s

  -- `__down` up to and with its `schedule`; the first result is whether it returns at once. It is one
  -- step: an interrupt between the end of the protected part and `schedule` is left out.
  unfoldable pub down_with : ℕ → ℕ → ℕ → Sync → Option (Bool × Sync)
  unfolding wait_current_set
  down_with q w wait_state s =
      if positive (s.value q)
      then some (true, record s { value = update s.value q (s.value q - 1) })
      else (wait_current_set q w wait_state s >>= λ t.
          schedule class t.kernel >>= λ k. some (false, record t { kernel = k }))

-- Where `__down` goes on after `schedule`; the first result is what it returns.
unfoldable pub down_resumed : ℕ → ℕ → ℕ → Sync → Option (ℕ × Sync)
unfolding wait_current_del
down_resumed q w wait_state s = wait_current_del q w s >>= λ t.
    let flags = (t.wait w).wakeup_flags in some (if flags == wait_state then 0 else flags, t)

-- `down` after `schedule`, with its assert.
unfoldable pub down_returns : ℕ → ℕ → Sync → Option Sync
unfolding down_resumed
down_returns q w s = down_resumed q w wt_ksem s >>= λ (flags, t). assert (flags == 0) >> some t
