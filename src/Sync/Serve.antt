-- ===== src/Sync/Serve.antt =====
-- Whom a number of `up` calls serves, and `wakeup_queue` of lab8/kern/sync.
use mathlib.Core.Path.{subst}
use os_experiment.Prelude.{
  ℕ, zero, suc, ◌<◌, ◌≡◌, ◌≢◌, refl, true, false, Option, some, List, [], ◌∷◌, ◌++◌, length, ◌==◌,
  ◌>>=◌, arith, Bool-cases, inl, inr, ap, sym, ◌∙◌,
}
use os_experiment.Sched.State.{runnable, queued}
use os_experiment.Sched.RoundRobin.{default_sched_class, unlink}
use os_experiment.Sched.Queue.{Unique}
use os_experiment.Sched.Fair.{first-unlink}
use os_experiment.Sync.{
  Sync, Wait, wait_queue_first, first_of, wt_ksem, up, wakeup_all, wakeup_queue, wait_current_del,
  down_resumed, down_returns,
}
use os_experiment.Sync.Invariant.{IsSync}
use os_experiment.Sync.Wake.{Raised, wakeup_wait-IsSync, up-IsSync}

-- `up` again and again.
unfoldable pub ups : ℕ → ℕ → Sync → Option Sync
ups zero q s = some s
ups (suc n) q s = up default_sched_class q s >>= ups n q

pub down_returns-woken :
    (s : Sync) (q w : ℕ)
    → (s.wait w).linked ≡ false
    → (s.wait w).wakeup_flags ≡ wt_ksem
    → down_returns q w s ≡ some s
unfolding down_returns down_resumed wait_current_del
down_returns-woken s q w out flags = ground (arith, out, flags)

-- Nobody is passed over: with well-formed queues a process that waits for a semaphore behind `n`
-- others is runnable after `n + 1` calls of `up`, none of which fails, and its `down` then returns
-- and changes nothing more; those behind it wait on in their order.
pub ups-serve :
    (xs : List ℕ) (flag : ℕ → ℕ) (s : Sync) (q w : ℕ) (ys : List ℕ)
    → IsSync flag s
    → flag q ≡ wt_ksem
    → s.queue q ≡ xs ++ w ∷ ys
    → (s' : Sync) × (ups (suc (length xs)) q s ≡ some s')
      × IsSync flag s'
      × (s'.queue q ≡ ys)
      × ((s'.kernel.procs (s.wait w).proc).state ≡ runnable)
      × (down_returns q w s' ≡ some s')
unfolding ups
ups-serve [] flag s q w ys i sem e =
    let (s', did, j, r, same) = up-IsSync flag s q i sem in
    let (value, left, woken) = subst (λ l. Raised s q l s') e r in
    (s', rw did refl, j, left, woken.proc, down_returns-woken s' q w woken.unlinked woken.flags)
ups-serve (x ∷ xs) flag s q w ys i sem e =
    let (s1, did, j, r, same) = up-IsSync flag s q i sem in
    let (value, left, woken) = subst (λ l. Raised s q l s1) e r in
    let fresh : queued x (xs ++ w ∷ ys) ≡ false = (subst (λ l. Unique l) e (i.unique q)).0 in
    let ne : w ≢ x =
      λ h. ground (arith, ap (λ z. queued z (xs ++ w ∷ ys)) h, queued-middle xs w ys) in
    let (s', done, j', left', run, back) = ups-serve xs flag s1 q w ys j sem left in
    (
      s',
      rw did done,
      j',
      left',
      ap (λ (v : Wait). (s'.kernel.procs v.proc).state) (sym (woken.others w ne)) ∙ run,
      back,
    )
  where
    queued-middle : (xs : List ℕ) (w : ℕ) (ys : List ℕ) → queued w (xs ++ w ∷ ys) ≡ true
    queued-middle [] w ys = ground arith
    queued-middle (x ∷ xs) w ys = ground (arith, queued-middle xs w ys)

-- What waking all entries of `q` leaves, `ws` being those.
pub record AllWoken (s : Sync) (q wakeup_flags : ℕ) (ws : List ℕ) (s' : Sync) : Type 0 where
  pub empty : s'.queue q ≡ []
  pub woken :
      (w : ℕ)
      → queued w ws ≡ true
      → ((s'.kernel.procs (s.wait w).proc).state ≡ runnable)
        × ((s'.wait w).wakeup_flags ≡ wakeup_flags)
  pub others : (v : ℕ) → queued v ws ≡ false → s'.wait v ≡ s.wait v
  pub runs : (x : ℕ) → (s.kernel.procs x).state ≡ runnable → (s'.kernel.procs x).state ≡ runnable

all_woken :
    (fuel : ℕ) (ws : List ℕ) (flag : ℕ → ℕ) (s : Sync) (q wakeup_flags : ℕ)
    → IsSync flag s
    → s.queue q ≡ ws
    → length ws < fuel
    → (s' : Sync) × (wakeup_all default_sched_class fuel q wakeup_flags s ≡ some s')
      × IsSync flag s'
      × AllWoken s q wakeup_flags ws s'
unfolding wakeup_all
all_woken zero ws flag s q wakeup_flags i e room = absurd (omega arith)
all_woken (suc fuel) [] flag s q wakeup_flags i e room =
    let at : wait_queue_first q s ≡ 0 = ap first_of e in
    (
      s,
      rw at refl,
      i,
      record {
        empty = e;
        woken = λ w h. absurd (ground arith);
        others = λ v h. refl;
        runs = λ x h. h;
      },
    )
all_woken (suc fuel) (w ∷ ws) flag s q wakeup_flags i e room =
    let h : queued w (s.queue q) ≡ true = rw e (ground arith) in
    let m = i.waiting q w h in
    let fresh : queued w ws ≡ false = (subst (λ l. Unique l) e (i.unique q)).0 in
    let (s1, did, j, one) = wakeup_wait-IsSync flag s q w wakeup_flags i h in
    let left : s1.queue q ≡ ws =
      one.queues q ∙ ground (arith, ap (unlink w) e, first-unlink w ws) in
    let (s', done, j', rest) = all_woken fuel ws flag s1 q wakeup_flags j left (omega arith) in
    let at : wait_queue_first q s ≡ w = ap first_of e in
    let found : (w == 0) ≡ false = ground (arith, m.not_null) in
    (
      s',
      rw (at, found, did) done,
      j',
      record {
        empty = rest.empty;
        woken = λ v g. elim (Bool-cases (w == v)) [
          | inl f ↦
              let same : w ≡ v = ground arith in
              subst
                (λ x.
                  ((s'.kernel.procs (s.wait x).proc).state ≡ runnable)
                  × ((s'.wait x).wakeup_flags ≡ wakeup_flags))
                same
                (
                  rest.runs (s.wait w).proc one.proc,
                  ap (λ (x : Wait). x.wakeup_flags) (rest.others w fresh) ∙ one.flags,
                )
          | inr f ↦
              let (run, flags) = rest.woken v (ground arith) in
              (
                ap (λ (x : Wait). (s'.kernel.procs x.proc).state)
                      (sym (one.others v (ground arith)))
                    ∙ run,
                flags,
              )
        ];
        others = λ v g. rest.others v (ground arith) ∙ one.others v (ground arith);
        runs = λ x g. rest.runs x (one.runs x g);
      },
    )

-- `wakeup_queue` that takes the entries out, with fuel above their number: it never fails, every
-- process of the queue becomes runnable and is told why, the queue is empty, and all queues stay
-- well formed.
pub wakeup_queue-IsSync :
    (fuel : ℕ) (flag : ℕ → ℕ) (s : Sync) (q wakeup_flags : ℕ)
    → IsSync flag s
    → length (s.queue q) < fuel
    → (s' : Sync) × (wakeup_queue default_sched_class fuel q wakeup_flags true s ≡ some s')
      × IsSync flag s'
      × AllWoken s q wakeup_flags (s.queue q) s'
unfolding wakeup_queue
wakeup_queue-IsSync fuel flag s q wakeup_flags i room =
    all_woken fuel (s.queue q) flag s q wakeup_flags i refl room
