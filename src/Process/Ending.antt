-- ===== src/Process/Ending.antt =====
-- `do_exit` of proc.c under the round-robin class.
use mathlib.Core.Path.{subst}
use os_experiment.Prelude.{
  ℕ, ◌<◌, ◌≡◌, refl, false, some, List, ◌==◌, update, length, arith, sym, ◌∙◌,
}
use os_experiment.Sched.State.{Kernel, zombie, queued}
use os_experiment.Sched.RoundRobin.{default_sched_class}
use os_experiment.Sched.Queue.{set_proc-IsQueue_out}
use os_experiment.Sched.Fair.{schedule-rr}
use os_experiment.Process.Orphans.{IsLeaving}
use os_experiment.Process.Exit.{Tasks, do_exit}
use os_experiment.Process.Bequest.{IsAlive, Awakens, wake_waiting-rr, Bequeathed, give_children-rr}
use os_experiment.Process.Dying.{
  dying, CanExit, Exited, IsAlive-dying, running, unqueued, Exited-lem,
}

-- An exit of a process that is neither the idle nor the first one never fails under the round-robin
-- class: it is a zombie with its exit code, its children are the first process's youngest, a parent
-- that waited for a child is runnable, and so is the first process if it waited and one of the
-- children is a zombie. Another process runs, the first of the run queue where one was queued, and
-- the queue stays well formed and does not hold the one that ended. The queue is well formed before
-- and does not hold the running process, the sibling pointers of the two families are in order, the
-- parent and the first process are neither idle nor zombies, and the fuel exceeds the number of
-- children.
pub do_exit-rr :
    (fuel error_code : ℕ) (t : Tasks) (cs ds : List ℕ)
    → CanExit t cs ds
    → length cs < fuel
    → (t' : Tasks) × (do_exit default_sched_class fuel error_code t ≡ some t')
      × Exited t t.kernel.current cs ds error_code t'
unfolding do_exit
do_exit-rr fuel error_code t cs ds v room =
    let p = t.kernel.current in
    let not_idle : (p == t.kernel.idleproc) ≡ false = ground (arith, v.not_idle) in
    let not_init : (p == t.initproc) ≡ false = ground (arith, v.not_init) in
    let parent = t.relations.parent p in
    let (k, woke, a, r) =
      wake_waiting-rr parent (dying t.kernel)
        (set_proc-IsQueue_out t.kernel t.kernel.current
          (record (t.kernel.procs t.kernel.current) { state = zombie }) v.queue v.out)
        (IsAlive-dying t.kernel parent v.not_own v.parent) in
    let init : IsAlive k t.initproc =
      IsAlive-Awakens-any parent (dying t.kernel) k t.initproc a
        (IsAlive-dying t.kernel t.initproc (λ e. v.not_init (sym e)) v.init) in
    let t1 = record t { kernel = k; exit_code = update t.exit_code p error_code } in
    let (t2, gave, left) =
      give_children-rr fuel t1 cs ds room a.queue init (λ e. v.not_init (sym a.current ∙ e))
        (subst (λ x. IsLeaving t.relations x cs) (sym a.current)
          (record { younger = 0; chain = v.children.chain; unique = v.children.unique }))
        v.init_children in
    let b = subst (λ x. Bequeathed t1 x cs ds t2) a.current left in
    let at_p : t2.kernel.current ≡ p = running t cs ds error_code v k a r t2 b in
    let clear : queued p t2.kernel.rq.run_list ≡ false = unqueued t cs ds error_code v k a r t2 b in
    let (k3, switched, s) =
      schedule-rr t2.kernel b.kernel.queue (λ e. v.not_null (sym at_p ∙ e))
        (subst (λ x. queued x t2.kernel.rq.run_list ≡ false) (sym at_p) clear) in
    (
      record t2 { kernel = k3 },
      rw (not_idle, not_init, woke, gave, switched) refl,
      Exited-lem t cs ds error_code v k a r t2 b k3 s,
    )
  where
    IsAlive-Awakens-any :
        (p : ℕ) (k k' : Kernel) (q : ℕ) → Awakens p k k' → IsAlive k q → IsAlive k' q
    IsAlive-Awakens-any p k k' q w a = record {
      not_null = a.not_null;
      not_idle = λ e. a.not_idle (e ∙ w.idle);
      alive = w.zombies q ∙ a.alive;
    }
