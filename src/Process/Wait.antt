-- ===== src/Process/Wait.antt =====
-- `do_wait` of proc.c for any child, under the round-robin class.
use os_experiment.Prelude.{
  ℕ, zero, suc, ◌<◌, ◌≡◌, ◌≢◌, refl, false, not, some, List, [], ◌∷◌, ◌==◌, if◌then◌else◌, length,
  arith, Bool-cases, inl, inr, ◌∙◌,
}
use os_experiment.Sched.State.{Kernel, sleeping, is_zombie, queued, set_proc}
use os_experiment.Sched.RoundRobin.{default_sched_class}
use os_experiment.Sched.Queue.{IsQueue, set_proc-IsQueue_out}
use os_experiment.LinkedList.Chain.{first_or}
use os_experiment.Sched.Fair.{behind_first, schedule-rr}
use os_experiment.Process.Family.{Siblings, IsFamily}
use os_experiment.Process.Exit.{
  Tasks, wt_child, find_zombie, look_for_child, do_wait, Waited, bad_proc, asleep,
}

-- The youngest child that is a zombie, 0 for none.
abbrev pub first_zombie : Kernel → List ℕ → ℕ
first_zombie k [] = 0
first_zombie k (c ∷ cs) = if is_zombie (k.procs c).state then c else first_zombie k cs

find_zombie-first :
    (fuel : ℕ) (t : Tasks) (q younger first : ℕ) (cs : List ℕ)
    → length cs < fuel
    → Siblings t.relations q younger first cs
    → find_zombie fuel t first ≡ some (first_zombie t.kernel cs)
unfolding find_zombie
find_zombie-first zero t q younger first cs room s = absurd (omega arith)
find_zombie-first (suc fuel) t q younger first [] room s = ground arith
find_zombie-first (suc fuel) t q younger first (c ∷ cs) room (a, b, d, e, s) =
    let later = find_zombie-first fuel t q c (t.relations.optr c) cs (omega arith) s in
    elim (Bool-cases (is_zombie (t.kernel.procs c).state)) [
      | inl z ↦ rw (a, z) (ground arith)
      | inr z ↦ rw (a, z, later) (ground arith)
    ]

look_for_child-any :
    (fuel : ℕ) (t : Tasks) (cs : List ℕ)
    → length cs < fuel
    → IsFamily t.relations t.kernel.current cs
    → look_for_child fuel 0 t
      ≡ some (not (t.relations.cptr t.kernel.current == 0), first_zombie t.kernel cs)
unfolding look_for_child
look_for_child-any fuel t cs room v =
    rw
      (find_zombie-first fuel t t.kernel.current 0 (t.relations.cptr t.kernel.current) cs room
        v.chain)
      refl

no_child :
    (t : Tasks) (cs : List ℕ)
    → IsFamily t.relations t.kernel.current cs
    → (t.relations.cptr t.kernel.current == 0) ≡ (length cs == 0)
no_child t [] v = ground (arith, v.chain)
no_child t (c ∷ cs) v = ground (arith, v.chain)

-- `do_wait` for any child, without a zombie among the children: a process without children gets
-- -E_BAD_PROC at once and nothing changes, and any other sleeps and waits for a child, while the
-- first of the run queue runs, or the idle process where none is queued, and the others stay queued
-- in their order. The run queue is well formed and does not hold the running process, whose sibling
-- pointers are in order, and the fuel exceeds the number of children.
pub do_wait-sleeps :
    (fuel : ℕ) (t : Tasks) (cs : List ℕ)
    → IsFamily t.relations t.kernel.current cs
    → length cs < fuel
    → first_zombie t.kernel cs ≡ 0
    → IsQueue t.kernel
    → t.kernel.current ≢ 0
    → queued t.kernel.current t.kernel.rq.run_list ≡ false
    → (r : Waited) × (t' : Tasks) × (do_wait default_sched_class fuel 0 t ≡ some (r, t'))
      × (if length cs == 0
          then (r ≡ bad_proc) × (t' ≡ t)
          else (r ≡ asleep)
            × IsQueue t'.kernel
            × ((t'.kernel.procs t.kernel.current).state ≡ sleeping)
            × ((t'.kernel.procs t.kernel.current).wait_state ≡ wt_child)
            × (t'.kernel.current ≡ first_or t.kernel.rq.run_list t.kernel.idleproc)
            × (t'.kernel.rq.run_list ≡ behind_first t.kernel.rq.run_list))
unfolding do_wait
do_wait-sleeps fuel t cs v room no_zombie w nn out =
    let looked = look_for_child-any fuel t cs room v in
    let p = t.kernel.current in
    let k =
      set_proc t.kernel p (record (t.kernel.procs p) { state = sleeping; wait_state = wt_child }) in
    let (k', switched, s) =
      schedule-rr k
        (set_proc-IsQueue_out t.kernel p
          (record (t.kernel.procs p) { state = sleeping; wait_state = wt_child }) w out)
        nn out in
    elim (Bool-cases (length cs == 0)) [
      | inl e ↦ rw (looked, no_zombie, no_child t cs v, e) (bad_proc, t, refl, (refl, refl))
      | inr e ↦
          rw (looked, no_zombie, no_child t cs v, e, switched)
            (
              asleep,
              record t { kernel = k' },
              refl,
              (
                refl,
                s.queue,
                s.same.states p ∙ ground arith,
                s.same.waits p ∙ ground arith,
                s.current ∙ ground arith,
                s.run_list ∙ ground arith,
              ),
            )
    ]
