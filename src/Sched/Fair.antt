-- ===== src/Sched/Fair.antt =====
-- `schedule` of sched.c under the round-robin class: who runs next, and in which order all do.
use mathlib.Core.List.{append_assoc}
use os_experiment.Prelude.{
  ℕ, zero, suc, ◌+◌, ◌≡◌, ◌≢◌, refl, ap, ◌∙◌, true, false, not, ◌&&◌, Option, some, List, [], ◌∷◌,
  ◌++◌, ◌==◌, if◌then◌else◌, length, Bool-cases, inl, inr, arith, ◌>>=◌,
}
use os_experiment.LinkedList.Chain.{first_or}
use os_experiment.Sched.{sched_class_enqueue, run_proc, run_next, schedule}
use os_experiment.Sched.State.{Proc, Kernel, queued, is_runnable, set_proc}
use os_experiment.Sched.RoundRobin.{default_sched_class, rr_pick_next, unlink}
use os_experiment.Sched.Queue.{IsQueued, IsQueue, rr_enqueue-IsQueue, rr_dequeue-IsQueue}

abbrev pub behind_first : List ℕ → List ℕ
behind_first [] = []
behind_first (x ∷ xs) = xs

-- The processes that may run, in their order: those queued, then `current` if it is runnable and
-- not idle.
abbrev pub ready : Kernel → List ℕ
ready k =
    if is_runnable (k.procs k.current).state && not (k.current == k.idleproc)
    then k.rq.run_list ++ k.current ∷ []
    else k.rq.run_list

-- What no scheduling step changes of a process.
pub record SameStates (k k' : Kernel) : Type 0 where
  pub states : (p : ℕ) → (k'.procs p).state ≡ (k.procs p).state
  pub waits : (p : ℕ) → (k'.procs p).wait_state ≡ (k.procs p).wait_state
  pub idle : k'.idleproc ≡ k.idleproc

pub first-unlink : (x : ℕ) (xs : List ℕ) → unlink x (x ∷ xs) ≡ xs
unfolding unlink
first-unlink x xs = ground arith

-- Stores to fields that the queue does not depend on.
set_proc-IsQueue :
    (k : Kernel) (p : ℕ) (r : Proc)
    → IsQueue k
    → r.state ≡ (k.procs p).state
    → r.has_rq ≡ (k.procs p).has_rq
    → r.time_slice ≡ (k.procs p).time_slice
    → IsQueue (set_proc k p r)
set_proc-IsQueue k p r v s h t = record {
  unique = v.unique;
  counted = v.counted;
  member = kept;
  slices = v.slices;
  idle = v.idle;
}
  where
    kept : (x : ℕ) → queued x k.rq.run_list ≡ true → IsQueued (set_proc k p r) x
    kept x q = elim (Bool-cases (x == p)) [
      | inl here ↦ let e : x ≡ p = ground arith in ground (arith, v.member x q, ap k.procs e)
      | inr there ↦ ground (arith, v.member x q)
    ]

run_proc-IsQueue :
    (k : Kernel) (p : ℕ)
    → IsQueue k
    → IsQueue (run_proc k p)
      × ((run_proc k p).current ≡ p)
      × ((run_proc k p).rq ≡ k.rq)
      × SameStates k (run_proc k p)
unfolding run_proc
run_proc-IsQueue k p v =
    let w =
      set_proc-IsQueue k p (record (k.procs p) { runs = (k.procs p).runs + 1 }) v refl refl refl in
    elim (Bool-cases (p == k.current)) [
      | inl stays ↦ rw stays (w, ground arith, refl, ground arith)
      | inr moves ↦ rw moves (
        record {
          unique = w.unique;
          counted = w.counted;
          member = λ x q. ground (arith, w.member x q);
          slices = w.slices;
          idle = w.idle;
        },
        refl,
        refl,
        record { states = λ x. ground arith; waits = λ x. ground arith; idle = refl },
      )
    ]

-- What `run_next` makes of a well-formed queue.
pub record Switched (k : Kernel) (ready_list : List ℕ) (k' : Kernel) : Type 0 where
  pub queue : IsQueue k'
  pub current : k'.current ≡ first_or ready_list k.idleproc
  pub run_list : k'.rq.run_list ≡ behind_first ready_list
  pub out : queued k'.current k'.rq.run_list ≡ false
  pub same : SameStates k k'

run_next-rr :
    (k : Kernel) (xs : List ℕ)
    → IsQueue k
    → k.rq.run_list ≡ xs
    → (k' : Kernel) × (run_next default_sched_class k ≡ some k') × Switched k xs k'
unfolding run_next rr_pick_next
run_next-rr k [] v e =
    let (w, cur, rq, same) = run_proc-IsQueue k k.idleproc v in
    (
      run_proc k k.idleproc,
      ground (arith, e),
      record {
        queue = w;
        current = cur;
        run_list = ground (arith, rq, e);
        out = ground (arith, rq, e);
        same = same;
      },
    )
run_next-rr k (x ∷ xs) v e =
    let q : queued x k.rq.run_list ≡ true = rw e (ground arith) in
    let (k', did, u, list, gone, procs, _, idle) = rr_dequeue-IsQueue k x v q in
    let (w, cur, rq, same) = run_proc-IsQueue k' x u in
    let list' : k'.rq.run_list ≡ xs = list ∙ rw e (first-unlink x xs) in
    (
      run_proc k' x,
      ground (arith, e, did, (v.member x q).not_null),
      record {
        queue = w;
        current = cur;
        run_list = ground (arith, rq, list');
        out = ground (arith, rq, cur, gone);
        same = record {
          states = λ p. same.states p ∙ ap (λ (f : ℕ → Proc). (f p).state) procs;
          waits = λ p. same.waits p ∙ ap (λ (f : ℕ → Proc). (f p).wait_state) procs;
          idle = same.idle ∙ idle;
        };
      },
    )

Switched-after :
    {k k1 k' : Kernel} {l : List ℕ} → SameStates k k1 → Switched k1 l k' → Switched k l k'
Switched-after {k} {k1} {k'} {l} a s = record {
  queue = s.queue;
  current = s.current ∙ ap (first_or l) a.idle;
  run_list = s.run_list;
  out = s.out;
  same = record {
    states = λ p. s.same.states p ∙ a.states p;
    waits = λ p. s.same.waits p ∙ a.waits p;
    idle = s.same.idle ∙ a.idle;
  };
}

-- `schedule` under the round-robin class never fails on a well-formed queue that does not hold
-- `current`: the first ready process runs, or the idle process where none is ready; the others
-- stay queued in their order, with the process that ran before last if it is still runnable. The
-- queue stays well formed and without `current`, and no process changes its state.
pub schedule-rr :
    (k : Kernel)
    → IsQueue k
    → k.current ≢ 0
    → queued k.current k.rq.run_list ≡ false
    → (k' : Kernel) × (schedule default_sched_class k ≡ some k') × Switched k (ready k) k'
unfolding schedule sched_class_enqueue
schedule-rr k v nn out = elim (Bool-cases (is_runnable (k.procs k.current).state)) [
  | inl run ↦ elim (Bool-cases (k.current == k.idleproc)) [
    | inl idle ↦
        let (k', did, s) = run_next-rr quiet k.rq.run_list w refl in
        (k', ground (arith, run, idle, did), rw (run, idle) (Switched-after quiet_same s))
    | inr busy ↦
        let (k1, put, w1, list, cur, same_idle, states, waits) =
          rr_enqueue-IsQueue quiet k.current w nn (ground arith) (ground (arith, run)) out in
        let (k', did, s) = run_next-rr k1 (k.rq.run_list ++ k.current ∷ []) w1 list in
        (
          k',
          ground (arith, run, busy, put, did),
          rw (run, busy)
              (Switched-after
                (record {
                  states = λ p. states p ∙ quiet_same.states p;
                  waits = λ p. waits p ∙ quiet_same.waits p;
                  idle = same_idle;
                })
                s),
        )
  ]
  | inr halted ↦
      let (k', did, s) = run_next-rr quiet k.rq.run_list w refl in
      (k', ground (arith, halted, did), rw halted (Switched-after quiet_same s))
]
  where
    quiet : Kernel
    quiet = set_proc k k.current (record (k.procs k.current) { need_resched = false })

    w : IsQueue quiet
    w =
        set_proc-IsQueue k k.current (record (k.procs k.current) { need_resched = false }) v refl
          refl refl

    quiet_same : SameStates k quiet
    quiet_same = record { states = λ p. ground arith; waits = λ p. ground arith; idle = refl }

-- `schedule` again and again.
unfoldable pub schedules : ℕ → Kernel → Option Kernel
schedules zero k = some k
schedules (suc n) k = schedule default_sched_class k >>= schedules n

-- Every queued process gets its turn: where `n` processes are queued in front of it and the
-- running process is runnable and not idle, the process runs after `n + 1` calls of `schedule`
-- with no other event in between.
pub schedules-reach :
    (xs : List ℕ) (k : Kernel) (p : ℕ) (ys : List ℕ)
    → IsQueue k
    → k.current ≢ 0
    → k.current ≢ k.idleproc
    → is_runnable (k.procs k.current).state ≡ true
    → queued k.current k.rq.run_list ≡ false
    → k.rq.run_list ≡ xs ++ p ∷ ys
    → (k' : Kernel) × (schedules (suc (length xs)) k ≡ some k') × (k'.current ≡ p)
unfolding schedules
schedules-reach [] k p ys v nn ni run out e =
    let (k', did, s) = schedule-rr k v nn out in
    (k', rw did refl, ground (arith, s.current, e, run))
schedules-reach (x ∷ xs) k p ys v nn ni run out e =
    let (k', did, s) = schedule-rr k v nn out in
    let m = v.member x (ground (arith, e)) in
    let cur : k'.current ≡ x = ground (arith, s.current, e, run) in
    let all : ready k ≡ (x ∷ (xs ++ p ∷ ys)) ++ k.current ∷ [] =
      ground (arith, run, ap (λ l. l ++ k.current ∷ []) e) in
    let list : k'.rq.run_list ≡ xs ++ p ∷ (ys ++ k.current ∷ []) =
      s.run_list ∙ ap behind_first all ∙ append_assoc xs (p ∷ ys) (k.current ∷ []) in
    let (k'', did', c) =
      schedules-reach xs k' p (ys ++ k.current ∷ []) s.queue (rw cur m.not_null)
        (ground (arith, cur, m.not_idle, s.same.idle))
        (rw cur (ap is_runnable (s.same.states x) ∙ m.runnable)) s.out list in
    (k'', rw did did', c)
