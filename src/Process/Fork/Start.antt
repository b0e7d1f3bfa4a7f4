-- ===== src/Process/Fork/Start.antt =====
-- How `do_fork` of lab8/kern/process/proc.c starts a child, under the round-robin class.
use os_experiment.Prelude.{
  ℕ, ◌+◌, ◌*◌, ◌≡◌, ◌≢◌, ◌<◌, refl, true, false, some, List, [], ◌∷◌, ◌++◌, map, length, ◌==◌,
  if◌then◌else◌, update, arith, ◌∙◌,
}
use mathlib.Core.Path.{subst}
use os_experiment.Sched.State.{uninit, runnable, queued, is_zombie, set_proc}
use os_experiment.Sched.RoundRobin.{default_sched_class}
use os_experiment.Sched.Queue.{IsQueue, set_proc-IsQueue_out}
use os_experiment.Sched.Wake.{wakeup_proc-rr}
use os_experiment.Process.Pid.{PidState, max_pid, get_pid}
use os_experiment.Process.Pid.Unique.{used}
use os_experiment.Process.Pid.Fresh.{IsPids, get_pid-IsPids}
use os_experiment.Process.Hash.{hash_proc, find_proc, find_proc-hash_proc}
use os_experiment.Process.Links.{Relations, set_links}
use os_experiment.Process.Family.{IsFamily, Siblings-same, eq_self, set_links-IsFamily}
use os_experiment.Process.Leave.{queued-ne}
use os_experiment.Process.Exit.{Tasks}
use os_experiment.Process.Fork.{Forking, child, enter_child, start_child}

-- The numbers of the processes in `proc_list`.
abbrev pub pids_of : Tasks → List ℕ
pids_of t = map t.pids.pid t.relations.proc_list

-- The kernel behind the start of the child `p` with the number `pid`.
pub record IsStarted {W : Type 0} (family : ℕ → List ℕ) (p pid : ℕ) (s t : Forking W) : Type 0 where
  pub unused : used pid (pids_of s.tasks) ≡ false
  pub positive : 0 < pid
  pub bounded : pid < max_pid
  pub pids : IsPids (pid ∷ pids_of s.tasks) t.pid_state
  pub found : find_proc pid t.tasks.pids ≡ p
  pub families :
      (q : ℕ)
      → IsFamily t.tasks.relations q
          (if q == s.tasks.kernel.current then p ∷ family q else family q)
  pub queue : IsQueue t.tasks.kernel
  pub last : t.tasks.kernel.rq.run_list ≡ s.tasks.kernel.rq.run_list ++ p ∷ []
  pub runs : (t.tasks.kernel.procs p).state ≡ runnable

-- A process in no family may get another parent.
adopted :
    (r : Relations) (p parent q : ℕ) (xs : List ℕ)
    → queued p xs ≡ false
    → IsFamily r q xs
    → IsFamily (record r { parent = update r.parent p parent }) q xs
adopted r p parent q xs out v = record {
  chain =
      Siblings-same r (record r { parent = update r.parent p parent }) q 0 (r.cptr q) xs
        (λ x h.
          let other : (x == p) ≡ false = ground (arith, queued-ne x p xs h out) in
          (rw other refl, refl, refl))
        v.chain;
  unique = v.unique;
}

module _ {W : Type 0} (fuel p : ℕ) (s : Forking W) where
  abbrev current : ℕ
  current = s.tasks.kernel.current

  abbrev child_relations : Relations
  child_relations =
      set_links p (record s.tasks.relations { parent = update s.tasks.relations.parent p current })

  -- The state behind `enter_child`.
  abbrev entered : PidState → Forking W
  entered found = record s {
    pid_state = found;
    tasks = record s.tasks {
      pids = hash_proc p (record s.tasks.pids { pid = update s.tasks.pids.pid p found.last_pid });
      kernel =
          set_proc s.tasks.kernel current
            (record (s.tasks.kernel.procs current) { wait_state = 0 });
      relations = child_relations;
    };
  }

  enter_child-entered :
      (found : PidState)
      → get_pid fuel (pids_of s.tasks) s.pid_state ≡ some found
      → enter_child fuel p s ≡ some (entered found)
  unfolding enter_child
  enter_child-entered found e = rw e refl

  pid_kept : (found : PidState) → (entered found).tasks.pids.pid p ≡ found.last_pid
  unfolding hash_proc
  pid_kept found = rw (eq_self p) refl

  found_again :
      (found : PidState)
      → 0 < found.last_pid
      → found.last_pid < max_pid
      → find_proc found.last_pid (entered found).tasks.pids ≡ p
  found_again found low high =
      let t = record s.tasks.pids { pid = update s.tasks.pids.pid p found.last_pid } in
      let mine : t.pid p ≡ found.last_pid = rw (eq_self p) refl in
      let same : (t.pid p == found.last_pid) ≡ true = ground arith in
      find_proc-hash_proc p found.last_pid t (omega arith) (omega arith) ∙ rw same refl

  child_families :
      (family : ℕ → List ℕ)
      → p ≢ 0
      → ((x : ℕ) → IsFamily s.tasks.relations x (family x))
      → ((x : ℕ) → queued p (family x) ≡ false)
      → (x : ℕ) → IsFamily child_relations x (if x == current then p ∷ family x else family x)
  child_families family nn families new x =
      let r = record s.tasks.relations { parent = update s.tasks.relations.parent p current } in
      let mine : r.parent p ≡ current = rw (eq_self p) refl in
      subst (λ c. IsFamily child_relations x (if x == c then p ∷ family x else family x)) mine
        (set_links-IsFamily p x r family
          (λ y. adopted s.tasks.relations p current y (family y) (new y) (families y)) new nn)

-- With the running process out of the queue, a blank process in no family that is neither running
-- nor idle, well-formed families, queue and process numbers, fewer than MAX_PID - 1 processes and
-- fuel above twice MAX_PID, the start of a child never fails. The child gets a number in range that
-- no process has and by which it is found, is the youngest child of the running process and in no
-- other family, runs behind all that wait to run, and the numbers, the families and the queue stay
-- well formed.
pub start_child-IsStarted :
    {W : Type 0} (fuel p : ℕ) (s : Forking W) (family : ℕ → List ℕ)
    → IsQueue s.tasks.kernel
    → p ≢ 0
    → p ≢ s.tasks.kernel.idleproc
    → p ≢ s.tasks.kernel.current
    → (s.tasks.kernel.procs p).state ≡ uninit
    → queued s.tasks.kernel.current s.tasks.kernel.rq.run_list ≡ false
    → IsPids (pids_of s.tasks) s.pid_state
    → length (pids_of s.tasks) + 1 < max_pid
    → 2 * max_pid < fuel
    → ((x : ℕ) → IsFamily s.tasks.relations x (family x))
    → ((x : ℕ) → queued p (family x) ≡ false)
    → (pid : ℕ) × (t : Forking W) × (start_child default_sched_class fuel p s ≡ some (child pid, t))
      × IsStarted family p pid s t
unfolding start_child
start_child-IsStarted fuel p s family q nn ni nc blank out v few room families new =
    let current = s.tasks.kernel.current in
    let (found, got, unused, low, high, pids) =
      get_pid-IsPids fuel (pids_of s.tasks) s.pid_state v few room in
    let t = entered fuel p s found in
    let k = t.tasks.kernel in
    let other : (p == current) ≡ false = ground arith in
    let still : (k.procs p).state ≡ uninit = rw other blank in
    let alive : is_zombie (k.procs p).state ≡ false = rw still refl in
    let (k', woken, queue, list, states, waits, cur, idle) =
      wakeup_proc-rr k p
        (set_proc-IsQueue_out s.tasks.kernel current
          (record (s.tasks.kernel.procs current) { wait_state = 0 }) q out)
        nn ni alive in
    (
      found.last_pid,
      record t { tasks = record t.tasks { kernel = k' } },
      rw (enter_child-entered fuel p s found got, woken, pid_kept fuel p s found) refl,
      record {
        unused = unused;
        positive = low;
        bounded = high;
        pids = pids;
        found = found_again fuel p s found low high;
        families = λ x. child_families fuel p s family nn families new x;
        queue = queue;
        last = list ∙ rw (still, other) refl;
        runs = states p ∙ rw (eq_self p) refl;
      },
    )
