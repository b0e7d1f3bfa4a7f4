-- ===== src/Process/Exit.antt =====
-- The end of a process in proc.c: `do_exit`, `do_wait` and `do_kill`, over the scheduler. The memory
-- and the files that a process gives back, and its kernel stack, are not modelled.
use os_experiment.Prelude.{
  ℕ, zero, suc, ◌-◌, ◌^◌, Bool, true, false, not, ◌||◌, ◌&&◌, Option, none, some, ◌==◌,
  if◌then◌else◌, ◌>>=◌, ◌>>◌, assert, update,
}
use os_experiment.Sched.{wakeup_proc, schedule, interruptible}
use os_experiment.Sched.State.{Kernel, SchedClass, sleeping, zombie, is_zombie, set_proc}
use os_experiment.Process.Links.{Relations, remove_links, give_child}
use os_experiment.Process.Hash.{PidTable, find_proc, unhash_proc}

-- `WT_CHILD`, bit 0 with WT_INTERRUPTED.
abbrev pub wt_child : ℕ
wt_child = 0x80000001

-- The scheduler's state with the other fields of processes; `exiting` is PF_EXITING of `flags`.
pub record Tasks : Type 0 where
  pub kernel : Kernel
  pub relations : Relations
  pub pids : PidTable
  pub exit_code : ℕ → ℕ
  pub exiting : ℕ → Bool
  pub initproc : ℕ

abbrev pub waits_for_child : Kernel → ℕ → Bool
waits_for_child k p = (k.procs p).wait_state == wt_child

-- How a pass of `do_wait` ends: with the exit code of a child, with -E_BAD_PROC, or asleep, where
-- the process that runs next goes on.
pub data Waited : Type 0 where
  reaped : ℕ → Waited
  bad_proc asleep : Waited

-- The errors of `do_kill`: -E_INVAL and -E_KILLED.
pub data Killed : Type 0 where
  no_such already : Killed

-- The children from `first` on, searched for a zombie: `some 0` where there is none.
unfoldable pub find_zombie : ℕ → Tasks → ℕ → Option ℕ
find_zombie zero t first = none
find_zombie (suc fuel) t first =
    let rest = find_zombie fuel t (t.relations.optr first) in
    if first == 0
    then some 0
    else if is_zombie (t.kernel.procs first).state
    then some first
    else rest

-- One pass of `do_wait` from the label `repeat`: whether there is a child to wait for, and the
-- zombie found, 0 for none.
unfoldable pub look_for_child : ℕ → ℕ → Tasks → Option (Bool × ℕ)
unfolding find_zombie
look_for_child fuel pid t =
    let p = t.kernel.current in
    let proc = find_proc pid t.pids in
    if not (pid == 0)
    then (if not (proc == 0) && t.relations.parent proc == p
        then some (true, if is_zombie (t.kernel.procs proc).state then proc else 0)
        else some (false, 0))
    else (find_zombie fuel t (t.relations.cptr p) >>= λ found.
        some (not (t.relations.cptr p == 0), found))

-- The label `found` of `do_wait`, for the zombie `proc`; the first result is its exit code.
unfoldable pub reap : ℕ → Tasks → Option (ℕ × Tasks)
reap proc t =
    assert (not (proc == t.kernel.idleproc || proc == t.initproc))
    >> some (
      t.exit_code proc,
      record t { pids = unhash_proc proc t.pids; relations = remove_links proc t.relations },
    )

module _ (class : SchedClass) where
  -- `if (proc->wait_state == WT_CHILD) wakeup_proc(proc)`.
  unfoldable pub wake_waiting : ℕ → Kernel → Option Kernel
  wake_waiting p k = if waits_for_child k p then wakeup_proc class k p else some k

  -- The loop of `do_exit` over the children of the running process.
  unfoldable pub give_children : ℕ → Tasks → Option Tasks
  unfolding wake_waiting
  give_children zero t = none
  give_children (suc fuel) t =
      let p = t.kernel.current in
      let child = t.relations.cptr p in
      let rest =
        (if is_zombie (t.kernel.procs child).state
          then wake_waiting t.initproc t.kernel
          else some t.kernel)
        >>= λ k.
            give_children fuel
              (record t { kernel = k; relations = give_child t.initproc p t.relations }) in
      if child == 0 then some t else rest

  -- `do_exit` from the change of state to `schedule`, which does not come back.
  unfoldable pub do_exit : ℕ → ℕ → Tasks → Option Tasks
  unfolding wake_waiting give_children
  do_exit fuel error_code t =
      let p = t.kernel.current in
      assert (not (p == t.kernel.idleproc))
      >> assert (not (p == t.initproc))
      >> (wake_waiting (t.relations.parent p)
            (set_proc t.kernel p (record (t.kernel.procs p) { state = zombie }))
          >>= λ k.
              give_children fuel
                (record t { kernel = k; exit_code = update t.exit_code p error_code })
              >>= λ t'. schedule class t'.kernel >>= λ k'. some (record t' { kernel = k' }))

  -- `do_wait` from `repeat` on, up to and with its `schedule`; the exit code is a result. The check of
  -- `code_store` in front of it, which can answer -E_INVAL, is left out.
  unfoldable pub do_wait : ℕ → ℕ → Tasks → Option (Waited × Tasks)
  unfolding look_for_child reap
  do_wait fuel pid t = look_for_child fuel pid t >>= λ (haskid, found).
      if not (found == 0)
      then (reap found t >>= λ (code, t'). some (reaped code, t'))
      else if haskid
      then (let p = t.kernel.current in
          let k =
            set_proc t.kernel p
              (record (t.kernel.procs p) { state = sleeping; wait_state = wt_child }) in
          schedule class k >>= λ k'. some (asleep, record t { kernel = k' }))
      else some (bad_proc, t)

  -- Where `do_wait` goes on after `schedule`; the exit code is the 32-bit word of -E_KILLED.
  unfoldable pub resume_wait : ℕ → ℕ → Tasks → Option (Waited × Tasks)
  unfolding do_exit do_wait
  resume_wait fuel pid t =
      if t.exiting t.kernel.current
      then (do_exit fuel (2 ^ 32 - 9) t >>= λ t'. some (asleep, t'))
      else do_wait fuel pid t

  -- `do_kill`: `none` as the first result is success.
  unfoldable pub do_kill : ℕ → Tasks → Option (Option Killed × Tasks)
  do_kill pid t =
      let proc = find_proc pid t.pids in
      if proc == 0
      then some (some no_such, t)
      else if t.exiting proc
      then some (some already, t)
      else ((if interruptible (t.kernel.procs proc).wait_state
            then wakeup_proc class t.kernel proc
            else some t.kernel)
          >>= λ k. some (none, record t { kernel = k; exiting = update t.exiting proc true }))
