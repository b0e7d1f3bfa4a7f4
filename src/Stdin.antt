-- ===== src/Stdin.antt =====
-- The buffer of the keyboard device, lab8/kern/fs/devs/dev_stdin.c, over wait queues.
pub mod Ring
pub mod Input
use os_experiment.Prelude.{
  ℕ, zero, suc, ◌+◌, ◌-◌, ◌%◌, Bool, true, false, Option, none, some, List, [], ◌∷◌, ◌==◌, ltb,
  length, if◌then◌else◌, ◌>>=◌, update,
}
use os_experiment.Sched.{schedule}
use os_experiment.Sched.State.{SchedClass}
use os_experiment.Sync.{Sync, wait_queue_empty, wakeup_queue, wait_current_set, wait_current_del}

-- `STDIN_BUFSIZE` and `WT_KBD`.
abbrev pub stdin_bufsize : ℕ
stdin_bufsize = 4096

abbrev pub wt_kbd : ℕ
wt_kbd = 0x80000004

-- The static variables, with the wait queue at its address. Positions count the characters since
-- the start, and are far from the end of off_t.
pub record Stdin : Type 0 where
  pub stdin_buffer : ℕ → ℕ
  pub p_rpos : ℕ
  pub p_wpos : ℕ
  pub wait_queue : ℕ
  pub sync : Sync

-- The characters read until `len` are there or none is left.
unfoldable pub read_available : ℕ → Stdin → List ℕ × Stdin
read_available zero t = ([], t)
read_available (suc len) t =
    let rest = read_available len (record t { p_rpos = t.p_rpos + 1 }) in
    if ltb t.p_rpos t.p_wpos
    then (t.stdin_buffer (t.p_rpos % stdin_bufsize) ∷ rest.0, rest.1)
    else ([], t)

module _ (class : SchedClass) where
  -- `dev_stdin_write`, with fuel for the processes that it wakes.
  unfoldable pub dev_stdin_write : ℕ → ℕ → Stdin → Option Stdin
  dev_stdin_write fuel c t =
      if c == 0
      then some t
      else (let stored = record t {
        stdin_buffer = update t.stdin_buffer (t.p_wpos % stdin_bufsize) c;
        p_wpos = if ltb (t.p_wpos - t.p_rpos) stdin_bufsize then t.p_wpos + 1 else t.p_wpos;
      } in
          if wait_queue_empty t.wait_queue t.sync
          then some stored
          else (wakeup_queue class fuel t.wait_queue wt_kbd true t.sync >>= λ s.
              some (record stored { sync = s })))

  -- `dev_stdin_read` up to its end or its first sleep, in the entry `w`: the characters so far, and
  -- whether it returns.
  unfoldable pub dev_stdin_read : ℕ → ℕ → Stdin → Option (List ℕ × Bool × Stdin)
  unfolding read_available
  dev_stdin_read len w t =
      let (l, u) = read_available len t in
      if length l == len
      then some (l, true, u)
      else (wait_current_set u.wait_queue w wt_kbd u.sync >>= λ s. schedule class s.kernel >>= λ k.
          some (l, false, record u { sync = record s { kernel = k } }))

  -- From `schedule` on, with `len` characters still to read.
  unfoldable pub dev_stdin_resumed : ℕ → ℕ → Stdin → Option (List ℕ × Bool × Stdin)
  unfolding dev_stdin_read
  dev_stdin_resumed len w t = wait_current_del t.wait_queue w t.sync >>= λ s.
      let u = record t { sync = s } in
      if (s.wait w).wakeup_flags == wt_kbd then dev_stdin_read len w u else some ([], true, u)
