-- ===== src/Process/Pid.antt =====
-- `get_pid` of proc.c, over the numbers of the processes in `proc_list`, first to last.
pub mod Unique
pub mod Fresh
use os_experiment.Prelude.{
  ℕ, zero, suc, ◌+◌, Bool, true, false, ◌&&◌, Option, none, some, List, [], ◌∷◌, ltb, leb, ◌==◌,
  if◌then◌else◌,
}

-- `MAX_PID`, twice MAX_PROCESS.
abbrev pub max_pid : ℕ
max_pid = 8192

-- The static variables of `get_pid`.
pub record PidState : Type 0 where
  pub last_pid : ℕ
  pub next_safe : ℕ

-- How a walk over the list ends: at its end, or with `goto repeat`.
pub data Walk : Type 0 where
  finished repeated : PidState → Walk

-- The `while` of `get_pid`.
unfoldable pub walk : List ℕ → PidState → Walk
walk [] s = finished s
walk (pid ∷ pids) s =
    let last = s.last_pid + 1 in
    let bumped = walk pids (record s { last_pid = last }) in
    let narrowed = walk pids (record s { next_safe = pid }) in
    let onward = walk pids s in
    if pid == s.last_pid
    then (if leb s.next_safe last
        then repeated
            (record { last_pid = if leb max_pid last then 1 else last; next_safe = max_pid })
        else bumped)
    else if ltb s.last_pid pid && ltb pid s.next_safe
    then narrowed
    else onward

-- The label `repeat`, as often as the fuel allows.
unfoldable pub search_pid : ℕ → List ℕ → PidState → Option PidState
unfolding walk
search_pid zero pids s = none
search_pid (suc fuel) pids s = elim (walk pids s) [
  | finished s' ↦ some s'
  | repeated s' ↦ search_pid fuel pids s'
]

-- The new number is the `last_pid` of the state that is left.
unfoldable pub get_pid : ℕ → List ℕ → PidState → Option PidState
unfolding search_pid
get_pid fuel pids s =
    let last = s.last_pid + 1 in
    if leb max_pid last
    then search_pid fuel pids (record { last_pid = 1; next_safe = max_pid })
    else if leb s.next_safe last
    then search_pid fuel pids (record { last_pid = last; next_safe = max_pid })
    else some (record s { last_pid = last })
