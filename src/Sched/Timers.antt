-- ===== src/Sched/Timers.antt =====
-- The timer list of lab8/kern/schedule/sched.c. A timer counts the ticks after the one before it.
use os_experiment.Prelude.{
  ℕ, ◌+◌, ◌-◌, Bool, false, ◌&&◌, not, ◌||◌, Option, some, List, [], ◌∷◌, ltb, ◌==◌, if◌then◌else◌,
  ◌>>◌, assert, u32,
}
use os_experiment.Sched.State.{Timer}

-- Whether the `timer_link` of the timer at `node` is in the list.
abbrev pub listed : ℕ → List Timer → Bool
listed node [] = false
listed node (t ∷ ts) = t.node == node || listed node ts

-- The walk of `add_timer`.
unfoldable pub insert_timer : Timer → List Timer → List Timer
insert_timer timer [] = timer ∷ []
insert_timer timer (next ∷ rest) =
    if ltb timer.expires next.expires
    then timer ∷ record next { expires = next.expires - timer.expires } ∷ rest
    else next ∷ insert_timer (record timer { expires = timer.expires - next.expires }) rest

unfoldable pub add_timer : Timer → List Timer → Option (List Timer)
unfolding insert_timer
add_timer timer l =
    assert (ltb 0 timer.expires && not (timer.proc == 0))
    >> assert (not (listed timer.node l))
    >> some (insert_timer timer l)

-- What the timer behind a removed one gets.
abbrev pub pass_on : ℕ → List Timer → List Timer
pass_on ticks [] = []
pass_on ticks (next ∷ rest) = record next { expires = u32 (next.expires + ticks) } ∷ rest

-- `del_timer` of the timer at `node`. One that is not listed is left alone.
unfoldable pub del_timer : ℕ → List Timer → List Timer
del_timer node [] = []
del_timer node (t ∷ ts) =
    if t.node == node
    then (if not (t.expires == 0) then pass_on t.expires ts else ts)
    else t ∷ del_timer node ts
