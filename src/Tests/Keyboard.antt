-- ===== src/Tests/Keyboard.antt =====
-- dev_stdin.c with "AB" unread, and two processes in the wait queue.
use os_experiment.Prelude.{◌+◌, ◌≡◌, true, some, [], ◌∷◌, arith}
use os_experiment.Sched.RoundRobin.{default_sched_class}
use os_experiment.Sync.Invariant.{IsSync}
use os_experiment.Sync.Serve.{AllWoken}
use os_experiment.Stdin.{Stdin, wt_kbd, dev_stdin_write, dev_stdin_read}
use os_experiment.Stdin.Ring.{IsRing, unread}
use os_experiment.Stdin.Input.{dev_stdin_write-unread, dev_stdin_read-takes}
use os_experiment.Tests.Waiting.{sync, all_ksem, sync-IsSync}

abbrev stdin : Stdin
stdin = record { stdin_buffer = λ i. i + 65; p_rpos = 0; p_wpos = 2; wait_queue = 50; sync = sync }

stdin-IsRing : IsRing stdin
stdin-IsRing = record { ordered = omega arith; fits = omega arith }

dev_stdin_write-unread_example :
    (t : Stdin) × (dev_stdin_write default_sched_class 3 90 stdin ≡ some t)
    × IsRing t
    × (unread t ≡ 65 ∷ 66 ∷ 90 ∷ [])
    × IsSync all_ksem t.sync
    × AllWoken sync 50 wt_kbd (61 ∷ 62 ∷ []) t.sync
dev_stdin_write-unread_example =
    dev_stdin_write-unread 3 90 all_ksem stdin (omega arith) stdin-IsRing sync-IsSync (omega arith)

dev_stdin_read-takes_example :
    (t : Stdin) × (dev_stdin_read default_sched_class 1 63 stdin ≡ some (65 ∷ [], true, t))
    × IsRing t
    × (unread t ≡ 66 ∷ [])
    × (t.sync ≡ sync)
dev_stdin_read-takes_example = dev_stdin_read-takes 1 63 stdin stdin-IsRing (omega arith)
