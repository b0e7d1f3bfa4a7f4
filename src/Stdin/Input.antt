-- ===== src/Stdin/Input.antt =====
-- `dev_stdin_write` and `dev_stdin_read` of dev_stdin.c under the round-robin class.
use os_experiment.Prelude.{
  ℕ, suc, ◌+◌, ◌-◌, ◌%◌, ◌≡◌, ◌≤◌, ◌<◌, ◌≢◌, refl, true, false, some, List, [], ◌∷◌, ◌++◌, ◌==◌,
  ltb, length, length-take, take, drop, if◌then◌else◌, ◌>>=◌, update, arith, Bool-cases, inl, inr,
  ap,
}
use os_experiment.Sched.State.{queued}
use os_experiment.Sched.RoundRobin.{default_sched_class}
use os_experiment.Sync.{Sync, wait_queue_empty, is_nil, wakeup_queue}
use os_experiment.Sync.Invariant.{IsSync}
use os_experiment.Sync.Serve.{AllWoken, wakeup_queue-IsSync}
use os_experiment.Stdin.{
  Stdin, stdin_bufsize, wt_kbd, read_available, dev_stdin_write, dev_stdin_read,
}
use os_experiment.Stdin.Ring.{
  IsRing, unread, chars_from-append, chars_from-full, read_available-takes,
}

-- With nobody in the queue there is nobody to wake.
AllWoken-nil :
    (s : Sync) (q wakeup_flags : ℕ)
    → is_nil (s.queue q) ≡ true
    → AllWoken s q wakeup_flags (s.queue q) s
AllWoken-nil s q wakeup_flags e = record {
  empty = nil (s.queue q) e;
  woken = λ w h. absurd (ground (arith, ap (queued w) (nil (s.queue q) e)));
  others = λ v h. refl;
  runs = λ x h. h;
}
  where
    nil : (l : List ℕ) → is_nil l ≡ true → l ≡ []
    nil [] e = refl
    nil (x ∷ l) e = absurd (ground arith)

-- The buffer once a character is stored.
abbrev stored : ℕ → Stdin → Stdin
stored c t = record t {
  stdin_buffer = update t.stdin_buffer (t.p_wpos % stdin_bufsize) c;
  p_wpos = if ltb (t.p_wpos - t.p_rpos) stdin_bufsize then t.p_wpos + 1 else t.p_wpos;
}

stored-IsRing : (c : ℕ) (t : Stdin) → IsRing t → IsRing (stored c t)
stored-IsRing c t v = elim (Bool-cases (ltb (t.p_wpos - t.p_rpos) stdin_bufsize)) [
  | inl e ↦ record {
    ordered = rw e (omega (arith, v.ordered));
    fits = rw e (ground (arith, v.ordered));
  }
  | inr e ↦ record { ordered = rw e v.ordered; fits = rw e v.fits }
]

unread-stored :
    (c : ℕ) (t : Stdin)
    → IsRing t
    → unread (stored c t) ≡ (
        if ltb (t.p_wpos - t.p_rpos) stdin_bufsize
        then unread t ++ c ∷ []
        else c ∷ drop 1 (unread t))
unread-stored c t v = elim (Bool-cases (ltb (t.p_wpos - t.p_rpos) stdin_bufsize)) [
  | inl e ↦
      let n : t.p_wpos + 1 - t.p_rpos ≡ suc (t.p_wpos - t.p_rpos) = omega (arith, v.ordered) in
      rw (e, n)
        (chars_from-append t.stdin_buffer t.p_rpos (t.p_wpos - t.p_rpos) t.p_wpos c
          (omega (arith, v.ordered)) (ground arith))
  | inr e ↦
      let n : t.p_wpos - t.p_rpos ≡ suc 4095 = ground (arith, v.fits) in
      rw (e, n)
        (chars_from-full t.stdin_buffer t.p_rpos 4095 t.p_wpos c (omega (arith, v.ordered, n)) refl)
]

woken_lem :
    (fuel : ℕ) (flag : ℕ → ℕ) (t after : Stdin)
    → IsSync flag t.sync
    → length (t.sync.queue t.wait_queue) < fuel
    → after.sync ≡ t.sync
    → (s : Sync) × ((if wait_queue_empty t.wait_queue t.sync
          then some after
          else (wakeup_queue default_sched_class fuel t.wait_queue wt_kbd true t.sync >>= λ s.
              some (record after { sync = s })))
        ≡ some (record after { sync = s }))
      × IsSync flag s
      × AllWoken t.sync t.wait_queue wt_kbd (t.sync.queue t.wait_queue) s
woken_lem fuel flag t after i room same = elim (Bool-cases (is_nil (t.sync.queue t.wait_queue))) [
  | inl e ↦ rw e (
    t.sync,
    ap (λ s. some (record after { sync = s })) same,
    i,
    AllWoken-nil t.sync t.wait_queue wt_kbd e,
  )
  | inr e ↦
      let (s, did, j, woken) = wakeup_queue-IsSync fuel flag t.sync t.wait_queue wt_kbd i room in
      rw e (s, rw did refl, j, woken)
]

-- A character that is typed stands behind those that are not read yet, while the buffer has room;
-- in a full buffer it overwrites the oldest of them, which is lost. Either way all processes that
-- wait for input become runnable, and the wait queues stay well formed. The character is not 0, the
-- unread ones fit into the buffer, the queues are well formed, and the fuel exceeds the number of
-- waiting processes.
pub dev_stdin_write-unread :
    (fuel c : ℕ) (flag : ℕ → ℕ) (t : Stdin)
    → c ≢ 0
    → IsRing t
    → IsSync flag t.sync
    → length (t.sync.queue t.wait_queue) < fuel
    → (t' : Stdin) × (dev_stdin_write default_sched_class fuel c t ≡ some t')
      × IsRing t'
      × (unread t' ≡ (
          if ltb (t.p_wpos - t.p_rpos) stdin_bufsize
          then unread t ++ c ∷ []
          else c ∷ drop 1 (unread t)))
      × IsSync flag t'.sync
      × AllWoken t.sync t.wait_queue wt_kbd (t.sync.queue t.wait_queue) t'.sync
unfolding dev_stdin_write
dev_stdin_write-unread fuel c flag t nz v i room =
    let (s, did, j, woken) = woken_lem fuel flag t (stored c t) i room refl in
    let typed : (c == 0) ≡ false = ground arith in
    let w = stored-IsRing c t v in
    (
      record (stored c t) { sync = s },
      rw typed did,
      record { ordered = w.ordered; fits = w.fits },
      unread-stored c t v,
      j,
      woken,
    )

-- While as many characters are unread as are asked for, and these fit into the buffer,
-- `dev_stdin_read` returns the oldest of them at once, in their order, and leaves the others; no
-- process is woken or stopped.
pub dev_stdin_read-takes :
    (len w : ℕ) (t : Stdin)
    → IsRing t
    → len ≤ length (unread t)
    → (t' : Stdin) × (dev_stdin_read default_sched_class len w t
        ≡ some (take len (unread t), true, t'))
      × IsRing t'
      × (unread t' ≡ drop len (unread t))
      × (t'.sync ≡ t.sync)
unfolding dev_stdin_read
dev_stdin_read-takes len w t v enough =
    let (chars, left, r, same) = read_available-takes len t v in
    let all : length (take len (unread t)) ≡ len = omega (arith, length-take len (unread t)) in
    let whole : (length (take len (unread t)) == len) ≡ true = ground (arith, all) in
    ((read_available len t).1, rw (chars, whole) refl, r, left, same)
