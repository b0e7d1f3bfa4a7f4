-- ===== src/Sched/Due.antt =====
-- The timer list of sched.c as the ticks at which its timers are due.
use os_experiment.Prelude.{
  ℕ, ◌+◌, ◌-◌, ◌^◌, ◌<◌, ◌≡◌, ◌≢◌, refl, ap, true, false, not, some, List, [], ◌∷◌, ltb, ◌==◌,
  if◌then◌else◌, u32, Bool-cases, inl, inr, arith,
}
use os_experiment.Sched.State.{Timer}
use os_experiment.Sched.Timers.{listed, insert_timer, add_timer, pass_on, del_timer}

-- When each timer is due, and its address: the counts added up, from `now` on.
abbrev pub due : ℕ → List Timer → List (ℕ × ℕ)
due now [] = []
due now (t ∷ ts) = (now + t.expires, t.node) ∷ due (now + t.expires) ts

-- A queue of due times, earliest first, those of one tick in the order in which they came.
unfoldable pub insert_due : ℕ → ℕ → List (ℕ × ℕ) → List (ℕ × ℕ)
insert_due d n [] = (d, n) ∷ []
insert_due d n ((e, m) ∷ l) = if ltb d e then (d, n) ∷ (e, m) ∷ l else (e, m) ∷ insert_due d n l

unfoldable pub remove_due : ℕ → List (ℕ × ℕ) → List (ℕ × ℕ)
remove_due n [] = []
remove_due n ((e, m) ∷ l) = if m == n then l else (e, m) ∷ remove_due n l

abbrev pub AllDue : (ℕ → Type 0) → List (ℕ × ℕ) → Type 0
AllDue P [] = Unit
AllDue P ((e, m) ∷ l) = P e × AllDue P l

due-shift : (a b : ℕ) (ts : List Timer) → a ≡ b → due a ts ≡ due b ts
due-shift a b ts e = ap (λ x. due x ts) e

due-insert_timer :
    (now : ℕ) (t : Timer) (l : List Timer)
    → due now (insert_timer t l) ≡ insert_due (now + t.expires) t.node (due now l)
unfolding insert_timer insert_due
due-insert_timer now t [] = refl
due-insert_timer now t (n ∷ l) = elim (Bool-cases (ltb t.expires n.expires)) [
  | inl early ↦
      let same : ltb (now + t.expires) (now + n.expires) ≡ true = ground arith in
      let sum : now + t.expires + (n.expires - t.expires) ≡ now + n.expires = ground arith in
      rw (early, same, sum)
  | inr late ↦
      let same : ltb (now + t.expires) (now + n.expires) ≡ false = ground arith in
      let sum : now + n.expires + (t.expires - n.expires) ≡ now + t.expires = ground arith in
      rw (late, same)
        (ap (λ x. (now + n.expires, n.node) ∷ x)
          (rw sum at
            (due-insert_timer (now + n.expires) (record t { expires = t.expires - n.expires }) l)))
]

-- A new timer that is not listed, with a positive count and a process, is queued to fall due
-- after as many ticks as it counts, behind the timers of that tick, and every listed timer stays
-- due when it was.
pub add_timer-due :
    (t : Timer) (l : List Timer)
    → 0 < t.expires
    → t.proc ≢ 0
    → listed t.node l ≡ false
    → (l' : List Timer) × (add_timer t l ≡ some l')
      × (due 0 l' ≡ insert_due t.expires t.node (due 0 l))
unfolding add_timer
add_timer-due t l pos proc new = (
  insert_timer t l,
  rw new (ground arith),
  let zero_sum : 0 + t.expires ≡ t.expires = omega arith in rw zero_sum at (due-insert_timer 0 t l),
)

due-pass_on :
    (now c : ℕ) (l : List Timer)
    → AllDue (λ d. d < 2 ^ 32) (due (now + c) l)
    → due now (pass_on c l) ≡ due (now + c) l
due-pass_on now c [] b = refl
due-pass_on now c (n ∷ l) b =
    let sum : now + u32 (n.expires + c) ≡ now + c + n.expires = omega arith in rw sum

due-unlink :
    (now : ℕ) (t : Timer) (l : List Timer)
    → AllDue (λ d. d < 2 ^ 32) (due (now + t.expires) l)
    → due now (if not (t.expires == 0) then pass_on t.expires l else l) ≡ due (now + t.expires) l
due-unlink now t l b = elim (Bool-cases (t.expires == 0)) [
  | inl z ↦ rw z (ap (λ x. due x l) (ground arith))
  | inr p ↦ rw p (due-pass_on now t.expires l b)
]

due-del_timer :
    (now n : ℕ) (l : List Timer)
    → AllDue (λ d. d < 2 ^ 32) (due now l)
    → due now (del_timer n l) ≡ remove_due n (due now l)
unfolding del_timer remove_due
due-del_timer now n [] b = refl
due-del_timer now n (t ∷ l) b = elim (Bool-cases (t.node == n)) [
  | inl here ↦ rw here (due-unlink now t l b.1)
  | inr there ↦
      rw there (ap (λ x. (now + t.expires, t.node) ∷ x) (due-del_timer (now + t.expires) n l b.1))
]

-- Removing a timer leaves every other timer due when it was, where all due times fit 32 bits; a
-- timer that is not listed changes nothing.
pub del_timer-due :
    (n : ℕ) (l : List Timer)
    → AllDue (λ d. d < 2 ^ 32) (due 0 l)
    → due 0 (del_timer n l) ≡ remove_due n (due 0 l)
del_timer-due n l b = due-del_timer 0 n l b
