-- ===== src/Process/Pid/Fresh.antt =====
-- `get_pid` over a list that leaves a number unused.
use os_experiment.Prelude.{
  ℕ, zero, suc, ◌+◌, ◌*◌, ◌≤◌, ◌<◌, ◌≡◌, refl, true, false, some, List, [], ◌∷◌, leb, ◌==◌,
  if◌then◌else◌, length, arith, Bool-cases, inl, inr,
}
use os_experiment.Process.Pid.{max_pid, PidState, search_pid, get_pid}
use os_experiment.Process.Pid.Unique.{
  used, search_pid-AllApart, AllApart-unused, NoneBetween, AllApart-NoneBetween,
  NoneBetween-AllApart,
}

-- The numbers other than `p`.
without : ℕ → List ℕ → List ℕ
without p [] = []
without p (x ∷ xs) = if x == p then without p xs else x ∷ without p xs

used-without :
    (p q : ℕ) (xs : List ℕ) → used p (without q xs) ≡ (if p == q then false else used p xs)
unfolding without
used-without p q [] = ground arith
used-without p q (x ∷ xs) = ground (arith, used-without p q xs)

length-without :
    (p : ℕ) (xs : List ℕ)
    → (length (without p xs) ≤ length xs) × (used p xs ≡ true → length (without p xs) < length xs)
unfolding without
length-without p [] = (omega arith, λ e. absurd (ground arith))
length-without p (x ∷ xs) =
    let (a, b) = length-without p xs in (ground (arith, a), λ e. ground (arith, a, b))

-- Fewer numbers than `n` leave one from 1 to `n` unused.
unused_below :
    (n : ℕ) (pids : List ℕ) → length pids < n → (f : ℕ) × (used f pids ≡ false) × (0 < f) × (f ≤ n)
unused_below zero pids few = absurd (omega arith)
unused_below (suc n) pids few = elim (Bool-cases (used (suc n) pids)) [
  | inr e ↦ (suc n, e, omega arith, omega arith)
  | inl e ↦
      let (f, free, low, high) =
        unused_below n (without (suc n) pids) (ground (arith, (length-without (suc n) pids).1 e)) in
      (f, ground (arith, used-without f (suc n) pids), low, omega arith)
]

-- What holds of the static variables between two calls, with the numbers in use.
pub record IsPids (pids : List ℕ) (s : PidState) : Type 0 where
  pub gap : NoneBetween s.last_pid s.next_safe pids
  pub bound : s.next_safe ≤ max_pid

searched :
    (fuel : ℕ) (pids : List ℕ) (s : PidState)
    → length pids + 1 < max_pid
    → 2 * max_pid < fuel
    → 0 < s.last_pid
    → s.last_pid < max_pid
    → s.next_safe ≡ max_pid
    → (t : PidState) × (search_pid fuel pids s ≡ some t)
      × (used t.last_pid pids ≡ false)
      × (0 < t.last_pid)
      × (t.last_pid < max_pid)
      × IsPids (t.last_pid ∷ pids) t
searched fuel pids s few room pos o m =
    let (f, free, low, high) = unused_below 8191 pids (omega arith) in
    let (t, e, p, q, r, a) =
      search_pid-AllApart fuel f pids s free low (omega arith) pos (omega arith) m (ground arith) in
    (
      t,
      e,
      AllApart-unused t.last_pid t.next_safe pids q a,
      p,
      omega arith,
      record {
        gap = (inl (omega arith), AllApart-NoneBetween t.last_pid t.next_safe pids a);
        bound = r;
      },
    )

-- While fewer than MAX_PID - 1 processes exist, and with fuel for two rounds of the numbers,
-- `get_pid` gives a number from 1 to MAX_PID - 1 that no process has. What it remembers stays true
-- if it was: no process has a number between `last_pid` and `next_safe`.
pub get_pid-IsPids :
    (fuel : ℕ) (pids : List ℕ) (s : PidState)
    → IsPids pids s
    → length pids + 1 < max_pid
    → 2 * max_pid < fuel
    → (t : PidState) × (get_pid fuel pids s ≡ some t)
      × (used t.last_pid pids ≡ false)
      × (0 < t.last_pid)
      × (t.last_pid < max_pid)
      × IsPids (t.last_pid ∷ pids) t
unfolding get_pid
get_pid-IsPids fuel pids s v few room = elim (Bool-cases (leb max_pid (s.last_pid + 1))) [
  | inl e ↦ rw e (
      searched fuel pids (record { last_pid = 1; next_safe = max_pid }) few room (omega arith)
        (omega arith) refl)
  | inr e ↦ elim (Bool-cases (leb s.next_safe (s.last_pid + 1))) [
    | inl f ↦
        rw (e, f)
          (searched fuel pids (record { last_pid = s.last_pid + 1; next_safe = max_pid }) few room
            (omega arith) (ground arith) refl)
    | inr f ↦
        let a = NoneBetween-AllApart s.last_pid s.next_safe pids v.gap in
        rw (e, f)
          (
            record s { last_pid = s.last_pid + 1 },
            refl,
            AllApart-unused (s.last_pid + 1) s.next_safe pids (ground arith) a,
            omega arith,
            ground arith,
            record {
              gap = (inl (omega arith), AllApart-NoneBetween (s.last_pid + 1) s.next_safe pids a);
              bound = v.bound;
            },
          )
  ]
]
