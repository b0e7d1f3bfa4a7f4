-- ===== src/Sched/Queue.antt =====
-- The run queue of default_sched.c: what its functions keep true of it.
use os_experiment.Prelude.{
  ℕ, ◌+◌, ◌≤◌, ◌<◌, ◌≡◌, ◌≢◌, refl, true, false, ◌||◌, some, List, [], ◌∷◌, ◌++◌, ◌==◌, length,
  length-append, Bool-cases, inl, inr, arith, u32, ap, ◌⊎◌,
}
use os_experiment.Sched.State.{Proc, Kernel, queued, is_runnable, set_proc}
use os_experiment.Sched.RoundRobin.{rr_enqueue, rr_dequeue, unlink, enqueued, dequeued}

-- No process stands twice in the list.
abbrev pub Unique : List ℕ → Type 0
Unique [] = Unit
Unique (x ∷ xs) = (queued x xs ≡ false) × Unique xs

-- What holds of a queued process.
pub record IsQueued (k : Kernel) (p : ℕ) : Type 0 where
  pub not_null : p ≢ 0
  pub not_idle : p ≢ k.idleproc
  pub runnable : is_runnable (k.procs p).state ≡ true
  pub has_rq : (k.procs p).has_rq ≡ true
  pub slice_pos : 0 < (k.procs p).time_slice
  pub slice_max : (k.procs p).time_slice ≤ k.rq.max_time_slice

pub record IsQueue (k : Kernel) : Type 0 where
  pub unique : Unique k.rq.run_list
  pub counted : k.rq.proc_num ≡ u32 (length k.rq.run_list)
  pub member : (p : ℕ) → queued p k.rq.run_list ≡ true → IsQueued k p
  pub slices : 0 < k.rq.max_time_slice
  pub idle : k.idleproc ≢ 0

pub queued-append :
    (p : ℕ) (xs : List ℕ) (y : ℕ) → queued p (xs ++ y ∷ []) ≡ (queued p xs || y == p)
queued-append p [] y = ground arith
queued-append p (x ∷ xs) y = ground (arith, queued-append p xs y)

pub Unique-append : (xs : List ℕ) (y : ℕ) → Unique xs → queued y xs ≡ false → Unique (xs ++ y ∷ [])
Unique-append [] y u q = ground arith
Unique-append (x ∷ xs) y u q =
    (ground (arith, queued-append x xs y, u.0), Unique-append xs y u.1 (ground arith))

pub queued-unlink : (p x : ℕ) (xs : List ℕ) → queued x (unlink p xs) ≡ true → queued x xs ≡ true
unfolding unlink
queued-unlink p x [] q = q
queued-unlink p x (y ∷ xs) q = ground (arith, queued-unlink p x xs)

pub queued-unlink_self : (p : ℕ) (xs : List ℕ) → Unique xs → queued p (unlink p xs) ≡ false
unfolding unlink
queued-unlink_self p [] u = refl
queued-unlink_self p (y ∷ xs) u = ground (arith, u.0, queued-unlink_self p xs u.1)

pub Unique-unlink : (p : ℕ) (xs : List ℕ) → Unique xs → Unique (unlink p xs)
unfolding unlink
Unique-unlink p [] u = tt
Unique-unlink p (y ∷ xs) u = elim (Bool-cases (y == p)) [
  | inl here ↦ rw here u.1
  | inr there ↦ rw there (
    (elim (Bool-cases (queued y (unlink p xs))) [
      | inl q ↦ absurd (ground (arith, queued-unlink p y xs q, u.0))
      | inr q ↦ q
    ]),
    Unique-unlink p xs u.1,
  )
]

length-unlink : (p : ℕ) (xs : List ℕ) → queued p xs ≡ true → length (unlink p xs) + 1 ≡ length xs
unfolding unlink
length-unlink p [] q = absurd (ground arith)
length-unlink p (y ∷ xs) q = ground (arith, length-unlink p xs)

-- `RR_enqueue` of a runnable process that is neither idle nor queued succeeds: the process is last
-- in the list, with a time slice between 1 and the maximum, and the queue stays well formed.
pub rr_enqueue-IsQueue :
    (k : Kernel) (p : ℕ)
    → IsQueue k
    → p ≢ 0
    → p ≢ k.idleproc
    → is_runnable (k.procs p).state ≡ true
    → queued p k.rq.run_list ≡ false
    → (k' : Kernel) × (rr_enqueue k p ≡ some k')
      × IsQueue k'
      × (k'.rq.run_list ≡ k.rq.run_list ++ p ∷ [])
      × (k'.current ≡ k.current)
      × (k'.idleproc ≡ k.idleproc)
      × ((x : ℕ) → (k'.procs x).state ≡ (k.procs x).state)
      × ((x : ℕ) → (k'.procs x).wait_state ≡ (k.procs x).wait_state)
unfolding rr_enqueue
rr_enqueue-IsQueue k p v nn ni run q = (
  enqueued k p,
  rw q refl,
  record {
    unique = Unique-append k.rq.run_list p v.unique q;
    counted = omega (arith, v.counted, length-append k.rq.run_list (p ∷ []));
    member = kept;
    slices = v.slices;
    idle = v.idle;
  },
  refl,
  refl,
  refl,
  (λ x. ground arith),
  (λ x. ground arith),
)
  where
    kept : (x : ℕ) → queued x (k.rq.run_list ++ p ∷ []) ≡ true → IsQueued (enqueued k p) x
    kept x h = elim (Bool-cases (x == p)) [
      | inl new ↦ let e : p ≡ x = ground arith in ground (arith, v.slices)
      | inr old ↦ ground (arith, v.member x, queued-append x k.rq.run_list p)
    ]

-- `RR_dequeue` of a queued process succeeds: it leaves the list, which keeps the others in order,
-- and the queue stays well formed.
pub rr_dequeue-IsQueue :
    (k : Kernel) (p : ℕ)
    → IsQueue k
    → queued p k.rq.run_list ≡ true
    → (k' : Kernel) × (rr_dequeue k p ≡ some k')
      × IsQueue k'
      × (k'.rq.run_list ≡ unlink p k.rq.run_list)
      × (queued p k'.rq.run_list ≡ false)
      × (k'.procs ≡ k.procs)
      × (k'.current ≡ k.current)
      × (k'.idleproc ≡ k.idleproc)
unfolding rr_dequeue
rr_dequeue-IsQueue k p v q = (
  dequeued k p,
  rw (q, (v.member p q).has_rq) refl,
  record {
    unique = Unique-unlink p k.rq.run_list v.unique;
    counted = omega (arith, v.counted, length-unlink p k.rq.run_list q);
    member = λ x h. ground (arith, v.member x (queued-unlink p x k.rq.run_list h));
    slices = v.slices;
    idle = v.idle;
  },
  refl,
  queued-unlink_self p k.rq.run_list v.unique,
  refl,
  refl,
  refl,
)

-- Any store to a process that is not queued.
pub set_proc-IsQueue_out :
    (k : Kernel) (p : ℕ) (r : Proc)
    → IsQueue k
    → queued p k.rq.run_list ≡ false
    → IsQueue (set_proc k p r)
set_proc-IsQueue_out k p r v out = record {
  unique = v.unique;
  counted = v.counted;
  member = λ x q. kept x q (Bool-cases (x == p));
  slices = v.slices;
  idle = v.idle;
}
  where
    kept :
        (x : ℕ)
        → queued x k.rq.run_list ≡ true
        → ((x == p) ≡ true) ⊎ ((x == p) ≡ false)
        → IsQueued (set_proc k p r) x
    kept x q (inl e) =
        let same : x ≡ p = ground arith in
        absurd (ground (arith, ap (λ z. queued z k.rq.run_list) same))
    kept x q (inr e) = ground (arith, v.member x q)
