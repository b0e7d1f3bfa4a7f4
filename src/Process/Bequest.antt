-- ===== src/Process/Bequest.antt =====
-- The loop of `do_exit` in proc.c under the round-robin class.
use mathlib.Core.Path.{subst}
use os_experiment.Prelude.{
  ℕ, zero, suc, ◌<◌, ◌≡◌, ◌≢◌, refl, Bool, true, false, ◌&&◌, ◌||◌, some, List, [], ◌∷◌, ◌++◌, ◌==◌,
  if◌then◌else◌, length, arith, Bool-cases, inl, inr, ap, sym, ◌∙◌, ◌⊎◌,
}
use os_experiment.Sched.State.{Kernel, runnable, is_runnable, is_zombie, queued}
use os_experiment.Sched.RoundRobin.{default_sched_class}
use os_experiment.Sched.Queue.{IsQueue, queued-append}
use os_experiment.Sched.Wake.{wakeup_proc-rr}
use os_experiment.Process.Links.{give_child}
use os_experiment.Process.Family.{IsFamily}
use os_experiment.Process.Orphans.{
  IsLeaving, give_child-IsLeaving, give_child-IsFamily, give_child-others,
}
use os_experiment.Process.Exit.{Tasks, waits_for_child, wake_waiting, give_children}

-- A process that can be woken.
pub record IsAlive (k : Kernel) (p : ℕ) : Type 0 where
  pub not_null : p ≢ 0
  pub not_idle : p ≢ k.idleproc
  pub alive : is_zombie (k.procs p).state ≡ false

-- From `k` to `k'` no process was woken but `p`, and none was stopped.
pub record Awakens (p : ℕ) (k k' : Kernel) : Type 0 where
  pub queue : IsQueue k'
  pub current : k'.current ≡ k.current
  pub idle : k'.idleproc ≡ k.idleproc
  pub out : (x : ℕ) → x ≢ p → queued x k.rq.run_list ≡ false → queued x k'.rq.run_list ≡ false
  pub zombies : (x : ℕ) → is_zombie (k'.procs x).state ≡ is_zombie (k.procs x).state
  pub runs : (x : ℕ) → (k.procs x).state ≡ runnable → (k'.procs x).state ≡ runnable
  pub waits : (x : ℕ) → x ≢ p → waits_for_child k' x ≡ waits_for_child k x
  pub ahead :
      (x : ℕ) (xs : List ℕ) → k.rq.run_list ≡ x ∷ xs → (ys : List ℕ) × (k'.rq.run_list ≡ x ∷ ys)

Awakens-refl : (p : ℕ) (k : Kernel) → IsQueue k → Awakens p k k
Awakens-refl p k v = record {
  queue = v;
  current = refl;
  idle = refl;
  out = λ x h g. g;
  zombies = λ x. refl;
  runs = λ x h. h;
  waits = λ x h. refl;
  ahead = λ x xs e. (xs, e);
}

Awakens-trans : (p : ℕ) (k l m : Kernel) → Awakens p k l → Awakens p l m → Awakens p k m
Awakens-trans p k l m a b = record {
  queue = b.queue;
  current = b.current ∙ a.current;
  idle = b.idle ∙ a.idle;
  out = λ x h g. b.out x h (a.out x h g);
  zombies = λ x. b.zombies x ∙ a.zombies x;
  runs = λ x h. b.runs x (a.runs x h);
  waits = λ x h. b.waits x h ∙ a.waits x h;
  ahead = λ x xs e. let (ys, f) = a.ahead x xs e in b.ahead x ys f;
}

pub wake_waiting-rr :
    (p : ℕ) (k : Kernel)
    → IsQueue k
    → IsAlive k p
    → (k' : Kernel) × (wake_waiting default_sched_class p k ≡ some k')
      × Awakens p k k'
      × (((k' ≡ k) × (waits_for_child k p ≡ false)) ⊎ ((k'.procs p).state ≡ runnable))
unfolding wake_waiting
wake_waiting-rr p k v a = elim (Bool-cases (waits_for_child k p)) [
  | inr e ↦ rw e (k, refl, Awakens-refl p k v, inl (refl, refl))
  | inl e ↦
      let (k', did, w, list, states, waits, cur, idle) =
        wakeup_proc-rr k p v a.not_null a.not_idle a.alive in
      rw e (
        k',
        did,
        record {
          queue = w;
          current = cur;
          idle = idle;
          out = λ x h g. ground (arith, list, queued-append x k.rq.run_list p);
          zombies = λ x. zombie_same x k' (states x);
          runs = λ x h. ground (arith, states x);
          waits = λ x h. ground (arith, waits x);
          ahead = λ x xs g. elim (Bool-cases (is_runnable (k.procs p).state || p == k.current)) [
            | inl f ↦ (xs, list ∙ rw f g)
            | inr f ↦ (xs ++ p ∷ [], list ∙ rw (f, g) refl)
          ];
        },
        inr (ground (arith, states p)),
      )
]
  where
    zombie_same :
        (x : ℕ) (k' : Kernel)
        → (k'.procs x).state ≡ (if x == p then runnable else (k.procs x).state)
        → is_zombie (k'.procs x).state ≡ is_zombie (k.procs x).state
    zombie_same x k' s = elim (Bool-cases (x == p)) [
      | inl e ↦ let same : x ≡ p = ground arith in ground (arith, ap k.procs same, a.alive)
      | inr e ↦ ground arith
    ]

-- The children one by one in front of those that are there.
unfoldable pub rev_onto : List ℕ → List ℕ → List ℕ
rev_onto [] ds = ds
rev_onto (c ∷ cs) ds = rev_onto cs (c ∷ ds)

abbrev pub any_zombie : Kernel → List ℕ → Bool
any_zombie k [] = false
any_zombie k (c ∷ cs) = is_zombie (k.procs c).state || any_zombie k cs

pub any_zombie-same :
    (p : ℕ) (k k' : Kernel) (cs : List ℕ) → Awakens p k k' → any_zombie k' cs ≡ any_zombie k cs
any_zombie-same p k k' [] a = refl
any_zombie-same p k k' (c ∷ cs) a = ground (arith, a.zombies c, any_zombie-same p k k' cs a)

-- What the loop leaves of the children `cs` of the process `p`, with `ds` those of `initproc`.
pub record Bequeathed (t : Tasks) (p : ℕ) (cs ds : List ℕ) (t' : Tasks) : Type 0 where
  pub childless : t'.relations.cptr p ≡ 0
  pub heir : IsFamily t'.relations t.initproc (rev_onto cs ds)
  pub others :
      (q : ℕ) (ys : List ℕ)
      → q ≢ p
      → q ≢ t.initproc
      → IsFamily t.relations q ys
      → IsFamily t'.relations q ys
  pub kernel : Awakens t.initproc t.kernel t'.kernel
  pub called :
      if any_zombie t.kernel cs && waits_for_child t.kernel t.initproc
      then (t'.kernel.procs t.initproc).state ≡ runnable
      else Unit
  pub same : (t'.initproc ≡ t.initproc) × (t'.exit_code ≡ t.exit_code)

-- A round wakes `initproc` if it waits and the child is a zombie.
round-rr :
    (t : Tasks) (c : ℕ)
    → IsQueue t.kernel
    → IsAlive t.kernel t.initproc
    → (k : Kernel) × ((if is_zombie (t.kernel.procs c).state
          then wake_waiting default_sched_class t.initproc t.kernel
          else some t.kernel)
        ≡ some k)
      × Awakens t.initproc t.kernel k
      × (((k ≡ t.kernel)
            × ((is_zombie (t.kernel.procs c).state && waits_for_child t.kernel t.initproc) ≡ false))
          ⊎ ((k.procs t.initproc).state ≡ runnable))
round-rr t c v a = elim (Bool-cases (is_zombie (t.kernel.procs c).state)) [
  | inr e ↦ rw e (t.kernel, refl, Awakens-refl t.initproc t.kernel v, inl (refl, refl))
  | inl e ↦ let (k, did, w, r) = wake_waiting-rr t.initproc t.kernel v a in rw e (k, did, w, r)
]

pub IsAlive-Awakens : (p : ℕ) (k k' : Kernel) → Awakens p k k' → IsAlive k p → IsAlive k' p
IsAlive-Awakens p k k' w a = record {
  not_null = a.not_null;
  not_idle = λ e. a.not_idle (e ∙ w.idle);
  alive = w.zombies p ∙ a.alive;
}

-- `initproc` is woken in the first round or in a later one.
called_lem :
    (zombie_head zombie_rest waits : Bool) (S : Type 0)
    → ((zombie_head && waits) ≡ false)
    → (if zombie_rest && waits then S else Unit)
    → (if (zombie_head || zombie_rest) && waits then S else Unit)
called_lem true zombie_rest false S e s = elim zombie_rest [ true ↦ tt | false ↦ tt ]
called_lem true zombie_rest true S e s = absurd (ground arith)
called_lem false zombie_rest waits S e s = s

pub called_already : (test : Bool) (S : Type 0) → S → (if test then S else Unit)
called_already true S s = s
called_already false S s = tt

-- The loop gives every child of the running process to `initproc`, and never fails.
pub give_children-rr :
    (fuel : ℕ) (t : Tasks) (cs ds : List ℕ)
    → length cs < fuel
    → IsQueue t.kernel
    → IsAlive t.kernel t.initproc
    → t.kernel.current ≢ t.initproc
    → IsLeaving t.relations t.kernel.current cs
    → IsFamily t.relations t.initproc ds
    → (t' : Tasks) × (give_children default_sched_class fuel t ≡ some t')
      × Bequeathed t t.kernel.current cs ds t'
unfolding give_children rev_onto
give_children-rr zero t cs ds room v a apart l f = absurd (omega arith)
give_children-rr (suc fuel) t [] ds room v a apart l f =
    let none_left : (t.relations.cptr t.kernel.current == 0) ≡ true = ground (arith, l.chain) in
    rw none_left (
      t,
      refl,
      record {
        childless = l.chain;
        heir = f;
        others = λ q ys np ni u. u;
        kernel = Awakens-refl t.initproc t.kernel v;
        called = tt;
        same = (refl, refl);
      },
    )
give_children-rr (suc fuel) t (c ∷ cs) ds room v a apart l f =
    let p = t.kernel.current in
    let at : (t.relations.cptr p == 0) ≡ false = ground (arith, l.chain) in
    let (k, did, w, r) = round-rr t c v a in
    let t1 = record t { kernel = k; relations = give_child t.initproc p t.relations } in
    let (t', done, b) =
      give_children-rr fuel t1 cs (c ∷ ds) (omega arith) w.queue
        (IsAlive-Awakens t.initproc t.kernel k w a) (λ e. apart (sym (w.current) ∙ e))
        (rw (w.current) (give_child-IsLeaving t.initproc p t.relations c cs ds l f apart))
        (give_child-IsFamily t.initproc p t.relations c cs ds l f apart) in
    let left = subst (λ x. Bequeathed t1 x cs (c ∷ ds) t') w.current b in
    rw (at, l.chain.0, did)
      (
        t',
        done,
        record {
          childless = left.childless;
          heir = left.heir;
          others = λ q ys np ni u.
              left.others q ys np ni
                (give_child-others t.initproc p t.relations c cs ds l f apart q ys u np ni);
          kernel = Awakens-trans t.initproc t.kernel k t'.kernel w left.kernel;
          called = elim r [
            | inl (same, quiet) ↦
                called_lem (is_zombie (t.kernel.procs c).state) (any_zombie t.kernel cs)
                  (waits_for_child t.kernel t.initproc)
                  ((t'.kernel.procs t.initproc).state ≡ runnable) quiet
                  (subst
                    (λ m.
                      if any_zombie m cs && waits_for_child m t.initproc
                      then (t'.kernel.procs t.initproc).state ≡ runnable
                      else Unit)
                    same left.called)
            | inr woken ↦
                called_already (any_zombie t.kernel (c ∷ cs) && waits_for_child t.kernel t.initproc)
                  ((t'.kernel.procs t.initproc).state ≡ runnable)
                  (left.kernel.runs t.initproc woken)
          ];
          same = left.same;
        },
      )
