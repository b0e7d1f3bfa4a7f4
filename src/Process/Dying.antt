-- ===== src/Process/Dying.antt =====
-- What holds between the steps of `do_exit` of proc.c.
use os_experiment.Prelude.{
  ℕ, ◌≡◌, ◌≢◌, refl, Bool, true, false, ◌&&◌, List, [], ◌∷◌, ◌==◌, if◌then◌else◌, update, arith,
  Bool-cases, inl, inr, ap, sym, ◌∙◌, ◌⊎◌,
}
use os_experiment.Sched.State.{
  Kernel, ProcState, uninit, sleeping, zombie, runnable, is_runnable, is_zombie, queued, set_proc,
}
use os_experiment.Sched.Queue.{IsQueue}
use os_experiment.LinkedList.Chain.{first_or}
use os_experiment.Sched.Fair.{ready, behind_first, Switched}
use os_experiment.Process.Family.{Siblings, IsFamily}
use os_experiment.Process.Exit.{Tasks, waits_for_child}
use os_experiment.Process.Bequest.{
  IsAlive, Awakens, rev_onto, any_zombie, any_zombie-same, Bequeathed, called_already,
}

abbrev pub dying : Kernel → Kernel
dying k = set_proc k k.current (record (k.procs k.current) { state = zombie })

-- The processes that an exit has to do with, before it.
pub record CanExit (t : Tasks) (cs ds : List ℕ) : Type 0 where
  pub queue : IsQueue t.kernel
  pub out : queued t.kernel.current t.kernel.rq.run_list ≡ false
  pub not_null : t.kernel.current ≢ 0
  pub not_idle : t.kernel.current ≢ t.kernel.idleproc
  pub not_init : t.kernel.current ≢ t.initproc
  pub parent : IsAlive t.kernel (t.relations.parent t.kernel.current)
  pub not_own : t.relations.parent t.kernel.current ≢ t.kernel.current
  pub init : IsAlive t.kernel t.initproc
  pub children : IsFamily t.relations t.kernel.current cs
  pub init_children : IsFamily t.relations t.initproc ds

-- What an exit of the process `p` leaves.
pub record Exited (t : Tasks) (p : ℕ) (cs ds : List ℕ) (error_code : ℕ) (t' : Tasks) : Type 0 where
  pub state : is_zombie (t'.kernel.procs p).state ≡ true
  pub code : t'.exit_code p ≡ error_code
  pub childless : t'.relations.cptr p ≡ 0
  pub heir : IsFamily t'.relations t.initproc (rev_onto cs ds)
  pub parent :
      if waits_for_child t.kernel (t.relations.parent p)
      then (t'.kernel.procs (t.relations.parent p)).state ≡ runnable
      else Unit
  pub init :
      if any_zombie t.kernel cs && waits_for_child t.kernel t.initproc
      then (t'.kernel.procs t.initproc).state ≡ runnable
      else Unit
  pub queue : IsQueue t'.kernel
  pub out : queued p t'.kernel.rq.run_list ≡ false
  pub other : t'.kernel.current ≢ p
  pub next : (x : ℕ) (xs : List ℕ) → t.kernel.rq.run_list ≡ x ∷ xs → t'.kernel.current ≡ x

pub IsAlive-dying : (k : Kernel) (p : ℕ) → p ≢ k.current → IsAlive k p → IsAlive (dying k) p
IsAlive-dying k p apart a = record {
  not_null = a.not_null;
  not_idle = a.not_idle;
  alive = ground (arith, a.alive);
}

-- An exiting process stands in no family of its own children.
any_zombie-dying :
    (t : Tasks) (younger first : ℕ) (cs : List ℕ)
    → t.relations.parent t.kernel.current ≢ t.kernel.current
    → Siblings t.relations t.kernel.current younger first cs
    → any_zombie (dying t.kernel) cs ≡ any_zombie t.kernel cs
any_zombie-dying t younger first [] own s = refl
any_zombie-dying t younger first (c ∷ cs) own (a, b, d, e, s) =
    let apart : c ≢ t.kernel.current = λ h. own (ap t.relations.parent (sym h) ∙ d) in
    ground (arith, any_zombie-dying t c (t.relations.optr c) cs own s)

behind_first-queued : (x : ℕ) (l : List ℕ) → queued x l ≡ false → queued x (behind_first l) ≡ false
behind_first-queued x [] h = refl
behind_first-queued x (y ∷ ys) h = ground arith

zombie-not_runnable : (s : ProcState) → is_zombie s ≡ true → is_runnable s ≡ false
zombie-not_runnable uninit h = ground arith
zombie-not_runnable sleeping h = ground arith
zombie-not_runnable runnable h = ground arith
zombie-not_runnable zombie h = refl

quiet_lem :
    (some_zombie waits : Bool) (S : Type 0)
    → waits ≡ false
    → (if some_zombie && waits then S else Unit)
quiet_lem some_zombie true S e = absurd (ground arith)
quiet_lem true false S e = tt
quiet_lem false false S e = tt

ready-zombie :
    (k : Kernel) (p : ℕ)
    → k.current ≡ p
    → is_zombie (k.procs p).state ≡ true
    → ready k ≡ k.rq.run_list
ready-zombie k p at dead =
    let halted : is_runnable (k.procs k.current).state ≡ false =
      zombie-not_runnable (k.procs k.current).state (rw at dead) in
    rw halted refl

first_or-apart : (p d : ℕ) (l : List ℕ) → queued p l ≡ false → p ≢ d → first_or l d ≢ p
first_or-apart p d [] h ne e = ne (sym e)
first_or-apart p d (x ∷ xs) h ne e = ground arith

-- The steps of an exit, put together.
module _ (t : Tasks) (cs ds : List ℕ) (error_code : ℕ) (v : CanExit t cs ds) (k : Kernel)
    (a : Awakens (t.relations.parent t.kernel.current) (dying t.kernel) k)
    (r : ((k ≡ dying t.kernel)
        × (waits_for_child (dying t.kernel) (t.relations.parent t.kernel.current) ≡ false))
      ⊎ ((k.procs (t.relations.parent t.kernel.current)).state ≡ runnable))
    (t2 : Tasks)
    (b : Bequeathed
      (record t { kernel = k; exit_code = update t.exit_code t.kernel.current error_code })
      t.kernel.current
      cs
      ds
      t2) where
  pub running : t2.kernel.current ≡ t.kernel.current
  running = b.kernel.current ∙ a.current

  pub unqueued : queued t.kernel.current t2.kernel.rq.run_list ≡ false
  unqueued =
      b.kernel.out t.kernel.current v.not_init
        (a.out t.kernel.current (λ e. v.not_own (sym e)) v.out)

  dead : is_zombie (t2.kernel.procs t.kernel.current).state ≡ true
  dead = b.kernel.zombies t.kernel.current ∙ a.zombies t.kernel.current ∙ ground arith

  waits_dying : (x : ℕ) → waits_for_child (dying t.kernel) x ≡ waits_for_child t.kernel x
  waits_dying x = elim (Bool-cases (x == t.kernel.current)) [
    | inl e ↦
        let same : x ≡ t.kernel.current = ground arith in ground (arith, ap t.kernel.procs same)
    | inr e ↦ ground arith
  ]

  parent_called :
      if waits_for_child t.kernel (t.relations.parent t.kernel.current)
      then (t2.kernel.procs (t.relations.parent t.kernel.current)).state ≡ runnable
      else Unit
  parent_called = elim r [
    | inl (same, quiet) ↦ rw (sym (waits_dying (t.relations.parent t.kernel.current)) ∙ quiet) tt
    | inr woken ↦
        called_already (waits_for_child t.kernel (t.relations.parent t.kernel.current)) _
          (b.kernel.runs _ woken)
  ]

  init_called :
      if any_zombie t.kernel cs && waits_for_child t.kernel t.initproc
      then (t2.kernel.procs t.initproc).state ≡ runnable
      else Unit
  init_called = elim (Bool-cases (t.initproc == t.relations.parent t.kernel.current)) [
    | inl e ↦
        let same : t.initproc ≡ t.relations.parent t.kernel.current = ground arith in
        elim r [
          | inl (unchanged, quiet) ↦
              quiet_lem (any_zombie t.kernel cs) (waits_for_child t.kernel t.initproc) _ (
                ap (waits_for_child t.kernel) same
                ∙ sym (waits_dying (t.relations.parent t.kernel.current))
                ∙ quiet)
          | inr woken ↦
              called_already (any_zombie t.kernel cs && waits_for_child t.kernel t.initproc) _
                (b.kernel.runs t.initproc (ap (λ x. (k.procs x).state) same ∙ woken))
        ]
    | inr e ↦
        let apart : t.initproc ≢ t.relations.parent t.kernel.current = ground arith in
        let waits : waits_for_child k t.initproc ≡ waits_for_child t.kernel t.initproc =
          a.waits t.initproc apart ∙ waits_dying t.initproc in
        let zombies : any_zombie k cs ≡ any_zombie t.kernel cs =
          any_zombie-same (t.relations.parent t.kernel.current) (dying t.kernel) k cs a
          ∙ any_zombie-dying t 0 (t.relations.cptr t.kernel.current) cs v.not_own
              v.children.chain in
        rw (sym waits, sym zombies) b.called
  ]

  runs_next :
      (k3 : Kernel)
      → Switched t2.kernel (ready t2.kernel) k3
      → k3.current ≡ first_or t2.kernel.rq.run_list t2.kernel.idleproc
  runs_next k3 s =
      s.current
      ∙ ap (λ l. first_or l t2.kernel.idleproc)
          (ready-zombie t2.kernel t.kernel.current running dead)

  pub Exited-lem :
      (k3 : Kernel)
      → Switched t2.kernel (ready t2.kernel) k3
      → Exited t t.kernel.current cs ds error_code (record t2 { kernel = k3 })
  Exited-lem k3 s = record {
    state = ap is_zombie (s.same.states t.kernel.current) ∙ dead;
    code = ap (λ f. f t.kernel.current) b.same.1 ∙ ground arith;
    childless = b.childless;
    heir = b.heir;
    parent = rw (s.same.states (t.relations.parent t.kernel.current)) parent_called;
    init = rw (s.same.states t.initproc) init_called;
    queue = s.queue;
    other = λ e.
        first_or-apart t.kernel.current t2.kernel.idleproc t2.kernel.rq.run_list unqueued
          (λ h. v.not_idle (h ∙ b.kernel.idle ∙ a.idle)) (sym (runs_next k3 s) ∙ e);
    next = λ x xs e.
        let (ys, f) = a.ahead x xs e in
        let (zs, g) = b.kernel.ahead x ys f in
        runs_next k3 s ∙ ap (λ l. first_or l t2.kernel.idleproc) g;
    out = rw s.run_list (
        rw (ready-zombie t2.kernel t.kernel.current running dead)
          (behind_first-queued t.kernel.current t2.kernel.rq.run_list unqueued));
  }
