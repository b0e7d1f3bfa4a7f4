-- ===== src/Process/Fork/Branches.antt =====
-- The ways through `do_fork` of lab8/kern/process/proc.c.
use os_experiment.Prelude.{
  ℕ, ◌≡◌, ◌≢◌, ◌<◌, refl, Bool, true, false, some, ◌==◌, leb, update, arith, inr, ap, sym, ◌∙◌,
}
use mathlib.Core.Path.{subst}
use os_experiment.Sched.State.{SchedClass}
use os_experiment.Process.Family.{eq_self}
use os_experiment.Process.Fork.{
  Memory, Forking, error, e_no_mem, max_process, setup_kstack, put_kstack, copy_mm, cleanup_mm,
  cleanup_proc, cleanup_kstack, start_child, do_fork,
}
use os_experiment.Process.Fork.Usage.{Accounts}
use os_experiment.Process.Fork.Undo.{copy_mm_fails, cleanup_mm_undoes}
use os_experiment.Process.Fork.Spaces.{copy_mm_fails-SameSpaces, cleanup_mm-SameSpaces}
use os_experiment.Process.Fork.Outcome.{
  GivesBack, IsReady, begun_mms, begun_filesps, begun_stacks, begun_counts, not_new,
}
use os_experiment.Process.Fork.Steps.{
  copy_mm-Keeps, FilesFail, FilesDone, new_proc, begun, alloc_proc-begun, stacked-usage,
  setup_kstack-kept, setup_kstack_tasks, cleanup_mm-Keeps, cleanup_kstack-usage,
}

module _ {W : Type 0} (m : Memory W) (usage : W → ℕ → ℕ) (laws : Accounts m usage)
    (class : SchedClass) (fuel : ℕ) (vm fs : Bool) (s : Forking W) where
  abbrev p : ℕ
  p = new_proc m usage laws s

  -- The entry of the running process, which is not the new one.
  at_current :
      (f g : ℕ → ℕ) (c : ℕ)
      → f ≡ update g p 0
      → c ≡ s.tasks.kernel.current
      → p ≢ s.tasks.kernel.current
      → f c ≡ g s.tasks.kernel.current
  at_current f g c e h fresh =
      let other : (s.tasks.kernel.current == p) ≡ false = ground arith in
      ap (λ k. k c) e ∙ ap (update g p 0) h ∙ rw other refl

  abbrev stacked : Bool × Forking W
  stacked = setup_kstack m p (begun m usage laws s)

  abbrev mapped : Bool × Forking W
  mapped = copy_mm m vm p stacked.1

  unfoldable pub Failed : Type 0
  Failed =
      (e : ℕ) × (s' : Forking W) × (e ≢ 0)
      × (do_fork m class fuel vm fs s ≡ some (error e, s'))
      × GivesBack m usage vm p s s'

  unfoldable pub Started : Type 0
  Started =
      (t : Forking W) × (do_fork m class fuel vm fs s ≡ start_child class fuel p t) × IsReady p s t

  pub no_stack :
      leb max_process s.tasks.relations.nr_process ≡ false
      → (p == 0) ≡ false
      → stacked.0 ≡ false
      → Failed
  unfolding Failed do_fork
  no_stack a b c =
      let (t, q) = setup_kstack_tasks m usage laws p (begun m usage laws s) in
      (
        e_no_mem,
        cleanup_proc m p stacked.1,
        omega arith,
        rw (a, alloc_proc-begun m usage laws s b, b, c) refl,
        record {
          tasks = inr t;
          pid_state = q;
          same_usage = λ x.
              laws.kfree_proc p stacked.1.world x
              ∙ ground (arith, stacked-usage m usage laws s x b);
          stacks = begun_stacks m usage laws vm s;
          mms = begun_mms m usage laws vm s;
          filesps = begun_filesps m usage laws vm s;
          mm_counts = λ x o. ap (λ f. f x) (begun_counts m usage laws vm s).0;
          pgdirs = λ x o. ap (λ f. f x) (begun_counts m usage laws vm s).1;
          files_counts = (s.world, λ x o. ap (λ f. f x) (begun_counts m usage laws vm s).2);
        },
      )

  pub no_memory :
      leb max_process s.tasks.relations.nr_process ≡ false
      → (p == 0) ≡ false
      → stacked.0 ≡ true
      → mapped.0 ≡ false
      → Failed
  unfolding Failed do_fork put_kstack
  no_memory a b c d =
      let (t, q) = setup_kstack_tasks m usage laws p (begun m usage laws s) in
      let k = copy_mm-Keeps m vm p stacked.1 in
      let same = copy_mm_fails-SameSpaces m vm p stacked.1 d in
      (
        e_no_mem,
        cleanup_kstack m p mapped.1,
        omega arith,
        rw (a, alloc_proc-begun m usage laws s b, b, c, d) refl,
        record {
          tasks = inr (k.tasks ∙ t);
          pid_state = k.pid_state ∙ q;
          same_usage = λ x.
              cleanup_kstack-usage m usage laws p mapped.1 x
              ∙ ground (
                arith,
                copy_mm_fails m usage laws vm p stacked.1 x d,
                stacked-usage m usage laws s x b,
              );
          stacks = λ x n. ap (λ f. f x) k.kstack ∙ begun_stacks m usage laws vm s x n;
          mms = λ x n. same.mms x n ∙ begun_mms m usage laws vm s x n;
          filesps = λ x n. ap (λ f. f x) k.filesp ∙ begun_filesps m usage laws vm s x n;
          mm_counts = λ x o.
              same.counts x (not_new m usage laws vm s x b o)
              ∙ ap (λ f. f x) (begun_counts m usage laws vm s).0;
          pgdirs = λ x o.
              same.pgdirs x (not_new m usage laws vm s x b o)
              ∙ ap (λ f. f x) (begun_counts m usage laws vm s).1;
          files_counts =
              (s.world, λ x n. ap (λ f. f x) (k.files ∙ (begun_counts m usage laws vm s).2));
        },
      )

  pub no_files :
      leb max_process s.tasks.relations.nr_process ≡ false
      → (p == 0) ≡ false
      → stacked.0 ≡ true
      → mapped.0 ≡ true
      → p ≢ s.tasks.kernel.current
      → (s.mm s.tasks.kernel.current ≢ 0 → 0 < s.mm_count (s.mm s.tasks.kernel.current))
      → FilesFail m usage laws fs p mapped.1
      → Failed
  unfolding Failed do_fork put_kstack FilesFail
  no_files a b c d fresh shared (e, w, files, bad, did, same, kept) =
      let (t, q, mms, fls, counts, stack) =
        setup_kstack-kept m usage laws p (begun m usage laws s) c in
      let k = copy_mm-Keeps m vm p stacked.1 in
      let u = record (mapped.1) { world = w; files_count = files } in
      let k' = cleanup_mm-Keeps m usage laws p u in
      let spaces =
        cleanup_mm-SameSpaces m vm p stacked.1 w files d
          (ap (λ f. f p) mms ∙ rw (eq_self p) refl) in
      let is_error : (e == 0) ≡ false = ground arith in
      let no_mm : stacked.1.mm p ≡ 0 = ap (λ f. f p) mms ∙ rw (eq_self p) refl in
      let current = stacked.1.tasks.kernel.current in
      let old = at_current stacked.1.mm s.mm current mms (ap (λ k. k.kernel.current) t) fresh in
      let counted : stacked.1.mm current ≢ 0 → 0 < stacked.1.mm_count (stacked.1.mm current) = λ nn.
        subst (λ n. 0 < n) (sym (ap (λ f. f (stacked.1.mm current)) counts ∙ ap s.mm_count old))
          (shared (λ z. nn (old ∙ z))) in
      (
        e,
        cleanup_kstack m p (cleanup_mm m p u),
        bad,
        rw (a, alloc_proc-begun m usage laws s b, b, c, d, did, is_error) refl,
        record {
          tasks = inr (k'.tasks ∙ k.tasks ∙ t);
          pid_state = k'.pid_state ∙ k.pid_state ∙ q;
          same_usage = λ x.
              cleanup_kstack-usage m usage laws p (cleanup_mm m p u) x
              ∙ ground (
                arith,
                cleanup_mm_undoes m usage laws vm p stacked.1 x w files d no_mm counted same,
                stacked-usage m usage laws s x b,
              );
          stacks = λ x n. ap (λ f. f x) (k'.kstack ∙ k.kstack) ∙ begun_stacks m usage laws vm s x n;
          mms = λ x n. spaces.mms x n ∙ begun_mms m usage laws vm s x n;
          filesps =
              λ x n. ap (λ f. f x) (k'.filesp ∙ k.filesp) ∙ begun_filesps m usage laws vm s x n;
          mm_counts = λ x o.
              spaces.counts x (not_new m usage laws vm s x b o)
              ∙ ap (λ f. f x) (begun_counts m usage laws vm s).0;
          pgdirs = λ x o.
              spaces.pgdirs x (not_new m usage laws vm s x b o)
              ∙ ap (λ f. f x) (begun_counts m usage laws vm s).1;
          files_counts = (
            mapped.1.world,
            λ x n.
                ap (λ f. f x) k'.files
                ∙ kept x n
                ∙ ap (λ f. f x) (k.files ∙ (begun_counts m usage laws vm s).2),
          );
        },
      )

  pub started :
      leb max_process s.tasks.relations.nr_process ≡ false
      → (p == 0) ≡ false
      → stacked.0 ≡ true
      → mapped.0 ≡ true
      → FilesDone m usage laws fs p mapped.1
      → Started
  unfolding Started do_fork FilesDone
  started a b c d (w, count, file, file_there, counted, did) =
      let (t, q, mms, fls, counts, stack) =
        setup_kstack-kept m usage laws p (begun m usage laws s) c in
      let k = copy_mm-Keeps m vm p stacked.1 in
      (
        record (mapped.1) {
          world = w;
          files_count = count;
          filesp = update (mapped.1).filesp p file;
        },
        rw (a, alloc_proc-begun m usage laws s b, b, c, d, did) refl,
        record {
          not_null = ground arith;
          tasks = k.tasks ∙ t;
          pid_state = k.pid_state ∙ q;
          has_stack = λ z. stack (sym (ap (λ f. f p) k.kstack) ∙ z);
          has_files = rw (eq_self p) file_there;
          counted = rw (eq_self p) counted;
        },
      )

  pub kept_files :
      stacked.0 ≡ true
      → s.filesp s.tasks.kernel.current ≢ 0
      → p ≢ s.tasks.kernel.current
      → mapped.1.filesp mapped.1.tasks.kernel.current ≢ 0
  kept_files c files fresh z =
      let (t, q, mms, fls, counts, stack) =
        setup_kstack-kept m usage laws p (begun m usage laws s) c in
      let k = copy_mm-Keeps m vm p stacked.1 in
      files (
        sym (
          at_current mapped.1.filesp s.filesp mapped.1.tasks.kernel.current (k.filesp ∙ fls)
            (ap (λ u. u.kernel.current) (k.tasks ∙ t)) fresh)
        ∙ z)
