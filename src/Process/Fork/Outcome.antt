-- ===== src/Process/Fork/Outcome.antt =====
-- What `do_fork` of lab8/kern/process/proc.c leaves when it fails, and when it goes on to start a child.
use os_experiment.Prelude.{
  ℕ, ◌≡◌, ◌≢◌, ◌<◌, Bool, true, false, ◌==◌, ◌⊎◌, inl, inr, ap, sym, ◌∙◌, arith,
}
use os_experiment.Process.Fork.{Memory, Forking, blank_tasks, setup_kstack}
use os_experiment.Process.Fork.Usage.{Accounts}
use os_experiment.Process.Fork.Spaces.{setup_kstack-spaces}
use os_experiment.Process.Fork.Steps.{new_proc, begun, stacked-usage}

-- A failed fork leaves the kernel as it was, but for the fields of the process `p` that it allocated
-- and freed, and uses no more memory than before. The count and the page directory stay of every
-- memory space that maps something, of all of them with CLONE_VM (`vm`), and the count of all files
-- but those that `files_create` gave.
pub record GivesBack {W : Type 0} (m : Memory W) (usage : W → ℕ → ℕ) (vm : Bool) (p : ℕ)
    (s s' : Forking W) : Type 0 where
  pub tasks : (s'.tasks ≡ s.tasks) ⊎ (s'.tasks ≡ blank_tasks p s.tasks)
  pub pid_state : s'.pid_state ≡ s.pid_state
  pub same_usage : (x : ℕ) → usage s'.world x ≡ usage s.world x
  pub stacks : (x : ℕ) → x ≢ p → s'.kstack x ≡ s.kstack x
  pub mms : (x : ℕ) → x ≢ p → s'.mm x ≡ s.mm x
  pub filesps : (x : ℕ) → x ≢ p → s'.filesp x ≡ s.filesp x
  pub mm_counts :
      (x : ℕ) → (vm ≡ true) ⊎ ((x ≢ 0) × (usage s.world x ≢ 0)) → s'.mm_count x ≡ s.mm_count x
  pub pgdirs : (x : ℕ) → (vm ≡ true) ⊎ ((x ≢ 0) × (usage s.world x ≢ 0)) → s'.pgdir x ≡ s.pgdir x
  pub files_counts :
      (w : W) × ((x : ℕ) → x ≢ (m.files_create w).0 → s'.files_count x ≡ s.files_count x)

-- A child that has all it needs to run.
pub record IsReady {W : Type 0} (p : ℕ) (s t : Forking W) : Type 0 where
  pub not_null : p ≢ 0
  pub tasks : t.tasks ≡ blank_tasks p s.tasks
  pub pid_state : t.pid_state ≡ s.pid_state
  pub has_stack : t.kstack p ≢ 0
  pub has_files : t.filesp p ≢ 0
  pub counted : 0 < t.files_count (t.filesp p)

module _ {W : Type 0} (m : Memory W) (usage : W → ℕ → ℕ) (laws : Accounts m usage) (vm : Bool)
    (s : Forking W) where
  abbrev p : ℕ
  p = new_proc m usage laws s

  abbrev stacked : Bool × Forking W
  stacked = setup_kstack m p (begun m usage laws s)

  -- The fields of the other processes and the counts while the new process only has its stack.
  pub begun_mms : (x : ℕ) → x ≢ p → stacked.1.mm x ≡ s.mm x
  begun_mms x n =
      let (mms, fls, counts, pgdirs, files, stacks) =
        setup_kstack-spaces m p (begun m usage laws s) in
      ap (λ f. f x) mms ∙ ground arith

  pub begun_filesps : (x : ℕ) → x ≢ p → stacked.1.filesp x ≡ s.filesp x
  begun_filesps x n =
      let (mms, fls, counts, pgdirs, files, stacks) =
        setup_kstack-spaces m p (begun m usage laws s) in
      ap (λ f. f x) fls ∙ ground arith

  pub begun_stacks : (x : ℕ) → x ≢ p → stacked.1.kstack x ≡ s.kstack x
  begun_stacks x n =
      let (mms, fls, counts, pgdirs, files, stacks) =
        setup_kstack-spaces m p (begun m usage laws s) in
      stacks x n ∙ ground arith

  pub begun_counts :
      (stacked.1.mm_count ≡ s.mm_count)
      × (stacked.1.pgdir ≡ s.pgdir)
      × (stacked.1.files_count ≡ s.files_count)
  begun_counts =
      let (mms, fls, counts, pgdirs, files, stacks) =
        setup_kstack-spaces m p (begun m usage laws s) in
      (counts, pgdirs, files)

  -- A memory space that maps something is not the one that `mm_create` gives.
  pub not_new :
      (x : ℕ)
      → (p == 0) ≡ false
      → (vm ≡ true) ⊎ ((x ≢ 0) × (usage s.world x ≢ 0))
      → (vm ≡ true) ⊎ (x ≢ (m.mm_create stacked.1.world).0)
  not_new x b o = elim o [
    | inl v ↦ inl v
    | inr (nn, used) ↦ inr (λ e. used (
        sym (stacked-usage m usage laws s x b ∙ ground arith)
        ∙ ap (usage stacked.1.world) e
        ∙ laws.mm_create_new stacked.1.world (λ z. nn (e ∙ z))))
  ]
