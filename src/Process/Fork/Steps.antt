-- ===== src/Process/Fork/Steps.antt =====
-- What the steps of `do_fork` in lab8/kern/process/proc.c leave.
use os_experiment.Prelude.{
  ℕ, ◌+◌, ◌-◌, ◌≡◌, ◌≢◌, ◌<◌, refl, Bool, true, false, some, ◌==◌, if◌then◌else◌, update, arith,
  Bool-cases, inl, inr, ◌⊎◌, ◌∙◌,
}
use os_experiment.Process.Family.{eq_self}
use os_experiment.Process.Fork.{
  Memory, Forking, e_no_mem, kstackpage, blank_tasks, alloc_proc, setup_kstack, put_kstack,
  setup_pgdir, put_pgdir, share_mm, drop_mm, copy_mm, share_files, copy_files, cleanup_mm,
  cleanup_kstack,
}
use os_experiment.Process.Fork.Usage.{Accounts, setup_kstack-usage}

-- What a step keeps.
pub record Keeps {W : Type 0} (s t : Forking W) : Type 0 where
  pub tasks : t.tasks ≡ s.tasks
  pub pid_state : t.pid_state ≡ s.pid_state
  pub kstack : t.kstack ≡ s.kstack
  pub filesp : t.filesp ≡ s.filesp
  pub files : t.files_count ≡ s.files_count

module _ {W : Type 0} (m : Memory W) where
  share_mm-Keeps : (mm p : ℕ) (s : Forking W) → Keeps s (share_mm m mm p s)
  unfolding share_mm
  share_mm-Keeps mm p s = record {
    tasks = refl;
    pid_state = refl;
    kstack = refl;
    filesp = refl;
    files = refl;
  }

  setup_pgdir-Keeps : (mm : ℕ) (s : Forking W) → Keeps s (setup_pgdir m mm s).1
  unfolding setup_pgdir
  setup_pgdir-Keeps mm s = elim (Bool-cases ((m.alloc_pages 1 s.world).0 == 0)) [
    | inl e ↦
        rw e (record { tasks = refl; pid_state = refl; kstack = refl; filesp = refl; files = refl })
    | inr e ↦
        rw e (record { tasks = refl; pid_state = refl; kstack = refl; filesp = refl; files = refl })
  ]

  pub copy_mm-Keeps : (vm : Bool) (p : ℕ) (s : Forking W) → Keeps s (copy_mm m vm p s).1
  unfolding copy_mm share_mm drop_mm put_pgdir
  copy_mm-Keeps vm p s =
      let mm = (m.mm_create s.world).0 in
      let created = record s {
        world = (m.mm_create s.world).1;
        mm_count = update s.mm_count mm 0;
      } in
      let ready = setup_pgdir m mm created in
      let k = setup_pgdir-Keeps mm created in
      elim (Bool-cases (s.mm s.tasks.kernel.current == 0)) [
        | inl a ↦
            rw a (record {
              tasks = refl;
              pid_state = refl;
              kstack = refl;
              filesp = refl;
              files = refl;
            })
        | inr a ↦ elim (Bool-cases vm) [
          | inl b ↦
              rw (a, b)
                (record {
                  tasks = refl;
                  pid_state = refl;
                  kstack = refl;
                  filesp = refl;
                  files = refl;
                })
          | inr b ↦ elim (Bool-cases (mm == 0)) [
            | inl c ↦
                rw (a, b, c)
                  (record {
                    tasks = refl;
                    pid_state = refl;
                    kstack = refl;
                    filesp = refl;
                    files = refl;
                  })
            | inr c ↦ elim (Bool-cases ready.0) [
              | inl d ↦
                  elim (Bool-cases
                    ((m.dup_mmap mm (s.mm s.tasks.kernel.current) ready.1.world).0 == 0)) [
                      | inl e ↦
                          rw (a, b, c, d, e)
                            (record {
                              tasks = k.tasks;
                              pid_state = k.pid_state;
                              kstack = k.kstack;
                              filesp = k.filesp;
                              files = k.files;
                            })
                      | inr e ↦
                          rw (a, b, c, d, e)
                            (record {
                              tasks = k.tasks;
                              pid_state = k.pid_state;
                              kstack = k.kstack;
                              filesp = k.filesp;
                              files = k.files;
                            })
                    ]
              | inr d ↦
                  rw (a, b, c, d)
                    (record {
                      tasks = k.tasks;
                      pid_state = k.pid_state;
                      kstack = k.kstack;
                      filesp = k.filesp;
                      files = k.files;
                    })
            ]
          ]
        ]
      ]

module _ {W : Type 0} (m : Memory W) (usage : W → ℕ → ℕ) (laws : Accounts m usage) where
  -- What `copy_files` leaves: nothing behind an error, else the files of the child.
  unfoldable pub FilesFail : Bool → ℕ → Forking W → Type 0
  FilesFail fs p s =
      (e : ℕ) × (w : W) × (files : ℕ → ℕ) × (e ≢ 0)
      × (copy_files m fs p s ≡ some (e, record s { world = w; files_count = files }))
      × ((y : ℕ) → usage w y ≡ usage s.world y)
      × ((x : ℕ) → x ≢ (m.files_create s.world).0 → files x ≡ s.files_count x)

  unfoldable pub FilesDone : Bool → ℕ → Forking W → Type 0
  FilesDone fs p s =
      (w : W) × (count : ℕ → ℕ) × (file : ℕ) × (file ≢ 0)
      × (0 < count file)
      × (copy_files m fs p s
          ≡ some (0, record s { world = w; files_count = count; filesp = update s.filesp p file }))

  pub copy_files-cases :
      (fs : Bool) (p : ℕ) (s : Forking W)
      → s.filesp s.tasks.kernel.current ≢ 0
      → FilesFail fs p s ⊎ FilesDone fs p s
  unfolding copy_files share_files FilesFail FilesDone
  copy_files-cases fs p s nn =
      let old = s.filesp s.tasks.kernel.current in
      let files = (m.files_create s.world).0 in
      let w1 = (m.files_create s.world).1 in
      let w2 = (m.dup_files files old w1).1 in
      let some_files : (old == 0) ≡ false = ground arith in
      elim (Bool-cases fs) [
        | inl a ↦ inr (
          s.world,
          update s.files_count old (s.files_count old + 1),
          old,
          nn,
          rw (eq_self old) (omega arith),
          rw (some_files, a) refl,
        )
        | inr a ↦ elim (Bool-cases (files == 0)) [
          | inl b ↦ inl (
            e_no_mem,
            w1,
            s.files_count,
            omega arith,
            rw (some_files, a, b) refl,
            λ y. laws.files_create s.world y ∙ rw b (ground arith),
            λ x n. refl,
          )
          | inr b ↦ elim (Bool-cases ((m.dup_files files old w1).0 == 0)) [
            | inl c ↦ inr (
              w2,
              update (update s.files_count files 0) files (update s.files_count files 0 files + 1),
              files,
              ground arith,
              rw (eq_self files) (omega arith),
              rw (some_files, a, b, c) refl,
            )
            | inr c ↦ inl (
              (m.dup_files files old w1).0,
              m.files_destroy files w2,
              update s.files_count files 0,
              ground arith,
              rw (some_files, a, b, c) refl,
              λ y.
                  laws.files_destroy files w2 y
                  ∙ ground (arith, laws.dup_files files old w1 y, laws.files_create s.world y),
              λ x n. ground arith,
            )
          ]
        ]
      ]

  abbrev pub new_proc : Forking W → ℕ
  new_proc s = (m.kmalloc_proc s.world).0

  -- The state behind `alloc_proc`.
  abbrev pub begun : Forking W → Forking W
  begun s = record s {
    world = (m.kmalloc_proc s.world).1;
    tasks = blank_tasks (new_proc s) s.tasks;
    kstack = update s.kstack (new_proc s) 0;
    mm = update s.mm (new_proc s) 0;
    filesp = update s.filesp (new_proc s) 0;
  }

  pub alloc_proc-begun :
      (s : Forking W) → (new_proc s == 0) ≡ false → alloc_proc m s ≡ (new_proc s, begun s)
  unfolding alloc_proc
  alloc_proc-begun s e = rw e refl

  -- What is used when the process has its stack.
  pub stacked-usage :
      (s : Forking W) (x : ℕ)
      → (new_proc s == 0) ≡ false
      → usage (setup_kstack m (new_proc s) (begun s)).1.world x ≡ (
          if x == 0
          then usage s.world x + (if (setup_kstack m (new_proc s) (begun s)).0 then 3 else 1)
          else usage s.world x)
  stacked-usage s x e =
      ground (
        arith,
        setup_kstack-usage m usage laws (new_proc s) (begun s) x,
        laws.kmalloc_proc s.world x,
      )

  pub setup_kstack-kept :
      (p : ℕ) (s : Forking W)
      → (setup_kstack m p s).0 ≡ true
      → ((setup_kstack m p s).1.tasks ≡ s.tasks)
        × ((setup_kstack m p s).1.pid_state ≡ s.pid_state)
        × ((setup_kstack m p s).1.mm ≡ s.mm)
        × ((setup_kstack m p s).1.filesp ≡ s.filesp)
        × ((setup_kstack m p s).1.mm_count ≡ s.mm_count)
        × ((setup_kstack m p s).1.kstack p ≢ 0)
  unfolding setup_kstack
  setup_kstack-kept p s = elim (Bool-cases ((m.alloc_pages kstackpage s.world).0 == 0)) [
    | inl e ↦ rw e (λ q. absurd (ground (arith, q)))
    | inr e ↦ rw e (λ q. (refl, refl, refl, refl, refl, λ z. ground (arith, z, eq_self p)))
  ]

  pub cleanup_kstack-usage :
      (p : ℕ) (s : Forking W) (x : ℕ)
      → usage (cleanup_kstack m p s).world x
        ≡ (if x == 0 then usage s.world x - 3 else usage s.world x)
  unfolding put_kstack
  cleanup_kstack-usage p s x =
      let w = m.free_pages (s.kstack p) kstackpage s.world in
      ground (arith, laws.kfree_proc p w x, laws.free_pages (s.kstack p) kstackpage s.world x)

  pub setup_kstack_tasks :
      (p : ℕ) (s : Forking W)
      → ((setup_kstack m p s).1.tasks ≡ s.tasks) × ((setup_kstack m p s).1.pid_state ≡ s.pid_state)
  unfolding setup_kstack
  setup_kstack_tasks p s = elim (Bool-cases ((m.alloc_pages kstackpage s.world).0 == 0)) [
    | inl e ↦ rw e (refl, refl)
    | inr e ↦ rw e (refl, refl)
  ]

  pub cleanup_mm-Keeps : (p : ℕ) (s : Forking W) → Keeps s (cleanup_mm m p s)
  unfolding cleanup_mm drop_mm put_pgdir
  cleanup_mm-Keeps p s = elim (Bool-cases (s.mm p == 0)) [
    | inl a ↦
        rw a (record { tasks = refl; pid_state = refl; kstack = refl; filesp = refl; files = refl })
    | inr a ↦ elim (Bool-cases (s.mm_count (s.mm p) - 1 == 0)) [
      | inl b ↦
          rw (a, b)
            (record { tasks = refl; pid_state = refl; kstack = refl; filesp = refl; files = refl })
      | inr b ↦
          rw (a, b)
            (record { tasks = refl; pid_state = refl; kstack = refl; filesp = refl; files = refl })
    ]
  ]
