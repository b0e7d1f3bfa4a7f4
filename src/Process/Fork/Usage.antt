-- ===== src/Process/Fork/Usage.antt =====
-- What the steps of `do_fork` in lab8/kern/process/proc.c use of the memory.
use os_experiment.Prelude.{
  ℕ, ◌+◌, ◌-◌, ◌≡◌, ◌≢◌, refl, not, ◌&&◌, ◌==◌, if◌then◌else◌, arith, Bool-cases, inl, inr, ◌∙◌,
}
use os_experiment.Process.Fork.{
  Memory, Forking, kstackpage, setup_kstack, setup_pgdir, put_pgdir, drop_mm,
}

-- `usage w 0` is the memory that the kernel has allocated, `usage w mm` what a memory space maps.
pub record Accounts {W : Type 0} (m : Memory W) (usage : W → ℕ → ℕ) : Type 0 where
  pub kmalloc_proc :
      (w : W) (x : ℕ)
      → usage (m.kmalloc_proc w).1 x
        ≡ (if x == 0 && not ((m.kmalloc_proc w).0 == 0) then usage w x + 1 else usage w x)
  pub kfree_proc :
      (p : ℕ) (w : W) (x : ℕ)
      → usage (m.kfree_proc p w) x ≡ (if x == 0 then usage w x - 1 else usage w x)
  pub alloc_pages :
      (n : ℕ) (w : W) (x : ℕ)
      → usage (m.alloc_pages n w).1 x
        ≡ (if x == 0 && not ((m.alloc_pages n w).0 == 0) then usage w x + n else usage w x)
  pub free_pages :
      (a n : ℕ) (w : W) (x : ℕ)
      → usage (m.free_pages a n w) x ≡ (if x == 0 then usage w x - n else usage w x)
  pub copy_boot_pgdir : (a : ℕ) (w : W) (x : ℕ) → usage (m.copy_boot_pgdir a w) x ≡ usage w x
  pub mm_create :
      (w : W) (x : ℕ)
      → usage (m.mm_create w).1 x
        ≡ (if x == 0 && not ((m.mm_create w).0 == 0) then usage w x + 1 else usage w x)
  pub mm_create_new : (w : W) → (m.mm_create w).0 ≢ 0 → usage w (m.mm_create w).0 ≡ 0
  pub mm_destroy :
      (mm : ℕ) (w : W) (x : ℕ)
      → usage (m.mm_destroy mm w) x ≡ (if x == 0 then usage w x - 1 else usage w x)
  pub dup_mmap : (mm old : ℕ) (w : W) (x : ℕ) → x ≢ mm → usage (m.dup_mmap mm old w).1 x ≡ usage w x
  pub exit_mmap :
      (mm : ℕ) (w : W) (x : ℕ)
      → mm ≢ 0
      → usage (m.exit_mmap mm w) x ≡ (if x == mm then 0 else usage w x)
  pub files_create :
      (w : W) (x : ℕ)
      → usage (m.files_create w).1 x
        ≡ (if x == 0 && not ((m.files_create w).0 == 0) then usage w x + 1 else usage w x)
  pub files_destroy :
      (f : ℕ) (w : W) (x : ℕ)
      → usage (m.files_destroy f w) x ≡ (if x == 0 then usage w x - 1 else usage w x)
  pub dup_files : (f old : ℕ) (w : W) (x : ℕ) → usage (m.dup_files f old w).1 x ≡ usage w x

module _ {W : Type 0} (m : Memory W) (usage : W → ℕ → ℕ) (laws : Accounts m usage) where
  pub setup_kstack-usage :
      (p : ℕ) (s : Forking W) (x : ℕ)
      → usage (setup_kstack m p s).1.world x ≡ (
          if x == 0 && (setup_kstack m p s).0
          then usage s.world x + kstackpage
          else usage s.world x)
  unfolding setup_kstack
  setup_kstack-usage p s x = elim (Bool-cases ((m.alloc_pages kstackpage s.world).0 == 0)) [
    | inl e ↦ rw e (laws.alloc_pages kstackpage s.world x ∙ rw e refl)
    | inr e ↦ rw e (laws.alloc_pages kstackpage s.world x ∙ rw e refl)
  ]

  -- A memory space that is dropped leaves nothing.
  pub drop_mm-usage :
      (mm : ℕ) (s : Forking W) (x : ℕ)
      → mm ≢ 0
      → usage (drop_mm m mm s).world x
        ≡ (if x == mm then 0 else if x == 0 then usage s.world x - 2 else usage s.world x)
  unfolding drop_mm put_pgdir
  drop_mm-usage mm s x nn =
      let w1 = m.exit_mmap mm s.world in
      let w2 = m.free_pages (s.pgdir mm) 1 w1 in
      ground (
        arith,
        laws.mm_destroy mm w2 x,
        laws.free_pages (s.pgdir mm) 1 w1 x,
        laws.exit_mmap mm s.world x nn,
      )

  pub setup_pgdir-usage :
      (mm : ℕ) (s : Forking W) (x : ℕ)
      → usage (setup_pgdir m mm s).1.world x
        ≡ (if x == 0 && (setup_pgdir m mm s).0 then usage s.world x + 1 else usage s.world x)
  unfolding setup_pgdir
  setup_pgdir-usage mm s x = elim (Bool-cases ((m.alloc_pages 1 s.world).0 == 0)) [
    | inl e ↦ rw e (laws.alloc_pages 1 s.world x ∙ rw e refl)
    | inr e ↦ rw e (
        laws.copy_boot_pgdir (m.alloc_pages 1 s.world).0 (m.alloc_pages 1 s.world).1 x
        ∙ laws.alloc_pages 1 s.world x
        ∙ rw e refl)
  ]
