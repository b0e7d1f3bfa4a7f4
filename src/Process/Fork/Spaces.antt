-- ===== src/Process/Fork/Spaces.antt =====
-- What the steps of `do_fork` in lab8/kern/process/proc.c leave of memory spaces and their counts.
use os_experiment.Prelude.{
  ℕ, ◌+◌, ◌-◌, ◌≡◌, ◌≢◌, refl, Bool, true, false, ◌==◌, if◌then◌else◌, update, arith, Bool-cases,
  inl, inr, ◌⊎◌, ap, ◌∙◌,
}
use os_experiment.Process.Family.{eq_self}
use os_experiment.Process.Fork.{
  Memory, Forking, kstackpage, setup_kstack, setup_pgdir, put_pgdir, share_mm, drop_mm, copy_mm,
  cleanup_mm,
}

-- No memory space changes but `new`, or none at all if the memory is shared (`vm`), and no process
-- gets another one but `p`.
pub record SameSpaces {W : Type 0} (vm : Bool) (p new : ℕ) (s t : Forking W) : Type 0 where
  pub mms : (x : ℕ) → x ≢ p → t.mm x ≡ s.mm x
  pub counts : (x : ℕ) → (vm ≡ true) ⊎ (x ≢ new) → t.mm_count x ≡ s.mm_count x
  pub pgdirs : (x : ℕ) → (vm ≡ true) ⊎ (x ≢ new) → t.pgdir x ≡ s.pgdir x

module _ {W : Type 0} (m : Memory W) where
  -- A new stack changes nothing else.
  pub setup_kstack-spaces :
      (p : ℕ) (s : Forking W)
      → ((setup_kstack m p s).1.mm ≡ s.mm)
        × ((setup_kstack m p s).1.filesp ≡ s.filesp)
        × ((setup_kstack m p s).1.mm_count ≡ s.mm_count)
        × ((setup_kstack m p s).1.pgdir ≡ s.pgdir)
        × ((setup_kstack m p s).1.files_count ≡ s.files_count)
        × ((x : ℕ) → x ≢ p → (setup_kstack m p s).1.kstack x ≡ s.kstack x)
  unfolding setup_kstack
  setup_kstack-spaces p s = elim (Bool-cases ((m.alloc_pages kstackpage s.world).0 == 0)) [
    | inl e ↦ rw e (refl, refl, refl, refl, refl, λ x n. refl)
    | inr e ↦ rw e (refl, refl, refl, refl, refl, λ x n. ground arith)
  ]

  setup_pgdir-spaces :
      (mm : ℕ) (t : Forking W)
      → ((setup_pgdir m mm t).1.mm ≡ t.mm)
        × ((setup_pgdir m mm t).1.mm_count ≡ t.mm_count)
        × ((setup_pgdir m mm t).1.files_count ≡ t.files_count)
        × ((x : ℕ) → x ≢ mm → (setup_pgdir m mm t).1.pgdir x ≡ t.pgdir x)
  unfolding setup_pgdir
  setup_pgdir-spaces mm t = elim (Bool-cases ((m.alloc_pages 1 t.world).0 == 0)) [
    | inl e ↦ rw e (refl, refl, refl, λ x n. refl)
    | inr e ↦ rw e (refl, refl, refl, λ x n. ground arith)
  ]

  cleanup_mm-null : (p : ℕ) (t : Forking W) → t.mm p ≡ 0 → cleanup_mm m p t ≡ t
  unfolding cleanup_mm
  cleanup_mm-null p t e = let null : (t.mm p == 0) ≡ true = ground arith in rw null refl

  -- The cleanup takes one off the count of the memory space of `p`.
  cleanup_mm-spaces :
      (p : ℕ) (t : Forking W)
      → (t.mm p == 0) ≡ false
      → ((x : ℕ) → x ≢ p → (cleanup_mm m p t).mm x ≡ t.mm x)
        × ((x : ℕ)
            → (cleanup_mm m p t).mm_count x
              ≡ (if x == t.mm p then t.mm_count (t.mm p) - 1 else t.mm_count x))
        × ((cleanup_mm m p t).pgdir ≡ t.pgdir)
  unfolding cleanup_mm drop_mm put_pgdir
  cleanup_mm-spaces p t e = elim (Bool-cases (t.mm_count (t.mm p) - 1 == 0)) [
    | inl f ↦ rw (e, f) (λ x n. ground arith, λ x. refl, refl)
    | inr f ↦ rw (e, f) (λ x n. ground arith, λ x. refl, refl)
  ]

  module _ (vm : Bool) (p : ℕ) (s : Forking W) where
    abbrev old_mm : ℕ
    old_mm = s.mm s.tasks.kernel.current

    abbrev new_mm : ℕ
    new_mm = (m.mm_create s.world).0

    abbrev with_mm : Forking W
    with_mm = record s { world = (m.mm_create s.world).1; mm_count = update s.mm_count new_mm 0 }

    abbrev ready : Bool × Forking W
    ready = setup_pgdir m new_mm with_mm

    abbrev copied : ℕ × W
    copied = m.dup_mmap new_mm old_mm ready.1.world

    with_mm_count : (x : ℕ) → x ≢ new_mm → with_mm.mm_count x ≡ s.mm_count x
    with_mm_count x n = ground arith

    -- A new memory space, before any process has it.
    ready_spaces :
        (t : Forking W)
        → t.mm ≡ ready.1.mm
        → t.mm_count ≡ ready.1.mm_count
        → t.pgdir ≡ ready.1.pgdir
        → SameSpaces false p new_mm s t
    ready_spaces t mms counts pgdirs =
        let (a, b, c, d) = setup_pgdir-spaces new_mm with_mm in
        record {
          mms = λ x n. ap (λ f. f x) (mms ∙ a);
          counts = λ x o. elim o [
            | inl v ↦ absurd (ground arith)
            | inr n ↦ ap (λ f. f x) (counts ∙ b) ∙ with_mm_count x n
          ];
          pgdirs = λ x o. elim o [
            | inl v ↦ absurd (ground arith)
            | inr n ↦ ap (λ f. f x) pgdirs ∙ d x n
          ];
        }

    -- A `copy_mm` that fails.
    pub copy_mm_fails-SameSpaces :
        (copy_mm m vm p s).0 ≡ false → SameSpaces vm p new_mm s (copy_mm m vm p s).1
    unfolding copy_mm drop_mm put_pgdir
    copy_mm_fails-SameSpaces = elim (Bool-cases (old_mm == 0)) [
      | inl a ↦ rw a (λ q. absurd (ground (arith, q)))
      | inr a ↦ elim (Bool-cases vm) [
        | inl b ↦ rw (a, b) (λ q. absurd (ground (arith, q)))
        | inr b ↦ elim (Bool-cases (new_mm == 0)) [
          | inl c ↦
              rw (a, b, c)
                (λ q. record { mms = λ x n. refl; counts = λ x o. refl; pgdirs = λ x o. refl })
          | inr c ↦ elim (Bool-cases ready.0) [
            | inl d ↦ elim (Bool-cases (copied.0 == 0)) [
              | inl e ↦ rw (a, b, c, d, e) (λ q. absurd (ground (arith, q)))
              | inr e ↦ rw (a, b, c, d, e) (λ q. ready_spaces _ refl refl refl)
            ]
            | inr d ↦ rw (a, b, c, d) (λ q. ready_spaces _ refl refl refl)
          ]
        ]
      ]
    ]

    -- The state behind a `copy_mm` that succeeds, after steps that leave the memory spaces alone.
    abbrev later : W → (ℕ → ℕ) → Forking W
    later w files = record ((copy_mm m vm p s).1) { world = w; files_count = files }

    shared_again :
        (mm : ℕ) (t : Forking W) (w : W) (files : ℕ → ℕ)
        → (mm == 0) ≡ false
        → ((x : ℕ)
            → x ≢ p
            → (cleanup_mm m p (record (share_mm m mm p t) { world = w; files_count = files })).mm x
              ≡ t.mm x)
          × ((x : ℕ)
              → (cleanup_mm m p
                    (record (share_mm m mm p t) { world = w; files_count = files })).mm_count
                  x
                ≡ t.mm_count x)
          × ((cleanup_mm m p (record (share_mm m mm p t) { world = w; files_count = files })).pgdir
              ≡ t.pgdir)
    unfolding share_mm
    shared_again mm t w files e =
        let r = record (share_mm m mm p t) { world = w; files_count = files } in
        let here : (r.mm p) ≡ mm = rw (eq_self p) refl in
        let (a, b, c) = cleanup_mm-spaces p r (rw (eq_self p) e) in
        (λ x n. a x n ∙ ground arith, λ x. b x ∙ restored x, c)
      where
        restored :
            (x : ℕ)
            → (if x == update t.mm p mm p
                then update t.mm_count mm (t.mm_count mm + 1) (update t.mm p mm p) - 1
                else update t.mm_count mm (t.mm_count mm + 1) x)
              ≡ t.mm_count x
        restored x =
            rw (eq_self p, eq_self mm)
              (elim (Bool-cases (x == mm)) [
                | inl g ↦
                    let same : x ≡ mm = ground arith in rw g (omega (arith, ap t.mm_count same))
                | inr g ↦ rw g refl
              ])

    -- `bad_fork_cleanup_mm` behind a `copy_mm` that succeeds.
    pub cleanup_mm-SameSpaces :
        (w : W) (files : ℕ → ℕ)
        → (copy_mm m vm p s).0 ≡ true
        → s.mm p ≡ 0
        → SameSpaces vm p new_mm s (cleanup_mm m p (later w files))
    unfolding copy_mm
    cleanup_mm-SameSpaces w files = elim (Bool-cases (old_mm == 0)) [
      | inl a ↦ rw a (λ q fresh.
          let same = cleanup_mm-null p (record s { world = w; files_count = files }) fresh in
          record {
            mms = λ x n. ap (λ (t : Forking W). t.mm x) same;
            counts = λ x o. ap (λ (t : Forking W). t.mm_count x) same;
            pgdirs = λ x o. ap (λ (t : Forking W). t.pgdir x) same;
          })
      | inr a ↦ elim (Bool-cases vm) [
        | inl b ↦
            rw (a, b)
              (λ q fresh.
                let (f, g, h) = shared_again old_mm s w files a in
                record { mms = f; counts = λ x o. g x; pgdirs = λ x o. ap (λ k. k x) h })
        | inr b ↦ elim (Bool-cases (new_mm == 0)) [
          | inl c ↦ rw (a, b, c) (λ q. absurd (ground (arith, q)))
          | inr c ↦ elim (Bool-cases ready.0) [
            | inl d ↦ elim (Bool-cases (copied.0 == 0)) [
              | inl e ↦
                  rw (a, b, c, d, e)
                    (λ q fresh.
                      let t = record (ready.1) { world = copied.1 } in
                      let (f, g, h) = shared_again new_mm t w files c in
                      let r = ready_spaces t refl refl refl in
                      record {
                        mms = λ x n. f x n ∙ r.mms x n;
                        counts = λ x o. g x ∙ r.counts x o;
                        pgdirs = λ x o. ap (λ k. k x) h ∙ r.pgdirs x o;
                      })
              | inr e ↦ rw (a, b, c, d, e) (λ q. absurd (ground (arith, q)))
            ]
            | inr d ↦ rw (a, b, c, d) (λ q. absurd (ground (arith, q)))
          ]
        ]
      ]
    ]
