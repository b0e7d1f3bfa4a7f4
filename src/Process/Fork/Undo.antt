-- ===== src/Process/Fork/Undo.antt =====
-- What the cleanup of `copy_mm` and of `do_fork` in lab8/kern/process/proc.c gives back.
use os_experiment.Prelude.{
  ℕ, ◌+◌, ◌-◌, ◌≡◌, ◌≢◌, ◌<◌, refl, Bool, true, false, ◌==◌, if◌then◌else◌, update, arith,
  Bool-cases, inl, inr, ap, sym, ◌∙◌,
}
use os_experiment.Process.Family.{eq_self}
use os_experiment.Process.Fork.{
  Memory, Forking, setup_pgdir, share_mm, drop_mm, copy_mm, cleanup_mm,
}
use os_experiment.Process.Fork.Usage.{Accounts, setup_pgdir-usage, drop_mm-usage}

module _ {W : Type 0} (m : Memory W) (usage : W → ℕ → ℕ) (laws : Accounts m usage) where
  cleanup_null : (p : ℕ) (t : Forking W) → t.mm p ≡ 0 → (cleanup_mm m p t).world ≡ t.world
  unfolding cleanup_mm
  cleanup_null p t e = let null : (t.mm p == 0) ≡ true = ground arith in rw null refl

  cleanup_shared :
      (p : ℕ) (t : Forking W)
      → (t.mm p == 0) ≡ false
      → (t.mm_count (t.mm p) - 1 == 0) ≡ false
      → (cleanup_mm m p t).world ≡ t.world
  unfolding cleanup_mm
  cleanup_shared p t e f = rw (e, f) refl

  cleanup_last :
      (p : ℕ) (t : Forking W)
      → (t.mm p == 0) ≡ false
      → (t.mm_count (t.mm p) - 1 == 0) ≡ true
      → (cleanup_mm m p t).world
        ≡ (drop_mm m
            (t.mm p)
            (record t { mm_count = update t.mm_count (t.mm p) (t.mm_count (t.mm p) - 1) })).world
  unfolding cleanup_mm
  cleanup_last p t e f = rw (e, f) refl

  module _ (vm : Bool) (p : ℕ) (s : Forking W) where
    setup_pgdir-mm_count : (mm : ℕ) (t : Forking W) → (setup_pgdir m mm t).1.mm_count ≡ t.mm_count
    unfolding setup_pgdir
    setup_pgdir-mm_count mm t = elim (Bool-cases ((m.alloc_pages 1 t.world).0 == 0)) [
      | inl e ↦ rw e refl
      | inr e ↦ rw e refl
    ]

    -- The cleanup behind the label `good_mm`, for a memory space that no other process shares, and
    -- for one that others do.
    share_mm_last :
        (mm : ℕ) (t : Forking W) (w : W) (files : ℕ → ℕ) (x : ℕ)
        → (mm == 0) ≡ false
        → t.mm_count mm ≡ 0
        → (u : Forking W) × (u.world ≡ w)
          × (usage
                (cleanup_mm m p
                  (record (share_mm m mm p t) { world = w; files_count = files })).world
                x
              ≡ usage (drop_mm m mm u).world x)
    unfolding share_mm
    share_mm_last mm t w files x e zero_count =
        let r = record (share_mm m mm p t) { world = w; files_count = files } in
        let here : update t.mm p mm p ≡ mm = rw (eq_self p) refl in
        (
          record r { mm_count = update r.mm_count (r.mm p) (r.mm_count (r.mm p) - 1) },
          refl,
          ap (λ v. usage v x)
                (cleanup_last p r (rw (eq_self p) e) (rw (eq_self p, eq_self mm, zero_count) refl))
              ∙ ap
                  (λ k.
                    usage
                      (drop_mm m k (record r {
                        mm_count = update r.mm_count (r.mm p) (r.mm_count (r.mm p) - 1);
                      })).world
                      x)
                  here,
        )

    share_mm_shared :
        (mm : ℕ) (t : Forking W) (w : W) (files : ℕ → ℕ)
        → (mm == 0) ≡ false
        → 0 < t.mm_count mm
        → (cleanup_mm m p (record (share_mm m mm p t) { world = w; files_count = files })).world ≡ w
    unfolding share_mm
    share_mm_shared mm t w files e more =
        cleanup_shared p (record (share_mm m mm p t) { world = w; files_count = files })
          (rw (eq_self p) e) (rw (eq_self p, eq_self mm) (ground arith))

    share_mm-world : (mm : ℕ) (t : Forking W) → (share_mm m mm p t).world ≡ t.world
    unfolding share_mm
    share_mm-world mm t = refl

    abbrev old_mm : ℕ
    old_mm = s.mm s.tasks.kernel.current

    abbrev new_mm : ℕ
    new_mm = (m.mm_create s.world).0

    abbrev with_mm : Forking W
    with_mm = record s { world = (m.mm_create s.world).1; mm_count = update s.mm_count new_mm 0 }

    abbrev ready : Bool × Forking W
    ready = setup_pgdir m new_mm with_mm

    abbrev copied : ℕ × W
    copied = m.dup_mmap new_mm old_mm ready.1.world

    ready-usage :
        (x : ℕ)
        → (new_mm == 0) ≡ false
        → usage ready.1.world x ≡ (
            if x == 0
            then (if ready.0 then usage s.world x + 2 else usage s.world x + 1)
            else usage s.world x)
    ready-usage x e =
        ground (arith, setup_pgdir-usage m usage laws new_mm with_mm x, laws.mm_create s.world x)

    dropped :
        (x : ℕ) (t : Forking W)
        → (new_mm == 0) ≡ false
        → ready.0 ≡ true
        → ((y : ℕ) → y ≢ new_mm → usage t.world y ≡ usage ready.1.world y)
        → usage (drop_mm m new_mm t).world x ≡ usage s.world x
    dropped x t e f h =
        let nn : new_mm ≢ 0 = ground arith in
        drop_mm-usage m usage laws new_mm t x nn ∙ elim (Bool-cases (x == new_mm)) [
          | inl g ↦
              let same : x ≡ new_mm = ground arith in
              rw g (sym (ap (usage s.world) same ∙ laws.mm_create_new s.world nn))
          | inr g ↦ ground (arith, h x, ready-usage x e)
        ]

    -- A `copy_mm` that fails leaves nothing behind.
    pub copy_mm_fails :
        (x : ℕ)
        → (copy_mm m vm p s).0 ≡ false
        → usage (copy_mm m vm p s).1.world x ≡ usage s.world x
    unfolding copy_mm
    copy_mm_fails x = elim (Bool-cases (old_mm == 0)) [
      | inl a ↦ rw a (λ q. refl)
      | inr a ↦ elim (Bool-cases vm) [
        | inl b ↦ rw (a, b) (λ q. absurd (ground (arith, q)))
        | inr b ↦ elim (Bool-cases (new_mm == 0)) [
          | inl c ↦ rw (a, b, c) (λ q. laws.mm_create s.world x ∙ rw c (ground arith))
          | inr c ↦ elim (Bool-cases ready.0) [
            | inl d ↦ elim (Bool-cases (copied.0 == 0)) [
              | inl e ↦ rw (a, b, c, d, e) (λ q. absurd (ground (arith, q)))
              | inr e ↦
                  rw (a, b, c, d, e)
                    (λ q.
                      dropped x (record (ready.1) { world = copied.1 }) c d
                        (λ y n. laws.dup_mmap new_mm old_mm ready.1.world y n))
            ]
            | inr d ↦
                rw (a, b, c, d)
                  (λ q. laws.mm_destroy new_mm ready.1.world x ∙ ground (arith, ready-usage x c))
          ]
        ]
      ]
    ]

    -- The state behind a `copy_mm` that succeeds, after steps that use nothing more.
    abbrev later : W → (ℕ → ℕ) → Forking W
    later w files = record ((copy_mm m vm p s).1) { world = w; files_count = files }

    -- `bad_fork_cleanup_mm` undoes a `copy_mm` that succeeded.
    pub cleanup_mm_undoes :
        (x : ℕ) (w : W) (files : ℕ → ℕ)
        → (copy_mm m vm p s).0 ≡ true
        → s.mm p ≡ 0
        → (old_mm ≢ 0 → 0 < s.mm_count old_mm)
        → ((y : ℕ) → usage w y ≡ usage (copy_mm m vm p s).1.world y)
        → usage (cleanup_mm m p (later w files)).world x ≡ usage s.world x
    unfolding copy_mm
    cleanup_mm_undoes x w files = elim (Bool-cases (old_mm == 0)) [
      | inl a ↦ rw a (λ q fresh h same.
          ap (λ v. usage v x) (cleanup_null p (record s { world = w; files_count = files }) fresh)
          ∙ same x)
      | inr a ↦ elim (Bool-cases vm) [
        | inl b ↦
            rw (a, b)
              (λ q fresh h same.
                ap (λ v. usage v x) (share_mm_shared old_mm s w files a (h (ground arith)))
                ∙ same x
                ∙ ap (λ v. usage v x) (share_mm-world old_mm s))
        | inr b ↦ elim (Bool-cases (new_mm == 0)) [
          | inl c ↦ rw (a, b, c) (λ q. absurd (ground (arith, q)))
          | inr c ↦ elim (Bool-cases ready.0) [
            | inl d ↦ elim (Bool-cases (copied.0 == 0)) [
              | inl e ↦
                  rw (a, b, c, d, e)
                    (λ q fresh h same.
                      let z : ready.1.mm_count new_mm ≡ 0 =
                        ap (λ f. f new_mm) (setup_pgdir-mm_count new_mm with_mm)
                        ∙ rw (eq_self new_mm) refl in
                      let (u, at_w, gone) =
                        share_mm_last new_mm (record (ready.1) { world = copied.1 }) w files x c
                          z in
                      gone
                      ∙ dropped x u c d (λ y n.
                        ap (λ v. usage v y) at_w
                        ∙ same y
                        ∙ ap (λ v. usage v y)
                            (share_mm-world new_mm (record (ready.1) { world = copied.1 }))
                        ∙ laws.dup_mmap new_mm old_mm ready.1.world y n))
              | inr e ↦ rw (a, b, c, d, e) (λ q. absurd (ground (arith, q)))
            ]
            | inr d ↦ rw (a, b, c, d) (λ q. absurd (ground (arith, q)))
          ]
        ]
      ]
    ]
