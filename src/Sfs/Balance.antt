-- ===== src/Sfs/Balance.antt =====
-- The disk blocks that lab8/kern/fs/sfs/sfs_inode.c allocates and frees, and their number.
use mathlib.Core.Path.{subst}
use os_experiment.Prelude.{
  ℕ, zero, suc, ◌+◌, ◌-◌, ◌^◌, ◌≡◌, ◌≢◌, ◌≤◌, ◌<◌, refl, Bool, true, false, Option, none, some,
  update, ◌==◌, ltb, if◌then◌else◌, arith, Bool-cases, inl, inr, ◌⊎◌, ap, ◌∙◌,
}
use os_experiment.Bitmap.{Bitmap, bitmap_free}
use os_experiment.Bitmap.Laws.{is_free, IsBitmap, bitmap_alloc-lowest, bitmap_free-gives_back}
use os_experiment.Bitmap.Count.{count_free, count_free-taken}
use os_experiment.Sfs.{Sfs, Outcome, done, failed, no_mem, io, pure, assert, ◌>>◌}
use os_experiment.Sfs.Blocks.{
  sfs_block_inuse, write_block, sfs_clear_block, sfs_block_alloc, sfs_block_free,
}
use os_experiment.Sfs.Mapped.{bind_done, bind_failed, place_same, IsUsed, inuse-IsUsed}

-- The free map covers the disk, with only blocks of the disk free, block 0 is in use, and
-- `unused_blocks` counts the free numbers of the whole map.
pub record IsBalanced (s : Sfs) : Type 0 where
  pub freemap : IsBitmap s.freemap
  pub covers : s.super_blocks ≤ s.freemap.nbits
  pub beyond : (j : ℕ) → s.super_blocks ≤ j → j < s.freemap.nbits → is_free s.freemap j ≡ false
  pub addressed : s.super_blocks ≤ 2 ^ 20
  pub super_used : is_free s.freemap 0 ≡ false
  pub balance : s.unused_blocks ≡ count_free (is_free s.freemap) s.freemap.nbits

-- The file system with another free map and another number of unused blocks.
abbrev pub counted : Sfs → Bitmap → ℕ → Sfs
counted s freemap n = record s { freemap = freemap; unused_blocks = n; super_dirty = true }

-- What a new block finds.
pub record IsTaken (s : Sfs) (ino : ℕ) (s' : Sfs) : Type 0 where
  pub was_free : is_free s.freemap ino ≡ true
  pub lowest : (j : ℕ) → j < ino → is_free s.freemap j ≡ false
  pub inside : ino < s.super_blocks
  pub others : (j : ℕ) → is_free s'.freemap j ≡ (if ino == j then false else is_free s.freemap j)
  pub same_file : s'.din ≡ s.din

count_free_none : (f : ℕ → Bool) (n : ℕ) → ((j : ℕ) → j < n → f j ≡ false) → count_free f n ≡ 0
count_free_none f zero h = refl
count_free_none f (suc n) h = ground (arith, h n, count_free_none f n (λ j l. h j (omega arith)))

-- Clearing one block.
abbrev cleared : (ℕ → Bool → Bool) → Sfs → ℕ → Sfs
cleared fault s ino = record s {
  disk = if fault ino true then s.disk else update s.disk ino (λ i. 0);
}

write_zeros :
    (fault : ℕ → Bool → Bool) (s : Sfs) (ino : ℕ)
    → ino ≢ 0
    → ino < s.super_blocks
    → ino < 2 ^ 20
    → write_block fault ino true (λ i. 0) s
      ≡ some ((if fault ino true then failed io else done tt), cleared fault s ino)
unfolding write_block
write_zeros fault s ino pos l small =
    let there : (ino == 0) ≡ false = ground arith in
    let low : ltb ino s.super_blocks ≡ true = ground arith in
    elim (Bool-cases (fault ino true)) [
      | inl e ↦ rw (there, low, place_same ino small, e) refl
      | inr e ↦ rw (there, low, place_same ino small, e) refl
    ]

clear_one :
    (fault : ℕ → Bool → Bool) (s : Sfs) (ino : ℕ)
    → ino ≢ 0
    → ino < s.super_blocks
    → ino < 2 ^ 20
    → (sfs_clear_block fault ino 1 >> pure ino) s
      ≡ some ((if fault ino true then failed io else done ino), cleared fault s ino)
unfolding sfs_clear_block
clear_one fault s ino pos l small =
    let w = write_zeros fault s ino pos l small in
    elim (Bool-cases (fault ino true)) [
      | inl e ↦ rw e (
          bind_failed (sfs_clear_block fault ino 1) (λ x. pure ino)
            (bind_failed (write_block fault ino true (λ i. 0)) (λ x. pure tt)
              (w
                ∙ ap
                    (λ (b : Bool). some (
                      (if b then failed io else done tt),
                      record s { disk = if b then s.disk else update s.disk ino (λ i. 0) },
                    ))
                    e)))
      | inr e ↦ rw e (
          bind_done (sfs_clear_block fault ino 1) (λ x. pure ino)
            (bind_done (write_block fault ino true (λ i. 0)) (λ x. pure tt)
              (w
                ∙ ap
                    (λ (b : Bool). some (
                      (if b then failed io else done tt),
                      record s { disk = if b then s.disk else update s.disk ino (λ i. 0) },
                    ))
                    e)))
    ]

-- Whatever the device answers, on a balanced file system, where the free map is well formed, covers
-- the disk and has only blocks of the disk free, not block 0, and `unused_blocks` counts its free
-- numbers, `sfs_block_alloc` never fails an assertion: it answers -E_NO_MEM and changes nothing where
-- no block is unused, or takes the lowest free block, counts it and clears it, and the file system
-- stays balanced. Where clearing fails, the block stays taken.
pub sfs_block_alloc-IsBalanced :
    (fault : ℕ → Bool → Bool) (s : Sfs)
    → IsBalanced s
    → ((sfs_block_alloc fault s ≡ some (failed no_mem, s)) × (s.unused_blocks ≡ 0))
      ⊎ ((ino : ℕ) × (s' : Sfs) × (sfs_block_alloc fault s
            ≡ some ((if fault ino true then failed io else done ino), s'))
          × IsBalanced s'
          × IsTaken s ino s'
          × (s.unused_blocks ≡ s'.unused_blocks + 1)
          × ((o : ℕ) → s'.disk ino o ≡ (if fault ino true then s.disk ino o else 0)))
unfolding sfs_block_alloc
sfs_block_alloc-IsBalanced fault s v = elim (bitmap_alloc-lowest s.freemap v.freemap) [
  | inl (e, none_free) ↦ inl (
    rw (e, sfs_block_alloc) refl,
    v.balance ∙ count_free_none (is_free s.freemap) s.freemap.nbits (λ j l. none_free j l),
  )
  | inr (ino, freemap, e, fm, nbits, l, free, lowest, others) ↦
      let count =
        count_free-taken (is_free s.freemap) (is_free freemap) ino s.freemap.nbits others free l in
      let t = counted s freemap (s.unused_blocks - 1) in
      let now_used : is_free freemap ino ≡ false = others ino ∙ ground arith in
      let not_super : ino ≢ 0 = λ z. ground (arith, ap (is_free s.freemap) z, free, v.super_used) in
      let some_unused : ltb 0 s.unused_blocks ≡ true = ground (arith, count, v.balance) in
      let inside : ino < s.super_blocks = elim (Bool-cases (ltb ino s.super_blocks)) [
        | inl a ↦ ground arith
        | inr a ↦ absurd (ground (arith, v.beyond ino (ground arith) l, free))
      ] in
      let small : ino < 2 ^ 20 = omega (arith, v.addressed) in
      inr (
        ino,
        cleared fault t ino,
        rw (e, sfs_block_alloc, some_unused)
            (bind_done (sfs_block_inuse fault ino)
                (λ used. assert used >> sfs_clear_block fault ino 1 >> pure ino) {s = t}
                (inuse-IsUsed fault t ino (rw nbits v.covers) (record {
                  not_null = not_super;
                  inside = inside;
                  addressed = small;
                  used = now_used;
                }))
              ∙ clear_one fault t ino not_super inside small),
        record {
          freemap = fm;
          covers = rw nbits v.covers;
          beyond = λ j high low.
              others j ∙ ground (arith, v.beyond j high (subst (λ n. j < n) nbits low));
          addressed = v.addressed;
          super_used = others 0 ∙ ground (arith, v.super_used);
          balance = rw nbits (ground (arith, count, v.balance));
        },
        record {
          was_free = free;
          lowest = lowest;
          inside = inside;
          others = others;
          same_file = refl;
        },
        ground arith,
        zeros t ino,
      )
]
  where
    zeros :
        (s : Sfs) (ino o : ℕ)
        → (cleared fault s ino).disk ino o ≡ (if fault ino true then s.disk ino o else 0)
    zeros s ino o =
        let same : (ino == ino) ≡ true = ground arith in
        elim (Bool-cases (fault ino true)) [ inl e ↦ rw e refl | inr e ↦ rw (e, same) refl ]

-- `sfs_block_free` of a block that is in use never fails an assertion: the block is free and counted,
-- the others and the file are as they were, and the file system stays balanced.
pub sfs_block_free-IsBalanced :
    (fault : ℕ → Bool → Bool) (s : Sfs) (ino : ℕ)
    → IsBalanced s
    → IsUsed s ino
    → (s' : Sfs) × (sfs_block_free fault ino s ≡ some (done tt, s'))
      × IsBalanced s'
      × (s'.unused_blocks ≡ s.unused_blocks + 1)
      × ((j : ℕ) → is_free s'.freemap j ≡ (if ino == j then true else is_free s.freemap j))
      × (s'.din ≡ s.din)
      × (s'.disk ≡ s.disk)
unfolding sfs_block_free
sfs_block_free-IsBalanced fault s ino v u =
    let low : ino < s.freemap.nbits = omega (arith, v.covers, u.inside) in
    let (freemap, e, fm, nbits, others) =
      bitmap_free-gives_back s.freemap ino v.freemap low u.used in
    let taken = λ (j : ℕ). back ino j (is_free s.freemap) (is_free freemap) u.used others in
    let count =
      count_free-taken (is_free freemap) (is_free s.freemap) ino s.freemap.nbits taken
        (others ino ∙ ground arith) low in
    (
      counted s freemap (s.unused_blocks + 1),
      bind_done (sfs_block_inuse fault ino) _ (inuse-IsUsed fault s ino v.covers u)
          ∙ stored s ino freemap e,
      record {
        freemap = fm;
        covers = rw nbits v.covers;
        beyond = λ j high below.
            others j ∙ ground (arith, v.beyond j high (subst (λ n. j < n) nbits below), u.inside);
        addressed = v.addressed;
        super_used = others 0 ∙ ground (arith, v.super_used, u.not_null);
        balance = rw nbits (ground (arith, count, v.balance));
      },
      refl,
      others,
      refl,
      refl,
    )
  where
    stored :
        (s : Sfs) (ino : ℕ) (freemap : Bitmap)
        → bitmap_free s.freemap ino ≡ some freemap
        → (elim (bitmap_free s.freemap ino) as (λ x. Option (Outcome (Unit {0}) × Sfs)) [
          | none ↦ none
          | some freemap ↦ some (done tt, counted s freemap (s.unused_blocks + 1))
        ])
          ≡ some (done tt, counted s freemap (s.unused_blocks + 1))
    stored s ino freemap e = rw e refl

    back :
        (ino j : ℕ) (f g : ℕ → Bool)
        → f ino ≡ false
        → ((j : ℕ) → g j ≡ (if ino == j then true else f j))
        → f j ≡ (if ino == j then false else g j)
    back ino j f g used h = elim (Bool-cases (ino == j)) [
      | inl e ↦ let same : ino ≡ j = ground arith in ground (arith, ap f same)
      | inr e ↦ ground (arith, h j)
    ]
