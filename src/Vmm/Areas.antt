-- ===== src/Vmm/Areas.antt =====
-- `find_vma`, `insert_vma_struct` and `mm_map` of vmm.c on the areas of a process.
use os_experiment.Prelude.{
  ℕ, ◌+◌, ◌≤◌, ◌<◌, ◌≡◌, refl, sym, ◌∙◌, true, false, ◌&&◌, Option, none, some, List, [], ◌∷◌, ltb,
  if◌then◌else◌, arith, Bool-cases, Option-cases, inl, inr, some-injective,
}
use os_experiment.Vmm.{Vma, Mm, holds, find_listed, find_cached, find_vma, insert_vma_struct}
use os_experiment.Vmm.Sorted.{
  IsSortedFrom, apart_all, insert_sorted, insert_behind-none, insert_sorted-IsSortedFrom,
  find_listed-insert_sorted,
}

-- The cached area is the one that a search of the list finds, wherever it answers.
abbrev pub IsCached : Option Vma → List Vma → Type 0
IsCached none l = Unit
IsCached (some v) l = (addr : ℕ) → holds v addr ≡ true → find_listed l addr ≡ some v

pub record IsMm (mm : Mm) : Type 0 where
  pub sorted : IsSortedFrom 0 mm.mmap_list
  pub cached : IsCached mm.mmap_cache mm.mmap_list

pub find_listed-start :
    (low addr : ℕ) (v : Vma) (l : List Vma)
    → IsSortedFrom low l
    → find_listed l addr ≡ some v
    → (low ≤ v.vm_start) × (holds v addr ≡ true)
unfolding find_listed
find_listed-start low addr v [] s e = absurd (ground arith)
find_listed-start low addr v (x ∷ xs) (above, room, s) e = elim (Bool-cases (holds x addr)) [
  | inl h ↦ let same : x ≡ v = some-injective (rw h at e) in (rw (sym same) above, rw (sym same) h)
  | inr h ↦
      let (later, held) = find_listed-start x.vm_end addr v xs s (rw h at e) in
      ((omega arith), held)
]

pub find_listed-IsCached :
    (low addr : ℕ) (v : Vma) (l : List Vma)
    → IsSortedFrom low l
    → find_listed l addr ≡ some v
    → IsCached (some v) l
unfolding find_listed
find_listed-IsCached low addr v [] s e at held = absurd (ground arith)
find_listed-IsCached low addr v (x ∷ xs) (above, room, s) e at held =
    elim (Bool-cases (holds x addr)) [
      | inl h ↦ let same : x ≡ v = some-injective (rw h at e) in rw (same, held) refl
      | inr h ↦
          let (later, _) = find_listed-start x.vm_end addr v xs s (rw h at e) in
          let away : holds x at ≡ false = ground arith in
          rw away (find_listed-IsCached x.vm_end addr v xs s (rw h at e) at held)
    ]

apart_all-holds :
    (u v : Vma) (addr : ℕ) (l : List Vma)
    → apart_all u l ≡ true
    → find_listed l addr ≡ some v
    → holds u addr ≡ false
unfolding find_listed apart_all
apart_all-holds u v addr [] a e = absurd (ground arith)
apart_all-holds u v addr (x ∷ xs) a e = elim (Bool-cases (holds x addr)) [
  | inl h ↦ ground arith
  | inr h ↦ apart_all-holds u v addr xs (ground arith) (rw h at e)
]

pub find_cached-IsCached :
    (c : Option Vma) (l : List Vma) (addr : ℕ) (v : Vma)
    → IsCached c l
    → find_cached c addr ≡ some v
    → (find_listed l addr ≡ some v) × IsCached (some v) l
unfolding find_cached
find_cached-IsCached none l addr v c e = absurd (ground arith)
find_cached-IsCached (some u) l addr v c e = elim (Bool-cases (holds u addr)) [
  | inl h ↦ let same : u ≡ v = some-injective (rw h at e) in rw (sym same) (c addr h, c)
  | inr h ↦ absurd (ground arith)
]

-- The cache does not show: on areas in order, `find_vma` finds the area that a search of the whole
-- list finds, and keeps the list and the areas well formed.
pub find_vma-IsMm :
    (mm : Mm) (addr : ℕ)
    → IsMm mm
    → ((find_vma mm addr).0 ≡ find_listed mm.mmap_list addr)
      × ((find_vma mm addr).1.mmap_list ≡ mm.mmap_list)
      × IsMm ((find_vma mm addr).1)
unfolding find_vma
find_vma-IsMm mm addr w = elim (Option-cases (find_cached mm.mmap_cache addr)) [
  | inl miss ↦
      rw (find_vma, miss)
        (elim (Option-cases (find_listed mm.mmap_list addr)) [
          | inl e ↦ rw e (refl, refl, w)
          | inr (v, e) ↦ rw e (
            refl,
            refl,
            record {
              sorted = w.sorted;
              cached = find_listed-IsCached 0 addr v mm.mmap_list w.sorted e;
            },
          )
        ])
  | inr (v, hit) ↦
      let (listed, fits) = find_cached-IsCached mm.mmap_cache mm.mmap_list addr v w.cached hit in
      rw (find_vma, hit, listed) (refl, refl, record { sorted = w.sorted; cached = fits })
]

-- `mm` with the new area `v`.
abbrev pub with_area : Vma → Mm → Mm
with_area v mm = record mm {
  mmap_list = insert_sorted v mm.mmap_list;
  map_count = mm.map_count + 1;
}

-- On areas in order, `insert_vma_struct` succeeds exactly where the new area is not empty and is
-- apart from every other, and then puts it at its place and counts it.
pub insert_vma_struct-IsMm :
    (v : Vma) (mm : Mm)
    → IsMm mm
    → insert_vma_struct v mm ≡ (
        if ltb v.vm_start v.vm_end && apart_all v mm.mmap_list then some (with_area v mm) else none)
unfolding insert_vma_struct
insert_vma_struct-IsMm v mm w = elim (Bool-cases (ltb v.vm_start v.vm_end)) [
  | inl e ↦
      rw (e, insert_behind-none v 0 mm.mmap_list (ground arith) w.sorted)
        (elim (Bool-cases (apart_all v mm.mmap_list)) [ inl f ↦ rw f refl | inr f ↦ rw f refl ])
  | inr e ↦ rw e refl
]

insert_sorted-IsCached :
    (v : Vma) (c : Option Vma) (l : List Vma)
    → v.vm_start < v.vm_end
    → IsSortedFrom 0 l
    → apart_all v l ≡ true
    → IsCached c l
    → IsCached c (insert_sorted v l)
insert_sorted-IsCached v none l full s a c = tt
insert_sorted-IsCached v (some u) l full s a c = λ addr held.
    rw (find_listed-insert_sorted v 0 l addr full s a, apart_all-holds v u addr l a (c addr held))
      (c addr held)

-- With a new area that is not empty and apart from every other, the areas stay in order with a
-- right cache, and a lookup finds the new area at the addresses that it holds and at every other
-- address what it found before.
pub with_area-find_vma :
    (v : Vma) (mm : Mm) (addr : ℕ)
    → IsMm mm
    → v.vm_start < v.vm_end
    → apart_all v mm.mmap_list ≡ true
    → IsMm (with_area v mm)
      × ((find_vma (with_area v mm) addr).0
          ≡ (if holds v addr then some v else (find_vma mm addr).0))
with_area-find_vma v mm addr w full a =
    let w' : IsMm (with_area v mm) = record {
      sorted = insert_sorted-IsSortedFrom v 0 mm.mmap_list (omega arith) full w.sorted a;
      cached = insert_sorted-IsCached v mm.mmap_cache mm.mmap_list full w.sorted a w.cached;
    } in
    (
      w',
      (find_vma-IsMm (with_area v mm) addr w').0
          ∙ (rw ((find_vma-IsMm mm addr w).0)
              (find_listed-insert_sorted v 0 mm.mmap_list addr full w.sorted a)),
    )
