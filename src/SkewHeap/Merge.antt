-- ===== src/SkewHeap/Merge.antt =====
-- The operations of skew_heap.h keep the heap order and the entries.
use os_experiment.Prelude.{
  ℕ, zero, suc, ◌+◌, ◌≤◌, ◌<◌, ◌≡◌, refl, ◌==◌, Bool, some, if◌then◌else◌, ltb, arith, Bool-cases,
  inl, inr,
}
use os_experiment.SkewHeap.{
  Heap, nil, node, size, count, skew_heap_merge, contains, skew_heap_remove,
}

module _ (key : ℕ → ℕ) where
  -- Every entry has a key of at least `low`, and no key is above those below it.
  abbrev pub IsHeapFrom : ℕ → Heap → Type 0
  IsHeapFrom low nil = Unit
  IsHeapFrom low (node l x r) = (low ≤ key x) × IsHeapFrom (key x) l × IsHeapFrom (key x) r

  -- `h` is a heap from `low` on and holds what `a` and `b` hold together.
  pub record IsMerge (low : ℕ) (a b h : Heap) : Type 0 where
    pub heap : IsHeapFrom low h
    pub entries : (x : ℕ) → count x h ≡ count x a + count x b

  -- `h'` is a heap from `low` on and holds what `h` holds, less one `x`.
  pub record IsWithout (low x : ℕ) (h h' : Heap) : Type 0 where
    pub heap : IsHeapFrom low h'
    pub entries : (z : ℕ) → count z h ≡ (if x == z then 1 else 0) + count z h'

  IsHeapFrom-weaken : (low low' : ℕ) (h : Heap) → low' ≤ low → IsHeapFrom low h → IsHeapFrom low' h
  IsHeapFrom-weaken low low' nil o s = tt
  IsHeapFrom-weaken low low' (node l x r) o (above, sl, sr) = ((omega arith), sl, sr)

  -- The key of the root is the least.
  pub IsHeapFrom-least : (low y : ℕ) (h : Heap) → IsHeapFrom low h → 0 < count y h → low ≤ key y
  unfolding count
  IsHeapFrom-least low y nil s held = absurd (ground arith)
  IsHeapFrom-least low y (node l x r) (above, sl, sr) held = elim (Bool-cases (x == y)) [
    | inl e ↦ grind arith
    | inr e ↦ elim (Bool-cases (ltb 0 (count y l))) [
      | inl f ↦ grind (arith, IsHeapFrom-least (key x) y l sl (ground arith))
      | inr f ↦
          let right : 0 < count y r = grind arith in
          grind (arith, IsHeapFrom-least (key x) y r sr right)
    ]
  ]

module _ (first : ℕ → ℕ → Bool) (key : ℕ → ℕ)
    (by_key : (x y : ℕ) → first x y ≡ ltb (key x) (key y)) where
  -- With fuel above the sizes of both heaps, `skew_heap_merge` returns a heap in order that holds
  -- every entry as often as the two together.
  pub skew_heap_merge-IsMerge :
      (fuel low : ℕ) (a b : Heap)
      → IsHeapFrom key low a
      → IsHeapFrom key low b
      → size a + size b < fuel
      → (h : Heap) × (skew_heap_merge first fuel a b ≡ some h) × IsMerge key low a b h
  unfolding skew_heap_merge size count
  skew_heap_merge-IsMerge zero low a b sa sb room = absurd (omega arith)
  skew_heap_merge-IsMerge (suc fuel) low nil b sa sb room =
      (b, refl, record { heap = sb; entries = λ z. omega arith })
  skew_heap_merge-IsMerge (suc fuel) low (node la x ra) nil sa sb room =
      (node la x ra, refl, record { heap = sa; entries = λ z. omega arith })
  skew_heap_merge-IsMerge (suc fuel) low (node la x ra) (node lb y rb) (oa, sla, sra) (ob, slb, srb)
        room =
      elim (Bool-cases (ltb (key x) (key y))) [
        | inl e ↦
            let (l, made, m) =
              skew_heap_merge-IsMerge fuel (key x) ra (node lb y rb) sra ((ground arith), slb, srb)
                (omega arith) in
            (
              node l x la,
              (rw (by_key x y, e, made) refl),
              record { heap = (oa, m.heap, sla); entries = λ z. grind (arith, m.entries z) },
            )
        | inr e ↦
            let (l, made, m) =
              skew_heap_merge-IsMerge fuel (key y) (node la x ra) rb ((ground arith), sla, sra) srb
                (omega arith) in
            (
              node l y lb,
              (rw (by_key x y, e, made) refl),
              record { heap = (ob, m.heap, slb); entries = λ z. grind (arith, m.entries z) },
            )
      ]

  contains-count : (x : ℕ) (h : Heap) → contains h x ≡ ltb 0 (count x h)
  unfolding contains count
  contains-count x nil = refl
  contains-count x (node l y r) = grind (arith, contains-count x l, contains-count x r)

  -- With fuel above the size, taking an entry that a heap holds once out of it returns a heap in
  -- order that holds every other entry as before and that entry no longer.
  pub skew_heap_remove-IsWithout :
      (fuel low x : ℕ) (h : Heap)
      → IsHeapFrom key low h
      → size h < fuel
      → count x h ≡ 1
      → (h' : Heap) × (skew_heap_remove first fuel h x ≡ some h') × IsWithout key low x h h'
  unfolding skew_heap_remove size count
  skew_heap_remove-IsWithout fuel low x nil s room once = absurd (ground arith)
  skew_heap_remove-IsWithout fuel low x (node l y r) (above, sl, sr) room once =
      elim (Bool-cases (y == x)) [
        | inl e ↦
            let (h', made, m) = skew_heap_merge-IsMerge fuel (key y) l r sl sr (omega arith) in
            (
              h',
              (rw e made),
              record {
                heap = IsHeapFrom-weaken key (key y) low h' above m.heap;
                entries = λ z. grind (arith, m.entries z);
              },
            )
        | inr e ↦ elim (Bool-cases (contains l x)) [
          | inl f ↦
              let left : count x l ≡ 1 = grind (arith, contains-count x l) in
              let (h', made, m) =
                skew_heap_remove-IsWithout fuel (key y) x l sl (omega arith) left in
              (
                node h' y r,
                (rw (e, f, made) refl),
                record { heap = (above, m.heap, sr); entries = λ z. grind (arith, m.entries z) },
              )
          | inr f ↦
              let right : count x r ≡ 1 = grind (arith, contains-count x l) in
              let (h', made, m) =
                skew_heap_remove-IsWithout fuel (key y) x r sr (omega arith) right in
              (
                node l y h',
                (rw (e, f, made) refl),
                record { heap = (above, sl, m.heap); entries = λ z. grind (arith, m.entries z) },
              )
        ]
      ]
