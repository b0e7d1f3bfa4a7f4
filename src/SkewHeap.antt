-- ===== src/SkewHeap.antt =====
-- Skew heaps, lab8/libs/skew_heap.h, as the trees that their left and right links make. An entry is
-- the number of its address, and the parent links are those of the tree.
pub mod Merge
use os_experiment.Prelude.{
  ℕ, zero, suc, ◌+◌, ◌==◌, Bool, true, false, Option, none, some, if◌then◌else◌, ◌>>=◌,
}

pub data Heap : Type 0 where
  nil : Heap
  node : Heap → ℕ → Heap → Heap

unfoldable pub size : Heap → ℕ
size nil = 0
size (node l x r) = suc (size l + size r)

-- How often an entry is in the heap.
unfoldable pub count : ℕ → Heap → ℕ
count x nil = 0
count x (node l y r) = (if y == x then 1 else 0) + count x l + count x r

-- `skew_heap_merge`; `first a b` is `comp(a, b) == -1`. Out of fuel it answers none.
unfoldable pub skew_heap_merge : (ℕ → ℕ → Bool) → ℕ → Heap → Heap → Option Heap
skew_heap_merge first zero a b = none
skew_heap_merge first (suc fuel) nil b = some b
skew_heap_merge first (suc fuel) (node la x ra) nil = some (node la x ra)
skew_heap_merge first (suc fuel) (node la x ra) (node lb y rb) =
    let into_a = skew_heap_merge first fuel ra (node lb y rb) in
    let into_b = skew_heap_merge first fuel (node la x ra) rb in
    if first x y then (into_a >>= λ l. some (node l x la)) else into_b >>= λ l. some (node l y lb)

-- `skew_heap_insert` of the entry `x`.
unfoldable pub skew_heap_insert : (ℕ → ℕ → Bool) → ℕ → Heap → ℕ → Option Heap
unfolding skew_heap_merge
skew_heap_insert first fuel a x = skew_heap_merge first fuel a (node nil x nil)

-- Whether the entry is in the heap.
unfoldable pub contains : Heap → ℕ → Bool
contains nil x = false
contains (node l y r) x = if y == x then true else if contains l x then true else contains r x

-- `skew_heap_remove` of the entry `x`: what its two children merge to takes its place.
unfoldable pub skew_heap_remove : (ℕ → ℕ → Bool) → ℕ → Heap → ℕ → Option Heap
unfolding skew_heap_merge contains
skew_heap_remove first fuel nil x = some nil
skew_heap_remove first fuel (node l y r) x =
    let in_left = skew_heap_remove first fuel l x in
    let in_right = skew_heap_remove first fuel r x in
    if y == x
    then skew_heap_merge first fuel l r
    else if contains l x
    then (in_left >>= λ l'. some (node l' y r))
    else in_right >>= λ r'. some (node l y r')
