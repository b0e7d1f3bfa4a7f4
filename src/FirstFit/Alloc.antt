-- ===== src/FirstFit/Alloc.antt =====
-- `default_alloc_pages` of default_pmm.c on a free list that is a ring.
use os_experiment.Prelude.{
  ℕ, ◌+◌, ◌-◌, ◌^◌, ◌≤◌, ◌<◌, ◌≡◌, ◌⊎◌, refl, sym, true, false, some, List, [], ◌∷◌, ◌++◌, ltb,
  if◌then◌else◌, length, Bool-cases, inl, inr, arith,
}
use mathlib.Core.Path.{subst}
use os_experiment.LinkedList.{Links, list_del, list_add_after}
use os_experiment.LinkedList.Chain.{Fresh, Chain, IsRing, Fresh-left, Fresh-right, prev-end}
use os_experiment.LinkedList.Laws.{list_add-IsRing, list_del-IsRing}
use os_experiment.FirstFit.{Area, free_list, take_block, default_alloc_pages}
use os_experiment.FirstFit.Walk.{first_fit, find_fit-ring}
use os_experiment.FirstFit.Append.{
  Forward, TooSmall, find_fit-Forward, alloc_pages-parts, nr_free-take,
}

Forward-of_Chain :
    (h : Links) (a : ℕ) (xs : List ℕ) (y : ℕ) (ys : List ℕ) (b : ℕ)
    → Chain h a (xs ++ y ∷ ys) b
    → Forward h a xs y
Forward-of_Chain h a [] y ys b c = c.0
Forward-of_Chain h a (x ∷ xs) y ys b c = (c.0, Forward-of_Chain h x xs y ys b c.2)

first_fit-TooSmall :
    (size : ℕ → ℕ) (n : ℕ) (xs : List ℕ) → TooSmall size n xs → first_fit size n xs ≡ 0
unfolding first_fit
first_fit-TooSmall size n [] s = refl
first_fit-TooSmall size n (x ∷ xs) s = ground (arith, first_fit-TooSmall size n xs s.1)

-- The list after the block of `y` is taken, whole or with the rest of it put back in its place.
take_block-IsRing :
    (n : ℕ) (a : Area) (xs : List ℕ) (y : ℕ) (ys : List ℕ)
    → IsRing a.links free_list (xs ++ y ∷ ys)
    → (n < a.property y → Fresh (y + n) (free_list ∷ (xs ++ ys)))
    → IsRing
        (take_block y n a).links
        free_list
        (xs ++ (if ltb n (a.property y) then (y + n) ∷ ys else ys))
unfolding take_block
take_block-IsRing n a xs y ys r f = elim (Bool-cases (ltb n (a.property y))) [
  | inl more ↦ rw more (
      subst
        (λ k. IsRing (list_add_after (list_del a.links y) k (y + n)) free_list (xs ++ (y + n) ∷ ys))
        (sym (prev-end a.links free_list xs (y ∷ ys) free_list r.chain))
        (list_add-IsRing (list_del a.links y) free_list (y + n) xs ys cut (f (ground arith))).1)
  | inr exact ↦ rw exact cut
]
  where
    cut : IsRing (list_del a.links y) free_list (xs ++ ys)
    cut = (list_del-IsRing a.links free_list y xs ys r).0

-- A request that the blocks `xs` are too small for, and that the block of `y` fulfils, takes the
-- block of `y`: it returns `y`, no longer the head of a free block, and the free count falls by
-- `n`. The list keeps the other blocks in place; of a larger block the rest, from page `y + n` on,
-- stands in the place of `y`, the head of a free block with the size that is left. Conditions: the
-- list is a ring, sizes and the count fit 32 bits, at least `n` pages are counted free, the page
-- `y + n` of a larger block is not listed, and the fuel exceeds the number of blocks in front.
pub alloc_pages-takes :
    (fuel n : ℕ) (a : Area) (xs : List ℕ) (y : ℕ) (ys : List ℕ)
    → IsRing a.links free_list (xs ++ y ∷ ys)
    → TooSmall a.property n xs
    → n ≤ a.property y
    → a.property y < 2 ^ 32
    → 0 < n
    → n ≤ a.nr_free
    → a.nr_free < 2 ^ 32
    → (n < a.property y → Fresh (y + n) (free_list ∷ (xs ++ ys)))
    → length xs < fuel
    → (b : Area) × (default_alloc_pages fuel n a ≡ some (y, b))
      × IsRing b.links free_list (xs ++ (if ltb n (a.property y) then (y + n) ∷ ys else ys))
      × (b.nr_free + n ≡ a.nr_free)
      × (b.heads y ≡ false)
      × (b.property (y + n)
          ≡ (if ltb n (a.property y) then a.property y - n else a.property (y + n)))
      × (b.heads (y + n) ≡ (if ltb n (a.property y) then true else a.heads (y + n)))
unfolding take_block
alloc_pages-takes fuel n a xs y ys r small fits size pos enough bound fresh fuel_enough = (
  take_block y n a,
  alloc_pages-parts fuel n a y pos enough
      (find_fit-Forward fuel a n free_list xs y
        (Forward-of_Chain a.links free_list xs y ys free_list r.chain)
        (Fresh-left free_list xs (y ∷ ys) r.distinct.0) small y_pos fits fuel_enough)
      y_pos,
  take_block-IsRing n a xs y ys r fresh,
  nr_free-take y n a enough bound,
  ground arith,
  ground arith,
  ground arith,
)
  where
    y_pos : 0 < y
    y_pos = omega (arith, (Fresh-right free_list xs (y ∷ ys) r.distinct.0).0)

-- A request for more pages than are counted free, or than any listed block has, returns NULL and
-- changes nothing.
pub alloc_pages-fails :
    (fuel n : ℕ) (a : Area) (xs : List ℕ)
    → IsRing a.links free_list xs
    → 0 < n
    → (a.nr_free < n) ⊎ TooSmall a.property n xs
    → length xs < fuel
    → default_alloc_pages fuel n a ≡ some (0, a)
unfolding default_alloc_pages
alloc_pages-fails fuel n a xs r pos (inl few) l = ground arith
alloc_pages-fails fuel n a xs r pos (inr small) l = ground (
  arith,
  find_fit-ring fuel a n free_list xs r.chain r.distinct.0 l,
  first_fit-TooSmall a.property n xs small,
)
