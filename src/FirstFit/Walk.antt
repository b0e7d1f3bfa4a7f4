-- ===== src/FirstFit/Walk.antt =====
-- Where the walks of default_pmm.c end, on a free list that is a ring.
use os_experiment.Prelude.{
  ℕ, zero, suc, ◌+◌, ◌<◌, ◌≡◌, ◌≢◌, sym, some, List, [], ◌∷◌, ◌++◌, leb, if◌then◌else◌, length,
  arith,
}
use os_experiment.LinkedList.{Links, link_between, list_add, list_add_before}
use os_experiment.LinkedList.Chain.{Fresh, Chain, first_or, last_or, next-start}
use os_experiment.FirstFit.{Area, free_list, insert_walk, find_fit}

abbrev pub Below : ℕ → List ℕ → Type 0
Below base [] = Unit
Below base (x ∷ xs) = (x < base) × Below base xs

pub first-ne :
    (z : ℕ) (xs : List ℕ) (y : ℕ) (ys : List ℕ)
    → Fresh z (xs ++ y ∷ ys)
    → first_or (xs ++ y ∷ ys) z ≢ z
first-ne z [] y ys f e = f.0 (sym e)
first-ne z (x ∷ xs) y ys f e = f.0 (sym e)

-- The walk stops at the first page above `base`, and links `base` before it.
pub insert_walk-inside :
    (fuel : ℕ) (h : Links) (base a : ℕ) (xs : List ℕ) (y : ℕ) (ys : List ℕ)
    → Chain h a (xs ++ y ∷ ys) free_list
    → Fresh free_list (xs ++ y ∷ ys)
    → Below base xs
    → base < y
    → length xs < fuel
    → insert_walk fuel h base a ≡ some (list_add_before h y base)
unfolding insert_walk
insert_walk-inside zero h base a xs y ys c f b lt l = absurd (omega arith)
insert_walk-inside (suc fuel) h base a [] y ys c f b lt l = ground arith
insert_walk-inside (suc fuel) h base a (x ∷ xs) y ys c f b lt l = ground (
  arith,
  next-start h x [] (xs ++ y ∷ ys) free_list c.2,
  first-ne free_list xs y ys f.1,
  insert_walk-inside fuel h base x xs y ys c.2 f.1 b.1 lt (omega arith),
)

-- The links after the walk has appended `base` behind `last`, once and then behind itself.
abbrev pub appended : Links → ℕ → ℕ → Links
appended h last base = list_add (list_add h last base) base base

pub appended_links :
    (h : Links) (last base : ℕ)
    → h.next last ≡ free_list
    → 0 < base
    → base ≢ last
    → (appended h last base).next base ≡ free_list
      × (appended h last base).next last ≡ base
      × (appended h last base).prev base ≡ base
unfolding list_add link_between
appended_links h last base e p n = ground arith

walk_again :
    (fuel : ℕ) (h : Links) (last base : ℕ)
    → h.next last ≡ free_list
    → 0 < base
    → base ≢ last
    → 1 < fuel
    → insert_walk fuel (list_add h last base) base last ≡ some (appended h last base)
unfolding insert_walk link_between
walk_again zero h last base e p n l = absurd (omega arith)
walk_again (suc zero) h last base e p n l = absurd (omega arith)
walk_again (suc (suc fuel)) h last base e p n l = ground arith

-- Where every page of the list is below `base`, the walk appends `base` twice.
pub insert_walk-end :
    (fuel : ℕ) (h : Links) (base a x : ℕ) (xs : List ℕ)
    → Chain h a (x ∷ xs) free_list
    → Fresh free_list (x ∷ xs)
    → Below base (x ∷ xs)
    → length xs + 2 < fuel
    → insert_walk fuel h base a ≡ some (appended h (last_or xs x) base)
unfolding insert_walk
insert_walk-end zero h base a x xs c f b l = absurd (omega arith)
insert_walk-end (suc fuel) h base a x [] c f b l =
    rw (← walk_again fuel h x base c.2.0 (omega arith) (omega arith) (omega arith)) (ground arith)
insert_walk-end (suc fuel) h base a x (y ∷ ys) c f b l =
    ground (arith, insert_walk-end fuel h base x y ys c.2 f.1 b.1 (omega arith))

-- The pages of a list with their block sizes, searched for the first of at least `n`; 0 for none.
unfoldable pub first_fit : (ℕ → ℕ) → ℕ → List ℕ → ℕ
first_fit size n [] = 0
first_fit size n (x ∷ xs) = if leb n (size x) then x else first_fit size n xs

pub find_fit-ring :
    (fuel : ℕ) (a : Area) (n le : ℕ) (xs : List ℕ)
    → Chain a.links le xs free_list
    → Fresh free_list xs
    → length xs < fuel
    → find_fit fuel a n le ≡ some (first_fit a.property n xs)
unfolding find_fit first_fit
find_fit-ring zero a n le xs c f l = absurd (omega arith)
find_fit-ring (suc fuel) a n le [] c f l = ground arith
find_fit-ring (suc fuel) a n le (x ∷ xs) c f l =
    ground (arith, find_fit-ring fuel a n x xs c.2 f.1 (omega arith))
