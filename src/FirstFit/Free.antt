-- ===== src/FirstFit/Free.antt =====
-- `default_free_pages` of default_pmm.c on a free list that is a ring.
use os_experiment.Prelude.{
  u32, ℕ, zero, suc, ◌+◌, ◌^◌, ◌≤◌, ◌<◌, ◌≡◌, refl, ◌∙◌, false, not, ◌&&◌, some, List, [], ◌∷◌,
  ◌++◌, ◌==◌, if◌then◌else◌, length, arith,
}
use os_experiment.LinkedList.{Links, list_add_before}
use os_experiment.LinkedList.Chain.{Fresh, IsRing, last_or, next-start}
use os_experiment.LinkedList.Laws.{list_add-IsRing}
use os_experiment.FirstFit.{
  Area, free_list, head_block, clear_page, clear_pages, insert_block, merge_before, merge_after,
  default_free_pages,
}
use os_experiment.FirstFit.Walk.{Below, first-ne, insert_walk-inside}
use os_experiment.FirstFit.Merge.{merge-IsRing_sizes}

-- The pages from `p` on, `n` of them, are allocated: neither reserved nor the head of a free block.
abbrev pub InUse : Area → ℕ → ℕ → Type 0
InUse a p n = (k : ℕ) → p ≤ k → k < p + n → (a.reserved k ≡ false) × (a.heads k ≡ false)

-- What the loop over the pages leaves as it was.
pub record Cleared (a : Area) (p n : ℕ) (b : Area) : Type 0 where
  pub links : b.links ≡ a.links
  pub property : b.property ≡ a.property
  pub nr_free : b.nr_free ≡ a.nr_free
  pub heads : (k : ℕ) → b.heads k ≡ a.heads k
  pub ref_low : (k : ℕ) → k < p → b.ref k ≡ a.ref k
  pub ref : (k : ℕ) → p ≤ k → k < p + n → b.ref k ≡ 0

pub clear_pages_lem :
    (n p : ℕ) (a : Area) → InUse a p n → (b : Area) × (clear_pages n p a ≡ some b) × Cleared a p n b
unfolding clear_pages
clear_pages_lem zero p a u = (
  a,
  refl,
  record {
    links = refl;
    property = refl;
    nr_free = refl;
    heads = λ k. refl;
    ref_low = λ k l. refl;
    ref = λ k l m. absurd (omega arith);
  },
)
clear_pages_lem (suc n) p a u =
    let (b, e, c) = clear_pages_lem n (p + 1) (clear_page p a) later in
    (
      b,
      ground (arith, e, u p),
      record {
        links = c.links;
        property = c.property;
        nr_free = c.nr_free;
        heads = λ k. ground (arith, c.heads k, u p);
        ref_low = λ k l. ground (arith, c.ref_low k);
        ref = λ k l m. ground (arith, c.ref_low k, c.ref k);
      },
    )
  where
    later : InUse (clear_page p a) (p + 1) n
    later k l m = ground (arith, u k)

pub Below-last : (base d : ℕ) (xs : List ℕ) → d < base → Below base xs → last_or xs d < base
Below-last base d [] l b = l
Below-last base d (x ∷ xs) l b = Below-last base x xs b.0 b.1

-- `default_free_pages` in terms of its parts.
pub free_pages-parts :
    (fuel base n : ℕ) (a b : Area) (h : Links)
    → 0 < n
    → clear_pages n base a ≡ some b
    → insert_block fuel b.links base ≡ some h
    → let (head, c) = merge_before base (record (head_block base n b) { links = h }) in
      default_free_pages fuel base n a ≡ some (merge_after head c)
unfolding default_free_pages
free_pages-parts fuel base n a b h pos e i = ground (arith, e, i)

insert_block-inside :
    (fuel : ℕ) (h : Links) (base : ℕ) (front : List ℕ) (y : ℕ) (back : List ℕ)
    → IsRing h free_list (front ++ y ∷ back)
    → Below base front
    → base < y
    → length front < fuel
    → insert_block fuel h base ≡ some (list_add_before h y base)
unfolding insert_block
insert_block-inside fuel h base front y back r below lt enough = ground (
  arith,
  next-start h free_list [] (front ++ y ∷ back) free_list r.chain,
  first-ne free_list front y back r.distinct.0,
  insert_walk-inside fuel h base free_list front y back r.chain r.distinct.0 below lt enough,
)

-- Freeing `n` pages at `base`, which lies between two listed blocks (or before the first), lists
-- them in order of address: alone, or joined with the block before them if that ends at `base`,
-- and with the block behind them if that begins where they end. The head of the resulting block
-- has the summed size, and the free count grows by `n`. This holds for every ring with the pages
-- below `base` in front, for in-use pages, sizes below 2^32, and fuel above the list's length.
pub free_pages-inside :
    (fuel base n : ℕ) (a : Area) (front : List ℕ) (y : ℕ) (back : List ℕ)
    → IsRing a.links free_list (front ++ y ∷ back)
    → Fresh base (front ++ y ∷ back)
    → 0 < base
    → Below base front
    → base < y
    → InUse a base n
    → 0 < n
    → a.nr_free + n < 2 ^ 32
    → let p = last_or front free_list in
      a.property p + n + a.property y < 2 ^ 32
      → length front < fuel
      → let joins_p = not (p == free_list) && p + a.property p == base in
        let joins_y = base + n == y in
        let head = if joins_p then p else base in
        (b : Area) × (default_free_pages fuel base n a ≡ some b)
        × IsRing b.links free_list
            (front ++ ((if joins_p then [] else base ∷ []) ++ (if joins_y then back else y ∷ back)))
        × (b.property head
            ≡ (if joins_p then a.property p else 0) + n + (if joins_y then a.property y else 0))
        × (b.nr_free ≡ a.nr_free + n)
free_pages-inside fuel base n a front y back r f pos below lt in_use n_pos total small enough =
    let (b, e, c) = clear_pages_lem n base a in_use in
    let size : (k : ℕ) → b.property k ≡ a.property k = λ k i. c.property i k in
    let size_base : u32 n ≡ n = omega arith in
    let ring : IsRing b.links free_list (front ++ y ∷ back) = rw (c.links) r in
    let h = list_add_before b.links y base in
    let m =
      merge-IsRing_sizes (record (head_block base n b) { links = h }) base front y back
        (a.property (last_or front free_list)) n (a.property y)
        (list_add-IsRing b.links free_list base front (y ∷ back) ring ((λ q. omega arith), f)).0
        (ground (arith, Below-last base free_list front pos below, size (last_or front free_list)))
        (ground (arith, size_base)) (ground (arith, size y)) small in
    (
      _,
      free_pages-parts fuel base n a b h n_pos e
          (insert_block-inside fuel b.links base front y back ring below lt enough),
      m.0,
      rw (← m.1) m.2,
      m.3 ∙ omega (arith, c.nr_free),
    )
