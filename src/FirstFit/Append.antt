-- ===== src/FirstFit/Append.antt =====
-- What default_pmm.c does to a free list when the freed block lies behind all listed blocks.
use os_experiment.Prelude.{
  update, u32, ℕ, zero, suc, ◌+◌, ◌^◌, ◌≤◌, ◌<◌, ◌≡◌, ◌∙◌, ap, some, List, [], ◌∷◌, length, arith,
}
use os_experiment.LinkedList.{Links, list_del, list_add, link_between, unlink_between}
use os_experiment.LinkedList.Chain.{Fresh, Distinct, Chain, IsRing, last_or, Fresh-last, next-last}
use os_experiment.FirstFit.{
  Area, free_list, head_block, insert_block, find_fit, take_block, merge_before, merge_after,
  default_free_pages, default_alloc_pages,
}
use os_experiment.FirstFit.Walk.{Below, appended, appended_links, insert_walk-end}
use os_experiment.FirstFit.Free.{InUse, clear_pages_lem, free_pages-parts, Below-last}

-- The way forward from `a` through `xs` to `b`, whatever the links back are.
abbrev pub Forward : Links → ℕ → List ℕ → ℕ → Type 0
Forward h a [] b = h.next a ≡ b
Forward h a (x ∷ xs) b = (h.next a ≡ x) × Forward h x xs b

-- Every listed block is smaller than `n`.
abbrev pub TooSmall : (ℕ → ℕ) → ℕ → List ℕ → Type 0
TooSmall size n [] = Unit
TooSmall size n (x ∷ xs) = (size x < n) × TooSmall size n xs

Forward-appended :
    (h : Links) (base a : ℕ) (xs : List ℕ)
    → Chain h a xs free_list
    → Distinct (a ∷ xs)
    → a < base
    → Below base xs
    → Forward (appended h (last_or xs a) base) a xs base
unfolding list_add link_between
Forward-appended h base a [] c d l b = ground arith
Forward-appended h base a (x ∷ xs) c d l b =
    (ground (arith, Fresh-last a x xs d.0.0 d.0.1), Forward-appended h base x xs c.2 d.1 b.0 b.1)

-- Links that agree below `base` have the same ways below `base`.
Forward-agree :
    (h h' : Links) (base a : ℕ) (xs : List ℕ) (b : ℕ)
    → ((k : ℕ) → k < base → h'.next k ≡ h.next k)
    → Forward h a xs b
    → a < base
    → Below base xs
    → Forward h' a xs b
Forward-agree h h' base a [] b e f l s = e a l ∙ f
Forward-agree h h' base a (x ∷ xs) b e f l s =
    (e a l ∙ f.0, Forward-agree h h' base x xs b e f.1 s.0 s.1)

TooSmall-agree :
    (size size' : ℕ → ℕ) (base n : ℕ) (xs : List ℕ)
    → ((k : ℕ) → k < base → size' k ≡ size k)
    → Below base xs
    → TooSmall size n xs
    → TooSmall size' n xs
TooSmall-agree size size' base n [] e b s = tt
TooSmall-agree size size' base n (x ∷ xs) e b s =
    (omega (arith, e x b.0), TooSmall-agree size size' base n xs e b.1 s.1)

-- The search ends at the first page of the way forward whose block is large enough.
pub find_fit-Forward :
    (fuel : ℕ) (a : Area) (n le : ℕ) (xs : List ℕ) (y : ℕ)
    → Forward a.links le xs y
    → Fresh free_list xs
    → TooSmall a.property n xs
    → 0 < y
    → n ≤ a.property y
    → length xs < fuel
    → find_fit fuel a n le ≡ some y
unfolding find_fit
find_fit-Forward zero a n le xs y w f s p m l = absurd (omega arith)
find_fit-Forward (suc fuel) a n le [] y w f s p m l = ground arith
find_fit-Forward (suc fuel) a n le (x ∷ xs) y w f s p m l =
    ground (arith, find_fit-Forward fuel a n x xs y w.1 f.1 s.1 p m (omega arith))

-- The state of `base` after it was appended: listed last, and its link back leads to itself.
pub record SelfLinked (b : Area) (xs : List ℕ) (base : ℕ) : Type 0 where
  pub forward : Forward b.links free_list xs base
  pub next : b.links.next base ≡ free_list
  pub prev : b.links.prev base ≡ base

insert_block-end :
    (fuel : ℕ) (h : Links) (base x : ℕ) (xs : List ℕ)
    → IsRing h free_list (x ∷ xs)
    → Below base (x ∷ xs)
    → length xs + 2 < fuel
    → insert_block fuel h base ≡ some (appended h (last_or xs x) base)
unfolding insert_block
insert_block-end fuel h base x xs r below enough = ground (
  arith,
  r.chain,
  r.distinct,
  insert_walk-end fuel h base free_list x xs r.chain r.distinct.0 below enough,
)

-- The merges find nothing to join at a block that is linked to itself.
merge-SelfLinked :
    (c : Area) (base : ℕ)
    → 0 < base
    → 0 < c.property base
    → c.links.next base ≡ free_list
    → c.links.prev base ≡ base
    → let (head, d) = merge_before base c in merge_after head d ≡ c
unfolding merge_before merge_after
merge-SelfLinked c base p q n v = ground arith

-- Freeing pages behind all listed blocks, at least one of them, succeeds and lists the block last,
-- with its own size `n`: it is not joined with the block before it even where that ends at `base`,
-- whose size stays. Its link back leads to itself, so that a `list_del` of it afterwards leaves it
-- in the list.
pub free_pages-end :
    (fuel base n : ℕ) (a : Area) (x : ℕ) (xs : List ℕ)
    → IsRing a.links free_list (x ∷ xs)
    → Below base (x ∷ xs)
    → InUse a base n
    → 0 < n
    → n < 2 ^ 32
    → length xs + 2 < fuel
    → let last = last_or xs x in
      (b : Area) × (default_free_pages fuel base n a ≡ some b)
      × SelfLinked b (x ∷ xs) base
      × ((k : ℕ) → b.property k ≡ update a.property base n k)
      × (b.nr_free ≡ u32 (a.nr_free + n))
      × ((list_del b.links base).next last ≡ base)
unfolding list_del unlink_between
free_pages-end fuel base n a x xs r below in_use pos small enough =
    let (b, e, c) = clear_pages_lem n base a in_use in
    let ring : IsRing b.links free_list (x ∷ xs) = rw (c.links) r in
    let last = last_or xs x in
    let lt = Below-last base x xs below.0 below.1 in
    let links =
      appended_links b.links last base (next-last b.links x xs free_list ring.chain.2) (omega arith)
        (omega arith) in
    let done = record (head_block base n b) { links = appended b.links last base } in
    let size_base : done.property base ≡ n = ground arith in
    (
      done,
      free_pages-parts fuel base n a b (appended b.links last base) pos e
            (insert_block-end fuel b.links base x xs ring below enough)
          ∙ ap some
              (merge-SelfLinked done base (omega arith) (omega (arith, size_base)) links.0 links.2),
      record {
        forward =
            Forward-appended b.links base free_list (x ∷ xs) ring.chain ring.distinct (omega arith)
              below;
        next = links.0;
        prev = links.2;
      },
      (λ k. ground (arith, size_base, ap (λ (g : ℕ → ℕ). g k) c.property)),
      omega (arith, c.nr_free),
      ground (arith, links.0, links.1, links.2),
    )

-- `default_alloc_pages` in terms of its parts.
pub alloc_pages-parts :
    (fuel n : ℕ) (a : Area) (page : ℕ)
    → 0 < n
    → n ≤ a.nr_free
    → find_fit fuel a n free_list ≡ some page
    → 0 < page
    → default_alloc_pages fuel n a ≡ some (page, take_block page n a)
unfolding default_alloc_pages
alloc_pages-parts fuel n a page pos enough e p = ground (arith, e)

-- What a request leaves of a larger block that is linked to itself.
take-SelfLinked :
    (base m : ℕ) (b : Area)
    → b.links.next base ≡ free_list
    → b.links.prev base ≡ base
    → 0 < m
    → m < b.property base
    → 0 < base
    → let c = take_block base m b in
      ((k : ℕ) → k < base → c.links.next k ≡ b.links.next k)
      × ((k : ℕ) → k < base + 1 → c.property k ≡ b.property k)
unfolding take_block link_between unlink_between
take-SelfLinked base m b e v pos lt p = ((λ k l. ground arith), (λ k l. ground arith))

pub nr_free-take :
    (page m : ℕ) (b : Area)
    → m ≤ b.nr_free
    → b.nr_free < 2 ^ 32
    → (take_block page m b).nr_free + m ≡ b.nr_free
unfolding take_block
nr_free-take page m b l h = ground arith

-- `default_alloc_pages` of a block that is linked to itself leaves it in the list: after such a
-- block was freed at the end, with `n` pages, two requests in a row for `m` pages, which the
-- blocks in front are too small for and which fit into the `n` pages together, both get its
-- address, and so the same pages.
pub alloc_pages-twice :
    (fuel base n m : ℕ) (b : Area) (x : ℕ) (xs : List ℕ)
    → SelfLinked b (x ∷ xs) base
    → Fresh free_list (x ∷ xs)
    → Below base (x ∷ xs)
    → TooSmall b.property m (x ∷ xs)
    → b.property base ≡ n
    → 0 < m
    → m + m ≤ n
    → n ≤ b.nr_free
    → b.nr_free < 2 ^ 32
    → length xs + 1 < fuel
    → (c d : Area) × (default_alloc_pages fuel m b ≡ some (base, c))
      × (default_alloc_pages fuel m c ≡ some (base, d))
      × (c.nr_free + m ≡ b.nr_free)
alloc_pages-twice fuel base n m b x xs s f below small size pos fits free bound enough =
    let c = take_block base m b in
    let lt : 0 < base = omega (arith, below.0) in
    let (next, same) = take-SelfLinked base m b s.next s.prev pos (omega (arith, size)) lt in
    let count = nr_free-take base m b (omega arith) bound in
    (
      c,
      take_block base m c,
      alloc_pages-parts fuel m b base pos (omega arith)
          (find_fit-Forward fuel b m free_list (x ∷ xs) base s.forward f small lt
            (omega (arith, size)) (omega arith))
          lt,
      alloc_pages-parts fuel m c base pos (omega (arith, count))
          (find_fit-Forward fuel c m free_list (x ∷ xs) base
            (Forward-agree b.links c.links base free_list (x ∷ xs) base next s.forward lt below) f
            (TooSmall-agree b.property c.property base m (x ∷ xs) (λ k l. same k (omega arith))
              below small)
            lt (omega (arith, size, same base (omega arith))) (omega arith))
          lt,
      count,
    )
