-- ===== src/FirstFit/Merge.antt =====
-- `default_free_pages` of default_pmm.c joins the freed block with its neighbours in the list.
use mathlib.Core.List.{append_assoc}
use os_experiment.Prelude.{
  u32, update, ℕ, ◌+◌, ◌^◌, ◌<◌, ◌≡◌, ◌≢◌, refl, Bool, true, false, not, ◌&&◌, List, [], ◌∷◌, ◌++◌,
  ◌==◌, if◌then◌else◌, Bool-cases, inl, inr, arith,
}
use os_experiment.LinkedList.{list_del}
use os_experiment.LinkedList.Chain.{
  Fresh, IsRing, last_or, Fresh-last, Fresh-left, Fresh-right, prev-end, next-start,
}
use os_experiment.LinkedList.Laws.{list_del-IsRing, Fresh-others}
use os_experiment.FirstFit.{Area, free_list, merge_before, merge_after}

last-snoc : (xs : List ℕ) (x d : ℕ) → last_or (xs ++ x ∷ []) d ≡ x
last-snoc [] x d = refl
last-snoc (y ∷ xs) x d = last-snoc xs x y

-- The block of `head`, listed right before `y`.
pub merge_after-IsRing :
    (d : Area) (head : ℕ) (front : List ℕ) (y : ℕ) (back : List ℕ) (stop : ℕ)
    → IsRing d.links free_list (front ++ y ∷ back)
    → last_or front free_list ≡ head
    → d.property head + d.property y < 2 ^ 32
    → head + d.property head ≡ stop
    → let joins = stop == y in
      let e = merge_after head d in
      IsRing e.links free_list (front ++ (if joins then back else y ∷ back))
      × (e.property head ≡ d.property head + (if joins then d.property y else 0))
      × (e.nr_free ≡ d.nr_free)
unfolding merge_after
merge_after-IsRing d head front y back stop r e b end = elim (Bool-cases (stop == y)) [
  | inl j ↦ rw j (
      rw next
        (rw (end, j) (ground (arith, list_del-IsRing d.links free_list y front back r, y_ne))))
  | inr j ↦ rw j (rw next (rw (end, j) (ground (arith, r, y_ne))))
]
  where
    y_ne : free_list ≢ y
    y_ne = (Fresh-right free_list front (y ∷ back) r.distinct.0).0

    next : d.links.next head ≡ y
    next = rw (← e) (next-start d.links free_list front (y ∷ back) free_list r.chain)

-- The area in which `p` has taken in the block of `base`.
abbrev joined : ℕ → ℕ → Area → Area
joined p base c = record c {
  property = update c.property p (u32 (c.property p + c.property base));
  heads = update c.heads base false;
  links = list_del c.links base;
}

abbrev pub joins_before : ℕ → ℕ → Area → Bool
joins_before p base c = not (p == free_list) && p + c.property p == base

merge_before-joins :
    (c : Area) (base p : ℕ)
    → c.links.prev base ≡ p
    → joins_before p base c ≡ true
    → merge_before base c ≡ (p, joined p base c)
unfolding merge_before
merge_before-joins c base p e j = rw e (ground arith)

merge_before-keeps :
    (c : Area) (base p : ℕ)
    → c.links.prev base ≡ p
    → joins_before p base c ≡ false
    → merge_before base c ≡ (base, c)
unfolding merge_before
merge_before-keeps c base p e j = rw e (ground arith)

-- What `merge_before` and then `merge_after` make of a block of `c` that has just been listed
-- between `front` and `y`.
pub merge-IsRing :
    (c : Area) (base : ℕ) (front : List ℕ) (y : ℕ) (back : List ℕ)
    → IsRing c.links free_list (front ++ base ∷ y ∷ back)
    → let p = last_or front free_list in
      c.property p + c.property base + c.property y < 2 ^ 32
      → let joins_p = joins_before p base c in
        let joins_y = base + c.property base == y in
        let (head, d) = merge_before base c in
        let e = merge_after head d in
        IsRing e.links free_list
          (front ++ ((if joins_p then [] else base ∷ []) ++ (if joins_y then back else y ∷ back)))
        × (head ≡ (if joins_p then p else base))
        × (e.property head
            ≡ (if joins_p then c.property p else 0)
              + c.property base
              + (if joins_y then c.property y else 0))
        × (e.nr_free ≡ c.nr_free)
merge-IsRing c base front y back r b = elim (Bool-cases (joins_before p base c)) [
  | inl j ↦ rw (merge_before-joins c base p prev j) (
      rw j (
        let m =
          merge_after-IsRing (joined p base c) p front y back stop cut refl (ground (arith, y_ne_p))
            (ground arith) in
        (m.0, refl, ground (arith, m.1, y_ne_p), m.2)))
  | inr j ↦ rw (merge_before-keeps c base p prev j) (
      rw j (
        let m =
          merge_after-IsRing c base (front ++ base ∷ []) y back stop shut
            (last-snoc front base free_list) (omega arith) refl in
        (rw append_assoc at m.0, refl, omega arith, m.2)))
]
  where
    p : ℕ
    p = last_or front free_list

    stop : ℕ
    stop = base + c.property base

    prev : c.links.prev base ≡ p
    prev = prev-end c.links free_list front (base ∷ y ∷ back) free_list r.chain

    shut : IsRing c.links free_list ((front ++ base ∷ []) ++ y ∷ back)
    shut = rw append_assoc r

    cut : IsRing (list_del c.links base) free_list (front ++ y ∷ back)
    cut = (list_del-IsRing c.links free_list base front (y ∷ back) r).0

    y_out : Fresh y (free_list ∷ ((front ++ base ∷ []) ++ back))
    y_out = Fresh-others free_list y (front ++ base ∷ []) back shut.distinct

    y_ne_p : y ≢ p
    y_ne_p =
        Fresh-last y free_list front y_out.0
          (Fresh-left y front (base ∷ []) (Fresh-left y (front ++ base ∷ []) back y_out.1))

-- The same, with names for the sizes that it reads.
pub merge-IsRing_sizes :
    (c : Area) (base : ℕ) (front : List ℕ) (y : ℕ) (back : List ℕ) (size_p n size_y : ℕ)
    → IsRing c.links free_list (front ++ base ∷ y ∷ back)
    → let p = last_or front free_list in
      c.property p ≡ size_p
      → c.property base ≡ n
      → c.property y ≡ size_y
      → size_p + n + size_y < 2 ^ 32
      → let joins_p = not (p == free_list) && p + size_p == base in
        let joins_y = base + n == y in
        let (head, d) = merge_before base c in
        let e = merge_after head d in
        IsRing e.links free_list
          (front ++ ((if joins_p then [] else base ∷ []) ++ (if joins_y then back else y ∷ back)))
        × (head ≡ (if joins_p then p else base))
        × (e.property head ≡ (if joins_p then size_p else 0) + n + (if joins_y then size_y else 0))
        × (e.nr_free ≡ c.nr_free)
merge-IsRing_sizes c base front y back size_p n size_y r ep eb ey b =
    rw (← ep, ← eb, ← ey) (merge-IsRing c base front y back r (rw (ep, eb, ey) b))
