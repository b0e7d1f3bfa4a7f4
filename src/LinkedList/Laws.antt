-- ===== src/LinkedList/Laws.antt =====
-- The operations of lab8/libs/list.h on a ring, as operations on the list of its nodes.
use os_experiment.Prelude.{ℕ, ◌≡◌, ◌↔◌, sym, true, List, [], ◌∷◌, ◌++◌, arith}
use os_experiment.LinkedList.{
  Links, link_between, unlink_between, list_init, list_add_after, list_add_before, list_del,
  list_del_init, list_empty,
}
use os_experiment.LinkedList.Chain.{
  Fresh, Distinct, Chain, IsRing, first_or, last_or, Fresh-append, Fresh-left, Fresh-right,
  prev-end, next-start, next-inside,
}
use os_experiment.LinkedList.Splice.{Chain-link, Chain-unlink}

Distinct-insert :
    (a e : ℕ) (xs ys : List ℕ)
    → Distinct (a ∷ (xs ++ ys))
    → Fresh e (a ∷ (xs ++ ys))
    → Distinct (a ∷ (xs ++ e ∷ ys))
Distinct-insert a e [] ys d f = (((λ q. f.0 (sym q)), d.0), (f.1, d.1))
Distinct-insert a e (x ∷ xs) ys d f = (
  (
    d.0.0,
    Fresh-append a xs (e ∷ ys) (Fresh-left a xs ys d.0.1)
        ((λ q. f.0 (sym q)), Fresh-right a xs ys d.0.1),
  ),
  Distinct-insert x e xs ys d.1 f.1,
)

Distinct-remove :
    (a e : ℕ) (xs ys : List ℕ) → Distinct (a ∷ (xs ++ e ∷ ys)) → Distinct (a ∷ (xs ++ ys))
Distinct-remove a e [] ys d = (d.0.1, d.1.1)
Distinct-remove a e (x ∷ xs) ys d = (
  (
    d.0.0,
    Fresh-append a xs ys (Fresh-left a xs (e ∷ ys) d.0.1) (Fresh-right a xs (e ∷ ys) d.0.1).1,
  ),
  Distinct-remove x e xs ys d.1,
)

-- `list_init` makes a ring of one node, whatever its links were.
pub list_init-IsRing : (h : Links) (e : ℕ) → IsRing (list_init h e) e []
unfolding list_init
list_init-IsRing h e = ground arith

-- A ring does not notice `list_init` of a node outside.
Chain-init_elsewhere :
    (h : Links) (e a : ℕ) (xs : List ℕ) (b : ℕ)
    → Chain h a xs b
    → Fresh e (a ∷ xs)
    → Fresh e (b ∷ xs)
    → Chain (list_init h e) a xs b
unfolding list_init
Chain-init_elsewhere h e a [] b c f g = ground arith
Chain-init_elsewhere h e a (x ∷ xs) b c f g =
    (ground arith, ground arith, Chain-init_elsewhere h e x xs b c.2 f.1 (g.0, g.1.1))

IsRing-init_elsewhere :
    (h : Links) (e head : ℕ) (xs : List ℕ)
    → IsRing h head xs
    → Fresh e (head ∷ xs)
    → IsRing (list_init h e) head xs
IsRing-init_elsewhere h e head xs r f = record {
  chain = Chain-init_elsewhere h e head xs head r.chain f f;
  distinct = r.distinct;
}

pub Fresh-others :
    (a e : ℕ) (xs ys : List ℕ) → Distinct (a ∷ (xs ++ e ∷ ys)) → Fresh e (a ∷ (xs ++ ys))
Fresh-others a e [] ys d = ((λ q. d.0.0 (sym q)), d.1.0)
Fresh-others a e (x ∷ xs) ys d =
    ((λ q. (Fresh-right a (x ∷ xs) (e ∷ ys) d.0).0 (sym q)), Fresh-others x e xs ys d.1)

-- On a ring that holds `xs ++ ys`, `list_add_before` at the first node of `ys`, or at the head
-- where `ys` is empty, with a node that is not in the ring, gives a ring that holds
-- `xs ++ elm ∷ ys`; so does `list_add_after` at the last node of `xs`, or at the head where
-- `xs` is empty.
pub list_add-IsRing :
    (h : Links) (head e : ℕ) (xs ys : List ℕ)
    → IsRing h head (xs ++ ys)
    → Fresh e (head ∷ (xs ++ ys))
    → IsRing (list_add_before h (first_or ys head) e) head (xs ++ e ∷ ys)
      × IsRing (list_add_after h (last_or xs head) e) head (xs ++ e ∷ ys)
unfolding list_add_before list_add_after
list_add-IsRing h head e xs ys r f = (
  rw (prev-end h head xs ys head r.chain) linked,
  rw (next-start h head xs ys head r.chain) linked,
)
  where
    open r use {chain, distinct}

    linked : IsRing (link_between h e (last_or xs head) (first_or ys head)) head (xs ++ e ∷ ys)
    linked = record {
      chain = Chain-link h e head xs ys head chain distinct distinct.0 f.0 f;
      distinct = Distinct-insert head e xs ys distinct f;
    }

-- `list_del` of a node of a ring gives a ring that holds the other nodes in their order, and
-- `list_del_init` makes the node a ring of its own as well.
pub list_del-IsRing :
    (h : Links) (head e : ℕ) (xs ys : List ℕ)
    → IsRing h head (xs ++ e ∷ ys)
    → IsRing (list_del h e) head (xs ++ ys)
      × IsRing (list_del_init h e) head (xs ++ ys)
      × IsRing (list_del_init h e) e []
unfolding list_del list_del_init
list_del-IsRing h head e xs ys r = (
  rw (prev, next) cut,
  rw (prev, next) (IsRing-init_elsewhere _ e head (xs ++ ys) cut out),
  list_init-IsRing _ e,
)
  where
    open r use {chain, distinct}

    prev : h.prev e ≡ last_or xs head
    prev = prev-end h head xs (e ∷ ys) head chain

    next : h.next e ≡ first_or ys head
    next = next-inside h head xs e ys head chain

    cut : IsRing (unlink_between h (last_or xs head) (first_or ys head)) head (xs ++ ys)
    cut = record {
      chain = Chain-unlink h e head xs ys head chain distinct distinct.0;
      distinct = Distinct-remove head e xs ys distinct;
    }

    out : Fresh e (head ∷ (xs ++ ys))
    out = Fresh-others head e xs ys distinct

-- `list_empty` of a ring's head tests whether the ring holds no node.
pub list_empty_iff :
    (h : Links) (head : ℕ) (xs : List ℕ) → IsRing h head xs → (list_empty h head ≡ true) ↔ (xs ≡ [])
unfolding list_empty
list_empty_iff h head [] r = ground arith
list_empty_iff h head (x ∷ xs) r = ground (arith, r.distinct.0.0)
