-- ===== src/LinkedList/Splice.antt =====
-- `__list_add` and `__list_del` splice one node into a chain and out of it.
use os_experiment.Prelude.{ℕ, ◌≢◌, sym, List, [], ◌∷◌, ◌++◌, arith}
use os_experiment.LinkedList.{Links, link_between, unlink_between}
use os_experiment.LinkedList.Chain.{
  Fresh, Distinct, Chain, first_or, last_or, Fresh-left, Fresh-right, Fresh-last, Fresh-first,
}

-- A chain does not notice a node that is linked in elsewhere.
Chain-link_elsewhere :
    (h : Links) (e p n a : ℕ) (xs : List ℕ) (b : ℕ)
    → Chain h a xs b
    → Fresh p (a ∷ xs)
    → Fresh e (a ∷ xs)
    → Fresh n (b ∷ xs)
    → Fresh e (b ∷ xs)
    → Chain (link_between h e p n) a xs b
unfolding link_between
Chain-link_elsewhere h e p n a [] b c f g k l = ground arith
Chain-link_elsewhere h e p n a (x ∷ xs) b c f g k l = (
  ground arith,
  ground arith,
  Chain-link_elsewhere h e p n x xs b c.2 f.1 g.1 (k.0, k.1.1) (l.0, l.1.1),
)

pub Chain-link :
    (h : Links) (e a : ℕ) (xs ys : List ℕ) (b : ℕ)
    → Chain h a (xs ++ ys) b
    → Distinct (a ∷ (xs ++ ys))
    → Fresh b (xs ++ ys)
    → e ≢ a
    → Fresh e (b ∷ (xs ++ ys))
    → Chain (link_between h e (last_or xs a) (first_or ys b)) a (xs ++ e ∷ ys) b
unfolding link_between
Chain-link h e a [] [] b c d f g k = ground arith
Chain-link h e a [] (y ∷ ys) b c d f g k = (
  ground arith,
  ground arith,
  (
    ground arith,
    ground arith,
    Chain-link_elsewhere h e a y y ys b c.2 d.0 k.1 ((λ q. f.0 (sym q)), d.1.0) (k.0, k.1.1),
  ),
)
Chain-link h e a (x ∷ xs) ys b c d f g k = (
  (let far = Fresh-last a x xs d.0.0 (Fresh-left a xs ys d.0.1) in ground arith),
  (let far = Fresh-first x b ys (λ q. f.0 (sym q)) (Fresh-right x xs ys d.1.0) in ground arith),
  Chain-link h e x xs ys b c.2 d.1 f.1 k.1.0 (k.0, k.1.1),
)

Chain-unlink_elsewhere :
    (h : Links) (p n a : ℕ) (xs : List ℕ) (b : ℕ)
    → Chain h a xs b
    → Fresh p (a ∷ xs)
    → Fresh n (b ∷ xs)
    → Chain (unlink_between h p n) a xs b
unfolding unlink_between
Chain-unlink_elsewhere h p n a [] b c f k = ground arith
Chain-unlink_elsewhere h p n a (x ∷ xs) b c f k =
    (ground arith, ground arith, Chain-unlink_elsewhere h p n x xs b c.2 f.1 (k.0, k.1.1))

pub Chain-unlink :
    (h : Links) (e a : ℕ) (xs ys : List ℕ) (b : ℕ)
    → Chain h a (xs ++ e ∷ ys) b
    → Distinct (a ∷ (xs ++ e ∷ ys))
    → Fresh b (xs ++ e ∷ ys)
    → Chain (unlink_between h (last_or xs a) (first_or ys b)) a (xs ++ ys) b
unfolding unlink_between
Chain-unlink h e a [] [] b c d f = ground arith
Chain-unlink h e a [] (y ∷ ys) b c d f = (
  ground arith,
  ground arith,
  Chain-unlink_elsewhere h a y y ys b c.2.2 d.0.1 ((λ q. f.1.0 (sym q)), d.1.1.0),
)
Chain-unlink h e a (x ∷ xs) ys b c d f = (
  (let far = Fresh-last a x xs d.0.0 (Fresh-left a xs (e ∷ ys) d.0.1) in ground arith),
  (let far = Fresh-first x b ys (λ q. f.0 (sym q)) (Fresh-right x xs (e ∷ ys) d.1.0).1 in
      ground arith),
  Chain-unlink h e x xs ys b c.2 d.1 f.1,
)
