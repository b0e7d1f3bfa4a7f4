-- ===== src/LinkedList/Chain.antt =====
-- What a ring of list.h holds: the nodes met from one node forward to another, linked both ways.
use os_experiment.Prelude.{ℕ, ◌≡◌, ◌≢◌, List, [], ◌∷◌, ◌++◌}
use os_experiment.LinkedList.{Links}

abbrev pub Fresh : ℕ → List ℕ → Type 0
Fresh x [] = Unit
Fresh x (y ∷ ys) = (x ≢ y) × Fresh x ys

abbrev pub Distinct : List ℕ → Type 0
Distinct [] = Unit
Distinct (x ∷ xs) = Fresh x xs × Distinct xs

-- From `a` through `xs` to `b`, with matching links in both directions.
abbrev pub Chain : Links → ℕ → List ℕ → ℕ → Type 0
Chain h a [] b = (h.next a ≡ b) × (h.prev b ≡ a)
Chain h a (x ∷ xs) b = (h.next a ≡ x) × (h.prev x ≡ a) × Chain h x xs b

abbrev pub first_or : List ℕ → ℕ → ℕ
first_or [] d = d
first_or (x ∷ xs) d = x

abbrev pub last_or : List ℕ → ℕ → ℕ
last_or [] d = d
last_or (x ∷ xs) d = last_or xs x

-- A ring with the nodes `xs` behind its head, in this order.
pub record IsRing (h : Links) (head : ℕ) (xs : List ℕ) : Type 0 where
  pub chain : Chain h head xs head
  pub distinct : Distinct (head ∷ xs)

pub Fresh-append : (x : ℕ) (xs ys : List ℕ) → Fresh x xs → Fresh x ys → Fresh x (xs ++ ys)
Fresh-append x [] ys f g = g
Fresh-append x (y ∷ xs) ys f g = (f.0, Fresh-append x xs ys f.1 g)

pub Fresh-left : (x : ℕ) (xs ys : List ℕ) → Fresh x (xs ++ ys) → Fresh x xs
Fresh-left x [] ys f = tt
Fresh-left x (y ∷ xs) ys f = (f.0, Fresh-left x xs ys f.1)

pub Fresh-right : (x : ℕ) (xs ys : List ℕ) → Fresh x (xs ++ ys) → Fresh x ys
Fresh-right x [] ys f = f
Fresh-right x (y ∷ xs) ys f = Fresh-right x xs ys f.1

-- A node that is not among the nodes of a list is not its last.
pub Fresh-last : (x y : ℕ) (xs : List ℕ) → x ≢ y → Fresh x xs → x ≢ last_or xs y
Fresh-last x y [] n f = n
Fresh-last x y (z ∷ xs) n f = Fresh-last x z xs f.0 f.1

pub Fresh-first : (x y : ℕ) (xs : List ℕ) → x ≢ y → Fresh x xs → x ≢ first_or xs y
Fresh-first x y [] n f = n
Fresh-first x y (z ∷ xs) n f = f.0

-- The links that a chain follows: the node before its end and the node behind its start.
pub prev-end :
    (h : Links) (a : ℕ) (xs ys : List ℕ) (b : ℕ)
    → Chain h a (xs ++ ys) b
    → h.prev (first_or ys b) ≡ last_or xs a
prev-end h a [] [] b c = c.1
prev-end h a [] (y ∷ ys) b c = c.1
prev-end h a (x ∷ xs) ys b c = prev-end h x xs ys b c.2

pub next-start :
    (h : Links) (a : ℕ) (xs ys : List ℕ) (b : ℕ)
    → Chain h a (xs ++ ys) b
    → h.next (last_or xs a) ≡ first_or ys b
next-start h a [] [] b c = c.0
next-start h a [] (y ∷ ys) b c = c.0
next-start h a (x ∷ xs) ys b c = next-start h x xs ys b c.2

pub next-inside :
    (h : Links) (a : ℕ) (xs : List ℕ) (e : ℕ) (ys : List ℕ) (b : ℕ)
    → Chain h a (xs ++ e ∷ ys) b
    → h.next e ≡ first_or ys b
next-inside h a [] e [] b c = c.2.0
next-inside h a [] e (y ∷ ys) b c = c.2.0
next-inside h a (x ∷ xs) e ys b c = next-inside h x xs e ys b c.2

pub next-last :
    (h : Links) (a : ℕ) (xs : List ℕ) (b : ℕ) → Chain h a xs b → h.next (last_or xs a) ≡ b
next-last h a [] b c = c.0
next-last h a (x ∷ xs) b c = next-last h x xs b c.2
