-- ===== src/Process/Family.antt =====
-- The families that the pointers of proc.c make, and that its functions keep.
use os_experiment.Prelude.{
  ℕ, ◌≡◌, ◌≢◌, refl, true, false, List, [], ◌∷◌, ◌==◌, if◌then◌else◌, arith, Bool-cases, inl, inr,
  ap, sym, ◌⊎◌, ◌∙◌,
}
use mathlib.Core.Path.{subst}
use os_experiment.Sched.State.{queued}
use os_experiment.Sched.Queue.{Unique}
use os_experiment.Process.Links.{Relations, set_links}

-- From the pointer `first` on, the older-sibling pointers lead through the children of `q`, youngest
-- first, and the younger-sibling pointers lead back, from the first to `younger`.
abbrev pub Siblings : Relations → ℕ → ℕ → ℕ → List ℕ → Type 0
Siblings r q younger first [] = first ≡ 0
Siblings r q younger first (x ∷ xs) =
    (first ≡ x) × (x ≢ 0) × (r.parent x ≡ q) × (r.yptr x ≡ younger) × Siblings r q x (r.optr x) xs

pub record IsFamily (r : Relations) (q : ℕ) (xs : List ℕ) : Type 0 where
  pub chain : Siblings r q 0 (r.cptr q) xs
  pub unique : Unique xs

-- What the siblings chain says does not depend on other processes' pointers.
pub Siblings-same :
    (r r' : Relations) (q younger first : ℕ) (xs : List ℕ)
    → ((x : ℕ)
        → queued x xs ≡ true
        → (r'.parent x ≡ r.parent x) × (r'.yptr x ≡ r.yptr x) × (r'.optr x ≡ r.optr x))
    → Siblings r q younger first xs
    → Siblings r' q younger first xs
Siblings-same r r' q younger first [] same s = s
Siblings-same r r' q younger first (x ∷ xs) same (a, b, c, d, s) =
    let (e, f, g) = same x (ground arith) in
    (
      a,
      b,
      ground arith,
      ground arith,
      rw g (Siblings-same r r' q x (r.optr x) xs (λ y h. same y (ground arith)) s),
    )

pub Siblings-parent :
    (r : Relations) (q younger first x : ℕ) (xs : List ℕ)
    → Siblings r q younger first xs
    → queued x xs ≡ true
    → (r.parent x ≡ q) × (x ≢ 0)
Siblings-parent r q younger first x [] s h = absurd (ground arith)
Siblings-parent r q younger first x (y ∷ ys) (a, b, c, d, s) h = elim (Bool-cases (y == x)) [
  | inl e ↦ let same : y ≡ x = ground arith in ground (arith, ap r.parent same)
  | inr e ↦ Siblings-parent r q y (r.optr y) x ys s (ground arith)
]

-- The first pointer is NULL or leads to a child.
pub Siblings-first :
    (r : Relations) (q younger first : ℕ) (xs : List ℕ)
    → Siblings r q younger first xs
    → (first ≡ 0) ⊎ (queued first xs ≡ true)
Siblings-first r q younger first [] s = inl s
Siblings-first r q younger first (x ∷ xs) (a, b, c, d, s) = inr (ground arith)

-- The chain once the first child has another younger sibling.
pub Siblings-younger :
    (r r' : Relations) (q younger younger' first : ℕ) (xs : List ℕ)
    → Unique xs
    → (first ≢ 0 → r'.yptr first ≡ younger')
    → ((x : ℕ) → queued x xs ≡ true → (r'.parent x ≡ r.parent x) × (r'.optr x ≡ r.optr x))
    → ((x : ℕ) → queued x xs ≡ true → x ≢ first → r'.yptr x ≡ r.yptr x)
    → Siblings r q younger first xs
    → Siblings r' q younger' first xs
Siblings-younger r r' q younger younger' first [] u head same rest s = s
Siblings-younger r r' q younger younger' first (x ∷ xs) (fresh, u) head same rest (a, b, c, d, s) =
    let (e, f) = same x (ground arith) in
    (
      a,
      b,
      ground arith,
      rw a at (head (ground arith)),
      rw f (
          Siblings-same r r' q x (r.optr x) xs
            (λ y h.
              let (g, k) = same y (ground arith) in
              (g, rest y (ground arith) (λ m. absurd (apart y h m)), k))
            s),
    )
  where
    apart : (y : ℕ) → queued y xs ≡ true → y ≡ first → ⊥
    apart y h m = let here : y ≡ x = m ∙ a in ground (arith, ap (λ z. queued z xs) here)

pub eq_self : (p : ℕ) → (p == p) ≡ true
eq_self p = ground arith

set_links-parent :
    (p : ℕ) (r : Relations) (xs : List ℕ)
    → IsFamily r (r.parent p) xs
    → queued p xs ≡ false
    → p ≢ 0
    → IsFamily (set_links p r) (r.parent p) (p ∷ xs)
unfolding set_links
set_links-parent p r xs v new nn = record {
  chain = (
    rw (eq_self (r.parent p)) refl,
    nn,
    refl,
    ground (arith, older),
    rw (eq_self p) (
        Siblings-younger r (set_links p r) (r.parent p) 0 p (r.cptr (r.parent p)) xs v.unique
          (λ h. ground arith) (λ x h. (refl, ground (arith, other x h)))
          (λ x h g. ground (arith, other x h)) v.chain),
  );
  unique = (new, v.unique);
}
  where
    other : (x : ℕ) → queued x xs ≡ true → x ≢ p
    other x h e = ground (arith, ap (λ z. queued z xs) e)

    older : r.cptr (r.parent p) ≢ p
    older = elim (Siblings-first r (r.parent p) 0 (r.cptr (r.parent p)) xs v.chain) [
      | inl e ↦ λ g. ground arith
      | inr h ↦ other (r.cptr (r.parent p)) h
    ]

set_links-others :
    (p q : ℕ) (r : Relations) (xs ys : List ℕ)
    → IsFamily r (r.parent p) xs
    → IsFamily r q ys
    → queued p ys ≡ false
    → q ≢ r.parent p
    → IsFamily (set_links p r) q ys
unfolding set_links
set_links-others p q r xs ys v w new nq = record {
  chain = rw (ne_test q (r.parent p) nq) (
      Siblings-same r (set_links p r) q 0 (r.cptr q) ys
        (λ x h. (refl, ground (arith, other x h, older x h), ground (arith, other x h))) w.chain);
  unique = w.unique;
}
  where
    ne_test : (a b : ℕ) → a ≢ b → (a == b) ≡ false
    ne_test a b h = ground arith

    other : (x : ℕ) → queued x ys ≡ true → x ≢ p
    other x h e = ground (arith, ap (λ z. queued z ys) e)

    older : (x : ℕ) → queued x ys ≡ true → (r.cptr (r.parent p) ≡ 0) ⊎ (x ≢ r.cptr (r.parent p))
    older x h = elim (Siblings-first r (r.parent p) 0 (r.cptr (r.parent p)) xs v.chain) [
      | inl e ↦ inl e
      | inr g ↦ inr (λ e.
          let mine = (Siblings-parent r q 0 (r.cptr q) x ys w.chain h).0 in
          let theirs =
            (Siblings-parent r (r.parent p) 0 (r.cptr (r.parent p)) (r.cptr (r.parent p)) xs v.chain
              g).0 in
          nq (sym mine ∙ ap r.parent e ∙ theirs))
    ]

-- `set_links` of a process that is not NULL and in no family makes it the youngest child of its
-- parent, and keeps every other family.
pub set_links-IsFamily :
    (p q : ℕ) (r : Relations) (family : ℕ → List ℕ)
    → ((x : ℕ) → IsFamily r x (family x))
    → ((x : ℕ) → queued p (family x) ≡ false)
    → p ≢ 0
    → IsFamily (set_links p r) q (if q == r.parent p then p ∷ family q else family q)
set_links-IsFamily p q r family v new nn = elim (Bool-cases (q == r.parent p)) [
  | inl e ↦
      let same : r.parent p ≡ q = ground arith in
      rw e (
        subst (λ x. IsFamily (set_links p r) x (p ∷ family x)) same
          (set_links-parent p r (family (r.parent p)) (v (r.parent p)) (new (r.parent p)) nn))
  | inr e ↦ rw e (
      set_links-others p q r (family (r.parent p)) (family q) (v (r.parent p)) (v q) (new q)
        (ground arith))
]
