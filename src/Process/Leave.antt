-- ===== src/Process/Leave.antt =====
-- `remove_links` of proc.c on the families that the pointers make.
use mathlib.Core.Path.{subst}
use os_experiment.Prelude.{
  ℕ, ◌≡◌, ◌≢◌, refl, true, false, List, [], ◌∷◌, ◌==◌, if◌then◌else◌, arith, Bool-cases, inl, inr,
  ap, sym, ◌⊎◌, ◌∙◌,
}
use os_experiment.Sched.State.{queued}
use os_experiment.Sched.RoundRobin.{unlink}
use os_experiment.Sched.Queue.{Unique, Unique-unlink}
use os_experiment.Process.Links.{Relations, remove_links}
use os_experiment.Process.Family.{
  Siblings, IsFamily, Siblings-same, Siblings-younger, Siblings-first, Siblings-parent,
}

-- Equal processes stand in the same lists.
pub queued-ne : (x y : ℕ) (xs : List ℕ) → queued x xs ≡ true → queued y xs ≡ false → x ≢ y
queued-ne x y xs h g e = ground (arith, ap (λ z. queued z xs) e)

Siblings-queued_zero :
    (r : Relations) (q younger first : ℕ) (xs : List ℕ)
    → Siblings r q younger first xs
    → queued 0 xs ≡ false
Siblings-queued_zero r q younger first [] s = refl
Siblings-queued_zero r q younger first (x ∷ xs) (a, b, c, d, s) =
    ground (arith, Siblings-queued_zero r q x (r.optr x) xs s)

-- A child's older sibling is none or a child.
Siblings-optr :
    (r : Relations) (q younger first p : ℕ) (xs : List ℕ)
    → Siblings r q younger first xs
    → queued p xs ≡ true
    → (r.optr p ≡ 0) ⊎ (queued (r.optr p) xs ≡ true)
Siblings-optr r q younger first p [] s h = absurd (ground arith)
Siblings-optr r q younger first p (x ∷ xs) (a, b, c, d, s) h = elim (Bool-cases (x == p)) [
  | inl e ↦
      let same : x ≡ p = ground arith in
      subst (λ z. (r.optr z ≡ 0) ⊎ (queued (r.optr z) (x ∷ xs) ≡ true)) same
        (elim (Siblings-first r q x (r.optr x) xs s) [ inl f ↦ inl f | inr f ↦ inr (ground arith) ])
  | inr e ↦ elim (Siblings-optr r q x (r.optr x) p xs s (ground arith)) [
    | inl f ↦ inl f
    | inr f ↦ inr (ground arith)
  ]
]

-- A child is the first, whose younger sibling is that of the chain, or its younger sibling is a child.
Siblings-yptr :
    (r : Relations) (q younger first p : ℕ) (xs : List ℕ)
    → Siblings r q younger first xs
    → queued p xs ≡ true
    → ((first ≡ p) × (r.yptr p ≡ younger)) ⊎ ((first ≢ p) × (queued (r.yptr p) xs ≡ true))
Siblings-yptr r q younger first p [] s h = absurd (ground arith)
Siblings-yptr r q younger first p (x ∷ xs) (a, b, c, d, s) h = elim (Bool-cases (x == p)) [
  | inl e ↦ let same : x ≡ p = ground arith in inl (a ∙ same, ap r.yptr (sym same) ∙ d)
  | inr e ↦ elim (Siblings-yptr r q x (r.optr x) p xs s (ground arith)) [
    | inl (f, g) ↦ inr (ground arith, ground arith)
    | inr (f, g) ↦ inr (ground arith, ground arith)
  ]
]

-- No child is its own older sibling.
Siblings-optr_ne :
    (r : Relations) (q younger first p : ℕ) (xs : List ℕ)
    → Unique xs
    → Siblings r q younger first xs
    → queued p xs ≡ true
    → r.optr p ≢ p
Siblings-optr_ne r q younger first p [] u s h = absurd (ground arith)
Siblings-optr_ne r q younger first p (x ∷ xs) (fresh, u) (a, b, c, d, s) h =
    elim (Bool-cases (x == p)) [
      | inl e ↦
          let same : x ≡ p = ground arith in
          subst (λ z. r.optr z ≢ z) same
            (elim (Siblings-first r q x (r.optr x) xs s) [
              | inl f ↦ λ g. b (sym g ∙ f)
              | inr f ↦ queued-ne (r.optr x) x xs f fresh
            ])
      | inr e ↦ Siblings-optr_ne r q x (r.optr x) p xs u s (ground arith)
    ]

module _ (p : ℕ) (r : Relations) (loose : r.optr p ≢ p) where
  yptr_same : (z : ℕ) → z ≢ r.optr p → (remove_links p r).yptr z ≡ r.yptr z
  unfolding remove_links
  yptr_same z h = ground arith

  yptr_older : r.optr p ≢ 0 → (remove_links p r).yptr (r.optr p) ≡ r.yptr p
  unfolding remove_links
  yptr_older h = ground arith

  optr_same : (z : ℕ) → (z ≢ r.yptr p) → (remove_links p r).optr z ≡ r.optr z
  unfolding remove_links
  optr_same z h = ground arith

  optr_younger : (z : ℕ) → z ≡ r.yptr p → z ≢ 0 → (remove_links p r).optr z ≡ r.optr p
  unfolding remove_links
  optr_younger z e h = ground arith

  parent_same : (z : ℕ) → (remove_links p r).parent z ≡ r.parent z
  unfolding remove_links
  parent_same z = refl

  cptr_first : r.yptr p ≡ 0 → (remove_links p r).cptr (r.parent p) ≡ r.optr p
  unfolding remove_links
  cptr_first h = ground arith

  cptr_later : (z : ℕ) → r.yptr p ≢ 0 → (remove_links p r).cptr z ≡ r.cptr z
  unfolding remove_links
  cptr_later z h = ground arith

  cptr_other : (z : ℕ) → z ≢ r.parent p → (remove_links p r).cptr z ≡ r.cptr z
  unfolding remove_links
  cptr_other z h = ground arith

  Siblings-remove_links :
      (q younger first : ℕ) (xs : List ℕ)
      → Unique xs
      → queued p xs ≡ true
      → queued younger xs ≡ false
      → Siblings r q younger first xs
      → Siblings (remove_links p r) q younger (if first == p then r.optr p else first) (unlink p xs)
  unfolding unlink
  Siblings-remove_links q younger first [] u h y s = absurd (ground arith)
  Siblings-remove_links q younger first (x ∷ xs) (fresh, u) h y (a, b, c, d, s) =
      elim (Bool-cases (x == p)) [
        | inl e ↦
            let same : x ≡ p = ground arith in
            let at : (first == p) ≡ true = ground arith in
            let s' : Siblings r q p (r.optr p) xs =
              subst (λ z. Siblings r q z (r.optr z) xs) same s in
            let up : r.yptr p ≡ younger = ap r.yptr (sym same) ∙ d in
            rw (e, at)
              (Siblings-younger r (remove_links p r) q p younger (r.optr p) xs u
                (λ g. yptr_older g ∙ up)
                (λ z g. (
                  parent_same z,
                  optr_same z (λ k. queued-ne z younger xs g (ground arith) (k ∙ up)),
                ))
                (λ z g k. yptr_same z k) s')
        | inr e ↦
            let at : (first == p) ≡ false = ground arith in
            let later = Siblings-remove_links q x (r.optr x) xs u (ground arith) fresh s in
            let step : (remove_links p r).optr x ≡ (if r.optr x == p then r.optr p else r.optr x) =
              elim (Siblings-yptr r q x (r.optr x) p xs s (ground arith)) [
                | inl (f, g) ↦
                    let on : (r.optr x == p) ≡ true = ground arith in
                    rw on (optr_younger x (sym g) b)
                | inr (f, g) ↦
                    let past : (r.optr x == p) ≡ false = ground arith in
                    rw past (optr_same x (λ k. queued-ne (r.yptr p) x xs g fresh (sym k)))
              ] in
            let off : x ≢ r.optr p = elim (Siblings-optr r q x (r.optr x) p xs s (ground arith)) [
              | inl f ↦ λ k. b (k ∙ f)
              | inr f ↦ λ k. queued-ne (r.optr p) x xs f fresh (sym k)
            ] in
            rw (e, at) (a, b, parent_same x ∙ c, yptr_same x off ∙ d, rw step later)
      ]

remove_links-parent :
    (p : ℕ) (r : Relations) (xs : List ℕ)
    → IsFamily r (r.parent p) xs
    → queued p xs ≡ true
    → IsFamily (remove_links p r) (r.parent p) (unlink p xs)
remove_links-parent p r xs v h =
    let q = r.parent p in
    let loose = Siblings-optr_ne r q 0 (r.cptr q) p xs v.unique v.chain h in
    let chain =
      Siblings-remove_links p r loose q 0 (r.cptr q) xs v.unique h
        (Siblings-queued_zero r q 0 (r.cptr q) xs v.chain) v.chain in
    record {
      chain = rw (youngest loose (Siblings-yptr r q 0 (r.cptr q) p xs v.chain h)) chain;
      unique = Unique-unlink p xs v.unique;
    }
  where
    youngest :
        r.optr p ≢ p
        → ((r.cptr (r.parent p) ≡ p) × (r.yptr p ≡ 0))
          ⊎ ((r.cptr (r.parent p) ≢ p) × (queued (r.yptr p) xs ≡ true))
        → (remove_links p r).cptr (r.parent p)
          ≡ (if r.cptr (r.parent p) == p then r.optr p else r.cptr (r.parent p))
    youngest loose (inl (f, g)) =
        let on : (r.cptr (r.parent p) == p) ≡ true = ground arith in rw on (cptr_first p r loose g)
    youngest loose (inr (f, g)) =
        let off : (r.cptr (r.parent p) == p) ≡ false = ground arith in
        rw off (
          cptr_later p r loose (r.parent p) (
            queued-ne (r.yptr p) 0 xs g
              (Siblings-queued_zero r (r.parent p) 0 (r.cptr (r.parent p)) xs v.chain)))

-- A pointer that is NULL or leads to a child of one process leads to no child of another.
foreign :
    (r : Relations) (q q' a x : ℕ) (xs ys : List ℕ)
    → IsFamily r q xs
    → IsFamily r q' ys
    → q' ≢ q
    → (a ≡ 0) ⊎ (queued a xs ≡ true)
    → queued x ys ≡ true
    → x ≢ a
foreign r q q' a x xs ys v w apart (inl e) h =
    λ g. (Siblings-parent r q' 0 (r.cptr q') x ys w.chain h).1 (g ∙ e)
foreign r q q' a x xs ys v w apart (inr e) h = λ g. apart (
    sym (Siblings-parent r q' 0 (r.cptr q') x ys w.chain h).0
    ∙ ap r.parent g
    ∙ (Siblings-parent r q 0 (r.cptr q) a xs v.chain e).0)

remove_links-others :
    (p q : ℕ) (r : Relations) (xs ys : List ℕ)
    → IsFamily r (r.parent p) xs
    → IsFamily r q ys
    → queued p xs ≡ true
    → q ≢ r.parent p
    → IsFamily (remove_links p r) q ys
remove_links-others p q r xs ys v w h apart =
    let c = r.parent p in
    let loose = Siblings-optr_ne r c 0 (r.cptr c) p xs v.unique v.chain h in
    let younger : (r.yptr p ≡ 0) ⊎ (queued (r.yptr p) xs ≡ true) =
      elim (Siblings-yptr r c 0 (r.cptr c) p xs v.chain h) [
        | inl (f, g) ↦ inl g
        | inr (f, g) ↦ inr g
      ] in
    let older = Siblings-optr r c 0 (r.cptr c) p xs v.chain h in
    record {
      chain = rw (cptr_other p r loose q apart) (
          Siblings-same r (remove_links p r) q 0 (r.cptr q) ys
            (λ x g. (
              parent_same p r loose x,
              yptr_same p r loose x (foreign r c q (r.optr p) x xs ys v w apart older g),
              optr_same p r loose x (foreign r c q (r.yptr p) x xs ys v w apart younger g),
            ))
            w.chain);
      unique = w.unique;
    }

-- `remove_links` of a child takes it out of its parent's family, wherever it stands among its
-- siblings, and keeps every other family.
pub remove_links-IsFamily :
    (p q : ℕ) (r : Relations) (family : ℕ → List ℕ)
    → ((x : ℕ) → IsFamily r x (family x))
    → queued p (family (r.parent p)) ≡ true
    → IsFamily (remove_links p r) q (if q == r.parent p then unlink p (family q) else family q)
remove_links-IsFamily p q r family v h = elim (Bool-cases (q == r.parent p)) [
  | inl e ↦
      let same : r.parent p ≡ q = ground arith in
      rw e (
        subst (λ x. IsFamily (remove_links p r) x (unlink p (family x))) same
          (remove_links-parent p r (family (r.parent p)) (v (r.parent p)) h))
  | inr e ↦ rw e (
      remove_links-others p q r (family (r.parent p)) (family q) (v (r.parent p)) (v q) h
        (ground arith))
]
