-- ===== src/Process/Orphans.antt =====
-- The children that `do_exit` of proc.c gives to the first process.
use os_experiment.Prelude.{
  ℕ, ◌≡◌, ◌≢◌, refl, true, false, List, ◌∷◌, arith, Bool-cases, inl, inr, ap, sym, ◌⊎◌, ◌∙◌,
}
use os_experiment.Sched.State.{queued}
use os_experiment.Sched.Queue.{Unique}
use os_experiment.Process.Links.{Relations, give_child}
use os_experiment.Process.Family.{
  Siblings, IsFamily, Siblings-same, Siblings-younger, Siblings-first, Siblings-parent,
}
use os_experiment.Process.Leave.{queued-ne}

-- The children of `p` while the loop runs: the youngest may still point to one that is gone.
pub record IsLeaving (r : Relations) (p : ℕ) (xs : List ℕ) : Type 0 where
  pub younger : ℕ
  pub chain : Siblings r p younger (r.cptr p) xs
  pub unique : Unique xs

module _ (init p : ℕ) (r : Relations) (c : ℕ) (cs ds : List ℕ) (v : IsLeaving r p (c ∷ cs))
    (w : IsFamily r init ds) (apart : p ≢ init) where
  child : r.cptr p ≡ c
  child = v.chain.0

  c_not_zero : c ≢ 0
  c_not_zero = v.chain.1

  -- No child of the first process is `c`, and no child of `p` is the first one's youngest.
  ds_ne : (x : ℕ) → queued x ds ≡ true → x ≢ c
  ds_ne x h e = apart (
      sym v.chain.2
      ∙ ap r.parent (sym e)
      ∙ (Siblings-parent r init 0 (r.cptr init) x ds w.chain h).0)

  cs_ne : (x : ℕ) → queued x cs ≡ true → x ≢ c
  cs_ne x h = queued-ne x c cs h v.unique.0

  older_ne : (q x : ℕ) → r.parent x ≡ q → x ≢ 0 → q ≢ init → x ≢ r.cptr init
  older_ne q x e nn away g = elim (Siblings-first r init 0 (r.cptr init) ds w.chain) [
    | inl f ↦ nn (g ∙ f)
    | inr f ↦ away (
        sym e
        ∙ ap r.parent g
        ∙ (Siblings-parent r init 0 (r.cptr init) (r.cptr init) ds w.chain f).0)
  ]

  c_older : c ≢ r.cptr init
  c_older = older_ne p c v.chain.2 c_not_zero apart

  -- The pointers after one round.
  cptr_p : (give_child init p r).cptr p ≡ r.optr c
  unfolding give_child
  cptr_p = ground (arith, child)

  cptr_init : (give_child init p r).cptr init ≡ c
  unfolding give_child
  cptr_init = ground (arith, child)

  cptr_other : (q : ℕ) → q ≢ p → q ≢ init → (give_child init p r).cptr q ≡ r.cptr q
  unfolding give_child
  cptr_other q np ni = ground (arith, child)

  parent_c : (give_child init p r).parent c ≡ init
  unfolding give_child
  parent_c = ground (arith, child)

  parent_other : (x : ℕ) → x ≢ c → (give_child init p r).parent x ≡ r.parent x
  unfolding give_child
  parent_other x h = ground (arith, child)

  optr_c : (give_child init p r).optr c ≡ r.cptr init
  unfolding give_child
  optr_c = ground (arith, child)

  optr_other : (x : ℕ) → x ≢ c → (give_child init p r).optr x ≡ r.optr x
  unfolding give_child
  optr_other x h = ground (arith, child)

  yptr_c : (give_child init p r).yptr c ≡ 0
  unfolding give_child
  yptr_c = ground (arith, child, c_older)

  yptr_older : r.cptr init ≢ 0 → (give_child init p r).yptr (r.cptr init) ≡ c
  unfolding give_child
  yptr_older h = ground (arith, child)

  yptr_other : (x : ℕ) → x ≢ c → x ≢ r.cptr init → (give_child init p r).yptr x ≡ r.yptr x
  unfolding give_child
  yptr_other x h g = ground (arith, child)

  pub give_child-IsLeaving : IsLeaving (give_child init p r) p cs
  give_child-IsLeaving = record {
    younger = c;
    chain = rw cptr_p (
        Siblings-same r (give_child init p r) p c (r.optr c) cs
          (λ x h.
            let own = Siblings-parent r p c (r.optr c) x cs v.chain.4 h in
            let far = older_ne p x own.0 own.1 apart in
            (parent_other x (cs_ne x h), yptr_other x (cs_ne x h) far, optr_other x (cs_ne x h)))
          v.chain.4);
    unique = v.unique.1;
  }

  pub give_child-IsFamily : IsFamily (give_child init p r) init (c ∷ ds)
  give_child-IsFamily = record {
    chain = (
      cptr_init,
      c_not_zero,
      parent_c,
      yptr_c,
      rw optr_c (
          Siblings-younger r (give_child init p r) init 0 c (r.cptr init) ds w.unique yptr_older
            (λ x h. (parent_other x (ds_ne x h), optr_other x (ds_ne x h)))
            (λ x h g. yptr_other x (ds_ne x h) g) w.chain),
    );
    unique = (fresh (Bool-cases (queued c ds)), w.unique);
  }
    where
      fresh : (queued c ds ≡ true) ⊎ (queued c ds ≡ false) → queued c ds ≡ false
      fresh (inl h) = absurd (ds_ne c h refl)
      fresh (inr h) = h

  pub give_child-others :
      (q : ℕ) (ys : List ℕ)
      → IsFamily r q ys
      → q ≢ p
      → q ≢ init
      → IsFamily (give_child init p r) q ys
  give_child-others q ys u np ni = record {
    chain = rw (cptr_other q np ni) (
        Siblings-same r (give_child init p r) q 0 (r.cptr q) ys
          (λ x h.
            let own = Siblings-parent r q 0 (r.cptr q) x ys u.chain h in
            let off : x ≢ c = λ g. np (sym own.0 ∙ ap r.parent g ∙ v.chain.2) in
            (parent_other x off, yptr_other x off (older_ne q x own.0 own.1 ni), optr_other x off))
          u.chain);
    unique = u.unique;
  }
