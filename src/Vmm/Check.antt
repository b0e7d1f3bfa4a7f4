-- ===== src/Vmm/Check.antt =====
-- `user_mem_check` of vmm.c.
use os_experiment.Prelude.{
  ℕ, zero, suc, ◌≤◌, ◌<◌, ◌≡◌, refl, sym, ◌∙◌, Bool, true, false, not, ◌&&◌, Option, none, some,
  List, ltb, arith, Bool-cases, Option-cases, inl, inr,
}
use os_experiment.Vmm.{Vma, Mm, holds, find_listed, find_vma, permits, guarded, check_from}
use os_experiment.Vmm.Sorted.{IsSortedFrom}
use os_experiment.Vmm.Areas.{IsMm, find_vma-IsMm, find_listed-start, find_listed-IsCached}

abbrev pub permitted : Bool → Option Vma → Bool
permitted write none = false
permitted write (some v) = permits write v.vm_flags

-- An area holds the address and permits the access.
abbrev pub granted : Bool → List Vma → ℕ → Bool
granted write l a = permitted write (find_listed l a)

first_of_three : (a b c : Bool) → (a && b && c) ≡ true → a ≡ true
first_of_three a b c e = ground arith

last_of_three : (a b c : Bool) → (a && b && c) ≡ true → c ≡ true
last_of_three a b c e = ground arith

-- One round of the loop where an area holds the address.
pub check_from-some :
    (fuel : ℕ) (write : Bool) (start end : ℕ) (mm : Mm) (v : Vma)
    → IsMm mm
    → start < end
    → find_listed mm.mmap_list start ≡ some v
    → (check_from (suc fuel) write start end mm).0 ≡ (
        permits write v.vm_flags
        && not (guarded write v start)
        && (check_from fuel write v.vm_end end ((find_vma mm start).1)).0)
unfolding check_from
check_from-some fuel write start end mm v w room e =
    let (_, held) = find_listed-start 0 start v mm.mmap_list w.sorted e in
    let inside : ltb start v.vm_start ≡ false = ground arith in
    let going : ltb start end ≡ true = ground arith in
    rw (check_from, going, (find_vma-IsMm mm start w).0 ∙ e, inside)
      (elim (Bool-cases (permits write v.vm_flags)) [
        | inl p ↦
            rw p
              (elim (Bool-cases (guarded write v start)) [ inl g ↦ rw g refl | inr g ↦ rw g refl ])
        | inr p ↦ rw p refl
      ])

check_from-none :
    (fuel : ℕ) (write : Bool) (start end : ℕ) (mm : Mm)
    → IsMm mm
    → start < end
    → find_listed mm.mmap_list start ≡ none
    → (check_from (suc fuel) write start end mm).0 ≡ false
unfolding check_from
check_from-none fuel write start end mm w room e =
    let going : ltb start end ≡ true = ground arith in
    rw (check_from, going, (find_vma-IsMm mm start w).0 ∙ e) refl

-- An area that holds `start` and permits grants every address from `start` to its end.
granted-holds :
    (write : Bool) (start a : ℕ) (v : Vma) (l : List Vma)
    → IsSortedFrom 0 l
    → find_listed l start ≡ some v
    → permits write v.vm_flags ≡ true
    → start ≤ a
    → a < v.vm_end
    → granted write l a ≡ true
granted-holds write start a v l s e p from below =
    let (_, held) = find_listed-start 0 start v l s e in
    let held' : holds v a ≡ true = ground arith in
    rw (find_listed-IsCached 0 start v l s e a held') p

pub check_from-granted :
    (fuel : ℕ) (write : Bool) (start end a : ℕ) (mm : Mm)
    → IsMm mm
    → (check_from fuel write start end mm).0 ≡ true
    → start ≤ a
    → a < end
    → granted write mm.mmap_list a ≡ true
unfolding check_from
check_from-granted zero write start end a mm w answer from below = absurd (ground arith)
check_from-granted (suc fuel) write start end a mm w answer from below =
    elim (Option-cases (find_listed mm.mmap_list start)) [
      | inl e ↦ absurd (ground (arith, check_from-none fuel write start end mm w (omega arith) e))
      | inr (v, e) ↦
          let round = sym (check_from-some fuel write start end mm v w (omega arith) e) ∙ answer in
          let mm' = (find_vma mm start).1 in
          let permit : permits write v.vm_flags ≡ true =
            first_of_three (permits write v.vm_flags) (not (guarded write v start))
              ((check_from fuel write v.vm_end end mm').0) round in
          let rest : (check_from fuel write v.vm_end end mm').0 ≡ true =
            last_of_three (permits write v.vm_flags) (not (guarded write v start))
              ((check_from fuel write v.vm_end end mm').0) round in
          elim (Bool-cases (ltb a v.vm_end)) [
            | inl here ↦
                granted-holds write start a v mm.mmap_list w.sorted e permit from (ground arith)
            | inr there ↦ rw ((find_vma-IsMm mm start w).1) at (
                check_from-granted fuel write v.vm_end end a mm' ((find_vma-IsMm mm start w).2) rest
                  (ground arith) below)
          ]
    ]
