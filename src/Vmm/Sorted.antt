-- ===== src/Vmm/Sorted.antt =====
-- Areas in order, each behind the end of the one before: what `insert_vma_struct` of vmm.c keeps.
use os_experiment.Prelude.{
  ℕ, ◌≤◌, ◌<◌, ◌≡◌, refl, Bool, true, ◌&&◌, ◌||◌, none, some, List, [], ◌∷◌, ltb, leb,
  if◌then◌else◌, arith, Bool-cases, inl, inr,
}
use os_experiment.Vmm.{Vma, holds, find_listed, check_vma_overlap, check_prev, insert_behind}

-- From `low` on.
abbrev pub IsSortedFrom : ℕ → List Vma → Type 0
IsSortedFrom low [] = Unit
IsSortedFrom low (v ∷ vs) = (low ≤ v.vm_start) × (v.vm_start < v.vm_end) × IsSortedFrom v.vm_end vs

abbrev pub apart : Vma → Vma → Bool
apart v w = leb v.vm_end w.vm_start || leb w.vm_end v.vm_start

unfoldable pub apart_all : Vma → List Vma → Bool
apart_all v [] = true
apart_all v (w ∷ ws) = apart v w && apart_all v ws

-- The list with `v` at its place.
unfoldable pub insert_sorted : Vma → List Vma → List Vma
insert_sorted v [] = v ∷ []
insert_sorted v (x ∷ xs) = if ltb v.vm_start x.vm_start then v ∷ x ∷ xs else x ∷ insert_sorted v xs

apart_all-above :
    (v : Vma) (low : ℕ) (l : List Vma) → IsSortedFrom low l → v.vm_end ≤ low → apart_all v l ≡ true
unfolding apart_all
apart_all-above v low [] s b = refl
apart_all-above v low (x ∷ xs) (above, room, s) b =
    grind (arith, apart_all-above v x.vm_end xs s (omega arith))

insert_behind-some :
    (p v : Vma) (l : List Vma)
    → p.vm_start < p.vm_end
    → p.vm_start ≤ v.vm_start
    → v.vm_start < v.vm_end
    → IsSortedFrom p.vm_end l
    → insert_behind (some p) v l
      ≡ (if leb p.vm_end v.vm_start && apart_all v l then some (insert_sorted v l) else none)
unfolding insert_behind check_prev check_vma_overlap apart_all insert_sorted
insert_behind-some p v [] room behind full s = ground arith
insert_behind-some p v (x ∷ xs) room behind full (above, roomx, s) =
    elim (Bool-cases (ltb v.vm_start x.vm_start)) [
      | inl e ↦ rw e (elim (Bool-cases (leb v.vm_end x.vm_start)) [
        | inl f ↦ rw f (rw (apart_all-above v x.vm_end xs s (ground arith)) (ground arith))
        | inr f ↦ rw f (ground arith)
      ])
      | inr e ↦ rw (e, insert_behind-some x v xs roomx (ground arith) full s) (ground arith)
    ]

-- Inserting an area that is not empty into a list in order succeeds exactly where it is apart from
-- every area of the list, and puts it at its place.
pub insert_behind-none :
    (v : Vma) (low : ℕ) (l : List Vma)
    → v.vm_start < v.vm_end
    → IsSortedFrom low l
    → insert_behind none v l ≡ (if apart_all v l then some (insert_sorted v l) else none)
unfolding insert_behind check_prev check_vma_overlap apart_all insert_sorted
insert_behind-none v low [] full s = refl
insert_behind-none v low (x ∷ xs) full (above, room, s) =
    elim (Bool-cases (ltb v.vm_start x.vm_start)) [
      | inl e ↦ rw e (elim (Bool-cases (leb v.vm_end x.vm_start)) [
        | inl f ↦ rw f (rw (apart_all-above v x.vm_end xs s (ground arith)) (ground arith))
        | inr f ↦ rw f (ground arith)
      ])
      | inr e ↦ rw (e, insert_behind-some x v xs room (ground arith) full s) (ground arith)
    ]

pub insert_sorted-IsSortedFrom :
    (v : Vma) (low : ℕ) (l : List Vma)
    → low ≤ v.vm_start
    → v.vm_start < v.vm_end
    → IsSortedFrom low l
    → apart_all v l ≡ true
    → IsSortedFrom low (insert_sorted v l)
unfolding insert_sorted apart_all
insert_sorted-IsSortedFrom v low [] above full s a = (above, full, tt)
insert_sorted-IsSortedFrom v low (x ∷ xs) above full (abovex, room, s) a =
    elim (Bool-cases (ltb v.vm_start x.vm_start)) [
      | inl e ↦ rw e (above, full, ((ground arith), room, s))
      | inr e ↦ rw e (
        abovex,
        room,
        insert_sorted-IsSortedFrom v x.vm_end xs (ground arith) full s (ground arith),
      )
    ]

-- Above all areas from `low` on, no address below `low` is held.
find_listed-below :
    (low addr : ℕ) (l : List Vma) → IsSortedFrom low l → addr < low → find_listed l addr ≡ none
unfolding find_listed
find_listed-below low addr [] s b = refl
find_listed-below low addr (x ∷ xs) (above, room, s) b =
    ground (arith, find_listed-below x.vm_end addr xs s (omega arith))

-- Afterwards an address is found in the new area if that holds it, and else where it was.
pub find_listed-insert_sorted :
    (v : Vma) (low : ℕ) (l : List Vma) (addr : ℕ)
    → v.vm_start < v.vm_end
    → IsSortedFrom low l
    → apart_all v l ≡ true
    → find_listed (insert_sorted v l) addr ≡ (if holds v addr then some v else find_listed l addr)
unfolding insert_sorted apart_all find_listed
find_listed-insert_sorted v low [] addr full s a = refl
find_listed-insert_sorted v low (x ∷ xs) addr full (above, room, s) a =
    elim (Bool-cases (ltb v.vm_start x.vm_start)) [
      | inl e ↦ rw e refl
      | inr e ↦
          rw (e, find_listed-insert_sorted v x.vm_end xs addr full s (ground arith)) (ground arith)
    ]
