-- ===== src/Vmm/Allow.antt =====
-- What `user_mem_check` of vmm.c allows, and that its loop has fuel enough.
use os_experiment.Prelude.{
  ℕ, zero, suc, ◌+◌, ◌%◌, ◌^◌, ◌≤◌, ◌<◌, ◌≡◌, refl, ap, Bool, true, false, Option, none, some, List,
  [], ◌∷◌, ltb, if◌then◌else◌, arith, Bool-cases, Option-cases, inl, inr, some-injective, length,
}
use os_experiment.Vmm.{
  Vma, Mm, holds, find_listed, find_vma, user_access, kern_access, permits, check_from,
  user_mem_check,
}
use os_experiment.Vmm.Areas.{IsMm, find_vma-IsMm, find_listed-start}
use os_experiment.Vmm.Check.{granted, check_from-some, check_from-granted}

-- The number of areas that end behind an address.
unfoldable remaining : ℕ → List Vma → ℕ
remaining a [] = 0
remaining a (v ∷ vs) = (if ltb a v.vm_end then 1 else 0) + remaining a vs

remaining_mono : (a b : ℕ) (l : List Vma) → a ≤ b → remaining b l ≤ remaining a l
unfolding remaining
remaining_mono a b [] o = omega arith
remaining_mono a b (v ∷ vs) o = grind (arith, remaining_mono a b vs o)

remaining-length : (a : ℕ) (l : List Vma) → remaining a l ≤ length l
unfolding remaining
remaining-length a [] = omega arith
remaining-length a (v ∷ vs) = grind (arith, remaining-length a vs)

remaining-find_listed :
    (a : ℕ) (v : Vma) (l : List Vma)
    → holds v a ≡ true
    → find_listed l a ≡ some v
    → remaining v.vm_end l < remaining a l
unfolding remaining find_listed
remaining-find_listed a v [] held e = absurd (ground arith)
remaining-find_listed a v (x ∷ xs) held e = elim (Bool-cases (holds x a)) [
  | inl h ↦
      let same : x ≡ v = some-injective (rw h at e) in
      let ends : x.vm_end ≡ v.vm_end = ap (λ u. u.vm_end) same in
      let fewer = remaining_mono a v.vm_end xs (ground arith) in grind (arith, ends, fewer)
  | inr h ↦ let later = remaining-find_listed a v xs held (rw h at e) in grind (arith, later)
]

-- Where every address of the range may be read and there is fuel for the areas that are left, the
-- loop answers true.
check_from_complete :
    (fuel start end : ℕ) (mm : Mm)
    → IsMm mm
    → remaining start mm.mmap_list < fuel
    → ((a : ℕ) → start ≤ a → a < end → granted false mm.mmap_list a ≡ true)
    → (check_from fuel false start end mm).0 ≡ true
unfolding check_from
check_from_complete zero start end mm w room all = absurd (omega arith)
check_from_complete (suc fuel) start end mm w room all = elim (Bool-cases (ltb start end)) [
  | inr done ↦ rw (check_from, done) refl
  | inl going ↦ elim (Option-cases (find_listed mm.mmap_list start)) [
    | inl e ↦
        let here : granted false mm.mmap_list start ≡ true =
          all start (omega arith) (ground arith) in
        absurd (clash (rw e at here))
    | inr (v, e) ↦
        let (_, held) = find_listed-start 0 start v mm.mmap_list w.sorted e in
        let here : granted false mm.mmap_list start ≡ true =
          all start (omega arith) (ground arith) in
        let (_, same, w') = find_vma-IsMm mm start w in
        let fewer = remaining-find_listed start v mm.mmap_list held e in
        let rest =
          check_from_complete fuel v.vm_end end ((find_vma mm start).1) w' (rw same (omega arith))
            (λ a from below. rw same (all a (ground arith) below)) in
        rw (check_from-some fuel false start end mm v w (ground arith) e, rest)
          (let p : permits false v.vm_flags ≡ true = (rw e at here) in rw p refl)
  ]
]
  where
    clash : false ≡ true → ⊥
    clash e = ground arith

-- What a process may access of a memory space at an address: what an area of it permits, in user
-- memory, or the kernel's own memory where there is no memory space.
abbrev pub Allowed : Option Mm → Bool → ℕ → Type 0
Allowed none write a = (0xFFFFFFFFC0200000 ≤ a) × (a < 0xFFFFFFFFC8000000)
Allowed (some mm) write a = (granted write mm.mmap_list a ≡ true) × (2097152 ≤ a) × (a < 2147483648)

abbrev pub IsMms : Option Mm → Type 0
IsMms none = Unit
IsMms (some mm) = IsMm mm

-- What `user_mem_check` allows is, for a process with a memory space whose areas are sorted and
-- apart and whose cache is one of them, user memory where at every address an area permits the
-- access, and for a kernel thread, without a memory space, the memory of the kernel. The range is
-- not empty.
pub user_mem_check-granted :
    (fuel : ℕ) (write : Bool) (addr len a : ℕ) (space : Option Mm)
    → IsMms space
    → (user_mem_check fuel write addr len space).0 ≡ true
    → addr ≤ a
    → a < (addr + len) % 2 ^ 64
    → Allowed space write a
unfolding user_mem_check kern_access
user_mem_check-granted fuel write addr len a none w answer from below = (ground arith, ground arith)
user_mem_check-granted fuel write addr len a (some mm) w answer from below =
    elim (Bool-cases (user_access addr ((addr + len) % 2 ^ 64))) [
      | inl user ↦ (
        check_from-granted fuel write addr ((addr + len) % 2 ^ 64) a mm w (rw user at answer) from
            below,
        ground arith,
        ground arith,
      )
      | inr out ↦ absurd (ground arith)
    ]

-- On areas in order and with more fuel than areas, `user_mem_check` allows reading every user range
-- whose addresses may all be read.
pub user_mem_check_complete :
    (fuel addr len : ℕ) (mm : Mm)
    → IsMm mm
    → length mm.mmap_list < fuel
    → user_access addr ((addr + len) % 2 ^ 64) ≡ true
    → ((a : ℕ) → addr ≤ a → a < (addr + len) % 2 ^ 64 → granted false mm.mmap_list a ≡ true)
    → (user_mem_check fuel false addr len (some mm)).0 ≡ true
unfolding user_mem_check
user_mem_check_complete fuel addr len mm w room user all =
    let enough = remaining-length addr mm.mmap_list in
    rw (user_mem_check, user)
      (check_from_complete fuel addr ((addr + len) % 2 ^ 64) mm w (omega arith) all)
