-- ===== src/Vmm.antt =====
-- The virtual memory areas of a process, lab8/kern/mm/vmm.c. `none` is a failed `assert`.
pub mod Sorted
pub mod Areas
pub mod Map
pub mod Check
pub mod Allow
use os_experiment.Prelude.{
  ℕ, zero, suc, ◌+◌, ◌-◌, ◌%◌, ◌/◌, ◌^◌, Bool, true, false, not, ◌&&◌, Option, none, some, List, [],
  ◌∷◌, ltb, leb, ◌==◌, if◌then◌else◌, ◌>>=◌, ◌>>◌, assert,
}

-- `struct vma_struct`: the area [vm_start, vm_end).
pub record Vma : Type 0 where
  pub vm_start : ℕ
  pub vm_end : ℕ
  pub vm_flags : ℕ

-- `struct mm_struct`: the areas in the order of the list, and the area that was found last.
pub record Mm : Type 0 where
  pub mmap_list : List Vma
  pub mmap_cache : Option Vma
  pub map_count : ℕ

-- `mm_create`, where the memory for it is there.
abbrev pub mm_create : Mm
mm_create = record { mmap_list = []; mmap_cache = none; map_count = 0 }

abbrev pub holds : Vma → ℕ → Bool
holds v addr = leb v.vm_start addr && ltb addr v.vm_end

-- The loop of `find_vma`.
unfoldable pub find_listed : List Vma → ℕ → Option Vma
find_listed [] addr = none
find_listed (v ∷ vs) addr = if holds v addr then some v else find_listed vs addr

-- The cached area, if it holds the address.
unfoldable pub find_cached : Option Vma → ℕ → Option Vma
find_cached none addr = none
find_cached (some v) addr = if holds v addr then some v else none

unfoldable pub find_vma : Mm → ℕ → Option Vma × Mm
unfolding find_listed find_cached
find_vma mm addr = elim (find_cached mm.mmap_cache addr) [
  | some v ↦ (some v, record mm { mmap_cache = some v })
  | none ↦ elim (find_listed mm.mmap_list addr) [
    | some v ↦ (some v, record mm { mmap_cache = some v })
    | none ↦ (none, mm)
  ]
]

unfoldable pub check_vma_overlap : Vma → Vma → Option (Unit {0})
check_vma_overlap prev next =
    assert (ltb prev.vm_start prev.vm_end)
    >> assert (leb prev.vm_end next.vm_start)
    >> assert (ltb next.vm_start next.vm_end)

-- The check of the area before the new one, if there is one.
unfoldable pub check_prev : Option Vma → Vma → Option (Unit {0})
unfolding check_vma_overlap
check_prev none v = some tt
check_prev (some p) v = check_vma_overlap p v

-- The walk of `insert_vma_struct` behind the area `prev`, with the checks and the insertion.
unfoldable pub insert_behind : Option Vma → Vma → List Vma → Option (List Vma)
unfolding check_prev check_vma_overlap
insert_behind prev v [] = check_prev prev v >> some (v ∷ [])
insert_behind prev v (x ∷ xs) =
    let rest = insert_behind (some x) v xs in
    if ltb v.vm_start x.vm_start
    then check_prev prev v >> check_vma_overlap v x >> some (v ∷ x ∷ xs)
    else rest >>= λ l. some (x ∷ l)

unfoldable pub insert_vma_struct : Vma → Mm → Option Mm
unfolding insert_behind
insert_vma_struct v mm =
    assert (ltb v.vm_start v.vm_end)
    >> (insert_behind none v mm.mmap_list >>= λ l.
        some (record mm { mmap_list = l; map_count = mm.map_count + 1 }))

pub data MapError : Type 0 where
  e_inval e_no_mem : MapError

abbrev pub page_size : ℕ
page_size = 4096

-- `USER_ACCESS`.
abbrev pub user_access : ℕ → ℕ → Bool
user_access start end = leb 2097152 start && ltb start end && leb end 2147483648

abbrev pub round_down : ℕ → ℕ
round_down a = a - a % page_size

abbrev pub round_up : ℕ → ℕ
round_up a = round_down ((a + page_size - 1) % 2 ^ 64)

-- `find_vma(mm, start) != NULL && end > vma->vm_start`.
abbrev pub reaches : Option Vma → ℕ → Bool
reaches none end = false
reaches (some v) end = ltb v.vm_start end

-- `memory` is whether `vma_create` gets memory. The first result is the error, `none` for 0.
unfoldable pub mm_map : Bool → ℕ → ℕ → ℕ → Mm → Option (Option MapError × Mm)
unfolding insert_vma_struct
mm_map memory addr len flags mm =
    let start = round_down addr in
    let end = round_up ((addr + len) % 2 ^ 64) in
    let (found, mm') = find_vma mm start in
    if not (user_access start end)
    then some (some e_inval, mm)
    else if reaches found end
    then some (some e_inval, mm')
    else if not memory
    then some (some e_no_mem, mm')
    else (insert_vma_struct (record { vm_start = start; vm_end = end; vm_flags = flags }) mm'
        >>= λ m. some (none, m))

-- The test of the flags for VM_WRITE or VM_READ.
abbrev pub permits : Bool → ℕ → Bool
permits write flags = if write then flags / 2 % 2 == 1 else flags % 2 == 1

-- The lowest page of a stack (VM_STACK) is not written.
abbrev pub guarded : Bool → Vma → ℕ → Bool
guarded write v start =
    write && v.vm_flags / 8 % 2 == 1 && ltb start ((v.vm_start + page_size) % 2 ^ 64)

-- The loop of `user_mem_check`. Out of fuel it answers false.
unfoldable pub check_from : ℕ → Bool → ℕ → ℕ → Mm → Bool × Mm
unfolding find_vma
check_from zero write start end mm = (false, mm)
check_from (suc fuel) write start end mm =
    let (found, mm') = find_vma mm start in
    if not (ltb start end) then (true, mm) else elim found [
      | none ↦ (false, mm')
      | some v ↦
          let rest = check_from fuel write v.vm_end end mm' in
          if ltb start v.vm_start
          then (false, mm')
          else if not (permits write v.vm_flags)
          then (false, mm')
          else if guarded write v start
          then (false, mm')
          else rest
    ]

-- `KERN_ACCESS`.
unfoldable pub kern_access : ℕ → ℕ → Bool
kern_access start end =
    leb 0xFFFFFFFFC0200000 start && ltb start end && leb end (0xFFFFFFFFC0200000 + 0x7E00000)

-- `user_mem_check`, where `none` is a NULL memory space, that of a kernel thread. Every round of its
-- loop goes on to the end of another area.
unfoldable pub user_mem_check : ℕ → Bool → ℕ → ℕ → Option Mm → Bool × Option Mm
unfolding check_from kern_access
user_mem_check fuel write addr len none = (kern_access addr ((addr + len) % 2 ^ 64), none)
user_mem_check fuel write addr len (some mm) =
    let end = (addr + len) % 2 ^ 64 in
    let (allowed, mm') = check_from fuel write addr end mm in
    if user_access addr end then (allowed, some mm') else (false, some mm)
