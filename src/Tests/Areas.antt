-- ===== src/Tests/Areas.antt =====
-- Virtual memory areas on small inputs.
use os_experiment.Prelude.{
  ℕ, ◌≤◌, ◌<◌, ◌≡◌, refl, ◌&&◌, true, false, none, some, [], ◌∷◌, arith, if◌then◌else◌,
}
use os_experiment.Vmm.{
  Vma, Mm, find_listed, find_cached, find_vma, insert_vma_struct, mm_map, user_mem_check,
  check_from,
}
use os_experiment.Vmm.Sorted.{apart_all}
use os_experiment.Vmm.Areas.{IsMm, find_vma-IsMm, with_area, insert_vma_struct-IsMm}
use os_experiment.Vmm.Map.{mm_map-free}
use os_experiment.Vmm.Allow.{user_mem_check-granted, user_mem_check_complete}
use os_experiment.Vmm.Check.{granted}

abbrev text : Vma
text = record { vm_start = 8388608; vm_end = 8396800; vm_flags = 5 }

abbrev heap : Vma
heap = record { vm_start = 9437184; vm_end = 9441280; vm_flags = 3 }

abbrev middle : Vma
middle = record { vm_start = 8912896; vm_end = 8916992; vm_flags = 3 }

abbrev two_areas : Mm
two_areas = record { mmap_list = text ∷ heap ∷ []; mmap_cache = none; map_count = 2 }

two_areas-IsMm : IsMm two_areas
two_areas-IsMm = record {
  sorted = ((omega arith), (omega arith), ((omega arith), (omega arith), tt));
  cached = tt;
}

find_vma-IsMm_example :
    ((find_vma two_areas 9437190).0 ≡ find_listed (text ∷ heap ∷ []) 9437190)
    × ((find_vma two_areas 9437190).1.mmap_list ≡ text ∷ heap ∷ [])
    × IsMm ((find_vma two_areas 9437190).1)
find_vma-IsMm_example = find_vma-IsMm two_areas 9437190 two_areas-IsMm

insert_vma_struct-IsMm_example : insert_vma_struct middle two_areas ≡ (
    if true && apart_all middle (text ∷ heap ∷ []) then some (with_area middle two_areas) else none)
insert_vma_struct-IsMm_example = insert_vma_struct-IsMm middle two_areas two_areas-IsMm

middle_apart : apart_all middle (text ∷ heap ∷ []) ≡ true
unfolding apart_all
middle_apart = refl

-- Two pages from the page before the heap on.
unheld : find_listed (text ∷ heap ∷ []) 9433088 ≡ none
unfolding find_listed
unheld = refl

mm_map-free_example : mm_map true 9433088 8192 3 two_areas ≡ (
    if apart_all (record { vm_start = 9433088; vm_end = 9441280; vm_flags = 3 }) (text ∷ heap ∷ [])
    then some
        (none, with_area (record { vm_start = 9433088; vm_end = 9441280; vm_flags = 3 }) two_areas)
    else none)
mm_map-free_example = mm_map-free 9433088 8192 3 two_areas two_areas-IsMm refl unheld

overlap_fails : mm_map true 9433088 8192 3 two_areas ≡ none
unfolding mm_map find_vma find_listed find_cached insert_vma_struct
overlap_fails = refl

text_readable : (a : ℕ) → 8388608 ≤ a → a < 8392704 → granted false two_areas.mmap_list a ≡ true
unfolding find_listed
text_readable a from below = ground arith

user_mem_check_complete_example : (user_mem_check 3 false 8388608 4096 (some two_areas)).0 ≡ true
user_mem_check_complete_example =
    user_mem_check_complete 3 8388608 4096 two_areas two_areas-IsMm (omega arith) refl text_readable

text_checked : (user_mem_check 3 false 8388608 4096 (some two_areas)).0 ≡ true
unfolding user_mem_check check_from find_vma find_listed find_cached
text_checked = refl

user_mem_check-granted_example :
    (granted false two_areas.mmap_list 8388700 ≡ true)
    × (2097152 ≤ 8388700)
    × (8388700 < 2147483648)
user_mem_check-granted_example =
    user_mem_check-granted 3 false 8388608 4096 8388700 (some two_areas) two_areas-IsMm text_checked
      (omega arith) (omega arith)
