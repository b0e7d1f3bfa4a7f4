-- ===== src/Vmm/Map.antt =====
-- `mm_map` of vmm.c.
use os_experiment.Prelude.{
  ℕ, ◌+◌, ◌%◌, ◌^◌, ◌≡◌, refl, sym, ◌∙◌, Bool, true, ◌&&◌, none, some, ltb, leb, if◌then◌else◌,
  arith, Bool-cases, Option-cases, inl, inr,
}
use os_experiment.Vmm.{
  Vma, Mm, find_listed, find_cached, find_vma, user_access, round_down, round_up, mm_map,
}
use os_experiment.Vmm.Sorted.{apart_all}
use os_experiment.Vmm.Areas.{IsMm, find_cached-IsCached, with_area, insert_vma_struct-IsMm}

-- The pages of `len` bytes from `addr` on, as an area.
abbrev pub asked : ℕ → ℕ → ℕ → Vma
asked addr len flags = record {
  vm_start = round_down addr;
  vm_end = round_up ((addr + len) % 2 ^ 64);
  vm_flags = flags;
}

find_vma-none :
    (mm : Mm) (addr : ℕ)
    → IsMm mm
    → find_listed mm.mmap_list addr ≡ none
    → find_vma mm addr ≡ (none, mm)
unfolding find_vma
find_vma-none mm addr w e = elim (Option-cases (find_cached mm.mmap_cache addr)) [
  | inl miss ↦ rw (find_vma, miss, e) refl
  | inr (v, hit) ↦
      let (listed, _) = find_cached-IsCached mm.mmap_cache mm.mmap_list addr v w.cached hit in
      let clash : none ≡ some v = sym e ∙ listed in absurd (ground arith)
]

-- With memory, and a user range whose first page no area holds, `mm_map` maps the range exactly where
-- it is apart from every area; where it reaches into an area further on, an assertion fails.
pub mm_map-free :
    (addr len flags : ℕ) (mm : Mm)
    → IsMm mm
    → user_access (asked addr len flags).vm_start (asked addr len flags).vm_end ≡ true
    → find_listed mm.mmap_list (asked addr len flags).vm_start ≡ none
    → mm_map true addr len flags mm ≡ (
        if apart_all (asked addr len flags) mm.mmap_list
        then some (none, with_area (asked addr len flags) mm)
        else none)
unfolding mm_map
mm_map-free addr len flags mm w user free =
    let room : ltb (asked addr len flags).vm_start (asked addr len flags).vm_end ≡ true =
      nonempty (leb 2097152 (round_down addr))
        (ltb (asked addr len flags).vm_start (asked addr len flags).vm_end)
        (leb (asked addr len flags).vm_end 2147483648) user in
    rw
      (
        mm_map,
        user,
        find_vma-none mm (round_down addr) w free,
        insert_vma_struct-IsMm (asked addr len flags) mm w,
        room,
      )
      (elim (Bool-cases (apart_all (asked addr len flags) mm.mmap_list)) [
        | inl f ↦ rw f refl
        | inr f ↦ rw f refl
      ])
  where
    nonempty : (a b c : Bool) → (a && b && c) ≡ true → b ≡ true
    nonempty a b c e = ground arith
