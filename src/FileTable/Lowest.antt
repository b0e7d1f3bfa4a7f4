-- ===== src/FileTable/Lowest.antt =====
-- The lowest unused entry of the open-files table, which `fd_array_alloc` of file.c claims.
use os_experiment.Prelude.{
  ℕ, zero, suc, ◌+◌, ◌<◌, ◌≡◌, ◌≢◌, refl, true, none, some, List, [], ◌∷◌, get_elem?, set, ◌∙◌, ap,
  Bool-cases, inl, inr, arith, some-injective,
}
use os_experiment.FileTable.State.{
  Status, unused, fresh, opened, closed, is_unused, ok, File, no_fd,
}
use os_experiment.FileTable.{first_unused, claim, fd_array_alloc}

-- The entry `i` is the lowest unused one, it carries its own number, and nothing counts it.
pub record IsLowest (t : List File) (i : ℕ) (f : File) : Type 0 where
  pub entry : get_elem? t i ≡ some f
  pub free : f.status ≡ unused
  pub lowest : (j : ℕ) (g : File) → j < i → get_elem? t j ≡ some g → g.status ≢ unused
  pub fd : f.fd ≡ i
  pub idle : f.open_count ≡ 0

is_unused-only : (x : Status) → is_unused x ≡ true → x ≡ unused
is_unused-only unused h = refl
is_unused-only fresh h = absurd (ground arith)
is_unused-only opened h = absurd (ground arith)
is_unused-only closed h = absurd (ground arith)

first_unused-lowest :
    (t : List File) (i k : ℕ) (f : File)
    → get_elem? t i ≡ some f
    → f.status ≡ unused
    → ((j : ℕ) (g : File) → j < i → get_elem? t j ≡ some g → g.status ≢ unused)
    → first_unused t k ≡ some (k + i)
unfolding first_unused
first_unused-lowest [] i k f e free low = absurd (ground arith)
first_unused-lowest (g ∷ t) zero k f e free low =
    let same : g ≡ f = some-injective e in
    let here : is_unused g.status ≡ true =
      ap (λ (x : File). is_unused x.status) same ∙ rw free refl in
    rw here (ap some (omega arith))
first_unused-lowest (g ∷ t) (suc i) k f e free low = elim (Bool-cases (is_unused g.status)) [
  | inl h ↦ absurd (low 0 g (omega arith) refl (is_unused-only g.status h))
  | inr h ↦ rw h (
      first_unused-lowest t i (k + 1) f e free (λ j x l at. low (suc j) x (omega arith) at)
      ∙ ap some (omega arith))
]

pub fd_array_alloc-IsLowest :
    (t : List File) (i : ℕ) (f : File)
    → IsLowest t i f
    → fd_array_alloc no_fd t ≡ some (ok i, set t i (record f { status = fresh; node = none }))
unfolding fd_array_alloc claim
fd_array_alloc-IsLowest t i f o =
    let first : first_unused t 0 ≡ some i =
      first_unused-lowest t i 0 f o.entry o.free o.lowest ∙ ap some (omega arith) in
    rw (fd_array_alloc, first, o.entry, o.idle) refl
