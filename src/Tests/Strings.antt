-- ===== src/Tests/Strings.antt =====
-- string.c and printfmt.c on a memory with "ab" at 10 and "ac" at 20.
use os_experiment.Prelude.{
  ℕ, suc, ◌+◌, ◌≡◌, ◌≤◌, ◌<◌, refl, ◌==◌, some, List, [], ◌∷◌, length, if◌then◌else◌, arith, ◌⊎◌,
}
use os_experiment.Text.{Memory, memmove, vsnprintf, printnum, strtol}
use os_experiment.Text.Move.{memmove-copied}
use os_experiment.Text.Strings.{IsString}
use os_experiment.Text.Buffer.{vsnprintf-IsString}
use os_experiment.Text.RoundTrip.{strtol-printnum}

abbrev memory : Memory
memory x =
    if x == 10
    then 97
    else if x == 11
    then 98
    else if x == 20
    then 97
    else if x == 21
    then 99
    else 0

memory_bytes : (x : ℕ) → memory x < 256
memory_bytes x = ground arith

-- two bytes overlap, and the last of the source becomes that of the destination
memmove-copied_example : memmove 11 10 2 memory 12 ≡ 98
memmove-copied_example = memmove-copied 2 11 10 memory 12

-- three characters into a buffer of three bytes leave room for two of them, the second as its low
-- byte
vsnprintf-IsString_example :
    (m : Memory) × (vsnprintf 100 3 (97 ∷ 354 ∷ 99 ∷ []) memory ≡ (some 3, m))
    × IsString m 100 (97 ∷ 98 ∷ [])
    × ((x : ℕ) → (x < 100) ⊎ (103 ≤ x) → m x ≡ memory x)
vsnprintf-IsString_example =
    vsnprintf-IsString 100 3 (97 ∷ 354 ∷ 99 ∷ []) memory (omega arith) (omega arith)
      (omega arith, (omega arith, (omega arith, tt)))

strtol-printnum_example :
    (l : List ℕ) × (printnum 300 255 16 4 32 ≡ some l)
    × (strtol (suc (length l)) 100 16 (vsnprintf 100 (suc (length l)) l memory).1
        ≡ some (100 + length l, 255))
strtol-printnum_example =
    strtol-printnum 300 16 255 4 100 memory (omega arith) (omega arith) (omega arith) (omega arith)
      (omega arith)

-- "  ff"
printed : printnum 300 255 16 4 32 ≡ some (32 ∷ 32 ∷ 102 ∷ 102 ∷ [])
unfolding printnum
printed = refl
