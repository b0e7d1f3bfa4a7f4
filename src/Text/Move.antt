-- ===== src/Text/Move.antt =====
-- `memcpy` and `memmove` of lab8/libs/string.c.
use os_experiment.Prelude.{
  ℕ, zero, suc, ◌+◌, ◌-◌, ◌≡◌, ◌≤◌, ◌<◌, ◌≢◌, ◌&&◌, ◌==◌, ltb, leb, if◌then◌else◌, update, arith,
  Bool-cases, inl, inr, ap, ◌∙◌, ◌⊎◌,
}
use os_experiment.Text.{Memory, memcpy, copy_down, memmove}

-- The memory with `n` bytes of `src` at `dst`, at the address `x`.
abbrev pub copied : ℕ → ℕ → ℕ → Memory → ℕ → ℕ
copied dst src n m x = if leb dst x && ltb x (dst + n) then m (src + (x - dst)) else m x

-- From the first byte on, where the source is not overwritten before it is read.
pub memcpy-copied :
    (n dst src : ℕ) (m : Memory) (x : ℕ)
    → (dst ≤ src) ⊎ (src + n ≤ dst)
    → memcpy dst src n m x ≡ copied dst src n m x
unfolding memcpy
memcpy-copied zero dst src m x apart = ground arith
memcpy-copied (suc n) dst src m x apart =
    let next = memcpy-copied n (dst + 1) (src + 1) (update m dst (m src)) x (ground arith) in
    elim (Bool-cases (leb (dst + 1) x && ltb x (dst + 1 + n))) [
      | inl e ↦
          let here : src + 1 + (x - (dst + 1)) ≡ src + (x - dst) = ground arith in
          let apart_now : src + (x - dst) ≢ dst = ground arith in
          next ∙ ground (arith, ap (update m dst (m src)) here)
      | inr e ↦ next ∙ elim (Bool-cases (x == dst)) [
        | inl f ↦ let here : src + (x - dst) ≡ src = ground arith in ground (arith, ap m here)
        | inr f ↦ ground arith
      ]
    ]

copy_down-copied :
    (n dst src : ℕ) (m : Memory) (x : ℕ)
    → src < dst
    → copy_down dst src n m x ≡ copied dst src n m x
unfolding copy_down
copy_down-copied zero dst src m x apart = ground arith
copy_down-copied (suc n) dst src m x apart =
    let next = copy_down-copied n dst src (update m (dst + n) (m (src + n))) x apart in
    elim (Bool-cases (leb dst x && ltb x (dst + n))) [
      | inl e ↦ let apart_now : src + (x - dst) ≢ dst + n = ground arith in next ∙ ground arith
      | inr e ↦ next ∙ elim (Bool-cases (x == dst + n)) [
        | inl f ↦ let here : src + (x - dst) ≡ src + n = ground arith in ground (arith, ap m here)
        | inr f ↦ ground arith
      ]
    ]

-- `memmove` copies the bytes as they were before, also where source and destination overlap, and
-- changes no other byte.
pub memmove-copied :
    (n dst src : ℕ) (m : Memory) (x : ℕ)
    → memmove dst src n m x ≡ (if leb dst x && ltb x (dst + n) then m (src + (x - dst)) else m x)
unfolding memmove
memmove-copied n dst src m x = elim (Bool-cases (ltb src dst && ltb dst (src + n))) [
  | inl e ↦ rw e (copy_down-copied n dst src m x (ground arith))
  | inr e ↦ rw e (memcpy-copied n dst src m x (ground arith))
]
