-- ===== src/Bitmap/Words.antt =====
-- The bits of one word of lab8/kern/fs/sfs/bitmap.c.
use os_experiment.Prelude.{
  ℕ, zero, suc, ◌+◌, ◌-◌, ◌*◌, ◌/◌, ◌%◌, ◌^◌, ◌≡◌, ◌<◌, refl, false, not, ◌==◌, if◌then◌else◌,
  arith, Bool-cases, inl, inr, ap,
}
use native.Mathlib.Nat.{pow-suc}
use os_experiment.Bitmap.{bit, flip}

pub bit-flip :
    (word i j : ℕ) → bit (flip word i) j ≡ (if i == j then not (bit word j) else bit word j)
unfolding bit flip
bit-flip word zero zero = elim (Bool-cases (word % 2 == 1)) [
  | inl e ↦ ground arith
  | inr e ↦ ground arith
]
bit-flip word zero (suc j) =
    let half : (if word % 2 == 1 then word - 1 else word + 1) / 2 ≡ word / 2 = ground arith in
    ground (arith, ap (λ w. bit w j) half)
bit-flip word (suc i) zero = ground arith
bit-flip word (suc i) (suc j) =
    let half : (word % 2 + 2 * flip (word / 2) i) / 2 ≡ flip (word / 2) i = omega arith in
    ground (arith, ap (λ w. bit w j) half, bit-flip (word / 2) i j)

pub flip-lt : (word i n : ℕ) → word < 2 ^ n → i < n → flip word i < 2 ^ n
unfolding flip
flip-lt word i zero h l = absurd (omega arith)
flip-lt word zero (suc n) h l = ground (arith, pow-suc 2 n)
flip-lt word (suc i) (suc n) h l =
    let less = flip-lt (word / 2) i n (omega (arith, pow-suc 2 n)) (omega arith) in
    omega (arith, pow-suc 2 n, less)

-- A number that has only bits below `n`, none of them set, is 0.
pub no_bits_zero : (word n : ℕ) → word < 2 ^ n → ((i : ℕ) → i < n → bit word i ≡ false) → word ≡ 0
unfolding bit
no_bits_zero word zero h none_set = omega arith
no_bits_zero word (suc n) h none_set =
    let half =
      no_bits_zero (word / 2) n (omega (arith, pow-suc 2 n))
        (λ i l. none_set (suc i) (omega arith)) in
    let low = none_set 0 (omega arith) in ground arith

pub bit-zero : (i : ℕ) → bit 0 i ≡ false
unfolding bit
bit-zero zero = refl
bit-zero (suc i) = bit-zero i
