-- ===== src/Bitmap/Count.antt =====
-- How many numbers of a bitmap of lab8/kern/fs/sfs are free, and a new bitmap.
use os_experiment.Prelude.{
  ℕ, zero, suc, ◌+◌, ◌-◌, ◌*◌, ◌/◌, ◌%◌, ◌^◌, ◌≡◌, ◌≤◌, ◌<◌, ◌≢◌, refl, Bool, true, false, not,
  ◌&&◌, some, ◌==◌, leb, ltb, if◌then◌else◌, update, u32, arith, Bool-cases, inl, inr, ap, ◌∙◌,
}
use native.Mathlib.Nat.{pow-suc, one-le-pow}
use os_experiment.Bitmap.{Bitmap, word_bits, bit, flip, clear_leftover, bitmap_create}
use os_experiment.Bitmap.Words.{bit-flip, flip-lt}
use os_experiment.Bitmap.Laws.{is_free, IsBitmap}

-- The free numbers below `n`, of a set of numbers.
abbrev pub count_free : (ℕ → Bool) → ℕ → ℕ
count_free free zero = 0
count_free free (suc n) = (if free n then 1 else 0) + count_free free n

pub count_free-same :
    (f g : ℕ → Bool) (n : ℕ) → ((j : ℕ) → j < n → f j ≡ g j) → count_free f n ≡ count_free g n
count_free-same f g zero h = refl
count_free-same f g (suc n) h =
    ground (arith, h n (omega arith), count_free-same f g n (λ j l. h j (omega arith)))

-- One number less.
pub count_free-taken :
    (f g : ℕ → Bool) (index n : ℕ)
    → ((j : ℕ) → g j ≡ (if index == j then false else f j))
    → f index ≡ true
    → index < n
    → count_free f n ≡ count_free g n + 1
count_free-taken f g index zero h free l = absurd (omega arith)
count_free-taken f g index (suc n) h free l = elim (Bool-cases (index == n)) [
  | inl e ↦
      let same : index ≡ n = ground arith in
      let rest = count_free-same f g n (λ j k. ground (arith, h j)) in
      ground (arith, rest, h n, ap f same)
  | inr e ↦ ground (arith, h n, count_free-taken f g index n h free (ground arith))
]

bit_full : (n j : ℕ) → j < n → bit (2 ^ n - 1) j ≡ true
unfolding bit
bit_full zero j l = absurd (omega arith)
bit_full (suc n) zero l =
    let odd : (2 ^ suc n - 1) % 2 ≡ 1 = omega (arith, pow-suc 2 n, one-le-pow n 2) in ground arith
bit_full (suc n) (suc j) l =
    let half : (2 ^ suc n - 1) / 2 ≡ 2 ^ n - 1 = omega (arith, pow-suc 2 n, one-le-pow n 2) in
    ap (λ w. bit w j) half ∙ bit_full n j (omega arith)

bit-clear_leftover :
    (word o n j : ℕ)
    → bit (clear_leftover word o n) j
      ≡ (if leb o j && ltb j (o + n) then not (bit word j) else bit word j)
unfolding clear_leftover
bit-clear_leftover word o zero j = ground arith
bit-clear_leftover word o (suc n) j =
    bit-clear_leftover (flip word o) (o + 1) n j ∙ ground (arith, bit-flip word o j)

clear_leftover-lt :
    (word o n : ℕ)
    → word < 2 ^ word_bits
    → o + n ≤ word_bits
    → clear_leftover word o n < 2 ^ word_bits
unfolding clear_leftover
clear_leftover-lt word o zero h l = h
clear_leftover-lt word o (suc n) h l =
    clear_leftover-lt (flip word o) (o + 1) n (flip-lt word o word_bits h (omega arith))
      (omega arith)

abbrev full_word : ℕ
full_word = 2 ^ word_bits - 1

-- The last word of a new bitmap, where only the first `nbits - ix * WORD_BITS` bits are set.
abbrev last_word : ℕ → ℕ → ℕ
last_word nbits n =
    clear_leftover full_word (nbits - (n - 1) * word_bits)
      (word_bits - (nbits - (n - 1) * word_bits))

abbrev cut : ℕ → ℕ → Bitmap
cut nbits n = record {
  nbits = nbits;
  nwords = n;
  map = update (λ ix. full_word) (n - 1) (last_word nbits n);
}

module _ (nbits n : ℕ) (covered : nbits ≤ n * word_bits) (tight : n * word_bits < nbits + word_bits)
    (small : n * word_bits < 2 ^ 32) where
  whole :
      nbits ≡ n * word_bits
      → IsBitmap (record { nbits = nbits; nwords = n; map = λ ix. full_word })
        × ((j : ℕ)
            → j < nbits
            → is_free (record { nbits = nbits; nwords = n; map = λ ix. full_word }) j ≡ true)
  unfolding is_free
  whole exact = (
    record {
      covered = covered;
      words = λ ix. omega arith;
      leftover = λ j low high. absurd (omega arith);
      small = small;
    },
    λ j l. bit_full word_bits (j % word_bits) (omega arith),
  )

  is_free-cut :
      nbits ≢ n * word_bits → (j : ℕ) → j < n * word_bits → is_free (cut nbits n) j ≡ ltb j nbits
  unfolding is_free
  is_free-cut part j l = elim (Bool-cases (j / word_bits == n - 1)) [
    | inl e ↦
        let full = bit_full word_bits (j % word_bits) (omega arith) in
        let last =
          bit-clear_leftover full_word (nbits - (n - 1) * word_bits)
            (word_bits - (nbits - (n - 1) * word_bits)) (j % word_bits) in
        rw e (last ∙ ground (arith, full))
    | inr e ↦ rw e (bit_full word_bits (j % word_bits) (omega arith) ∙ ground arith)
  ]

  part_IsBitmap : nbits ≢ n * word_bits → IsBitmap (cut nbits n)
  part_IsBitmap part = record {
    covered = covered;
    words = λ ix. ground (
      arith,
      clear_leftover-lt full_word (nbits - (n - 1) * word_bits)
          (word_bits - (nbits - (n - 1) * word_bits)) (omega arith) (omega arith),
    );
    leftover = λ j low high. is_free-cut part j high ∙ ground arith;
    small = small;
  }

-- A new bitmap for at least one number and at most 2 ^ 32 - 64 of them is well formed and has them
-- all free.
pub bitmap_create-free :
    (nbits : ℕ)
    → 0 < nbits
    → nbits ≤ 2 ^ 32 - 64
    → (b : Bitmap) × (bitmap_create nbits ≡ some b)
      × IsBitmap b
      × (b.nbits ≡ nbits)
      × ((j : ℕ) → j < nbits → is_free b j ≡ true)
unfolding bitmap_create
bitmap_create-free nbits pos top =
    let n = (nbits + word_bits - 1) / word_bits in
    let words : u32 ((nbits + word_bits - 1) / word_bits) ≡ n = omega arith in
    let some_bits : (nbits == 0) ≡ false = ground arith in
    elim (Bool-cases (nbits == n * word_bits)) [
      | inl e ↦
          let (v, free) = whole nbits n (omega arith) (omega arith) (omega arith) (ground arith) in
          (
            record { nbits = nbits; nwords = n; map = λ ix. full_word },
            ground (arith, words),
            v,
            refl,
            free,
          )
      | inr e ↦
          let part : nbits ≢ n * word_bits = ground arith in
          (
            cut nbits n,
            ground (arith, words),
            part_IsBitmap nbits n (omega arith) (omega arith) (omega arith) part,
            refl,
            λ j l.
                is_free-cut nbits n (omega arith) (omega arith) (omega arith) part j (omega arith)
                ∙ ground arith,
          )
    ]
