-- ===== src/Bitmap/Laws.antt =====
-- What the operations of lab8/kern/fs/sfs/bitmap.c do to the set of free numbers.
use os_experiment.Prelude.{
  ℕ, zero, suc, ◌+◌, ◌*◌, ◌/◌, ◌%◌, ◌^◌, ◌≡◌, ◌≤◌, ◌<◌, refl, Bool, true, false, not, none, some,
  ◌==◌, ltb, if◌then◌else◌, update, u32, arith, Bool-cases, inl, inr, ◌⊎◌, ap, ◌∙◌,
}
use os_experiment.Bitmap.{
  Bitmap, word_bits, bit, flip, find_bit, alloc_from, bitmap_alloc, bitmap_free,
}
use os_experiment.Bitmap.Words.{bit-flip, flip-lt, no_bits_zero, bit-zero}

-- Whether a number is free.
unfoldable pub is_free : Bitmap → ℕ → Bool
is_free b index = bit (b.map (index / word_bits)) (index % word_bits)

-- The words are 32-bit words for all numbers below `nbits`, and no number from there on is free.
pub record IsBitmap (b : Bitmap) : Type 0 where
  pub covered : b.nbits ≤ b.nwords * word_bits
  pub words : (ix : ℕ) → b.map ix < 2 ^ word_bits
  pub leftover : (j : ℕ) → b.nbits ≤ j → j < b.nwords * word_bits → is_free b j ≡ false
  pub small : b.nwords * word_bits < 2 ^ 32

-- One number flipped.
abbrev pub flipped : Bitmap → ℕ → Bitmap
flipped b index = record b {
  map = update b.map (index / word_bits) (flip (b.map (index / word_bits)) (index % word_bits));
}

pub is_free-flipped :
    (b : Bitmap) (i j : ℕ)
    → is_free (flipped b i) j ≡ (if i == j then not (is_free b j) else is_free b j)
unfolding is_free
is_free-flipped b i j = elim (Bool-cases (j / word_bits == i / word_bits)) [
  | inl e ↦
      let same : j / word_bits ≡ i / word_bits = ground arith in
      ground (arith, bit-flip (b.map (i / word_bits)) (i % word_bits) (j % word_bits), same)
  | inr e ↦ ground arith
]

pub flipped-IsBitmap : (b : Bitmap) (i : ℕ) → IsBitmap b → i < b.nbits → IsBitmap (flipped b i)
flipped-IsBitmap b i v l = record {
  covered = v.covered;
  words = λ ix. ground (
    arith,
    v.words ix,
    flip-lt (b.map (i / word_bits)) (i % word_bits) word_bits (v.words (i / word_bits)),
  );
  leftover = λ j low high. is_free-flipped b i j ∙ ground (arith, v.leftover j low high);
  small = v.small;
}

-- The loop over the bits of a word finds the lowest one that is set.
find_bit-lowest :
    (word from n : ℕ)
    → ((find_bit word from n ≡ none) × ((j : ℕ) → from ≤ j → j < from + n → bit word j ≡ false))
      ⊎ ((o : ℕ) × (find_bit word from n ≡ some o)
          × (from ≤ o)
          × (o < from + n)
          × (bit word o ≡ true)
          × ((j : ℕ) → from ≤ j → j < o → bit word j ≡ false))
unfolding find_bit
find_bit-lowest word from zero = inl (refl, λ j a b. absurd (omega arith))
find_bit-lowest word from (suc n) = elim (Bool-cases (bit word from)) [
  | inl e ↦ rw e (inr (from, refl, omega arith, omega arith, e, λ j a b. absurd (omega arith)))
  | inr e ↦ rw e (elim (find_bit-lowest word (from + 1) n) [
    | inl (absent, none_set) ↦
        inl (absent, λ j a b. first from j (bit word) e a none_set (omega arith))
    | inr (o, found, low, high, set, none_set) ↦ inr (
      o,
      found,
      omega arith,
      omega arith,
      set,
      λ j a b. first from j (bit word) e a none_set (omega arith),
    )
  ])
]
  where
    first :
        (from j : ℕ) {top : ℕ} (f : ℕ → Bool)
        → f from ≡ false
        → from ≤ j
        → ((i : ℕ) → from + 1 ≤ i → i < top → f i ≡ false)
        → j < top
        → f j ≡ false
    first from j f e a later b = elim (Bool-cases (j == from)) [
      | inl g ↦ let same : j ≡ from = ground arith in ap f same ∙ e
      | inr g ↦ later j (ground arith) b
    ]

-- What a search from the word `ix` on finds.
record Found (b : Bitmap) (ix n : ℕ) (index : ℕ) : Type 0 where
  low : ix * word_bits ≤ index
  high : index < (ix + n) * word_bits
  free : is_free b index ≡ true
  first : (j : ℕ) → ix * word_bits ≤ j → j < index → is_free b j ≡ false

-- A search goes on behind a word without free numbers.
skip_word :
    (b : Bitmap) (ix top : ℕ)
    → b.map ix ≡ 0
    → ((j : ℕ) → (ix + 1) * word_bits ≤ j → j < top → is_free b j ≡ false)
    → (j : ℕ) → ix * word_bits ≤ j
    → j < top
    → is_free b j ≡ false
unfolding is_free
skip_word b ix top e later j low high = elim (Bool-cases (j / word_bits == ix)) [
  | inl f ↦ let same : j / word_bits ≡ ix = ground arith in rw (same, e) (bit-zero (j % word_bits))
  | inr f ↦ later j (ground arith) high
]

-- The numbers in front of the bit `o` of the word `ix`.
same_word :
    (b : Bitmap) (ix o : ℕ)
    → ((j : ℕ) → 0 ≤ j → j < o → bit (b.map ix) j ≡ false)
    → o < word_bits
    → (j : ℕ) → ix * word_bits ≤ j
    → j < ix * word_bits + o
    → is_free b j ≡ false
unfolding is_free
same_word b ix o clear small j low high =
    let same : j / word_bits ≡ ix = omega arith in
    rw same (clear (j % word_bits) (omega arith) (omega arith))

bit-is_free :
    (b : Bitmap) (ix o : ℕ)
    → (ix * word_bits + o) / word_bits ≡ ix
    → (ix * word_bits + o) % word_bits ≡ o
    → bit (b.map ix) o ≡ true
    → is_free b (ix * word_bits + o) ≡ true
unfolding is_free
bit-is_free b ix o word offset set = rw (word, offset) set

alloc_from-Found :
    (ix n : ℕ) (b : Bitmap)
    → IsBitmap b
    → ix + n ≡ b.nwords
    → ((alloc_from ix n b ≡ some (none, b))
        × ((j : ℕ) → ix * word_bits ≤ j → j < (ix + n) * word_bits → is_free b j ≡ false))
      ⊎ ((index : ℕ) × (alloc_from ix n b ≡ some (some index, flipped b index))
          × Found b ix n index)
unfolding alloc_from
alloc_from-Found ix zero b v all = inl (refl, λ j low high. absurd (omega arith))
alloc_from-Found ix (suc n) b v all = elim (Bool-cases (b.map ix == 0)) [
  | inl e ↦
      let empty : b.map ix ≡ 0 = ground arith in
      rw e (elim (alloc_from-Found (ix + 1) n b v (omega arith)) [
        | inl (failed, none_free) ↦ inl (
          failed,
          skip_word b ix ((ix + suc n) * word_bits) empty
              (λ j low high. none_free j low (omega arith)),
        )
        | inr (index, did, f) ↦ inr (
          index,
          did,
          record {
            low = omega (arith, f.low);
            high = omega (arith, f.high);
            free = f.free;
            first = skip_word b ix index empty f.first;
          },
        )
      ])
  | inr e ↦ elim (find_bit-lowest (b.map ix) 0 word_bits) [
    | inl (absent, none_set) ↦ absurd (
        ground (
          arith,
          no_bits_zero (b.map ix) word_bits (v.words ix)
              (λ j l. none_set j (omega arith) (omega arith)),
        ))
    | inr (o, found, low, high, set, none_set) ↦
        let fits : u32 (ix * word_bits + o) ≡ ix * word_bits + o = omega (arith, v.small) in
        let word : (ix * word_bits + o) / word_bits ≡ ix = omega arith in
        let offset : (ix * word_bits + o) % word_bits ≡ o = omega arith in
        inr (
          ix * word_bits + o,
          rw (e, found, fits, word, offset) refl,
          record {
            low = omega arith;
            high = omega arith;
            free = bit-is_free b ix o word offset set;
            first = same_word b ix o none_set (omega arith);
          },
        )
  ]
]

-- On a well-formed bitmap `bitmap_alloc` never fails its assertion: it takes the lowest free number
-- and no other, or answers -E_NO_MEM and changes nothing where no number is free.
pub bitmap_alloc-lowest :
    (b : Bitmap)
    → IsBitmap b
    → ((bitmap_alloc b ≡ some (none, b)) × ((j : ℕ) → j < b.nbits → is_free b j ≡ false))
      ⊎ ((index : ℕ) × (b' : Bitmap) × (bitmap_alloc b ≡ some (some index, b'))
          × IsBitmap b'
          × (b'.nbits ≡ b.nbits)
          × (index < b.nbits)
          × (is_free b index ≡ true)
          × ((j : ℕ) → j < index → is_free b j ≡ false)
          × ((j : ℕ) → is_free b' j ≡ (if index == j then false else is_free b j)))
unfolding bitmap_alloc
bitmap_alloc-lowest b v = elim (alloc_from-Found 0 b.nwords b v (omega arith)) [
  | inl (failed, none_free) ↦
      inl (failed, λ j l. none_free j (omega arith) (omega (arith, v.covered)))
  | inr (index, did, f) ↦
      let inside : index < b.nbits = elim (Bool-cases (ltb index b.nbits)) [
        | inl l ↦ ground arith
        | inr l ↦
            absurd (ground (arith, f.free, v.leftover index (ground arith) (omega (arith, f.high))))
      ] in
      inr (
        index,
        flipped b index,
        did,
        flipped-IsBitmap b index v inside,
        refl,
        inside,
        f.free,
        λ j l. f.first j (omega arith) l,
        λ j. is_free-flipped b index j ∙ taken b index j f.free,
      )
]
  where
    taken :
        (b : Bitmap) (index j : ℕ)
        → is_free b index ≡ true
        → (if index == j then not (is_free b j) else is_free b j)
          ≡ (if index == j then false else is_free b j)
    taken b index j f = elim (Bool-cases (index == j)) [
      | inl e ↦ let same : index ≡ j = ground arith in ground (arith, ap (is_free b) same)
      | inr e ↦ ground arith
    ]

-- `bitmap_free` of a number that is in use makes it free and changes no other, and so undoes the
-- `bitmap_alloc` that took it.
pub bitmap_free-gives_back :
    (b : Bitmap) (index : ℕ)
    → IsBitmap b
    → index < b.nbits
    → is_free b index ≡ false
    → (b' : Bitmap) × (bitmap_free b index ≡ some b')
      × IsBitmap b'
      × (b'.nbits ≡ b.nbits)
      × ((j : ℕ) → is_free b' j ≡ (if index == j then true else is_free b j))
unfolding bitmap_free is_free
bitmap_free-gives_back b index v small used = (
  flipped b index,
  ground (arith, used),
  flipped-IsBitmap b index v small,
  refl,
  λ j. is_free-flipped b index j ∙ elim (Bool-cases (index == j)) [
    | inl e ↦ let same : index ≡ j = ground arith in ground (arith, ap (is_free b) same)
    | inr e ↦ ground arith
  ],
)
