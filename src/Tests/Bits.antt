-- ===== src/Tests/Bits.antt =====
-- lab8/kern/fs/sfs/bitmap.c on a bitmap of 64 numbers of which 0, 1 and 2 are in use.
use os_experiment.Prelude.{
  ℕ, ◌≡◌, ◌<◌, refl, true, false, some, none, if◌then◌else◌, ◌==◌, arith, ◌⊎◌,
}
use os_experiment.Bitmap.{Bitmap, bit, find_bit, bitmap_alloc, bitmap_free}
use os_experiment.Bitmap.Laws.{is_free, IsBitmap, bitmap_alloc-lowest, bitmap_free-gives_back}

abbrev three_used : Bitmap
three_used = record {
  nbits = 64;
  nwords = 2;
  map = λ ix. if ix == 0 then 0xFFFFFFF8 else if ix == 1 then 0xFFFFFFFF else 0;
}

three_used_IsBitmap : IsBitmap three_used
three_used_IsBitmap = record {
  covered = omega arith;
  words = λ ix. ground arith;
  leftover = λ j low high. absurd (omega arith);
  small = omega arith;
}

bitmap_alloc-lowest_example :
    ((bitmap_alloc three_used ≡ some (none, three_used))
      × ((j : ℕ) → j < 64 → is_free three_used j ≡ false))
    ⊎ ((index : ℕ) × (b' : Bitmap) × (bitmap_alloc three_used ≡ some (some index, b'))
        × IsBitmap b'
        × (b'.nbits ≡ 64)
        × (index < 64)
        × (is_free three_used index ≡ true)
        × ((j : ℕ) → j < index → is_free three_used j ≡ false)
        × ((j : ℕ) → is_free b' j ≡ (if index == j then false else is_free three_used j)))
bitmap_alloc-lowest_example = bitmap_alloc-lowest three_used three_used_IsBitmap

-- the lowest number that is free is 3
first_free : find_bit (three_used.map 0) 0 32 ≡ some 3
unfolding find_bit
first_free = refl

used_1 : is_free three_used 1 ≡ false
unfolding is_free bit
used_1 = refl

gives_back :
    (b' : Bitmap) × (bitmap_free three_used 1 ≡ some b')
    × IsBitmap b'
    × (b'.nbits ≡ 64)
    × ((j : ℕ) → is_free b' j ≡ (if 1 == j then true else is_free three_used j))
gives_back = bitmap_free-gives_back three_used 1 three_used_IsBitmap (omega arith) used_1
