-- ===== src/Bitmap.antt =====
-- lab8/kern/fs/sfs/bitmap.c: a set of numbers as the bits of 32-bit words, where a bit that is set
-- is a free number.
pub mod Words
pub mod Laws
pub mod Count
use os_experiment.Prelude.{
  ℕ, zero, suc, ◌+◌, ◌-◌, ◌*◌, ◌/◌, ◌%◌, ◌^◌, Bool, true, false, not, Option, none, some, ◌==◌, ltb,
  if◌then◌else◌, ◌>>=◌, ◌>>◌, assert, update, u32,
}

-- `WORD_BITS`.
abbrev pub word_bits : ℕ
word_bits = 32

pub record Bitmap : Type 0 where
  pub nbits : ℕ
  pub nwords : ℕ
  pub map : ℕ → ℕ

-- `word & (1 << offset)`.
unfoldable pub bit : ℕ → ℕ → Bool
bit word zero = word % 2 == 1
bit word (suc offset) = bit (word / 2) offset

-- `word ^ (1 << offset)`.
unfoldable pub flip : ℕ → ℕ → ℕ
flip word zero = if word % 2 == 1 then word - 1 else word + 1
flip word (suc offset) = word % 2 + 2 * flip (word / 2) offset

-- The loop of `bitmap_create` over the `n` bits from `overbits` on.
unfoldable pub clear_leftover : ℕ → ℕ → ℕ → ℕ
unfolding flip
clear_leftover word overbits zero = word
clear_leftover word overbits (suc n) = clear_leftover (flip word overbits) (overbits + 1) n

-- `bitmap_create` where both allocations succeed.
unfoldable pub bitmap_create : ℕ → Option Bitmap
unfolding clear_leftover
bitmap_create nbits =
    let nwords = u32 ((nbits + word_bits - 1) / word_bits) in
    let full = λ (ix : ℕ). 2 ^ 32 - 1 in
    let ix = nwords - 1 in
    let overbits = nbits - ix * word_bits in
    assert (not (nbits == 0))
    >> assert (ltb nbits (nbits + word_bits))
    >> (if nbits == nwords * word_bits
        then some (record { nbits = nbits; nwords = nwords; map = full })
        else (assert (nbits / word_bits == ix)
            >> assert (ltb 0 overbits)
            >> assert (ltb overbits word_bits)
            >> some (record {
              nbits = nbits;
              nwords = nwords;
              map = update full ix (clear_leftover (full ix) overbits (word_bits - overbits));
            })))

-- The inner loop of `bitmap_alloc`, over the `n` bits from `offset` on.
unfoldable pub find_bit : ℕ → ℕ → ℕ → Option ℕ
unfolding bit
find_bit word offset zero = none
find_bit word offset (suc n) =
    let rest = find_bit word (offset + 1) n in if bit word offset then some offset else rest

-- The outer loop, over the `n` words from `ix` on. The inner `none` is -E_NO_MEM.
unfoldable pub alloc_from : ℕ → ℕ → Bitmap → Option (Option ℕ × Bitmap)
unfolding find_bit flip
alloc_from ix zero b = some (none, b)
alloc_from ix (suc n) b =
    let rest = alloc_from (ix + 1) n b in
    if not (b.map ix == 0)
    then (find_bit (b.map ix) 0 word_bits >>= λ offset. some (
      some (u32 (ix * word_bits + offset)),
      record b { map = update b.map ix (flip (b.map ix) offset) },
    ))
    else rest

unfoldable pub bitmap_alloc : Bitmap → Option (Option ℕ × Bitmap)
unfolding alloc_from
bitmap_alloc b = alloc_from 0 b.nwords b

-- `bitmap_test`, with the assertion of `bitmap_translate`.
unfoldable pub bitmap_test : Bitmap → ℕ → Option Bool
unfolding bit
bitmap_test b index =
    assert (ltb index b.nbits) >> some (bit (b.map (index / word_bits)) (index % word_bits))

-- `bitmap_free`: the bit is not set, so setting it flips it.
unfoldable pub bitmap_free : Bitmap → ℕ → Option Bitmap
unfolding bit flip
bitmap_free b index =
    let ix = index / word_bits in
    let offset = index % word_bits in
    assert (ltb index b.nbits)
    >> assert (not (bit (b.map ix) offset))
    >> some (record b { map = update b.map ix (flip (b.map ix) offset) })
