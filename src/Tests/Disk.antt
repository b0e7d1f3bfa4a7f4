-- ===== src/Tests/Disk.antt =====
-- lab8/kern/fs/sfs on a disk of 64 blocks: a file of 5000 bytes in the blocks 3 and 4.
use os_experiment.Prelude.{
  ℕ, zero, suc, ◌+◌, ◌/◌, ◌%◌, ◌≡◌, ◌≤◌, ◌<◌, refl, Bool, true, false, some, none, [], ◌∷◌,
  if◌then◌else◌, ◌==◌, arith, ◌⊎◌, sym, ap, ◌∙◌,
}
use mathlib.Core.Path.{subst}
use os_experiment.Bitmap.{Bitmap, bit}
use os_experiment.Bitmap.Laws.{is_free}
use os_experiment.Bitmap.Words.{bit-zero}
use os_experiment.Bitmap.Count.{count_free}
use os_experiment.Sfs.{Sfs, Inode, failed, no_mem, io}
use os_experiment.Sfs.Blocks.{sfs_block_alloc}
use os_experiment.Sfs.Transfer.{sfs_io_nolock}
use os_experiment.Sfs.Mapped.{block_of, IsUsed, IsMapped, no_fault}
use os_experiment.Sfs.Read.{upto, sfs_io_nolock-content}
use os_experiment.Sfs.Pieces.{IsApart, sent}
use os_experiment.Sfs.RoundTrip.{IsOverwritten, sfs_io_nolock-overwrites, sfs_io_nolock-reads_back}
use os_experiment.Sfs.Balance.{IsBalanced, IsTaken, sfs_block_alloc-IsBalanced}

-- The blocks below 10 are in use, and the map is one block long, as for every small disk.
abbrev freemap : Bitmap
freemap = record {
  nbits = 32768;
  nwords = 1024;
  map = λ ix. if ix == 0 then 0xFFFFFC00 else if ix == 1 then 0xFFFFFFFF else 0;
}

abbrev inode : Inode
inode = record {
  size = 5000;
  is_dir = false;
  blocks = 2;
  direct = λ i. i + 3;
  indirect = 0;
  dirty = false;
}

abbrev disk64 : Sfs
disk64 = record {
  super_blocks = 64;
  unused_blocks = 54;
  super_dirty = false;
  freemap = freemap;
  disk = λ b o. (b + o) % 256;
  din = inode;
}

block_of-three : (i : ℕ) → i < 2 → block_of disk64 i ≡ i + 3
unfolding block_of
block_of-three i l = ground arith

IsUsed-three : (i : ℕ) → i < 2 → IsUsed disk64 (i + 3)
unfolding is_free bit
IsUsed-three zero l = record {
  not_null = omega arith;
  inside = omega arith;
  addressed = omega arith;
  used = refl;
}
IsUsed-three (suc zero) l = record {
  not_null = omega arith;
  inside = omega arith;
  addressed = omega arith;
  used = refl;
}
IsUsed-three (suc (suc i)) l = absurd (omega arith)

disk64-IsMapped : IsMapped disk64
disk64-IsMapped = record {
  bitmap = omega arith;
  fits = omega arith;
  top = omega arith;
  mapped = λ i l. subst (IsUsed disk64) (sym (block_of-three i l)) (IsUsed-three i l);
  entries = λ l. absurd (omega arith);
}

disk64-IsApart : IsApart disk64
disk64-IsApart = record {
  distinct = λ i j k l e. omega (arith, sym (block_of-three i k) ∙ e ∙ block_of-three j l);
  entry_apart = λ l. absurd (omega arith);
}

no_free_beyond : (j : ℕ) → 64 ≤ j → is_free freemap j ≡ false
unfolding is_free
no_free_beyond j high =
    let first : (j / 32 == 0) ≡ false = ground arith in
    let second : (j / 32 == 1) ≡ false = ground arith in rw (first, second) (bit-zero (j % 32))

-- Numbers that are not free do not count.
count_free_beyond :
    (f : ℕ → Bool) (n k : ℕ)
    → ((j : ℕ) → n ≤ j → f j ≡ false)
    → count_free f (k + n) ≡ count_free f n
count_free_beyond f n zero h = ap (count_free f) (omega arith)
count_free_beyond f n (suc k) h =
    let next : suc k + n ≡ suc (k + n) = omega arith in
    ap (count_free f) next ∙ ground (arith, h (k + n), count_free_beyond f n k h)

disk64-IsBalanced : IsBalanced disk64
unfolding is_free bit
disk64-IsBalanced = record {
  freemap = record {
    covered = omega arith;
    words = λ ix. ground arith;
    leftover = λ j low high. absurd (omega arith);
    small = omega arith;
  };
  covers = omega arith;
  beyond = λ j high low. no_free_beyond j high;
  addressed = omega arith;
  super_used = refl;
  balance = sym (count_free_beyond (is_free freemap) 64 32704 (λ j h. no_free_beyond j h));
}

-- 20 bytes across the border of the two blocks
sfs_io_nolock-content_example :
    sfs_io_nolock no_fault false [] 4090 20 disk64 ≡ some (upto disk64 4090 20, disk64)
sfs_io_nolock-content_example =
    sfs_io_nolock-content [] disk64 4090 20 disk64-IsMapped refl (omega arith) (omega arith)

-- three bytes that make the file larger
sfs_io_nolock-overwrites_example :
    (s' : Sfs) × (sfs_io_nolock no_fault true (7 ∷ 8 ∷ 9 ∷ []) 4999 3 disk64 ≡ some (sent 3, s'))
    × IsOverwritten (7 ∷ 8 ∷ 9 ∷ []) 4999 3 disk64 s'
sfs_io_nolock-overwrites_example =
    sfs_io_nolock-overwrites (7 ∷ 8 ∷ 9 ∷ []) disk64 4999 3 disk64-IsMapped disk64-IsApart refl
      (omega arith) (omega arith) (omega arith)

sfs_io_nolock-reads_back_example :
    (s' : Sfs) × (sfs_io_nolock no_fault true (7 ∷ 8 ∷ 9 ∷ []) 4095 3 disk64 ≡ some (sent 3, s'))
    × (sfs_io_nolock no_fault false [] 4095 3 s'
        ≡ some (record { alen = 3; got = 7 ∷ 8 ∷ 9 ∷ []; error = none }, s'))
sfs_io_nolock-reads_back_example =
    sfs_io_nolock-reads_back (7 ∷ 8 ∷ 9 ∷ []) disk64 4095 3 disk64-IsMapped disk64-IsApart refl
      (omega arith) (omega arith) (omega arith)

-- on a device that cannot be written
sfs_block_alloc-IsBalanced_example :
    ((sfs_block_alloc (λ b write. write) disk64 ≡ some (failed no_mem, disk64))
      × (disk64.unused_blocks ≡ 0))
    ⊎ ((ino : ℕ) × (s' : Sfs) × (sfs_block_alloc (λ b write. write) disk64 ≡ some (failed io, s'))
        × IsBalanced s'
        × IsTaken disk64 ino s'
        × (disk64.unused_blocks ≡ s'.unused_blocks + 1)
        × ((o : ℕ) → s'.disk ino o ≡ (ino + o) % 256))
sfs_block_alloc-IsBalanced_example =
    sfs_block_alloc-IsBalanced (λ b write. write) disk64 disk64-IsBalanced
