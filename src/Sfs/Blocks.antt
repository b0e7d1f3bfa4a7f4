-- ===== src/Sfs/Blocks.antt =====
-- lab8/kern/fs/sfs/sfs_io.c, and of sfs_inode.c the allocation of disk blocks. The buffer of the
-- file system is only used within one call, so it is a value here.
use os_experiment.Prelude.{
  ℕ, zero, suc, ◌+◌, ◌-◌, ◌*◌, ◌/◌, Bool, true, false, not, ◌&&◌, ◌||◌, none, some, List, [], ◌∷◌,
  ◌++◌, length, drop, ◌==◌, ltb, leb, if◌then◌else◌, update, get_or, u32,
}
use os_experiment.Bitmap.{bitmap_alloc, bitmap_test, bitmap_free}
use os_experiment.Sfs.{
  Run, pure, fail, ◌>>=◌, ◌>>◌, assert, modify, done, failed, no_mem, io, sfs_blksize,
}

-- `n` bytes of a block from an offset on, and a block with bytes stored from there on.
unfoldable pub bytes_from : (ℕ → ℕ) → ℕ → ℕ → List ℕ
bytes_from block offset zero = []
bytes_from block offset (suc n) = block offset ∷ bytes_from block (offset + 1) n

abbrev pub with_bytes : (ℕ → ℕ) → ℕ → List ℕ → ℕ → ℕ
with_bytes block offset l i =
    if leb offset i && ltb i (offset + length l) then get_or l (i - offset) 0 else block i

-- The block of the disk that a transfer addresses: `blkno * SFS_BLKSIZE` is a 32-bit word.
abbrev pub place : ℕ → ℕ
place blkno = u32 (blkno * sfs_blksize) / sfs_blksize

-- `fault` says for which block, read or written (true), the device answers with an error.
module _ (fault : ℕ → Bool → Bool) where
  -- `sfs_rwblock_nolock` for reading, and for writing a block.
  unfoldable pub read_block : ℕ → Bool → Run (ℕ → ℕ)
  read_block blkno check s =
      (assert ((not (blkno == 0) || not check) && ltb blkno s.super_blocks)
          >> (if fault blkno false then fail io else pure (s.disk (place blkno))))
        s

  unfoldable pub write_block : ℕ → Bool → (ℕ → ℕ) → Run (Unit {0})
  write_block blkno check block s =
      (assert ((not (blkno == 0) || not check) && ltb blkno s.super_blocks)
          >> (if fault blkno true
              then fail io
              else modify (λ t. record t { disk = update t.disk (place blkno) block })))
        s

  -- `sfs_rwblock`: `nblks` blocks into the result, or from the bytes that are given.
  unfoldable pub sfs_rblock : ℕ → ℕ → Run (List ℕ)
  unfolding read_block
  sfs_rblock blkno zero = pure []
  sfs_rblock blkno (suc nblks) = read_block blkno true >>= λ block.
      sfs_rblock (blkno + 1) nblks >>= λ l. pure (bytes_from block 0 sfs_blksize ++ l)

  unfoldable pub sfs_wblock : List ℕ → ℕ → ℕ → Run (Unit {0})
  unfolding write_block
  sfs_wblock l blkno zero = pure tt
  sfs_wblock l blkno (suc nblks) =
      write_block blkno true (λ i. get_or l i 0)
      >> sfs_wblock (drop sfs_blksize l) (blkno + 1) nblks

  unfoldable pub sfs_rbuf : ℕ → ℕ → ℕ → Run (List ℕ)
  unfolding read_block
  sfs_rbuf len blkno offset =
      assert (ltb offset sfs_blksize && leb (offset + len) sfs_blksize)
      >> (read_block blkno true >>= λ block. pure (bytes_from block offset len))

  unfoldable pub sfs_wbuf : List ℕ → ℕ → ℕ → Run (Unit {0})
  unfolding read_block write_block
  sfs_wbuf l blkno offset =
      assert (ltb offset sfs_blksize && leb (offset + length l) sfs_blksize)
      >> (read_block blkno true >>= λ block. write_block blkno true (with_bytes block offset l))

  unfoldable pub sfs_clear_block : ℕ → ℕ → Run (Unit {0})
  unfolding write_block
  sfs_clear_block blkno zero = pure tt
  sfs_clear_block blkno (suc nblks) =
      write_block blkno true (λ i. 0) >> sfs_clear_block (blkno + 1) nblks

  unfoldable pub sfs_block_inuse : ℕ → Run Bool
  sfs_block_inuse ino s =
      if not (ino == 0) && ltb ino s.super_blocks
      then elim (bitmap_test s.freemap ino) [ none ↦ none | some set ↦ some (done (not set), s) ]
      else none

  unfoldable pub sfs_block_alloc : Run ℕ
  unfolding sfs_block_inuse sfs_clear_block
  sfs_block_alloc s = elim (bitmap_alloc s.freemap) [
    | none ↦ none
    | some (none, freemap) ↦ some (failed no_mem, s)
    | some (some ino, freemap) ↦
        (assert (ltb 0 s.unused_blocks)
            >> modify (λ t. record t {
              freemap = freemap;
              unused_blocks = t.unused_blocks - 1;
              super_dirty = true;
            })
            >> (sfs_block_inuse ino >>= λ used. assert used >> sfs_clear_block ino 1 >> pure ino))
          s
  ]

  unfoldable pub sfs_block_free : ℕ → Run (Unit {0})
  unfolding sfs_block_inuse
  sfs_block_free ino = sfs_block_inuse ino >>= λ used. assert used >> (λ s.
      elim (bitmap_free s.freemap ino) [
        | none ↦ none
        | some freemap ↦ some (
          done tt,
          record s { freemap = freemap; unused_blocks = s.unused_blocks + 1; super_dirty = true },
        )
      ])
