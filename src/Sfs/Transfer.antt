-- ===== src/Sfs/Transfer.antt =====
-- `sfs_io_nolock` of lab8/kern/fs/sfs/sfs_inode.c: the bytes of a file, block by block.
use os_experiment.Prelude.{
  ℕ, zero, suc, ◌+◌, ◌-◌, ◌/◌, ◌%◌, ◌^◌, Bool, true, not, ◌&&◌, ◌||◌, Option, none, some, List, [],
  ◌++◌, take, drop, ◌==◌, ltb, leb, if◌then◌else◌, u32,
}
use os_experiment.Sfs.{
  Sfs, Run, pure, ◌>>=◌, ◌>>◌, Error, inval, done, failed, sfs_blksize, sfs_max_file_size,
}
use os_experiment.Sfs.Blocks.{sfs_rblock, sfs_wblock, sfs_rbuf, sfs_wbuf}
use os_experiment.Sfs.BlockMap.{sfs_bmap_load_nolock}

-- `alen`, the bytes that were read, and `ret` where it is an error.
pub record Moved : Type 0 where
  pub alen : ℕ
  pub got : List ℕ
  pub error : Option Error

abbrev pub nothing : Moved
nothing = record { alen = 0; got = []; error = none }

module _ (fault : ℕ → Bool → Bool) (write : Bool) (bytes : List ℕ) where
  -- `size` bytes of a block of the file, at `alen` of `bytes`, with `sfs_buf_op`.
  unfoldable pub move_part : ℕ → ℕ → ℕ → ℕ → Run (List ℕ)
  move_part alen size blkno blkoff = sfs_bmap_load_nolock fault blkno >>= λ ino.
      if write
      then (sfs_wbuf fault (take size (drop alen bytes)) ino blkoff >> pure [])
      else sfs_rbuf fault size ino blkoff

  -- A whole block, with `sfs_block_op`.
  unfoldable pub move_block : ℕ → ℕ → Run (List ℕ)
  move_block alen blkno = sfs_bmap_load_nolock fault blkno >>= λ ino.
      if write
      then (sfs_wblock fault (drop alen bytes) ino 1 >> pure [])
      else sfs_rblock fault ino 1

-- A part that moves `size` bytes; after a failure it is left out, as `goto out` does.
unfoldable pub advance : Run (List ℕ) → ℕ → Moved → Sfs → Option (Moved × Sfs)
advance part size r s = elim r.error [
  | some e ↦ some (r, s)
  | none ↦ elim (part s) [
    | none ↦ none
    | some (done l, t) ↦ some (record r { alen = r.alen + size; got = r.got ++ l }, t)
    | some (failed e, t) ↦ some (record r { error = some e }, t)
  ]
]

module _ (fault : ℕ → Bool → Bool) (write : Bool) (bytes : List ℕ) where
  -- The loop over the `nblks` whole blocks from `blkno` on.
  unfoldable pub move_blocks : ℕ → ℕ → Moved → Sfs → Option (Moved × Sfs)
  move_blocks zero blkno r s = some (r, s)
  move_blocks (suc nblks) blkno r s =
      elim (advance (move_block fault write bytes r.alen blkno) sfs_blksize r s) [
        | none ↦ none
        | some (r', t) ↦ move_blocks nblks (blkno + 1) r' t
      ]

  -- The `whole` blocks from `first` on, and what is left in front of `endpos` behind them.
  unfoldable pub move_rest : ℕ → ℕ → ℕ → ℕ → Moved → Sfs → Option (Moved × Sfs)
  move_rest first whole offset endpos r s = elim (move_blocks whole first r s) [
    | none ↦ none
    | some (r', t) ↦
        let rest = endpos - (offset + r'.alen) in
        if ltb (offset + r'.alen) endpos
        then advance (move_part fault write bytes r'.alen rest (first + whole) 0) rest r' t
        else some (r', t)
  ]

  -- The three parts, from `offset` to `endpos`.
  unfoldable pub move_all : ℕ → ℕ → Sfs → Option (Moved × Sfs)
  move_all offset endpos s =
      let blkno = offset / sfs_blksize in
      let nblks = endpos / sfs_blksize - blkno in
      let blkoff = offset % sfs_blksize in
      let size = if nblks == 0 then endpos - offset else sfs_blksize - blkoff in
      if blkoff == 0
      then move_rest blkno nblks offset endpos nothing s
      else elim (advance (move_part fault write bytes 0 size blkno blkoff) size nothing s) [
        | none ↦ none
        | some (r, t) ↦ move_rest (blkno + 1) (nblks - 1) offset endpos r t
      ]

  -- The label `out`.
  unfoldable pub set_size : ℕ → Moved → Sfs → Sfs
  set_size offset r s =
      if ltb s.din.size (offset + r.alen)
      then record s { din = record s.din { size = u32 (offset + r.alen); dirty = true } }
      else s

  -- `sfs_io_nolock` for `len` bytes from `offset` on, below 2 ^ 63.
  unfoldable pub sfs_io_nolock : ℕ → ℕ → Sfs → Option (Moved × Sfs)
  sfs_io_nolock offset len s =
      let asked = (offset + len) % 2 ^ 64 in
      let capped = if ltb sfs_max_file_size asked then sfs_max_file_size else asked in
      let endpos = if not write && ltb s.din.size capped then s.din.size else capped in
      let moved : Option (Moved × Sfs) = elim (move_all offset endpos s) [
        | none ↦ none
        | some (r, t) ↦ some (r, set_size offset r t)
      ] in
      if s.din.is_dir
      then none
      else if leb sfs_max_file_size offset || leb (2 ^ 63) asked || ltb asked offset
      then some (record nothing { error = some inval }, s)
      else if offset == asked || (not write && leb s.din.size offset)
      then some (nothing, s)
      else moved
