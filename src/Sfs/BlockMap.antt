-- ===== src/Sfs/BlockMap.antt =====
-- Which disk block holds a block of the file, lab8/kern/fs/sfs/sfs_inode.c.
use os_experiment.Prelude.{
  ℕ, zero, suc, ◌+◌, ◌-◌, ◌*◌, ◌/◌, ◌%◌, Bool, true, false, not, ◌&&◌, ◌||◌, none, List, [], ◌∷◌,
  ◌==◌, ltb, leb, if◌then◌else◌, update,
}
use os_experiment.Sfs.{
  Inode, Run, pure, fail, ◌>>=◌, ◌>>◌, or_else, assert, modify, inval, sfs_ndirect, sfs_blk_nentry,
  sfs_blksize, sfs_max_file_size,
}
use os_experiment.Sfs.Blocks.{sfs_rbuf, sfs_wbuf, sfs_block_inuse, sfs_block_alloc, sfs_block_free}

-- A 32-bit word in memory, lowest byte first.
abbrev pub le32 : List ℕ → ℕ
le32 [] = 0
le32 (b ∷ l) = b + 256 * le32 l

abbrev pub bytes32 : ℕ → List ℕ
bytes32 n = n % 256 ∷ n / 256 % 256 ∷ n / 65536 % 256 ∷ n / 16777216 ∷ []

abbrev pub set_din : (Inode → Inode) → Run (Unit {0})
set_din f = modify (λ s. record s { din = f s.din })

module _ (fault : ℕ → Bool → Bool) where
  -- `sfs_bmap_get_sub_nolock` from where the entry block is `ent`; `entry_new` is whether it was
  -- allocated just now. The result is the entry block and the block.
  unfoldable pub new_entry : ℕ → Bool → ℕ → Run (ℕ × ℕ)
  new_entry ent entry_new index =
      or_else
        (sfs_block_alloc fault >>= λ ino.
          or_else (sfs_wbuf fault (bytes32 ino) ent (index * 4)) (sfs_block_free fault ino)
          >> pure (ent, ino))
        (if entry_new then sfs_block_free fault ent else pure tt)

  unfoldable pub sfs_bmap_get_sub_nolock : ℕ → ℕ → Bool → Run (ℕ × ℕ)
  unfolding new_entry
  sfs_bmap_get_sub_nolock ent index create =
      assert (ltb index sfs_blk_nentry)
      >> (if not (ent == 0)
          then (sfs_rbuf fault 4 ent (index * 4) >>= λ l.
              if not (le32 l == 0) || not create
              then pure (ent, le32 l)
              else new_entry ent false index)
          else if not create
          then pure (ent, 0)
          else (sfs_block_alloc fault >>= λ fresh. new_entry fresh true index))

  -- The first part of `sfs_bmap_get_nolock`, for a block that the inode itself names.
  unfoldable pub get_direct : ℕ → Bool → Run ℕ
  get_direct index create s =
      (let ino = s.din.direct index in
          if ino == 0 && create
          then (sfs_block_alloc fault >>= λ fresh.
              set_din (λ d. record d { direct = update d.direct index fresh; dirty = true })
              >> pure fresh)
          else pure ino)
        s

  -- The second part, for one that the indirect block names.
  unfoldable pub get_indirect : ℕ → Bool → Run ℕ
  unfolding sfs_bmap_get_sub_nolock
  get_indirect index create s =
      (sfs_bmap_get_sub_nolock s.din.indirect index create >>= λ (ent, ino).
      (if ent == s.din.indirect
        then pure tt
        else (assert (s.din.indirect == 0)
            >> set_din (λ d. record d { indirect = ent; dirty = true })))
      >> pure ino)
        s

  unfoldable pub sfs_bmap_get_nolock : ℕ → Bool → Run ℕ
  unfolding get_direct get_indirect
  sfs_bmap_get_nolock index create =
      (if ltb index sfs_ndirect
        then get_direct index create
        else if ltb (index - sfs_ndirect) sfs_blk_nentry
        then get_indirect (index - sfs_ndirect) create
        else (λ s. none))
      >>= λ ino.
          (if ino == 0 then pure tt else (sfs_block_inuse fault ino >>= λ used. assert used))
          >> pure ino

  unfoldable pub sfs_bmap_free_sub_nolock : ℕ → ℕ → Run (Unit {0})
  sfs_bmap_free_sub_nolock ent index = sfs_block_inuse fault ent >>= λ used.
      assert (used && ltb index sfs_blk_nentry)
      >> (sfs_rbuf fault 4 ent (index * 4) >>= λ l.
          if le32 l == 0
          then pure tt
          else (sfs_wbuf fault (bytes32 0) ent (index * 4) >> sfs_block_free fault (le32 l)))

  unfoldable pub sfs_bmap_free_nolock : ℕ → Run (Unit {0})
  unfolding sfs_bmap_free_sub_nolock
  sfs_bmap_free_nolock index s =
      (if ltb index sfs_ndirect
          then (if s.din.direct index == 0
              then pure tt
              else (sfs_block_free fault (s.din.direct index)
                  >> set_din (λ d. record d { direct = update d.direct index 0; dirty = true })))
          else if ltb (index - sfs_ndirect) sfs_blk_nentry && not (s.din.indirect == 0)
          then sfs_bmap_free_sub_nolock s.din.indirect (index - sfs_ndirect)
          else pure tt)
        s

  unfoldable pub sfs_bmap_load_nolock : ℕ → Run ℕ
  unfolding sfs_bmap_get_nolock
  sfs_bmap_load_nolock index s =
      (assert (leb index s.din.blocks)
          >> (sfs_bmap_get_nolock index (index == s.din.blocks) >>= λ ino.
              sfs_block_inuse fault ino >>= λ used.
              assert used
              >> (if index == s.din.blocks
                  then set_din (λ d. record d { blocks = d.blocks + 1 })
                  else pure tt)
              >> pure ino))
        s

  unfoldable pub sfs_bmap_truncate_nolock : Run (Unit {0})
  unfolding sfs_bmap_free_nolock
  sfs_bmap_truncate_nolock s =
      (assert (not (s.din.blocks == 0))
          >> sfs_bmap_free_nolock (s.din.blocks - 1)
          >> set_din (λ d. record d { blocks = d.blocks - 1; dirty = true }))
        s

  -- The loops of `sfs_truncfile`, over the number of blocks to add or to free.
  unfoldable pub grow : ℕ → Run (Unit {0})
  unfolding sfs_bmap_load_nolock
  grow zero = pure tt
  grow (suc n) = λ s. (sfs_bmap_load_nolock s.din.blocks >>= λ ino. grow n) s

  unfoldable pub shrink : ℕ → Run (Unit {0})
  unfolding sfs_bmap_truncate_nolock
  shrink zero = pure tt
  shrink (suc n) = sfs_bmap_truncate_nolock >> shrink n

  unfoldable pub sfs_truncfile : ℕ → Run (Unit {0})
  unfolding grow shrink
  sfs_truncfile len s =
      (let tblks = (len + sfs_blksize - 1) / sfs_blksize in
          if ltb sfs_max_file_size len
          then fail inval
          else if s.din.size == len
          then assert (tblks == s.din.blocks)
          else (grow (tblks - s.din.blocks)
              >> shrink (s.din.blocks - tblks)
              >> (λ t. assert (t.din.blocks == tblks) t)
              >> set_din (λ d. record d { size = len; dirty = true })))
        s
