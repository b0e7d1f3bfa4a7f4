-- ===== src/Sfs/Read.antt =====
-- Reading a file, lab8/kern/fs/sfs/sfs_inode.c, whose contents are its blocks one after the other.
use os_experiment.Prelude.{
  ℕ, zero, suc, ◌+◌, ◌-◌, ◌*◌, ◌/◌, ◌%◌, ◌^◌, ◌≡◌, ◌≤◌, ◌<◌, refl, true, false, ◌&&◌, ◌||◌, none,
  some, List, [], ◌∷◌, ◌++◌, ◌==◌, ltb, leb, if◌then◌else◌, arith, Bool-cases, inl, inr, ap, sym,
  ◌∙◌,
}
use os_experiment.Sfs.{Sfs, Run, done, pure, sfs_blksize, sfs_max_file_size}
use os_experiment.Sfs.Blocks.{bytes_from, read_block, sfs_rblock, sfs_rbuf}
use os_experiment.Sfs.BlockMap.{sfs_bmap_load_nolock}
use os_experiment.Sfs.Transfer.{
  Moved, nothing, move_part, move_block, advance, move_blocks, move_rest, move_all, set_size,
  sfs_io_nolock,
}
use os_experiment.Sfs.Mapped.{
  block_of, IsUsed, IsMapped, no_fault, bind_done, read_block-used, sfs_rbuf-bytes,
  sfs_bmap_load-mapped,
}

-- The byte of the file at a position.
unfoldable pub content : Sfs → ℕ → ℕ
content s pos = s.disk (block_of s (pos / sfs_blksize)) (pos % sfs_blksize)

pub content-at :
    (s : Sfs) (pos i o : ℕ)
    → pos ≡ i * sfs_blksize + o
    → o < sfs_blksize
    → content s pos ≡ s.disk (block_of s i) o
unfolding content
content-at s pos i o e l =
    let block : pos / sfs_blksize ≡ i = omega arith in
    let offset : pos % sfs_blksize ≡ o = omega arith in rw (block, offset, content) refl

pub bytes_from-same :
    (f g : ℕ → ℕ) (a b n : ℕ)
    → ((j : ℕ) → j < n → f (a + j) ≡ g (b + j))
    → bytes_from f a n ≡ bytes_from g b n
unfolding bytes_from
bytes_from-same f g a b zero h = refl
bytes_from-same f g a b (suc n) h =
    let rest = bytes_from-same f g (a + 1) (b + 1) n (λ j l. grind (arith, h (suc j))) in
    grind (arith, h 0, rest)

pub bytes_from-append :
    (f : ℕ → ℕ) (a m n : ℕ) → bytes_from f a m ++ bytes_from f (a + m) n ≡ bytes_from f a (m + n)
unfolding bytes_from
bytes_from-append f a zero n = grind arith
bytes_from-append f a (suc m) n =
    let next : a + suc m ≡ a + 1 + m = omega arith in
    let all : suc m + n ≡ suc (m + n) = omega arith in
    rw (next, all, bytes_from-append f (a + 1) m n) refl

block_content :
    (s : Sfs) (i off n : ℕ)
    → off + n ≤ sfs_blksize
    → bytes_from (s.disk (block_of s i)) off n ≡ bytes_from (content s) (i * sfs_blksize + off) n
block_content s i off n l =
    bytes_from-same _ _ off (i * sfs_blksize + off) n (λ j k.
      sym (content-at s (i * sfs_blksize + off + j) i (off + j) (omega arith) (omega arith)))

-- What a transfer has got after `n` bytes.
abbrev pub upto : Sfs → ℕ → ℕ → Moved
upto s offset n = record { alen = n; got = bytes_from (content s) offset n; error = none }

from_start : (s : Sfs) (offset : ℕ) → nothing ≡ upto s offset 0
unfolding bytes_from
from_start s offset = refl

advance-upto :
    (part : Run (List ℕ)) (s : Sfs) (offset n m : ℕ)
    → part s ≡ some (done (bytes_from (content s) (offset + n) m), s)
    → advance part m (upto s offset n) s ≡ some (upto s offset (n + m), s)
unfolding advance
advance-upto part s offset n m e = rw (e, bytes_from-append (content s) offset n m) refl

append_nil : (l : List ℕ) → l ++ [] ≡ l
append_nil [] = refl
append_nil (x ∷ l) = ap (λ r. x ∷ r) (append_nil l)

sfs_rblock-bytes :
    (s : Sfs) (b : ℕ)
    → IsUsed s b
    → sfs_rblock no_fault b 1 s ≡ some (done (bytes_from (s.disk b) 0 sfs_blksize), s)
unfolding sfs_rblock
sfs_rblock-bytes s b u =
    bind_done (read_block no_fault b true) (λ block. pure (bytes_from block 0 sfs_blksize ++ []))
      (read_block-used s b u)
    ∙ (rw (append_nil (bytes_from (s.disk b) 0 sfs_blksize)) refl)

module _ (bytes : List ℕ) (s : Sfs) (mapped : IsMapped s) where
  move_block-content :
      (alen i : ℕ)
      → i < s.din.blocks
      → move_block no_fault false bytes alen i s
        ≡ some (done (bytes_from (content s) (i * sfs_blksize) sfs_blksize), s)
  unfolding move_block
  move_block-content alen i l =
      bind_done (sfs_bmap_load_nolock no_fault i) (λ ino. sfs_rblock no_fault ino 1)
        (sfs_bmap_load-mapped s i mapped l)
      ∙ sfs_rblock-bytes s (block_of s i) (mapped.mapped i l)
      ∙ ap (λ b. some (done b, s))
          (block_content s i 0 sfs_blksize (omega arith)
            ∙ ap (λ n. bytes_from (content s) n sfs_blksize) (omega arith))

  move_part-content :
      (alen size i off : ℕ)
      → i < s.din.blocks
      → off < sfs_blksize
      → off + size ≤ sfs_blksize
      → move_part no_fault false bytes alen size i off s
        ≡ some (done (bytes_from (content s) (i * sfs_blksize + off) size), s)
  unfolding move_part
  move_part-content alen size i off l low high =
      bind_done (sfs_bmap_load_nolock no_fault i) (λ ino. sfs_rbuf no_fault size ino off)
        (sfs_bmap_load-mapped s i mapped l)
      ∙ sfs_rbuf-bytes s size (block_of s i) off (mapped.mapped i l) low high
      ∙ ap (λ b. some (done b, s)) (block_content s i off size high)

  move_blocks-content :
      (nblks i offset n : ℕ)
      → offset + n ≡ i * sfs_blksize
      → i + nblks ≤ s.din.blocks
      → move_blocks no_fault false bytes nblks i (upto s offset n) s
        ≡ some (upto s offset (n + nblks * sfs_blksize), s)
  unfolding move_blocks
  move_blocks-content zero i offset n e l = ap (λ k. some (upto s offset k, s)) (omega arith)
  move_blocks-content (suc nblks) i offset n e l =
      let part = move_block no_fault false bytes n i in
      let moved : part s ≡ some (done (bytes_from (content s) (offset + n) sfs_blksize), s) =
        move_block-content n i (omega arith)
        ∙ ap (λ k. some (done (bytes_from (content s) k sfs_blksize), s)) (sym e) in
      rw (advance-upto part s offset n sfs_blksize moved, move_blocks)
        (move_blocks-content nblks (i + 1) offset (n + sfs_blksize) (omega arith) (omega arith)
          ∙ ap (λ k. some (upto s offset k, s)) (omega arith))

  move_rest-content :
      (first whole offset n endpos : ℕ)
      → offset + n ≡ first * sfs_blksize
      → first + whole ≡ endpos / sfs_blksize
      → offset + n ≤ endpos
      → endpos ≤ s.din.blocks * sfs_blksize
      → move_rest no_fault false bytes first whole offset endpos (upto s offset n) s
        ≡ some (upto s offset (endpos - offset), s)
  unfolding move_rest
  move_rest-content first whole offset n endpos start blocks low high =
      let got = n + whole * sfs_blksize in
      let moved = move_blocks-content whole first offset n start (omega arith) in
      elim (Bool-cases (ltb (offset + got) endpos)) [
        | inl e ↦
            let before : offset + got < endpos = ground arith in
            let rest = endpos - (offset + got) in
            let part : move_part no_fault false bytes got rest (first + whole) 0 s
                ≡ some (done (bytes_from (content s) (offset + got) rest), s) =
              move_part-content got rest (first + whole) 0 (omega arith) (omega arith) (omega arith)
              ∙ ap (λ k. some (done (bytes_from (content s) k rest), s)) (omega arith) in
            let all : got + rest ≡ endpos - offset = ground arith in
            rw (moved, move_rest, e)
              (advance-upto (move_part no_fault false bytes got rest (first + whole) 0) s offset got
                  rest part
                ∙ ap (λ k. some (upto s offset k, s)) all)
        | inr e ↦
            let all : got ≡ endpos - offset = ground arith in
            rw (moved, move_rest, e) (ap (λ k. some (upto s offset k, s)) all)
      ]

  move_rest-none :
      (first offset n endpos : ℕ)
      → offset + n ≡ endpos
      → move_rest no_fault false bytes first 0 offset endpos (upto s offset n) s
        ≡ some (upto s offset n, s)
  unfolding move_rest move_blocks
  move_rest-none first offset n endpos e =
      let all : ltb (offset + n) endpos ≡ false = ground arith in rw all refl

  move_all-content :
      (offset endpos : ℕ)
      → offset < endpos
      → endpos ≤ s.din.blocks * sfs_blksize
      → move_all no_fault false bytes offset endpos s ≡ some (upto s offset (endpos - offset), s)
  unfolding move_all
  move_all-content offset endpos l high =
      let i = offset / sfs_blksize in
      let off = offset % sfs_blksize in
      elim (Bool-cases (off == 0)) [
        | inl e ↦
            rw (e, from_start s offset)
              (move_rest-content i (endpos / sfs_blksize - i) offset 0 endpos (ground arith)
                (omega arith) (omega arith) high)
        | inr e ↦ elim (Bool-cases (endpos / sfs_blksize - i == 0)) [
          | inl f ↦
              let size = endpos - offset in
              let part : move_part no_fault false bytes 0 size i off s
                  ≡ some (done (bytes_from (content s) (offset + 0) size), s) =
                move_part-content 0 size i off (omega arith) (omega arith) (ground arith)
                ∙ ap (λ k. some (done (bytes_from (content s) k size), s)) (omega arith) in
              let none_left : endpos / sfs_blksize - i - 1 ≡ 0 = ground arith in
              rw
                (
                  e,
                  from_start s offset,
                  f,
                  advance-upto (move_part no_fault false bytes 0 size i off) s offset 0 size part,
                  none_left,
                )
                (move_rest-none (i + 1) offset (0 + size) endpos (omega arith)
                  ∙ ap (λ k. some (upto s offset k, s)) (omega arith))
          | inr f ↦
              let size = sfs_blksize - off in
              let later : i + 1 ≤ endpos / sfs_blksize = ground arith in
              let part : move_part no_fault false bytes 0 size i off s
                  ≡ some (done (bytes_from (content s) (offset + 0) size), s) =
                move_part-content 0 size i off (omega arith) (omega arith) (omega arith)
                ∙ ap (λ k. some (done (bytes_from (content s) k size), s)) (omega arith) in
              rw
                (
                  e,
                  from_start s offset,
                  f,
                  advance-upto (move_part no_fault false bytes 0 size i off) s offset 0 size part,
                )
                (move_rest-content (i + 1) (endpos / sfs_blksize - i - 1) offset (0 + size) endpos
                  (omega arith) (omega arith) (omega arith) high)
        ]
      ]

-- On a device that does not fail, reading `len` bytes at a position below SFS_MAX_FILE_SIZE of a
-- file whose blocks are all mapped and hold its size returns, without an error, the bytes of the file
-- from there on, up to its size at most, and leaves the file system as it was. The position and
-- `len` together stay below 2 ^ 63.
pub sfs_io_nolock-content :
    (bytes : List ℕ) (s : Sfs) (offset len : ℕ)
    → IsMapped s
    → s.din.is_dir ≡ false
    → offset < sfs_max_file_size
    → offset + len < 2 ^ 63
    → sfs_io_nolock no_fault false bytes offset len s
      ≡ some (
        upto s offset
            ((if ltb s.din.size (offset + len) then s.din.size else offset + len) - offset),
        s,
      )
unfolding sfs_io_nolock set_size
sfs_io_nolock-content bytes s offset len v file low high =
    let asked : (offset + len) % 2 ^ 64 ≡ offset + len = omega arith in
    let not_high : leb sfs_max_file_size offset ≡ false = ground arith in
    let not_negative : leb (2 ^ 63) (offset + len) ≡ false = ground arith in
    let in_order : ltb (offset + len) offset ≡ false = ground arith in
    let bound = v.top in
    let fits = v.fits in
    elim (Bool-cases (offset == offset + len || leb s.din.size offset)) [
      | inl e ↦
          let none_wanted : (if ltb s.din.size (offset + len) then s.din.size else offset + len)
                - offset
              ≡ 0 =
            ground arith in
          rw (asked, not_high, not_negative, in_order, e, none_wanted, ← from_start s offset, file)
            refl
      | inr e ↦
          let endpos = if ltb s.din.size (offset + len) then s.din.size else offset + len in
          let last : (if true
                  && ltb s.din.size (
                      if ltb sfs_max_file_size (offset + len)
                      then sfs_max_file_size
                      else offset + len)
                then s.din.size
                else (if ltb sfs_max_file_size (offset + len)
                    then sfs_max_file_size
                    else offset + len))
              ≡ endpos =
            ground arith in
          let same_size : ltb s.din.size (offset + (endpos - offset)) ≡ false = ground arith in
          rw
            (
              asked,
              not_high,
              not_negative,
              in_order,
              e,
              last,
              move_all-content bytes s v offset endpos (ground arith) (ground arith),
              same_size,
              file,
            )
            refl
    ]
