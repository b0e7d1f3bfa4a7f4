-- ===== src/Sfs/Overwrite.antt =====
-- Writing over the blocks that a file has, lab8/kern/fs/sfs/sfs_inode.c.
use os_experiment.Prelude.{
  ℕ, zero, suc, ◌+◌, ◌-◌, ◌*◌, ◌/◌, ◌%◌, ◌≡◌, ◌≤◌, ◌<◌, refl, true, false, some, List, length, ◌==◌,
  ltb, arith, Bool-cases, inl, inr, ap, ◌∙◌,
}
use mathlib.Core.Path.{subst}
use os_experiment.Sfs.{Sfs, sfs_blksize}
use os_experiment.Sfs.Transfer.{nothing, move_part, advance, move_blocks, move_rest, move_all}
use os_experiment.Sfs.Mapped.{IsMapped, no_fault}
use os_experiment.Sfs.Pieces.{IsApart, on, sent, Written, Goes, move_part-on, move_block-on}

module _ (bytes : List ℕ) (s : Sfs) (offset : ℕ) (mapped : IsMapped s) (apart : IsApart s) where
  move_blocks-on :
      (nblks n i : ℕ) (d : ℕ → ℕ → ℕ)
      → Written bytes s offset n d
      → offset + n ≡ i * sfs_blksize
      → i + nblks ≤ s.din.blocks
      → Goes bytes s offset mapped apart
          (move_blocks no_fault true bytes nblks i (sent n))
          (n + nblks * sfs_blksize)
          d
  unfolding Goes move_blocks
  move_blocks-on zero n i d w start l = (
    d,
    ap (λ k. some (sent k, on s d)) (omega arith),
    subst (λ k. Written bytes s offset k d) (omega arith) w,
  )
  move_blocks-on (suc nblks) n i d w start l =
      let (d1, did, w1) = move_block-on bytes s offset mapped apart n i d w start (omega arith) in
      let (d2, rest, w2) =
        move_blocks-on nblks (n + sfs_blksize) (i + 1) d1 w1 (omega arith) (omega arith) in
      let all : n + sfs_blksize + nblks * sfs_blksize ≡ n + suc nblks * sfs_blksize = omega arith in
      (
        d2,
        rw (did, move_blocks) (rest ∙ ap (λ k. some (sent k, on s d2)) all),
        subst (λ k. Written bytes s offset k d2) all w2,
      )

  move_rest-on :
      (first whole n endpos : ℕ) (d : ℕ → ℕ → ℕ)
      → Written bytes s offset n d
      → offset + n ≡ first * sfs_blksize
      → first + whole ≡ endpos / sfs_blksize
      → offset + n ≤ endpos
      → endpos ≤ s.din.blocks * sfs_blksize
      → endpos - offset ≤ length bytes
      → Goes bytes s offset mapped apart
          (move_rest no_fault true bytes first whole offset endpos (sent n))
          (endpos - offset)
          d
  unfolding Goes move_rest
  move_rest-on first whole n endpos d w start blocks low high enough =
      let got = n + whole * sfs_blksize in
      let (d1, moved, w1) = move_blocks-on whole n first d w start (omega arith) in
      elim (Bool-cases (ltb (offset + got) endpos)) [
        | inl e ↦
            let before : offset + got < endpos = ground arith in
            let rest = endpos - (offset + got) in
            let all : got + rest ≡ endpos - offset = omega arith in
            let (d2, part, w2) =
              move_part-on bytes s offset mapped apart got rest (first + whole) 0 d1 w1
                (omega arith) (omega arith) (omega arith) (omega arith) (omega arith) in
            (
              d2,
              rw (moved, move_rest, e) (part ∙ ap (λ k. some (sent k, on s d2)) all),
              subst (λ k. Written bytes s offset k d2) all w2,
            )
        | inr e ↦
            let all : got ≡ endpos - offset = ground arith in
            (
              d1,
              rw (moved, move_rest, e) (ap (λ k. some (sent k, on s d1)) all),
              subst (λ k. Written bytes s offset k d1) all w1,
            )
      ]

  move_rest-none :
      (first n endpos : ℕ) (d : ℕ → ℕ → ℕ)
      → offset + n ≡ endpos
      → move_rest no_fault true bytes first 0 offset endpos (sent n) (on s d)
        ≡ some (sent n, on s d)
  unfolding move_rest move_blocks
  move_rest-none first n endpos d e =
      let all : ltb (offset + n) endpos ≡ false = ground arith in rw all refl

  -- A write within one block.
  within :
      (endpos : ℕ) (d : ℕ → ℕ → ℕ)
      → offset < endpos
      → (offset % sfs_blksize == 0) ≡ false
      → (endpos / sfs_blksize - offset / sfs_blksize == 0) ≡ true
      → Goes bytes s offset mapped apart
          (advance
            (move_part no_fault true bytes 0
              (endpos - offset)
              (offset / sfs_blksize)
              (offset % sfs_blksize))
            (endpos - offset)
            nothing)
          (0 + (endpos - offset))
          d
      → Goes bytes s offset mapped apart
          (move_all no_fault true bytes offset endpos)
          (endpos - offset)
          d
  unfolding Goes move_all
  within endpos d l e f (d1, part, w1) =
      let none_left : endpos / sfs_blksize - offset / sfs_blksize - 1 ≡ 0 = ground arith in
      (
        d1,
        rw (e, f, part, none_left)
            (move_rest-none (offset / sfs_blksize + 1) (0 + (endpos - offset)) endpos d1
                (omega arith)
              ∙ ap (λ k. some (sent k, on s d1)) (omega arith)),
        subst (λ k. Written bytes s offset k d1) (omega arith) w1,
      )

  pub move_all-on :
      (endpos : ℕ) (d : ℕ → ℕ → ℕ)
      → Written bytes s offset 0 d
      → offset < endpos
      → endpos ≤ s.din.blocks * sfs_blksize
      → endpos - offset ≤ length bytes
      → Goes bytes s offset mapped apart
          (move_all no_fault true bytes offset endpos)
          (endpos - offset)
          d
  unfolding Goes move_all
  move_all-on endpos d w l high enough =
      let i = offset / sfs_blksize in
      let off = offset % sfs_blksize in
      elim (Bool-cases (off == 0)) [
        | inl e ↦ rw e (
            move_rest-on i (endpos / sfs_blksize - i) 0 endpos d w (ground arith) (omega arith)
              (omega arith) high enough)
        | inr e ↦ elim (Bool-cases (endpos / sfs_blksize - i == 0)) [
          | inl f ↦ within endpos d l e f (
              move_part-on bytes s offset mapped apart 0 (endpos - offset) i off d w (omega arith)
                (omega arith) (ground arith) (omega arith) (omega arith))
          | inr f ↦
              let size = sfs_blksize - off in
              let later : i + 1 ≤ endpos / sfs_blksize = ground arith in
              let (d1, part, w1) =
                move_part-on bytes s offset mapped apart 0 size i off d w (omega arith)
                  (omega arith) (omega arith) (omega arith) (omega arith) in
              let (d2, rest, w2) =
                move_rest-on (i + 1) (endpos / sfs_blksize - i - 1) (0 + size) endpos d1 w1
                  (omega arith) (omega arith) (omega arith) high enough in
              (d2, rw (e, f, part) rest, w2)
        ]
      ]
