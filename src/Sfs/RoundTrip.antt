-- ===== src/Sfs/RoundTrip.antt =====
-- Writing into a file of lab8/kern/fs/sfs/sfs_inode.c whose blocks are mapped, and reading it back.
use os_experiment.Prelude.{
  ℕ, zero, suc, ◌+◌, ◌-◌, ◌*◌, ◌/◌, ◌%◌, ◌^◌, ◌≡◌, ◌≤◌, ◌<◌, refl, true, false, ◌&&◌, none, some,
  List, [], ◌∷◌, length, take, get_or, ◌==◌, ltb, leb, if◌then◌else◌, u32, arith, Bool-cases, inl,
  inr, ap, sym, ◌∙◌,
}
use mathlib.Core.Path.{subst}
use os_experiment.Sfs.{Sfs, sfs_blksize, sfs_max_file_size}
use os_experiment.Sfs.Blocks.{bytes_from}
use os_experiment.Sfs.Transfer.{move_all, set_size, sfs_io_nolock}
use os_experiment.Sfs.Mapped.{block_of, IsMapped, no_fault}
use os_experiment.Sfs.Read.{content, content-at, upto, sfs_io_nolock-content}
use os_experiment.Sfs.Pieces.{IsApart, on, sent, written, Written, Goes, block_of-on, on-IsMapped}
use os_experiment.Sfs.Overwrite.{move_all-on}

module _ (bytes : List ℕ) (s : Sfs) (offset : ℕ) (mapped : IsMapped s) (apart : IsApart s) where
  nothing_yet : Written bytes s offset 0 s.disk
  nothing_yet = record {
    blocks = λ i o l low.
        let outside : (leb offset (i * sfs_blksize + o) && ltb (i * sfs_blksize + o) (offset + 0))
            ≡ false =
          ground arith in
        rw outside (sym (content-at s (i * sfs_blksize + o) i o refl low));
    entries = λ many o. refl;
  }

  content-on :
      (n : ℕ) (d : ℕ → ℕ → ℕ)
      → Written bytes s offset n d
      → (pos : ℕ) → pos < s.din.blocks * sfs_blksize
      → content (on s d) pos ≡ written bytes s offset n pos
  content-on n d w pos l =
      let i = pos / sfs_blksize in
      let o = pos % sfs_blksize in
      let here : pos ≡ i * sfs_blksize + o = omega arith in
      content-at (on s d) pos i o here (omega arith)
      ∙ ap (λ b. d b o) (block_of-on bytes s offset mapped apart n d i w (omega arith))
      ∙ w.blocks i o (omega arith) (omega arith)
      ∙ ap (written bytes s offset n) (sym here)

  on-IsApart : (n : ℕ) (d : ℕ → ℕ → ℕ) → Written bytes s offset n d → IsApart (on s d)
  on-IsApart n d w =
      let same =
        λ (i : ℕ) (l : i < s.din.blocks). block_of-on bytes s offset mapped apart n d i w l in
      record {
        distinct = λ i j k l e. apart.distinct i j k l (sym (same i k) ∙ e ∙ same j l);
        entry_apart = λ many i l e. apart.entry_apart many i l (sym (same i l) ∙ e);
      }

-- The file with another size.
abbrev resized : Sfs → ℕ → Sfs
resized s n = record s { din = record s.din { size = n; dirty = true } }

block_of-resized : (s : Sfs) (n i : ℕ) → block_of (resized s n) i ≡ block_of s i
unfolding block_of
block_of-resized s n i = refl

content-resized : (s : Sfs) (n pos : ℕ) → content (resized s n) pos ≡ content s pos
unfolding content block_of
content-resized s n pos = refl

resized-IsMapped :
    (s : Sfs) (n : ℕ) → IsMapped s → n ≤ s.din.blocks * sfs_blksize → IsMapped (resized s n)
unfolding block_of
resized-IsMapped s n v l = record {
  bitmap = v.bitmap;
  fits = l;
  top = v.top;
  mapped = λ i k.
      let u = v.mapped i k in
      record { not_null = u.not_null; inside = u.inside; addressed = u.addressed; used = u.used };
  entries = λ k.
      let u = v.entries k in
      record { not_null = u.not_null; inside = u.inside; addressed = u.addressed; used = u.used };
}

resized-IsApart : (s : Sfs) (n : ℕ) → IsApart s → IsApart (resized s n)
unfolding block_of
resized-IsApart s n a = record { distinct = a.distinct; entry_apart = a.entry_apart }

-- What a write of `len` bytes at `offset` makes of the file.
pub record IsOverwritten (bytes : List ℕ) (offset len : ℕ) (s s' : Sfs) : Type 0 where
  pub mapped : IsMapped s'
  pub apart : IsApart s'
  pub file : s'.din.is_dir ≡ s.din.is_dir
  pub blocks : s'.din.blocks ≡ s.din.blocks
  pub size : s'.din.size ≡ (if ltb s.din.size (offset + len) then offset + len else s.din.size)
  pub bytes_there :
      (pos : ℕ) → pos < s.din.blocks * sfs_blksize → content s' pos ≡ written bytes s offset len pos

-- The end of `sfs_io_nolock` behind a transfer that succeeds.
transferred :
    (bytes : List ℕ) (s : Sfs) (offset len : ℕ) (d : ℕ → ℕ → ℕ)
    → IsMapped s
    → IsApart s
    → s.din.is_dir ≡ false
    → offset + len ≤ s.din.blocks * sfs_blksize
    → 0 < len
    → move_all no_fault true bytes offset (offset + len) s ≡ some (sent len, on s d)
    → Written bytes s offset len d
    → (s' : Sfs) × (sfs_io_nolock no_fault true bytes offset len s ≡ some (sent len, s'))
      × IsOverwritten bytes offset len s s'
unfolding sfs_io_nolock set_size
transferred bytes s offset len d v a file fits pos did w =
    let bound = v.top in
    let asked : (offset + len) % 2 ^ 64 ≡ offset + len = omega arith in
    let not_high : leb sfs_max_file_size offset ≡ false = ground arith in
    let not_capped : ltb sfs_max_file_size (offset + len) ≡ false = ground arith in
    let not_negative : leb (2 ^ 63) (offset + len) ≡ false = ground arith in
    let in_order : ltb (offset + len) offset ≡ false = ground arith in
    let some_bytes : (offset == offset + len) ≡ false = ground arith in
    let size_fits : u32 (offset + len) ≡ offset + len = omega arith in
    let v' = on-IsMapped bytes s offset v a len d w in
    let a' = on-IsApart bytes s offset v a len d w in
    elim (Bool-cases (ltb s.din.size (offset + len))) [
      | inl e ↦ (
        resized (on s d) (offset + len),
        rw
            (
              asked, not_high, not_negative, in_order, some_bytes, not_capped, did, e, size_fits,
              file,
            )
            refl,
        record {
          mapped = resized-IsMapped (on s d) (offset + len) v' fits;
          apart = resized-IsApart (on s d) (offset + len) a';
          file = refl;
          blocks = refl;
          size = rw e refl;
          bytes_there = λ p l.
              content-resized (on s d) (offset + len) p ∙ content-on bytes s offset v a len d w p l;
        },
      )
      | inr e ↦ (
        on s d,
        rw (asked, not_high, not_negative, in_order, some_bytes, not_capped, did, e, file) refl,
        record {
          mapped = v';
          apart = a';
          file = refl;
          blocks = refl;
          size = rw e refl;
          bytes_there = content-on bytes s offset v a len d w;
        },
      )
    ]

-- On a device that does not fail, writing the first `len` of the bytes given, at least one, into the
-- blocks that a file, no directory, already has, all mapped and apart from each other, reports `len`
-- bytes and no error: each byte in the range is the one given, all others are as before, the size
-- grows to the end of the range if that is behind it, and the blocks stay mapped and apart. A mapped
-- block is in use and on the disk, whose blocks the free map covers.
pub sfs_io_nolock-overwrites :
    (bytes : List ℕ) (s : Sfs) (offset len : ℕ)
    → IsMapped s
    → IsApart s
    → s.din.is_dir ≡ false
    → offset + len ≤ s.din.blocks * sfs_blksize
    → 0 < len
    → len ≤ length bytes
    → (s' : Sfs) × (sfs_io_nolock no_fault true bytes offset len s ≡ some (sent len, s'))
      × IsOverwritten bytes offset len s s'
unfolding Goes
sfs_io_nolock-overwrites bytes s offset len v a file fits pos enough =
    let count : offset + len - offset ≡ len = omega arith in
    let (d, did, w) =
      move_all-on bytes s offset v a (offset + len) s.disk (nothing_yet bytes s offset v a)
        (omega arith) fits (omega arith) in
    transferred bytes s offset len d v a file fits pos (did ∙ ap (λ k. some (sent k, on s d)) count)
      (subst (λ k. Written bytes s offset k d) count w)

bytes_from-take :
    (f : ℕ → ℕ) (offset n : ℕ) (l : List ℕ)
    → n ≤ length l
    → ((j : ℕ) → j < n → f (offset + j) ≡ get_or l j 0)
    → bytes_from f offset n ≡ take n l
unfolding bytes_from
bytes_from-take f offset zero l enough h = refl
bytes_from-take f offset (suc n) [] enough h = absurd (omega arith)
bytes_from-take f offset (suc n) (x ∷ l) enough h =
    let rest =
      bytes_from-take f (offset + 1) n l (omega arith)
        (λ j k. ap f (omega arith) ∙ h (suc j) (omega arith)) in
    let first = h 0 (omega arith) in grind (arith, rest, first)

-- What was written by `sfs_io_nolock`, under the same conditions, is what it reads back from the
-- same position, and reading changes nothing.
pub sfs_io_nolock-reads_back :
    (bytes : List ℕ) (s : Sfs) (offset len : ℕ)
    → IsMapped s
    → IsApart s
    → s.din.is_dir ≡ false
    → offset + len ≤ s.din.blocks * sfs_blksize
    → 0 < len
    → len ≤ length bytes
    → (s' : Sfs) × (sfs_io_nolock no_fault true bytes offset len s ≡ some (sent len, s'))
      × (sfs_io_nolock no_fault false [] offset len s'
          ≡ some (record { alen = len; got = take len bytes; error = none }, s'))
sfs_io_nolock-reads_back bytes s offset len v a file fits pos enough =
    let (s', did, w) = sfs_io_nolock-overwrites bytes s offset len v a file fits pos enough in
    (s', did, read_back s' w)
  where
    here : (j : ℕ) → j < len → written bytes s offset len (offset + j) ≡ get_or bytes j 0
    here j k =
        let inside : (leb offset (offset + j) && ltb (offset + j) (offset + len)) ≡ true =
          ground arith in
        rw inside (ap (λ i. get_or bytes i 0) (omega arith))

    read_back :
        (s' : Sfs)
        → IsOverwritten bytes offset len s s'
        → sfs_io_nolock no_fault false [] offset len s'
          ≡ some (record { alen = len; got = take len bytes; error = none }, s')
    read_back s' w =
        let bound = v.top in
        let all : (if ltb s'.din.size (offset + len) then s'.din.size else offset + len) - offset
            ≡ len =
          ground (arith, w.size) in
        sfs_io_nolock-content [] s' offset len w.mapped (w.file ∙ file) (omega arith) (omega arith)
        ∙ ap (λ n. some (upto s' offset n, s')) all
        ∙ ap (λ l. some (record { alen = len; got = l; error = none }, s'))
            (bytes_from-take (content s') offset len bytes enough
              (λ j k. w.bytes_there (offset + j) (omega arith) ∙ here j k))
