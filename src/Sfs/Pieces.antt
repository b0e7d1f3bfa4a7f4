-- ===== src/Sfs/Pieces.antt =====
-- One piece of a write over the blocks that a file has, lab8/kern/fs/sfs/sfs_inode.c.
use os_experiment.Prelude.{
  ℕ, zero, suc, ◌+◌, ◌-◌, ◌*◌, ◌≡◌, ◌≢◌, ◌≤◌, ◌<◌, refl, true, false, ◌&&◌, Option, none, some,
  List, [], ◌∷◌, length, take, drop, length-take, length-drop, get_or, update, ◌==◌, ltb, leb,
  if◌then◌else◌, arith, Bool-cases, inl, inr, ap, sym, ◌∙◌,
}
use mathlib.Core.Path.{subst}
use os_experiment.Sfs.{Sfs, Run, done, pure, ◌>>◌, sfs_blksize, sfs_ndirect}
use os_experiment.Sfs.Blocks.{with_bytes, read_block, write_block, sfs_wblock, sfs_wbuf}
use os_experiment.Sfs.BlockMap.{le32, sfs_bmap_load_nolock}
use os_experiment.Sfs.Transfer.{Moved, move_part, move_block, advance}
use os_experiment.Sfs.Mapped.{
  block_of, IsUsed, IsMapped, no_fault, bind_done, place_same, read_block-used,
  sfs_bmap_load-mapped,
}
use os_experiment.Sfs.Read.{content, bytes_from-same}

-- No two blocks of the file, nor one and the indirect block, share a disk block.
pub record IsApart (s : Sfs) : Type 0 where
  pub distinct :
      (i j : ℕ) → i < s.din.blocks → j < s.din.blocks → block_of s i ≡ block_of s j → i ≡ j
  pub entry_apart :
      sfs_ndirect < s.din.blocks → (i : ℕ) → i < s.din.blocks → block_of s i ≢ s.din.indirect

-- The file system with another disk.
abbrev pub on : Sfs → (ℕ → ℕ → ℕ) → Sfs
on s d = record s { disk = d }

pub get_or-take : (l : List ℕ) (size j : ℕ) → j < size → get_or (take size l) j 0 ≡ get_or l j 0
get_or-take l zero j k = absurd (omega arith)
get_or-take [] (suc size) j k = refl
get_or-take (x ∷ l) (suc size) zero k = refl
get_or-take (x ∷ l) (suc size) (suc j) k = get_or-take l size j (omega arith)

get_or-drop : (l : List ℕ) (n j : ℕ) → get_or (drop n l) j 0 ≡ get_or l (n + j) 0
get_or-drop l zero j = ap (λ k. get_or l k 0) (omega arith)
get_or-drop [] (suc n) j = refl
get_or-drop (x ∷ l) (suc n) j =
    let next : suc n + j ≡ suc (n + j) = omega arith in rw next (get_or-drop l n j)

length-part : (l : List ℕ) (n size : ℕ) → n + size ≤ length l → length (take size (drop n l)) ≡ size
length-part l n size h = omega (arith, length-take size (drop n l), length-drop n l)

with_bytes-part :
    (l : List ℕ) (block : ℕ → ℕ) (n size off o : ℕ)
    → n + size ≤ length l
    → with_bytes block off (take size (drop n l)) o
      ≡ (if leb off o && ltb o (off + size) then get_or l (n + (o - off)) 0 else block o)
with_bytes-part l block n size off o h =
    rw (length-part l n size h) (elim (Bool-cases (leb off o && ltb o (off + size))) [
      | inl e ↦
          rw e (get_or-take (drop n l) size (o - off) (ground arith) ∙ get_or-drop l n (o - off))
      | inr e ↦ rw e refl
    ])

write_block-on :
    (s : Sfs) (b : ℕ) (block : ℕ → ℕ)
    → IsUsed s b
    → write_block no_fault b true block s ≡ some (done tt, on s (update s.disk b block))
unfolding write_block
write_block-on s b block u =
    let there : (b == 0) ≡ false = ground (arith, u.not_null) in
    let low : ltb b s.super_blocks ≡ true = ground (arith, u.inside) in
    rw (there, low, place_same b u.addressed) refl

pub sfs_wbuf-on :
    (l : List ℕ) (s : Sfs) (b off : ℕ)
    → IsUsed s b
    → off < sfs_blksize
    → off + length l ≤ sfs_blksize
    → sfs_wbuf no_fault l b off s
      ≡ some (done tt, on s (update s.disk b (with_bytes (s.disk b) off l)))
unfolding sfs_wbuf
sfs_wbuf-on l s b off u low high =
    let first : ltb off sfs_blksize ≡ true = ground arith in
    let last : leb (off + length l) sfs_blksize ≡ true = ground arith in
    rw (first, last)
      (bind_done (read_block no_fault b true)
          (λ block. write_block no_fault b true (with_bytes block off l)) (read_block-used s b u)
        ∙ write_block-on s b (with_bytes (s.disk b) off l) u)

sfs_wblock-on :
    (l : List ℕ) (s : Sfs) (b : ℕ)
    → IsUsed s b
    → sfs_wblock no_fault l b 1 s ≡ some (done tt, on s (update s.disk b (λ o. get_or l o 0)))
unfolding sfs_wblock
sfs_wblock-on l s b u =
    bind_done (write_block no_fault b true (λ o. get_or l o 0)) (λ x. pure tt)
      (write_block-on s b (λ o. get_or l o 0) u)

-- What a transfer has done after `n` bytes written.
abbrev pub sent : ℕ → Moved
sent n = record { alen = n; got = []; error = none }

advance-sent :
    (part : Run (List ℕ)) (s t : Sfs) (n m : ℕ)
    → part s ≡ some (done [], t)
    → advance part m (sent n) s ≡ some (sent (n + m), t)
unfolding advance
advance-sent part s t n m e = rw e refl

module _ (bytes : List ℕ) (s : Sfs) (offset : ℕ) where
  -- The byte at a position when `n` bytes are written.
  abbrev pub written : ℕ → ℕ → ℕ
  written n pos =
      if leb offset pos && ltb pos (offset + n)
      then get_or bytes (pos - offset) 0
      else content s pos

  written_outside :
      (n size pos : ℕ)
      → (leb (offset + n) pos && ltb pos (offset + (n + size))) ≡ false
      → written n pos ≡ written (n + size) pos
  written_outside n size pos e =
      let same : (leb offset pos && ltb pos (offset + n))
          ≡ (leb offset pos && ltb pos (offset + (n + size))) =
        ground arith in
      ap (λ b. if b then get_or bytes (pos - offset) 0 else content s pos) same

  written_inside :
      (n size pos : ℕ)
      → (leb (offset + n) pos && ltb pos (offset + (n + size))) ≡ true
      → get_or bytes (pos - offset) 0 ≡ written (n + size) pos
  written_inside n size pos e =
      let inside : (leb offset pos && ltb pos (offset + (n + size))) ≡ true = ground arith in
      rw inside refl

  pub record Written (n : ℕ) (d : ℕ → ℕ → ℕ) : Type 0 where
    pub blocks :
        (i o : ℕ)
        → i < s.din.blocks
        → o < sfs_blksize
        → d (block_of s i) o ≡ written n (i * sfs_blksize + o)
    pub entries :
        sfs_ndirect < s.din.blocks → (o : ℕ) → d s.din.indirect o ≡ s.disk s.din.indirect o

module _ (bytes : List ℕ) (s : Sfs) (offset : ℕ) (mapped : IsMapped s) (apart : IsApart s) where
  pub block_of-on :
      (n : ℕ) (d : ℕ → ℕ → ℕ) (i : ℕ)
      → Written bytes s offset n d
      → i < s.din.blocks
      → block_of (on s d) i ≡ block_of s i
  unfolding block_of
  block_of-on n d i w l = elim (Bool-cases (ltb i sfs_ndirect)) [
    | inl e ↦ rw e refl
    | inr e ↦ rw e (ap le32 (bytes_from-same _ _ _ _ 4 (λ j k. w.entries (ground arith) _)))
  ]

  pub on-IsMapped : (n : ℕ) (d : ℕ → ℕ → ℕ) → Written bytes s offset n d → IsMapped (on s d)
  on-IsMapped n d w = record {
    bitmap = mapped.bitmap;
    fits = mapped.fits;
    top = mapped.top;
    mapped = λ i l.
        let u = mapped.mapped i l in
        subst (λ b. IsUsed (on s d) b) (sym (block_of-on n d i w l))
          (record {
            not_null = u.not_null;
            inside = u.inside;
            addressed = u.addressed;
            used = u.used;
          });
    entries = λ l.
        let u = mapped.entries l in
        record { not_null = u.not_null; inside = u.inside; addressed = u.addressed; used = u.used };
  }

  -- One more piece of `size` bytes in a block.
  piece :
      (n size i off : ℕ) (d : ℕ → ℕ → ℕ) (block : ℕ → ℕ)
      → Written bytes s offset n d
      → offset + n ≡ i * sfs_blksize + off
      → off + size ≤ sfs_blksize
      → i < s.din.blocks
      → ((o : ℕ)
          → o < sfs_blksize
          → block o ≡ (
              if leb off o && ltb o (off + size)
              then get_or bytes (n + (o - off)) 0
              else d (block_of s i) o))
      → Written bytes s offset (n + size) (update d (block_of s i) block)
  piece n size i off d block w start fits l new = record {
    blocks = λ j o k low. elim (Bool-cases (block_of s j == block_of s i)) [
      | inl e ↦
          let same : j ≡ i = apart.distinct j i k l (ground arith) in
          subst
            (λ j.
              update d (block_of s i) block (block_of s j) o
              ≡ written bytes s offset (n + size) (j * sfs_blksize + o))
            (sym same) (at_block o low)
      | inr e ↦
          let far : j ≢ i = λ q. ground (arith, e, ap (block_of s) q) in
          rw e (
            w.blocks j o k low
            ∙ written_outside bytes s offset n size (j * sfs_blksize + o) (ground arith))
    ];
    entries = λ many o.
        let other : (s.din.indirect == block_of s i) ≡ false =
          ground (arith, apart.entry_apart many i l) in
        rw other (w.entries many o);
  }
    where
      at_block :
          (o : ℕ)
          → o < sfs_blksize
          → update d (block_of s i) block (block_of s i) o
            ≡ written bytes s offset (n + size) (i * sfs_blksize + o)
      at_block o low =
          let same : (block_of s i == block_of s i) ≡ true = ground arith in
          let pos = i * sfs_blksize + o in
          rw same (
            new o low ∙ elim (Bool-cases (leb off o && ltb o (off + size))) [
              | inl e ↦
                  let index : n + (o - off) ≡ pos - offset = ground arith in
                  rw (e, index) (written_inside bytes s offset n size pos (ground arith))
              | inr e ↦
                  rw e
                    (w.blocks i o l low ∙ written_outside bytes s offset n size pos (ground arith))
            ])

  IsUsed-on : (d : ℕ → ℕ → ℕ) (i : ℕ) → i < s.din.blocks → IsUsed (on s d) (block_of s i)
  IsUsed-on d i l =
      let u = mapped.mapped i l in
      record { not_null = u.not_null; inside = u.inside; addressed = u.addressed; used = u.used }

  load-on :
      (n : ℕ) (d : ℕ → ℕ → ℕ) (i : ℕ)
      → Written bytes s offset n d
      → i < s.din.blocks
      → sfs_bmap_load_nolock no_fault i (on s d) ≡ some (done (block_of s i), on s d)
  load-on n d i w l =
      sfs_bmap_load-mapped (on s d) i (on-IsMapped n d w) l
      ∙ ap (λ b. some (done b, on s d)) (block_of-on n d i w l)

  -- A step of a write that goes well: the bytes up to `n` are written.
  unfoldable pub Goes : (Sfs → Option (Moved × Sfs)) → ℕ → (ℕ → ℕ → ℕ) → Type 0
  Goes step n d =
      (d' : ℕ → ℕ → ℕ) × (step (on s d) ≡ some (sent n, on s d')) × Written bytes s offset n d'

  pub move_part-on :
      (n size i off : ℕ) (d : ℕ → ℕ → ℕ)
      → Written bytes s offset n d
      → offset + n ≡ i * sfs_blksize + off
      → off < sfs_blksize
      → off + size ≤ sfs_blksize
      → i < s.din.blocks
      → n + size ≤ length bytes
      → Goes (advance (move_part no_fault true bytes n size i off) size (sent n)) (n + size) d
  unfolding Goes move_part
  move_part-on n size i off d w start low high l enough =
      let part = take size (drop n bytes) in
      let len = length-part bytes n size enough in
      let block = with_bytes (d (block_of s i)) off part in
      let did =
        bind_done (sfs_bmap_load_nolock no_fault i)
          (λ ino. sfs_wbuf no_fault part ino off >> pure []) (load-on n d i w l)
        ∙ bind_done (sfs_wbuf no_fault part (block_of s i) off) (λ x. pure [])
            (sfs_wbuf-on part (on s d) (block_of s i) off (IsUsed-on d i l) low (omega arith)) in
      (
        update d (block_of s i) block,
        advance-sent _ (on s d) _ n size did,
        piece n size i off d block w start high l
            (λ o k. with_bytes-part bytes (d (block_of s i)) n size off o enough),
      )

  pub move_block-on :
      (n i : ℕ) (d : ℕ → ℕ → ℕ)
      → Written bytes s offset n d
      → offset + n ≡ i * sfs_blksize
      → i < s.din.blocks
      → Goes (advance (move_block no_fault true bytes n i) sfs_blksize (sent n)) (n + sfs_blksize) d
  unfolding Goes move_block
  move_block-on n i d w start l =
      let block = λ (o : ℕ). get_or (drop n bytes) o 0 in
      let did =
        bind_done (sfs_bmap_load_nolock no_fault i)
          (λ ino. sfs_wblock no_fault (drop n bytes) ino 1 >> pure []) (load-on n d i w l)
        ∙ bind_done (sfs_wblock no_fault (drop n bytes) (block_of s i) 1) (λ x. pure [])
            (sfs_wblock-on (drop n bytes) (on s d) (block_of s i) (IsUsed-on d i l)) in
      (
        update d (block_of s i) block,
        advance-sent _ (on s d) _ n sfs_blksize did,
        piece n sfs_blksize i 0 d block w (omega arith) (omega arith) l
            (λ o k. get_or-drop bytes n o ∙ whole_part o k),
      )
    where
      whole_part :
          (o : ℕ)
          → o < sfs_blksize
          → get_or bytes (n + o) 0 ≡ (
              if leb 0 o && ltb o (0 + sfs_blksize)
              then get_or bytes (n + (o - 0)) 0
              else d (block_of s i) o)
      whole_part o k =
          let inside : (leb 0 o && ltb o (0 + sfs_blksize)) ≡ true = ground arith in
          rw inside (ap (λ j. get_or bytes (n + j) 0) (omega arith))
