-- ===== src/Sfs/Mapped.antt =====
-- A file whose blocks are all mapped, in lab8/kern/fs/sfs.
use os_experiment.Prelude.{
  ℕ, ◌+◌, ◌-◌, ◌*◌, ◌^◌, ◌≡◌, ◌≢◌, ◌≤◌, ◌<◌, refl, Bool, true, false, not, ◌||◌, Option, none, some,
  List, ◌==◌, ltb, leb, if◌then◌else◌, arith, Bool-cases, inl, inr, ap, ◌∙◌,
}
use os_experiment.Bitmap.{bitmap_test}
use os_experiment.Bitmap.Laws.{is_free}
use os_experiment.Sfs.{
  Sfs, Run, Error, Outcome, done, failed, pure, assert, ◌>>=◌, ◌>>◌, sfs_blksize, sfs_ndirect,
  sfs_blk_nentry,
}
use os_experiment.Sfs.Blocks.{place, bytes_from, sfs_block_inuse, read_block, sfs_rbuf}
use os_experiment.Sfs.BlockMap.{
  le32, new_entry, set_din, sfs_bmap_get_sub_nolock, get_direct, get_indirect, sfs_bmap_get_nolock,
  sfs_bmap_load_nolock,
}

-- The disk block of the block `i` of the file.
unfoldable pub block_of : Sfs → ℕ → ℕ
block_of s i =
    if ltb i sfs_ndirect
    then s.din.direct i
    else le32 (bytes_from (s.disk s.din.indirect) ((i - sfs_ndirect) * 4) 4)

pub record IsUsed (s : Sfs) (b : ℕ) : Type 0 where
  pub not_null : b ≢ 0
  pub inside : b < s.super_blocks
  pub addressed : b < 2 ^ 20
  pub used : is_free s.freemap b ≡ false

pub record IsMapped (s : Sfs) : Type 0 where
  pub bitmap : s.super_blocks ≤ s.freemap.nbits
  pub fits : s.din.size ≤ s.din.blocks * sfs_blksize
  pub top : s.din.blocks ≤ sfs_ndirect + sfs_blk_nentry
  pub mapped : (i : ℕ) → i < s.din.blocks → IsUsed s (block_of s i)
  pub entries : sfs_ndirect < s.din.blocks → IsUsed s s.din.indirect

-- A device that never fails.
abbrev pub no_fault : ℕ → Bool → Bool
no_fault blkno write = false

-- What a bind does after a step that succeeds.
pub bind_done :
    {A B : Type 0} (m : Run A) (f : A → Run B) {s t : Sfs} {a : A}
    → m s ≡ some (done a, t)
    → (m >>= f) s ≡ f a t
bind_done {B = B} m f e =
    ap
      (λ r. elim r as (λ x. Option (Outcome B × Sfs)) [
        | none ↦ none
        | some (done a, t) ↦ f a t
        | some (failed e, t) ↦ some (failed e, t)
      ])
      e

pub bind_failed :
    {A B : Type 0} (m : Run A) (f : A → Run B) {s t : Sfs} {e : Error}
    → m s ≡ some (failed e, t)
    → (m >>= f) s ≡ some (failed e, t)
bind_failed {B = B} m f p =
    ap
      (λ r. elim r as (λ x. Option (Outcome B × Sfs)) [
        | none ↦ none
        | some (done a, t) ↦ f a t
        | some (failed e, t) ↦ some (failed e, t)
      ])
      p

pub inuse-IsUsed :
    (fault : ℕ → Bool → Bool) (s : Sfs) (b : ℕ)
    → s.super_blocks ≤ s.freemap.nbits
    → IsUsed s b
    → sfs_block_inuse fault b s ≡ some (done true, s)
unfolding sfs_block_inuse bitmap_test is_free
inuse-IsUsed fault s b e u = ground (arith, u.not_null, u.inside, u.used)

-- The first 2 ^ 20 blocks have an offset of 32 bits.
pub place_same : (b : ℕ) → b < 2 ^ 20 → place b ≡ b
place_same b l = omega arith

pub read_block-used :
    (s : Sfs) (b : ℕ) → IsUsed s b → read_block no_fault b true s ≡ some (done (s.disk b), s)
unfolding read_block
read_block-used s b u =
    let there : (b == 0) ≡ false = ground (arith, u.not_null) in
    let low : ltb b s.super_blocks ≡ true = ground (arith, u.inside) in
    rw (there, low, place_same b u.addressed) refl

pub sfs_rbuf-bytes :
    (s : Sfs) (len b offset : ℕ)
    → IsUsed s b
    → offset < sfs_blksize
    → offset + len ≤ sfs_blksize
    → sfs_rbuf no_fault len b offset s ≡ some (done (bytes_from (s.disk b) offset len), s)
unfolding sfs_rbuf
sfs_rbuf-bytes s len b offset u low high =
    let first : ltb offset sfs_blksize ≡ true = ground arith in
    let last : leb (offset + len) sfs_blksize ≡ true = ground arith in
    rw (first, last)
      (bind_done (read_block no_fault b true) (λ block. pure (bytes_from block offset len))
        (read_block-used s b u))

entry :
    (s : Sfs) (index : ℕ)
    → IsUsed s s.din.indirect
    → index < sfs_blk_nentry
    → sfs_bmap_get_sub_nolock no_fault s.din.indirect index false s
      ≡ some (done (s.din.indirect, le32 (bytes_from (s.disk s.din.indirect) (index * 4) 4)), s)
unfolding sfs_bmap_get_sub_nolock
entry s index u l =
    let there : (s.din.indirect == 0) ≡ false = ground (arith, u.not_null) in
    let low : ltb index sfs_blk_nentry ≡ true = ground arith in
    let word = bytes_from (s.disk s.din.indirect) (index * 4) 4 in
    rw (low, there)
      (bind_done {A = List ℕ} {B = ℕ × ℕ} (sfs_rbuf no_fault 4 s.din.indirect (index * 4))
          (λ l.
            if not (le32 l == 0) || not false
            then pure (s.din.indirect, le32 l)
            else new_entry no_fault s.din.indirect false index)
          (sfs_rbuf-bytes s 4 s.din.indirect (index * 4) u (omega arith) (omega arith))
        ∙ kept word)
  where
    kept :
        (l : List ℕ)
        → (if not (le32 l == 0) || not false
              then pure (s.din.indirect, le32 l)
              else new_entry no_fault s.din.indirect false index)
            s
          ≡ some (done (s.din.indirect, le32 l), s)
    kept l = elim (Bool-cases (le32 l == 0)) [ inl e ↦ rw e refl | inr e ↦ rw e refl ]

get_direct-kept :
    (s : Sfs) (index : ℕ) → get_direct no_fault index false s ≡ some (done (s.din.direct index), s)
unfolding get_direct
get_direct-kept s index = elim (Bool-cases (s.din.direct index == 0)) [
  | inl e ↦ rw e refl
  | inr e ↦ rw e refl
]

get_indirect-kept :
    (s : Sfs) (index : ℕ)
    → IsUsed s s.din.indirect
    → index < sfs_blk_nentry
    → get_indirect no_fault index false s
      ≡ some (done (le32 (bytes_from (s.disk s.din.indirect) (index * 4) 4)), s)
unfolding get_indirect
get_indirect-kept s index u l =
    let same : (s.din.indirect == s.din.indirect) ≡ true = ground arith in
    bind_done (sfs_bmap_get_sub_nolock no_fault s.din.indirect index false)
      (λ (ent, ino).
        (if ent == s.din.indirect
          then pure tt
          else assert (s.din.indirect == 0)
            >> set_din (λ d. record d { indirect = ent; dirty = true }))
        >> pure ino)
      (entry s index u l)
    ∙ (rw same refl)

checked :
    (s : Sfs) (b : ℕ)
    → s.super_blocks ≤ s.freemap.nbits
    → IsUsed s b
    → ((if b == 0 then pure tt else (sfs_block_inuse no_fault b >>= λ used. assert used)) >> pure b)
        s
      ≡ some (done b, s)
checked s b e u =
    let there : (b == 0) ≡ false = ground (arith, u.not_null) in
    rw there (
      bind_done (sfs_block_inuse no_fault b >>= λ used. assert used) (λ x. pure b)
        (bind_done (sfs_block_inuse no_fault b) (λ used. assert used)
          (inuse-IsUsed no_fault s b e u)))

block_of-direct : (s : Sfs) (i : ℕ) → ltb i sfs_ndirect ≡ true → block_of s i ≡ s.din.direct i
unfolding block_of
block_of-direct s i e = rw e refl

block_of-indirect :
    (s : Sfs) (i : ℕ)
    → ltb i sfs_ndirect ≡ false
    → block_of s i ≡ le32 (bytes_from (s.disk s.din.indirect) ((i - sfs_ndirect) * 4) 4)
unfolding block_of
block_of-indirect s i e = rw e refl

-- The part of `sfs_bmap_get_nolock` that depends on the index.
abbrev chosen : ℕ → Run ℕ
chosen i =
    if ltb i sfs_ndirect
    then get_direct no_fault i false
    else if ltb (i - sfs_ndirect) sfs_blk_nentry
    then get_indirect no_fault (i - sfs_ndirect) false
    else (λ s. none)

sfs_bmap_get-mapped :
    (s : Sfs) (i : ℕ)
    → IsMapped s
    → i < s.din.blocks
    → sfs_bmap_get_nolock no_fault i false s ≡ some (done (block_of s i), s)
unfolding sfs_bmap_get_nolock
sfs_bmap_get-mapped s i v l =
    bind_done (chosen i)
      (λ ino.
        (if ino == 0 then pure tt else (sfs_block_inuse no_fault ino >>= λ used. assert used))
        >> pure ino)
      got
    ∙ checked s (block_of s i) v.bitmap (v.mapped i l)
  where
    got : chosen i s ≡ some (done (block_of s i), s)
    got = elim (Bool-cases (ltb i sfs_ndirect)) [
      | inl e ↦ rw (e, block_of-direct s i e) (get_direct-kept s i)
      | inr e ↦
          let inside : ltb (i - sfs_ndirect) sfs_blk_nentry ≡ true = ground (arith, v.top) in
          rw (e, inside, block_of-indirect s i e)
            (get_indirect-kept s (i - sfs_ndirect) (v.entries (ground arith)) (ground arith))
    ]

-- A block that the file has is found without any change.
pub sfs_bmap_load-mapped :
    (s : Sfs) (i : ℕ)
    → IsMapped s
    → i < s.din.blocks
    → sfs_bmap_load_nolock no_fault i s ≡ some (done (block_of s i), s)
unfolding sfs_bmap_load_nolock
sfs_bmap_load-mapped s i v l =
    let old : (i == s.din.blocks) ≡ false = ground arith in
    let low : leb i s.din.blocks ≡ true = ground arith in
    rw (old, low)
      (bind_done (sfs_bmap_get_nolock no_fault i false)
          (λ ino. sfs_block_inuse no_fault ino >>= λ used. assert used >> pure tt >> pure ino)
          (sfs_bmap_get-mapped s i v l)
        ∙ bind_done (sfs_block_inuse no_fault (block_of s i))
            (λ used. assert used >> pure tt >> pure (block_of s i))
            (inuse-IsUsed no_fault s (block_of s i) v.bitmap (v.mapped i l)))
