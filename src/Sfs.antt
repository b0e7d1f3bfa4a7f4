-- ===== src/Sfs.antt =====
-- lab8/kern/fs/sfs: the disk blocks of the simple file system and the blocks of one of its files.
pub mod Blocks
pub mod BlockMap
pub mod Transfer
pub mod Mapped
pub mod Read
pub mod Pieces
pub mod Overwrite
pub mod RoundTrip
pub mod Balance
use os_experiment.Prelude.{
  ℕ, zero, suc, ◌+◌, Bool, Option, none, some, List, [], ◌∷◌, if◌then◌else◌, true, false,
}
use os_experiment.Bitmap.{Bitmap}

-- -E_NO_MEM, -E_INVAL, and what the device answers when a transfer fails.
pub data Error : Type 0 where
  no_mem inval io : Error

pub data Outcome {ℓ} (A : Type ℓ) : Type ℓ where
  done : A → Outcome A
  failed : Error → Outcome A

-- The `struct sfs_disk_inode` of the file at hand, with `dirty` of its `struct sfs_inode`.
pub record Inode : Type 0 where
  pub size : ℕ
  pub is_dir : Bool
  pub blocks : ℕ
  pub direct : ℕ → ℕ
  pub indirect : ℕ
  pub dirty : Bool

-- `struct sfs_fs` with the bytes of the disk, by block and offset, and the inode at hand.
pub record Sfs : Type 0 where
  pub super_blocks : ℕ
  pub unused_blocks : ℕ
  pub super_dirty : Bool
  pub freemap : Bitmap
  pub disk : ℕ → ℕ → ℕ
  pub din : Inode

-- SFS_BLKSIZE, SFS_NDIRECT, SFS_BLK_NENTRY and SFS_MAX_FILE_SIZE.
abbrev pub sfs_blksize : ℕ
sfs_blksize = 4096

abbrev pub sfs_ndirect : ℕ
sfs_ndirect = 12

abbrev pub sfs_blk_nentry : ℕ
sfs_blk_nentry = 1024

abbrev pub sfs_max_file_size : ℕ
sfs_max_file_size = 0x8000000

-- What a function of the file system returns, with the state that it leaves; `none` is a panic.
abbrev pub Run : Type 0 → Type 0
Run A = Sfs → Option (Outcome A × Sfs)

abbrev pub pure : {A : Type 0} → A → Run A
pure a s = some (done a, s)

abbrev pub fail : {A : Type 0} → Error → Run A
fail e s = some (failed e, s)

-- A failure is passed on, and what was done before it stays.
infixl 5 ◌>>=◌ ◌>>◌
abbrev pub ◌>>=◌ : {A B : Type 0} → Run A → (A → Run B) → Run B
◌>>=◌ m f s = elim (m s) [
  | none ↦ none
  | some (done a, t) ↦ f a t
  | some (failed e, t) ↦ some (failed e, t)
]

abbrev pub ◌>>◌ : {B : Type 0} → Run (Unit {0}) → Run B → Run B
m >> k = m >>= λ _. k

-- A result of `m`, or what `cleanup` makes of its failure.
abbrev pub or_else : {A : Type 0} → Run A → Run (Unit {0}) → Run A
or_else m cleanup s = elim (m s) [
  | none ↦ none
  | some (done a, t) ↦ some (done a, t)
  | some (failed e, t) ↦ elim (cleanup t) [ none ↦ none | some (r, u) ↦ some (failed e, u) ]
]

abbrev pub assert : Bool → Run (Unit {0})
assert b s = if b then some (done tt, s) else none

abbrev pub modify : (Sfs → Sfs) → Run (Unit {0})
modify f s = some (done tt, f s)
