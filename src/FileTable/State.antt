-- ===== src/FileTable/State.antt =====
-- The open-files table of lab8/kern/fs/file.h, with the inodes behind an interface.
use os_experiment.Prelude.{ℕ, Bool, Option, List, true, false}

-- The `status` of a `struct file`: FD_NONE, FD_INIT, FD_OPENED, FD_CLOSED.
pub data Status : Type 0 where
  unused fresh opened closed : Status

pub data Error : Type 0 where
  e_max_open e_busy e_inval : Error
  e_vfs : ℕ → Error

pub data Result (A : Type 0) : Type 0 where
  ok : A → Result A
  err : Error → Result A

-- `struct file`. A position is a 64-bit word, and an inode is the number of its address.
pub record File : Type 0 where
  pub status : Status
  pub readable : Bool
  pub writable : Bool
  pub fd : ℕ
  pub pos : ℕ
  pub node : Option ℕ
  pub open_count : ℕ

-- A descriptor argument: NO_FD, another negative number, or a number from 0 on.
pub data Fd : Type 0 where
  no_fd negative : Fd
  number : ℕ → Fd

-- `whence`: LSEEK_SET, LSEEK_CUR, LSEEK_END, any other.
pub data Whence : Type 0 where
  seek_set seek_cur seek_end seek_other : Whence

-- What file.c calls of lab8/kern/fs/vfs, over the world `W` that these calls change. A transfer
-- returns its error, the bytes copied and the world; `none` is success.
pub record Vfs (W : Type 0) : Type 0 where
  pub vfs_open : W → ℕ → ℕ → Result ℕ × W
  pub vfs_close : W → ℕ → W
  pub vop_read : W → ℕ → ℕ → ℕ → Option Error × ℕ × W
  pub vop_write : W → ℕ → ℕ → ℕ → Option Error × ℕ × W
  pub vop_fstat : W → ℕ → Result ℕ × W
  pub vop_tryseek : W → ℕ → ℕ → Option Error × W
  pub vop_getdirentry : W → ℕ → ℕ → Option Error × ℕ × W
  pub vop_fsync : W → ℕ → Option Error × W
  pub vop_ref_open_inc : W → ℕ → W

-- The table of the current process and the world.
pub record Files (W : Type 0) : Type 0 where
  pub table : List File
  pub world : W

abbrev pub is_unused : Status → Bool
is_unused unused = true
is_unused _ = false

abbrev pub is_fresh : Status → Bool
is_fresh fresh = true
is_fresh _ = false

abbrev pub is_opened : Status → Bool
is_opened opened = true
is_opened _ = false

abbrev pub is_closed : Status → Bool
is_closed closed = true
is_closed _ = false
