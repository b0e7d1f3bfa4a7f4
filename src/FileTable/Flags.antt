-- ===== src/FileTable/Flags.antt =====
-- The flags of `file_open` in lab8/kern/fs/file.c, as lab8/libs/unistd.h numbers them.
use os_experiment.Prelude.{ℕ, ◌/◌, ◌%◌, ◌≡◌, refl, Bool, true, false, some, if◌then◌else◌, arith}
use os_experiment.FileTable.Calls.{access_mode, appends}

-- What a caller asks for in the lowest two bits of the flags: O_RDONLY, O_WRONLY or O_RDWR.
pub data Access : Type 0 where
  read_only : Access
  write_only : Access
  read_write : Access

abbrev pub mode_bits : Access → ℕ
mode_bits read_only = 0
mode_bits write_only = 1
mode_bits read_write = 2

abbrev pub can_read : Access → Bool
can_read read_only = true
can_read write_only = false
can_read read_write = true

abbrev pub can_write : Access → Bool
can_write read_only = false
can_write write_only = true
can_write read_write = true

pub access_mode-bits :
    (a : Access) (flags : ℕ)
    → flags % 4 ≡ mode_bits a
    → access_mode flags ≡ some (can_read a, can_write a)
unfolding access_mode
access_mode-bits read_only flags e = rw e refl
access_mode-bits write_only flags e = rw e refl
access_mode-bits read_write flags e = rw e refl

pub appends-bit :
    (flags : ℕ) (append : Bool)
    → flags / 32 % 2 ≡ (if append then 1 else 0)
    → appends flags ≡ append
appends-bit flags true e = ground arith
appends-bit flags false e = ground arith
