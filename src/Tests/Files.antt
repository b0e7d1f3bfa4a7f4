-- ===== src/Tests/Files.antt =====
-- The open-files table on small inputs.
use os_experiment.Prelude.{ℕ, ◌+◌, ◌≡◌, refl, true, false, none, some, [], ◌∷◌, arith}
use os_experiment.FileTable.State.{opened, ok, err, e_max_open, e_inval, File, number, Vfs, Files}
use os_experiment.FileTable.{blank, fd_array_alloc}
use os_experiment.FileTable.Calls.{access_mode, file_open, file_read}
use os_experiment.FileTable.Close.{IsOpen}
use os_experiment.FileTable.Lowest.{IsLowest}
use os_experiment.FileTable.Flags.{write_only}
use os_experiment.FileTable.Open.{open_start, opened_file, file_open-IsLowest, file_open-fails}
use os_experiment.FileTable.Transfer.{file_read-IsOpen}

-- Inodes of 100 bytes; the world counts how many are open.
abbrev disk : Vfs ℕ
disk = record {
  vfs_open = λ w path flags. (ok path, w + 1);
  vfs_close = λ w n. w + 1000;
  vop_read = λ w n len pos. (none, len, w);
  vop_write = λ w n len pos. (none, len, w);
  vop_fstat = λ w n. (ok 100, w);
  vop_tryseek = λ w n pos. (none, w);
  vop_getdirentry = λ w n offset. (none, 16, w);
  vop_fsync = λ w n. (none, w);
  vop_ref_open_inc = λ w n. w + 1;
}

abbrev log_file : File
log_file = record {
  status = opened;
  readable = true;
  writable = false;
  fd = 1;
  pos = 40;
  node = some 7;
  open_count = 1;
}

abbrev one_open : Files ℕ
one_open = record { table = blank 0 ∷ log_file ∷ blank 2 ∷ []; world = 1 }

log_file-IsOpen : IsOpen one_open.table 1 log_file 7
log_file-IsOpen = record { entry = refl; status = refl; fd = refl; once = refl; node = refl }

file_read-IsOpen_example :
    file_read disk (number 1) 12 one_open
    ≡ some (
      none,
      12,
      record { table = blank 0 ∷ record log_file { pos = 52 } ∷ blank 2 ∷ []; world = 1 },
    )
file_read-IsOpen_example = file_read-IsOpen disk one_open 1 log_file 7 12 log_file-IsOpen

blank-IsLowest : IsLowest one_open.table 0 (blank 0)
blank-IsLowest = record {
  entry = refl;
  free = refl;
  lowest = λ j g l e. absurd (omega arith);
  fd = refl;
  idle = refl;
}

-- O_WRONLY | O_APPEND is 33.
append_mode : access_mode 33 ≡ some (false, true)
unfolding access_mode
append_mode = refl

append_start : open_start disk 2 9 true ≡ (ok 100, 2)
unfolding open_start
append_start = refl

file_open-IsLowest_example :
    file_open disk 9 33 one_open
    ≡ some (
      ok 0,
      record { table = opened_file 0 9 100 false true ∷ log_file ∷ blank 2 ∷ []; world = 2 },
    )
file_open-IsLowest_example =
    file_open-IsLowest disk one_open 9 33 0 9 100 write_only true 2 2 (blank 0) refl refl
      blank-IsLowest refl append_start

-- A disk that opens nothing.
abbrev empty_disk : Vfs ℕ
empty_disk = record disk { vfs_open = λ w path flags. (err e_inval, w) }

file_open-fails_example : file_open empty_disk 9 33 one_open ≡ some (err e_inval, one_open)
file_open-fails_example =
    file_open-fails empty_disk one_open 9 33 0 e_inval false true 1 (blank 0) append_mode
      blank-IsLowest refl

-- With no unused entry.
full_table :
    file_open disk 9 0 (record { table = log_file ∷ []; world = 1 })
    ≡ some (err e_max_open, record { table = log_file ∷ []; world = 1 })
unfolding file_open fd_array_alloc access_mode
full_table = refl
