-- ===== src/FileTable/Calls.antt =====
-- The calls of lab8/kern/fs/file.c on files: open, close, read, write, seek, stat, sync, dup.
use os_experiment.Prelude.{
  ℕ, ◌+◌, ◌%◌, ◌/◌, ◌^◌, Bool, true, false, not, Option, none, some, List, ◌==◌, if◌then◌else◌,
  ◌>>=◌, get_elem?, set,
}
use os_experiment.FileTable.State.{
  Error, e_inval, Result, ok, err, File, Fd, no_fd, Whence, seek_set, seek_cur, seek_end,
  seek_other, Vfs, Files, is_opened,
}
use os_experiment.FileTable.{
  fd_array_alloc, fd2file, fd_array_free, fd_array_acquire, fd_array_release, fd_array_open,
  fd_array_close, fd_array_dup,
}

-- The `switch` on `open_flags & O_ACCMODE`: whether the file is readable, and writable.
unfoldable pub access_mode : ℕ → Option (Bool × Bool)
access_mode flags =
    let mode = flags % 4 in
    if mode == 0
    then some (true, false)
    else if mode == 1
    then some (false, true)
    else if mode == 2
    then some (true, true)
    else none

-- `O_APPEND` is bit 5.
abbrev pub appends : ℕ → Bool
appends flags = flags / 32 % 2 == 1

module _ {W : Type 0} (vfs : Vfs W) where
  -- The end of `file_open`, for the claimed entry `i`.
  unfoldable pub enter_file : ℕ → ℕ → ℕ → Bool → Bool → Files W → Option (Result ℕ × Files W)
  enter_file i n pos readable writable s = get_elem? s.table i >>= λ f.
      fd_array_open vfs i (record s {
        table =
            set s.table i
              (record f { pos = pos; node = some n; readable = readable; writable = writable });
      })
      >>= λ s'. some (ok f.fd, s')

  -- `file_open` gives up the entry `i`.
  unfoldable pub give_up : ℕ → Error → Files W → Option (Result ℕ × Files W)
  give_up i e s = fd_array_free vfs i s >>= λ s'. some (err e, s')

  -- The part of `file_open` behind a successful `vfs_open`, on the inode `n`.
  unfoldable pub open_inode : ℕ → ℕ → ℕ → Bool → Bool → Files W → Option (Result ℕ × Files W)
  unfolding enter_file give_up
  open_inode i n flags readable writable s = get_elem? s.table i >>= λ f.
      (let rewound = record s { table = set s.table i (record f { pos = 0 }) } in
        let (size, w) = vfs.vop_fstat s.world n in
        if appends flags
        then elim size [
          | err e ↦ give_up i e (record rewound { world = vfs.vfs_close w n })
          | ok bytes ↦ enter_file i n bytes readable writable (record rewound { world = w })
        ]
        else enter_file i n 0 readable writable rewound)

  -- `file_open` from `vfs_open` on.
  unfoldable pub open_entry : ℕ → ℕ → ℕ → Bool → Bool → Files W → Option (Result ℕ × Files W)
  unfolding open_inode give_up
  open_entry i path flags readable writable s =
      let (ret, w) = vfs.vfs_open s.world path flags in
      elim ret [
        | err e ↦ give_up i e (record s { world = w })
        | ok n ↦ open_inode i n flags readable writable (record s { world = w })
      ]

  unfoldable pub file_open : ℕ → ℕ → Files W → Option (Result ℕ × Files W)
  unfolding access_mode open_entry
  file_open path flags s = elim (access_mode flags) [
    | none ↦ some (err e_inval, s)
    | some (readable, writable) ↦ fd_array_alloc no_fd s.table >>= λ (ret, t). elim ret [
      | err e ↦ some (err e, s)
      | ok i ↦ open_entry i path flags readable writable (record s { table = t })
    ]
  ]

  unfoldable pub file_close : Fd → Files W → Option (Option Error × Files W)
  file_close fd s = elim (fd2file fd s.table) [
    | none ↦ some (some e_inval, s)
    | some i ↦ fd_array_close vfs i s >>= λ s'. some (none, s')
  ]

  -- The part that `file_read` and `file_write` share: `transfer` moves the bytes, and the position
  -- goes on by what was copied.
  unfoldable pub transfer_at :
      (W → ℕ → ℕ → ℕ → Option Error × ℕ × W) → ℕ → ℕ → Files W → Option (Option Error × ℕ × Files W)
  transfer_at transfer i len s = fd_array_acquire vfs i s >>= λ held.
      get_elem? held.table i >>= λ f. f.node >>= λ n.
      (let (ret, copied, w) = transfer held.world n len f.pos in
        let moved =
          if is_opened f.status
          then set held.table i (record f { pos = (f.pos + copied) % 2 ^ 64 })
          else held.table in
        fd_array_release vfs i (record { table = moved; world = w }) >>= λ s'.
        some (ret, copied, s'))

  unfoldable pub file_read : Fd → ℕ → Files W → Option (Option Error × ℕ × Files W)
  unfolding transfer_at
  file_read fd len s = elim (fd2file fd s.table) [
    | none ↦ some (some e_inval, 0, s)
    | some i ↦ get_elem? s.table i >>= λ f.
        if not f.readable then some (some e_inval, 0, s) else transfer_at vfs.vop_read i len s
  ]

  unfoldable pub file_write : Fd → ℕ → Files W → Option (Option Error × ℕ × Files W)
  unfolding transfer_at
  file_write fd len s = elim (fd2file fd s.table) [
    | none ↦ some (some e_inval, 0, s)
    | some i ↦ get_elem? s.table i >>= λ f.
        if not f.writable then some (some e_inval, 0, s) else transfer_at vfs.vop_write i len s
  ]

  -- The `switch` of `file_seek`: the position that is asked for, as a 64-bit word.
  unfoldable pub seek_target : Whence → ℕ → ℕ → ℕ → W → Result ℕ × W
  seek_target seek_set pos at n w = (ok pos, w)
  seek_target seek_cur pos at n w = (ok ((pos + at) % 2 ^ 64), w)
  seek_target seek_end pos at n w =
      let (size, w') = vfs.vop_fstat w n in
      elim size [ err e ↦ (err e, w') | ok bytes ↦ (ok ((pos + bytes) % 2 ^ 64), w') ]
  seek_target seek_other pos at n w = (err e_inval, w)

  unfoldable pub file_seek : Fd → ℕ → Whence → Files W → Option (Option Error × Files W)
  unfolding seek_target
  file_seek fd pos whence s = elim (fd2file fd s.table) [
    | none ↦ some (some e_inval, s)
    | some i ↦ fd_array_acquire vfs i s >>= λ held. get_elem? held.table i >>= λ f. f.node >>= λ n.
        (let (target, w) = seek_target whence pos f.pos n held.world in
          elim target [
            | err e ↦ fd_array_release vfs i (record held { world = w }) >>= λ s'. some (some e, s')
            | ok p ↦
                let (ret, w') = vfs.vop_tryseek w n p in
                let moved : List File = elim ret [
                  | none ↦ set held.table i (record f { pos = p })
                  | some e ↦ held.table
                ] in
                fd_array_release vfs i (record { table = moved; world = w' }) >>= λ s'.
                some (ret, s')
          ])
  ]

  unfoldable pub file_fstat : Fd → Files W → Option (Result ℕ × Files W)
  file_fstat fd s = elim (fd2file fd s.table) [
    | none ↦ some (err e_inval, s)
    | some i ↦ fd_array_acquire vfs i s >>= λ held. get_elem? held.table i >>= λ f. f.node >>= λ n.
        (let (size, w) = vfs.vop_fstat held.world n in
          fd_array_release vfs i (record held { world = w }) >>= λ s'. some (size, s'))
  ]

  unfoldable pub file_fsync : Fd → Files W → Option (Option Error × Files W)
  file_fsync fd s = elim (fd2file fd s.table) [
    | none ↦ some (some e_inval, s)
    | some i ↦ fd_array_acquire vfs i s >>= λ held. get_elem? held.table i >>= λ f. f.node >>= λ n.
        (let (ret, w) = vfs.vop_fsync held.world n in
          fd_array_release vfs i (record held { world = w }) >>= λ s'. some (ret, s'))
  ]

  -- The offset is that of the `struct dirent`.
  unfoldable pub file_getdirentry : Fd → ℕ → Files W → Option (Option Error × ℕ × Files W)
  file_getdirentry fd offset s = elim (fd2file fd s.table) [
    | none ↦ some (some e_inval, offset, s)
    | some i ↦ fd_array_acquire vfs i s >>= λ held. get_elem? held.table i >>= λ f. f.node >>= λ n.
        (let (ret, used, w) = vfs.vop_getdirentry held.world n offset in
          let moved : ℕ = elim ret [ none ↦ (offset + used) % 2 ^ 64 | some e ↦ offset ] in
          fd_array_release vfs i (record held { world = w }) >>= λ s'. some (ret, moved, s'))
  ]

  unfoldable pub file_dup : Fd → Fd → Files W → Option (Result ℕ × Files W)
  file_dup fd1 fd2 s = elim (fd2file fd1 s.table) [
    | none ↦ some (err e_inval, s)
    | some from ↦ fd_array_alloc fd2 s.table >>= λ (ret, t). elim ret [
      | err e ↦ some (err e, s)
      | ok to ↦ fd_array_dup vfs to from (record s { table = t }) >>= λ s'.
          get_elem? s'.table to >>= λ f. some (ok f.fd, s')
    ]
  ]
