-- ===== src/FileTable/Open.antt =====
-- What `file_open` of file.c does to a table with an unused entry.
use os_experiment.Prelude.{
  ℕ, ◌/◌, ◌%◌, ◌≡◌, refl, sym, Bool, none, some, get_elem?, set, if◌then◌else◌, ◌∙◌, ap, Bool-cases,
  inl, inr,
}
use os_experiment.FileTable.State.{unused, fresh, opened, Error, Result, ok, err, File, Vfs, Files}
use os_experiment.FileTable.{fd_array_free, fd_array_open}
use os_experiment.FileTable.Calls.{
  access_mode, appends, enter_file, give_up, open_inode, open_entry, file_open,
}
use os_experiment.FileTable.Lowest.{IsLowest, fd_array_alloc-IsLowest}
use os_experiment.FileTable.Flags.{
  Access, mode_bits, can_read, can_write, access_mode-bits, appends-bit,
}
use os_experiment.FileTable.Close.{get_elem?-set, set-set}

-- The entry `i` once it is open on the inode `n`.
abbrev pub opened_file : ℕ → ℕ → ℕ → Bool → Bool → File
opened_file i n pos readable writable = record {
  status = opened;
  readable = readable;
  writable = writable;
  fd = i;
  pos = pos;
  node = some n;
  open_count = 1;
}

abbrev snd : {A : Type 0} {B : Type 0} → A × B → B
snd (a, b) = b

abbrev value : Result ℕ → ℕ
value (ok n) = n
value (err e) = 0

module _ {W : Type 0} (vfs : Vfs W) where
  pub fd_array_open-fresh :
      (s : Files W) (i : ℕ) (f : File) (n : ℕ)
      → get_elem? s.table i ≡ some f
      → f.status ≡ fresh
      → f.node ≡ some n
      → f.open_count ≡ 0
      → fd_array_open vfs i s
        ≡ some (record s { table = set s.table i (record f { status = opened; open_count = 1 }) })
  unfolding fd_array_open
  fd_array_open-fresh s i f n entry status node idle = rw (entry, status, node, sym node, idle) refl

  enter_file-fresh :
      (s : Files W) (i : ℕ) (f : File) (n pos : ℕ) (readable writable : Bool)
      → get_elem? s.table i ≡ some f
      → f.status ≡ fresh
      → f.fd ≡ i
      → f.open_count ≡ 0
      → enter_file vfs i n pos readable writable s
        ≡ some (ok i, record s { table = set s.table i (opened_file i n pos readable writable) })
  unfolding enter_file
  enter_file-fresh s i f n pos readable writable entry status fd idle =
      let g = record f { pos = pos; node = some n; readable = readable; writable = writable } in
      rw
        (
          entry,
          fd_array_open-fresh (record s { table = set s.table i g }) i g n
              (get_elem?-set s.table i f g entry) status refl idle,
          set-set s.table i g (record g { status = opened; open_count = 1 }),
          fd,
        )
        refl

  give_up-fresh :
      (s : Files W) (i : ℕ) (f : File) (e : Error)
      → get_elem? s.table i ≡ some f
      → f.status ≡ fresh
      → f.open_count ≡ 0
      → give_up vfs i e s
        ≡ some (err e, record s { table = set s.table i (record f { status = unused }) })
  unfolding give_up fd_array_free
  give_up-fresh s i f e entry status idle = rw (entry, status, idle) refl

  -- Where a file that was opened begins: at its end if it appends, else at 0.
  unfoldable pub open_start : W → ℕ → Bool → Result ℕ × W
  open_start w n append = if append then vfs.vop_fstat w n else (ok 0, w)

  open_inode-fresh :
      (s : Files W) (i n flags pos : ℕ) (readable writable : Bool) (w : W) (f : File)
      → get_elem? s.table i ≡ some f
      → f.status ≡ fresh
      → f.fd ≡ i
      → f.open_count ≡ 0
      → open_start s.world n (appends flags) ≡ (ok pos, w)
      → open_inode vfs i n flags readable writable s
        ≡ some (
          ok i,
          record { table = set s.table i (opened_file i n pos readable writable); world = w },
        )
  unfolding open_inode open_start
  open_inode-fresh s i n flags pos readable writable w f entry status fd idle start =
      let g = record f { pos = 0 } in
      let entry' = get_elem?-set s.table i f g entry in
      elim (Bool-cases (appends flags)) [
        | inl e ↦
            let sized : vfs.vop_fstat s.world n ≡ open_start s.world n (appends flags) =
              rw (open_start, e) refl in
            rw
              (
                entry,
                e,
                sized ∙ start,
                ap snd (sized ∙ start),
                enter_file-fresh (record { table = set s.table i g; world = w }) i g n pos readable
                    writable entry' status fd idle,
                set-set s.table i g (opened_file i n pos readable writable),
              )
              refl
        | inr e ↦
            let begins : (ok 0, s.world) ≡ open_start s.world n (appends flags) =
              rw (open_start, e) refl in
            let at = begins ∙ start in
            rw
              (
                entry,
                e,
                enter_file-fresh (record s { table = set s.table i g }) i g n 0 readable writable
                    entry' status fd idle,
                set-set s.table i g (opened_file i n 0 readable writable),
                sym (λ j. value (at j).0),
                sym (λ j. (at j).1),
              )
              refl
      ]

  open_entry-opens :
      (s : Files W) (i path flags n : ℕ) (readable writable : Bool) (w : W)
      → vfs.vfs_open s.world path flags ≡ (ok n, w)
      → open_entry vfs i path flags readable writable s
        ≡ open_inode vfs i n flags readable writable (record s { world = w })
  unfolding open_entry
  open_entry-opens s i path flags n readable writable w opening = λ j. elim (opening j).0 [
    | err e ↦ give_up vfs i e (record s { world = (opening j).1 })
    | ok m ↦ open_inode vfs i m flags readable writable (record s { world = (opening j).1 })
  ]

  -- Opening a file succeeds where the access mode is O_RDONLY, O_WRONLY or O_RDWR, an entry is
  -- unused and the inode layer opens the file and, for an append (the bit O_APPEND, 32), gives its
  -- size: the descriptor is that of the lowest unused entry, which is then open, once, on the inode,
  -- readable and writable as the mode says and at position 0 or, for an append, at the size; every
  -- other entry stays. The lowest unused entry carries its own number and is not counted as open.
  pub file_open-IsLowest :
      (s : Files W) (path flags i n pos : ℕ) (a : Access) (append : Bool) (w w' : W) (f : File)
      → flags % 4 ≡ mode_bits a
      → flags / 32 % 2 ≡ (if append then 1 else 0)
      → IsLowest s.table i f
      → vfs.vfs_open s.world path flags ≡ (ok n, w)
      → open_start w n append ≡ (ok pos, w')
      → file_open vfs path flags s
        ≡ some (
          ok i,
          record {
            table = set s.table i (opened_file i n pos (can_read a) (can_write a));
            world = w';
          },
        )
  unfolding file_open
  file_open-IsLowest s path flags i n pos a append w w' f mode bit o opening start =
      let g = record f { status = fresh; node = none } in
      let asked : appends flags ≡ append = appends-bit flags append bit in
      rw
        (
          file_open,
          access_mode-bits a flags mode,
          fd_array_alloc-IsLowest s.table i f o,
          open_entry-opens (record { table = set s.table i g; world = s.world }) i path flags n
              (can_read a) (can_write a) w opening,
          open_inode-fresh (record { table = set s.table i g; world = w }) i n flags pos
              (can_read a) (can_write a) w' g (get_elem?-set s.table i f g o.entry) refl o.fd o.idle
              (ap (open_start w n) asked ∙ start),
          set-set s.table i g (opened_file i n pos (can_read a) (can_write a)),
        )
        refl

  -- Where the access mode is known and an entry is unused, but the inode layer does not open the
  -- file, its error is the answer, and the entry that was claimed, the lowest unused one, is unused
  -- again; every other entry stays. That entry carries its own number and is not counted as open.
  pub file_open-fails :
      (s : Files W) (path flags i : ℕ) (e : Error) (readable writable : Bool) (w : W) (f : File)
      → access_mode flags ≡ some (readable, writable)
      → IsLowest s.table i f
      → vfs.vfs_open s.world path flags ≡ (err e, w)
      → file_open vfs path flags s
        ≡ some (
          err e,
          record { table = set s.table i (record f { status = unused; node = none }); world = w },
        )
  unfolding file_open open_entry
  file_open-fails s path flags i e readable writable w f mode o opening =
      let g = record f { status = fresh; node = none } in
      rw
        (
          file_open,
          mode,
          fd_array_alloc-IsLowest s.table i f o,
          open_entry,
          opening,
          ap snd opening,
          give_up-fresh (record { table = set s.table i g; world = w }) i g e
              (get_elem?-set s.table i f g o.entry) refl o.idle,
          set-set s.table i g (record f { status = unused; node = none }),
        )
        refl
