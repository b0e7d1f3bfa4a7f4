-- ===== src/FileTable/Transfer.antt =====
-- What `file_read` and `file_write` of file.c do to an open entry.
use os_experiment.Prelude.{
  ℕ, ◌+◌, ◌%◌, ◌^◌, ◌≡◌, refl, sym, true, Option, some, List, get_elem?, set, if◌then◌else◌, ◌>>=◌,
  Bool-cases, inl, inr,
}
use os_experiment.FileTable.State.{opened, Error, e_inval, File, number, Vfs, Files, is_opened}
use os_experiment.FileTable.{fd_array_acquire, fd_array_release}
use os_experiment.FileTable.Calls.{file_read, file_write, transfer_at}
use os_experiment.FileTable.Close.{get_elem?-set, set-set, IsOpen, fd2file-IsOpen}

-- The end of a transfer through the entry `f` of the descriptor `i`.
abbrev pub transferred :
    {W : Type 0} → List File → ℕ → File → Option Error × ℕ × W → Option (Option Error × ℕ × Files W)
transferred t i f (ret, copied, w) = some (
  ret,
  copied,
  record { table = set t i (record f { pos = (f.pos + copied) % 2 ^ 64 }); world = w },
)

module _ {W : Type 0} (vfs : Vfs W) where
  fd_array_acquire-IsOpen :
      (s : Files W) (i : ℕ) (f : File) (n : ℕ)
      → IsOpen s.table i f n
      → fd_array_acquire vfs i s
        ≡ some (record s { table = set s.table i (record f { open_count = 2 }) })
  unfolding fd_array_acquire
  fd_array_acquire-IsOpen s i f n o = rw (o.entry, o.status, o.once) refl

  fd_array_release-twice :
      (s : Files W) (i : ℕ) (f : File)
      → get_elem? s.table i ≡ some f
      → f.status ≡ opened
      → f.open_count ≡ 2
      → fd_array_release vfs i s
        ≡ some (record s { table = set s.table i (record f { open_count = 1 }) })
  unfolding fd_array_release
  fd_array_release-twice s i f entry status twice = rw (entry, status, twice) refl

  finish_lem :
      (s : Files W) (i : ℕ) (f : File) (n : ℕ)
      → IsOpen s.table i f n
      → (ret : Option Error) (copied : ℕ) (w : W)
      → (fd_array_release vfs i (record {
        table =
            set
              (set s.table i (record f { open_count = 2 }))
              i
              (record f { pos = (f.pos + copied) % 2 ^ 64; open_count = 2 });
        world = w;
      })
          >>= λ s'. some (ret, copied, s'))
        ≡ transferred s.table i f (ret, copied, w)
  finish_lem s i f n o ret copied w =
      let f2 = record f { open_count = 2 } in
      let f3 = record f { pos = (f.pos + copied) % 2 ^ 64; open_count = 2 } in
      rw
        (
          set-set s.table i f2 f3,
          fd_array_release-twice (record { table = set s.table i f3; world = w }) i f3
              (get_elem?-set s.table i f f3 o.entry) o.status refl,
          set-set s.table i f3 (record f { pos = (f.pos + copied) % 2 ^ 64; open_count = 1 }),
          sym (o.once),
        )
        refl

  transfer_at-IsOpen :
      (transfer : W → ℕ → ℕ → ℕ → Option Error × ℕ × W) (s : Files W) (i : ℕ) (f : File) (n len : ℕ)
      → IsOpen s.table i f n
      → transfer_at vfs transfer i len s ≡ transferred s.table i f (transfer s.world n len f.pos)
  unfolding transfer_at
  transfer_at-IsOpen transfer s i f n len o =
      let f2 = record f { open_count = 2 } in
      let still_opened : is_opened f.status ≡ true = λ j. is_opened (o.status j) in
      rw
        (
          transfer_at,
          fd_array_acquire-IsOpen s i f n o,
          get_elem?-set s.table i f f2 o.entry,
          o.node,
          sym (o.node),
          still_opened,
        )
        (let (ret, copied, w) = transfer s.world n len f.pos in finish_lem s i f n o ret copied w)

  -- Reading through a descriptor that is open once: without the right to read it answers -E_INVAL
  -- and changes nothing; with it, it returns what the inode's read returned, the position goes on by
  -- the bytes copied, modulo 2 ^ 64, and nothing else of the table changes.
  pub file_read-IsOpen :
      (s : Files W) (i : ℕ) (f : File) (n len : ℕ)
      → IsOpen s.table i f n
      → file_read vfs (number i) len s ≡ (
          if f.readable
          then transferred s.table i f (vfs.vop_read s.world n len f.pos)
          else some (some e_inval, 0, s))
  unfolding file_read
  file_read-IsOpen s i f n len o =
      rw
        (
          file_read,
          fd2file-IsOpen s.table i f n o,
          o.entry,
          transfer_at-IsOpen vfs.vop_read s i f n len o,
        )
        (elim (Bool-cases f.readable) [ inl e ↦ rw e refl | inr e ↦ rw e refl ])

  -- Writing through a descriptor that is open once: without the right to write it answers -E_INVAL
  -- and changes nothing; with it, it returns what the inode's write returned, the position goes on
  -- by the bytes copied, modulo 2 ^ 64, and nothing else of the table changes.
  pub file_write-IsOpen :
      (s : Files W) (i : ℕ) (f : File) (n len : ℕ)
      → IsOpen s.table i f n
      → file_write vfs (number i) len s ≡ (
          if f.writable
          then transferred s.table i f (vfs.vop_write s.world n len f.pos)
          else some (some e_inval, 0, s))
  unfolding file_write
  file_write-IsOpen s i f n len o =
      rw
        (
          file_write,
          fd2file-IsOpen s.table i f n o,
          o.entry,
          transfer_at-IsOpen vfs.vop_write s i f n len o,
        )
        (elim (Bool-cases f.writable) [ inl e ↦ rw e refl | inr e ↦ rw e refl ])
