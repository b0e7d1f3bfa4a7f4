-- ===== src/FileTable.antt =====
-- lab8/kern/fs/file.c: the open-files table. `none` is a failed `assert`; a call that returns an
-- error code gives `err`. The calls into the inodes are those of the interface `Vfs`.
pub mod State
pub mod Calls
pub mod Close
pub mod Lowest
pub mod Flags
pub mod Open
pub mod Dup
pub mod Transfer
use os_experiment.Prelude.{
  ℕ, zero, suc, ◌+◌, ◌-◌, ◌%◌, ◌/◌, ◌^◌, Bool, true, false, not, ◌&&◌, ◌||◌, Option, none, some,
  List, [], ◌∷◌, ◌==◌, ltb, if◌then◌else◌, ◌>>=◌, ◌>>◌, assert, get_elem?, set, length,
}
use os_experiment.FileTable.State.{
  Status, unused, fresh, opened, closed, Error, e_max_open, e_busy, e_inval, Result, ok, err, File,
  Fd, no_fd, negative, number, Whence, seek_set, seek_cur, seek_end, seek_other, Vfs, Files,
  is_unused, is_fresh, is_opened, is_closed,
}

-- An entry as `fd_array_init` leaves it. The other fields are not written; here they start at 0.
abbrev pub blank : ℕ → File
blank fd = record {
  status = unused;
  readable = false;
  writable = false;
  fd = fd;
  pos = 0;
  node = none;
  open_count = 0;
}

-- `n` entries from the descriptor `fd` on.
unfoldable pub fd_array_init : ℕ → ℕ → List File
fd_array_init zero fd = []
fd_array_init (suc n) fd = blank fd ∷ fd_array_init n (fd + 1)

-- The loop of `fd_array_alloc` for NO_FD: the first unused entry from index `i` on.
unfoldable pub first_unused : List File → ℕ → Option ℕ
first_unused [] i = none
first_unused (f ∷ fs) i =
    let later = first_unused fs (i + 1) in if is_unused f.status then some i else later

-- The label `found` of `fd_array_alloc`.
unfoldable pub claim : ℕ → List File → Option (Result ℕ × List File)
claim i t = get_elem? t i >>= λ f.
    assert (f.open_count == 0) >> some (ok i, set t i (record f { status = fresh; node = none }))

unfoldable pub fd_array_alloc : Fd → List File → Option (Result ℕ × List File)
unfolding first_unused claim
fd_array_alloc no_fd t = elim (first_unused t 0) [
  | none ↦ some (err e_max_open, t)
  | some i ↦ claim i t
]
fd_array_alloc negative t = some (err e_inval, t)
fd_array_alloc (number i) t = elim (get_elem? t i) [
  | none ↦ some (err e_inval, t)
  | some f ↦ if is_unused f.status then claim i t else some (err e_busy, t)
]

-- `fd2file`.
unfoldable pub fd2file : Fd → List File → Option ℕ
fd2file (number i) t =
    get_elem? t i >>= λ f. if is_opened f.status && f.fd == i then some i else none
fd2file _ t = none

unfoldable pub file_testfd : Fd → Bool → Bool → List File → Bool
unfolding fd2file
file_testfd fd readable writable t = elim (fd2file fd t >>= λ i. get_elem? t i) [
  | none ↦ false
  | some f ↦ not (readable && not f.readable) && not (writable && not f.writable)
]

module _ {W : Type 0} (vfs : Vfs W) where
  unfoldable pub fd_array_free : ℕ → Files W → Option (Files W)
  fd_array_free i s = get_elem? s.table i >>= λ f.
      assert (is_fresh f.status || is_closed f.status)
      >> assert (f.open_count == 0)
      >> (let freed = set s.table i (record f { status = unused }) in
          if is_closed f.status
          then (f.node >>= λ n. some (record { table = freed; world = vfs.vfs_close s.world n }))
          else some (record s { table = freed }))

  unfoldable pub fd_array_acquire : ℕ → Files W → Option (Files W)
  fd_array_acquire i s = get_elem? s.table i >>= λ f.
      assert (is_opened f.status)
      >> some (record s { table = set s.table i (record f { open_count = f.open_count + 1 }) })

  unfoldable pub fd_array_release : ℕ → Files W → Option (Files W)
  unfolding fd_array_free
  fd_array_release i s = get_elem? s.table i >>= λ f.
      assert (is_opened f.status || is_closed f.status)
      >> assert (ltb 0 f.open_count)
      >> (let s' = record s {
        table = set s.table i (record f { open_count = f.open_count - 1 });
      } in
          if f.open_count - 1 == 0 then fd_array_free i s' else some s')

  unfoldable pub fd_array_open : ℕ → Files W → Option (Files W)
  fd_array_open i s = get_elem? s.table i >>= λ f.
      assert (is_fresh f.status)
      >> (f.node >>= λ n. some (record s {
        table = set s.table i (record f { status = opened; open_count = f.open_count + 1 });
      }))

  unfoldable pub fd_array_close : ℕ → Files W → Option (Files W)
  unfolding fd_array_free
  fd_array_close i s = get_elem? s.table i >>= λ f.
      assert (is_opened f.status)
      >> assert (ltb 0 f.open_count)
      >> (let s' = record s {
        table = set s.table i (record f { status = closed; open_count = f.open_count - 1 });
      } in
          if f.open_count - 1 == 0 then fd_array_free i s' else some s')

  -- `to` and `from` are entries.
  unfoldable pub fd_array_dup : ℕ → ℕ → Files W → Option (Files W)
  fd_array_dup to from s = get_elem? s.table to >>= λ t. get_elem? s.table from >>= λ f.
      assert (is_fresh t.status && is_opened f.status)
      >> (f.node >>= λ n. fd_array_open to (record {
        table =
            set s.table to (record t {
              pos = f.pos;
              readable = f.readable;
              writable = f.writable;
              node = some n;
            });
        world = vfs.vop_ref_open_inc s.world n;
      }))
