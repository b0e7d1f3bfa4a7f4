-- ===== src/FileTable/Close.antt =====
-- What `file_close`, `file_read` and `file_write` of file.c do to an open entry.
use os_experiment.Prelude.{
  ℕ, zero, suc, ◌≡◌, refl, none, some, List, [], ◌∷◌, get_elem?, set, arith,
}
use os_experiment.FileTable.State.{unused, opened, closed, File, number, Vfs, Files}
use os_experiment.FileTable.{fd2file, fd_array_free, fd_array_close}
use os_experiment.FileTable.Calls.{file_close}

pub get_elem?-set :
    {A : Type 0} (t : List A) (i : ℕ) (f v : A)
    → get_elem? t i ≡ some f
    → get_elem? (set t i v) i ≡ some v
get_elem?-set [] i f v e = absurd (ground arith)
get_elem?-set (x ∷ t) zero f v e = refl
get_elem?-set (x ∷ t) (suc i) f v e = get_elem?-set t i f v e

pub set-set : {A : Type 0} (t : List A) (i : ℕ) (u v : A) → set (set t i u) i v ≡ set t i v
set-set [] i u v = refl
set-set (x ∷ t) zero u v = refl
set-set (x ∷ t) (suc i) u v = λ j. x ∷ set-set t i u v j

-- The entry of the descriptor `i` is open, once, on the inode `n`.
pub record IsOpen (t : List File) (i : ℕ) (f : File) (n : ℕ) : Type 0 where
  pub entry : get_elem? t i ≡ some f
  pub status : f.status ≡ opened
  pub fd : f.fd ≡ i
  pub once : f.open_count ≡ 1
  pub node : f.node ≡ some n

pub fd2file-IsOpen :
    (t : List File) (i : ℕ) (f : File) (n : ℕ) → IsOpen t i f n → fd2file (number i) t ≡ some i
unfolding fd2file
fd2file-IsOpen t i f n o = rw (o.entry) (ground (arith, o.status, o.fd))

module _ {W : Type 0} (vfs : Vfs W) where
  -- `fd_array_close` at an entry that is open once frees it.
  fd_array_close-IsOpen :
      (s : Files W) (i : ℕ) (f : File) (n : ℕ)
      → IsOpen s.table i f n
      → fd_array_close vfs i s
        ≡ fd_array_free vfs i
            (record s { table = set s.table i (record f { status = closed; open_count = 0 }) })
  unfolding fd_array_close
  fd_array_close-IsOpen s i f n o = rw (o.entry, o.status, o.once) refl

  -- `fd_array_free` at a closed entry that nothing counts.
  fd_array_free-closed :
      (s : Files W) (i : ℕ) (f : File) (n : ℕ)
      → get_elem? s.table i ≡ some f
      → f.status ≡ closed
      → f.open_count ≡ 0
      → f.node ≡ some n
      → fd_array_free vfs i s
        ≡ some (record {
          table = set s.table i (record f { status = unused });
          world = vfs.vfs_close s.world n;
        })
  unfolding fd_array_free
  fd_array_free-closed s i f n entry status zeroed node = rw (entry, status, zeroed, node) refl

  -- Closing a descriptor that is open once succeeds: its inode is closed once, its entry is unused
  -- and no longer counted, and every other entry stays.
  pub file_close-IsOpen :
      (s : Files W) (i : ℕ) (f : File) (n : ℕ)
      → IsOpen s.table i f n
      → file_close vfs (number i) s
        ≡ some (
          none,
          record {
            table = set s.table i (record f { status = unused; open_count = 0 });
            world = vfs.vfs_close s.world n;
          },
        )
  unfolding file_close
  file_close-IsOpen s i f n o =
      let half = record f { status = closed; open_count = 0 } in
      rw
        (
          file_close,
          fd2file-IsOpen s.table i f n o,
          fd_array_close-IsOpen s i f n o,
          fd_array_free-closed (record s { table = set s.table i half }) i half n
              (get_elem?-set s.table i f half o.entry) refl refl o.node,
          set-set s.table i half (record f { status = unused; open_count = 0 }),
        )
        refl
