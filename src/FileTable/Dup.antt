-- ===== src/FileTable/Dup.antt =====
-- What `file_dup` of file.c does.
use os_experiment.Prelude.{
  ℕ, ◌≡◌, ◌≢◌, refl, true, none, some, get_elem?, set, ◌∙◌, get_elem?-set_ne,
}
use os_experiment.FileTable.State.{
  fresh, opened, ok, File, number, no_fd, Vfs, Files, is_opened, is_fresh,
}
use os_experiment.FileTable.{fd_array_dup}
use os_experiment.FileTable.Calls.{file_dup}
use os_experiment.FileTable.Close.{get_elem?-set, set-set, IsOpen, fd2file-IsOpen}
use os_experiment.FileTable.Lowest.{IsLowest, fd_array_alloc-IsLowest}
use os_experiment.FileTable.Open.{opened_file, fd_array_open-fresh}

module _ {W : Type 0} (vfs : Vfs W) where
  fd_array_dup-fresh :
      (s : Files W) (to from n : ℕ) (g f : File)
      → get_elem? s.table to ≡ some g
      → g.status ≡ fresh
      → g.open_count ≡ 0
      → g.fd ≡ to
      → get_elem? s.table from ≡ some f
      → f.status ≡ opened
      → f.node ≡ some n
      → fd_array_dup vfs to from s
        ≡ some (record {
          table = set s.table to (opened_file to n f.pos f.readable f.writable);
          world = vfs.vop_ref_open_inc s.world n;
        })
  unfolding fd_array_dup
  fd_array_dup-fresh s to from n g f entry status idle fd source is_open inode =
      let still_fresh : is_fresh g.status ≡ true = λ j. is_fresh (status j) in
      let still_open : is_opened f.status ≡ true = λ j. is_opened (is_open j) in
      let half = record g {
        pos = f.pos;
        readable = f.readable;
        writable = f.writable;
        node = some n;
      } in
      rw
        (
          entry,
          source,
          still_fresh,
          still_open,
          inode,
          fd_array_open-fresh vfs
              (record { table = set s.table to half; world = vfs.vop_ref_open_inc s.world n }) to
              half n (get_elem?-set s.table to g half entry) status refl idle,
          set-set s.table to half (record half { status = opened; open_count = 1 }),
          fd,
        )
        refl

  -- Duplicating an open descriptor into no descriptor in particular gives the lowest unused one: its
  -- entry is open, once, on the same inode with the same position and rights, the inode counts one
  -- more opening, and every other entry stays, that of the old descriptor too.
  pub file_dup-IsLowest :
      (s : Files W) (from to n : ℕ) (f g : File)
      → IsOpen s.table from f n
      → IsLowest s.table to g
      → to ≢ from
      → file_dup vfs (number from) no_fd s
        ≡ some (
          ok to,
          record {
            table = set s.table to (opened_file to n f.pos f.readable f.writable);
            world = vfs.vop_ref_open_inc s.world n;
          },
        )
  unfolding file_dup
  file_dup-IsLowest s from to n f g o l apart =
      let h = record g { status = fresh; node = none } in
      let new = opened_file to n f.pos f.readable f.writable in
      rw
        (
          file_dup,
          fd2file-IsOpen s.table from f n o,
          fd_array_alloc-IsLowest s.table to g l,
          fd_array_dup-fresh (record { table = set s.table to h; world = s.world }) to from n h f
              (get_elem?-set s.table to g h l.entry) refl l.idle l.fd
              (get_elem?-set_ne s.table h apart ∙ o.entry) o.status o.node,
          set-set s.table to h new,
          get_elem?-set s.table to g new l.entry,
        )
        refl
