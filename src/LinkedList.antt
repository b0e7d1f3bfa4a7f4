-- ===== src/LinkedList.antt =====
-- The circular doubly linked lists of lab8/libs/list.h, as links between numbered nodes.
-- A node's number stands for the address of its `list_entry_t`.
pub mod Chain
pub mod Splice
pub mod Laws
use os_experiment.Prelude.{ℕ, Bool, ◌==◌, update}

pub record Links : Type 0 where
  pub next : ℕ → ℕ
  pub prev : ℕ → ℕ

unfoldable pub list_init : Links → ℕ → Links
list_init h elm = record { next = update h.next elm elm; prev = update h.prev elm elm }

-- `__list_add`: the stores in the order of the source.
unfoldable pub link_between : Links → ℕ → ℕ → ℕ → Links
link_between h elm prev next = record {
  next = update (update h.next prev elm) elm next;
  prev = update (update h.prev next elm) elm prev;
}

-- `__list_del`.
unfoldable pub unlink_between : Links → ℕ → ℕ → Links
unlink_between h prev next = record {
  next = update h.next prev next;
  prev = update h.prev next prev;
}

unfoldable pub list_add_after : Links → ℕ → ℕ → Links
list_add_after h listelm elm = link_between h elm listelm (h.next listelm)

unfoldable pub list_add : Links → ℕ → ℕ → Links
unfolding list_add_after
list_add h listelm elm = list_add_after h listelm elm

unfoldable pub list_add_before : Links → ℕ → ℕ → Links
list_add_before h listelm elm = link_between h elm (h.prev listelm) listelm

unfoldable pub list_del : Links → ℕ → Links
list_del h listelm = unlink_between h (h.prev listelm) (h.next listelm)

unfoldable pub list_del_init : Links → ℕ → Links
unfolding list_del list_init
list_del_init h listelm = list_init (list_del h listelm) listelm

unfoldable pub list_empty : Links → ℕ → Bool
list_empty h list = h.next list == list

unfoldable pub list_next : Links → ℕ → ℕ
list_next h listelm = h.next listelm

unfoldable pub list_prev : Links → ℕ → ℕ
list_prev h listelm = h.prev listelm
