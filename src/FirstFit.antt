-- ===== src/FirstFit.antt =====
-- The first-fit page allocator of lab8/kern/mm/default_pmm.c, over the links of its free list.
-- A page is the number of its descriptor, from 1 on, and 0 is the head of the free list.
-- A result `none` is a failed `assert`, or a walk that its fuel did not let finish.

pub mod Walk
pub mod Merge
pub mod Free
pub mod Append
pub mod Alloc
use os_experiment.Prelude.{
  ℕ, zero, suc, ◌+◌, ◌-◌, ◌%◌, ◌^◌, Bool, true, false, ◌&&◌, not, Option, none, some, ltb, leb,
  ◌==◌, if◌then◌else◌, ◌>>=◌, ◌>>◌, assert, u32, update,
}
use os_experiment.LinkedList.{
  Links, list_init, list_add, list_add_before, list_del, list_empty, list_next, list_prev,
}

-- `free_area_t` with the fields of `struct Page` that the allocator uses; `reserved` and `heads`
-- are the bits PG_reserved and PG_property of `flags`.
pub record Area : Type 0 where
  pub links : Links
  pub nr_free : ℕ
  pub property : ℕ → ℕ
  pub reserved : ℕ → Bool
  pub heads : ℕ → Bool
  pub ref : ℕ → ℕ

abbrev pub free_list : ℕ
free_list = 0

unfoldable pub default_init : Area → Area
unfolding list_init
default_init a = record a { links = list_init a.links free_list; nr_free = 0 }

-- The loop over `n` pages of `default_init_memmap`.
unfoldable pub init_pages : ℕ → ℕ → Area → Option Area
init_pages zero p a = some a
init_pages (suc n) p a =
    let rest = init_pages n (p + 1) (record a {
      reserved = update a.reserved p false;
      heads = update a.heads p false;
      property = update a.property p 0;
      ref = update a.ref p 0;
    }) in
    if a.reserved p then rest else none

-- One round of the loop over the pages of `default_free_pages`, after its `assert`.
abbrev pub clear_page : ℕ → Area → Area
clear_page p a = record a {
  reserved = update a.reserved p false;
  heads = update a.heads p false;
  ref = update a.ref p 0;
}

-- The loop over `n` pages of `default_free_pages`.
unfoldable pub clear_pages : ℕ → ℕ → Area → Option Area
clear_pages zero p a = some a
clear_pages (suc n) p a =
    let rest = clear_pages n (p + 1) (clear_page p a) in
    if not (a.reserved p) && not (a.heads p) then rest else none

-- The walk that finds where `base` belongs. In the branch that appends, the source goes on with
-- the walk, behind the page that it has just appended to.
unfoldable pub insert_walk : ℕ → Links → ℕ → ℕ → Option Links
unfolding list_next list_add list_add_before
insert_walk zero h base le = none
insert_walk (suc fuel) h base le =
    let page = list_next h le in
    let appended = insert_walk fuel (list_add h page base) base page in
    let onward = insert_walk fuel h base page in
    if page == free_list
    then some h
    else if ltb base page
    then some (list_add_before h page base)
    else if list_next h page == free_list
    then appended
    else onward

unfoldable pub insert_block : ℕ → Links → ℕ → Option Links
unfolding list_empty list_add insert_walk
insert_block fuel h base =
    if list_empty h free_list
    then some (list_add h free_list base)
    else insert_walk fuel h base free_list

-- The stores that make `n` pages from `base` on one free block, before the block is listed.
abbrev pub head_block : ℕ → ℕ → Area → Area
head_block base n a = record a {
  property = update a.property base (u32 n);
  heads = update a.heads base true;
  nr_free = u32 (a.nr_free + n);
}

unfoldable pub default_init_memmap : ℕ → ℕ → ℕ → Area → Option Area
unfolding init_pages insert_block
default_init_memmap fuel base n a = assert (ltb 0 n) >>= λ _. init_pages n base a >>= λ b.
    insert_block fuel (head_block base n b).links base >>= λ h.
    some (record (head_block base n b) { links = h })

-- The walk of `default_alloc_pages`: `some 0` is NULL.
unfoldable pub find_fit : ℕ → Area → ℕ → ℕ → Option ℕ
unfolding list_next
find_fit zero a n le = none
find_fit (suc fuel) a n le =
    let page = list_next a.links le in
    let onward = find_fit fuel a n page in
    if page == free_list then some 0 else if leb n (a.property page) then some page else onward

-- The page found is unlinked, and what is left of its block goes back in its place.
unfoldable pub take_block : ℕ → ℕ → Area → Area
unfolding list_prev list_del list_add
take_block page n a =
    let before = list_prev a.links page in
    let h = list_del a.links page in
    let rest = page + n in
    let b =
      if ltb n (a.property page)
      then record a {
        links = list_add h before rest;
        property = update a.property rest (u32 (a.property page - n));
        heads = update a.heads rest true;
      }
      else record a { links = h } in
    record b { nr_free = u32 (2 ^ 32 + b.nr_free - u32 n); heads = update b.heads page false }

-- The page is 0 for NULL.
unfoldable pub default_alloc_pages : ℕ → ℕ → Area → Option (ℕ × Area)
default_alloc_pages fuel n a = assert (ltb 0 n) >>= λ _.
    if ltb a.nr_free n
    then some (0, a)
    else (find_fit fuel a n free_list >>= λ page.
        if page == 0 then some (0, a) else some (page, take_block page n a))

-- The block before `base` in the list takes it in, if it ends where `base` begins. The first
-- result is the page that heads the block afterwards.
unfoldable pub merge_before : ℕ → Area → ℕ × Area
unfolding list_prev list_del
merge_before base a =
    let p = list_prev a.links base in
    if p == free_list
    then (base, a)
    else if p + a.property p == base
    then (
      p,
      record a {
        property = update a.property p (u32 (a.property p + a.property base));
        heads = update a.heads base false;
        links = list_del a.links base;
      },
    )
    else (base, a)

-- `base` takes in the block behind it in the list, if that begins where `base` ends.
unfoldable pub merge_after : ℕ → Area → Area
unfolding list_next list_del
merge_after base a =
    let p = list_next a.links base in
    if p == free_list
    then a
    else if base + a.property base == p
    then record a {
      property = update a.property base (u32 (a.property base + a.property p));
      heads = update a.heads p false;
      links = list_del a.links p;
    }
    else a

unfoldable pub default_free_pages : ℕ → ℕ → ℕ → Area → Option Area
default_free_pages fuel base n a = assert (ltb 0 n) >>= λ _. clear_pages n base a >>= λ b.
    insert_block fuel (head_block base n b).links base >>= λ h.
    (let (head, c) = merge_before base (record (head_block base n b) { links = h }) in
      some (merge_after head c))

unfoldable pub default_nr_free_pages : Area → ℕ
default_nr_free_pages a = a.nr_free
