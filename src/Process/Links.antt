-- ===== src/Process/Links.antt =====
-- The relations between processes of proc.c: parent, youngest child, younger and older sibling.
use os_experiment.Prelude.{ℕ, ◌+◌, ◌-◌, List, ◌∷◌, ◌==◌, if◌then◌else◌, update}
use os_experiment.Sched.RoundRobin.{unlink}

-- The pointers of `struct proc_struct`, with `proc_list` and `nr_process`.
pub record Relations : Type 0 where
  pub parent : ℕ → ℕ
  pub cptr : ℕ → ℕ
  pub yptr : ℕ → ℕ
  pub optr : ℕ → ℕ
  pub proc_list : List ℕ
  pub nr_process : ℕ

-- A store through `p`, where `p` is not NULL.
abbrev pub update_at : (ℕ → ℕ) → ℕ → ℕ → ℕ → ℕ
update_at f p v = if p == 0 then f else update f p v

unfoldable pub set_links : ℕ → Relations → Relations
set_links p r =
    let older = r.cptr (r.parent p) in
    record r {
      proc_list = p ∷ r.proc_list;
      yptr = update_at (update r.yptr p 0) older p;
      optr = update r.optr p older;
      cptr = update r.cptr (r.parent p) p;
      nr_process = r.nr_process + 1;
    }

unfoldable pub remove_links : ℕ → Relations → Relations
unfolding unlink
remove_links p r =
    let yptr = update_at r.yptr (r.optr p) (r.yptr p) in
    let younger = yptr p in
    record r {
      proc_list = unlink p r.proc_list;
      yptr = yptr;
      optr = update_at r.optr younger (r.optr p);
      cptr = if younger == 0 then update r.cptr (r.parent p) (r.optr p) else r.cptr;
      nr_process = r.nr_process - 1;
    }

-- One round of the loop of `do_exit` that gives a child of `p` to `init`.
unfoldable pub give_child : ℕ → ℕ → Relations → Relations
give_child init p r =
    let child = r.cptr p in
    let cptr = update r.cptr p (r.optr child) in
    let older = cptr init in
    record r {
      yptr = update_at (update r.yptr child 0) older child;
      optr = update r.optr child older;
      parent = update r.parent child init;
      cptr = update cptr init child;
    }
