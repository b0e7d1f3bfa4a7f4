-- ===== src/Process/Fork.antt =====
-- `do_fork` of lab8/kern/process/proc.c. Memory and files are those of other parts of the kernel: what
-- do_fork calls there is the interface `Memory`.
pub mod Usage
pub mod Undo
pub mod Spaces
pub mod Steps
pub mod Outcome
pub mod Branches
pub mod Failure
pub mod Start
use os_experiment.Prelude.{
  ℕ, zero, suc, ◌+◌, ◌-◌, ◌^◌, Bool, true, false, not, Option, none, some, map, ◌==◌, leb,
  if◌then◌else◌, ◌>>=◌, ◌>>◌, assert, update,
}
use os_experiment.Sched.{wakeup_proc}
use os_experiment.Sched.State.{Kernel, Proc, SchedClass, uninit, set_proc}
use os_experiment.Process.Pid.{PidState, get_pid}
use os_experiment.Process.Hash.{PidTable, hash_proc}
use os_experiment.Process.Links.{Relations, set_links}
use os_experiment.Process.Exit.{Tasks}

-- The calls, over a state `W` of memory and files. An address or a number that is 0 is NULL, an error
-- that is 0 is success. `free_pages` takes the address, and `dup_mmap` and `dup_files` the new one
-- first.
pub record Memory (W : Type 0) : Type 0 where
  pub kmalloc_proc : W → ℕ × W
  pub kfree_proc : ℕ → W → W
  pub alloc_pages : ℕ → W → ℕ × W
  pub free_pages : ℕ → ℕ → W → W
  pub copy_boot_pgdir : ℕ → W → W
  pub mm_create : W → ℕ × W
  pub mm_destroy : ℕ → W → W
  pub dup_mmap : ℕ → ℕ → W → ℕ × W
  pub exit_mmap : ℕ → W → W
  pub files_create : W → ℕ × W
  pub files_destroy : ℕ → W → W
  pub dup_files : ℕ → ℕ → W → ℕ × W

-- The fields `kstack`, `mm` and `filesp` of processes, `pgdir` and `mm_count` of a `struct mm_struct`
-- and `files_count` of a `struct files_struct`, with the rest of the kernel.
pub record Forking (W : Type 0) : Type 0 where
  pub tasks : Tasks
  pub pid_state : PidState
  pub kstack : ℕ → ℕ
  pub mm : ℕ → ℕ
  pub filesp : ℕ → ℕ
  pub pgdir : ℕ → ℕ
  pub mm_count : ℕ → ℕ
  pub files_count : ℕ → ℕ
  pub world : W

-- What `do_fork` returns: the number of the child, or an error, of which two are its own.
pub data Forked : Type 0 where
  child error : ℕ → Forked

-- E_NO_FREE_PROC, E_NO_MEM, MAX_PROCESS and KSTACKPAGE.
abbrev pub e_no_free_proc : ℕ
e_no_free_proc = 5

abbrev pub e_no_mem : ℕ
e_no_mem = 4

abbrev pub max_process : ℕ
max_process = 4096

abbrev pub kstackpage : ℕ
kstackpage = 2

-- The fields of a new process.
abbrev pub blank_tasks : ℕ → Tasks → Tasks
blank_tasks p t = record t {
  kernel = set_proc t.kernel p (record {
    state = uninit;
    wait_state = 0;
    need_resched = false;
    time_slice = 0;
    runs = 0;
    has_rq = false;
  });
  relations = record t.relations {
    parent = update t.relations.parent p 0;
    cptr = update t.relations.cptr p 0;
    yptr = update t.relations.yptr p 0;
    optr = update t.relations.optr p 0;
  };
  pids = record t.pids { pid = update t.pids.pid p (2 ^ 32 - 1) };
  exiting = update t.exiting p false;
}

module _ {W : Type 0} (m : Memory W) where
  unfoldable pub alloc_proc : Forking W → ℕ × Forking W
  alloc_proc s =
      let p = (m.kmalloc_proc s.world).0 in
      let w = (m.kmalloc_proc s.world).1 in
      if p == 0 then (0, record s { world = w }) else (
        p,
        record s {
          world = w;
          tasks = blank_tasks p s.tasks;
          kstack = update s.kstack p 0;
          mm = update s.mm p 0;
          filesp = update s.filesp p 0;
        },
      )

  -- Whether the stack could be allocated.
  unfoldable pub setup_kstack : ℕ → Forking W → Bool × Forking W
  setup_kstack p s =
      let page = (m.alloc_pages kstackpage s.world).0 in
      let w = (m.alloc_pages kstackpage s.world).1 in
      if not (page == 0)
      then (true, record s { world = w; kstack = update s.kstack p page })
      else (false, record s { world = w })

  unfoldable pub put_kstack : ℕ → Forking W → Forking W
  put_kstack p s = record s { world = m.free_pages (s.kstack p) kstackpage s.world }

  unfoldable pub setup_pgdir : ℕ → Forking W → Bool × Forking W
  setup_pgdir mm s =
      let page = (m.alloc_pages 1 s.world).0 in
      let w = (m.alloc_pages 1 s.world).1 in
      if page == 0
      then (false, record s { world = w })
      else (true, record s { world = m.copy_boot_pgdir page w; pgdir = update s.pgdir mm page })

  unfoldable pub put_pgdir : ℕ → Forking W → Forking W
  put_pgdir mm s = record s { world = m.free_pages (s.pgdir mm) 1 s.world }

  -- The label `good_mm` of `copy_mm`, and its cleanup labels from `bad_dup_cleanup_mmap` on.
  unfoldable pub share_mm : ℕ → ℕ → Forking W → Forking W
  share_mm mm p s = record s {
    mm_count = update s.mm_count mm (s.mm_count mm + 1);
    mm = update s.mm p mm;
  }

  unfoldable pub drop_mm : ℕ → Forking W → Forking W
  drop_mm mm s =
      let t = put_pgdir mm (record s { world = m.exit_mmap mm s.world }) in
      record t { world = m.mm_destroy mm t.world }

  -- Whether `copy_mm` succeeds; `vm` is CLONE_VM. `mm_create` sets `mm_count` to 0.
  unfoldable pub copy_mm : Bool → ℕ → Forking W → Bool × Forking W
  copy_mm vm p s =
      let oldmm = s.mm s.tasks.kernel.current in
      let mm = (m.mm_create s.world).0 in
      let created = record s {
        world = (m.mm_create s.world).1;
        mm_count = update s.mm_count mm 0;
      } in
      let ready = setup_pgdir mm created in
      let copied = m.dup_mmap mm oldmm ready.1.world in
      let s' = record (ready.1) { world = copied.1 } in
      if oldmm == 0
      then (true, s)
      else if vm
      then (true, share_mm oldmm p s)
      else if mm == 0
      then (false, record s { world = (m.mm_create s.world).1 })
      else if not ready.0
      then (false, record (ready.1) { world = m.mm_destroy mm ready.1.world })
      else if copied.0 == 0
      then (true, share_mm mm p s')
      else (false, drop_mm mm s')

  -- The label `good_files_struct` of `copy_files`.
  unfoldable pub share_files : ℕ → ℕ → Forking W → Forking W
  share_files files p s = record s {
    files_count = update s.files_count files (s.files_count files + 1);
    filesp = update s.filesp p files;
  }

  -- The error of `copy_files`; `fs` is CLONE_FS. `files_create` sets `files_count` to 0.
  unfoldable pub copy_files : Bool → ℕ → Forking W → Option (ℕ × Forking W)
  copy_files fs p s =
      let old = s.filesp s.tasks.kernel.current in
      let files = (m.files_create s.world).0 in
      let created = record s {
        world = (m.files_create s.world).1;
        files_count = update s.files_count files 0;
      } in
      let copied = m.dup_files files old created.world in
      let s' = record created { world = copied.1 } in
      assert (not (old == 0))
      >> some (
          if fs
          then (0, share_files old p s)
          else if files == 0
          then (e_no_mem, record s { world = (m.files_create s.world).1 })
          else if copied.0 == 0
          then (0, share_files files p s')
          else (copied.0, record s' { world = m.files_destroy files s'.world }))

  -- The label `bad_fork_cleanup_mm`.
  unfoldable pub cleanup_mm : ℕ → Forking W → Forking W
  cleanup_mm p s =
      let mm = s.mm p in
      let count = s.mm_count mm - 1 in
      let t = record s { mm_count = update s.mm_count mm count } in
      let t' = if count == 0 then drop_mm mm t else t in
      if mm == 0 then s else record t' { mm = update t'.mm p 0 }

  -- The labels `bad_fork_cleanup_proc` and `bad_fork_cleanup_kstack`.
  abbrev pub cleanup_proc : ℕ → Forking W → Forking W
  cleanup_proc p s = record s { world = m.kfree_proc p s.world }

  abbrev pub cleanup_kstack : ℕ → Forking W → Forking W
  cleanup_kstack p s = cleanup_proc p (put_kstack p s)

-- What `do_fork` does with interrupts off; `get_pid` has the fuel.
unfoldable pub enter_child : {W : Type 0} → ℕ → ℕ → Forking W → Option (Forking W)
enter_child fuel p s =
    let t = s.tasks in
    let current = t.kernel.current in
    get_pid fuel (map t.pids.pid t.relations.proc_list) s.pid_state >>= λ found. some (record s {
      pid_state = found;
      tasks = record t {
        pids = hash_proc p (record t.pids { pid = update t.pids.pid p found.last_pid });
        kernel = set_proc t.kernel current (record (t.kernel.procs current) { wait_state = 0 });
        relations =
            set_links p (record t.relations { parent = update t.relations.parent p current });
      };
    })

-- The rest of `do_fork` once the child has its memory and its files.
unfoldable pub start_child :
    {W : Type 0} → SchedClass → ℕ → ℕ → Forking W → Option (Forked × Forking W)
start_child class fuel p s = enter_child fuel p s >>= λ t.
    wakeup_proc class t.tasks.kernel p >>= λ k.
    some (child (t.tasks.pids.pid p), record t { tasks = record t.tasks { kernel = k } })

-- `do_fork`, without the trap frame and the context of the child.
unfoldable pub do_fork :
    {W : Type 0} → Memory W → SchedClass → ℕ → Bool → Bool → Forking W → Option (Forked × Forking W)
do_fork m class fuel vm fs s =
    let new = alloc_proc m s in
    let p = new.0 in
    let stacked = setup_kstack m p new.1 in
    let mapped = copy_mm m vm p stacked.1 in
    if leb max_process s.tasks.relations.nr_process
    then some (error e_no_free_proc, s)
    else if p == 0
    then some (error e_no_mem, new.1)
    else if not stacked.0
    then some (error e_no_mem, cleanup_proc m p stacked.1)
    else if not mapped.0
    then some (error e_no_mem, cleanup_kstack m p mapped.1)
    else (copy_files m fs p mapped.1 >>= λ (e, t).
        if e == 0
        then start_child class fuel p t
        else some (error e, cleanup_kstack m p (cleanup_mm m p t)))
