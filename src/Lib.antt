-- ===== src/Lib.antt =====
-- The kernel of the operating-system labs, as it stands in lab8, the last of them: ucore for
--   RISC-V.
-- Earlier labs hold earlier states of the same files. The models follow the C code of lab8.
--
-- LinkedList: lab8/libs/list.h. `Links` are the next and prev fields of all entries, an entry is
--   the number of its address; each function of list.h has its name (`__list_add` is
--   `link_between`, `__list_del` is `unlink_between`). LinkedList/Chain says what a ring holds,
--   LinkedList/Splice and LinkedList/Laws prove the operations.
-- FirstFit: lab8/kern/mm/default_pmm.c over those links. A page is the number of its descriptor,
--   from 1 on, and 0 is the head of the free list; `Area` holds the free list and the fields of
--   `struct Page`. The loops over a list are recursions on fuel (insert_walk, find_fit), and the
--   theorems ask for fuel above the length of the list. `none` is a failed assert.
-- Sched: lab8/kern/schedule/sched.c over a scheduling class (`SchedClass`, which stands for the
--   function pointers of `struct sched_class`), with Sched/RoundRobin for
--   lab8/kern/schedule/default_sched.c and Sched/Timers for the timer list. A process is the
--   number of its `struct proc_struct`, 0 is NULL. The run list and the timer list are lists of
--   their members, which LinkedList justifies. Interrupts are off in these functions, so each is
--   one step. Not modelled: page tables, contexts and stacks of processes.
-- FileTable: lab8/kern/fs/file.c. `Files` holds the descriptor table of the current process and the
--   world of the inode layer, whose calls are the interface `Vfs`: file.c only calls them, so they
--   are parameters. A position is a 64-bit word, and `none` is a failed assert or a NULL inode that
--   the code would follow. The functions keep their names; `first_unused`, `claim`, `open_inode`,
--   `transfer_at` and `seek_target` are parts of fd_array_alloc, file_open, file_read and
--   file_seek. FileTable/Flags has the bits of the flags that file_open is given.
-- Vmm: lab8/kern/mm/vmm.c. `Mm` holds the areas in the order of mmap_list, and mmap_cache, the area
--   itself, since no area changes while it is listed. The walk of insert_vma_struct is
--   `insert_behind`, the loop of user_mem_check is `check_from`, on fuel, where one more than the
--   number of areas is enough. Addresses are 64-bit words, and the NULL memory space of a kernel
--   thread is `none`. Not modelled: dup_mmap, exit_mmap, mm_destroy and the copies between user and
--   kernel memory.
-- SkewHeap: lab8/libs/skew_heap.h on the trees that left and right links make; a merge recurs on
--   fuel, and more than the sizes of both heaps is enough.
-- Stride: lab8/kern/schedule/default_sched_stride.c over SkewHeap; a stride is a 32-bit word, and
--   the theorems compare it with the number `pass` that it would be without wrapping around.
-- Process: lab8/kern/process/proc.c over Sched. Process/Pid has get_pid on the numbers in the order
--   of proc_list, where twice MAX_PID rounds of the search are enough; Process/Hash the hash list
--   with lab8/libs/hash.c; Process/Links the parent and sibling pointers, whose families
--   Process/Family, Process/Leave and Process/Orphans describe; Process/Exit do_exit, do_wait and
--   do_kill, proved in Process/Bequest, Process/Ending and Process/Wait. A call that sleeps ends
--   there, and `resume_wait` is where do_wait goes on. do_wait starts at its label `repeat`: the
--   check of code_store in front is left out, and the exit code is a result. Fuel above the number
--   of children is enough. Process/Fork has do_fork with alloc_proc, copy_mm and copy_files over
--   the interface `Memory` of the calls into other parts, whose accounts Process/Fork/Usage states;
--   what the error paths give back is in Process/Fork/Undo and Process/Fork/Spaces; the label
--   `good_mm` is `share_mm`, `bad_fork_cleanup_mm` is `cleanup_mm`, and `start_child` is what
--   follows copy_files. Not modelled: do_execve, trap frames and contexts, and the memory, files
--   and stacks that do_exit and do_wait give back.
-- Sync: lab8/kern/sync/wait.c, wait.h and sem.c over Sched, and Sync/Monitor for monitor.c. Entries
--   (`wait_t`) and queues are numbers of their addresses, a queue is the list of its entries, and a
--   semaphore has the address of its queue. `__up` is `up_with`; `__down` is `down_with` up to its
--   schedule and `down_resumed` from there, since other processes run in between, and likewise the
--   two parts of `cond_signal` and `cond_wait`. The loops of wakeup_queue take fuel, and more than
--   the length of the queue is enough. A function up to its schedule is one step: interrupts that
--   come once `__down` has enabled them again and before it calls schedule are left out.
--   Sync/Invariant says what a well-formed state is.
-- Text: lab8/libs/string.c on a memory of bytes, and of lab8/libs/printfmt.c `printnum`,
--   `sprintputch` and `vsnprintf`, where a character is stored modulo 256, as an unsigned byte. A
--   loop up to a terminator takes fuel, and more than the length of the string is enough; one over
--   a given number of bytes recurs on it. The second loop of memmove is `copy_down`; `skip_blanks`,
--   `read_base` and `read_digits` are parts of strtol. A call of vsnprintf is given the characters
--   that its format makes, since vprintfmt is not modelled.
-- Stdin: lab8/kern/fs/devs/dev_stdin.c over Sync: the ring buffer between the keyboard and its
--   readers. `dev_stdin_read` goes up to its first sleep and `dev_stdin_resumed` from there;
--   `read_available` is its loop while characters are there.
-- Bitmap: lab8/kern/fs/sfs/bitmap.c. A word is a number below 2 ^ 32, and a bit that is set is a
--   free number. The loops of bitmap_create and bitmap_alloc are `clear_leftover`, `find_bit` and
--   `alloc_from`, over the number of bits or words that are left. Bitmap/Laws says what the words
--   stand for, Bitmap/Count counts the free numbers.
-- Sfs: lab8/kern/fs/sfs/sfs_io.c and the part of sfs_inode.c that reads, writes and resizes one
--   file and allocates disk blocks. `Sfs` holds the superblock's counts, the free map, the bytes of
--   the disk by block, and the inode at hand; a function is a `Run`, whose `none` is a panic and
--   whose failures leave what was done before. The device is a parameter: `fault` says which
--   transfers fail. Locks are left out, since each function holds its own. A read of sfs_io_nolock
--   returns its bytes, a write is given them (Sfs/Transfer); `move_part`, `move_block`,
--   `move_blocks`, `move_rest` and `set_size` are its three parts and its end. Sfs/Mapped is about
--   files whose blocks are all there, Sfs/Read about reading, Sfs/Pieces, Sfs/Overwrite and
--   Sfs/RoundTrip about writing, Sfs/Balance about allocation. The free map may have more bits than
--   the disk has blocks, as mounting rounds their number up, and the bits beyond are in use. Not
--   modelled: directories, the cache of inodes, mounting.
-- Prelude: shared names, lists over native numbers, results that may be missing.
-- Tests: runs at concrete inputs, and the theorems at inputs that meet their hypotheses.
--
-- Not modelled: the self tests inside the kernel, drivers, boot, traps, the earlier labs, and the
-- parts of lab8 that no module below names.
pub mod Prelude
pub mod LinkedList
pub mod FirstFit
pub mod Sched
pub mod FileTable
pub mod Vmm
pub mod SkewHeap
pub mod Stride
pub mod Process
pub mod Sync
pub mod Text
pub mod Stdin
pub mod Bitmap
pub mod Sfs
mod Tests
