-- ===== src/Process.antt =====
-- lab8/kern/process/proc.c: process numbers, the relations between processes, their wait and end.
-- A process is the number of its `struct proc_struct`, from 1 on, and 0 is NULL.
pub mod Pid
pub mod Hash
pub mod Links
pub mod Family
pub mod Leave
pub mod Orphans
pub mod Exit
pub mod Fork
pub mod Bequest
pub mod Dying
pub mod Ending
pub mod Wait
