-- ===== src/Process/Fork/Failure.antt =====
-- The error paths of `do_fork` in lab8/kern/process/proc.c give back what they took.
