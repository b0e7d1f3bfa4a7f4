-- ===== src/Tests.antt =====
-- Concrete runs of the models, and the theorems at inputs that meet their hypotheses.
mod Lists
mod Pages
mod Files
mod Areas
mod Heaps
mod Processes
mod Family
mod Waiting
mod Strings
mod Keyboard
mod Bits
mod Disk
mod Forks
