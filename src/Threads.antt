-- ===== src/Threads.antt =====
-- The threads of the manager, one loop body at a time: the application's requests, the migration
-- thread of pebs.c, the fault thread of hemem.c, and the application's `mmap` and `munmap`. The
-- kernel answers as it likes, so a loop body counts only if it returns.
pub mod Quiet
pub mod Calls
pub mod Moving
pub mod Sound
pub mod Round
pub mod Requests
pub mod Faults
pub mod Reach
