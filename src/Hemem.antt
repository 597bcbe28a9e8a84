-- ===== src/Hemem.antt =====
-- hemem.c: mapping pages of the two devices into the application, faults, and migrations.
pub mod Init
pub mod Calls
pub mod Granted
pub mod Migrate
pub mod Pages
pub mod Faults
pub mod Entered
pub mod Fit
pub mod Populated
pub mod Populates
pub mod Mapping
pub mod Mmap
pub mod Reserved
pub mod Begun
pub mod FaultThread
pub mod Handled
pub mod Served
pub mod ParallelCopy
pub mod Cleared
pub mod RoundTrip
pub mod Unmapped
