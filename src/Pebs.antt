-- ===== src/Pebs.antt =====
-- pebs.c: the placement policy. Eight lists hold the page descriptors: those of free frames, those
-- of mapped pages, and those of pages that wait for a migration, by tier.
pub mod Request
pub mod Allocate
pub mod Invariant
pub mod Settled
pub mod Hands
pub mod Round
pub mod Rounds
pub mod Waited
pub mod Reissued
pub mod Allocated
pub mod Reshape
pub mod Drained
pub mod Loop
pub mod Drains
pub mod Filled
pub mod Start
pub mod Counters
pub mod Memory
pub mod Preserved
pub mod Fresh
pub mod Renewed
pub mod Emptied
pub mod Spaced
pub mod Transparent
pub mod Overwrites
pub mod Remapped
pub mod Touched
pub mod Migration
pub mod Route
pub mod Requests
pub mod Drawn
pub mod Requested
pub mod Shift
pub use Request.{
  request_page, rotate, request_in_order, request_at_random, mig_dram_to_dram_request,
  mig_nvm_to_nvm_request, migrate_down_request, migrate_up_request,
}
