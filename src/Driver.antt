-- ===== src/Driver.antt =====
-- mig-test.c: the benchmark, up to the end of the migrations back to DRAM. The migration thread has
-- run since the program's start: between the pages of a request, as in the waits, it makes as many
-- turns as a schedule says. What the benchmark writes into its memory, the thread's affinity, its
-- sleep and the time it takes are left out, and so is `record_run_request`, which changes only what
-- the thread of res-record.c records.
pub mod Flow
pub mod Asked
pub mod Ways
pub mod Moves
use dma_migration_test.Base.{
  ℕ, zero, suc, ◌+◌, ◌*◌, ◌/◌, ◌%◌, ◌==◌, true, false, Option, if◌then◌else◌, ltb,
}
use dma_migration_test.Base.Int.{ℤ}
use dma_migration_test.Machine.{
  MapFlags, HashTable, Os, Cmd, fault, failing, ok, pure, ◌>>=◌, ◌>>◌, get_num, num_batchs,
}
use dma_migration_test.Interpose.{mmap_filter}
use dma_migration_test.Hemem.Init.{prot_read_write}
use dma_migration_test.Pebs.Request.{rotate, request_page}
use dma_migration_test.Pebs.Requests.{source_of}
use dma_migration_test.Pebs.Route.{Route, dram_to_nvm, nvm_to_dram, from_dram, queue_of}
use dma_migration_test.Pebs.Migration.{migrate_round, migrate_queue}
use dma_migration_test.Pebs.Counters.{get_dram_to_nvm_list_num, get_nvm_to_dram_list_num}

abbrev pub size : ℕ
size = 8 * (1024 * (1024 * 1024))

abbrev pub pg_size : ℕ
pg_size = 2 * 1024 * 1024

abbrev pub npage : ℕ
npage = size / pg_size

-- MAP_ANON | MAP_POPULATE | MAP_SHARED.
abbrev pub region_flags : MapFlags
region_flags = record {
  map_private = false;
  map_shared = true;
  map_anonymous = true;
  map_hugetlb = false;
  map_populate = true;
  map_stack = false;
  others = 0;
}

-- Turns of the migration thread at one of its four loops, whose queues are empty but for this one:
-- the loop's test, and a round when a page waits.
unfoldable pub migrate_turns : (os : Os) → Route → (turns : ℕ) → Cmd (Unit {0})
migrate_turns os r zero = pure tt
migrate_turns os r (suc turns) = do
  left ← get_num (queue_of r)
  if left == 0
      then pure tt
      else migrate_round os r (if ltb num_batchs left then num_batchs else left)
  migrate_turns os r turns

module _ (os : Os) (rand turns : ℕ → ℕ) where
  -- A random request with `pages` pages left, in front of each of which, and at the end, the migration
  -- thread makes `turns i` turns.
  unfoldable pub request_among : Route → (pages i page_put : ℕ) → Cmd ℕ
  request_among r zero i page_put = do migrate_turns os r (turns i); pure page_put
  request_among r (suc pages) i page_put = do
    migrate_turns os r (turns i)
    num ← get_num (source_of r)
    if num == 0 then failing fault else do
      rotate (source_of r) (rand i % num)
      put ← request_page (source_of r) (queue_of r) (from_dram r)
      request_among r pages (i + 1) (page_put + put)

module _ (os : Os) (table : HashTable) (fuel : ℕ) where
  -- The benchmark's `mmap`, whose file descriptor is NULL.
  unfoldable pub map_region : Cmd (Option ℕ)
  map_region = mmap_filter os table fuel 0 size prot_read_write region_flags 0 0

  -- The request to migrate down, and the wait for it: what is printed, and what the function that ends
  -- the wait returns then.
  unfoldable pub move_down : (rand turns : ℕ → ℕ) → Cmd (ℕ × ℤ)
  move_down rand turns = do
    put ← request_among os rand turns dram_to_nvm npage 0 0
    migrate_queue os dram_to_nvm fuel
    left ← λ m. ok (get_dram_to_nvm_list_num m) m
    pure (put, left)

  -- The way back.
  unfoldable pub move_up : (rand turns : ℕ → ℕ) → Cmd (ℕ × ℤ)
  move_up rand turns = do
    put ← request_among os rand turns nvm_to_dram npage 0 0
    migrate_queue os nvm_to_dram fuel
    left ← λ m. ok (get_nvm_to_dram_list_num m) m
    pure (put, left)

  -- What is printed and what ends the wait, for the way down and for the way back, each with a schedule
  -- of its own.
  unfoldable pub main_moves : (rand turns turns_back : ℕ → ℕ) → Cmd ((ℕ × ℤ) × (ℕ × ℤ))
  unfolding map_region move_down move_up
  main_moves rand turns turns_back = do
    map_region
    down ← move_down rand turns
    up ← move_up rand turns_back
    pure (down, up)
