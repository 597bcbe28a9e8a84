-- ===== src/Pebs/Migration.antt =====
-- The migration thread of pebs.c: its four `while` loops, and what one round of each does.
use dma_migration_test.Base.{
  ℕ, zero, suc, Bool, true, false, List, [], ◌∷◌, map, ◌==◌, if◌then◌else◌, ltb, add64, sub64,
}
use dma_migration_test.Machine.{
  Ptr, Os, Cmd, out_of_fuel, pure, failing, ◌>>=◌, ◌>>◌, load, modify, get_num, modify_num,
  num_batchs,
}
use dma_migration_test.Fifo.{enqueue_fifo, dequeue_fifo}
use dma_migration_test.Hemem.Migrate.{
  Batch, hemem_migrate_dram, hemem_migrate_nvm, hemem_migrate_down, hemem_migrate_up, hemem_wp_page,
}
use dma_migration_test.Pebs.Route.{
  Route, dram_to_dram, dram_to_nvm, nvm_to_dram, nvm_to_nvm, from_dram, to_dram, mapped_of, free_of,
  queue_of,
}

unfoldable pub set_migrating : Bool → List Ptr → Cmd (Unit {0})
set_migrating b [] = pure tt
set_migrating b (page ∷ pages) = do
  modify page (λ p. record p { migrating = b })
  set_migrating b pages

abbrev pub pages_of : Batch → List Ptr
pages_of batch = map (λ e. e.0) batch

-- The common body of the four functions below.
unfoldable pub migrate_with : (os : Os) → (Batch → Cmd (Unit {0})) → Batch → Cmd (Unit {0})
unfolding set_migrating
migrate_with os migrate batch = do
  set_migrating true (pages_of batch)
  hemem_wp_page os true (pages_of batch)
  migrate batch
  set_migrating false (pages_of batch)

unfoldable pub pebs_migrate_dram : (os : Os) → Batch → Cmd (Unit {0})
unfolding migrate_with
pebs_migrate_dram os = migrate_with os (hemem_migrate_dram os)

unfoldable pub pebs_migrate_nvm : (os : Os) → Batch → Cmd (Unit {0})
unfolding migrate_with
pebs_migrate_nvm os = migrate_with os (hemem_migrate_nvm os)

unfoldable pub pebs_migrate_down : (os : Os) → Batch → Cmd (Unit {0})
unfolding migrate_with
pebs_migrate_down os = migrate_with os (hemem_migrate_down os)

unfoldable pub pebs_migrate_up : (os : Os) → Batch → Cmd (Unit {0})
unfolding migrate_with
pebs_migrate_up os = migrate_with os (hemem_migrate_up os)

abbrev pub migrate_of : Route → (os : Os) → Batch → Cmd (Unit {0})
migrate_of dram_to_dram = pebs_migrate_dram
migrate_of dram_to_nvm = pebs_migrate_down
migrate_of nvm_to_dram = pebs_migrate_up
migrate_of nvm_to_nvm = pebs_migrate_nvm

-- One entry of the arrays `page[]`, `next_page[]` and `offset[]`.
pub record Slot : Type 0 where
  pub page : Ptr
  pub next_page : Ptr
  pub offset : ℕ

abbrev pub batch_of : List Slot → Batch
batch_of = map λ s. (s.page, s.offset)

-- The first `for` loop of a round. A NULL from an empty free list is read through.
unfoldable pub fill_slots : Route → (num : ℕ) → Cmd (List Slot)
fill_slots r zero = pure []
fill_slots r (suc num) = do
  page ← dequeue_fifo (queue_of r)
  next ← dequeue_fifo (free_of (to_dram r))
  n ← load next
  slots ← fill_slots r num
  pure (record { page = page; next_page = next; offset = n.devdax_offset } ∷ slots)

-- The second one: the page joins the mapped ones, and the descriptor of the free frame goes to the
-- free list of the tier that the page came from.
unfoldable pub put_back : Route → List Slot → Cmd (Unit {0})
put_back r [] = pure tt
put_back r (s ∷ slots) = do
  modify s.next_page
      (λ n. record n { devdax_offset = s.offset; present = false; in_dram = from_dram r })
  enqueue_fifo (mapped_of (to_dram r)) s.page
  enqueue_fifo (free_of (from_dram r)) s.next_page
  put_back r slots

-- The counters: a move between the tiers changes those of the free lists too.
unfoldable pub settle : Route → (num : ℕ) → Cmd (Unit {0})
settle dram_to_dram num = do
  modify_num (mapped_of true) (λ n. add64 n num)
  modify_num (queue_of dram_to_dram) (λ n. sub64 n num)
settle dram_to_nvm num = do
  modify_num (mapped_of false) (λ n. add64 n num)
  modify_num (free_of true) (λ n. add64 n num)
  modify_num (free_of false) (λ n. sub64 n num)
  modify_num (queue_of dram_to_nvm) (λ n. sub64 n num)
settle nvm_to_dram num = do
  modify_num (mapped_of true) (λ n. add64 n num)
  modify_num (free_of false) (λ n. add64 n num)
  modify_num (free_of true) (λ n. sub64 n num)
  modify_num (queue_of nvm_to_dram) (λ n. sub64 n num)
settle nvm_to_nvm num = do
  modify_num (mapped_of false) (λ n. add64 n num)
  modify_num (queue_of nvm_to_nvm) (λ n. sub64 n num)

-- One round of a `while` loop.
unfoldable pub migrate_round : (os : Os) → Route → (num : ℕ) → Cmd (Unit {0})
unfolding fill_slots put_back settle
migrate_round os r num = do
  slots ← fill_slots r num
  migrate_of r os (batch_of slots)
  put_back r slots
  settle r num

-- `while (..._list_num)`, with fuel.
unfoldable pub migrate_queue : (os : Os) → Route → (fuel : ℕ) → Cmd (Unit {0})
migrate_queue os r zero = failing out_of_fuel
migrate_queue os r (suc fuel) = do
  left ← get_num (queue_of r)
  if left == 0 then pure tt else do
    migrate_round os r (if ltb num_batchs left then num_batchs else left)
    migrate_queue os r fuel

-- The body of `migration_request`'s `for (;;)`: the four loops in their order.
unfoldable pub migration_request : (os : Os) → (fuel : ℕ) → Cmd (Unit {0})
migration_request os fuel = do
  migrate_queue os dram_to_dram fuel
  migrate_queue os dram_to_nvm fuel
  migrate_queue os nvm_to_dram fuel
  migrate_queue os nvm_to_nvm fuel
