-- ===== src/Pebs/Requests.antt =====
-- The theorems on `mig_dram_to_dram_request`, `mig_nvm_to_nvm_request`, `migrate_down_request` and
-- `migrate_up_request`, for each route.
use dma_migration_test.Base.{
  ℕ, ◌+◌, ◌≡◌, ◌≤◌, ◌<◌, ◌⊎◌, refl, arith, true, false, List, [], ◌++◌, length,
}
use dma_migration_test.Machine.{Ptr, ListName, Machine, fault}
use dma_migration_test.Machine.Yields
use dma_migration_test.Machine.Yields.{Yields}
use dma_migration_test.Fifo.Repr.{Queues}
use dma_migration_test.Pebs.Invariant.{Inv, Counted}
use dma_migration_test.Pebs.Request.{
  mig_dram_to_dram_request, mig_nvm_to_nvm_request, migrate_down_request, migrate_up_request,
  request_in_order, request_at_random,
}
use dma_migration_test.Pebs.Requested.{Shifted, RequestLists, request_in_order-Shifted}
use dma_migration_test.Pebs.Drawn.{Drawn, request_at_random-Drawn, request_at_random-fault}
use dma_migration_test.Pebs.Route.{
  Route, dram_to_dram, dram_to_nvm, nvm_to_dram, nvm_to_nvm, from_dram, mapped_of, queue_of,
  request_of,
}

abbrev pub source_of : Route → ListName
source_of r = mapped_of (from_dram r)

pub route-RequestLists : (r : Route) → RequestLists (source_of r) (queue_of r) (from_dram r)
route-RequestLists dram_to_dram = record {
  apart = λ e. cc;
  tier_source = refl;
  tier_target = refl;
  used_source = refl;
  used_target = refl;
}
route-RequestLists dram_to_nvm = record {
  apart = λ e. cc;
  tier_source = refl;
  tier_target = refl;
  used_source = refl;
  used_target = refl;
}
route-RequestLists nvm_to_dram = record {
  apart = λ e. cc;
  tier_source = refl;
  tier_target = refl;
  used_source = refl;
  used_target = refl;
}
route-RequestLists nvm_to_nvm = record {
  apart = λ e. cc;
  tier_source = refl;
  tier_target = refl;
  used_source = refl;
  used_target = refl;
}

request_of-in_order :
    (r : Route) (rand : ℕ → ℕ) (pages : ℕ)
    → request_of r rand pages false
      ≡ request_in_order (source_of r) (queue_of r) (from_dram r) pages 0
unfolding mig_dram_to_dram_request mig_nvm_to_nvm_request migrate_down_request migrate_up_request
request_of-in_order dram_to_dram rand pages = refl
request_of-in_order dram_to_nvm rand pages = refl
request_of-in_order nvm_to_dram rand pages = refl
request_of-in_order nvm_to_nvm rand pages = refl

request_of-random :
    (r : Route) (rand : ℕ → ℕ) (pages : ℕ)
    → request_of r rand pages true
      ≡ request_at_random rand (source_of r) (queue_of r) (from_dram r) pages 0 0
unfolding mig_dram_to_dram_request mig_nvm_to_nvm_request migrate_down_request migrate_up_request
request_of-random dram_to_dram rand pages = refl
request_of-random dram_to_nvm rand pages = refl
request_of-random nvm_to_dram rand pages = refl
request_of-random nvm_to_nvm rand pages = refl

module _ (r : Route) (rand : ℕ → ℕ) (pages : ℕ) {m : Machine} {qs : Queues} (inv : Inv m qs)
    (counted : Counted m qs) where
  -- An in-order request for `pages` pages moves that many pages from the end of the mapped list, or
  -- all of them if there are fewer, to the front of the route's queue in the order they had. It
  -- returns their number, keeps the invariant and the counters, and changes no other list and no
  -- descriptor but in its links.
  pub request-in_order :
      (xs ys : List Ptr) (extra : ℕ)
      → qs (source_of r) ≡ xs ++ ys
      → pages ≡ length ys + extra
      → (extra ≡ 0) ⊎ (xs ≡ [])
      → Yields
          (λ n m'. (n ≡ length ys) × Shifted (source_of r) (queue_of r) xs ys qs m m')
          (request_of r rand pages false m)
  request-in_order xs ys extra e size enough = rw (request_of-in_order r rand pages) (
      Yields.weaken
        (request_in_order-Shifted (route-RequestLists r) pages 0 extra xs ys inv counted e size
          enough)
        λ n m' (sum, s). (omega arith, s))

  -- A random request for no more pages than are mapped returns the number asked for. That many
  -- pages went from the mapped list to the front of the queue, both together hold the pages that
  -- the mapped list held, and the invariant and the counters are kept.
  pub request-random :
      pages ≤ length (qs (source_of r))
      → Yields
          (λ n m'. (n ≡ pages) × Drawn (source_of r) (queue_of r) pages qs m m')
          (request_of r rand pages true m)
  request-random enough = rw (request_of-random r rand pages) (
      Yields.weaken
        (request_at_random-Drawn (route-RequestLists r) rand pages 0 0 inv counted enough)
        λ n m' (sum, d). (omega arith, d))

  -- A random request for more pages than are mapped ends in a division by zero.
  pub request-random-fault :
      length (qs (source_of r)) < pages → request_of r rand pages true m ≡ fault
  request-random-fault many =
      rw (request_of-random r rand pages)
        (request_at_random-fault (route-RequestLists r) rand pages 0 0 inv counted many)
