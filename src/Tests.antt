-- ===== src/Tests.antt =====
-- The theorems at concrete inputs: six descriptors on five lists, and a kernel that grants every
-- request.
pub mod Sample
pub mod Fit
mod Faulting
mod Recording
mod Starting
mod Copying
mod Returning
pub mod Bytes
mod Overwriting
pub mod Interleaving
mod Emptying
use dma_migration_test.Base.{All, ◌≡◌, ◌*◌, some, refl, true, false, [], ◌∷◌, inl, arith}
use dma_migration_test.Machine.{
  Machine, hash_add, ◌>>◌, ok, fault, null, page_size, dram_free_list, nvm_mmap_list,
  dram_mmap_list, dram_to_nvm_list, dram_to_dram_list,
}
use dma_migration_test.Machine.Yields.{Yields}
use dma_migration_test.Fifo.{enqueue_fifo, dequeue_fifo, page_list_remove_page, next_page}
use dma_migration_test.Fifo.Laws.{
  Enqueued, Taken, enqueue_fifo-Enqueued, dequeue_fifo-Taken, page_list_remove_page-Taken,
  next_page-walk,
}
use dma_migration_test.Pebs.Route.{dram_to_dram, dram_to_nvm, request_of}
use dma_migration_test.Pebs.Requested.{Shifted}
use dma_migration_test.Pebs.Drawn.{Drawn}
use dma_migration_test.Pebs.Requests.{request-in_order, request-random, request-random-fault}
use dma_migration_test.Pebs.Allocate.{pebs_pagefault, pebs_init}
use dma_migration_test.Pebs.Allocated.{Allocated, pebs_pagefault-Allocated}
use dma_migration_test.Pebs.Migration.{migrate_of, migrate_round, migrate_queue}
use dma_migration_test.Pebs.Touched.{IsReady}
use dma_migration_test.Pebs.Remapped.{Remapped, migrate-Remapped}
use dma_migration_test.Pebs.Settled.{after_round}
use dma_migration_test.Pebs.Rounds.{Moved, migrate_round-Moved}
use dma_migration_test.Pebs.Reissued.{ShareFrame, migrate_round-pagefault}
use dma_migration_test.Pebs.Drained.{IsMovable, Drained}
use dma_migration_test.Pebs.Start.{Started, pebs_init-Started}
use dma_migration_test.Pebs.Drains.{migrate_queue-Drained}
use dma_migration_test.Hemem.Faults.{handle_missing_fault, hemem_munmap}
use dma_migration_test.Hemem.Unmapped.{SameLists, hemem_munmap-SameLists}
use dma_migration_test.Hemem.Served.{Served, handle_missing_fault-Served}
use Sample.{
  blank, blank-IsBlank, counting, counting-Allocates, counting_even-Allocates, sample,
  sample_queues, sample-Represents, sample-Inv, sample-Counted, granting, granting-Grants, listed,
  listed-FindsByKey, sample-huge,
}

enqueue_fifo-Enqueued_example :
    Yields
      (λ _. Enqueued dram_mmap_list 7 sample_queues sample)
      (enqueue_fifo dram_mmap_list 7 sample)
enqueue_fifo-Enqueued_example =
    enqueue_fifo-Enqueued sample-Represents dram_mmap_list 7 (λ e. omega arith) refl refl
      (omega arith)

dequeue_fifo-Taken_example :
    Yields
      (λ a m'. (a ≡ 1) × Taken dram_mmap_list 1 (6 ∷ []) sample_queues sample m')
      (dequeue_fifo dram_mmap_list sample)
dequeue_fifo-Taken_example = dequeue_fifo-Taken sample-Represents dram_mmap_list (6 ∷ []) 1 refl

page_list_remove_page-Taken_example :
    Yields
      (λ _. Taken dram_mmap_list 6 (1 ∷ []) sample_queues sample)
      (page_list_remove_page dram_mmap_list 6 sample)
page_list_remove_page-Taken_example =
    page_list_remove_page-Taken sample-Represents dram_mmap_list [] (1 ∷ []) 6 refl

request-in_order_example :
    Yields
      (λ n m'.
        (n ≡ 1) × Shifted dram_mmap_list dram_to_nvm_list (6 ∷ []) (1 ∷ []) sample_queues sample m')
      (request_of dram_to_nvm (λ i. 5) 1 false sample)
request-in_order_example =
    request-in_order dram_to_nvm (λ i. 5) 1 sample-Inv sample-Counted (6 ∷ []) (1 ∷ []) 0 refl refl
      (inl refl)

request-random_example :
    Yields
      (λ n m'. (n ≡ 2) × Drawn dram_mmap_list dram_to_nvm_list 2 sample_queues sample m')
      (request_of dram_to_nvm (λ i. 5) 2 true sample)
request-random_example =
    request-random dram_to_nvm (λ i. 5) 2 sample-Inv sample-Counted (omega arith)

request-random-fault_example : request_of dram_to_nvm (λ i. 5) 3 true sample ≡ fault
request-random-fault_example =
    request-random-fault dram_to_nvm (λ i. 5) 3 sample-Inv sample-Counted (omega arith)

pebs_pagefault-Allocated_example :
    Yields (λ a m'. (a ≡ 5) × Allocated true 5 [] sample_queues sample m') (pebs_pagefault sample)
pebs_pagefault-Allocated_example = (pebs_pagefault-Allocated sample-Inv).0 [] 5 refl

sample-IsReady : IsReady dram_to_nvm (sample.page 3) 0
sample-IsReady = record {
  huge = refl;
  mapped = λ e. omega arith;
  aligned = refl;
  tier = refl;
  old_fits = omega arith;
  new_fits = omega arith;
}

migrate-Remapped_example :
    Yields
      (λ _. Remapped dram_to_nvm 3 0 sample)
      (migrate_of dram_to_nvm granting ((3, 0) ∷ []) sample)
migrate-Remapped_example =
    migrate-Remapped granting granting-Grants dram_to_nvm 3 0 sample (λ e. omega arith)
      sample-IsReady

migrate_round-Moved_example :
    Yields
      (λ _. Moved dram_to_nvm 3 2 (after_round dram_to_nvm 3 2 [] [] sample_queues) sample)
      (migrate_round granting dram_to_nvm 1 sample)
migrate_round-Moved_example =
    migrate_round-Moved granting granting-Grants dram_to_nvm 3 2 [] [] sample-Inv sample-Counted
      refl refl sample-IsReady

next_page-walk_example : next_page dram_mmap_list 1 sample ≡ ok 6 sample
next_page-walk_example = (next_page-walk sample-Represents dram_mmap_list).1 (6 ∷ []) [] 1 refl

sample-stays-IsReady : IsReady dram_to_dram (sample.page 4) (3 * page_size)
sample-stays-IsReady = record {
  huge = refl;
  mapped = λ e. omega arith;
  aligned = refl;
  tier = refl;
  old_fits = omega arith;
  new_fits = omega arith;
}

migrate_round-pagefault_example :
    Yields
      (λ a m'. (a ≡ 5) × ShareFrame 4 5 (sample_queues dram_mmap_list) m')
      ((migrate_round granting dram_to_dram 1 >> pebs_pagefault) sample)
migrate_round-pagefault_example =
    migrate_round-pagefault granting granting-Grants 4 5 [] sample-Inv refl refl sample-Counted
      sample-stays-IsReady

-- Page 3 is in the table.
abbrev entered : Machine
entered = record sample { pages = hash_add (sample.page 3).va 3 ∷ [] }

sample-IsMovable : All (λ a. IsMovable dram_to_nvm (sample.page a)) (3 ∷ [])
sample-IsMovable =
    (record { huge = refl; mapped = λ e. omega arith; aligned = refl; fits = omega arith }, tt)

migrate_queue-Drained_example :
    Yields
      (λ _. Drained dram_to_nvm sample_queues sample)
      (migrate_queue granting dram_to_nvm 2 sample)
migrate_queue-Drained_example =
    migrate_queue-Drained granting granting-Grants dram_to_nvm 2 sample-Inv sample-Counted
      (omega arith) (omega arith) sample-IsMovable (omega arith, tt)

handle_missing_fault-Served_example :
    Yields
      (λ _. Served listed true 5 [] (8 * page_size) sample_queues sample)
      (handle_missing_fault granting listed (8 * page_size) sample)
handle_missing_fault-Served_example =
    (handle_missing_fault-Served granting granting-Grants listed listed-FindsByKey (8 * page_size)
        sample-Inv (λ e. omega arith) refl refl sample-huge).0
      [] 5 refl

pebs_init-Started_example : Yields (λ _. Started counting blank) (pebs_init counting blank)
pebs_init-Started_example =
    pebs_init-Started counting counting-Allocates counting_even-Allocates (λ j k e. omega arith)
      blank-IsBlank

abbrev tracked : Machine
tracked = record sample { pages = hash_add page_size 1 ∷ [] }

hemem_munmap-SameLists_example :
    Yields (λ _. SameLists tracked) (hemem_munmap granting listed 513 page_size page_size tracked)
hemem_munmap-SameLists_example =
    hemem_munmap-SameLists granting listed 512 page_size page_size tracked
      (λ p e. cc (e, sample-huge p)) (omega arith) (omega arith)
