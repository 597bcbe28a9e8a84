-- ===== src/Tests/Starting.antt =====
-- The start of the program at a concrete input.
use dma_migration_test.Base.{◌%◌, ℕ, ◌*◌, ◌≡◌, ◌==◌, if◌then◌else◌, List, refl, true, arith}
use dma_migration_test.Base.Int.{pos}
use dma_migration_test.Machine.{
  Os, Event, mmap, populate_fixed, requested, dramsize, nvmsize, page_size, ◌>>◌,
}
use dma_migration_test.Machine.Yields.{Yields}
use dma_migration_test.Hemem.Init.{Opens, init}
use dma_migration_test.Hemem.Begun.{Succeeds, Begun, init-Begun}
use dma_migration_test.Hemem.Granted.{Grants}
use dma_migration_test.Driver.Ways.{all_moved}
use dma_migration_test.Driver.{main_moves}
use dma_migration_test.Driver.Moves.{IsBack, main_moves-IsBack}
use dma_migration_test.Tests.Sample.{
  blank, blank-IsBlank, counting, counting-Allocates, counting_even-Allocates, granting,
  granting-Grants, listed, listed-FindsByKey,
}

-- All is given; the devices have the descriptors 3 and 4.
abbrev plenty : Opens
plenty = record {
  dram = pos 3;
  nvm = pos 4;
  userfaultfd = true;
  stats_file = true;
  util_file = true;
  result_file = λ n. true;
  thread = λ t. true;
  symbol = λ s. true;
}

plenty-Succeeds : Succeeds plenty
plenty-Succeeds = record {
  dram = refl;
  nvm = refl;
  userfaultfd = refl;
  stats_file = refl;
  util_file = refl;
  result_file = λ n. refl;
  thread = λ t. refl;
  symbol = λ s. refl;
}

init-Begun_example :
    Yields
      (λ _.
        Begun counting
          (record { dram_devdax_mmap = 0; nvm_devdax_mmap = 0; dramfd = 3; nvmfd = 4 })
          blank)
      (init granting plenty counting blank)
init-Begun_example =
    init-Begun granting granting-Grants plenty plenty-Succeeds 0 0
      (record { answer = λ t. refl; succeeds = λ e. omega arith })
      (record { answer = λ t. refl; succeeds = λ e. omega arith }) counting counting-Allocates
      counting_even-Allocates (λ j k e. omega arith) blank-IsBlank

-- A kernel that maps each device, and a range for the benchmark.
abbrev placing_mmap : List Event → Event → ℕ
placing_mmap t (mmap addr length populate_fixed fd offset) = addr
placing_mmap t (mmap addr length (requested prot flags) fd offset) =
    if length == dramsize
    then 1000 * page_size
    else if length == nvmsize
    then 20000 * page_size
    else 200000 * page_size
placing_mmap t _ = 0

abbrev placing : Os
placing = record granting { mmap_result = placing_mmap }

placing-Grants : Grants placing
placing-Grants = record {
  ioctls = λ t e. refl;
  maps = λ t va len fd offset. refl;
  not_failed = λ va aligned e. omega arith;
}

main_moves-IsBack_example :
    Yields
      (λ printed m'. (printed ≡ all_moved) × IsBack (200000 * page_size) m')
      ((init placing plenty counting
          >> main_moves placing listed 5000 (λ i. 7 * i) (λ i. i % 3) (λ i. 1))
        blank)
main_moves-IsBack_example =
    main_moves-IsBack placing placing-Grants plenty plenty-Succeeds (1000 * page_size)
      (20000 * page_size) (record { answer = λ t. refl; succeeds = λ e. omega arith })
      (record { answer = λ t. refl; succeeds = λ e. omega arith }) counting counting-Allocates
      counting_even-Allocates (λ j k e. omega arith) listed listed-FindsByKey (λ i. 7 * i)
      (λ i. i % 3) (λ i. 1) 5000 (200000 * page_size) blank-IsBlank (λ k. refl) (λ e. omega arith)
      (λ e. omega arith)
      (record {
        answer = λ t. refl;
        some = λ e. omega arith;
        succeeds = λ e. omega arith;
        aligned = refl;
        below = omega arith;
      })
      (omega arith)
