-- ===== src/Tests/Emptying.antt =====
-- The body of the migration thread at a concrete state.
use dma_migration_test.Base.{Bool, true, false, length, ◌≤◌, arith}
use dma_migration_test.Machine.Yields.{Yields}
use dma_migration_test.Pebs.Emptied.{Emptied, waiting, migration_request-Emptied}
use dma_migration_test.Pebs.Migration.{migration_request}
use dma_migration_test.Pebs.Route.{free_of}
use dma_migration_test.Tests.Fit.{sample-AllFit}
use dma_migration_test.Tests.Sample.{
  sample, sample_queues, sample-Inv, sample-Counted, granting, granting-Grants,
}

sample_frames : (b : Bool) → waiting b sample_queues ≤ length (sample_queues (free_of b))
sample_frames true = omega arith
sample_frames false = omega arith

migration_request-Emptied_example :
    Yields (λ _. Emptied sample_queues sample) (migration_request granting 3 sample)
migration_request-Emptied_example =
    migration_request-Emptied granting granting-Grants 3 sample-Inv sample-Counted sample-AllFit
      (omega arith) sample_frames
