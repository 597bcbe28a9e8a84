-- ===== src/Tests/Returning.antt =====
-- A mapping and its end at a concrete input.
use dma_migration_test.Base.{ℕ, ◌*◌, ◌≡◌, refl, arith}
use dma_migration_test.Machine.{page_size, ◌>>=◌}
use dma_migration_test.Machine.Yields.{Yields}
use dma_migration_test.Hemem.Faults.{hemem_munmap}
use dma_migration_test.Hemem.Mmap.{hemem_mmap, page_round_up, page_base}
use dma_migration_test.Hemem.RoundTrip.{hemem_mmap-munmap}
use dma_migration_test.Driver.{region_flags}
use dma_migration_test.Tests.Fit.{sample-AllFit}
use dma_migration_test.Tests.Sample.{
  sample, sample-Inv, sample-Counted, granting, granting-Grants, listed, listed-FindsByKey,
}

hemem_mmap-munmap_example :
    Yields
      (λ _ m'. (a : ℕ) → listed.find m'.pages a ≡ listed.find sample.pages a)
      ((hemem_mmap granting listed 3 (8 * page_size) (2 * page_size) 3 region_flags 9 0 >>= λ p.
          hemem_munmap granting listed 3 p (2 * page_size))
        sample)
unfolding page_round_up page_base
hemem_mmap-munmap_example =
    hemem_mmap-munmap granting granting-Grants listed listed-FindsByKey 3 (8 * page_size) 3
      region_flags 9 0 (8 * page_size) 2 refl
      (record { answer = refl; some = λ e. omega arith; succeeds = λ e. omega arith }) refl
      (λ e. omega arith) (omega arith) refl (omega arith) sample-Inv sample-Counted sample-AllFit
      (omega arith)
      (record { va = λ a some. absurd (some refl); present = λ a some. absurd (some refl) })
      (λ j low. refl)
