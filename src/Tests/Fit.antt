-- ===== src/Tests/Fit.antt =====
-- The descriptors of the sample fit their devices.
use dma_migration_test.Base.{◌+◌, ◌%◌, ◌≡◌, ◌≤◌, refl, false, arith}
use dma_migration_test.Machine.{
  HememPage, hugep, page_size, dram_free_list, nvm_free_list, dram_mmap_list, nvm_mmap_list,
  dram_to_dram_list, dram_to_nvm_list, nvm_to_dram_list, nvm_to_nvm_list,
}
use dma_migration_test.Hemem.Calls.{size_of}
use dma_migration_test.Hemem.Fit.{AllFit, IsFit}
use dma_migration_test.Tests.Sample.{sample, sample_queues}

free-IsFit :
    (v : HememPage)
    → v.pt ≡ hugep
    → v.present ≡ false
    → v.devdax_offset + page_size ≤ size_of v.in_dram
    → IsFit v
free-IsFit v huge free fits = record {
  huge = huge;
  fits = fits;
  mapped = λ e. absurd (ground (arith, free, e));
  aligned = λ e. absurd (ground (arith, free, e));
}

used-IsFit :
    (v : HememPage)
    → v.pt ≡ hugep
    → ¬ (v.va ≡ 0)
    → v.va % page_size ≡ 0
    → v.devdax_offset + page_size ≤ size_of v.in_dram
    → IsFit v
used-IsFit v huge some aligned fits = record {
  huge = huge;
  fits = fits;
  mapped = λ _. some;
  aligned = λ _. aligned;
}

pub sample-AllFit : AllFit sample sample_queues
sample-AllFit dram_free_list = (free-IsFit _ refl refl (omega arith), tt)
sample-AllFit nvm_free_list = (free-IsFit _ refl refl (omega arith), tt)
sample-AllFit dram_mmap_list = (
  used-IsFit _ refl (λ e. omega arith) refl (omega arith),
  (used-IsFit _ refl (λ e. omega arith) refl (omega arith), tt),
)
sample-AllFit nvm_mmap_list = tt
sample-AllFit dram_to_dram_list = (used-IsFit _ refl (λ e. omega arith) refl (omega arith), tt)
sample-AllFit dram_to_nvm_list = (used-IsFit _ refl (λ e. omega arith) refl (omega arith), tt)
sample-AllFit nvm_to_dram_list = tt
sample-AllFit nvm_to_nvm_list = tt
