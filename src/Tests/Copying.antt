-- ===== src/Tests/Copying.antt =====
-- A copy by four threads at a concrete input.
use dma_migration_test.Base.{ℕ, ◌+◌, ◌*◌, ◌≡◌, refl, List, [], ◌∷◌, inr, arith}
use dma_migration_test.Hemem.ParallelCopy.{
  Memory, memcpy, hemem_parallel_memcpy, hemem_parallel_memcpy-memcpy,
}

abbrev bytes : Memory
bytes a = 3 * a + 1

abbrev turns : List ℕ
turns = 2 ∷ 0 ∷ 3 ∷ 1 ∷ []

hemem_parallel_memcpy-memcpy_example :
    hemem_parallel_memcpy 4 turns 100 0 8 bytes ≡ memcpy 100 0 8 bytes
hemem_parallel_memcpy-memcpy_example =
    hemem_parallel_memcpy-memcpy 4 100 0 8 refl (inr (omega arith)) turns bytes
      (omega arith, (omega arith, (omega arith, (omega arith, tt)))) (λ t low. ground arith)
