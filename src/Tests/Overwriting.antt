-- ===== src/Tests/Overwriting.antt =====
-- Two pages that wait for a move within the DRAM, with one free frame: the second lands on the first.
use dma_migration_test.Base.{ℕ, ◌+◌, ◌≡◌, ◌<◌, inl, refl, ap, sym, subst, true, [], ◌∷◌, arith}
use dma_migration_test.Machine.{
  Ptr, Machine, Outcome, ok, ◌>>◌, modify, load, assert, modify_num, modify_fifo, ListName-discrete,
  dram_mmap_list, dram_to_dram_list, dram_free_list, page_size,
}
use dma_migration_test.Machine.Allows.{Allows, of_Yields}
use dma_migration_test.Fifo.{enqueue_fifo, dequeue_fifo}
use dma_migration_test.Pebs.Memory.{Backs, reads, IsWithin, Behaves, AreApart, frame_at}
use dma_migration_test.Pebs.Migration.{migrate_round}
use dma_migration_test.Pebs.Overwrites.{migrate_round-overwrites}
use dma_migration_test.Pebs.Request.{request_page}
use dma_migration_test.Pebs.Requested.{Shifted, request_page-Shifted}
use dma_migration_test.Pebs.Requests.{route-RequestLists}
use dma_migration_test.Pebs.Round.{IsReady-content}
use dma_migration_test.Pebs.Route.{dram_to_dram}
use dma_migration_test.Pebs.Touched.{IsReady}
use dma_migration_test.Tests.Bytes.{plain, plain-Behaves, sample-IsWithin}
use dma_migration_test.Tests.Sample.{
  sample, blank, sample_queues, sample-Inv, sample-Counted, granting, granting-Grants,
}
use dma_migration_test.Machine.Yields.{Yields}

abbrev state_of : {A : Type 0} → Outcome A → Machine
state_of (ok a m) = m
state_of _ = blank

-- Page 1 joins page 4 on the queue.
abbrev crowded : Machine
crowded = state_of (request_page dram_mmap_list dram_to_dram_list true sample)

crowded-run :
    (request_page dram_mmap_list dram_to_dram_list true sample ≡ ok 1 crowded)
    × (crowded.trace ≡ [])
    × (crowded.dev ≡ sample.dev)
unfolding request_page modify_num enqueue_fifo dequeue_fifo modify load assert modify_fifo
    ListName-discrete
crowded-run = (refl, refl, refl)

crowded-Shifted :
    Shifted dram_mmap_list dram_to_dram_list (6 ∷ []) (1 ∷ []) sample_queues sample crowded
crowded-Shifted =
    (subst
      (Allows λ put m'.
        (put ≡ 1)
        × Shifted dram_mmap_list dram_to_dram_list (6 ∷ []) (1 ∷ []) sample_queues sample m')
      crowded-run.0
      (of_Yields (
        request_page-Shifted (route-RequestLists dram_to_dram) sample-Inv sample-Counted (6 ∷ []) 1
          refl))).1

crowded-IsReady :
    (p : Ptr)
    → IsReady dram_to_dram (sample.page p) (sample.page 5).devdax_offset
    → IsReady dram_to_dram (crowded.page p) (crowded.page 5).devdax_offset
crowded-IsReady p h =
    let same = crowded-Shifted.content.content in
    subst (IsReady dram_to_dram (crowded.page p)) (sym (ap (λ v. v.devdax_offset) (same 5))) (
      IsReady-content dram_to_dram {v = sample.page p} (sample.page 5).devdax_offset (sym (same p))
        h)

IsReady-4 : IsReady dram_to_dram (sample.page 4) (sample.page 5).devdax_offset
IsReady-4 = record {
  huge = refl;
  mapped = λ e. omega arith;
  aligned = refl;
  tier = refl;
  old_fits = omega arith;
  new_fits = omega arith;
}

IsReady-1 : IsReady dram_to_dram (sample.page 1) (sample.page 5).devdax_offset
IsReady-1 = record {
  huge = refl;
  mapped = λ e. omega arith;
  aligned = refl;
  tier = refl;
  old_fits = omega arith;
  new_fits = omega arith;
}

crowded-Backs :
    (p : Ptr)
    → Backs plain [] sample.dev (sample.page p)
    → Backs plain crowded.trace crowded.dev (crowded.page p)
crowded-Backs p h =
    let here : Backs plain [] sample.dev (crowded.page p) =
      subst (Backs plain [] sample.dev) (sym (crowded-Shifted.content.content p)) h in
    subst (λ t. Backs plain t crowded.dev (crowded.page p)) (sym crowded-run.1)
      (subst (λ dev. Backs plain [] dev (crowded.page p)) (sym crowded-run.2) here)

-- What the descriptors say is as in the sample.
crowded-AreApart :
    (p : Ptr)
    → AreApart
        (frame_at sample.dev true (sample.page p).devdax_offset)
        (frame_at sample.dev true (sample.page 5).devdax_offset)
        page_size
    → AreApart
        (frame_at crowded.dev true (crowded.page p).devdax_offset)
        (frame_at crowded.dev true (crowded.page 5).devdax_offset)
        page_size
crowded-AreApart p h =
    let same = crowded-Shifted.content.content in
    subst
      (λ dev.
        AreApart (frame_at dev true (crowded.page p).devdax_offset)
          (frame_at dev true (crowded.page 5).devdax_offset) page_size)
      (sym crowded-run.2)
      (subst
        (λ o.
          AreApart (frame_at sample.dev true o)
            (frame_at sample.dev true (crowded.page 5).devdax_offset) page_size)
        (sym (ap (λ v. v.devdax_offset) (same p)))
        (subst
          (λ o.
            AreApart (frame_at sample.dev true (sample.page p).devdax_offset)
              (frame_at sample.dev true o) page_size)
          (sym (ap (λ v. v.devdax_offset) (same 5))) h))

pages-AreApart : AreApart (crowded.page 1).va (crowded.page 4).va page_size
pages-AreApart =
    let same = crowded-Shifted.content.content in
    subst (λ a. AreApart a (crowded.page 4).va page_size) (sym (ap (λ v. v.va) (same 1)))
      (subst (λ a. AreApart (sample.page 1).va a page_size) (sym (ap (λ v. v.va) (same 4)))
        (inl (omega arith)))

migrate_round-overwrites_example :
    Yields
      (λ _ m'.
        (i : ℕ)
        → i < page_size
        → reads plain m'.trace ((crowded.page 4).va + i)
          ≡ reads plain crowded.trace ((crowded.page 1).va + i))
      ((migrate_round granting dram_to_dram 1 >> migrate_round granting dram_to_dram 1) crowded)
migrate_round-overwrites_example =
    migrate_round-overwrites plain granting granting-Grants dram_to_dram refl 4 1 5 []
      (subst (λ dev. Behaves dev plain) (sym crowded-run.2) plain-Behaves)
      (subst IsWithin (sym crowded-run.2) sample-IsWithin) crowded-Shifted.inv
      crowded-Shifted.counted crowded-Shifted.target
      (crowded-Shifted.others dram_free_list (λ e. cc) (λ e. cc)) (crowded-IsReady 4 IsReady-4)
      (crowded-IsReady 1 IsReady-1) (crowded-Backs 4 (λ i low. omega arith))
      (crowded-Backs 1 (λ i low. omega arith)) (crowded-AreApart 4 (inl (omega arith)))
      (crowded-AreApart 1 (inl (omega arith))) pages-AreApart
