-- ===== src/Tests/Interleaving.antt =====
-- A request, a round of the migration thread and a turn of a list, one after the other.
use dma_migration_test.Base.{◌≡◌, refl, sym, subst, ap, true, [], ◌∷◌, arith}
use dma_migration_test.Machine.{
  Machine, Outcome, ok, ListName-discrete, nvm_free_list, dram_mmap_list, dram_to_nvm_list,
}
use dma_migration_test.Machine.Yields.{Yields, yields}
use dma_migration_test.Pebs.Drawn.{Reordered, rotate-Reordered}
use dma_migration_test.Pebs.Migration.{migrate_round}
use dma_migration_test.Pebs.Request.{request_page, rotate}
use dma_migration_test.Pebs.Settled.{after_round}
use dma_migration_test.Pebs.Requested.{Shifted, request_page-Shifted}
use dma_migration_test.Pebs.Requests.{route-RequestLists}
use dma_migration_test.Pebs.Round.{IsReady-content}
use dma_migration_test.Pebs.Rounds.{Moved, migrate_round-Moved}
use dma_migration_test.Pebs.Route.{dram_to_nvm}
use dma_migration_test.Pebs.Touched.{IsReady}
use dma_migration_test.Threads.Reach.{rotated, requested, moved, start, next, Reach-keeps_frames}
use dma_migration_test.Threads.Sound.{Sound}
use dma_migration_test.Tests.Sample.{
  sample, sample_queues, sample-Inv, sample-Counted, granting, granting-Grants, listed,
}

module _ {A : Type 0} {P : A → Machine → Type 0} where
  abbrev value_of : {r : Outcome A} → Yields P r → A
  value_of (yields {a} {m} h) = a

  abbrev pub end_of : {r : Outcome A} → Yields P r → Machine
  end_of (yields {a} {m} h) = m

  pub holds : {r : Outcome A} (h : Yields P r) → P (value_of h) (end_of h)
  holds (yields h) = h

  runs : {r : Outcome A} (h : Yields P r) → r ≡ ok (value_of h) (end_of h)
  runs (yields h) = refl

-- The application asks for page 1 to move down.
asking :
    Yields
      (λ put m'.
        (put ≡ 1)
        × Shifted dram_mmap_list dram_to_nvm_list (6 ∷ []) (1 ∷ []) sample_queues sample m')
      (request_page dram_mmap_list dram_to_nvm_list true sample)
asking =
    request_page-Shifted (route-RequestLists dram_to_nvm) sample-Inv sample-Counted (6 ∷ []) 1 refl

abbrev asked : Machine
asked = end_of asking

asked-Shifted : Shifted dram_mmap_list dram_to_nvm_list (6 ∷ []) (1 ∷ []) sample_queues sample asked
asked-Shifted = (holds asking).1

asked-IsReady : IsReady dram_to_nvm (asked.page 3) (asked.page 2).devdax_offset
asked-IsReady =
    let same = asked-Shifted.content.content in
    subst (IsReady dram_to_nvm (asked.page 3)) (sym (ap (λ v. v.devdax_offset) (same 2))) (
      IsReady-content dram_to_nvm {v = sample.page 3} 0 (sym (same 3)) (record {
        huge = refl;
        mapped = λ e. omega arith;
        aligned = refl;
        tier = refl;
        old_fits = omega arith;
        new_fits = omega arith;
      }))

-- The migration thread moves page 3, the oldest of the queue.
moving :
    Yields
      (λ _.
        Moved dram_to_nvm 3 2 (after_round dram_to_nvm 3 2 (1 ∷ []) [] asked-Shifted.queues) asked)
      (migrate_round granting dram_to_nvm 1 asked)
moving =
    migrate_round-Moved granting granting-Grants dram_to_nvm 3 2 (1 ∷ []) [] asked-Shifted.inv
      asked-Shifted.counted asked-Shifted.target
      (asked-Shifted.others nvm_free_list (λ e. cc) (λ e. cc)) asked-IsReady

abbrev moved_down : Machine
moved_down = end_of moving

-- The application's next request turns the mapped list.
turning :
    Yields
      (λ _.
        Reordered dram_mmap_list
          (6 ∷ [])
          (after_round dram_to_nvm 3 2 (1 ∷ []) [] asked-Shifted.queues)
          moved_down)
      (rotate dram_mmap_list 1 moved_down)
unfolding ListName-discrete
turning =
    rotate-Reordered dram_mmap_list 1 [] (6 ∷ []) (holds moving).inv (holds moving).counted
      asked-Shifted.source refl

Reach-keeps_frames_example : Sound true 6 (end_of turning)
Reach-keeps_frames_example = Reach-keeps_frames granting listed sample-Inv sample-Counted (
    next
      (next (next start (requested dram_to_nvm _ (runs asking))) (moved dram_to_nvm (runs moving)))
      (rotated dram_to_nvm (runs turning)))
