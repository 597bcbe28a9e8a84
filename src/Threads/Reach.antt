-- ===== src/Threads/Reach.antt =====
-- Every sequence of loop bodies of the threads, in any order, from a state whose lists are sound.
use dma_migration_test.Base.{ℕ, ◌+◌, ◌≡◌, refl, ap, subst, Bool, true, false, length, arith}
use dma_migration_test.Machine.{
  Ptr, ListName, Machine, HashTable, Os, Outcome, ok, fastmem_pages, slowmem_pages, dram_free_list,
  nvm_free_list, dram_mmap_list, nvm_mmap_list, dram_to_dram_list, dram_to_nvm_list,
  nvm_to_dram_list, nvm_to_nvm_list,
}
use dma_migration_test.Machine.Allows.{Allows}
use dma_migration_test.Hemem.Faults.{handle_missing_fault, populate_page, unmap_page}
use dma_migration_test.Fifo.Repr.{Queues}
use dma_migration_test.Pebs.Invariant.{Inv, Counted, total}
use dma_migration_test.Pebs.Migration.{migrate_round}
use dma_migration_test.Pebs.Request.{request_page, rotate}
use dma_migration_test.Pebs.Requests.{source_of, route-RequestLists}
use dma_migration_test.Pebs.Route.{Route, from_dram, queue_of}
use dma_migration_test.Pebs.Start.{Started, length-frames}
use dma_migration_test.Threads.Sound.{Sound}
use dma_migration_test.Threads.Round.{migrate_round-Sound}
use dma_migration_test.Threads.Requests.{request_page-Sound, rotate-Sound}
use dma_migration_test.Threads.Faults.{
  handle_missing_fault-Sound, populate_page-Sound, unmap_page-Sound,
}

-- Whether the counters agree with the lists after one more loop body.
abbrev pub still : Bool → Bool → Bool
still b true = b
still b false = false

module _ (os : Os) (table : HashTable) where
  -- One loop body, from one state to the next. The index says whether it keeps the counters: a fault
  -- and an `munmap` change the counters and the lists apart from each other.
  pub data Step : (counts : Bool) (m m' : Machine) → Type 0 where
    rotated : {m m' : Machine} (r : Route) → rotate (source_of r) 1 m ≡ ok tt m' → Step true m m'
    requested :
        {m m' : Machine} (r : Route) (n : ℕ)
        → request_page (source_of r) (queue_of r) (from_dram r) m ≡ ok n m'
        → Step true m m'
    moved : {m m' : Machine} (r : Route) → migrate_round os r 1 m ≡ ok tt m' → Step true m m'
    populated : {m m' : Machine} (va n : ℕ) → populate_page os table va m ≡ ok n m' → Step true m m'
    faulted :
        {m m' : Machine} (va : ℕ) → handle_missing_fault os table va m ≡ ok tt m' → Step false m m'
    unmapped : {m m' : Machine} (va n : ℕ) → unmap_page os table va m ≡ ok n m' → Step false m m'

  -- Any number of them. The index is true as long as no fault and no `munmap` is among them.
  pub data Reach : (counts : Bool) (m m' : Machine) → Type 0 where
    start : {m : Machine} → Reach true m m
    next : {b c : Bool} {m m₁ m₂ : Machine} → Reach b m m₁ → Step c m₁ m₂ → Reach (still b c) m m₂

module _ {A : Type 0} (P : A → Machine → Type 0) where
  returned : {r : Outcome A} {a : A} {m : Machine} → r ≡ ok a m → Allows P r → P a m
  returned e h = subst (Allows P) e h

module _ (os : Os) (table : HashTable) (all : ℕ) where
  Step-Sound :
      (b : Bool) {c : Bool} {m m' : Machine}
      → Step os table c m m'
      → Sound b all m
      → Sound (still b c) all m'
  Step-Sound b (rotated r e) s = returned (λ _. Sound b all) e (rotate-Sound b all s (source_of r))
  Step-Sound b (requested r n e) s =
      returned (λ _. Sound b all) e (request_page-Sound b all s (route-RequestLists r))
  Step-Sound b (moved r e) s = returned (λ _. Sound b all) e (migrate_round-Sound os r b all s)
  Step-Sound b (populated va n e) s =
      returned (λ _. Sound b all) e (populate_page-Sound os table va all b s)
  Step-Sound b (faulted va e) s =
      returned (λ _. Sound false all) e (handle_missing_fault-Sound os table va all b s)
  Step-Sound b (unmapped va n e) s =
      returned (λ _. Sound false all) e (unmap_page-Sound os table va all b s)

  Reach-Sound :
      {c : Bool} {m m' : Machine} → Reach os table c m m' → Sound true all m → Sound c all m'
  Reach-Sound start s = s
  Reach-Sound (next {b} reach st) s = Step-Sound b st (Reach-Sound reach s)

Started-total :
    {calloc : ListName → ℕ → Ptr} {m m' : Machine} (h : Started calloc m m')
    → total h.queues ≡ fastmem_pages + slowmem_pages
Started-total {calloc} h = omega (
  arith,
  ap length h.dram_free,
  length-frames (calloc dram_free_list) 0 fastmem_pages,
  ap length h.nvm_free,
  length-frames (calloc nvm_free_list) 0 slowmem_pages,
  ap length (h.others dram_mmap_list (λ e. cc) (λ e. cc)),
  ap length (h.others nvm_mmap_list (λ e. cc) (λ e. cc)),
  ap length (h.others dram_to_dram_list (λ e. cc) (λ e. cc)),
  ap length (h.others dram_to_nvm_list (λ e. cc) (λ e. cc)),
  ap length (h.others nvm_to_dram_list (λ e. cc) (λ e. cc)),
  ap length (h.others nvm_to_nvm_list (λ e. cc) (λ e. cc)),
)

-- Loop bodies of the requests, of the migration thread, of the fault thread, of the populating
-- `mmap` and of `munmap` follow a state whose lists are well formed and whose counters agree with
-- them, in any order and number, with any kernel and any table, as long as each of them returns. Then
-- the eight lists are well formed and each descriptor on them has the tier and the use of its list,
-- they hold as many descriptors as before, and if no fault and no `munmap` was among the loop
-- bodies then each counter is the length of its list.
pub Reach-keeps_frames :
    (os : Os) (table : HashTable) {m m' : Machine} {qs : Queues}
    → Inv m qs
    → Counted m qs
    → {c : Bool} → Reach os table c m m'
    → Sound c (total qs) m'
Reach-keeps_frames os table {qs} inv counted reach =
    Reach-Sound os table (total qs) reach
      (record { queues = qs; inv = inv; none_lost = refl; counted = λ on. counted })

-- From the state that `pebs_init` leaves, the lists hold a descriptor for each frame of the devices.
Reach-Started :
    {calloc : ListName → ℕ → Ptr} {m m₀ m' : Machine} (os : Os) (table : HashTable)
    → Started calloc m m₀
    → {c : Bool} → Reach os table c m₀ m'
    → Sound c (fastmem_pages + slowmem_pages) m'
Reach-Started {m'} os table h {c} reach =
    subst (λ n. Sound c n m') (Started-total h) (Reach-keeps_frames os table h.inv h.counted reach)
