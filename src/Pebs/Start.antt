-- ===== src/Pebs/Start.antt =====
-- The state that `pebs_init` leaves.
use mathlib.Core.List.{append-nil}
use dma_migration_test.Base.{
  ℕ, zero, suc, ◌+◌, ◌≡◌, ◌<◌, ◌∙◌, refl, ap, sym, true, false, none, [], ◌∷◌, ◌++◌, length,
  length-append, u64_mod, arith,
}
use dma_migration_test.Machine.{
  Ptr, null, ListName, Machine, fastmem_pages, slowmem_pages, dram_free_list, nvm_free_list,
  dram_mmap_list, nvm_mmap_list, dram_to_dram_list, dram_to_nvm_list, nvm_to_dram_list,
  nvm_to_nvm_list,
}
use dma_migration_test.Machine.Yields
use dma_migration_test.Machine.Yields.{Yields, yields}
use dma_migration_test.Fifo.Seg.{nil}
use dma_migration_test.Fifo.Repr.{Queues, unlinked}
use dma_migration_test.Pebs.Allocate.{pebs_init}
use dma_migration_test.Pebs.Filled.{frames, frame, Allocates, init_list-Filled}
use dma_migration_test.Pebs.Invariant.{Inv, Counted, total}

-- The state at the program's start: the lists and counters are zero, and no descriptor is linked.
pub record IsBlank (m : Machine) : Type 0 where
  pub lists : (n : ListName) → m.fifo n ≡ record { first = null; last = null; numentries = 0 }
  pub counters : (n : ListName) → m.num n ≡ 0
  pub pages : (a : Ptr) → (m.page a).list ≡ none

abbrev no_pages : Queues
no_pages n = []

IsBlank-Inv : {m : Machine} → IsBlank m → Inv m no_pages
IsBlank-Inv h = record {
  lists = λ n. record {
    first = ap (λ l. l.first) (h.lists n);
    last = ap (λ l. l.last) (h.lists n);
    numentries = ap (λ l. l.numentries) (h.lists n);
    bounded = omega arith;
    chain = nil;
    distinct = tt;
  };
  placed = λ n. tt;
  few = omega arith;
}

-- Every frame of both devices is free, and has a descriptor of its own.
pub record Started (calloc : ListName → ℕ → Ptr) (m m' : Machine) : Type 0 where
  pub queues : Queues
  pub inv : Inv m' queues
  pub counted : Counted m' queues
  pub dram_free : queues dram_free_list ≡ frames (calloc dram_free_list) 0 fastmem_pages
  pub nvm_free : queues nvm_free_list ≡ frames (calloc nvm_free_list) 0 slowmem_pages
  pub others : (n : ListName) → ¬ (n ≡ dram_free_list) → ¬ (n ≡ nvm_free_list) → queues n ≡ []
  pub dram_frame :
      (j : ℕ)
      → j < fastmem_pages
      → unlinked (m'.page (calloc dram_free_list j)) ≡ unlinked (frame true j)
  pub nvm_frame :
      (j : ℕ)
      → j < slowmem_pages
      → unlinked (m'.page (calloc nvm_free_list j)) ≡ unlinked (frame false j)
  pub same_dev : m'.dev ≡ m.dev
  pub same_pages : m'.pages ≡ m.pages

pub length-frames : (calloc : ℕ → Ptr) (i rounds : ℕ) → length (frames calloc i rounds) ≡ rounds
unfolding frames
length-frames calloc i zero = refl
length-frames calloc i (suc rounds) =
    length-append (frames calloc (i + 1) rounds) (calloc i ∷ [])
    ∙ omega (arith, length-frames calloc (i + 1) rounds)

total-single :
    (qs : Queues)
    → ((j : ListName) → ¬ (j ≡ dram_free_list) → qs j ≡ [])
    → total qs ≡ length (qs dram_free_list)
total-single qs h = omega (
  arith,
  ap length (h nvm_free_list (λ e. cc)),
  ap length (h dram_mmap_list (λ e. cc)),
  ap length (h nvm_mmap_list (λ e. cc)),
  ap length (h dram_to_dram_list (λ e. cc)),
  ap length (h dram_to_nvm_list (λ e. cc)),
  ap length (h nvm_to_dram_list (λ e. cc)),
  ap length (h nvm_to_nvm_list (λ e. cc)),
)

dram_room :
    (calloc : ℕ → Ptr) (qs : Queues)
    → qs dram_free_list ≡ frames calloc 0 fastmem_pages ++ []
    → ((j : ListName) → ¬ (j ≡ dram_free_list) → qs j ≡ [])
    → total qs + slowmem_pages + 1 < u64_mod
dram_room calloc qs e h = omega (
  arith,
  total-single qs h,
  ap length e,
  length-append (frames calloc 0 fastmem_pages) [],
  length-frames calloc 0 fastmem_pages,
)

module _ (calloc : ListName → ℕ → Ptr) (dram : Allocates (calloc dram_free_list))
    (nvm : Allocates (calloc nvm_free_list))
    (apart : (j k : ℕ) → ¬ (calloc nvm_free_list j ≡ calloc dram_free_list k)) where
  -- From the state at the program's start, with addresses of `calloc` that are distinct and not
  -- NULL, `pebs_init` returns with the invariant and the counters established: each free list holds a
  -- descriptor for each frame of its device, with the frame's offset, and the other lists are empty;
  -- the table of mapped pages is as it was.
  pub pebs_init-Started :
      {m : Machine} → IsBlank m → Yields (λ _. Started calloc m) (pebs_init calloc m)
  unfolding pebs_init
  pebs_init-Started blank =
      Yields.bind
        (init_list-Filled true (calloc dram_free_list) dram 0 fastmem_pages (IsBlank-Inv blank)
          blank.counters (omega arith) (λ j _. blank.pages _))
        λ _ m₁ first.
          Yields.weaken
            (init_list-Filled false (calloc nvm_free_list) nvm 0 slowmem_pages first.inv
              first.counted (dram_room _ first.queues first.filled first.others)
              (λ j _. first.unlisted _ (λ k _ _. apart j k) (blank.pages _)))
            λ _ m₂ second. record {
              queues = second.queues;
              inv = second.inv;
              counted = second.counted;
              dram_free = second.others dram_free_list (λ e. cc) ∙ first.filled ∙ append-nil _;
              nvm_free =
                  second.filled
                  ∙ ap (λ l. frames (calloc nvm_free_list) 0 slowmem_pages ++ l)
                      (first.others nvm_free_list (λ e. cc))
                  ∙ append-nil _;
              others = λ n d v. second.others n v ∙ first.others n d;
              dram_frame = λ j high.
                  second.content _ (λ k _ _ e. apart k j (sym e))
                  ∙ first.written j (omega arith) (omega arith);
              nvm_frame = λ j high. second.written j (omega arith) (omega arith);
              same_dev = second.same_dev ∙ first.same_dev;
              same_pages = second.same_pages ∙ first.same_pages;
            }
