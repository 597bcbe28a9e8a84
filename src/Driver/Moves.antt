-- ===== src/Driver/Moves.antt =====
-- The benchmark's migrations down and back, from the program's start.
use mathlib.Core.Logic.{∥∥₁_elim}
use mathlib.Core.List.{Mem, Memᴰ}
use mathlib.Core.List.Memᴰ
use mathlib.Core.List.Perm
use dma_migration_test.Base.{
  ℕ, ◌+◌, ◌*◌, ◌%◌, ◌≡◌, ◌<◌, ◌∙◌, refl, ap, ap₂, sym, subst, Bool, true, false, All, ◌∷◌, List, [],
  length, arith, u64_mod, eqb_ne,
}
use dma_migration_test.Base.Int.{above}
use dma_migration_test.Machine.{
  Ptr, null, ListName, Event, mmap, requested, dramsize, nvmsize, ◌>>◌, Machine, HashTable, Os,
  Devices, page_size, fastmem_pages, slowmem_pages, dram_free_list, nvm_free_list, dram_mmap_list,
  nvm_mmap_list, dram_to_nvm_list, nvm_to_dram_list,
}
use dma_migration_test.Machine.Yields
use dma_migration_test.Machine.Yields.{Yields, yields}
use dma_migration_test.Fifo.Repr.{Queues}
use dma_migration_test.Interpose.Filtered.{is_managed, mmap_filter-is_managed}
use dma_migration_test.Hemem.Granted.{Grants}
use dma_migration_test.Hemem.Pages.{FindsByKey}
use dma_migration_test.Hemem.Fit.{Started-AllFit}
use dma_migration_test.Hemem.Init.{prot_read_write, Opens, init}
use dma_migration_test.Hemem.Begun.{Begun, Succeeds, MapsAt, init-Begun}
use dma_migration_test.Hemem.Mmap.{page_round_up, page_base, devdax_flags}
use dma_migration_test.Hemem.Mapping.{Populates}
use dma_migration_test.Hemem.Reserved.{Reserves, reserving, hemem_mmap-Populates}
use dma_migration_test.Pebs.Filled.{Allocates}
use dma_migration_test.Pebs.Invariant.{Inv, Counted, IsPlaced}
use dma_migration_test.Pebs.Route.{dram_to_nvm, nvm_to_dram, mapped_of}
use dma_migration_test.Pebs.Start.{IsBlank, length-frames}
use dma_migration_test.Driver.Ways.{
  all_moved, half, none_spare, first_room, second_room, nil_of_length, length-perm, Arrived,
  move_down-Arrived, move_up-Arrived,
}
use dma_migration_test.Driver.{size, npage, region_flags, map_region, main_moves}

-- All pages of the benchmark, from address `va` on, are mapped in DRAM, and none waits.
pub record IsBack (va : ℕ) (m' : Machine) : Type 0 where
  pub queues : Queues
  pub inv : Inv m' queues
  pub counted : Counted m' queues
  pub dram : length (queues dram_mmap_list) ≡ npage
  pub region :
      (j : ℕ)
      → j < npage
      → (a : Ptr) × Mem a (queues dram_mmap_list)
        × ((m'.page a).va ≡ va + j * page_size)
        × ((m'.page a).in_dram ≡ true)
  pub nvm : queues nvm_mmap_list ≡ []
  pub down : queues dram_to_nvm_list ≡ []
  pub up : queues nvm_to_dram_list ≡ []

-- With no page mapped in NVM, a mapped page is one of DRAM.
in_first :
    (qs : Queues)
    → qs nvm_mmap_list ≡ []
    → (a : Ptr) → (b : Bool) × Mem a (qs (mapped_of b))
    → Mem a (qs dram_mmap_list)
in_first qs none_there a (true, m) = m
in_first qs none_there a (false, m) =
    absurd (∥∥₁_elim (subst (Mem a) none_there m) (hlevel) Memᴰ.not-nil)

placed-in_dram :
    (m : Machine) (a : Ptr) (l : List Ptr)
    → All (IsPlaced m dram_mmap_list) l
    → Memᴰ a l
    → (m.page a).in_dram ≡ true
placed-in_dram m a [] h k = elim k [ ]
placed-in_dram m a (x ∷ l) (h, _) (Memᴰ.head e) = ap (λ b. (m.page b).in_dram) e ∙ h.0
placed-in_dram m a (x ∷ l) (_, h) (Memᴰ.tail k) = placed-in_dram m a l h k

-- What the kernel answers to the benchmark's `mmap`, passed on for the descriptor of DRAM: an aligned
-- range.
pub record Maps (os : Os) (dramfd va : ℕ) : Type 0 where
  pub answer :
      (t : List Event)
      → os.mmap_result t
          (mmap 0 size (requested prot_read_write (devdax_flags region_flags)) dramfd 0)
        ≡ va
  pub some : ¬ (va ≡ 0)
  pub succeeds : ¬ (va ≡ os.map_failed)
  pub aligned : va % page_size ≡ 0
  pub below : va + size < u64_mod

size_pages : page_round_up size ≡ npage * page_size
unfolding page_round_up page_base
size_pages = refl

module _ (os : Os) (g : Grants os) (table : HashTable) (keys : FindsByKey table)
    (rand turns turns_back : ℕ → ℕ) (fuel va : ℕ) (calloc : ListName → ℕ → Ptr) (devices : Devices)
    {m₀ m : Machine} (begun : Begun calloc devices m₀ m) where
  managed : ¬ (devices.dramfd ≡ 0) → ¬ (devices.nvmfd ≡ 0) → is_managed m region_flags 0 size ≡ true
  managed d n =
      let dev = begun.started.same_dev in
      rw
        (
          eqb_ne 0 m.dev.dramfd (λ e. d (sym (ap (λ v. v.dramfd) dev) ∙ sym e)),
          eqb_ne 0 m.dev.nvmfd (λ e. n (sym (ap (λ v. v.nvmfd) dev) ∙ sym e)),
          begun.internal_call,
          begun.is_init,
        )
        refl

  reserves :
      Maps os devices.dramfd va
      → Reserves os m (reserving 0 size prot_read_write region_flags 0 m) va
  unfolding page_round_up
  reserves maps = record {
    answer = rw (ap (λ v. v.dramfd) begun.started.same_dev) (maps.answer m.trace);
    some = maps.some;
    succeeds = maps.succeeds;
  }

  map_region-Populates :
      ¬ (devices.dramfd ≡ 0)
      → ¬ (devices.nvmfd ≡ 0)
      → Maps os devices.dramfd va
      → ((a : ℕ) → table.find m₀.pages a ≡ null)
      → npage < fuel
      → Yields (λ _. Populates table va npage begun.started.queues m) (map_region os table fuel m)
  unfolding map_region
  map_region-Populates d n maps clear fueled =
      let s = begun.started in
      let frames = ap length s.dram_free ∙ length-frames (calloc dram_free_list) 0 fastmem_pages in
      rw
        (
          mmap_filter-is_managed os table fuel 0 size prot_read_write region_flags 0 0 m,
          managed d n,
        )
        (Yields.bind
          (hemem_mmap-Populates os g table fuel 0 size prot_read_write region_flags 0 0 va keys
            npage begun.is_init (λ e. omega arith) (reserves maps) refl size_pages
            (λ e. omega arith) fueled maps.aligned maps.below s.inv s.counted (Started-AllFit s)
            (omega (arith, frames))
            (λ j low. ap (λ l. table.find l (va + j * page_size)) s.same_pages ∙ clear _))
          λ p m₁ (_, t, _). yields t)

  Arrived-IsBack :
      {m₁ m₂ m₃ : Machine} (t : Populates table va npage begun.started.queues m m₁)
      → (h : Arrived dram_to_nvm half t.queues m₁ m₂)
      → Arrived nvm_to_dram none_spare h.queues m₁ m₃
      → length (t.queues dram_mmap_list) ≡ npage
      → t.queues nvm_mmap_list ≡ []
      → IsBack va m₃
  Arrived-IsBack {m₁} {m₃} t h k there away = record {
    queues = k.queues;
    inv = k.inv;
    counted = k.counted;
    dram = length-perm k.same_pages ∙ length-perm h.same_pages ∙ there;
    region = λ j low.
        let a = table.find m₁.pages (va + j * page_size) in
        let mem : Mem a (k.queues dram_mmap_list) =
          (Perm.mem_iff (Perm.trans k.same_pages h.same_pages)).1
            (in_first t.queues away a (t.joined j low)) in
        (
          a,
          mem,
          k.same_va a ∙ (t.own j low).at,
          ∥∥₁_elim mem (hlevel)
              (placed-in_dram m₃ a (k.queues dram_mmap_list) (k.inv.placed dram_mmap_list)),
        );
    nvm = k.left;
    down =
        k.others dram_to_nvm_list (λ e. cc) (λ e. cc) (λ e. cc) (λ e. cc) (λ e. cc) ∙ h.none_waits;
    up = k.none_waits;
  }

  main_moves-begun :
      ¬ (devices.dramfd ≡ 0)
      → ¬ (devices.nvmfd ≡ 0)
      → Maps os devices.dramfd va
      → ((a : ℕ) → table.find m₀.pages a ≡ null)
      → npage < fuel
      → Yields
          (λ printed m'. (printed ≡ all_moved) × IsBack va m')
          (main_moves os table fuel rand turns turns_back m)
  unfolding main_moves
  main_moves-begun d n maps clear fueled =
      let s = begun.started in
      let frames = ap length s.dram_free ∙ length-frames (calloc dram_free_list) 0 fastmem_pages in
      let spares = ap length s.nvm_free ∙ length-frames (calloc nvm_free_list) 0 slowmem_pages in
      let dram_empty = ap length (s.others dram_mmap_list (λ e. cc) (λ e. cc)) in
      let nvm_empty = ap length (s.others nvm_mmap_list (λ e. cc) (λ e. cc)) in
      Yields.bind (map_region-Populates d n maps clear fueled) λ _ m₁ t.
        let f = t.frames in
        let idle =
          f.others dram_to_nvm_list (λ e. cc) (λ e. cc) (λ e. cc) (λ e. cc)
          ∙ s.others dram_to_nvm_list (λ e. cc) (λ e. cc) in
        let idle_up =
          f.others nvm_to_dram_list (λ e. cc) (λ e. cc) (λ e. cc) (λ e. cc)
          ∙ s.others nvm_to_dram_list (λ e. cc) (λ e. cc) in
        let there : length (t.queues dram_mmap_list) ≡ npage =
          omega (arith, frames, dram_empty, f.dram_free, f.dram_mapped) in
        let spare : length (t.queues nvm_free_list) ≡ slowmem_pages =
          omega (arith, frames, spares, f.nvm_free) in
        let left : length (t.queues dram_free_list) ≡ npage = omega (arith, frames, f.dram_free) in
        let away : t.queues nvm_mmap_list ≡ [] =
          nil_of_length _ (omega (arith, nvm_empty, frames, spares, f.nvm_free, f.nvm_mapped)) in
        Yields.bind
          (move_down-Arrived os g table rand turns fuel m₁ t.inv t.counted fueled (λ a. refl)
            (first_room t.fit spare left) idle away there)
          λ down m₂ (is_down, h).
            Yields.bind
              (move_up-Arrived os g table rand turns_back fuel m₁ h.inv h.counted fueled h.same_va
                (second_room h.fresh)
                (h.others nvm_to_dram_list (λ e. cc) (λ e. cc) (λ e. cc) (λ e. cc) (λ e. cc)
                  ∙ idle_up)
                h.left (length-perm h.same_pages ∙ there))
              λ up m₃ (is_up, k).
                yields (ap₂ (λ a b. (a, b)) is_down is_up, Arrived-IsBack t h k there away)

module _ (os : Os) (g : Grants os) (a : Opens) (given : Succeeds a) (dram nvm : ℕ)
    (dram_maps : MapsAt os dramsize (above a.dram) dram)
    (nvm_maps : MapsAt os nvmsize (above a.nvm) nvm) (calloc : ListName → ℕ → Ptr)
    (dram_free : Allocates (calloc dram_free_list)) (nvm_free : Allocates (calloc nvm_free_list))
    (apart : (j k : ℕ) → ¬ (calloc nvm_free_list j ≡ calloc dram_free_list k)) (table : HashTable)
    (keys : FindsByKey table) (rand turns turns_back : ℕ → ℕ) (fuel va : ℕ) where
  -- The program from its start to the end of the benchmark's second wait, where the migration thread
  -- makes any number of turns, each a whole round, in front of each page of a request and behind the
  -- last (`turns`, `turns_back`), and finishes the queue in the wait: 4096 is printed for the way down
  -- and for the way back, both waits are over, the mapped pages of DRAM are 4096, with one for each of
  -- the 4096 page addresses that the benchmark's `mmap` was given, none is mapped in NVM or waits, and
  -- the lists and counters are in order. This is when `calloc` gives distinct addresses that are not
  -- NULL, the C library gives what the start asks for, the devices with descriptors other than 0, the
  -- kernel grants the requests, maps the devices and answers the benchmark's `mmap` with an aligned
  -- range that is not at 0, the table finds by keys and starts empty, and fuel is there for 4096
  -- rounds and one more.
  pub main_moves-IsBack :
      {m : Machine}
      → IsBlank m
      → ((k : ℕ) → table.find m.pages k ≡ null)
      → ¬ (above a.dram ≡ 0)
      → ¬ (above a.nvm ≡ 0)
      → Maps os (above a.dram) va
      → npage < fuel
      → Yields
          (λ printed m'. (printed ≡ all_moved) × IsBack va m')
          ((init os a calloc >> main_moves os table fuel rand turns turns_back) m)
  main_moves-IsBack blank clear d n maps fueled =
      Yields.bind
        (init-Begun os g a given dram nvm dram_maps nvm_maps calloc dram_free nvm_free apart blank)
        λ _ m₁ begun.
          main_moves-begun os g table keys rand turns turns_back fuel va calloc _ begun d n maps
            clear fueled
