-- ===== src/Hemem/Begun.antt =====
-- The state in which the program starts: `init` of interpose.c, with `hemem_init` and `pebs_init`.
use dma_migration_test.Base.{
  ℕ, ◌≡◌, refl, ap, Bool, true, false, not, List, ◌∷◌, ◌∙◌, if◌then◌else◌,
}
use dma_migration_test.Base.Int.{above, is_negative}
use dma_migration_test.Machine.{
  pure, failing, exit, Cmd, continue_with, ◌>>=◌, assert, set_internal_call, Ptr, ListName, Machine,
  Devices, Os, Event, mmap, requested, uffd_api, uffd_dma_request_channs, dramsize, nvmsize, ok,
  dram_free_list, nvm_free_list,
}
use dma_migration_test.Machine.Rules
use dma_migration_test.Machine.Yields
use dma_migration_test.Machine.Yields.{Yields, yields}
use dma_migration_test.Record.Opened.{open_res_file-opens}
use dma_migration_test.Pebs.Filled.{Allocates}
use dma_migration_test.Pebs.Invariant.{Inv-frame}
use dma_migration_test.Pebs.Start.{IsBlank, Started, pebs_init-Started}
use dma_migration_test.Hemem.Granted.{Grants, granted}
use dma_migration_test.Hemem.Reserved.{libc_mmap-ok}
use dma_migration_test.Hemem.Calls.{ioctl, libc_mmap}
use dma_migration_test.Hemem.Init.{
  num_channs, size_per_dma_request, set_dramfd, set_nvmfd, Thread, Symbol, Opens, fault_thread,
  util_thread, kswapd_thread, stats_thread, mmap_symbol, munmap_symbol, malloc_symbol, free_symbol,
  devdax_map_flags, prot_read_write, are_open, open_results, open_devices, map_devices, hemem_init,
  init,
}

-- All that the start asks for is given.
pub record Succeeds (a : Opens) : Type 0 where
  pub dram : is_negative a.dram ≡ false
  pub nvm : is_negative a.nvm ≡ false
  pub userfaultfd : a.userfaultfd ≡ true
  pub stats_file : a.stats_file ≡ true
  pub util_file : a.util_file ≡ true
  pub result_file : (n : ℕ) → a.result_file n ≡ true
  pub thread : (t : Thread) → a.thread t ≡ true
  pub symbol : (s : Symbol) → a.symbol s ≡ true

-- The kernel maps a device of this size and descriptor at `addr`.
pub record MapsAt (os : Os) (size fd addr : ℕ) : Type 0 where
  pub answer :
      (t : List Event)
      → os.mmap_result t (mmap 0 size (requested prot_read_write devdax_map_flags) fd 0) ≡ addr
  pub succeeds : ¬ (addr ≡ os.map_failed)

-- The manager is set up: every frame is free, and the devices are known.
pub record Begun (calloc : ListName → ℕ → Ptr) (devices : Devices) (m m' : Machine) : Type 0 where
  pub started : Started calloc (record m { dev = devices }) m'
  pub is_init : m'.is_init ≡ true
  pub internal_call : m'.internal_call ≡ false

open_results-ok : (a : Opens) (m : Machine) → Succeeds a → open_results a m ≡ ok tt m
unfolding open_results are_open assert
open_results-ok a m s =
    let f = s.result_file in
    rw
      (
        open_res_file-opens a.result_file (λ n. false),
        f 0,
        f 1,
        f 2,
        f 3,
        s.thread util_thread,
        s.util_file,
      )
      refl

module _ (os : Os) (g : Grants os) (a : Opens) (s : Succeeds a) (dram nvm : ℕ)
    (dram_maps : MapsAt os dramsize (above a.dram) dram)
    (nvm_maps : MapsAt os nvmsize (above a.nvm) nvm) where
  abbrev devices : Devices
  devices = record {
    dram_devdax_mmap = dram;
    nvm_devdax_mmap = nvm;
    dramfd = above a.dram;
    nvmfd = above a.nvm;
  }

  -- What nothing but the manager's lists is read from.
  record Same (m m' : Machine) : Type 0 where
    page : m'.page ≡ m.page
    fifo : m'.fifo ≡ m.fifo
    num : m'.num ≡ m.num
    pages : m'.pages ≡ m.pages

  assert_last :
      {P : Unit {0} → Machine → Type 0} {b : Bool} (m : Machine)
      → b ≡ true
      → Yields P (ok tt m)
      → Yields P (assert b m)
  unfolding assert
  assert_last m e h = rw e h

  mapping :
      {A : Type 0} {Q : A → Machine → Type 0} {e : Event} (m : Machine) (va : ℕ) (k : ℕ → Cmd A)
      → os.mmap_result m.trace e ≡ va
      → ¬ (va ≡ os.map_failed)
      → Yields Q (k va (record m { trace = e ∷ m.trace }))
      → Yields Q (continue_with (libc_mmap os e m) k)
  mapping {e} m va k answer succeeds h = rw (libc_mmap-ok os m e va answer succeeds) h

  or_exit :
      {A : Type 0} {Q : A → Machine → Type 0} (e : Event) (m : Machine) (k : Unit {0} → Cmd A)
      → Yields Q (k tt (record m { trace = e ∷ m.trace }))
      → Yields Q
          (continue_with (ioctl os e m) λ done. (if done then pure tt else failing exit) >>= k)
  unfolding ioctl
  or_exit e m k h = rw (g.ioctls m.trace e) h

  results :
      {A : Type 0} {Q : A → Machine → Type 0} (m : Machine) (k : Unit {0} → Cmd A)
      → Yields Q (k tt m)
      → Yields Q (continue_with (open_results a m) k)
  results m k h = rw (open_results-ok a m s) h

  open_devices-Same :
      (m : Machine)
      → Yields
          (λ _ m'. Same m m' × (m'.dev.dramfd ≡ above a.dram) × (m'.dev.nvmfd ≡ above a.nvm))
          (open_devices os a m)
  unfolding open_devices assert set_dramfd set_nvmfd set_internal_call
  open_devices-Same m = Rules.assert-then _ _ _ (ap not s.dram) (
      Rules.assert-then _ _ _ (ap not s.nvm) (
        Rules.assert-then _ _ _ s.userfaultfd (
          Rules.assert-then _ _ _ s.stats_file (
            results _ _ (
              granted g _ uffd_api _ (
                assert_last _ (s.thread fault_thread) (
                  yields (
                    record { page = refl; fifo = refl; num = refl; pages = refl },
                    refl,
                    refl,
                  ))))))))

  map_devices-Same :
      (m : Machine)
      → m.dev.dramfd ≡ above a.dram
      → m.dev.nvmfd ≡ above a.nvm
      → Yields (λ _ m'. Same m m' × (m'.dev ≡ devices)) (map_devices os a m)
  unfolding map_devices
  map_devices-Same m d n = mapping _ dram _ (rw d (dram_maps.answer m.trace)) dram_maps.succeeds (
      mapping _ nvm _ (rw n (nvm_maps.answer _)) nvm_maps.succeeds
        (yields (record { page = refl; fifo = refl; num = refl; pages = refl }, rw (d, n) refl)))

  module _ (calloc : ListName → ℕ → Ptr) (dram_free : Allocates (calloc dram_free_list))
      (nvm_free : Allocates (calloc nvm_free_list))
      (apart : (j k : ℕ) → ¬ (calloc nvm_free_list j ≡ calloc dram_free_list k)) where
    -- When the kernel, `calloc` and the C library give what the start asks for, the devices mapped at
    -- `dram` and `nvm`: from the state that the program is loaded in, `init` returns with the manager
    -- set up as `pebs_init` does, the devices known, calls of the application let through to the
    -- manager, and `is_init` set.
    pub init-Begun :
        {m : Machine} → IsBlank m → Yields (λ _. Begun calloc devices m) (init os a calloc m)
    unfolding init hemem_init set_internal_call
    init-Begun {m} blank = Rules.assert-then _ _ _ (s.symbol mmap_symbol) (
        Rules.assert-then _ _ _ (s.symbol munmap_symbol) (
          Rules.assert-then _ _ _ (s.symbol malloc_symbol) (
            Rules.assert-then _ _ _ (s.symbol free_symbol) (
              Yields.bind (open_devices-Same m) λ _ m₁ (same, d, n).
                Yields.bind (map_devices-Same m₁ d n) λ _ m₂ (same', known).
                  or_exit (uffd_dma_request_channs num_channs size_per_dma_request) m₂ _ (
                    Yields.bind
                      (pebs_init-Started calloc dram_free nvm_free apart (record {
                        lists = λ k. rw (same'.fifo, same.fifo) (blank.lists k);
                        counters = λ k. rw (same'.num, same.num) (blank.counters k);
                        pages = λ k. rw (same'.page, same.page) (blank.pages k);
                      }))
                      λ _ m₃ t. Rules.assert-then _ _ _ (s.thread kswapd_thread) (
                        Rules.assert-then _ _ _ (s.thread stats_thread) (
                          yields (record {
                            started = record {
                              queues = t.queues;
                              inv = Inv-frame refl refl t.inv;
                              counted = t.counted;
                              dram_free = t.dram_free;
                              nvm_free = t.nvm_free;
                              others = t.others;
                              dram_frame = t.dram_frame;
                              nvm_frame = t.nvm_frame;
                              same_dev = t.same_dev ∙ known;
                              same_pages = t.same_pages ∙ same'.pages ∙ same.pages;
                            };
                            is_init = refl;
                            internal_call = refl;
                          }))))))))
