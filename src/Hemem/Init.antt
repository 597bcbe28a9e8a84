-- ===== src/Hemem/Init.antt =====
-- `hemem_init` and `hemem_stop` of hemem.c, and `init` and `hemem_shutdown` of interpose.c, which
-- call them when the program is loaded and when it ends. What the messages and the titles of the
-- result files print is left out, and so is what a thread does once it runs.
use dma_migration_test.Base.{ℕ, ◌*◌, Bool, true, false, not, Option, none, some, if◌then◌else◌}
use dma_migration_test.Base.Int.{ℤ, above, is_negative}
use dma_migration_test.Machine.{
  Ptr, ListName, MapFlags, Os, Cmd, ok, abort, exit, pure, failing, ◌>>=◌, ◌>>◌, assert, mmap,
  requested, dramsize, nvmsize, uffd_api, uffd_dma_request_channs, uffd_dma_release_channs,
  set_internal_call,
}
use dma_migration_test.Pebs.Allocate.{pebs_init}
use dma_migration_test.Record.{open_res_file}
use dma_migration_test.Hemem.Calls.{ioctl, libc_mmap}

-- The threads that the start of the program creates.
pub data Thread : Type 0 where
  fault_thread util_thread kswapd_thread stats_thread : Thread

-- The symbols that `init` binds.
pub data Symbol : Type 0 where
  mmap_symbol munmap_symbol malloc_symbol free_symbol : Symbol

-- What the calls at the program's start return: `open` of the two devices, whether the userfaultfd,
-- the log, the file of the cores and each result file could be opened, whether each thread
-- could be created, and whether `dlsym` found each symbol.
pub record Opens : Type 0 where
  pub dram : ℤ
  pub nvm : ℤ
  pub userfaultfd : Bool
  pub stats_file : Bool
  pub util_file : Bool
  pub result_file : ℕ → Bool
  pub thread : Thread → Bool
  pub symbol : Symbol → Bool

abbrev pub num_channs : ℕ
num_channs = 1666666

abbrev pub size_per_dma_request : ℕ
size_per_dma_request = 256 * 1024

-- MAP_SHARED | MAP_POPULATE.
abbrev pub devdax_map_flags : MapFlags
devdax_map_flags = record {
  map_private = false;
  map_shared = true;
  map_anonymous = false;
  map_hugetlb = false;
  map_populate = true;
  map_stack = false;
  others = 0;
}

-- PROT_READ | PROT_WRITE.
abbrev pub prot_read_write : ℕ
prot_read_write = 3

unfoldable pub are_open : Option (ℕ → Bool) → Cmd (Unit {0})
are_open none = failing abort
are_open (some files) = pure tt

-- `open_res_file`, with the thread and the file for the use of the cores.
unfoldable pub open_results : Opens → Cmd (Unit {0})
unfolding are_open
open_results a = do
  are_open (open_res_file a.result_file (λ n. false))
  assert (a.thread util_thread)
  assert a.util_file

unfoldable pub set_dramfd : ℤ → Cmd (Unit {0})
set_dramfd fd m = ok tt (record m { dev = record m.dev { dramfd = above fd } })

unfoldable pub set_nvmfd : ℤ → Cmd (Unit {0})
set_nvmfd fd m = ok tt (record m { dev = record m.dev { nvmfd = above fd } })

module _ (os : Os) (a : Opens) where
  -- The device of a descriptor is mapped as a whole.
  abbrev map_device : (size fd : ℕ) → Cmd ℕ
  map_device size fd = libc_mmap os (mmap 0 size (requested prot_read_write devdax_map_flags) fd 0)

  -- The files and the descriptors, up to the start of the fault thread.
  unfoldable pub open_devices : Cmd (Unit {0})
  unfolding set_dramfd set_nvmfd open_results
  open_devices = do
    set_internal_call true
    assert (not (is_negative a.dram))
    set_dramfd a.dram
    assert (not (is_negative a.nvm))
    set_nvmfd a.nvm
    assert a.userfaultfd
    assert a.stats_file
    open_results a
    done ← ioctl os uffd_api
    assert done
    assert (a.thread fault_thread)

  -- The two devices are mapped.
  unfoldable pub map_devices : Cmd (Unit {0})
  map_devices = do
    m ← λ m. ok m m
    dram ← map_device dramsize m.dev.dramfd
    λ m. ok tt (record m { dev = record m.dev { dram_devdax_mmap = dram } })
    nvm ← map_device nvmsize m.dev.nvmfd
    λ m. ok tt (record m { dev = record m.dev { nvm_devdax_mmap = nvm } })

  unfoldable pub hemem_init : (calloc : ListName → ℕ → Ptr) → Cmd (Unit {0})
  unfolding open_devices map_devices
  hemem_init calloc = do
    open_devices
    map_devices
    done ← ioctl os (uffd_dma_request_channs num_channs size_per_dma_request)
    if done then pure tt else failing exit
    pebs_init calloc
    assert (a.thread kswapd_thread)
    assert (a.thread stats_thread)
    λ m. ok tt (record m { is_init = true })
    set_internal_call false

  unfoldable pub init : (calloc : ListName → ℕ → Ptr) → Cmd (Unit {0})
  unfolding hemem_init
  init calloc = do
    assert (a.symbol mmap_symbol)
    assert (a.symbol munmap_symbol)
    assert (a.symbol malloc_symbol)
    assert (a.symbol free_symbol)
    hemem_init calloc

-- `pebs_shutdown`, the last call, does nothing.
unfoldable pub hemem_stop : Os → Cmd (Unit {0})
hemem_stop os = do
  done ← ioctl os (uffd_dma_release_channs num_channs size_per_dma_request)
  if done then pure tt else failing exit

unfoldable pub hemem_shutdown : Os → Cmd (Unit {0})
unfolding hemem_stop
hemem_shutdown os = hemem_stop os
