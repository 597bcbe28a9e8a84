-- ===== src/Pebs/Allocate.antt =====
-- `pebs_init`, `pebs_allocate_page` and `pebs_pagefault`.
use dma_migration_test.Base.{
  ℕ, zero, suc, ◌+◌, ◌*◌, ◌%◌, Bool, true, false, not, none, ◌==◌, if◌then◌else◌, inc64, u64_mod,
}
use dma_migration_test.Machine.{
  Ptr, null, HememPage, hugep, ListName, Cmd, abort, pure, failing, ◌>>=◌, ◌>>◌, assert, load,
  modify, modify_num, pagesize_to_pt, page_size, fastmem_pages, slowmem_pages, dram_free_list,
  nvm_free_list, dram_mmap_list, nvm_mmap_list,
}
use dma_migration_test.Fifo.{enqueue_fifo, dequeue_fifo}

-- A descriptor as `calloc` returns it.
abbrev pub zeroed : HememPage
zeroed = record {
  va = 0;
  devdax_offset = 0;
  in_dram = false;
  pt = hugep;
  migrating = false;
  present = false;
  written = false;
  migrations_up = 0;
  migrations_down = 0;
  next = null;
  prev = null;
  list = none;
}

-- One loop of `pebs_init`, from index `i` on: `calloc i` is the address of its i-th descriptor. A
-- NULL of `calloc` is written through, which is a fault.
unfoldable pub init_list :
    (calloc : ℕ → Ptr) (free : ListName) (in_dram : Bool) (i rounds : ℕ) → Cmd (Unit {0})
init_list calloc free in_dram i zero = pure tt
init_list calloc free in_dram i (suc rounds) = do
  pt ← pagesize_to_pt page_size
  modify (calloc i) (λ _. record zeroed {
    devdax_offset = (i * page_size) % u64_mod;
    present = false;
    in_dram = in_dram;
    pt = pt;
  })
  enqueue_fifo free (calloc i)
  modify_num free inc64
  init_list calloc free in_dram (i + 1) rounds

-- The mutexes are set up and the migration thread is started beside what is written here.
unfoldable pub pebs_init : (calloc : ListName → ℕ → Ptr) → Cmd (Unit {0})
pebs_init calloc = do
  init_list (calloc dram_free_list) dram_free_list true 0 fastmem_pages
  init_list (calloc nvm_free_list) nvm_free_list false 0 slowmem_pages

-- Takes a free frame of one tier into use.
unfoldable pub use_page : (mapped : ListName) (in_dram : Bool) (page : Ptr) → Cmd Ptr
use_page mapped in_dram page = do
  p ← load page
  assert (if in_dram then p.in_dram else not p.in_dram)
  assert (not p.present)
  modify page (λ r. record r { present = true })
  enqueue_fifo mapped page
  pure page

-- DRAM first, then NVM; with neither left an `assert` fails.
unfoldable pub pebs_allocate_page : Cmd Ptr
pebs_allocate_page = do
  page ← dequeue_fifo dram_free_list
  if not (page == null) then use_page dram_mmap_list true page else do
    page ← dequeue_fifo nvm_free_list
    if not (page == null) then use_page nvm_mmap_list false page else failing abort

unfoldable pub pebs_pagefault : Cmd Ptr
pebs_pagefault = do page ← pebs_allocate_page; assert (not (page == null)); pure page
