-- ===== src/Hemem/Faults.antt =====
-- `handle_missing_fault`, `hemem_mmap_populate` and `hemem_munmap` of hemem.c.
use dma_migration_test.Base.{
  ℕ, zero, suc, ◌+◌, ◌%◌, not, ◌==◌, if◌then◌else◌, ltb, inc64, dec64, u64_mod, true, false,
}
use dma_migration_test.Machine.{
  null, HashTable, Os, Cmd, out_of_fuel, pure, failing, ◌>>=◌, ◌>>◌, assert, load, modify,
  modify_num, record_event, set_internal_call, pt_to_pagesize, page_size, basepage_size, zero_fill,
}
use dma_migration_test.Hemem.Calls.{base_of, fd_of, get_dev, libc_munmap, map_frame, register_range}
use dma_migration_test.Hemem.Pages.{find_page, add_page, remove_page}
use dma_migration_test.Pebs.Allocate.{pebs_pagefault}
use dma_migration_test.Pebs.Route.{mapped_of, free_of}

module _ (os : Os) (table : HashTable) where
  unfoldable pub handle_missing_fault : (page_boundry : ℕ) → Cmd (Unit {0})
  handle_missing_fault page_boundry = do
    set_internal_call true
    assert (not (page_boundry == 0))
    page ← pebs_pagefault
    assert (not (page == null))
    p ← load page
    pagesize ← pt_to_pagesize p.pt
    dev ← get_dev
    record_event (zero_fill ((base_of dev p.in_dram + p.devdax_offset) % u64_mod) pagesize)
    newptr ← map_frame os page_boundry pagesize (fd_of dev p.in_dram) p.devdax_offset
    assert (newptr == page_boundry)
    register_range os newptr pagesize
    modify page (λ q. record q { va = newptr })
    assert (not (newptr == 0))
    assert (newptr % page_size == 0)
    modify page (λ q. record q { migrating = false; migrations_up = 0; migrations_down = 0 })
    add_page table page
    set_internal_call false

  -- One round of `hemem_mmap_populate`: the size of the page that it mapped.
  unfoldable pub populate_page : (page_boundry : ℕ) → Cmd ℕ
  populate_page page_boundry = do
    page ← pebs_pagefault
    assert (not (page == null))
    p ← load page
    pagesize ← pt_to_pagesize p.pt
    dev ← get_dev
    record_event (zero_fill ((base_of dev p.in_dram + p.devdax_offset) % u64_mod) pagesize)
    newptr ← map_frame os page_boundry pagesize (fd_of dev p.in_dram) p.devdax_offset
    modify_num (mapped_of p.in_dram) inc64
    modify_num (free_of p.in_dram) dec64
    register_range os newptr pagesize
    modify page (λ q. record q { va = newptr })
    assert (not (newptr == 0))
    assert (newptr % page_size == 0)
    modify page (λ q. record q { migrating = false; migrations_up = 0; migrations_down = 0 })
    add_page table page
    pure pagesize

  unfoldable pub populate_pages : (fuel page_boundry end : ℕ) → Cmd (Unit {0})
  populate_pages zero page_boundry end = failing out_of_fuel
  populate_pages (suc fuel) page_boundry end =
      if ltb page_boundry end
      then (do
        pagesize ← populate_page page_boundry
        populate_pages fuel ((page_boundry + pagesize) % u64_mod) end)
      else pure tt

  unfoldable pub hemem_mmap_populate : (fuel addr length : ℕ) → Cmd (Unit {0})
  hemem_mmap_populate fuel addr length = do
    assert (not (addr == 0))
    assert (not (length == 0))
    populate_pages fuel addr ((addr + length) % u64_mod)

  -- One round of `hemem_munmap`: the bytes to go on by.
  unfoldable pub unmap_page : (page_boundry : ℕ) → Cmd ℕ
  unmap_page page_boundry = do
    page ← find_page table page_boundry
    if page == null then pure basepage_size else do
      remove_page table page
      p ← load page
      modify_num (mapped_of p.in_dram) dec64
      modify_num (free_of p.in_dram) inc64
      pt_to_pagesize p.pt

  unfoldable pub unmap_pages : (fuel page_boundry end : ℕ) → Cmd (Unit {0})
  unmap_pages zero page_boundry end = failing out_of_fuel
  unmap_pages (suc fuel) page_boundry end =
      if ltb page_boundry end
      then (do
        size ← unmap_page page_boundry
        unmap_pages fuel ((page_boundry + size) % u64_mod) end)
      else pure tt

  unfoldable pub hemem_munmap : (fuel addr length : ℕ) → Cmd ℕ
  hemem_munmap fuel addr length = do
    set_internal_call true
    unmap_pages fuel addr ((addr + length) % u64_mod)
    ret ← libc_munmap os addr length
    set_internal_call false
    pure ret
