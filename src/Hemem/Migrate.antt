-- ===== src/Hemem/Migrate.antt =====
-- `hemem_migrate_up`, `_down`, `_dram` and `_nvm`, with USE_DMA, and `hemem_wp_page`. A batch is the
-- pages of the array `page[]`, each with its entry of `new_offset[]`.
use dma_migration_test.Base.{
  ℕ, ◌+◌, ◌%◌, Bool, true, false, not, List, [], ◌∷◌, ◌==◌, if◌then◌else◌, ltb, leb, inc64, u64_mod,
  last_or, map,
}
use dma_migration_test.Machine.{
  Ptr, null, HememPage, Copy, Os, Cmd, pure, ◌>>=◌, ◌>>◌, assert, load, modify, set_internal_call,
  pt_to_pagesize, page_size, uffd_dma_copy, uffd_writeprotect,
}
use dma_migration_test.Hemem.Calls.{
  size_of, base_of, fd_of, get_dev, ioctl, map_frame, register_range,
}
use dma_migration_test.Pebs.Route.{
  Route, dram_to_dram, dram_to_nvm, nvm_to_dram, nvm_to_nvm, from_dram, to_dram,
}

abbrev pub Batch : Type 0
Batch = List (Ptr × ℕ)

-- The first loop: the page is checked, and an entry of the DMA request is filled in.
unfoldable pub copy_entry : Route → (page : Ptr) (new_addr_offset : ℕ) → Cmd Copy
copy_entry r page new_addr_offset = do
  p ← load page
  assert (if from_dram r then p.in_dram else not p.in_dram)
  assert (not (page == null))
  pagesize ← pt_to_pagesize p.pt
  assert (ltb p.devdax_offset (size_of (from_dram r)))
  assert (leb ((p.devdax_offset + pagesize) % u64_mod) (size_of (from_dram r)))
  assert (ltb new_addr_offset (size_of (to_dram r)))
  assert (leb ((new_addr_offset + pagesize) % u64_mod) (size_of (to_dram r)))
  dev ← get_dev
  pure (record {
    src = (base_of dev (from_dram r) + p.devdax_offset) % u64_mod;
    dst = (base_of dev (to_dram r) + new_addr_offset) % u64_mod;
    len = pagesize;
  })

unfoldable pub copy_entries : Route → Batch → Cmd (List Copy)
copy_entries r [] = pure []
copy_entries r ((page, offset) ∷ batch) = do
  entry ← copy_entry r page offset
  entries ← copy_entries r batch
  pure (entry ∷ entries)

-- What is counted on the page: only moves between the tiers.
abbrev pub count_migration : Route → HememPage → HememPage
count_migration dram_to_dram p = p
count_migration dram_to_nvm p = record p { migrations_down = inc64 p.migrations_down }
count_migration nvm_to_dram p = record p { migrations_up = inc64 p.migrations_up }
count_migration nvm_to_nvm p = p

module _ (os : Os) where
  -- The second loop: the page's address is mapped to the new frame, and the descriptor follows.
  unfoldable pub remap_page :
      Route → (pagesize : ℕ) (page : Ptr) (new_addr_offset : ℕ) → Cmd (Unit {0})
  remap_page r pagesize page new_addr_offset = do
    p ← load page
    dev ← get_dev
    newptr ← map_frame os p.va pagesize (fd_of dev (to_dram r)) new_addr_offset
    assert (p.va % page_size == 0)
    register_range os newptr pagesize
    modify page (count_migration r)
    modify page (λ q. record q { in_dram = to_dram r; devdax_offset = new_addr_offset })

  -- `hemem_migrate_up` and `hemem_migrate_nvm` read each page's size again. The other two go on with
  -- the size that the first loop left behind, that of the last page.
  unfoldable pub remap_pages : Route → (last_pagesize : ℕ) → Batch → Cmd (Unit {0})
  remap_pages r last_pagesize [] = pure tt
  remap_pages r last_pagesize ((page, offset) ∷ batch) = do
    pagesize ← if from_dram r then pure last_pagesize else do p ← load page; pt_to_pagesize p.pt
    remap_page r pagesize page offset
    remap_pages r last_pagesize batch

  -- The timing and the `RESULT` line stand beside what is written here.
  unfoldable pub hemem_migrate : Route → Batch → Cmd (Unit {0})
  hemem_migrate r batch = do
    set_internal_call true
    entries ← copy_entries r batch
    copied ← ioctl os (uffd_dma_copy entries)
    assert copied
    remap_pages r (last_or 0 (map (λ c. c.len) entries)) batch
    set_internal_call false

  unfoldable pub hemem_migrate_nvm : Batch → Cmd (Unit {0})
  unfolding hemem_migrate
  hemem_migrate_nvm = hemem_migrate nvm_to_nvm

  unfoldable pub hemem_migrate_up : Batch → Cmd (Unit {0})
  unfolding hemem_migrate
  hemem_migrate_up = hemem_migrate nvm_to_dram

  unfoldable pub hemem_migrate_down : Batch → Cmd (Unit {0})
  unfolding hemem_migrate
  hemem_migrate_down = hemem_migrate dram_to_nvm

  unfoldable pub hemem_migrate_dram : Batch → Cmd (Unit {0})
  unfolding hemem_migrate
  hemem_migrate_dram = hemem_migrate dram_to_dram

  unfoldable pub wp_pages : (protect : Bool) → List Ptr → Cmd (Unit {0})
  wp_pages protect [] = pure tt
  wp_pages protect (page ∷ pages) = do
    p ← load page
    pagesize ← pt_to_pagesize p.pt
    assert (not (p.va == 0))
    assert (p.va % page_size == 0)
    done ← ioctl os (uffd_writeprotect p.va pagesize protect)
    assert done
    wp_pages protect pages

  unfoldable pub hemem_wp_page : (protect : Bool) → List Ptr → Cmd (Unit {0})
  unfolding wp_pages
  hemem_wp_page protect pages = do
    set_internal_call true
    wp_pages protect pages
    set_internal_call false
