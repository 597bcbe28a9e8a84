-- ===== src/Threads/Calls.antt =====
-- The quiet parts of hemem.c and pebs.c: the calls on the kernel, the table, and the steps of a migration
-- before the page changes its tier.
use dma_migration_test.Base.{ℕ, refl, not, ◌==◌, Bool, true, false, List, [], ◌∷◌}
use dma_migration_test.Machine.{
  Ptr, HememPage, TableOp, Os, HashTable, Event, ok, pure, ◌>>◌, assert,
}
use dma_migration_test.Hemem.Calls.{get_dev, ioctl, libc_mmap, map_frame, register_range}
use dma_migration_test.Hemem.Migrate.{
  Batch, copy_entry, copy_entries, count_migration, wp_pages, hemem_wp_page,
}
use dma_migration_test.Hemem.Pages.{find_page, add_page, remove_page, table_step}
use dma_migration_test.Pebs.Migration.{set_migrating}
use dma_migration_test.Pebs.Reshape.{SameShape}
use dma_migration_test.Pebs.Route.{Route, dram_to_dram, dram_to_nvm, nvm_to_dram, nvm_to_nvm}
use dma_migration_test.Threads.Quiet.{
  Quietly, SameShape-refl, bind-Quietly, pure-Quietly, Quiet-log, Quiet-refl, load-Quietly,
  assert-Quietly, modify-Quietly, pt_to_pagesize-Quietly, set_internal_call-Quietly,
}

module _ (os : Os) where
  pub ioctl-Quietly : (e : Event) → Quietly (ioctl os e)
  unfolding ioctl
  ioctl-Quietly e m = Quiet-log refl refl refl

  pub libc_mmap-Quietly : (e : Event) → Quietly (libc_mmap os e)
  unfolding libc_mmap
  libc_mmap-Quietly e =
      bind-Quietly {A = ℕ} (λ m. ok (os.mmap_result m.trace e) (record m { trace = e ∷ m.trace }))
        (λ newptr. assert (not (newptr == os.map_failed)) >> pure newptr)
        (λ m. Quiet-log refl refl refl)
        λ newptr. bind-Quietly _ _ (assert-Quietly _) λ _. pure-Quietly newptr

  pub map_frame-Quietly : (va pagesize fd offset : ℕ) → Quietly (map_frame os va pagesize fd offset)
  unfolding map_frame
  map_frame-Quietly va pagesize fd offset = libc_mmap-Quietly _

  pub register_range-Quietly : (start len : ℕ) → Quietly (register_range os start len)
  unfolding register_range
  register_range-Quietly start len = bind-Quietly _ _ (ioctl-Quietly _) λ done. assert-Quietly done

  wp_pages-Quietly : (protect : Bool) (pages : List Ptr) → Quietly (wp_pages os protect pages)
  unfolding wp_pages
  wp_pages-Quietly protect [] = pure-Quietly tt
  wp_pages-Quietly protect (page ∷ pages) = bind-Quietly _ _ (load-Quietly page) λ p.
      bind-Quietly _ _ (pt_to_pagesize-Quietly p.pt) λ pagesize.
        bind-Quietly _ _ (assert-Quietly _) λ _. bind-Quietly _ _ (assert-Quietly _) λ _.
          bind-Quietly _ _ (ioctl-Quietly _)
            λ done. bind-Quietly _ _ (assert-Quietly done) λ _. wp_pages-Quietly protect pages

  pub hemem_wp_page-Quietly :
      (protect : Bool) (pages : List Ptr) → Quietly (hemem_wp_page os protect pages)
  unfolding hemem_wp_page
  hemem_wp_page-Quietly protect pages =
      bind-Quietly _ _ (set_internal_call-Quietly true)
        λ _. bind-Quietly _ _ (wp_pages-Quietly protect pages) λ _. set_internal_call-Quietly false

pub get_dev-Quietly : Quietly get_dev
get_dev-Quietly m = Quiet-log refl refl refl

copy_entry-Quietly : (r : Route) (page : Ptr) (offset : ℕ) → Quietly (copy_entry r page offset)
unfolding copy_entry
copy_entry-Quietly r page offset = bind-Quietly _ _ (load-Quietly page) λ p.
    bind-Quietly _ _ (assert-Quietly _) λ _. bind-Quietly _ _ (assert-Quietly _) λ _.
      bind-Quietly _ _ (pt_to_pagesize-Quietly p.pt) λ pagesize.
        bind-Quietly _ _ (assert-Quietly _) λ _. bind-Quietly _ _ (assert-Quietly _) λ _.
          bind-Quietly _ _ (assert-Quietly _)
            λ _. bind-Quietly _ _ (assert-Quietly _) λ _. λ m. Quiet-refl m

pub copy_entries-Quietly : (r : Route) (batch : Batch) → Quietly (copy_entries r batch)
unfolding copy_entries
copy_entries-Quietly r [] = λ m. Quiet-refl m
copy_entries-Quietly r ((page, offset) ∷ batch) =
    bind-Quietly _ _ (copy_entry-Quietly r page offset) λ entry.
      bind-Quietly _ _ (copy_entries-Quietly r batch) λ entries. pure-Quietly (entry ∷ entries)

pub set_migrating-Quietly : (b : Bool) (pages : List Ptr) → Quietly (set_migrating b pages)
unfolding set_migrating
set_migrating-Quietly b [] = pure-Quietly tt
set_migrating-Quietly b (page ∷ pages) =
    bind-Quietly _ _
      (modify-Quietly page _
        λ v. record { next = refl; prev = refl; list = refl; in_dram = refl; present = refl })
      λ _. set_migrating-Quietly b pages

pub count_migration-SameShape : (r : Route) (v : HememPage) → SameShape v (count_migration r v)
count_migration-SameShape dram_to_dram v = SameShape-refl v
count_migration-SameShape dram_to_nvm v = record {
  next = refl;
  prev = refl;
  list = refl;
  in_dram = refl;
  present = refl;
}
count_migration-SameShape nvm_to_dram v = record {
  next = refl;
  prev = refl;
  list = refl;
  in_dram = refl;
  present = refl;
}
count_migration-SameShape nvm_to_nvm v = SameShape-refl v

table_step-Quietly : (op : TableOp) → Quietly (table_step op)
unfolding table_step
table_step-Quietly op m = Quiet-log refl refl refl

module _ (table : HashTable) where
  pub find_page-Quietly : (va : ℕ) → Quietly (find_page table va)
  unfolding find_page
  find_page-Quietly va m = Quiet-log refl refl refl

  pub add_page-Quietly : (page : Ptr) → Quietly (add_page table page)
  unfolding add_page
  add_page-Quietly page = bind-Quietly _ _ (load-Quietly page) λ q.
      bind-Quietly _ _ (find_page-Quietly q.va)
        λ p. bind-Quietly _ _ (assert-Quietly _) λ _. table_step-Quietly _

  pub remove_page-Quietly : (page : Ptr) → Quietly (remove_page table page)
  unfolding remove_page
  remove_page-Quietly page = table_step-Quietly _
