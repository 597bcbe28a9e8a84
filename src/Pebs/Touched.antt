-- ===== src/Pebs/Touched.antt =====
-- The steps of a migration for one page: what each writes and which calls it makes.
use dma_migration_test.Base.{
  ℕ, ◌+◌, ◌%◌, ◌≡◌, ◌≤◌, refl, Bool, true, false, List, [], ◌∷◌, arith, if◌then◌else◌, u64_mod,
}
use dma_migration_test.Machine.{
  Ptr, null, HememPage, hugep, Machine, Os, Event, mmap, populate_fixed, uffd_register,
  uffd_writeprotect, uffd_dma_copy, load, pt_to_pagesize, page_size, Devices, ◌>>=◌, pure,
}
use dma_migration_test.Machine.Rules
use dma_migration_test.Machine.Update.{load-ok, modify-ok, at_page-twice}
use dma_migration_test.Machine.Yields
use dma_migration_test.Machine.Yields.{Yields, yields}
use dma_migration_test.Hemem.Calls.{size_of, base_of, fd_of}
use dma_migration_test.Hemem.Granted.{Grants, map_frame-ok, register_range-ok, granted}
use dma_migration_test.Hemem.Migrate.{
  copy_entry, count_migration, remap_page, remap_pages, wp_pages,
}
use dma_migration_test.Pebs.Migration.{set_migrating}
use dma_migration_test.Pebs.Route.{Route, from_dram, to_dram}

-- A page that the code's assertions accept, for a move to the frame at `offset`.
pub record IsReady (r : Route) (p : HememPage) (offset : ℕ) : Type 0 where
  pub huge : p.pt ≡ hugep
  pub mapped : ¬ (p.va ≡ 0)
  pub aligned : p.va % page_size ≡ 0
  pub tier : p.in_dram ≡ from_dram r
  pub old_fits : p.devdax_offset + page_size ≤ size_of (from_dram r)
  pub new_fits : offset + page_size ≤ size_of (to_dram r)

abbrev pub as_migrating : HememPage → HememPage
as_migrating v = record v { migrating = true }

abbrev pub as_settled : HememPage → HememPage
as_settled v = record v { migrating = false }

abbrev pub as_moved : Route → ℕ → HememPage → HememPage
as_moved r offset v = record (count_migration r v) { in_dram = to_dram r; devdax_offset = offset }

-- The calls behind the write protection.
abbrev pub copy_calls : Route → Devices → HememPage → ℕ → List Event → List Event
copy_calls r dev p offset t =
    uffd_register p.va page_size
    ∷ mmap p.va page_size populate_fixed (fd_of dev (to_dram r)) offset
    ∷ uffd_dma_copy (
        record {
          src = (base_of dev (from_dram r) + p.devdax_offset) % u64_mod;
          dst = (base_of dev (to_dram r) + offset) % u64_mod;
          len = page_size;
        }
        ∷ [])
    ∷ t

-- A command that wrote `v` to page `p` and made the calls that `t` adds.
pub record Touched (p : Ptr) (v : HememPage) (t : List Event) (m m' : Machine) : Type 0 where
  pub page_self : m'.page p ≡ v
  pub page_other : (a : Ptr) → ¬ (a ≡ p) → m'.page a ≡ m.page a
  pub same_fifo : m'.fifo ≡ m.fifo
  pub same_pages : m'.pages ≡ m.pages
  pub same_num : m'.num ≡ m.num
  pub same_dev : m'.dev ≡ m.dev
  pub calls : m'.trace ≡ t

module _ (os : Os) (g : Grants os) (p : Ptr) (valid : ¬ (p ≡ null)) (m : Machine) where
  pub set_migrating-Touched :
      (b : Bool)
      → Yields
          (λ _ m'.
            Touched p (record (m.page p) { migrating = b }) m.trace m m'
            × (m'.internal_call ≡ m.internal_call))
          (set_migrating b (p ∷ []) m)
  unfolding set_migrating
  set_migrating-Touched b = rw (modify-ok m valid) (
      yields (
        record {
          page_self = ground arith;
          page_other = λ a ne. ground arith;
          same_fifo = refl;
          same_pages = refl;
          same_num = refl;
          same_dev = refl;
          calls = refl;
        },
        refl,
      ))

  pub wp_pages-Touched :
      (m.page p).pt ≡ hugep
      → ¬ ((m.page p).va ≡ 0)
      → (m.page p).va % page_size ≡ 0
      → Yields
          (λ _. Touched p (m.page p) (uffd_writeprotect (m.page p).va page_size true ∷ m.trace) m)
          (wp_pages os true (p ∷ []) m)
  unfolding wp_pages
  wp_pages-Touched huge mapped aligned = Rules.load-then p _ _ valid (
      Rules.pagesize-then _ _ _ huge (
        Rules.assert-then _ _ _ (ground arith) (
          Rules.assert-then _ _ _ (ground arith) (
            granted g _ _ _ (
              yields (record {
                page_self = refl;
                page_other = λ a ne. refl;
                same_fifo = refl;
                same_pages = refl;
                same_num = refl;
                same_dev = refl;
                calls = refl;
              }))))))

  pub copy_entry-run :
      (r : Route) (offset : ℕ)
      → IsReady r (m.page p) offset
      → Yields
          (λ e m'.
            (m' ≡ m)
            × (e ≡ record {
              src = (base_of m.dev (from_dram r) + (m.page p).devdax_offset) % u64_mod;
              dst = (base_of m.dev (to_dram r) + offset) % u64_mod;
              len = page_size;
            }))
          (copy_entry r p offset m)
  unfolding copy_entry
  copy_entry-run r offset h = Rules.load-then p _ _ valid (
      Rules.assert-then _ _ _ (ground (arith, h.tier)) (
        Rules.assert-then _ _ _ (ground arith) (
          Rules.pagesize-then _ _ _ h.huge (
            Rules.assert-then _ _ _ (ground (arith, h.old_fits)) (
              Rules.assert-then _ _ _ (ground (arith, h.old_fits)) (
                Rules.assert-then _ _ _ (ground (arith, h.new_fits))
                  (Rules.assert-then _ _ _ (ground (arith, h.new_fits)) (yields (refl, refl)))))))))

  remap_page-Touched :
      (r : Route) (offset : ℕ)
      → (m.page p).va % page_size ≡ 0
      → Yields
          (λ _.
            Touched p
              (as_moved r offset (m.page p))
              (uffd_register (m.page p).va page_size
                ∷ mmap (m.page p).va page_size populate_fixed (fd_of m.dev (to_dram r)) offset
                ∷ m.trace)
              m)
          (remap_page os r page_size p offset m)
  unfolding remap_page
  remap_page-Touched r offset aligned = Rules.load-then p _ _ valid (
      rw (map_frame-ok g m (m.page p).va page_size (fd_of m.dev (to_dram r)) offset aligned) (
        Rules.assert-then _ _ _ (ground arith) (
          rw (register_range-ok g _ (m.page p).va page_size) (
            Rules.modify-then p _ _ _ valid (
              rw (modify-ok _ valid) (
                yields (record {
                  page_self =
                      at_page-twice m.page p (count_migration r (m.page p))
                        (λ q. record q { in_dram = to_dram r; devdax_offset = offset });
                  page_other = λ a ne. ground arith;
                  same_fifo = refl;
                  same_pages = refl;
                  same_num = refl;
                  same_dev = refl;
                  calls = refl;
                })))))))

module _ (os : Os) (g : Grants os) (p : Ptr) (valid : ¬ (p ≡ null)) (m : Machine) where
  size_read :
      (b : Bool)
      → (m.page p).pt ≡ hugep
      → Yields
          (λ n m'. (n ≡ page_size) × (m' ≡ m))
          ((if b then pure page_size else (load p >>= λ q. pt_to_pagesize q.pt)) m)
  unfolding pt_to_pagesize
  size_read true huge = yields (refl, refl)
  size_read false huge = rw (load-ok m valid, huge) (yields (refl, refl))

  pub remap_pages-Touched :
      (r : Route) (offset : ℕ)
      → (m.page p).pt ≡ hugep
      → (m.page p).va % page_size ≡ 0
      → Yields
          (λ _.
            Touched p
              (as_moved r offset (m.page p))
              (uffd_register (m.page p).va page_size
                ∷ mmap (m.page p).va page_size populate_fixed (fd_of m.dev (to_dram r)) offset
                ∷ m.trace)
              m)
          (remap_pages os r page_size ((p, offset) ∷ []) m)
  unfolding remap_pages
  remap_pages-Touched r offset huge aligned =
      Yields.bind (size_read (from_dram r) huge) λ n m' (size, same).
        rw (size, same)
          (Yields.bind (remap_page-Touched os g p valid m r offset aligned) λ _ m₂ t. yields t)
