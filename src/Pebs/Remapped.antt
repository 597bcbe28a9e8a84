-- ===== src/Pebs/Remapped.antt =====
-- `pebs_migrate_dram`, `_nvm`, `_down` and `_up` on one page: what they write and what they ask of
-- the kernel, in which order.
use dma_migration_test.Base.{
  ℕ, ◌+◌, ◌%◌, ◌≡◌, ◌∙◌, refl, ap, sym, subst, true, false, List, [], ◌∷◌, u64_mod,
}
use dma_migration_test.Machine.{
  Ptr, null, HememPage, hugep, Machine, Os, Event, mmap, populate_fixed, uffd_register,
  uffd_writeprotect, uffd_dma_copy, set_internal_call, page_size, Devices,
}
use dma_migration_test.Machine.Yields
use dma_migration_test.Machine.Yields.{Yields, yields}
use dma_migration_test.Hemem.Calls.{base_of, fd_of}
use dma_migration_test.Hemem.Granted.{Grants, granted}
use dma_migration_test.Hemem.Migrate.{
  copy_entries, count_migration, hemem_migrate, hemem_wp_page, hemem_migrate_dram,
  hemem_migrate_nvm, hemem_migrate_down, hemem_migrate_up,
}
use dma_migration_test.Pebs.Migration.{
  migrate_with, migrate_of, pebs_migrate_dram, pebs_migrate_nvm, pebs_migrate_down, pebs_migrate_up,
}
use dma_migration_test.Pebs.Route.{
  Route, dram_to_dram, dram_to_nvm, nvm_to_dram, nvm_to_nvm, from_dram, to_dram,
}
use dma_migration_test.Pebs.Touched.{
  IsReady, Touched, as_migrating, as_settled, as_moved, copy_calls, set_migrating-Touched,
  wp_pages-Touched, copy_entry-run, remap_pages-Touched,
}

-- The calls for one page, the latest first.
abbrev pub calls_of : Route → Devices → HememPage → ℕ → List Event → List Event
calls_of r dev p offset t =
    uffd_register p.va page_size
    ∷ mmap p.va page_size populate_fixed (fd_of dev (to_dram r)) offset
    ∷ uffd_dma_copy (
        record {
          src = (base_of dev (from_dram r) + p.devdax_offset) % u64_mod;
          dst = (base_of dev (to_dram r) + offset) % u64_mod;
          len = page_size;
        }
        ∷ [])
    ∷ uffd_writeprotect p.va page_size true
    ∷ t

abbrev pub moved_page : Route → HememPage → ℕ → HememPage
moved_page r p offset = record (count_migration r p) {
  in_dram = to_dram r;
  devdax_offset = offset;
  migrating = false;
}

-- Page `p` has moved to the frame at `offset`.
pub record Remapped (r : Route) (p : Ptr) (offset : ℕ) (m m' : Machine) : Type 0 where
  pub page_self : m'.page p ≡ moved_page r (m.page p) offset
  pub page_other : (a : Ptr) → ¬ (a ≡ p) → m'.page a ≡ m.page a
  pub same_fifo : m'.fifo ≡ m.fifo
  pub same_pages : m'.pages ≡ m.pages
  pub same_num : m'.num ≡ m.num
  pub same_dev : m'.dev ≡ m.dev
  pub calls : m'.trace ≡ calls_of r m.dev (m.page p) offset m.trace
  pub call_ends : m'.internal_call ≡ false

pub migrate_of-migrate_with :
    (r : Route) (os : Os) → migrate_of r os ≡ migrate_with os (hemem_migrate os r)
unfolding pebs_migrate_dram pebs_migrate_nvm pebs_migrate_down pebs_migrate_up hemem_migrate_dram
    hemem_migrate_nvm hemem_migrate_down hemem_migrate_up
migrate_of-migrate_with dram_to_dram os = refl
migrate_of-migrate_with dram_to_nvm os = refl
migrate_of-migrate_with nvm_to_dram os = refl
migrate_of-migrate_with nvm_to_nvm os = refl

module _ (os : Os) (g : Grants os) (p : Ptr) (valid : ¬ (p ≡ null)) (m : Machine) where
  copy_entries-run :
      (r : Route) (offset : ℕ)
      → IsReady r (m.page p) offset
      → Yields
          (λ es m'.
            (m' ≡ m)
            × (es
                ≡ record {
                  src = (base_of m.dev (from_dram r) + (m.page p).devdax_offset) % u64_mod;
                  dst = (base_of m.dev (to_dram r) + offset) % u64_mod;
                  len = page_size;
                }
                  ∷ []))
          (copy_entries r ((p, offset) ∷ []) m)
  unfolding copy_entries
  copy_entries-run r offset ready =
      Yields.bind (copy_entry-run os g p valid m r offset ready)
        λ entry m₁ (same, e). yields (same, ap (λ c. c ∷ []) e)

module _ (os : Os) (g : Grants os) (p : Ptr) (valid : ¬ (p ≡ null)) (m : Machine) where
  pub hemem_migrate-Touched :
      (r : Route) (offset : ℕ)
      → IsReady r (m.page p) offset
      → Yields
          (λ _ m'.
            Touched p
              (as_moved r offset (m.page p))
              (copy_calls r m.dev (m.page p) offset m.trace)
              m
              m'
            × (m'.internal_call ≡ false))
          (hemem_migrate os r ((p, offset) ∷ []) m)
  unfolding hemem_migrate set_internal_call
  hemem_migrate-Touched r offset ready =
      Yields.bind (copy_entries-run os g p valid (record m { internal_call = true }) r offset ready)
        λ entries m₁ (same, e).
          rw (e, same)
            (granted g _ _ _ (
              Yields.bind (remap_pages-Touched os g p valid _ r offset ready.huge ready.aligned)
                λ _ m₂ t. yields (
                  record {
                    page_self = t.page_self;
                    page_other = t.page_other;
                    same_fifo = t.same_fifo;
                    same_pages = t.same_pages;
                    same_num = t.same_num;
                    same_dev = t.same_dev;
                    calls = t.calls;
                  },
                  refl,
                )))

  pub wp_page-Touched :
      (m.page p).pt ≡ hugep
      → ¬ ((m.page p).va ≡ 0)
      → (m.page p).va % page_size ≡ 0
      → Yields
          (λ _. Touched p (m.page p) (uffd_writeprotect (m.page p).va page_size true ∷ m.trace) m)
          (hemem_wp_page os true (p ∷ []) m)
  unfolding hemem_wp_page set_internal_call
  wp_page-Touched huge mapped aligned =
      Yields.bind
        (wp_pages-Touched os g p valid (record m { internal_call = true }) huge mapped aligned)
        λ _ m₁ t. yields (record {
          page_self = t.page_self;
          page_other = t.page_other;
          same_fifo = t.same_fifo;
          same_pages = t.same_pages;
          same_num = t.same_num;
          same_dev = t.same_dev;
          calls = t.calls;
        })

pub moved_page-migrating :
    (r : Route) (v : HememPage) (offset : ℕ)
    → as_settled (as_moved r offset (as_migrating v)) ≡ moved_page r v offset
moved_page-migrating dram_to_dram v offset = refl
moved_page-migrating dram_to_nvm v offset = refl
moved_page-migrating nvm_to_dram v offset = refl
moved_page-migrating nvm_to_nvm v offset = refl

pub IsReady-migrating :
    (r : Route) (v : HememPage) (offset : ℕ)
    → IsReady r v offset
    → IsReady r (as_migrating v) offset
IsReady-migrating r v offset h = record {
  huge = h.huge;
  mapped = h.mapped;
  aligned = h.aligned;
  tier = h.tier;
  old_fits = h.old_fits;
  new_fits = h.new_fits;
}

module _ (os : Os) (g : Grants os) (r : Route) (p : Ptr) (offset : ℕ) (m : Machine) where
  -- One page migrates when its descriptor and the target frame pass the assertions and the kernel
  -- grants the calls: it is write-protected, copied, mapped to the new frame and registered, in this
  -- order. The descriptor follows, and no other descriptor, list or counter changes.
  pub migrate-Remapped :
      ¬ (p ≡ null)
      → IsReady r (m.page p) offset
      → Yields (λ _. Remapped r p offset m) (migrate_of r os ((p, offset) ∷ []) m)
  unfolding migrate_with
  migrate-Remapped valid ready = rw (migrate_of-migrate_with r os) (
      Yields.bind (set_migrating-Touched os g p valid m true) λ _ m₁ (s₁, _).
        let ready₁ =
          subst (λ v. IsReady r v offset) (sym s₁.page_self)
            (IsReady-migrating r (m.page p) offset ready) in
        Yields.bind (wp_page-Touched os g p valid m₁ ready₁.huge ready₁.mapped ready₁.aligned)
          λ _ m₂ s₂.
            let e₂ : m₂.page p ≡ as_migrating (m.page p) = s₂.page_self ∙ s₁.page_self in
            let devs = s₂.same_dev ∙ s₁.same_dev in
            let log =
              s₂.calls ∙ (λ i. uffd_writeprotect (s₁.page_self i).va page_size true ∷ s₁.calls i) in
            Yields.bind
              (hemem_migrate-Touched os g p valid m₂ r offset
                (subst (λ v. IsReady r v offset) (sym s₂.page_self) ready₁))
              λ _ m₃ (s₃, ended).
                Yields.weaken (set_migrating-Touched os g p valid m₃ false) λ _ m₄ (s₄, call).
                  record {
                    page_self =
                        s₄.page_self
                        ∙ ap as_settled s₃.page_self
                        ∙ ap (λ v. as_settled (as_moved r offset v)) e₂
                        ∙ moved_page-migrating r (m.page p) offset;
                    page_other = λ a ne.
                        s₄.page_other a ne
                        ∙ s₃.page_other a ne
                        ∙ s₂.page_other a ne
                        ∙ s₁.page_other a ne;
                    same_fifo = s₄.same_fifo ∙ s₃.same_fifo ∙ s₂.same_fifo ∙ s₁.same_fifo;
                    same_pages = s₄.same_pages ∙ s₃.same_pages ∙ s₂.same_pages ∙ s₁.same_pages;
                    same_num = s₄.same_num ∙ s₃.same_num ∙ s₂.same_num ∙ s₁.same_num;
                    same_dev = s₄.same_dev ∙ s₃.same_dev ∙ s₂.same_dev ∙ s₁.same_dev;
                    calls =
                        s₄.calls ∙ s₃.calls ∙ (λ i. copy_calls r (devs i) (e₂ i) offset (log i));
                    call_ends = call ∙ ended;
                  })
