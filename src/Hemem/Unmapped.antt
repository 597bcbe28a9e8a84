-- ===== src/Hemem/Unmapped.antt =====
-- `hemem_munmap`: that it ends, and what it leaves as it is.
use dma_migration_test.Base.{
  ℕ, zero, suc, ◌+◌, ◌*◌, ◌%◌, ◌≡◌, ◌≤◌, ◌∙◌, inl, inr, refl, ap, true, false, arith, ◌==◌, ltb,
  Bool-cases, u64_mod,
}
use dma_migration_test.Machine.{
  Ptr, null, PageType, npagetypes, Machine, HashTable, Os, basepage_size, hugepage_size,
  pt_to_pagesize, modify_num, set_internal_call,
}
use dma_migration_test.Machine.Rules
use dma_migration_test.Machine.Yields
use dma_migration_test.Machine.Yields.{Yields, yields}
use dma_migration_test.Hemem.Calls.{libc_munmap}
use dma_migration_test.Hemem.Pages.{find_page, remove_page, table_step}
use dma_migration_test.Hemem.Faults.{unmap_page, unmap_pages, hemem_munmap}

-- Descriptors and lists are as they were.
pub record SameLists (m m' : Machine) : Type 0 where
  pub page : m'.page ≡ m.page
  pub fifo : m'.fifo ≡ m.fifo

sized :
    (t : PageType) (m : Machine)
    → ¬ (t ≡ npagetypes)
    → Yields (λ n m'. (basepage_size ≤ n) × (n ≤ hugepage_size) × (m' ≡ m)) (pt_to_pagesize t m)
unfolding pt_to_pagesize
sized PageType.hugep m h = yields (omega arith, omega arith, refl)
sized PageType.basep m h = yields (omega arith, omega arith, refl)
sized PageType.npagetypes m h = absurd (h refl)

past : (b e : ℕ) → e ≤ b → ltb b e ≡ false
past b e h = ground arith

module _ (os : Os) (table : HashTable) where
  unmap_page-SameLists :
      (b : ℕ) (m : Machine)
      → ((p : Ptr) → ¬ ((m.page p).pt ≡ npagetypes))
      → Yields
          (λ n m'. (basepage_size ≤ n) × (n ≤ hugepage_size) × SameLists m m')
          (unmap_page os table b m)
  unfolding unmap_page find_page remove_page table_step modify_num
  unmap_page-SameLists b m known = elim (Bool-cases (table.find m.pages b == null)) [
    | inl e ↦ rw e (yields (omega arith, omega arith, record { page = refl; fifo = refl }))
    | inr e ↦ rw e (
        Rules.load-then _ _ _ (ground arith) (
          Yields.weaken (sized (m.page (table.find m.pages b)).pt _ (known (table.find m.pages b)))
            λ n m' (low, high, same).
              (low, high, record { page = ap (λ k. k.page) same; fifo = ap (λ k. k.fifo) same })))
  ]

  unmap_pages-SameLists :
      (fuel b e : ℕ) (m : Machine)
      → ((p : Ptr) → ¬ ((m.page p).pt ≡ npagetypes))
      → e + hugepage_size ≤ u64_mod
      → e ≤ b + fuel * basepage_size
      → Yields (λ _. SameLists m) (unmap_pages os table (suc fuel) b e m)
  unfolding unmap_pages
  unmap_pages-SameLists zero b e m known small enough =
      rw (past b e (omega (arith, enough))) (yields (record { page = refl; fifo = refl }))
  unmap_pages-SameLists (suc fuel) b e m known small enough = elim (Bool-cases (ltb b e)) [
    | inl more ↦ rw more (
        Yields.bind (unmap_page-SameLists b m known) λ n m₁ (low, high, same).
          Yields.weaken
            (unmap_pages-SameLists fuel ((b + n) % u64_mod) e m₁ (rw same.page known) small
              (ground arith))
            λ _ m₂ t. record { page = t.page ∙ same.page; fifo = t.fifo ∙ same.fifo })
    | inr done ↦ rw done (yields (record { page = refl; fifo = refl }))
  ]

  -- With fuel for each 4 KB page of a range and one round more, `hemem_munmap` of a range that ends
  -- a huge page below 2^64 at least returns, whatever the kernel answers and whichever pages the
  -- table holds, if all descriptors have a size. It leaves every descriptor and every list as it
  -- was, so an unmapped page stays on its list, and is still present.
  pub hemem_munmap-SameLists :
      (fuel addr length : ℕ) (m : Machine)
      → ((p : Ptr) → ¬ ((m.page p).pt ≡ npagetypes))
      → addr + length + hugepage_size ≤ u64_mod
      → length ≤ fuel * basepage_size
      → Yields (λ _. SameLists m) (hemem_munmap os table (suc fuel) addr length m)
  unfolding hemem_munmap set_internal_call libc_munmap
  hemem_munmap-SameLists fuel addr length m known small enough =
      Yields.bind
        (unmap_pages-SameLists fuel addr ((addr + length) % u64_mod)
          (record m { internal_call = true }) known (omega arith) (omega arith))
        λ _ m' t. yields (record { page = t.page; fifo = t.fifo })
