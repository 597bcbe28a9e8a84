-- ===== src/Hemem/Cleared.antt =====
-- `hemem_munmap` of a range whose huge pages are all in the table.
use dma_migration_test.Base.{
  ℕ, zero, suc, ◌+◌, ◌-◌, ◌*◌, ◌%◌, ◌≡◌, ◌<◌, ◌∙◌, inl, inr, refl, ap, sym, true, false, arith, ltb,
  eq_cases, eqb_ne, u64_mod,
}
use dma_migration_test.Machine.{
  null, hugep, Machine, HashTable, Os, page_size, modify_num, set_internal_call, pt_to_pagesize,
}
use dma_migration_test.Machine.Rules
use dma_migration_test.Machine.Yields
use dma_migration_test.Machine.Yields.{Yields, yields}
use dma_migration_test.Hemem.Calls.{libc_munmap}
use dma_migration_test.Hemem.Pages.{FindsByKey, find_page, remove_page, table_step}
use dma_migration_test.Hemem.Faults.{unmap_page, unmap_pages, hemem_munmap}
use dma_migration_test.Hemem.Mapping.{IsOutside}

-- Each of the `k` page addresses from `va` on has a huge page in the table, found there only.
pub record Holds (table : HashTable) (va k : ℕ) (m : Machine) : Type 0 where
  pub there : (j : ℕ) → j < k → ¬ (table.find m.pages (va + j * page_size) ≡ null)
  pub huge : (j : ℕ) → j < k → (m.page (table.find m.pages (va + j * page_size))).pt ≡ hugep
  pub alone :
      (j a : ℕ)
      → j < k
      → table.find m.pages a ≡ table.find m.pages (va + j * page_size)
      → a ≡ va + j * page_size

-- None of them is found any more, and the table is as before at other addresses.
pub record Clears (table : HashTable) (va k : ℕ) (m m' : Machine) : Type 0 where
  pub gone : (j : ℕ) → j < k → table.find m'.pages (va + j * page_size) ≡ null
  pub others : (a : ℕ) → IsOutside va k a → table.find m'.pages a ≡ table.find m.pages a
  pub page : m'.page ≡ m.page
  pub fifo : m'.fifo ≡ m.fifo

-- One page: the element at `va` was deleted.
record Removed (table : HashTable) (va : ℕ) (m m' : Machine) : Type 0 where
  here : table.find m'.pages va ≡ null
  elsewhere :
      (a : ℕ)
      → ¬ (table.find m.pages a ≡ table.find m.pages va)
      → table.find m'.pages a ≡ table.find m.pages a
  page : m'.page ≡ m.page
  fifo : m'.fifo ≡ m.fifo

module _ (os : Os) (table : HashTable) (keys : FindsByKey table) where
  unmap_page-Removed :
      (va : ℕ) (m : Machine)
      → ¬ (table.find m.pages va ≡ null)
      → (m.page (table.find m.pages va)).pt ≡ hugep
      → Yields (λ n m'. (n ≡ page_size) × Removed table va m m') (unmap_page os table va m)
  unfolding unmap_page find_page remove_page table_step modify_num pt_to_pagesize
  unmap_page-Removed va m some huge = rw (eqb_ne _ null some) (
      Rules.load-then _ _ _ some (
        rw huge (
          yields (
            refl,
            record {
              here = keys.deleted m.pages va;
              elsewhere = λ a ne. keys.deleted_other m.pages a _ ne;
              page = refl;
              fifo = refl;
            },
          ))))

  module _ (va k : ℕ) {m m₁ : Machine} (holds : Holds table va (suc k) m)
      (r : Removed table va m m₁) where
    first : va + 0 * page_size ≡ va
    first = omega arith

    next : (j : ℕ) → va + page_size + j * page_size ≡ va + suc j * page_size
    next j = omega arith

    kept : (a : ℕ) → ¬ (a ≡ va) → table.find m₁.pages a ≡ table.find m.pages a
    kept a ne =
        r.elsewhere a
          λ e. ne (holds.alone 0 a (omega arith) (e ∙ ap (table.find m.pages) (sym first)) ∙ first)

    kept_next :
        (j : ℕ)
        → table.find m₁.pages (va + page_size + j * page_size)
          ≡ table.find m.pages (va + suc j * page_size)
    kept_next j =
        kept (va + page_size + j * page_size) (λ e. omega arith) ∙ ap (table.find m.pages) (next j)

    Holds-rest : Holds table (va + page_size) k m₁
    Holds-rest = record {
      there = λ j low e. holds.there (suc j) (omega arith) (sym (kept_next j) ∙ e);
      huge = λ j low. rw (r.page, kept_next j) (holds.huge (suc j) (omega arith));
      alone = λ j a low e. elim (eq_cases a va) [
        | inl same ↦ absurd (
            holds.there (suc j) (omega arith)
              (sym (kept_next j) ∙ sym e ∙ ap (table.find m₁.pages) same ∙ r.here))
        | inr ne ↦
            holds.alone (suc j) a (omega arith) (sym (kept a ne) ∙ e ∙ kept_next j) ∙ sym (next j)
      ];
    }

    Clears-then :
        {m₂ : Machine} → Clears table (va + page_size) k m₁ m₂ → Clears table va (suc k) m m₂
    Clears-then {m₂} t = record {
      gone = λ j low. elim (eq_cases j 0) [
        | inl zeroth ↦
            ap (λ i. table.find m₂.pages (va + i * page_size)) zeroth
            ∙ ap (table.find m₂.pages) first
            ∙ t.others va (λ i _ e. omega arith)
            ∙ r.here
        | inr later ↦
            let at : va + j * page_size ≡ va + page_size + (j - 1) * page_size = omega arith in
            ap (table.find m₂.pages) at ∙ t.gone (j - 1) (omega arith)
      ];
      others = λ a out.
          t.others a (λ j low e. out (suc j) (omega arith) (e ∙ next j))
          ∙ kept a (λ e. out 0 (omega arith) (e ∙ sym first));
      page = t.page ∙ r.page;
      fifo = t.fifo ∙ r.fifo;
    }

  unmap_pages-Clears :
      (k fuel va : ℕ) (m : Machine)
      → k < fuel
      → va + k * page_size < u64_mod
      → Holds table va k m
      → Yields (λ _. Clears table va k m) (unmap_pages os table fuel va (va + k * page_size) m)
  unfolding unmap_pages
  unmap_pages-Clears k zero va m fueled below holds = absurd (omega arith)
  unmap_pages-Clears zero (suc fuel) va m fueled below holds =
      let done : ltb va (va + 0) ≡ false = ground arith in
      rw done (
        yields (record {
          gone = λ j low. absurd (omega arith);
          others = λ a out. refl;
          page = refl;
          fifo = refl;
        }))
  unmap_pages-Clears (suc k) (suc fuel) va m fueled below holds =
      let more : ltb va (va + suc k * page_size) ≡ true = ground arith in
      let at : va + 0 * page_size ≡ va = omega arith in
      rw more (
        Yields.bind
          (unmap_page-Removed va m
            (λ e. holds.there 0 (omega arith) (ap (table.find m.pages) at ∙ e))
            (ap (λ b. (m.page (table.find m.pages b)).pt) (sym at) ∙ holds.huge 0 (omega arith)))
          λ n m₁ (bytes, r).
            let step : (va + n) % u64_mod ≡ va + page_size = omega (arith, bytes) in
            let end : va + suc k * page_size ≡ va + page_size + k * page_size = omega arith in
            rw (step, end)
              (Yields.weaken
                (unmap_pages-Clears k fuel (va + page_size) m₁ (omega arith) (omega arith)
                  (Holds-rest va k holds r))
                λ _ m₂ t. Clears-then va k holds r t))

  -- With a table that finds by keys, and fuel for `k` rounds and one more: `hemem_munmap` of a range
  -- of `k` huge pages that are all in the table, each under one address, returns. None of the
  -- addresses is found any more, and all other addresses are found as before.
  pub hemem_munmap-Clears :
      (k fuel va : ℕ) (m : Machine)
      → k < fuel
      → va + k * page_size < u64_mod
      → Holds table va k m
      → Yields
          (λ _ m'. Clears table va k m m' × (m'.internal_call ≡ false))
          (hemem_munmap os table fuel va (k * page_size) m)
  unfolding hemem_munmap set_internal_call libc_munmap
  hemem_munmap-Clears k fuel va m fueled below holds =
      let end : (va + k * page_size) % u64_mod ≡ va + k * page_size = omega arith in
      rw end (
        Yields.bind
          (unmap_pages-Clears k fuel va (record m { internal_call = true }) fueled below
            (record { there = holds.there; huge = holds.huge; alone = holds.alone }))
          λ _ m' t.
            yields
              (record { gone = t.gone; others = t.others; page = t.page; fifo = t.fifo }, refl))
