-- ===== src/Hemem/Served.antt =====
-- What a missing fault does.
use dma_migration_test.Base.{
  ℕ, ◌+◌, ◌%◌, ◌≡◌, ◌∙◌, refl, ap, Bool, true, false, List, [], ◌∷◌, ◌++◌, eqb_ne, eqb_refl,
  u64_mod,
}
use dma_migration_test.Machine.{
  Ptr, null, hugep, abort, Machine, HashTable, Os, at_list, page_size, assert, assert, zero_fill,
  dram_free_list, nvm_free_list, record_event, set_internal_call,
}
use dma_migration_test.Machine.Rules
use dma_migration_test.Machine.Yields
use dma_migration_test.Machine.Yields.{Yields, yields}
use dma_migration_test.Fifo.Repr.{Queues, unlinked}
use dma_migration_test.Hemem.Calls.{base_of, fd_of}
use dma_migration_test.Hemem.Granted.{Grants, map_frame-ok, register_range-ok}
use dma_migration_test.Hemem.Pages.{FindsByKey}
use dma_migration_test.Hemem.Faults.{handle_missing_fault}
use dma_migration_test.Pebs.Allocate.{pebs_pagefault}
use dma_migration_test.Pebs.Allocated.{Allocated, pebs_pagefault-Allocated}
use dma_migration_test.Pebs.Invariant.{Inv, Inv-frame}
use dma_migration_test.Pebs.Route.{free_of, mapped_of}
use dma_migration_test.Pebs.Settled.{put_in}
use dma_migration_test.Pebs.Shift.{valid_of_split}
use dma_migration_test.Hemem.Entered.{
  enter-then, entered, entered-Mapped, served_page, serving_calls,
}

-- The fault at `va` was served by the frame of `p`, from the tier `in_dram`.
pub record Served (table : HashTable) (in_dram : Bool) (p : Ptr) (xs : List Ptr) (va : ℕ)
    (qs : Queues) (m m' : Machine) : Type 0 where
  pub inv : Inv m' (put_in (mapped_of in_dram) p (at_list qs (free_of in_dram) xs))
  pub page : unlinked (m'.page p) ≡ unlinked (served_page va (m.page p))
  pub others : (a : Ptr) → ¬ (a ≡ p) → unlinked (m'.page a) ≡ unlinked (m.page a)
  pub same_num : m'.num ≡ m.num
  pub found : table.find m'.pages va ≡ p
  pub found_other : (k : ℕ) → ¬ (k ≡ va) → table.find m'.pages k ≡ table.find m.pages k
  pub calls : m'.trace ≡ serving_calls va m.dev in_dram (m.page p).devdax_offset m.trace
  pub call_ends : m'.internal_call ≡ false

module _ (os : Os) (g : Grants os) (table : HashTable) (keys : FindsByKey table) (b : Bool)
    (p : Ptr) (xs : List Ptr) (va : ℕ) {m : Machine} {qs : Queues} where
  serve-Served :
      ¬ (p ≡ null)
      → ¬ (va ≡ 0)
      → va % page_size ≡ 0
      → table.find m.pages va ≡ null
      → (m.page p).pt ≡ hugep
      → Yields
          (λ a m'. (a ≡ p) × Allocated b p xs qs (record m { internal_call = true }) m')
          (pebs_pagefault (record m { internal_call = true }))
      → Yields (λ _. Served table b p xs va qs m) (handle_missing_fault os table va m)
  unfolding handle_missing_fault set_internal_call record_event
  serve-Served valid some_va aligned fresh huge h =
      Rules.assert-then _ _ _ (rw (eqb_ne va 0 some_va) refl) (
        Yields.bind h λ a m₁ (same, al).
          let v = m₁.page p in
          let zeroing =
            zero_fill ((base_of m₁.dev v.in_dram + v.devdax_offset) % u64_mod) page_size in
          rw same (
            Rules.assert-then _ _ _ (rw (eqb_ne p null valid) refl) (
              Rules.load-then p m₁ _ valid (
                Rules.pagesize-then _ _ _ (ap (λ w. w.pt) al.page ∙ huge) (
                  rw
                    (map_frame-ok g (record m₁ { trace = zeroing ∷ m₁.trace }) va page_size
                      (fd_of m₁.dev v.in_dram) v.devdax_offset aligned)
                    (Rules.assert-then _ _ _ (eqb_refl va) (
                      rw (register_range-ok g _ va page_size) (
                        enter-then table p va _ _ valid some_va aligned (rw al.same_pages fresh) (
                          let c =
                            entered-Mapped al keys va
                              {m' = entered p va (record m₁ {
                                trace = serving_calls va m₁.dev v.in_dram v.devdax_offset m₁.trace;
                              })}
                              refl refl refl refl refl in
                          yields (record {
                            inv = Inv-frame refl refl c.inv;
                            page = c.page;
                            others = c.others;
                            same_num = al.same_num;
                            found = c.found;
                            found_other = c.found_other;
                            calls = c.calls;
                            call_ends = refl;
                          }))))))))))

module _ (os : Os) (g : Grants os) (table : HashTable) (keys : FindsByKey table) (va : ℕ)
    {m : Machine} {qs : Queues} where
  -- A missing fault at an aligned address that is neither 0 nor in the table, under a kernel that
  -- grants the requests: it takes the oldest free huge frame, of DRAM as long as one is free and else
  -- of NVM, clears it, maps it at the address, registers the range, in this order, and enters the
  -- page in the table, which finds it under the address and other pages as before. The lists keep the invariant, no other descriptor's content
  -- changes, and the counters stay as they are. With no frame free an assertion fails.
  pub handle_missing_fault-Served :
      Inv m qs
      → ¬ (va ≡ 0)
      → va % page_size ≡ 0
      → table.find m.pages va ≡ null
      → ((p : Ptr) → (m.page p).pt ≡ hugep)
      → ((xs : List Ptr) (p : Ptr)
          → qs dram_free_list ≡ xs ++ p ∷ []
          → Yields (λ _. Served table true p xs va qs m) (handle_missing_fault os table va m))
        × ((xs : List Ptr) (p : Ptr)
            → qs dram_free_list ≡ []
            → qs nvm_free_list ≡ xs ++ p ∷ []
            → Yields (λ _. Served table false p xs va qs m) (handle_missing_fault os table va m))
        × (qs dram_free_list ≡ []
            → qs nvm_free_list ≡ []
            → handle_missing_fault os table va m ≡ abort)
  unfolding handle_missing_fault set_internal_call assert
  handle_missing_fault-Served inv some_va aligned fresh huge =
      let inv₁ : Inv (record m { internal_call = true }) qs = Inv-frame refl refl inv in
      let (dram, nvm, none_left) = pebs_pagefault-Allocated inv₁ in
      (
        λ xs p e.
            serve-Served os g table keys true p xs va (valid_of_split inv dram_free_list xs p e)
              some_va aligned fresh (huge p) (dram xs p e),
        λ xs p d e.
            serve-Served os g table keys false p xs va (valid_of_split inv nvm_free_list xs p e)
              some_va aligned fresh (huge p) (nvm xs p d e),
        λ d n. rw (eqb_ne va 0 some_va, none_left d n) refl,
      )
