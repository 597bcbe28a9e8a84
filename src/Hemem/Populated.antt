-- ===== src/Hemem/Populated.antt =====
-- One page of `hemem_mmap_populate`.
use dma_migration_test.Base.{
  ℕ, suc, ◌+◌, ◌%◌, ◌≡◌, ◌∙◌, ◌<◌, refl, ap, sym, Bool, true, false, List, [], ◌∷◌, ◌++◌, length,
  length-append, arith, eqb_ne, u64_mod, inc64, dec64,
}
use dma_migration_test.Machine.{
  Ptr, null, hugep, ListName, Machine, HashTable, Os, at_list, page_size, zero_fill, record_event,
  modify_num,
}
use dma_migration_test.Machine.Rules
use dma_migration_test.Machine.Update.{at_list-ne, at_list_self, at_list_comm}
use dma_migration_test.Machine.Yields
use dma_migration_test.Machine.Yields.{Yields, yields}
use dma_migration_test.Fifo.Repr.{Queues}
use dma_migration_test.Hemem.Calls.{base_of, fd_of}
use dma_migration_test.Hemem.Granted.{Grants, map_frame-ok, register_range-ok}
use dma_migration_test.Hemem.Pages.{FindsByKey}
use dma_migration_test.Hemem.Faults.{populate_page}
use dma_migration_test.Hemem.Entered.{
  Mapped, enter-then, entered, entered-Mapped, Allocated-side, serving_calls,
}
use dma_migration_test.Pebs.Allocate.{pebs_pagefault}
use dma_migration_test.Pebs.Allocated.{Allocated}
use dma_migration_test.Pebs.Invariant.{Inv, Counted, length-le-total}
use dma_migration_test.Pebs.Route.{free_of, mapped_of}
use dma_migration_test.Pebs.Settled.{put_in}
use dma_migration_test.Pebs.Shift.{valid_of_split, counted-at}

pub free-mapped : (b : Bool) → ¬ (mapped_of b ≡ free_of b)
free-mapped true e = cc
free-mapped false e = cc

-- The counters of the tier, as a round changes them.
abbrev pub populated_num : Bool → (ListName → ℕ) → ListName → ℕ
populated_num b f =
    let g = at_list f (mapped_of b) (inc64 (f (mapped_of b))) in
    at_list g (free_of b) (dec64 (g (free_of b)))

-- One free frame less and one mapped page more, in the lists and in their counters.
pub populated-Counted :
    (b : Bool) (f : ListName → ℕ) (qs : Queues) (p : Ptr) (xs : List Ptr)
    → ((j : ListName) → f j ≡ length (qs j))
    → length (qs (free_of b)) ≡ suc (length xs)
    → suc (length xs) < u64_mod
    → suc (length (qs (mapped_of b))) < u64_mod
    → (j : ListName)
    → populated_num b f j ≡ length (put_in (mapped_of b) p (at_list qs (free_of b) xs) j)
populated-Counted b f qs p xs counted size few room j =
    let apart = free-mapped b in
    let count = f (free_of b) in
    let same : at_list f (mapped_of b) (inc64 (f (mapped_of b))) (free_of b) ≡ count =
      at_list-ne f (mapped_of b) (free_of b) _ (λ e. apart (sym e)) in
    let kept = at_list-ne qs (free_of b) (mapped_of b) xs apart in
    rw same (
      ap (λ h. h j)
        (at_list_comm f (mapped_of b) (free_of b) (inc64 (f (mapped_of b))) (dec64 count) apart)
      ∙ counted-at (at_list f (free_of b) (dec64 count)) (at_list qs (free_of b) xs) (mapped_of b)
          (p ∷ at_list qs (free_of b) xs (mapped_of b))
          (counted-at f qs (free_of b) xs counted (omega (arith, counted (free_of b))))
          (omega (arith, counted (mapped_of b), ap length kept)) j)

pub room_for :
    (b : Bool) (p : Ptr) (xs : List Ptr) (qs : Queues) {m : Machine}
    → Inv m (put_in (mapped_of b) p (at_list qs (free_of b) xs))
    → suc (length (qs (mapped_of b))) < u64_mod
room_for b p xs qs inv =
    let rest = at_list qs (free_of b) xs in
    omega (
      arith,
      inv.few,
      length-le-total (mapped_of b) (put_in (mapped_of b) p rest),
      ap length (at_list_self rest (mapped_of b) (p ∷ rest (mapped_of b))),
      ap length (at_list-ne qs (free_of b) (mapped_of b) xs (free-mapped b)),
    )

-- A round for the address `va`, with the counters kept.
pub record Populated (table : HashTable) (in_dram : Bool) (p : Ptr) (xs : List Ptr) (va : ℕ)
    (qs : Queues) (m m' : Machine) : Type 0 where
  pub mapped : Mapped table in_dram p xs va qs m m'
  pub counted : Counted m' (put_in (mapped_of in_dram) p (at_list qs (free_of in_dram) xs))

module _ (os : Os) (g : Grants os) (table : HashTable) (keys : FindsByKey table) (b : Bool)
    (p : Ptr) (xs : List Ptr) (va : ℕ) {m : Machine} {qs : Queues} where
  pub populate_page-Populated :
      Inv m qs
      → Counted m qs
      → qs (free_of b) ≡ xs ++ p ∷ []
      → ¬ (va ≡ 0)
      → va % page_size ≡ 0
      → table.find m.pages va ≡ null
      → (m.page p).pt ≡ hugep
      → Yields (λ a m'. (a ≡ p) × Allocated b p xs qs m m') (pebs_pagefault m)
      → Yields
          (λ n m'. (n ≡ page_size) × Populated table b p xs va qs m m')
          (populate_page os table va m)
  unfolding populate_page record_event modify_num
  populate_page-Populated inv counted split some_va aligned fresh huge h =
      let valid = valid_of_split inv (free_of b) xs p split in
      let size = ap length split ∙ length-append xs (p ∷ []) in
      Yields.bind h λ a m₁ (same, al).
        let v = m₁.page p in
        let zeroing =
          zero_fill ((base_of m₁.dev v.in_dram + v.devdax_offset) % u64_mod) page_size in
        let log = serving_calls va m₁.dev v.in_dram v.devdax_offset m₁.trace in
        rw same (
          Rules.assert-then _ _ _ (rw (eqb_ne p null valid) refl) (
            Rules.load-then p m₁ _ valid (
              Rules.pagesize-then _ _ _ (ap (λ w. w.pt) al.page ∙ huge) (
                rw
                  (map_frame-ok g (record m₁ { trace = zeroing ∷ m₁.trace }) va page_size
                    (fd_of m₁.dev v.in_dram) v.devdax_offset aligned)
                  (rw (register_range-ok g _ va page_size) (
                    enter-then table p va _ _ valid some_va aligned (rw al.same_pages fresh) (
                      let nums = populated_num v.in_dram m₁.num in
                      let end : Machine = entered p va (record m₁ { num = nums; trace = log }) in
                      yields (
                        refl,
                        record {
                          mapped = entered-Mapped al keys va {m' = end} refl refl refl refl refl;
                          counted =
                              rw (Allocated-side al, al.same_num)
                                (populated-Counted b m.num qs p xs counted (omega arith)
                                  (omega (arith, inv.few, length-le-total (free_of b) qs))
                                  (room_for b p xs qs al.inv));
                        },
                      ))))))))
