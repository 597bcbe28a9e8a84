-- ===== src/Threads/Faults.antt =====
-- Faults, population and unmapping, with any kernel and any table of pages.
use dma_migration_test.Base.{
  ℕ, ◌%◌, u64_mod, suc, ◌≡◌, ◌<◌, ◌∙◌, ◌⊎◌, inl, inr, refl, ap, Bool, true, false, not, List, [],
  ◌∷◌, ◌++◌, length, length-append, snoc_cases, arith, ◌==◌, Bool-cases,
}
use dma_migration_test.Machine.{
  Ptr, null, Machine, HashTable, Os, Cmd, abort, at_list, modify, modify_num, assert, page_size,
  ◌>>◌, pure,
}
use dma_migration_test.Machine.Allows
use dma_migration_test.Machine.Allows.{Allows}
use dma_migration_test.Machine.Yields.{Yields}
use dma_migration_test.Fifo.Repr.{Queues}
use dma_migration_test.Hemem.Entered.{Allocated-side, as_reset}
use dma_migration_test.Hemem.Pages.{add_page}
use dma_migration_test.Hemem.Faults.{handle_missing_fault, populate_page, unmap_page}
use dma_migration_test.Hemem.Populated.{populated-Counted, room_for, populated_num}
use dma_migration_test.Pebs.Allocate.{pebs_pagefault}
use dma_migration_test.Pebs.Allocated.{Allocated, pebs_pagefault-Allocated}
use dma_migration_test.Pebs.Invariant.{Inv, Inv-frame, total, total-at_list, length-le-total}
use dma_migration_test.Pebs.Reshape.{Inv-SameShape}
use dma_migration_test.Pebs.Route.{free_of, mapped_of}
use dma_migration_test.Pebs.Settled.{put_in}
use dma_migration_test.Threads.Calls.{
  map_frame-Quietly, register_range-Quietly, add_page-Quietly, find_page-Quietly,
  remove_page-Quietly,
}
use dma_migration_test.Threads.Quiet.{
  Quiet-refl, Quietly, bind-Quietly, load-Quietly, assert-Quietly, modify-Quietly,
  pt_to_pagesize-Quietly, record_event-Quietly, set_internal_call-Quietly, pure-Quietly,
}
use dma_migration_test.Threads.Sound.{Sound, Sound-Quiet, Keeps-Quietly, quiet_in}

total_allocated :
    (b : Bool) (qs : Queues) (xs : List Ptr) (p : Ptr)
    → qs (free_of b) ≡ xs ++ p ∷ []
    → total (put_in (mapped_of b) p (at_list qs (free_of b) xs)) ≡ total qs
total_allocated b qs xs p e =
    let one = at_list qs (free_of b) xs in
    omega (
      arith,
      total-at_list (free_of b) qs xs,
      total-at_list (mapped_of b) one (p ∷ one (mapped_of b)),
      ap length e,
      length-append xs (p ∷ []),
    )

size_split :
    (b : Bool) (qs : Queues) (xs : List Ptr) (p : Ptr)
    → qs (free_of b) ≡ xs ++ p ∷ []
    → length (qs (free_of b)) ≡ suc (length xs)
size_split b qs xs p e = omega (arith, ap length e, length-append xs (p ∷ []))

few_left :
    (b : Bool) (qs : Queues) (xs : List Ptr) (p : Ptr) {m : Machine}
    → qs (free_of b) ≡ xs ++ p ∷ []
    → Inv m qs
    → suc (length xs) < u64_mod
few_left b qs xs p e inv =
    omega (arith, size_split b qs xs p e, inv.few, length-le-total (free_of b) qs)

-- The writes to a descriptor that is mapped, and its entry in the table.
module _ (table : HashTable) (p : Ptr) (va : ℕ) {A : Type 0} (k : Cmd A) where
  enter-Quietly :
      Quietly k
      → Quietly (
          modify p (λ q. record q { va = va })
          >> (assert (not (va == 0))
              >> (assert (va % page_size == 0) >> (modify p as_reset >> (add_page table p >> k)))))
  enter-Quietly h =
      bind-Quietly _ _
        (modify-Quietly p _
          λ v. record { next = refl; prev = refl; list = refl; in_dram = refl; present = refl })
        λ _. bind-Quietly _ _ (assert-Quietly _) λ _. bind-Quietly _ _ (assert-Quietly _) λ _.
          bind-Quietly _ _
            (modify-Quietly p _
              λ v. record { next = refl; prev = refl; list = refl; in_dram = refl; present = refl })
            λ _. bind-Quietly _ _ (add_page-Quietly table p) λ _. h

-- What a page fault can do: take the last free frame of a tier, or stop.
abbrev Taking : {m : Machine} {qs : Queues} → Inv m qs → Type 0
Taking {m} {qs} inv =
    ((b : Bool) × (p : Ptr) × (xs : List Ptr) × (qs (free_of b) ≡ xs ++ p ∷ [])
      × Yields (λ a m'. (a ≡ p) × Allocated b p xs qs m m') (pebs_pagefault m))
    ⊎ (pebs_pagefault m ≡ abort)

pagefault_cases : {m : Machine} {qs : Queues} (inv : Inv m qs) → Taking inv
pagefault_cases {m} {qs} inv =
    let all = pebs_pagefault-Allocated inv in
    elim (snoc_cases (qs (free_of true))) [
      | inl d ↦ elim (snoc_cases (qs (free_of false))) [
        | inl n ↦ inr (all.2 d n)
        | inr (xs, p, e) ↦ inl (false, p, xs, e, all.1 xs p d e)
      ]
      | inr (xs, p, e) ↦ inl (true, p, xs, e, all.0 xs p e)
    ]

-- The lists after a page fault; the counters are not the lists' lengths any more.
module _ (all : ℕ) (exact : Bool) {m : Machine} (s : Sound exact all m) where
  fault_Sound :
      (b : Bool) (p : Ptr) (xs : List Ptr) {m₁ : Machine}
      → s.queues (free_of b) ≡ xs ++ p ∷ []
      → Allocated b p xs s.queues m m₁
      → Sound false all m₁
  fault_Sound b p xs e al = record {
    queues = put_in (mapped_of b) p (at_list s.queues (free_of b) xs);
    inv = al.inv;
    none_lost = total_allocated b s.queues xs p e ∙ s.none_lost;
    counted = λ on. cc;
  }

  loosened : (m' : Machine) → m'.page ≡ m.page → m'.fifo ≡ m.fifo → Sound false all m'
  loosened m' pages fifos = record {
    queues = s.queues;
    inv = Inv-frame pages fifos s.inv;
    none_lost = s.none_lost;
    counted = λ on. cc;
  }

module _ (os : Os) (table : HashTable) (va : ℕ) (all : ℕ) where
  module _ (exact : Bool) {m : Machine} (s : Sound exact all m) where
    pub populate_page-Sound : Allows (λ _. Sound exact all) (populate_page os table va m)
    unfolding populate_page modify_num
    populate_page-Sound =
        let Goal : ℕ → Machine → Type 0 = λ _. Sound exact all in
        elim (pagefault_cases s.inv) [
          | inr stops ↦ rw stops tt
          | inl (b, p, xs, e, h) ↦ Allows.after Goal _ h λ a m₁ (same, al). rw same (
              quiet_in Goal _ _ {m₀ = m₁} (assert-Quietly _) (Quiet-refl m₁) λ _ m₂ q₂.
                Allows.load-then Goal p m₂ _ λ _.
                  quiet_in Goal _ _ {m₀ = m₁} (pt_to_pagesize-Quietly _) q₂ λ size m₃ q₃.
                    quiet_in Goal _ _ {m₀ = m₁} (record_event-Quietly _) q₃ λ _ m₄ q₄.
                      quiet_in Goal _ _ {m₀ = m₁} (map_frame-Quietly os _ _ _ _) q₄ λ newptr m₅ q₅.
                        let side : (m₂.page p).in_dram ≡ b =
                          (q₂.shape p).in_dram ∙ Allocated-side al in
                        let num = populated_num (m₂.page p).in_dram m₅.num in
                        let end : Sound exact all (record m₅ { num = num }) = record {
                          queues = put_in (mapped_of b) p (at_list s.queues (free_of b) xs);
                          inv =
                              Inv-frame {m = m₅} refl refl
                                (Inv-SameShape q₅.shape q₅.same_fifo al.inv);
                          none_lost = total_allocated b s.queues xs p e ∙ s.none_lost;
                          counted = λ on.
                              rw (side, q₅.same_num, al.same_num)
                                (populated-Counted b m.num s.queues p xs (s.counted on)
                                  (size_split b s.queues xs p e) (few_left b s.queues xs p e s.inv)
                                  (room_for b p xs s.queues al.inv));
                        } in
                        Keeps-Quietly exact all _
                          (bind-Quietly _ _ (register_range-Quietly os _ _)
                            λ _. enter-Quietly table p newptr (pure size) (pure-Quietly size))
                          _ end)
        ]

  pub handle_missing_fault-Sound :
      (exact : Bool) {m : Machine}
      → Sound exact all m
      → Allows (λ _. Sound false all) (handle_missing_fault os table va m)
  unfolding handle_missing_fault
  handle_missing_fault-Sound exact {m} s =
      let Goal : Unit {0} → Machine → Type 0 = λ _. Sound false all in
      quiet_in Goal _ _ {m₀ = m} (set_internal_call-Quietly true) (Quiet-refl m) λ _ m₁ q₁.
        quiet_in Goal _ _ {m₀ = m} (assert-Quietly _) q₁ λ _ m₂ q₂.
          let s₂ = Sound-Quiet q₂ s in
          elim (pagefault_cases s₂.inv) [
            | inr stops ↦ rw stops tt
            | inl (b, p, xs, e, h) ↦ Allows.after Goal _ h λ a m₃ (same, al). rw same (
                Keeps-Quietly false all _
                  (bind-Quietly _ _ (assert-Quietly _) λ _. bind-Quietly _ _ (load-Quietly p) λ v.
                    bind-Quietly _ _ (pt_to_pagesize-Quietly v.pt) λ size m.
                      bind-Quietly _ _ (record_event-Quietly _)
                        (λ _. bind-Quietly _ _ (map_frame-Quietly os _ _ _ _) λ newptr.
                          bind-Quietly _ _ (assert-Quietly _) λ _.
                            bind-Quietly _ _ (register_range-Quietly os _ _)
                              λ _. enter-Quietly table p newptr _ (set_internal_call-Quietly false))
                        m)
                  _ (fault_Sound all exact s₂ b p xs e al))
          ]

  pub unmap_page-Sound :
      (exact : Bool) {m : Machine}
      → Sound exact all m
      → Allows (λ _. Sound false all) (unmap_page os table va m)
  unfolding unmap_page modify_num
  unmap_page-Sound exact {m} s =
      let Goal : ℕ → Machine → Type 0 = λ _. Sound false all in
      quiet_in Goal _ _ {m₀ = m} (find_page-Quietly table va) (Quiet-refl m) λ page m₁ q₁.
        elim (Bool-cases (page == null)) [
          | inl missing ↦ rw missing (loosened all exact (Sound-Quiet q₁ s) _ refl refl)
          | inr found ↦ rw found (
              quiet_in Goal _ _ {m₀ = m} (remove_page-Quietly table page) q₁ λ _ m₂ q₂.
                Allows.load-then Goal page m₂ _ λ _.
                  Keeps-Quietly false all _ (pt_to_pagesize-Quietly _) _
                    (loosened all exact (Sound-Quiet q₂ s) _ refl refl))
        ]
