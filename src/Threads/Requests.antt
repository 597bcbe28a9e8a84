-- ===== src/Threads/Requests.antt =====
-- The loop bodies of the migration requests: they keep the lists and the counters.
use dma_migration_test.Base.{
  ℕ, suc, ◌≡◌, ◌<◌, ◌∙◌, inl, inr, refl, ap, sym, Bool, List, [], ◌∷◌, ◌++◌, length, length-append,
  snoc_cases, arith, u64_mod, eqb_ne,
}
use dma_migration_test.Machine.{Ptr, null, ListName, Machine, fault, at_list, load, modify_num}
use dma_migration_test.Machine.Allows
use dma_migration_test.Machine.Allows.{Allows}
use dma_migration_test.Machine.Update.{at_list-ne, at_list_self}
use dma_migration_test.Fifo.{enqueue_fifo}
use dma_migration_test.Fifo.Laws.{dequeue_fifo-empty}
use dma_migration_test.Fifo.Repr.{Queues}
use dma_migration_test.Pebs.Drawn.{counted_twice}
use dma_migration_test.Pebs.Invariant.{Inv-frame, total, total-at_list, length-le-total}
use dma_migration_test.Pebs.Request.{request_page, rotate}
use dma_migration_test.Pebs.Requested.{RequestLists, counted_moved, request_page-empty}
use dma_migration_test.Pebs.Shift.{hand_room, dequeue-InHand, enqueue-Inv}
use dma_migration_test.Threads.Sound.{Sound}

-- A page that goes from the end of one list to the front of another.
total_shifted :
    (n k : ListName) (qs : Queues) (xs : List Ptr) (p : Ptr)
    → qs n ≡ xs ++ p ∷ []
    → total (at_list (at_list qs n xs) k (p ∷ at_list qs n xs k)) ≡ total qs
total_shifted n k qs xs p e =
    let one = at_list qs n xs in
    omega (
      arith,
      total-at_list n qs xs,
      total-at_list k one (p ∷ one k),
      ap length e,
      length-append xs (p ∷ []),
    )

module _ (exact : Bool) (all : ℕ) {m : Machine} (s : Sound exact all m) where
  module _ {n k : ListName} {in_dram : Bool} (b : RequestLists n k in_dram) where
    request_one :
        (xs : List Ptr) (p : Ptr)
        → s.queues n ≡ xs ++ p ∷ []
        → Allows (λ _. Sound exact all) (request_page n k in_dram m)
    unfolding request_page modify_num
    request_one xs p e =
        let qs = s.queues in
        let size : length (qs n) ≡ suc (length xs) =
          omega (arith, ap length e, length-append xs (p ∷ [])) in
        let small : length (qs n) < u64_mod = omega (arith, s.inv.few, length-le-total n qs) in
        Allows.after (λ _. Sound exact all) _ (dequeue-InHand s.inv n xs p e)
          λ a m₁ (same, hand, placed, content, nums, _).
            let room : suc (length (qs k)) < u64_mod =
              rw (at_list-ne qs n k xs (λ e. b.apart (sym e))) at (hand_room hand k) in
            rw (same, eqb_ne p null hand.valid)
              (Allows.load-then (λ _. Sound exact all) p m₁ _
                λ _.
                  Allows.assert-then (λ _. Sound exact all) _ _ _
                    λ _.
                      Allows.assert-then (λ _. Sound exact all) _ _ _
                        λ _.
                          Allows.after (λ _. Sound exact all) _
                            (enqueue-Inv hand k (
                              placed.0 ∙ b.tier_source ∙ sym b.tier_target,
                              placed.1 ∙ b.used_source ∙ sym b.used_target,
                            ))
                            λ _ m₂ (inv₂, content₂, nums₂, step). record {
                              queues = at_list (at_list qs n xs) k (p ∷ at_list qs n xs k);
                              inv = Inv-frame refl refl inv₂;
                              none_lost = total_shifted n k qs xs p e ∙ s.none_lost;
                              counted = λ on.
                                  rw (nums₂, nums)
                                    (counted_moved m.num qs n k xs p b.apart (s.counted on) size
                                      small room);
                            })

    pub request_page-Sound : Allows (λ _. Sound exact all) (request_page n k in_dram m)
    request_page-Sound = elim (snoc_cases (s.queues n)) [
      | inl e ↦ rw (request_page-empty b s.inv e) s
      | inr (xs, p, e) ↦ request_one xs p e
    ]

enqueue_null : (n : ListName) (m : Machine) → enqueue_fifo n null m ≡ fault
unfolding enqueue_fifo load
enqueue_null n m = refl

module _ (exact : Bool) (all : ℕ) {m : Machine} (s : Sound exact all m) (n : ListName) where
  rotate_page :
      (xs : List Ptr) (p : Ptr)
      → s.queues n ≡ xs ++ p ∷ []
      → Allows (λ _. Sound exact all) (rotate n 1 m)
  unfolding rotate
  rotate_page xs p e =
      let qs = s.queues in
      Allows.after (λ _. Sound exact all) _ (dequeue-InHand s.inv n xs p e)
        λ a m₁ (same, hand, placed, content, nums, _). rw same (
          Allows.after (λ _. Sound exact all) _ (enqueue-Inv hand n placed)
            λ _ m₂ (inv₂, content₂, nums₂, step). record {
              queues = at_list (at_list qs n xs) n (p ∷ at_list qs n xs n);
              inv = inv₂;
              none_lost = total_shifted n n qs xs p e ∙ s.none_lost;
              counted = λ on.
                  rw (nums₂, nums)
                    (counted_twice m.num qs n xs (p ∷ at_list qs n xs n) (s.counted on) (
                      omega (
                        arith,
                        ap length (at_list_self qs n xs),
                        ap length e,
                        length-append xs (p ∷ []),
                      )));
            })

  pub rotate-Sound : Allows (λ _. Sound exact all) (rotate n 1 m)
  unfolding rotate
  rotate-Sound = elim (snoc_cases (s.queues n)) [
    | inl e ↦ rw (dequeue_fifo-empty s.inv.lists n e) (rw (enqueue_null n m) tt)
    | inr (xs, p, e) ↦ rotate_page xs p e
  ]
