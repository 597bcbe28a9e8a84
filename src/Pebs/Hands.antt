-- ===== src/Pebs/Hands.antt =====
-- The first loop of a round: the page and the free descriptor that it takes in hand.
use dma_migration_test.Base.{
  ◌≡◌, ◌<◌, ◌∙◌, refl, ap, Bool, true, false, List, [], ◌∷◌, ◌++◌, length, length-append, suc,
  u64_mod, arith,
}
use dma_migration_test.Machine.{Ptr, Machine, at_list}
use dma_migration_test.Machine.Rules
use dma_migration_test.Machine.Update.{at_list-ne}
use dma_migration_test.Machine.Yields
use dma_migration_test.Machine.Yields.{Yields, yields}
use dma_migration_test.Fifo.Repr.{Queues}
use dma_migration_test.Pebs.Invariant.{
  Inv, tier, in_use, total, total-at_list, SameContent, SameContent-trans, IsPlaced-content,
}
use dma_migration_test.Pebs.Shift.{InHand, dequeue-InHand}
use dma_migration_test.Pebs.Migration.{fill_slots}
use dma_migration_test.Pebs.Route.{
  Route, dram_to_dram, dram_to_nvm, nvm_to_dram, nvm_to_nvm, from_dram, to_dram, mapped_of, free_of,
  queue_of,
}
use dma_migration_test.Pebs.Settled.{taken_out}

pub used_queue : (r : Route) → in_use (queue_of r) ≡ true
used_queue dram_to_dram = refl
used_queue dram_to_nvm = refl
used_queue nvm_to_dram = refl
used_queue nvm_to_nvm = refl

pub tier_queue : (r : Route) → tier (queue_of r) ≡ from_dram r
tier_queue dram_to_dram = refl
tier_queue dram_to_nvm = refl
tier_queue nvm_to_dram = refl
tier_queue nvm_to_nvm = refl

pub used_free : (b : Bool) → in_use (free_of b) ≡ false
used_free true = refl
used_free false = refl

pub used_mapped : (b : Bool) → in_use (mapped_of b) ≡ true
used_mapped true = refl
used_mapped false = refl

pub tier_free : (b : Bool) → tier (free_of b) ≡ b
tier_free true = refl
tier_free false = refl

pub tier_mapped : (b : Bool) → tier (mapped_of b) ≡ b
tier_mapped true = refl
tier_mapped false = refl

pub free-queue : (b : Bool) (r : Route) → ¬ (free_of b ≡ queue_of r)
free-queue b r e = ground (arith, used_free b, used_queue r, ap in_use e)

-- A page and a free descriptor are off all lists, and nothing else changed.
pub record Hands (r : Route) (p q : Ptr) (rest : Queues) (m m' : Machine) : Type 0 where
  pub page : InHand p rest m'
  pub free : InHand q rest m'
  pub room : suc (suc (total rest)) < u64_mod
  pub apart : ¬ (p ≡ q)
  pub used : (m'.page p).present ≡ true
  pub content : SameContent m m'
  pub same_num : m'.num ≡ m.num
  pub same_dev : m'.dev ≡ m.dev
  pub same_trace : m'.trace ≡ m.trace

module _ (r : Route) (p q : Ptr) (xs ys : List Ptr) {m : Machine} {qs : Queues}
    (inv : Inv m qs) where
  two_out :
      qs (queue_of r) ≡ xs ++ p ∷ []
      → qs (free_of (to_dram r)) ≡ ys ++ q ∷ []
      → suc (suc (total (taken_out r xs ys qs))) < u64_mod
  two_out e d =
      let first = total-at_list (queue_of r) qs xs in
      let second = total-at_list (free_of (to_dram r)) (at_list qs (queue_of r) xs) ys in
      let same =
        ap length
          (at_list-ne qs (queue_of r) (free_of (to_dram r)) xs (free-queue (to_dram r) r)) in
      let long = ap length e ∙ length-append xs (p ∷ []) in
      let wide = ap length d ∙ length-append ys (q ∷ []) in omega (arith, inv.few)

  pub fill_slots-Hands :
      qs (queue_of r) ≡ xs ++ p ∷ []
      → qs (free_of (to_dram r)) ≡ ys ++ q ∷ []
      → Yields
          (λ slots m'.
            (slots ≡ record { page = p; next_page = q; offset = (m.page q).devdax_offset } ∷ [])
            × Hands r p q (taken_out r xs ys qs) m m')
          (fill_slots r 1 m)
  unfolding fill_slots
  fill_slots-Hands e d =
      Yields.bind (dequeue-InHand inv (queue_of r) xs p e)
        λ a m₁ (is_p, hand, placed, content, nums, step).
          Yields.bind
            (dequeue-InHand hand.inv (free_of (to_dram r)) ys q
              (at_list-ne qs (queue_of r) (free_of (to_dram r)) xs (free-queue (to_dram r) r) ∙ d))
            λ b m₂ (is_q, hand₂, placed₂, content₂, nums₂, step₂).
              let used = (IsPlaced-content content₂ (queue_of r) p placed).1 ∙ used_queue r in
              let apart : ¬ (p ≡ q) =
                λ same. ground (arith, used, placed₂.1, used_free (to_dram r), same) in
              let kept = step₂.same_page p (λ on. ground (arith, on, hand.off.list)) apart in
              let both = SameContent-trans content content₂ in
              rw (is_p, is_q)
                (Rules.load-then q m₂ _ hand₂.valid (
                  yields (
                    ap (λ v. record { page = p; next_page = q; offset = v.devdax_offset } ∷ [])
                        (both.content q),
                    record {
                      page = record {
                        inv = hand₂.inv;
                        room = hand₂.room;
                        valid = hand.valid;
                        off = rw kept hand.off;
                      };
                      free = hand₂;
                      room = two_out e d;
                      apart = apart;
                      used = used;
                      content = both;
                      same_num = nums₂ ∙ nums;
                      same_dev = step₂.same_dev ∙ step.same_dev;
                      same_trace = step₂.same_trace ∙ step.same_trace;
                    },
                  )))
