-- ===== src/Pebs/Shift.antt =====
-- One page moved from the end of one list to the front of another, with its content kept.
use dma_migration_test.Base.{
  ℕ, ◌≡◌, ◌<◌, ap, subst, List, [], ◌∷◌, ◌++◌, length, length-append, All, All-front, All-back,
  u64_mod, arith, suc, if_pos, if_neg,
}
use dma_migration_test.Machine.{Ptr, null, ListName, ListName-discrete, Machine, at_list}
use dma_migration_test.Machine.Yields
use dma_migration_test.Machine.Yields.{Yields}
use dma_migration_test.Fifo.{enqueue_fifo, dequeue_fifo}
use dma_migration_test.Fifo.Seg.{Seg-back, Seg-head}
use dma_migration_test.Fifo.Repr.{Queues, IsFifo, ListStep, Detached}
use dma_migration_test.Fifo.Laws.{enqueue_fifo-Enqueued, dequeue_fifo-Taken}
use dma_migration_test.Pebs.Invariant.{
  Inv, IsPlaced, total, SameContent, All-IsPlaced-content, at_list-All, total-at_list,
  length-le-total,
}

-- A page in hand: the lists hold `qs`, and `p` is on none of them.
pub record InHand (p : Ptr) (qs : Queues) (m : Machine) : Type 0 where
  pub inv : Inv m qs
  pub room : suc (total qs) < u64_mod
  pub valid : ¬ (p ≡ null)
  pub off : Detached (m.page p)

module _ {m : Machine} {qs : Queues} (inv : Inv m qs) where
  pub valid_of_split : (n : ListName) (xs : List Ptr) (p : Ptr) → qs n ≡ xs ++ p ∷ [] → ¬ (p ≡ null)
  valid_of_split n xs p e =
      (Seg-head (Seg-back xs (p ∷ []) (subst (IsFifo m n) e (inv.lists n)).chain)).ne_null

  -- What a page on list `n` is, before and after it is taken off.
  pub dequeue-InHand :
      (n : ListName) (xs : List Ptr) (p : Ptr)
      → qs n ≡ xs ++ p ∷ []
      → Yields
          (λ a m'.
            (a ≡ p)
            × InHand p (at_list qs n xs) m'
            × IsPlaced m' n p
            × SameContent m m'
            × (m'.num ≡ m.num)
            × ListStep n p m m')
          (dequeue_fifo n m)
  dequeue-InHand n xs p e = Yields.weaken (dequeue_fifo-Taken inv.lists n xs p e) λ a m' (same, t).
      let content : SameContent m m' = record { content = t.step.same_content } in
      let split = subst (All (IsPlaced m n)) e (inv.placed n) in
      let shorter = total-at_list n qs xs in
      let size = ap length e in
      let front = length-append xs (p ∷ []) in
      let before = inv.few in
      (
        same,
        record {
          inv = record {
            lists = t.queues;
            placed =
                at_list-All (λ k. All (IsPlaced m' k)) n xs qs
                  (λ k. All-IsPlaced-content content k (qs k) (inv.placed k))
                  (All-IsPlaced-content content n xs (All-front _ xs (p ∷ []) split));
            few = omega arith;
          };
          room = omega arith;
          valid = valid_of_split n xs p e;
          off = t.off;
        },
        (All-IsPlaced-content content n (p ∷ []) (All-back _ xs (p ∷ []) split)).0,
        content,
        t.step.same_num,
        t.step,
      )

module _ {p : Ptr} {m : Machine} {qs : Queues} (hand : InHand p qs m) where
  -- The page in hand is put on list `k`, where it belongs.
  pub enqueue-Inv :
      (k : ListName)
      → IsPlaced m k p
      → Yields
          (λ _ m'.
            Inv m' (at_list qs k (p ∷ qs k))
            × SameContent m m'
            × (m'.num ≡ m.num)
            × ListStep k p m m')
          (enqueue_fifo k p m)
  enqueue-Inv k fits =
      let below = length-le-total k qs in
      let room = hand.room in
      Yields.weaken
        (enqueue_fifo-Enqueued hand.inv.lists k p hand.valid hand.off.prev hand.off.list
          (omega arith))
        λ _ m' t.
          let content : SameContent m m' = record { content = t.step.same_content } in
          let longer = total-at_list k qs (p ∷ qs k) in
          (
            record {
              lists = t.queues;
              placed =
                  at_list-All (λ j. All (IsPlaced m' j)) k (p ∷ qs k) qs
                    (λ j. All-IsPlaced-content content j (qs j) (hand.inv.placed j))
                    (All-IsPlaced-content content k (p ∷ qs k) (fits, hand.inv.placed k));
              few = omega arith;
            },
            content,
            t.step.same_num,
            t.step,
          )

  pub hand_room : (k : ListName) → suc (length (qs k)) < u64_mod
  hand_room k = omega (arith, hand.room, length-le-total k qs)

-- Counters and lists changed together.
pub counted-at :
    (num : ListName → ℕ) (qs : Queues) (n : ListName) {v : ℕ} (xs : List Ptr)
    → ((j : ListName) → num j ≡ length (qs j))
    → v ≡ length xs
    → (j : ListName) → at_list num n v j ≡ length (at_list qs n xs j)
counted-at num qs n xs h e j = elim (ListName-discrete j n) [
  | yes hit ↦ rw (if_pos _ hit, if_pos _ hit) e
  | no miss ↦ rw (if_neg _ miss, if_neg _ miss) (h j)
]
