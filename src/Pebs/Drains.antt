-- ===== src/Pebs/Drains.antt =====
-- Each `while` loop of `migration_request` ends with its queue empty.
use dma_migration_test.Base.{
  ℕ, ◌+◌, ◌≡◌, ◌≤◌, ◌<◌, ◌∙◌, ap, sym, subst, true, false, List, [], ◌∷◌, ◌++◌, length, All,
  All-front, All-back, All-map, All-map₂, arith, ℕ_discrete,
}
use dma_migration_test.Machine.{Ptr, Machine, Os, page_size}
use dma_migration_test.Machine.Yields
use dma_migration_test.Machine.Yields.{Yields, yields}
use dma_migration_test.Fifo.Repr.{Queues, unlinked}
use dma_migration_test.Fifo.Seg.{Distinct, Distinct-middle}
use dma_migration_test.Hemem.Calls.{size_of}
use dma_migration_test.Hemem.Granted.{Grants}
use dma_migration_test.Pebs.Hands.{used_queue, used_free, tier_queue}
use dma_migration_test.Pebs.Invariant.{Inv, Counted, IsPlaced}
use dma_migration_test.Pebs.Migration.{migrate_queue}
use dma_migration_test.Pebs.Touched.{IsReady}
use dma_migration_test.Pebs.Route.{Route, to_dram, free_of, queue_of}
use dma_migration_test.Pebs.Loop.{Kept, migrate_queue-Kept}
use dma_migration_test.Pebs.Rounds.{Moved}
use dma_migration_test.Pebs.Settled.{after_round}
use dma_migration_test.Pebs.Drained.{
  IsMovable, IsFrame, IsMovable-content, Drained, left_free, after-queue, after-free, left_free-All,
}

module _ (r : Route) {m : Machine} {qs : Queues} (inv : Inv m qs) where
  queue_used : All (λ a. (m.page a).present ≡ true) (qs (queue_of r))
  queue_used = All-map (qs (queue_of r)) (λ a h. h.1 ∙ used_queue r) (inv.placed (queue_of r))

  pub free_unused : All (λ a. (m.page a).present ≡ false) (qs (free_of (to_dram r)))
  free_unused =
      All-map (qs (free_of (to_dram r))) (λ a h. h.1 ∙ used_free (to_dram r))
        (inv.placed (free_of (to_dram r)))

  module _ (p q : Ptr) (zs ys : List Ptr) (e : qs (queue_of r) ≡ zs ++ p ∷ [])
      (d : qs (free_of (to_dram r)) ≡ ys ++ q ∷ []) where
    p_used : (m.page p).present ≡ true
    p_used = (All-back _ zs (p ∷ []) (subst (All _) e queue_used)).0

    pub q_unused : (m.page q).present ≡ false
    q_unused = (All-back _ ys (q ∷ []) (subst (All _) d free_unused)).0

    pub IsReady-last :
        All (λ a. IsMovable r (m.page a)) (qs (queue_of r))
        → All (λ a. IsFrame r (m.page a)) (qs (free_of (to_dram r)))
        → IsReady r (m.page p) (m.page q).devdax_offset
    IsReady-last movable frames =
        let page =
          (All-back (λ a. IsMovable r (m.page a)) zs (p ∷ []) (subst (All _) e movable)).0 in
        let frame = (All-back (λ a. IsFrame r (m.page a)) ys (q ∷ []) (subst (All _) d frames)).0 in
        let placed =
          (All-back (IsPlaced m (queue_of r)) zs (p ∷ [])
            (subst (All _) e (inv.placed (queue_of r)))).0 in
        record {
          huge = page.huge;
          mapped = page.mapped;
          aligned = page.aligned;
          tier = placed.0 ∙ tier_queue r;
          old_fits = page.fits;
          new_fits = frame;
        }

    module _ {m' : Machine} (h : Moved r p q (after_round r p q zs ys qs) m m') where
      -- The pages that wait on are as they were.
      pub waiting_same : All (λ a. unlinked (m'.page a) ≡ unlinked (m.page a)) zs
      waiting_same =
          let apart =
            (Distinct-middle zs [] p (subst Distinct e (inv.lists (queue_of r)).distinct)).1 in
          let used =
            All-front (λ a. (m.page a).present ≡ true) zs (p ∷ []) (subst (All _) e queue_used) in
          All-map₂ zs
            (λ a ne on.
              h.others a ne (λ f. ground (arith, q_unused, on, ap (λ b. (m.page b).present) f)))
            apart used

      pub IsMovable-after :
          All (λ a. IsMovable r (m.page a)) (qs (queue_of r))
          → All (λ a. IsMovable r (m'.page a)) zs
      IsMovable-after movable =
          All-map₂ zs (λ a same k. IsMovable-content r (sym same) k) waiting_same
            (All-front (λ a. IsMovable r (m.page a)) zs (p ∷ []) (subst (All _) e movable))

      -- Every free frame keeps its offset.
      pub offset_after :
          (a : Ptr)
          → (m.page a).present ≡ false
          → (m'.page a).devdax_offset ≡ (m.page a).devdax_offset
      offset_after a off = elim (ℕ_discrete a q) [
        | yes same ↦ rw same (ap (λ v. v.devdax_offset) h.free)
        | no ne ↦
            ap (λ v. v.devdax_offset)
              (h.others a (λ f. ground (arith, p_used, off, ap (λ b. (m.page b).present) f)) ne)
      ]

      pub frames_after :
          All (λ a. IsFrame r (m.page a)) (qs (free_of (to_dram r)))
          → All (λ a. IsFrame r (m'.page a)) (left_free r q ys)
      frames_after frames =
          let kept =
            All-map₂ (ys ++ q ∷ [])
              (λ a off fits.
                subst (λ o. o + page_size ≤ size_of (to_dram r)) (sym (offset_after a off)) fits)
              (subst (All _) d free_unused) (subst (All _) d frames) in
          left_free-All (λ a. IsFrame r (m'.page a)) r q ys (All-front _ ys (q ∷ []) kept)
            (All-back _ ys (q ∷ []) kept).0

-- The queue's pages and the free frames are such that the assertions accept them.
abbrev pub Movable : Route → Queues → Machine → Type 0
Movable r qs m =
    All (λ a. IsMovable r (m.page a)) (qs (queue_of r))
    × All (λ a. IsFrame r (m.page a)) (qs (free_of (to_dram r)))

pub Movable-Kept : (r : Route) → Kept r (Movable r)
Movable-Kept r = record {
  ready = λ m qs p q zs ys inv e d k. IsReady-last r inv p q zs ys e d k.0 k.1;
  step = λ m m' qs p q zs ys inv e d k h. (
    rw (after-queue p q zs ys qs r) (IsMovable-after r inv p q zs ys e d h k.0),
    rw (after-free p q zs ys qs r) (frames_after r inv p q zs ys e d h k.1),
  );
}

module _ (os : Os) (g : Grants os) (r : Route) where
  -- With fuel for each page of a queue and one round more, under a kernel that grants the requests,
  -- with pages that the assertions accept and as many free frames in the new tier, all within the
  -- device: the loop for the queue ends with the queue empty, its pages are mapped in the new tier
  -- in the order they had, invariant and counters are kept, and no list changes but the queue, the
  -- mapped list and the two free lists.
  pub migrate_queue-Drained :
      (fuel : ℕ) {m : Machine} {qs : Queues}
      → Inv m qs
      → Counted m qs
      → length (qs (queue_of r)) < fuel
      → length (qs (queue_of r)) ≤ length (qs (free_of (to_dram r)))
      → All (λ a. IsMovable r (m.page a)) (qs (queue_of r))
      → All (λ a. IsFrame r (m.page a)) (qs (free_of (to_dram r)))
      → Yields (λ _. Drained r qs m) (migrate_queue os r fuel m)
  migrate_queue-Drained fuel {m} {qs} inv counted fueled spare movable frames =
      Yields.weaken
        (migrate_queue-Kept os g r (Movable r) (Movable-Kept r) fuel inv counted fueled spare
          (movable, frames))
        λ _ m' t. t.0
