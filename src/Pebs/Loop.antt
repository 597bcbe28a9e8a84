-- ===== src/Pebs/Loop.antt =====
-- The `while` loop of one queue of `migration_request`, for any claim that its rounds keep.
use mathlib.Core.List.{append_assoc}
use dma_migration_test.Base.{
  ℕ, zero, suc, ◌≡◌, ◌≤◌, ◌<◌, ◌∙◌, refl, ap, ap₂, sym, List, [], ◌∷◌, ◌++◌, length, length-append,
  arith, inl, inr, snoc_cases, eqb_ne,
}
use dma_migration_test.Machine.{Ptr, Machine, Os}
use dma_migration_test.Machine.Yields
use dma_migration_test.Machine.Yields.{Yields, yields}
use dma_migration_test.Fifo.Repr.{Queues}
use dma_migration_test.Hemem.Granted.{Grants}
use dma_migration_test.Pebs.Invariant.{Inv, Counted}
use dma_migration_test.Pebs.Migration.{migrate_queue}
use dma_migration_test.Pebs.Touched.{IsReady}
use dma_migration_test.Pebs.Route.{Route, to_dram, mapped_of, free_of, queue_of}
use dma_migration_test.Pebs.Rounds.{Moved, migrate_round-Moved}
use dma_migration_test.Pebs.Settled.{after_round}
use dma_migration_test.Pebs.Drained.{
  Drained, after-queue, after-mapped, after-free, after-others, left_free-long, one_batch,
}

-- A claim on the state that lets the next page move, and that its move keeps.
pub record Kept (r : Route) (K : Queues → Machine → Type 0) : Type 1 where
  pub ready :
      (m : Machine) (qs : Queues) (p q : Ptr) (zs ys : List Ptr)
      → Inv m qs
      → qs (queue_of r) ≡ zs ++ p ∷ []
      → qs (free_of (to_dram r)) ≡ ys ++ q ∷ []
      → K qs m
      → IsReady r (m.page p) (m.page q).devdax_offset
  pub step :
      (m m' : Machine) (qs : Queues) (p q : Ptr) (zs ys : List Ptr)
      → Inv m qs
      → qs (queue_of r) ≡ zs ++ p ∷ []
      → qs (free_of (to_dram r)) ≡ ys ++ q ∷ []
      → K qs m
      → Moved r p q (after_round r p q zs ys qs) m m'
      → K (after_round r p q zs ys qs) m'

module _ (os : Os) (g : Grants os) (r : Route) (K : Queues → Machine → Type 0)
    (kept : Kept r K) where
  pub migrate_queue-Kept :
      (fuel : ℕ) {m : Machine} {qs : Queues}
      → Inv m qs
      → Counted m qs
      → length (qs (queue_of r)) < fuel
      → length (qs (queue_of r)) ≤ length (qs (free_of (to_dram r)))
      → K qs m
      → Yields (λ _ m'. (t : Drained r qs m m') × K t.queues m') (migrate_queue os r fuel m)
  unfolding migrate_queue
  migrate_queue-Kept zero inv counted fueled spare k = absurd (omega arith)
  migrate_queue-Kept (suc fuel) {m} {qs} inv counted fueled spare k =
      elim (snoc_cases (qs (queue_of r))) [
        | inl none_left ↦
            rw (counted (queue_of r), none_left)
              (yields (
                record {
                  queues = qs;
                  inv = inv;
                  counted = counted;
                  empty = none_left;
                  mapped = ap (λ l. l ++ qs (mapped_of (to_dram r))) (sym none_left);
                  others = λ j _ _ _ _. refl;
                },
                k,
              ))
        | inr (zs, p, e) ↦ elim (snoc_cases (qs (free_of (to_dram r)))) [
          | inl nil ↦ absurd (omega (arith, ap length nil, ap length e, length-append zs (p ∷ [])))
          | inr (ys, q, d) ↦
              let long = ap length e ∙ length-append zs (p ∷ []) in
              let wide = ap length d ∙ length-append ys (q ∷ []) in
              let some : ¬ (m.num (queue_of r) ≡ 0) =
                λ f. omega (arith, counted (queue_of r), long) in
              rw (eqb_ne _ 0 some, one_batch _ some)
                (Yields.bind
                  (migrate_round-Moved os g r p q zs ys inv counted e d
                    (kept.ready m qs p q zs ys inv e d k))
                  λ _ m' h.
                    let rest = after-queue p q zs ys qs r in
                    let left = after-free p q zs ys qs r in
                    Yields.weaken
                      (migrate_queue-Kept fuel h.inv h.counted (rw rest (omega arith))
                        (rw (rest, left) (omega (arith, left_free-long r q ys)))
                        (kept.step m m' qs p q zs ys inv e d k h))
                      λ _ m'' (t, more). (
                        record {
                          queues = t.queues;
                          inv = t.inv;
                          counted = t.counted;
                          empty = t.empty;
                          mapped =
                              t.mapped
                              ∙ ap₂ ◌++◌ rest (after-mapped p q zs ys qs r)
                              ∙ sym (append_assoc zs (p ∷ []) (qs (mapped_of (to_dram r))))
                              ∙ ap (λ l. l ++ qs (mapped_of (to_dram r))) (sym e);
                          others = λ j a b c f.
                              t.others j a b c f ∙ after-others p q zs ys qs r j a b c f;
                        },
                        more,
                      ))
        ]
      ]
