-- ===== src/Fifo/Enqueue.antt =====
-- `enqueue_fifo` puts a page in front of the sequence that its list stands for.
use dma_migration_test.Base.{
  ◌<◌, ◌≡◌, refl, List, [], ◌∷◌, suc, some, length, u64_mod, arith, eqb_ne, All-map₂,
}
use dma_migration_test.Machine.{Ptr, null, ListName, Machine, at_page, assert, modify_fifo}
use dma_migration_test.Machine.Update.{load-ok, modify-ok}
use dma_migration_test.Machine.Yields.{Yields, yields}
use dma_migration_test.Fifo.{enqueue_fifo}
use dma_migration_test.Fifo.Seg.{nil, cons, Seg-head, Seg-tail, Seg-frame, Seg-Avoids}
use dma_migration_test.Fifo.Repr.{IsFifo, ListStep}

module _ (n : ListName) (p : Ptr) (m : Machine) (valid : ¬ (p ≡ null))
    (loose : (m.page p).prev ≡ null) (off : ¬ ((m.page p).list ≡ some n)) where
  enqueue_fifo-nil :
      IsFifo m n [] → Yields (λ _ m'. IsFifo m' n (p ∷ []) × ListStep n p m m') (enqueue_fifo n p m)
  unfolding enqueue_fifo assert modify_fifo
  enqueue_fifo-nil h =
      rw
        (
          load-ok m valid,
          loose,
          h.first,
          h.last,
          h.numentries,
          modify-ok _ valid,
          modify-ok _ valid,
        )
        (yields (
          record {
            first = ground arith;
            last = ground arith;
            numentries = ground arith;
            bounded = omega arith;
            chain =
                cons
                  (record {
                    ne_null = valid;
                    prev = ground arith;
                    next = ground arith;
                    list = ground arith;
                  })
                  nil;
            distinct = (tt, tt);
          },
          record {
            same_page = λ a _ ne. ground arith;
            same_content = λ a. ground arith;
            same_fifo = λ k ne. ground arith;
            same_num = refl;
            same_call = refl;
            same_dev = refl;
            same_trace = refl;
            same_pages = refl;
          },
        ))

  enqueue_fifo-cons :
      {x : Ptr} {xs : List Ptr}
      → IsFifo m n (x ∷ xs)
      → suc (length (x ∷ xs)) < u64_mod
      → Yields (λ _ m'. IsFifo m' n (p ∷ x ∷ xs) × ListStep n p m m') (enqueue_fifo n p m)
  unfolding enqueue_fifo assert modify_fifo
  enqueue_fifo-cons {x} {xs} h room =
      let node = Seg-head h.chain in
      let apart : ¬ (x ≡ p) = λ e. off (rw (← e) node.list) in
      let head_loose : (at_page m.page p (record (m.page p) { next = x }) x).prev ≡ null =
        ground (arith, node.prev) in
      rw
        (
          load-ok m valid,
          loose,
          h.first,
          modify-ok _ valid,
          eqb_ne x null node.ne_null,
          load-ok _ node.ne_null,
          head_loose,
          modify-ok _ node.ne_null,
          modify-ok _ valid,
        )
        (yields (
          record {
            first = ground arith;
            last = ground (arith, h.last);
            numentries = ground (arith, h.numentries);
            bounded = omega arith;
            chain =
                cons
                  (record {
                    ne_null = valid;
                    prev = ground arith;
                    next = ground arith;
                    list = ground arith;
                  })
                  (cons
                    (record {
                      ne_null = node.ne_null;
                      prev = ground arith;
                      next = ground (arith, node.next);
                      list = ground (arith, node.list);
                    })
                    (Seg-frame (Seg-tail h.chain) (
                      All-map₂ xs (λ a ne ne'. ground arith) h.distinct.0
                        (Seg-Avoids p (Seg-tail h.chain) off))));
            distinct = (Seg-Avoids p h.chain off, h.distinct);
          },
          record {
            same_page = λ a out ne. ground (arith, node.list);
            same_content = λ a. ground arith;
            same_fifo = λ k ne. ground arith;
            same_num = refl;
            same_call = refl;
            same_dev = refl;
            same_trace = refl;
            same_pages = refl;
          },
        ))

  pub enqueue_fifo-IsFifo :
      (xs : List Ptr)
      → IsFifo m n xs
      → suc (length xs) < u64_mod
      → Yields (λ _ m'. IsFifo m' n (p ∷ xs) × ListStep n p m m') (enqueue_fifo n p m)
  enqueue_fifo-IsFifo [] h room = enqueue_fifo-nil h
  enqueue_fifo-IsFifo (x ∷ xs) h room = enqueue_fifo-cons h room
