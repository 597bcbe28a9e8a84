-- ===== src/Fifo/Remove.antt =====
-- `page_list_remove_page` and `dequeue_fifo` take one page out of the sequence.
use dma_migration_test.Base.{
  ◌<◌, ◌≡◌, refl, List, suc, some, u64_mod, arith, ◌==◌, eqb_ne, if◌then◌else◌,
}
use dma_migration_test.Machine.{Ptr, null, ListName, Machine}
use dma_migration_test.Machine.Update.{modify-ok}
use dma_migration_test.Machine.Rules
use dma_migration_test.Machine.Yields.{Yields, yields}
use dma_migration_test.Fifo.{page_list_remove_page, dequeue_fifo}
use dma_migration_test.Fifo.Seg.{Node}
use dma_migration_test.Fifo.Splice.{Splice}
use dma_migration_test.Fifo.Repr.{IsFifo, ListStep, Detached}

-- What taking `p` off list `n` leaves.
abbrev pub Removed : ListName → Ptr → List Ptr → Machine → Machine → Type 0
Removed n p xs m m' = IsFifo m' n xs × ListStep n p m m' × Detached (m'.page p)

-- The facts about the neighbours of `p` that the code relies on.
pub record Between (n : ListName) (a p z : Ptr) (m : Machine) : Type 0 where
  pub node : Node m.page n a p z
  pub apart_left : ¬ (a ≡ p)
  pub apart_right : ¬ (z ≡ p)
  pub apart : a ≡ z → a ≡ null
  pub on_left : ¬ (a ≡ null) → (m.page a).list ≡ some n
  pub on_right : ¬ (z ≡ null) → (m.page z).list ≡ some n
  pub some_entry : 0 < (m.fifo n).numentries
  pub in_range : (m.fifo n).numentries < u64_mod

-- What taking `p` out does to the machine, in terms of its neighbours.
pub record TakenOut (n : ListName) (a p z : Ptr) (m m' : Machine) : Type 0 where
  pub splice : Splice m.page m'.page a p z
  pub first : (m'.fifo n).first ≡ (if (m.fifo n).first == p then z else (m.fifo n).first)
  pub last : (m'.fifo n).last ≡ (if (m.fifo n).last == p then a else (m.fifo n).last)
  pub count : suc (m'.fifo n).numentries ≡ (m.fifo n).numentries
  pub step : ListStep n p m m'
  pub off : Detached (m'.page p)

module _ (n : ListName) (p : Ptr) (m : Machine) {a z : Ptr} (b : Between n a p z m) where
  pub remove-TakenOut :
      ¬ ((m.fifo n).first ≡ null)
      → Yields (λ _ m'. TakenOut n a p z m m') (page_list_remove_page n p m)
  unfolding page_list_remove_page
  remove-TakenOut ne = rw (eqb_ne _ null ne) (
      Rules.load-then p m _ b.node.ne_null (
        Rules.modify_fifo-when-then n _ _ m _ (
          Rules.modify_fifo-when-then n _ _ _ _ (
            Rules.modify-when-then _ _ _ _ (
              Rules.load-then p _ _ b.node.ne_null (
                Rules.modify-when-then _ _ _ _ (
                  Rules.assert-then _ _ _ (ground (arith, b.some_entry)) (
                    Rules.modify_fifo-then n _ _ _ (
                      rw (modify-ok _ b.node.ne_null) (
                        yields (record {
                          splice = record {
                            other = λ c np na nz. ground (arith, b.node.prev, b.node.next);
                            left = λ h.
                                ground (arith, b.node.prev, b.node.next, b.apart_left, b.apart);
                            right = λ h.
                                ground (arith, b.node.prev, b.node.next, b.apart_right, b.apart);
                          };
                          first = ground (arith, b.node.next);
                          last = ground (arith, b.node.prev, b.node.next, b.apart_right);
                          count = ground (arith, b.some_entry, b.in_range);
                          step = record {
                            same_page = λ c out ne. ground (
                              arith, b.node.prev, b.node.next, b.on_left, b.on_right, b.apart_right,
                            );
                            same_content = λ c. ground (arith, b.node.prev, b.node.next);
                            same_fifo = λ k ne. ground arith;
                            same_num = refl;
                            same_call = refl;
                            same_dev = refl;
                            same_trace = refl;
                            same_pages = refl;
                          };
                          off = record {
                            next = ground arith;
                            prev = ground arith;
                            list = ground arith;
                          };
                        })))))))))))

  -- With `p` at the `last` end.
  pub dequeue-TakenOut :
      (m.fifo n).last ≡ p
      → z ≡ null
      → ((m.fifo n).first ≡ p → a ≡ null)
      → (a ≡ null → (m.fifo n).first ≡ p)
      → Yields (λ r m'. (r ≡ p) × TakenOut n a p z m m') (dequeue_fifo n m)
  unfolding dequeue_fifo
  dequeue-TakenOut e none_behind only alone =
      rw (e, eqb_ne p null b.node.ne_null)
        (Rules.load-then p m _ b.node.ne_null (
          Rules.modify_fifo-then n _ m _ (
            Rules.modify_either-then n _ _ _ _ _ (
              Rules.modify-then p _ _ _ b.node.ne_null (
                Rules.assert-then _ _ _ (ground (arith, b.some_entry)) (
                  Rules.modify_fifo-then n _ _ _ (
                    yields (
                      refl,
                      record {
                        splice = record {
                          other = λ c np na nz. ground (arith, b.node.prev);
                          left = λ h. ground (arith, b.node.prev, b.apart_left);
                          right = λ h. absurd (h none_behind);
                        };
                        first = ground (arith, b.node.prev);
                        last = ground (arith, b.node.prev);
                        count = ground (arith, b.some_entry, b.in_range);
                        step = record {
                          same_page = λ c out ne. ground (arith, b.node.prev, b.on_left);
                          same_content = λ c. ground (arith, b.node.prev);
                          same_fifo = λ k ne. ground arith;
                          same_num = refl;
                          same_call = refl;
                          same_dev = refl;
                          same_trace = refl;
                          same_pages = refl;
                        };
                        off = record {
                          next = ground arith;
                          prev = ground arith;
                          list = ground arith;
                        };
                      },
                    ))))))))
