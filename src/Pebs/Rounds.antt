-- ===== src/Pebs/Rounds.antt =====
-- The `while` loops of `migration_request`, for rounds of one page.
use dma_migration_test.Base.{
  ◌≡◌, ◌∙◌, refl, ap, sym, List, [], ◌∷◌, ◌++◌, length, length-append, arith,
}
use dma_migration_test.Machine.{Ptr, Machine, Os}
use dma_migration_test.Machine.Yields
use dma_migration_test.Machine.Yields.{Yields, yields}
use dma_migration_test.Fifo.Repr.{Queues, unlinked}
use dma_migration_test.Hemem.Granted.{Grants}
use dma_migration_test.Pebs.Invariant.{Inv, Inv-frame, Inv-touch, Counted}
use dma_migration_test.Pebs.Migration.{migrate_round}
use dma_migration_test.Pebs.Touched.{IsReady}
use dma_migration_test.Pebs.Remapped.{calls_of, moved_page, migrate-Remapped}
use dma_migration_test.Pebs.Route.{Route, to_dram, free_of, queue_of}
use dma_migration_test.Pebs.Settled.{after_round, settle-ok, settled-Counted}
use dma_migration_test.Pebs.Hands.{fill_slots-Hands}
use dma_migration_test.Pebs.Round.{
  IsReady-content, moved_page-off, moved_page-present, unlinked-moved_page, freed_page,
  put_back-PutBack,
}

-- Page `p` has taken the frame of the free descriptor `q`.
pub record Moved (r : Route) (p q : Ptr) (rest : Queues) (m m' : Machine) : Type 0 where
  pub inv : Inv m' rest
  pub counted : Counted m' rest
  pub page : unlinked (m'.page p) ≡ unlinked (moved_page r (m.page p) (m.page q).devdax_offset)
  pub free : unlinked (m'.page q) ≡ unlinked (freed_page r (m.page q) (m.page q).devdax_offset)
  pub others : (a : Ptr) → ¬ (a ≡ p) → ¬ (a ≡ q) → unlinked (m'.page a) ≡ unlinked (m.page a)
  pub calls : m'.trace ≡ calls_of r m.dev (m.page p) (m.page q).devdax_offset m.trace
  pub same_dev : m'.dev ≡ m.dev

module _ (os : Os) (g : Grants os) (r : Route) (p q : Ptr) (xs ys : List Ptr) {m : Machine}
    {qs : Queues} where
  -- A round for the one oldest page of a queue whose move the code's assertions allow, under a
  -- kernel that grants the requests: it returns; the page leaves the queue and joins the mapped
  -- pages of its new tier with the offset of the free descriptor, that descriptor joins the free
  -- list of the tier that the page left and keeps its own offset; the calls are the
  -- write protection, the copy, the mapping and the registration, in this order; no other
  -- descriptor's content changes, and lists, placement and counters still agree.
  pub migrate_round-Moved :
      Inv m qs
      → Counted m qs
      → qs (queue_of r) ≡ xs ++ p ∷ []
      → qs (free_of (to_dram r)) ≡ ys ++ q ∷ []
      → IsReady r (m.page p) (m.page q).devdax_offset
      → Yields (λ _. Moved r p q (after_round r p q xs ys qs) m) (migrate_round os r 1 m)
  unfolding migrate_round
  migrate_round-Moved inv counted e d ready =
      let offset = (m.page q).devdax_offset in
      Yields.bind (fill_slots-Hands r p q xs ys inv e d) λ slots m₂ (is, hands).
        let same = hands.content.content in
        rw is (
          Yields.bind
            (migrate-Remapped os g r p offset m₂ hands.page.valid
              (IsReady-content r offset (sym (same p)) ready))
            λ _ m₃ moved.
              let kept = moved.page_other q (λ f. hands.apart (sym f)) in
              let now = moved.page_self in
              let held =
                Inv-touch p hands.page.off.list moved.page_other moved.same_fifo hands.page.inv in
              Yields.bind
                (put_back-PutBack r p q offset
                  (record {
                    inv = held;
                    room = hands.page.room;
                    valid = hands.page.valid;
                    off = rw now (moved_page-off r (m₂.page p) offset hands.page.off);
                  })
                  (record {
                    inv = held;
                    room = hands.free.room;
                    valid = hands.free.valid;
                    off = rw kept hands.free.off;
                  })
                  hands.room hands.apart (ap (λ v. v.in_dram) now)
                  (ap (λ v. v.present) now ∙ moved_page-present r (m₂.page p) offset ∙ hands.used))
                λ _ m₄ put.
                  let nums = put.same_num ∙ moved.same_num ∙ hands.same_num in
                  rw (settle-ok r m₄) (
                    yields (record {
                      inv = Inv-frame refl refl put.inv;
                      counted = rw nums (
                          settled-Counted r m.num qs p q xs ys counted inv.few
                            (ap length e ∙ length-append xs (p ∷ []) ∙ omega arith)
                            (ap length d ∙ length-append ys (q ∷ []) ∙ omega arith));
                      page =
                          put.page
                          ∙ ap (λ v. unlinked v) now
                          ∙ unlinked-moved_page r (m₂.page p) offset
                          ∙ ap (λ v. moved_page r v offset) (same p)
                          ∙ sym (unlinked-moved_page r (m.page p) offset);
                      free =
                          put.free
                          ∙ ap (λ v. unlinked (freed_page r v offset)) kept
                          ∙ ap (λ v. freed_page r v offset) (same q);
                      others = λ a np nq.
                          put.others a nq ∙ ap (λ v. unlinked v) (moved.page_other a np) ∙ same a;
                      calls = put.same_trace ∙ moved.calls ∙ (λ i.
                          calls_of r (hands.same_dev i) (same p i) offset (hands.same_trace i));
                      same_dev = put.same_dev ∙ moved.same_dev ∙ hands.same_dev;
                    })))
