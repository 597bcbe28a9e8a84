-- ===== src/Threads/Round.antt =====
-- A round of the migration thread, with any kernel: `migrate_round` keeps the lists and counters.
use dma_migration_test.Base.{
  ℕ, ◌≡◌, ◌∙◌, inl, inr, refl, ap, List, [], ◌∷◌, ◌++◌, length, length-append, eq_cases, snoc_cases,
  arith, sym, Bool,
}
use dma_migration_test.Machine.{
  Ptr, null, Machine, Os, at_list, at_page, ok, fault, modify, load, pure, ◌>>=◌,
}
use dma_migration_test.Machine.Allows
use dma_migration_test.Machine.Allows.{Allows}
use dma_migration_test.Machine.Yields
use dma_migration_test.Machine.Update.{at_page_self, at_list-ne}
use dma_migration_test.Fifo.{dequeue_fifo}
use dma_migration_test.Fifo.Laws.{dequeue_fifo-empty}
use dma_migration_test.Fifo.Repr.{Queues}
use dma_migration_test.Pebs.Hands.{Hands, fill_slots-Hands, free-queue}
use dma_migration_test.Pebs.Invariant.{Inv, Inv-frame, Inv-touch, total, total-at_list}
use dma_migration_test.Pebs.Migration.{
  fill_slots, migrate_with, migrate_of, migrate_round, set_migrating, Slot,
}
use dma_migration_test.Pebs.Remapped.{migrate_of-migrate_with}
use dma_migration_test.Pebs.Reshape.{Inv-SameShape}
use dma_migration_test.Pebs.Round.{PutBack, put_back-PutBack}
use dma_migration_test.Pebs.Route.{Route, from_dram, to_dram, mapped_of, free_of, queue_of}
use dma_migration_test.Pebs.Settled.{taken_out, put_in, after_round, settle-ok, settled-Counted}
use dma_migration_test.Pebs.Shift.{InHand, dequeue-InHand}
use dma_migration_test.Threads.Moving.{Moving, migrate_of-Moves}
use dma_migration_test.Threads.Quiet.{SameShape-refl}
use dma_migration_test.Threads.Sound.{Sound}

module _ {p : Ptr} {b : Bool} {rest : Queues} {m m' : Machine} (t : Moving p b m m')
    (hand : InHand p rest m) where
  Moving-Inv : Inv m' rest
  Moving-Inv =
      let m₁ : Machine = record m { page = at_page m.page p (m'.page p) } in
      let self : m₁.page p ≡ m'.page p = at_page_self m.page p (m'.page p) in
      let other : (a : Ptr) → ¬ (a ≡ p) → m₁.page a ≡ m.page a = λ a ne. ground arith in
      Inv-SameShape {m = m₁}
        (λ a. elim (eq_cases a p) [
          | inl e ↦ rw (e, self) (SameShape-refl (m'.page p))
          | inr ne ↦ rw (other a ne) (t.shape a ne)
        ])
        t.same_fifo (Inv-touch p hand.off.list other refl hand.inv)

  Moving-page : InHand p rest m'
  Moving-page = record {
    inv = Moving-Inv;
    room = hand.room;
    valid = hand.valid;
    off = record {
      next = t.next ∙ hand.off.next;
      prev = t.prev ∙ hand.off.prev;
      list = t.list ∙ hand.off.list;
    };
  }

  Moving-free : (q : Ptr) → ¬ (q ≡ p) → InHand q rest m → InHand q rest m'
  Moving-free q apart other =
      let s = t.shape q apart in
      record {
        inv = Moving-Inv;
        room = other.room;
        valid = other.valid;
        off = record {
          next = s.next ∙ other.off.next;
          prev = s.prev ∙ other.off.prev;
          list = s.list ∙ other.off.list;
        };
      }

total-after_round :
    (r : Route) (p q : Ptr) (xs ys : List Ptr) (qs : Queues)
    → qs (queue_of r) ≡ xs ++ p ∷ []
    → qs (free_of (to_dram r)) ≡ ys ++ q ∷ []
    → total (after_round r p q xs ys qs) ≡ total qs
total-after_round r p q xs ys qs e d =
    let one = at_list qs (queue_of r) xs in
    let two = at_list one (free_of (to_dram r)) ys in
    let three = put_in (mapped_of (to_dram r)) p two in
    omega (
      arith,
      total-at_list (queue_of r) qs xs,
      total-at_list (free_of (to_dram r)) one ys,
      total-at_list (mapped_of (to_dram r)) two (p ∷ two (mapped_of (to_dram r))),
      total-at_list (free_of (from_dram r)) three (q ∷ three (free_of (from_dram r))),
      ap length (at_list-ne qs (queue_of r) (free_of (to_dram r)) xs (free-queue (to_dram r) r)),
      ap length e,
      length-append xs (p ∷ []),
      ap length d,
      length-append ys (q ∷ []),
    )

abbrev null_slot : Ptr → ℕ → Slot
null_slot q o = record { page = null; next_page = q; offset = o }

-- A batch of one slot, whose page is NULL.
abbrev HasNull : List Slot → Type 0
HasNull slots = (q : Ptr) × (o : ℕ) × (slots ≡ null_slot q o ∷ [])

fill_slots-HasNull :
    (r : Route) (m : Machine)
    → dequeue_fifo (queue_of r) m ≡ ok null m
    → Allows (λ slots _. HasNull slots) (fill_slots r 1 m)
unfolding fill_slots
fill_slots-HasNull r m e = rw e (
    Allows.bind (λ _ _. Unit) (λ slots _. HasNull slots) (dequeue_fifo (free_of (to_dram r)) m)
      (λ next. load next >>= λ n. pure (null_slot next n.devdax_offset ∷ [])) (Allows.returns _)
      λ q m₁ _.
        Allows.bind (λ _ _. Unit) (λ slots _. HasNull slots) (load q m₁)
          (λ n. pure (null_slot q n.devdax_offset ∷ [])) (Allows.returns _)
          λ n m₂ _. (q, n.devdax_offset, refl))

migrate_null :
    (os : Os) (r : Route) (offset : ℕ) (m : Machine)
    → migrate_of r os ((null, offset) ∷ []) m ≡ fault
unfolding migrate_with set_migrating modify
migrate_null os r offset m = rw (migrate_of-migrate_with r os) refl

module _ (os : Os) (r : Route) (exact : Bool) (all : ℕ) {m : Machine} (s : Sound exact all m) where
  -- With an empty queue the round writes through NULL.
  no_page : s.queues (queue_of r) ≡ [] → Allows (λ _. Sound exact all) (migrate_round os r 1 m)
  unfolding migrate_round
  no_page e =
      Allows.bind {A = List Slot} {B = Unit {0}} (λ slots _. HasNull slots) (λ _. Sound exact all) _
        _ (fill_slots-HasNull r m (dequeue_fifo-empty s.inv.lists (queue_of r) e))
        λ slots m₃ (q, o, is). rw (is, migrate_null os r o m₃) tt

  -- With an empty free list the round reads through NULL.
  no_frame :
      (xs : List Ptr) (p : Ptr)
      → s.queues (queue_of r) ≡ xs ++ p ∷ []
      → s.queues (free_of (to_dram r)) ≡ []
      → Allows (λ _. Sound exact all) (migrate_round os r 1 m)
  unfolding migrate_round fill_slots load
  no_frame xs p e d =
      let still_empty =
        at_list-ne s.queues (queue_of r) (free_of (to_dram r)) xs (free-queue (to_dram r) r) ∙ d in
      Allows.bind {A = List Slot} {B = Unit {0}} (λ _ _. null ≡ 1) (λ _. Sound exact all) _ _
        (Allows.bind {A = Ptr} {B = List Slot} (λ a. InHand p (at_list s.queues (queue_of r) xs))
          (λ _ _. null ≡ 1) _ _
          (Allows.of_Yields
            (Yields.weaken (dequeue-InHand s.inv (queue_of r) xs p e) λ a m₁ h. h.1))
          λ a m₁ hand. rw (dequeue_fifo-empty hand.inv.lists (free_of (to_dram r)) still_empty) tt)
        λ slots m₂ wrong. absurd (omega arith)

  moved :
      (xs ys : List Ptr) (p q : Ptr)
      → s.queues (queue_of r) ≡ xs ++ p ∷ []
      → s.queues (free_of (to_dram r)) ≡ ys ++ q ∷ []
      → Allows (λ _. Sound exact all) (migrate_round os r 1 m)
  unfolding migrate_round
  moved xs ys p q e d =
      let offset = (m.page q).devdax_offset in
      let rest = taken_out r xs ys s.queues in
      Allows.bind
        (λ slots m₂.
          (slots ≡ record { page = p; next_page = q; offset = offset } ∷ [])
          × Hands r p q rest m m₂)
        (λ _. Sound exact all) _ _ (Allows.of_Yields (fill_slots-Hands r p q xs ys s.inv e d))
        λ slots m₂ (is, hands). rw is (
          Allows.bind (λ _. Moving p (to_dram r) m₂) (λ _. Sound exact all) _ _
            (migrate_of-Moves os r p offset m₂)
            λ _ m₃ t.
              Allows.bind (λ _. PutBack r p q offset rest m₃) (λ _. Sound exact all) _ _
                (Allows.of_Yields (
                  put_back-PutBack r p q offset (Moving-page t hands.page)
                    (Moving-free t hands.page q (λ f. hands.apart (sym f)) hands.free) hands.room
                    hands.apart t.in_dram (t.present ∙ hands.used)))
                λ _ m₄ put. rw (settle-ok r m₄) (record {
                  queues = after_round r p q xs ys s.queues;
                  inv = Inv-frame refl refl put.inv;
                  none_lost = total-after_round r p q xs ys s.queues e d ∙ s.none_lost;
                  counted = λ on. rw (put.same_num ∙ t.same_num ∙ hands.same_num) (
                      settled-Counted r m.num s.queues p q xs ys (s.counted on) s.inv.few
                        (ap length e ∙ length-append xs (p ∷ []) ∙ omega arith)
                        (ap length d ∙ length-append ys (q ∷ []) ∙ omega arith));
                }))

  -- A round for one page, whatever the kernel answers: if it returns, no descriptor is lost, the
  -- lists are well formed, and the counters that agreed with them agree again.
  pub migrate_round-Sound : Allows (λ _. Sound exact all) (migrate_round os r 1 m)
  migrate_round-Sound = elim (snoc_cases (s.queues (queue_of r))) [
    | inl e ↦ no_page e
    | inr (xs, p, e) ↦ elim (snoc_cases (s.queues (free_of (to_dram r)))) [
      | inl d ↦ no_frame xs p e d
      | inr (ys, q, d) ↦ moved xs ys p q e d
    ]
  ]
