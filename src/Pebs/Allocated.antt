-- ===== src/Pebs/Allocated.antt =====
-- `pebs_pagefault` and `pebs_allocate_page` on every branch.
use dma_migration_test.Base.{
  ◌≡◌, ◌∙◌, refl, ap, sym, Bool, true, false, not, List, [], ◌∷◌, ◌++◌, if◌then◌else◌, arith,
  eqb_ne,
}
use dma_migration_test.Machine.{
  Ptr, null, HememPage, Machine, abort, at_list, at_page, dram_free_list, nvm_free_list,
}
use dma_migration_test.Machine.Rules
use dma_migration_test.Machine.Update.{modify-ok, at_page_self}
use dma_migration_test.Machine.Yields
use dma_migration_test.Machine.Yields.{Yields, yields}
use dma_migration_test.Fifo.Repr.{Queues, ListStep, unlinked}
use dma_migration_test.Fifo.Laws.{dequeue_fifo-empty}
use dma_migration_test.Pebs.Allocate.{use_page, pebs_allocate_page, pebs_pagefault}
use dma_migration_test.Pebs.Invariant.{Inv, Inv-touch, IsPlaced, SameContent}
use dma_migration_test.Pebs.Shift.{InHand, dequeue-InHand, enqueue-Inv, valid_of_split}
use dma_migration_test.Pebs.Route.{free_of, mapped_of}
use dma_migration_test.Pebs.Settled.{put_in}
use dma_migration_test.Pebs.Hands.{used_free, used_mapped, tier_free, tier_mapped}

-- The free frame `p` of one tier is in use: it left the end of its free list, of which `xs` stay,
-- and is the latest mapped page.
pub record Allocated (in_dram : Bool) (p : Ptr) (xs : List Ptr) (qs : Queues) (m m' : Machine)
    : Type 0 where
  pub inv : Inv m' (put_in (mapped_of in_dram) p (at_list qs (free_of in_dram) xs))
  pub page : unlinked (m'.page p) ≡ unlinked (record (m.page p) { present = true })
  pub others : (a : Ptr) → ¬ (a ≡ p) → unlinked (m'.page a) ≡ unlinked (m.page a)
  pub same_num : m'.num ≡ m.num
  pub same_trace : m'.trace ≡ m.trace
  pub same_dev : m'.dev ≡ m.dev
  pub same_pages : m'.pages ≡ m.pages

is_tier_self : (b : Bool) → (if b then b else not b) ≡ true
is_tier_self true = refl
is_tier_self false = refl

module _ (b : Bool) (p : Ptr) (xs : List Ptr) {m : Machine} {qs : Queues} where
  use_page-Allocated :
      {m₁ : Machine}
      → InHand p (at_list qs (free_of b) xs) m₁
      → IsPlaced m₁ (free_of b) p
      → SameContent m m₁
      → m₁.num ≡ m.num
      → ListStep (free_of b) p m m₁
      → Yields (λ a m'. (a ≡ p) × Allocated b p xs qs m m') (use_page (mapped_of b) b p m₁)
  unfolding use_page
  use_page-Allocated {m₁} hand placed same nums step =
      let v = record (m₁.page p) { present = true } in
      let m₂ : Machine = record m₁ { page = at_page m₁.page p v } in
      let self : m₂.page p ≡ v = at_page_self m₁.page p v in
      let other : (a : Ptr) → ¬ (a ≡ p) → m₂.page a ≡ m₁.page a = λ a ne. ground arith in
      let side = placed.0 ∙ tier_free b in
      Rules.load-then p m₁ _ hand.valid (
        Rules.assert-then _ _ _ (rw side (is_tier_self b)) (
          Rules.assert-then _ _ _ (rw (placed.1, used_free b) refl) (
            rw (modify-ok m₁ hand.valid) (
              Yields.bind
                (enqueue-Inv
                  (record {
                    inv = Inv-touch p hand.off.list other refl hand.inv;
                    room = hand.room;
                    valid = hand.valid;
                    off = rw self (record {
                      next = hand.off.next;
                      prev = hand.off.prev;
                      list = hand.off.list;
                    });
                  })
                  (mapped_of b)
                  (
                    ap (λ w. w.in_dram) self ∙ side ∙ sym (tier_mapped b),
                    ap (λ w. w.present) self ∙ sym (used_mapped b),
                  ))
                λ _ m₃ (inv₃, content₃, nums₃, step₃). yields (
                  refl,
                  record {
                    inv = inv₃;
                    page =
                        content₃.content p
                        ∙ ap (λ w. unlinked w) self
                        ∙ ap {A = HememPage} (λ w. record w { present = true }) (same.content p);
                    others = λ a ne.
                        content₃.content a ∙ ap (λ w. unlinked w) (other a ne) ∙ same.content a;
                    same_num = nums₃ ∙ nums;
                    same_trace = step₃.same_trace ∙ step.same_trace;
                    same_dev = step₃.same_dev ∙ step.same_dev;
                    same_pages = step₃.same_pages ∙ step.same_pages;
                  },
                )))))

module _ {m : Machine} {qs : Queues} (inv : Inv m qs) where
  allocate-dram :
      (xs : List Ptr) (p : Ptr)
      → qs dram_free_list ≡ xs ++ p ∷ []
      → Yields (λ a m'. (a ≡ p) × Allocated true p xs qs m m') (pebs_allocate_page m)
  unfolding pebs_allocate_page
  allocate-dram xs p e =
      Yields.bind (dequeue-InHand inv dram_free_list xs p e)
        λ a m₁ (same, hand, placed, content, nums, step).
          rw (same, eqb_ne p null hand.valid)
            (use_page-Allocated true p xs hand placed content nums step)

  allocate-nvm :
      (xs : List Ptr) (p : Ptr)
      → qs dram_free_list ≡ []
      → qs nvm_free_list ≡ xs ++ p ∷ []
      → Yields (λ a m'. (a ≡ p) × Allocated false p xs qs m m') (pebs_allocate_page m)
  unfolding pebs_allocate_page
  allocate-nvm xs p none_left e = rw (dequeue_fifo-empty inv.lists dram_free_list none_left) (
      Yields.bind (dequeue-InHand inv nvm_free_list xs p e)
        λ a m₁ (same, hand, placed, content, nums, step).
          rw (same, eqb_ne p null hand.valid)
            (use_page-Allocated false p xs hand placed content nums step))

  allocate-none : qs dram_free_list ≡ [] → qs nvm_free_list ≡ [] → pebs_allocate_page m ≡ abort
  unfolding pebs_allocate_page
  allocate-none d n =
      rw
        (
          dequeue_fifo-empty inv.lists dram_free_list d,
          dequeue_fifo-empty inv.lists nvm_free_list n,
        )
        refl

  pagefault-allocate :
      (b : Bool) (p : Ptr) (xs : List Ptr)
      → ¬ (p ≡ null)
      → Yields (λ a m'. (a ≡ p) × Allocated b p xs qs m m') (pebs_allocate_page m)
      → Yields (λ a m'. (a ≡ p) × Allocated b p xs qs m m') (pebs_pagefault m)
  unfolding pebs_pagefault
  pagefault-allocate b p xs valid h = Yields.bind h λ a m' (same, done).
      Rules.assert-then _ _ _ (rw (same, eqb_ne p null valid) refl) (yields (same, done))

  -- A page fault takes the oldest free DRAM frame into use. With no DRAM frame free it takes the
  -- oldest free NVM frame, and with none of either an assertion fails. The frame becomes the latest
  -- mapped page of its tier, `present` is all that changes in its descriptor besides links, no
  -- other descriptor's content changes, and the counters stay as they are.
  pub pebs_pagefault-Allocated :
      ((xs : List Ptr) (p : Ptr)
        → qs dram_free_list ≡ xs ++ p ∷ []
        → Yields (λ a m'. (a ≡ p) × Allocated true p xs qs m m') (pebs_pagefault m))
      × ((xs : List Ptr) (p : Ptr)
          → qs dram_free_list ≡ []
          → qs nvm_free_list ≡ xs ++ p ∷ []
          → Yields (λ a m'. (a ≡ p) × Allocated false p xs qs m m') (pebs_pagefault m))
      × (qs dram_free_list ≡ [] → qs nvm_free_list ≡ [] → pebs_pagefault m ≡ abort)
  unfolding pebs_pagefault
  pebs_pagefault-Allocated = (
    λ xs p e.
        pagefault-allocate true p xs (valid_of_split inv dram_free_list xs p e)
          (allocate-dram xs p e),
    λ xs p d e.
        pagefault-allocate false p xs (valid_of_split inv nvm_free_list xs p e)
          (allocate-nvm xs p d e),
    λ d n. rw (allocate-none d n) refl,
  )
