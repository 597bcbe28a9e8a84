-- ===== src/Pebs/Reissued.antt =====
-- What pebs.c:324 leaves to the next page fault: the descriptor that `put_back` puts on the free list
-- behind a move within the DRAM names the frame that the page has moved to.
use dma_migration_test.Base.{
  ◌≡◌, ◌∙◌, ap, sym, subst, true, false, List, [], ◌∷◌, ◌++◌, All, All-back, arith,
}
use dma_migration_test.Machine.{
  Ptr, Machine, Os, ◌>>◌, dram_free_list, dram_mmap_list, dram_to_dram_list, at_list,
}
use dma_migration_test.Machine.Update.{at_list_self, at_list-ne}
use dma_migration_test.Machine.Yields
use dma_migration_test.Machine.Yields.{Yields, yields}
use dma_migration_test.Fifo.Repr.{Queues}
use dma_migration_test.Hemem.Granted.{Grants}
use dma_migration_test.Pebs.Allocate.{pebs_pagefault}
use dma_migration_test.Pebs.Allocated.{pebs_pagefault-Allocated}
use dma_migration_test.Pebs.Drained.{after-free, after-mapped}
use dma_migration_test.Pebs.Invariant.{Inv, Counted, IsPlaced}
use dma_migration_test.Pebs.Migration.{migrate_round}
use dma_migration_test.Pebs.Rounds.{migrate_round-Moved}
use dma_migration_test.Pebs.Route.{dram_to_dram}
use dma_migration_test.Pebs.Settled.{after_round, put_in}
use dma_migration_test.Pebs.Touched.{IsReady}

-- Two mapped pages, the latest of the DRAM, have one frame.
pub record ShareFrame (p q : Ptr) (mapped : List Ptr) (m' : Machine) : Type 0 where
  pub queues : Queues
  pub inv : Inv m' queues
  pub both_mapped : queues dram_mmap_list ≡ q ∷ p ∷ mapped
  pub apart : ¬ (p ≡ q)
  pub first : (m'.page p).present ≡ true
  pub second : (m'.page q).present ≡ true
  pub same_tier : (m'.page p).in_dram ≡ (m'.page q).in_dram
  pub same_offset : (m'.page p).devdax_offset ≡ (m'.page q).devdax_offset

module _ (os : Os) (g : Grants os) (p q : Ptr) (xs : List Ptr) {m : Machine} {qs : Queues}
    (inv : Inv m qs) (e : qs dram_to_dram_list ≡ xs ++ p ∷ [])
    (d : qs dram_free_list ≡ [] ++ q ∷ []) where
  used : (m.page p).present ≡ true
  used =
      (All-back (IsPlaced m dram_to_dram_list) xs (p ∷ [])
        (subst (All (IsPlaced m dram_to_dram_list)) e (inv.placed dram_to_dram_list))).0.1

  unused : (m.page q).present ≡ false
  unused = (subst (All (IsPlaced m dram_free_list)) d (inv.placed dram_free_list)).0.1

  page_ne_frame : ¬ (p ≡ q)
  page_ne_frame same = ground (arith, used, unused, ap (λ a. (m.page a).present) same)

  -- A round for a page that waits to move within the DRAM, where one frame is free, when the move
  -- passes the code's assertions and the kernel grants the requests, and then a page fault: the fault
  -- is given the frame that the page has just moved to. Two pages are mapped then, at the front of
  -- the list of DRAM pages, whose descriptors name the same frame.
  pub migrate_round-pagefault :
      Counted m qs
      → IsReady dram_to_dram (m.page p) (m.page q).devdax_offset
      → Yields
          (λ a m'. (a ≡ q) × ShareFrame p q (qs dram_mmap_list) m')
          ((migrate_round os dram_to_dram 1 >> pebs_pagefault) m)
  migrate_round-pagefault counted ready =
      let rest = after_round dram_to_dram p q xs [] qs in
      Yields.bind (migrate_round-Moved os g dram_to_dram p q xs [] inv counted e d ready) λ _ m₁ h.
        Yields.weaken
          ((pebs_pagefault-Allocated h.inv).0 [] q (after-free p q xs [] qs dram_to_dram))
          λ a m' (is, t).
            let kept = t.others p page_ne_frame ∙ h.page in
            (
              is,
              record {
                queues = put_in dram_mmap_list q (at_list rest dram_free_list []);
                inv = t.inv;
                both_mapped =
                    at_list_self (at_list rest dram_free_list []) dram_mmap_list _
                    ∙ ap (◌∷◌ q) (
                        at_list-ne rest dram_free_list dram_mmap_list [] (λ e. cc)
                        ∙ after-mapped p q xs [] qs dram_to_dram);
                apart = page_ne_frame;
                first = ap (λ v. v.present) kept ∙ used;
                second = ap (λ v. v.present) t.page;
                same_tier =
                    ap (λ v. v.in_dram) kept
                    ∙ sym (ap (λ v. v.in_dram) t.page ∙ ap (λ v. v.in_dram) h.free);
                same_offset =
                    ap (λ v. v.devdax_offset) kept
                    ∙ sym (ap (λ v. v.devdax_offset) t.page ∙ ap (λ v. v.devdax_offset) h.free);
              },
            )
