-- ===== src/Pebs/Overwrites.antt =====
-- Two rounds for a queue within one tier that share the tier's one free frame.
use dma_migration_test.Base.{
  ℕ, ◌+◌, ◌≡◌, ◌<◌, ◌∙◌, ap, sym, refl, List, [], ◌∷◌, ◌++◌, All-back, inl, inr,
}
use dma_migration_test.Machine.{Ptr, Machine, Os, ◌>>◌, page_size}
use dma_migration_test.Machine.Yields
use dma_migration_test.Machine.Yields.{Yields}
use dma_migration_test.Fifo.Repr.{Queues, unlinked}
use dma_migration_test.Hemem.Granted.{Grants}
use dma_migration_test.Pebs.Drained.{after-queue, after-free, left_free}
use dma_migration_test.Pebs.Drains.{waiting_same, offset_after, q_unused}
use dma_migration_test.Pebs.Invariant.{Inv, Counted}
use dma_migration_test.Pebs.Memory.{
  Memory, Behaves, IsWithin, IsClear, AreApart, Backs, reads, frame_at,
}
use dma_migration_test.Pebs.Migration.{migrate_round}
use dma_migration_test.Pebs.Preserved.{Preserved, Moved-Preserved, Backs-kept, apart-IsClear}
use dma_migration_test.Pebs.Round.{IsReady-content}
use dma_migration_test.Pebs.Rounds.{migrate_round-Moved}
use dma_migration_test.Pebs.Route.{
  Route, dram_to_dram, dram_to_nvm, nvm_to_dram, nvm_to_nvm, from_dram, to_dram, queue_of, free_of,
}
use dma_migration_test.Pebs.Touched.{IsReady}

left_free-stays :
    (r : Route) (q : Ptr) (ys : List Ptr) → from_dram r ≡ to_dram r → left_free r q ys ≡ q ∷ ys
left_free-stays dram_to_dram q ys stays = refl
left_free-stays dram_to_nvm q ys stays = cc
left_free-stays nvm_to_dram q ys stays = cc
left_free-stays nvm_to_nvm q ys stays = refl

AreApart-sym : (x y : ℕ) → AreApart x y page_size → AreApart y x page_size
AreApart-sym x y (inl h) = inr h
AreApart-sym x y (inr h) = inl h

-- The second page is moved onto the frame of the first.
module _ {mem : Memory} {r : Route} {p₁ p₂ q : Ptr} {m m₁ m₂ : Machine}
    (k₁ : Preserved mem r p₁ q m m₁) (k₂ : Preserved mem r p₂ q m₁ m₂) where
  reads-second :
      m₁.dev ≡ m.dev
      → unlinked (m₁.page p₂) ≡ unlinked (m.page p₂)
      → (m₁.page q).devdax_offset ≡ (m.page q).devdax_offset
      → AreApart (m.page p₂).va (m.page p₁).va page_size
      → AreApart
          (frame_at m.dev (m.page p₂).in_dram (m.page p₂).devdax_offset)
          (frame_at m.dev (to_dram r) (m.page q).devdax_offset)
          page_size
      → Backs mem m.trace m.dev (m.page p₂)
      → (i : ℕ) → i < page_size
      → reads mem m₂.trace ((m.page p₁).va + i) ≡ reads mem m.trace ((m.page p₂).va + i)
  reads-second devs same offset apart frames backed i low =
      let va : (m₁.page p₂).va ≡ (m.page p₂).va = ap (λ u. u.va) same in
      let clear : IsClear (m₁.page p₂).va page_size ((m.page p₁).va + i) =
        rw va (apart-IsClear _ _ i low (AreApart-sym _ _ apart)) in
      let first = k₂.same_backing ((m.page p₁).va + i) clear ∙ k₁.moved_to i low in
      let second = k₂.moved_to i low ∙ (λ j. frame_at (devs j) (to_dram r) (offset j) + i) in
      ap (mem.cell m₂.trace) (first ∙ sym second)
      ∙ k₂.page i low
      ∙ ap (λ a. reads mem m₁.trace (a + i)) va
      ∙ k₁.others ((m.page p₂).va + i) (apart-IsClear _ _ i low apart)
          (rw (backed i low) (apart-IsClear _ _ i low frames))

module _ (mem : Memory) (os : Os) (g : Grants os) (r : Route) (stays : from_dram r ≡ to_dram r)
    (p₁ p₂ q : Ptr) (xs : List Ptr) {m : Machine} {qs : Queues} where
  -- Two rounds for a queue within one tier, for pages that the application has where their
  -- descriptors say, with one free frame in the tier, which meets neither of their frames, under a
  -- kernel that grants the requests and copies and maps as documented: the second page is copied over
  -- the first, so that the application reads the second page's bytes in the first page.
  pub migrate_round-overwrites :
      Behaves m.dev mem
      → IsWithin m.dev
      → Inv m qs
      → Counted m qs
      → qs (queue_of r) ≡ (xs ++ p₂ ∷ []) ++ p₁ ∷ []
      → qs (free_of (to_dram r)) ≡ [] ++ q ∷ []
      → IsReady r (m.page p₁) (m.page q).devdax_offset
      → IsReady r (m.page p₂) (m.page q).devdax_offset
      → Backs mem m.trace m.dev (m.page p₁)
      → Backs mem m.trace m.dev (m.page p₂)
      → AreApart
          (frame_at m.dev (from_dram r) (m.page p₁).devdax_offset)
          (frame_at m.dev (to_dram r) (m.page q).devdax_offset)
          page_size
      → AreApart
          (frame_at m.dev (from_dram r) (m.page p₂).devdax_offset)
          (frame_at m.dev (to_dram r) (m.page q).devdax_offset)
          page_size
      → AreApart (m.page p₂).va (m.page p₁).va page_size
      → Yields
          (λ _ m'.
            (i : ℕ)
            → i < page_size
            → reads mem m'.trace ((m.page p₁).va + i) ≡ reads mem m.trace ((m.page p₂).va + i))
          ((migrate_round os r 1 >> migrate_round os r 1) m)
  migrate_round-overwrites laws wide inv counted e d ready₁ ready₂ backed₁ backed₂ apart₁ apart₂
        apart =
      let zs = xs ++ p₂ ∷ [] in
      Yields.bind (migrate_round-Moved os g r p₁ q zs [] inv counted e d ready₁) λ _ m₁ h₁.
        let k₁ = Moved-Preserved laws wide h₁ ready₁ backed₁ apart₁ in
        let same = (All-back _ xs (p₂ ∷ []) (waiting_same r inv p₁ q zs [] e d h₁)).0 in
        let offset = offset_after r inv p₁ q zs [] e d h₁ q (q_unused r inv p₁ q zs [] e d) in
        let ready : IsReady r (m₁.page p₂) (m₁.page q).devdax_offset =
          rw offset (IsReady-content r (m.page q).devdax_offset (sym same) ready₂) in
        let again : AreApart (frame_at m₁.dev (from_dram r) (m₁.page p₂).devdax_offset)
            (frame_at m₁.dev (to_dram r) (m₁.page q).devdax_offset) page_size =
          rw (h₁.same_dev, offset, ap (λ u. u.devdax_offset) same) apart₂ in
        Yields.weaken
          (migrate_round-Moved os g r p₂ q xs [] h₁.inv h₁.counted (after-queue p₁ q zs [] qs r)
            (after-free p₁ q zs [] qs r ∙ left_free-stays r q [] stays) ready)
          λ _ m₂ h₂.
            let k₂ =
              Moved-Preserved (rw h₁.same_dev laws) (rw h₁.same_dev wide) h₂ ready
                (Backs-kept p₂ k₁ h₁.same_dev same apart backed₂) again in
            reads-second k₁ k₂ h₁.same_dev same offset apart (rw ready₂.tier apart₂) backed₂
