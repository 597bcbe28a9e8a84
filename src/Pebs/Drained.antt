-- ===== src/Pebs/Drained.antt =====
-- The `while` loops of `migration_request` to their end.
use dma_migration_test.Base.{
  ℕ, ◌+◌, ◌%◌, ◌≡◌, ◌≤◌, refl, subst, true, false, List, [], ◌∷◌, ◌++◌, length, All, arith,
  if◌then◌else◌, ltb,
}
use dma_migration_test.Machine.{
  Ptr, HememPage, hugep, ListName, ListName-discrete, Machine, page_size, num_batchs,
}
use dma_migration_test.Fifo.Repr.{Queues, unlinked}
use dma_migration_test.Hemem.Calls.{size_of}
use dma_migration_test.Pebs.Invariant.{Inv, Counted}
use dma_migration_test.Pebs.Route.{
  Route, dram_to_dram, dram_to_nvm, nvm_to_dram, nvm_to_nvm, from_dram, to_dram, mapped_of, free_of,
  queue_of,
}
use dma_migration_test.Pebs.Settled.{after_round}

-- What the assertions of a migration ask of a page besides its tier.
pub record IsMovable (r : Route) (v : HememPage) : Type 0 where
  pub huge : v.pt ≡ hugep
  pub mapped : ¬ (v.va ≡ 0)
  pub aligned : v.va % page_size ≡ 0
  pub fits : v.devdax_offset + page_size ≤ size_of (from_dram r)

-- What they ask of a free frame.
abbrev pub IsFrame : Route → HememPage → Type 0
IsFrame r v = v.devdax_offset + page_size ≤ size_of (to_dram r)

pub IsMovable-content :
    (r : Route) {v w : HememPage} → unlinked v ≡ unlinked w → IsMovable r v → IsMovable r w
IsMovable-content r {v} {w} e h =
    let same : IsMovable r (unlinked v) = record {
      huge = h.huge;
      mapped = h.mapped;
      aligned = h.aligned;
      fits = h.fits;
    } in
    let moved = subst (IsMovable r) e same in
    record { huge = moved.huge; mapped = moved.mapped; aligned = moved.aligned; fits = moved.fits }

-- The queue is empty, and its pages are mapped in the other tier, in their order.
pub record Drained (r : Route) (qs : Queues) (m m' : Machine) : Type 0 where
  pub queues : Queues
  pub inv : Inv m' queues
  pub counted : Counted m' queues
  pub empty : queues (queue_of r) ≡ []
  pub mapped : queues (mapped_of (to_dram r)) ≡ qs (queue_of r) ++ qs (mapped_of (to_dram r))
  pub others :
      (j : ListName)
      → ¬ (j ≡ queue_of r)
      → ¬ (j ≡ mapped_of (to_dram r))
      → ¬ (j ≡ free_of true)
      → ¬ (j ≡ free_of false)
      → queues j ≡ qs j

-- The free list of the new tier behind a round.
abbrev pub left_free : Route → Ptr → List Ptr → List Ptr
left_free dram_to_dram q ys = q ∷ ys
left_free dram_to_nvm q ys = ys
left_free nvm_to_dram q ys = ys
left_free nvm_to_nvm q ys = q ∷ ys

module _ (p q : Ptr) (xs ys : List Ptr) (qs : Queues) where
  pub after-queue : (r : Route) → after_round r p q xs ys qs (queue_of r) ≡ xs
  unfolding ListName-discrete
  after-queue dram_to_dram = refl
  after-queue dram_to_nvm = refl
  after-queue nvm_to_dram = refl
  after-queue nvm_to_nvm = refl

  pub after-mapped :
      (r : Route)
      → after_round r p q xs ys qs (mapped_of (to_dram r)) ≡ p ∷ qs (mapped_of (to_dram r))
  unfolding ListName-discrete
  after-mapped dram_to_dram = refl
  after-mapped dram_to_nvm = refl
  after-mapped nvm_to_dram = refl
  after-mapped nvm_to_nvm = refl

  pub after-free : (r : Route) → after_round r p q xs ys qs (free_of (to_dram r)) ≡ left_free r q ys
  unfolding ListName-discrete
  after-free dram_to_dram = refl
  after-free dram_to_nvm = refl
  after-free nvm_to_dram = refl
  after-free nvm_to_nvm = refl

  pub after-others :
      (r : Route) (j : ListName)
      → ¬ (j ≡ queue_of r)
      → ¬ (j ≡ mapped_of (to_dram r))
      → ¬ (j ≡ free_of true)
      → ¬ (j ≡ free_of false)
      → after_round r p q xs ys qs j ≡ qs j
  after-others dram_to_dram j a b c d = ground arith
  after-others dram_to_nvm j a b c d = ground arith
  after-others nvm_to_dram j a b c d = ground arith
  after-others nvm_to_nvm j a b c d = ground arith

pub left_free-long : (r : Route) (q : Ptr) (ys : List Ptr) → length ys ≤ length (left_free r q ys)
left_free-long dram_to_dram q ys = omega arith
left_free-long dram_to_nvm q ys = omega arith
left_free-long nvm_to_dram q ys = omega arith
left_free-long nvm_to_nvm q ys = omega arith

pub left_free-All :
    (P : Ptr → Type 0) (r : Route) (q : Ptr) (ys : List Ptr)
    → All P ys
    → P q
    → All P (left_free r q ys)
left_free-All P dram_to_dram q ys h k = (k, h)
left_free-All P dram_to_nvm q ys h k = h
left_free-All P nvm_to_dram q ys h k = h
left_free-All P nvm_to_nvm q ys h k = (k, h)

pub one_batch : (left : ℕ) → ¬ (left ≡ 0) → (if ltb num_batchs left then num_batchs else left) ≡ 1
one_batch left some = ground arith
