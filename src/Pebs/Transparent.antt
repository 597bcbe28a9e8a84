-- ===== src/Pebs/Transparent.antt =====
-- The loop for a queue between the tiers keeps what the application reads, wherever it reads.
use dma_migration_test.Base.{
  ℕ, ◌≡◌, ◌≤◌, ◌<◌, ◌∙◌, inl, inr, ap, refl, subst, List, [], ◌∷◌, ◌++◌, length, All, All-front,
  All-back, All-map, All-map₂,
}
use dma_migration_test.Machine.{Ptr, Machine, Os, page_size}
use dma_migration_test.Machine.Yields
use dma_migration_test.Machine.Yields.{Yields, yields}
use dma_migration_test.Fifo.Repr.{Queues, unlinked}
use dma_migration_test.Hemem.Calls.{base_of}
use dma_migration_test.Hemem.Granted.{Grants}
use dma_migration_test.Pebs.Drained.{IsMovable, IsFrame, after-queue, after-free, left_free}
use dma_migration_test.Pebs.Spaced.{
  Spaced, Spaced-snoc, Spaced-same, in_page, frame-IsClear, AreSeparate, frames-AreApart,
}
use dma_migration_test.Pebs.Loop.{Kept, migrate_queue-Kept}
use dma_migration_test.Pebs.Drains.{Movable, Movable-Kept, waiting_same, offset_after, free_unused}
use dma_migration_test.Pebs.Invariant.{Inv, Counted}
use dma_migration_test.Pebs.Memory.{
  Memory, Behaves, IsWithin, IsClear, AreApart, Backs, reads, frame_at,
}
use dma_migration_test.Pebs.Migration.{migrate_queue}
use dma_migration_test.Pebs.Preserved.{Preserved, Moved-Preserved, Backs-kept}
use dma_migration_test.Pebs.Rounds.{Moved}
use dma_migration_test.Pebs.Route.{
  Route, dram_to_dram, dram_to_nvm, nvm_to_dram, nvm_to_nvm, from_dram, to_dram, queue_of, free_of,
}
use dma_migration_test.Pebs.Settled.{after_round}

left_free-crosses :
    (r : Route) (q : Ptr) (ys : List Ptr) → ¬ (from_dram r ≡ to_dram r) → left_free r q ys ≡ ys
left_free-crosses dram_to_dram q ys crosses = absurd (crosses refl)
left_free-crosses dram_to_nvm q ys crosses = refl
left_free-crosses nvm_to_dram q ys crosses = refl
left_free-crosses nvm_to_nvm q ys crosses = absurd (crosses refl)

-- The application has the pages of the queue where their descriptors say, no two of them meet, and no
-- two of the free frames that they go to.
pub record Tracked (mem : Memory) (r : Route) (queue free : List Ptr) (m : Machine) : Type 0 where
  pub backed : All (λ b. Backs mem m.trace m.dev (m.page b)) queue
  pub pages : Spaced (λ b. (m.page b).va) queue
  pub frames : Spaced (λ b. (m.page b).devdax_offset) free

-- The byte that the application has at an address is in none of the free frames `free`.
abbrev pub IsUsed : Memory → Route → (free : List Ptr) → Machine → (a : ℕ) → Type 0
IsUsed mem r free m a =
    All
      (λ b.
        IsClear (frame_at m.dev (to_dram r) (m.page b).devdax_offset) page_size
          (mem.backing m.trace a))
      free

-- What one round leaves, for a page `p` and a free frame `q`.
module _ {mem : Memory} (r : Route) {m m' : Machine} {qs : Queues} (inv : Inv m qs) (p q : Ptr)
    (zs ys : List Ptr) (e : qs (queue_of r) ≡ zs ++ p ∷ [])
    (d : qs (free_of (to_dram r)) ≡ ys ++ q ∷ [])
    (h : Moved r p q (after_round r p q zs ys qs) m m') (k : Preserved mem r p q m m')
    (track : Tracked mem r (zs ++ p ∷ []) (ys ++ q ∷ []) m) where
  offsets_same : All (λ b. (m'.page b).devdax_offset ≡ (m.page b).devdax_offset) ys
  offsets_same = All-front _ ys (q ∷ []) (
      All-map (ys ++ q ∷ []) (λ b off. offset_after r inv p q zs ys e d h b off)
        (subst (All _) d (free_unused r inv)))

  still-Tracked : Tracked mem r zs ys m'
  still-Tracked =
      let waits = waiting_same r inv p q zs ys e d h in
      let pages = Spaced-snoc (λ b. (m.page b).va) zs p track.pages in
      let frames = Spaced-snoc (λ b. (m.page b).devdax_offset) ys q track.frames in
      let waiting : All
          (λ b. (unlinked (m'.page b) ≡ unlinked (m.page b)) × Backs mem m.trace m.dev (m.page b))
          zs =
        All-map₂ zs (λ b same before. (same, before)) waits
          (All-front _ zs (p ∷ []) track.backed) in
      record {
        backed =
            All-map₂ zs (λ b known apart. Backs-kept b k h.same_dev known.0 apart known.1) waiting
              pages.1;
        pages =
            Spaced-same (λ b. (m.page b).va) (λ b. (m'.page b).va) zs
              (All-map zs (λ b same. ap (λ v. v.va) same) waits) pages.0;
        frames =
            Spaced-same (λ b. (m.page b).devdax_offset) (λ b. (m'.page b).devdax_offset) ys
              offsets_same frames.0;
      }

  reads_same :
      (a : ℕ)
      → IsUsed mem r (ys ++ q ∷ []) m a
      → (reads mem m'.trace a ≡ reads mem m.trace a) × IsUsed mem r ys m' a
  reads_same a used = elim (in_page (m.page p).va a) [
    | inl clear ↦ (
      k.others a clear (All-back _ ys (q ∷ []) used).0,
      All-map₂ ys
          (λ b (same : (m'.page b).devdax_offset ≡ (m.page b).devdax_offset)
              (away : IsClear (frame_at m.dev (to_dram r) (m.page b).devdax_offset) page_size
                (mem.backing m.trace a)).
            rw (h.same_dev, same, k.same_backing a clear) away)
          offsets_same (All-front _ ys (q ∷ []) used),
    )
    | inr (i, low, at) ↦ (
      rw at (k.page i low),
      All-map₂ ys
          (λ b (same : (m'.page b).devdax_offset ≡ (m.page b).devdax_offset)
              (apart : AreApart (m.page b).devdax_offset (m.page q).devdax_offset page_size).
            rw (at, k.moved_to i low, h.same_dev, same)
              (frame-IsClear (base_of m.dev (to_dram r)) (m.page b).devdax_offset
                (m.page q).devdax_offset i low apart))
          offsets_same (Spaced-snoc (λ b. (m.page b).devdax_offset) ys q track.frames).1,
    )
  ]

-- What the rounds keep, with regard to the state `m₀` at their start and its free frames `free`.
record Seen (mem : Memory) (r : Route) (m₀ : Machine) (free : List Ptr) (qs : Queues) (m : Machine)
    : Type 0 where
  movable : Movable r qs m
  track : Tracked mem r (qs (queue_of r)) (qs (free_of (to_dram r))) m
  same_dev : m.dev ≡ m₀.dev
  same :
      (a : ℕ)
      → IsUsed mem r free m₀ a
      → (reads mem m.trace a ≡ reads mem m₀.trace a) × IsUsed mem r (qs (free_of (to_dram r))) m a

module _ (mem : Memory) (r : Route) (crosses : ¬ (from_dram r ≡ to_dram r)) (m₀ : Machine)
    (free : List Ptr) (laws : Behaves m₀.dev mem) (wide : IsWithin m₀.dev)
    (separate : AreSeparate m₀.dev) where
  Seen-step :
      (m m' : Machine) (qs : Queues) (p q : Ptr) (zs ys : List Ptr)
      → Inv m qs
      → qs (queue_of r) ≡ zs ++ p ∷ []
      → qs (free_of (to_dram r)) ≡ ys ++ q ∷ []
      → Seen mem r m₀ free qs m
      → Moved r p q (after_round r p q zs ys qs) m m'
      → Seen mem r m₀ free (after_round r p q zs ys qs) m'
  Seen-step m m' qs p q zs ys inv e d k h =
      let kept = Movable-Kept r in
      let ready = kept.ready m qs p q zs ys inv e d k.movable in
      let tracked : Tracked mem r (zs ++ p ∷ []) (ys ++ q ∷ []) m = rw (e, d) at k.track in
      let backed = (All-back _ zs (p ∷ []) tracked.backed).0 in
      let apart =
        frames-AreApart r m.dev (m.page p) (m.page q).devdax_offset crosses (rw k.same_dev separate)
          ready in
      let held = Moved-Preserved (rw k.same_dev laws) (rw k.same_dev wide) h ready backed apart in
      let rest = after-queue p q zs ys qs r in
      let left = after-free p q zs ys qs r ∙ left_free-crosses r q ys crosses in
      record {
        movable = kept.step m m' qs p q zs ys inv e d k.movable h;
        track = rw (rest, left) (still-Tracked r inv p q zs ys e d h held tracked);
        same_dev = h.same_dev ∙ k.same_dev;
        same = λ a used.
            let before = k.same a used in
            let one = reads_same r inv p q zs ys e d h held tracked a (rw d at before.1) in
            (one.0 ∙ before.0, rw left one.1);
      }

  Seen-Kept : Kept r (Seen mem r m₀ free)
  Seen-Kept = record {
    ready = λ m qs p q zs ys inv e d k.
        let kept = Movable-Kept r in kept.ready m qs p q zs ys inv e d k.movable;
    step = Seen-step;
  }

module _ (mem : Memory) (os : Os) (g : Grants os) (r : Route)
    (crosses : ¬ (from_dram r ≡ to_dram r)) where
  -- With the fuel, pages and free frames for the loop of a queue between the tiers to end, under a
  -- kernel that grants the requests and copies and maps as documented, with the two devices mapped
  -- apart and below the end of the address space: if the application has the queue's pages where
  -- their descriptors say, no two pages meet and no two of the new tier's free frames do, then the
  -- loop returns, and the application reads the same byte as before at every address whose byte is in
  -- none of those free frames.
  pub migrate_queue-transparent :
      (fuel : ℕ) {m : Machine} {qs : Queues}
      → Behaves m.dev mem
      → IsWithin m.dev
      → AreSeparate m.dev
      → Inv m qs
      → Counted m qs
      → length (qs (queue_of r)) < fuel
      → length (qs (queue_of r)) ≤ length (qs (free_of (to_dram r)))
      → All (λ a. IsMovable r (m.page a)) (qs (queue_of r))
      → All (λ a. IsFrame r (m.page a)) (qs (free_of (to_dram r)))
      → Tracked mem r (qs (queue_of r)) (qs (free_of (to_dram r))) m
      → Yields
          (λ _ m'.
            (a : ℕ)
            → IsUsed mem r (qs (free_of (to_dram r))) m a
            → reads mem m'.trace a ≡ reads mem m.trace a)
          (migrate_queue os r fuel m)
  migrate_queue-transparent fuel {m} {qs} laws wide separate inv counted fueled spare movable frames
        track =
      Yields.weaken
        (migrate_queue-Kept os g r (Seen mem r m (qs (free_of (to_dram r))))
          (Seen-Kept mem r crosses m (qs (free_of (to_dram r))) laws wide separate) fuel inv counted
          fueled spare
          (record {
            movable = (movable, frames);
            track = track;
            same_dev = refl;
            same = λ a used. (refl, used);
          }))
        λ _ m' t a used. (t.1.same a used).0
