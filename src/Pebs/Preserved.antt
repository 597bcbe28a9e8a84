-- ===== src/Pebs/Preserved.antt =====
-- A round of the migration thread keeps what the application reads.
use dma_migration_test.Base.{
  ℕ, ◌+◌, ◌%◌, ◌≡◌, ◌<◌, ◌∙◌, inl, inr, ap, sym, refl, true, List, [], ◌∷◌, ◌++◌, u64_mod, arith,
}
use dma_migration_test.Machine.{
  Ptr, HememPage, Machine, Os, Devices, Event, Copy, uffd_writeprotect, uffd_dma_copy, page_size,
}
use dma_migration_test.Machine.Yields
use dma_migration_test.Machine.Yields.{Yields}
use dma_migration_test.Fifo.Repr.{Queues, unlinked}
use dma_migration_test.Hemem.Calls.{base_of, fd_of}
use dma_migration_test.Hemem.Granted.{Grants}
use dma_migration_test.Pebs.Invariant.{Inv, Counted}
use dma_migration_test.Pebs.Memory.{
  Memory, Behaves, IsWithin, IsClear, AreApart, Backs, reads, frame_at,
}
use dma_migration_test.Pebs.Migration.{migrate_round}
use dma_migration_test.Pebs.Remapped.{calls_of, moved_page}
use dma_migration_test.Pebs.Rounds.{Moved, migrate_round-Moved}
use dma_migration_test.Pebs.Route.{
  Route, dram_to_dram, dram_to_nvm, nvm_to_dram, nvm_to_nvm, from_dram, to_dram, queue_of, free_of,
}
use dma_migration_test.Pebs.Touched.{IsReady}

-- The calls of one migration, of the page `v` to the frame at `offset`.
module _ {dev : Devices} {mem : Memory} (laws : Behaves dev mem) (wide : IsWithin dev) (r : Route)
    (v : HememPage) (offset : ℕ) (ready : IsReady r v offset) (t : List Event) where
  abbrev old_frame : ℕ
  old_frame = frame_at dev (from_dram r) v.devdax_offset

  abbrev new_frame : ℕ
  new_frame = frame_at dev (to_dram r) offset

  abbrev copy : Copy
  copy = record { src = old_frame; dst = new_frame; len = page_size }

  copy-entry :
      record {
        src = (base_of dev (from_dram r) + v.devdax_offset) % u64_mod;
        dst = (base_of dev (to_dram r) + offset) % u64_mod;
        len = page_size;
      }
      ≡ copy
  copy-entry =
      let from : (base_of dev (from_dram r) + v.devdax_offset) % u64_mod ≡ old_frame =
        omega (arith, wide (from_dram r), ready.old_fits) in
      let to : (base_of dev (to_dram r) + offset) % u64_mod ≡ new_frame =
        omega (arith, wide (to_dram r), ready.new_fits) in
      λ i. record { src = from i; dst = to i; len = page_size }

  abbrev copied_log : List Event
  copied_log = uffd_dma_copy (copy ∷ []) ∷ uffd_writeprotect v.va page_size true ∷ t

  -- The calls behind the copy change no byte, and those around the mapping no mapping.
  cell-calls : (a : ℕ) → mem.cell (calls_of r dev v offset t) a ≡ mem.cell copied_log a
  cell-calls a =
      (laws.registered _ v.va page_size a).0
      ∙ laws.mapped_cell _ v.va page_size (fd_of dev (to_dram r)) offset a
      ∙ ap (λ c. mem.cell (uffd_dma_copy (c ∷ []) ∷ uffd_writeprotect v.va page_size true ∷ t) a)
          copy-entry

  backing-page :
      (i : ℕ) → i < page_size → mem.backing (calls_of r dev v offset t) (v.va + i) ≡ new_frame + i
  backing-page i low =
      (laws.registered _ v.va page_size (v.va + i)).1
      ∙ laws.mapped _ v.va page_size offset i (to_dram r) low

  backing-other :
      (a : ℕ)
      → IsClear v.va page_size a
      → mem.backing (calls_of r dev v offset t) a ≡ mem.backing t a
  backing-other a clear =
      (laws.registered _ v.va page_size a).1
      ∙ laws.mapped_other _ v.va page_size (fd_of dev (to_dram r)) offset a clear
      ∙ laws.copied_backing _ _ a
      ∙ (laws.protected t v.va page_size a true).1

  reads-page :
      Backs mem t dev v
      → AreApart old_frame new_frame page_size
      → (i : ℕ) → i < page_size
      → reads mem (calls_of r dev v offset t) (v.va + i) ≡ reads mem t (v.va + i)
  reads-page backed apart i low =
      ap (mem.cell (calls_of r dev v offset t)) (backing-page i low)
      ∙ cell-calls (new_frame + i)
      ∙ laws.copied (uffd_writeprotect v.va page_size true ∷ t) copy i low apart
      ∙ (laws.protected t v.va page_size (old_frame + i) true).0
      ∙ ap (mem.cell t)
          (ap (λ b. frame_at dev b v.devdax_offset + i) (sym ready.tier) ∙ sym (backed i low))

  reads-other :
      (a : ℕ)
      → IsClear v.va page_size a
      → IsClear new_frame page_size (mem.backing t a)
      → reads mem (calls_of r dev v offset t) a ≡ reads mem t a
  reads-other a clear elsewhere =
      ap (mem.cell (calls_of r dev v offset t)) (backing-other a clear)
      ∙ cell-calls (mem.backing t a)
      ∙ laws.copied_other (uffd_writeprotect v.va page_size true ∷ t) copy (mem.backing t a)
          elsewhere
      ∙ (laws.protected t v.va page_size (mem.backing t a) true).0

moved_page-va : (r : Route) (v : HememPage) (offset : ℕ) → (moved_page r v offset).va ≡ v.va
moved_page-va dram_to_dram v offset = refl
moved_page-va dram_to_nvm v offset = refl
moved_page-va nvm_to_dram v offset = refl
moved_page-va nvm_to_nvm v offset = refl

-- What the application reads after the move of page `p` to the frame of `q`.
pub record Preserved (mem : Memory) (r : Route) (p q : Ptr) (m m' : Machine) : Type 0 where
  pub page :
      (i : ℕ)
      → i < page_size
      → reads mem m'.trace ((m.page p).va + i) ≡ reads mem m.trace ((m.page p).va + i)
  pub backed : Backs mem m'.trace m.dev (m'.page p)
  -- Where the bytes are now.
  pub moved_to :
      (i : ℕ)
      → i < page_size
      → mem.backing m'.trace ((m.page p).va + i)
        ≡ frame_at m.dev (to_dram r) (m.page q).devdax_offset + i
  pub same_backing :
      (a : ℕ) → IsClear (m.page p).va page_size a → mem.backing m'.trace a ≡ mem.backing m.trace a
  pub others :
      (a : ℕ)
      → IsClear (m.page p).va page_size a
      → IsClear
          (frame_at m.dev (to_dram r) (m.page q).devdax_offset)
          page_size
          (mem.backing m.trace a)
      → reads mem m'.trace a ≡ reads mem m.trace a

module _ {mem : Memory} {r : Route} {p q : Ptr} {m m' : Machine} where
  pub Moved-Preserved :
      {rest : Queues}
      → Behaves m.dev mem
      → IsWithin m.dev
      → Moved r p q rest m m'
      → IsReady r (m.page p) (m.page q).devdax_offset
      → Backs mem m.trace m.dev (m.page p)
      → AreApart
          (frame_at m.dev (from_dram r) (m.page p).devdax_offset)
          (frame_at m.dev (to_dram r) (m.page q).devdax_offset)
          page_size
      → Preserved mem r p q m m'
  Moved-Preserved laws wide h ready backed apart =
      let v = m.page p in
      let offset = (m.page q).devdax_offset in
      rw h.calls (record {
        page = reads-page laws wide r v offset ready m.trace backed apart;
        backed = λ i low.
            ap (λ a. mem.backing (calls_of r m.dev v offset m.trace) (a + i))
              (ap (λ u. u.va) h.page ∙ moved_page-va r v offset)
            ∙ backing-page laws wide r v offset ready m.trace i low
            ∙ (λ j. frame_at m.dev (sym h.page j).in_dram (sym h.page j).devdax_offset + i);
        moved_to = backing-page laws wide r v offset ready m.trace;
        same_backing = backing-other laws wide r v offset ready m.trace;
        others = reads-other laws wide r v offset ready m.trace;
      })

pub apart-IsClear :
    (x y i : ℕ) → i < page_size → AreApart x y page_size → IsClear y page_size (x + i)
apart-IsClear x y i low (inl h) = inl (omega arith)
apart-IsClear x y i low (inr h) = inr (omega arith)

-- Another page stays where its descriptor says.
pub Backs-kept :
    {mem : Memory} {r : Route} {p q : Ptr} {m m' : Machine} (b : Ptr)
    → Preserved mem r p q m m'
    → m'.dev ≡ m.dev
    → unlinked (m'.page b) ≡ unlinked (m.page b)
    → AreApart (m.page b).va (m.page p).va page_size
    → Backs mem m.trace m.dev (m.page b)
    → Backs mem m'.trace m'.dev (m'.page b)
Backs-kept {mem} {m} {m'} b k devs same apart before i low =
    ap (λ u. mem.backing m'.trace (u.va + i)) same
    ∙ k.same_backing ((m.page b).va + i) (apart-IsClear _ _ i low apart)
    ∙ before i low
    ∙ (λ j. frame_at (sym devs j) (sym same j).in_dram (sym same j).devdax_offset + i)

module _ (mem : Memory) (os : Os) (g : Grants os) (r : Route) (p q : Ptr) (xs ys : List Ptr)
    {m : Machine} {qs : Queues} where
  -- A round for the one oldest page of a queue whose move the code's assertions allow, under a
  -- kernel that grants the requests and copies and maps as documented, with the devices mapped
  -- below the end of the address space: if the application had the page at the frame that its
  -- descriptor names, and the new frame does not meet that one, then it reads the same bytes in the
  -- page as before and has the page at the frame that the descriptor names now, and each other
  -- address whose byte is not in the new frame reads as before.
  pub migrate_round-Preserved :
      Behaves m.dev mem
      → IsWithin m.dev
      → Inv m qs
      → Counted m qs
      → qs (queue_of r) ≡ xs ++ p ∷ []
      → qs (free_of (to_dram r)) ≡ ys ++ q ∷ []
      → IsReady r (m.page p) (m.page q).devdax_offset
      → Backs mem m.trace m.dev (m.page p)
      → AreApart
          (frame_at m.dev (from_dram r) (m.page p).devdax_offset)
          (frame_at m.dev (to_dram r) (m.page q).devdax_offset)
          page_size
      → Yields (λ _. Preserved mem r p q m) (migrate_round os r 1 m)
  migrate_round-Preserved laws wide inv counted e d ready backed apart =
      Yields.weaken (migrate_round-Moved os g r p q xs ys inv counted e d ready)
        λ _ m' h. Moved-Preserved laws wide h ready backed apart
