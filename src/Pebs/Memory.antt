-- ===== src/Pebs/Memory.antt =====
-- What the kernel's calls do to the bytes of the devices and to the application's mappings, as a
-- parameter: the calls are known by their log, the latest first.
use dma_migration_test.Base.{ℕ, ◌+◌, ◌≡◌, ◌≤◌, ◌<◌, ◌⊎◌, Bool, List, [], ◌∷◌, u64_mod}
use dma_migration_test.Machine.{
  HememPage, Devices, Event, Copy, mmap, populate_fixed, uffd_register, uffd_writeprotect,
  uffd_dma_copy, page_size,
}
use dma_migration_test.Hemem.Calls.{size_of, base_of, fd_of}

-- `cell` is the byte at an address of the manager's own mappings of the devices. `backing` is the
-- address there of the byte that the application has at an address.
pub record Memory : Type 0 where
  pub cell : List Event → ℕ → ℕ
  pub backing : List Event → ℕ → ℕ

abbrev pub reads : Memory → List Event → ℕ → ℕ
reads mem t a = mem.cell t (mem.backing t a)

-- Address `a` is not among the `len` addresses from `start` on.
abbrev pub IsClear : (start len a : ℕ) → Type 0
IsClear start len a = (a < start) ⊎ (start + len ≤ a)

-- Two ranges of `len` addresses that do not meet.
abbrev pub AreApart : (start other len : ℕ) → Type 0
AreApart start other len = (start + len ≤ other) ⊎ (other + len ≤ start)

-- What is documented of the calls. A copy writes its target from its source, if they do not meet. A
-- fixed, shared mapping of a device replaces what was mapped in its range. Registration and write
-- protection move nothing. Nothing else writes meanwhile: the pages of a migration are write-protected.
pub record Behaves (dev : Devices) (mem : Memory) : Type 0 where
  pub copied :
      (t : List Event) (c : Copy) (i : ℕ)
      → i < c.len
      → AreApart c.src c.dst c.len
      → mem.cell (uffd_dma_copy (c ∷ []) ∷ t) (c.dst + i) ≡ mem.cell t (c.src + i)
  pub copied_other :
      (t : List Event) (c : Copy) (a : ℕ)
      → IsClear c.dst c.len a
      → mem.cell (uffd_dma_copy (c ∷ []) ∷ t) a ≡ mem.cell t a
  pub copied_backing :
      (t : List Event) (cs : List Copy) (a : ℕ)
      → mem.backing (uffd_dma_copy cs ∷ t) a ≡ mem.backing t a
  pub mapped :
      (t : List Event) (va len offset i : ℕ) (in_dram : Bool)
      → i < len
      → mem.backing (mmap va len populate_fixed (fd_of dev in_dram) offset ∷ t) (va + i)
        ≡ base_of dev in_dram + offset + i
  pub mapped_other :
      (t : List Event) (va len fd offset a : ℕ)
      → IsClear va len a
      → mem.backing (mmap va len populate_fixed fd offset ∷ t) a ≡ mem.backing t a
  pub mapped_cell :
      (t : List Event) (va len fd offset a : ℕ)
      → mem.cell (mmap va len populate_fixed fd offset ∷ t) a ≡ mem.cell t a
  pub registered :
      (t : List Event) (start len a : ℕ)
      → (mem.cell (uffd_register start len ∷ t) a ≡ mem.cell t a)
        × (mem.backing (uffd_register start len ∷ t) a ≡ mem.backing t a)
  pub protected :
      (t : List Event) (start len a : ℕ) (protect : Bool)
      → (mem.cell (uffd_writeprotect start len protect ∷ t) a ≡ mem.cell t a)
        × (mem.backing (uffd_writeprotect start len protect ∷ t) a ≡ mem.backing t a)

-- The devices are mapped below the end of the address space.
abbrev pub IsWithin : Devices → Type 0
IsWithin dev = (in_dram : Bool) → base_of dev in_dram + size_of in_dram ≤ u64_mod

-- Where a frame begins.
abbrev pub frame_at : Devices → (in_dram : Bool) (offset : ℕ) → ℕ
frame_at dev in_dram offset = base_of dev in_dram + offset

-- The application has a page where its descriptor says.
abbrev pub Backs : Memory → List Event → Devices → HememPage → Type 0
Backs mem t dev p =
    (i : ℕ) → i < page_size → mem.backing t (p.va + i) ≡ frame_at dev p.in_dram p.devdax_offset + i
