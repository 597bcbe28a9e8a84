-- ===== src/Tests/Bytes.antt =====
-- A memory that does what the calls say, and the migrations at concrete inputs that it sees.
use dma_migration_test.Base.{
  ℕ, ◌+◌, ◌-◌, ◌*◌, ◌≡◌, ◌<◌, inl, inr, refl, Bool, true, false, List, [], ◌∷◌, ◌==◌, if◌then◌else◌,
  ltb, arith,
}
use dma_migration_test.Machine.{Event, mmap, populate_fixed, uffd_dma_copy, page_size}
use dma_migration_test.Machine.Yields.{Yields}
use dma_migration_test.Hemem.Calls.{fd_of, base_of}
use dma_migration_test.Pebs.Memory.{Memory, Behaves, IsWithin, IsClear, reads}
use dma_migration_test.Pebs.Migration.{migrate_round, migrate_queue}
use dma_migration_test.Pebs.Preserved.{Preserved, migrate_round-Preserved}
use dma_migration_test.Pebs.Transparent.{IsUsed, migrate_queue-transparent}
use dma_migration_test.Pebs.Route.{dram_to_nvm}
use dma_migration_test.Pebs.Touched.{IsReady}
use dma_migration_test.Tests.Sample.{sample, sample-Inv, sample-Counted, granting, granting-Grants}

-- A range of addresses is moved, and the others stay.
abbrev replaced : (start len other a old : ℕ) → ℕ
replaced start len other a old =
    if ltb a start then old else if ltb a (start + len) then other + (a - start) else old

replaced-in :
    (start len other i old : ℕ) → i < len → replaced start len other (start + i) old ≡ other + i
replaced-in start len other i old low = ground arith

replaced-out :
    (start len other a old : ℕ) → IsClear start len a → replaced start len other a old ≡ old
replaced-out start len other a old (inl low) = ground arith
replaced-out start len other a old (inr high) = ground arith

-- At first the bytes are told apart by their addresses, and frame `n` of the DRAM is at the page
-- address `n + 1`.
abbrev plain_cell : List Event → ℕ → ℕ
plain_cell [] a = a
plain_cell (uffd_dma_copy (c ∷ []) ∷ t) a = plain_cell t (replaced c.dst c.len c.src a a)
plain_cell (_ ∷ t) a = plain_cell t a

abbrev base_of_fd : ℕ → ℕ
base_of_fd fd = if fd == 3 then 1000 * page_size else 20000 * page_size

abbrev plain_backing : List Event → ℕ → ℕ
plain_backing [] a = 999 * page_size + a
plain_backing (mmap va len populate_fixed fd offset ∷ t) a =
    replaced va len (base_of_fd fd + offset) a (plain_backing t a)
plain_backing (_ ∷ t) a = plain_backing t a

abbrev pub plain : Memory
plain = record { cell = plain_cell; backing = plain_backing }

pub plain-Behaves : Behaves sample.dev plain
plain-Behaves = record {
  copied = λ t c i low apart. rw (replaced-in c.dst c.len c.src i (c.dst + i) low) refl;
  copied_other = λ t c a clear. rw (replaced-out c.dst c.len c.src a a clear) refl;
  copied_backing = λ t cs a. refl;
  mapped = mapped_plain;
  mapped_other =
      λ t va len fd offset a clear. replaced-out va len (base_of_fd fd + offset) a _ clear;
  mapped_cell = λ t va len fd offset a. refl;
  registered = λ t start len a. (refl, refl);
  protected = λ t start len a protect. (refl, refl);
}
  where
    mapped_plain :
        (t : List Event) (va len offset i : ℕ) (in_dram : Bool)
        → i < len
        → plain_backing (mmap va len populate_fixed (fd_of sample.dev in_dram) offset ∷ t) (va + i)
          ≡ base_of sample.dev in_dram + offset + i
    mapped_plain t va len offset i true low = replaced-in va len _ i _ low
    mapped_plain t va len offset i false low = replaced-in va len _ i _ low

pub sample-IsWithin : IsWithin sample.dev
sample-IsWithin true = omega arith
sample-IsWithin false = omega arith

sample-IsReady : IsReady dram_to_nvm (sample.page 3) 0
sample-IsReady = record {
  huge = refl;
  mapped = λ e. omega arith;
  aligned = refl;
  tier = refl;
  old_fits = omega arith;
  new_fits = omega arith;
}

migrate_round-Preserved_example :
    Yields
      (λ _. Preserved plain dram_to_nvm 3 2 sample)
      (migrate_round granting dram_to_nvm 1 sample)
migrate_round-Preserved_example =
    migrate_round-Preserved plain granting granting-Grants dram_to_nvm 3 2 [] [] plain-Behaves
      sample-IsWithin sample-Inv sample-Counted refl refl sample-IsReady (λ i low. omega arith)
      (inl (omega arith))

migrate_queue-transparent_example :
    Yields
      (λ _ m'.
        (a : ℕ)
        → IsUsed plain dram_to_nvm (2 ∷ []) sample a
        → reads plain m'.trace a ≡ reads plain sample.trace a)
      (migrate_queue granting dram_to_nvm 2 sample)
migrate_queue-transparent_example =
    migrate_queue-transparent plain granting granting-Grants dram_to_nvm (λ e. cc) 2 plain-Behaves
      sample-IsWithin (inl (omega arith)) sample-Inv sample-Counted (omega arith) (omega arith)
      (record { huge = refl; mapped = λ e. omega arith; aligned = refl; fits = omega arith }, tt)
      (omega arith, tt)
      (record { backed = ((λ i low. omega arith), tt); pages = (tt, tt); frames = (tt, tt) })
