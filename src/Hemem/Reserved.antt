-- ===== src/Hemem/Reserved.antt =====
-- What `hemem_mmap` does: its rounding, its flags, and a mapping with and without MAP_POPULATE.
use dma_migration_test.Base.{
  ℕ, ◌+◌, ◌-◌, ◌*◌, ◌/◌, ◌%◌, ◌≡◌, ◌∙◌, ◌<◌, ◌≤◌, inl, inr, refl, ap, true, false, not, ◌∷◌, arith,
  if◌then◌else◌, u64_mod, add64, eqb_ne, huge_mask, Bool-cases,
}
use dma_migration_test.Base.{length as list_length}
use dma_migration_test.Machine.{
  null, ok, Machine, MapFlags, Event, HashTable, Os, page_size, dram_free_list, nvm_free_list, mmap,
  requested, assert, when, set_internal_call, pure, ◌>>◌,
}
use dma_migration_test.Machine.Rules
use dma_migration_test.Machine.Update.{when-true, when-false}
use dma_migration_test.Machine.Yields
use dma_migration_test.Machine.Yields.{Yields, yields}
use dma_migration_test.Fifo.Repr.{Queues, unlinked}
use dma_migration_test.Hemem.Calls.{libc_mmap}
use dma_migration_test.Hemem.Fit.{AllFit}
use dma_migration_test.Hemem.Granted.{Grants, register_range-ok, granted}
use dma_migration_test.Hemem.Pages.{FindsByKey}
use dma_migration_test.Hemem.Faults.{hemem_mmap_populate}
use dma_migration_test.Hemem.Mapping.{Populates, hemem_mmap_populate-Populates}
use dma_migration_test.Hemem.Mmap.{page_base, page_round_up, devdax_flags, ask_cr3, hemem_mmap}
use dma_migration_test.Pebs.Invariant.{Inv, Inv-frame, Counted}

-- The multiple of 2 MB at or below a 64-bit number.
pub page_base-div : (x : ℕ) → x < u64_mod → page_base x ≡ x / page_size * page_size
unfolding page_base
page_base-div x h = huge_mask x h

-- PAGE_ROUND_UP of a length up to 2^64 less one huge page is the least multiple of the huge page
-- size that is not below it; for any longer one the sum wraps around and it is 0.
pub page_round_up-bounds :
    (x : ℕ)
    → x < u64_mod
    → (x ≤ u64_mod - page_size
        → (x ≤ page_round_up x)
          × (page_round_up x < x + page_size)
          × (page_round_up x % page_size ≡ 0))
      × (u64_mod - page_size < x → page_round_up x ≡ 0)
unfolding page_round_up
page_round_up-bounds x h =
    let base = page_base-div (add64 x (page_size - 1)) (omega arith) in
    (
      λ low. (omega (arith, base), omega (arith, base), omega (arith, base)),
      λ high. omega (arith, base),
    )

-- The reserving mapping is never private, anonymous or of huge pages by flag; it is shared where the
-- application's was shared or private, and the other flags are the application's.
pub devdax_flags-bits :
    (flags : MapFlags)
    → ((devdax_flags flags).map_private ≡ false)
      × ((devdax_flags flags).map_anonymous ≡ false)
      × ((devdax_flags flags).map_hugetlb ≡ false)
      × ((devdax_flags flags).map_shared ≡ (if flags.map_private then true else flags.map_shared))
      × ((devdax_flags flags).map_populate ≡ flags.map_populate)
      × ((devdax_flags flags).map_stack ≡ flags.map_stack)
      × ((devdax_flags flags).others ≡ flags.others)
unfolding devdax_flags
devdax_flags-bits flags = ground arith

-- Lists, descriptors, counters and the table are as they were.
pub record SameState (m m' : Machine) : Type 0 where
  pub page : m'.page ≡ m.page
  pub fifo : m'.fifo ≡ m.fifo
  pub num : m'.num ≡ m.num
  pub pages : m'.pages ≡ m.pages

module _ (os : Os) (g : Grants os) where
  ask_cr3-SameState :
      (m : Machine) → Yields (λ _ m'. SameState m m' × (m'.cr3_set ≡ true)) (ask_cr3 os m)
  unfolding ask_cr3
  ask_cr3-SameState m = elim (Bool-cases m.cr3_set) [
    | inl set ↦
        rw (when-false (not m.cr3_set) _ m (ap not set))
          (yields (record { page = refl; fifo = refl; num = refl; pages = refl }, set))
    | inr unset ↦ rw (when-true (not m.cr3_set) _ m (ap not unset)) (
        granted g _ _ _
          (yields (record { page = refl; fifo = refl; num = refl; pages = refl }, refl)))
  ]

-- The request that reserves the range, and the kernel's answer to it: an address.
abbrev pub reserving : (addr length prot : ℕ) → MapFlags → (offset : ℕ) → Machine → Event
reserving addr length prot flags offset m =
    mmap addr (page_round_up length) (requested prot (devdax_flags flags)) m.dev.dramfd offset

pub record Reserves (os : Os) (m : Machine) (e : Event) (va : ℕ) : Type 0 where
  pub answer : os.mmap_result m.trace e ≡ va
  pub some : ¬ (va ≡ 0)
  pub succeeds : ¬ (va ≡ os.map_failed)

pub libc_mmap-ok :
    (os : Os) (m : Machine) (e : Event) (va : ℕ)
    → os.mmap_result m.trace e ≡ va
    → ¬ (va ≡ os.map_failed)
    → libc_mmap os e m ≡ ok va (record m { trace = e ∷ m.trace })
unfolding libc_mmap assert
libc_mmap-ok os m e va answer succeeds = rw (answer, eqb_ne va os.map_failed succeeds) refl

module _ (os : Os) (g : Grants os) (table : HashTable) (fuel addr length prot : ℕ)
    (flags : MapFlags) (fd offset va : ℕ) {m : Machine} where
  -- The part of `hemem_mmap` before the pages are populated.
  reserve-then :
      {Q : ℕ → Machine → Type 0}
      → m.is_init ≡ true
      → ¬ (length ≡ 0)
      → Reserves os m (reserving addr length prot flags offset m) va
      → ((m₁ : Machine)
          → SameState m m₁
          → Yields Q (
              (when
                    (devdax_flags flags).map_populate
                    (hemem_mmap_populate os table fuel va (page_round_up length))
                  >> (set_internal_call false >> pure va))
                m₁))
      → Yields Q (hemem_mmap os table fuel addr length prot flags fd offset m)
  unfolding hemem_mmap set_internal_call
  reserve-then init some_bytes r rest = Rules.assert-then _ _ _ init (
      Rules.assert-then _ _ _ (rw (eqb_ne length 0 some_bytes) refl) (
        rw (libc_mmap-ok os (record m { internal_call = true }) _ va r.answer r.succeeds) (
          (Rules.assert-then _ _ _ (rw (eqb_ne va 0 r.some) refl) (
            rw (register_range-ok g _ va (page_round_up length)) (
              Yields.bind (ask_cr3-SameState os g _) λ _ m₁ (same, _). rest m₁ (record {
                page = same.page;
                fifo = same.fifo;
                num = same.num;
                pages = same.pages;
              })))))))

  -- `hemem_mmap` without MAP_POPULATE, once the manager is initialised, for a length that is not 0,
  -- under a kernel that grants the requests: it returns the address of the reserved range and
  -- changes no list, descriptor, counter or entry of the table.
  pub hemem_mmap-SameState :
      m.is_init ≡ true
      → ¬ (length ≡ 0)
      → Reserves os m (reserving addr length prot flags offset m) va
      → flags.map_populate ≡ false
      → Yields
          (λ p m'. (p ≡ va) × SameState m m' × (m'.internal_call ≡ false))
          (hemem_mmap os table fuel addr length prot flags fd offset m)
  unfolding set_internal_call
  hemem_mmap-SameState init some_bytes r lazy = reserve-then init some_bytes r λ m₁ same.
      rw
        (when-false _ (hemem_mmap_populate os table fuel va (page_round_up length)) m₁
          ((devdax_flags-bits flags).4 ∙ lazy))
        (yields (
          refl,
          record { page = same.page; fifo = same.fifo; num = same.num; pages = same.pages },
          refl,
        ))

  -- `hemem_mmap` with MAP_POPULATE of a length that rounds up to `k` huge pages, once the manager is
  -- initialised, with descriptors that fit, a table that finds by keys and has none of the pages'
  -- addresses, and a kernel that grants the requests and answers with an aligned address that is not
  -- 0: with `k` frames free and fuel for `k` rounds and one more it returns that address. `k` frames,
  -- those of DRAM first, went from the free to the mapped lists. Each page address is in the table,
  -- with a huge page in use there, and other addresses are found as before. Pages that were in use
  -- keep their content, the descriptors fit still, and the invariant and the counters are kept.
  pub hemem_mmap-Populates :
      (keys : FindsByKey table) (k : ℕ) {qs : Queues}
      → m.is_init ≡ true
      → ¬ (length ≡ 0)
      → Reserves os m (reserving addr length prot flags offset m) va
      → flags.map_populate ≡ true
      → page_round_up length ≡ k * page_size
      → ¬ (k ≡ 0)
      → k < fuel
      → va % page_size ≡ 0
      → va + k * page_size < u64_mod
      → Inv m qs
      → Counted m qs
      → AllFit m qs
      → k ≤ list_length (qs dram_free_list) + list_length (qs nvm_free_list)
      → ((j : ℕ) → j < k → table.find m.pages (va + j * page_size) ≡ null)
      → Yields
          (λ p m'. (p ≡ va) × Populates table va k qs m m' × (m'.internal_call ≡ false))
          (hemem_mmap os table fuel addr length prot flags fd offset m)
  unfolding set_internal_call
  hemem_mmap-Populates keys k {qs} init some_bytes r now size some fueled aligned below inv counted
        fit spare fresh =
      reserve-then init some_bytes r λ m₁ same.
        rw
          (
            when-true _ (hemem_mmap_populate os table fuel va (page_round_up length)) m₁
                ((devdax_flags-bits flags).4 ∙ now),
            size,
          )
          (Yields.bind
            (hemem_mmap_populate-Populates os g table keys k fuel va fueled some below r.some
              aligned (Inv-frame same.page same.fifo inv) (rw same.num counted) (rw same.page fit)
              spare (rw same.pages fresh))
            λ _ m₂ t. yields (
              refl,
              record {
                queues = t.queues;
                inv = Inv-frame refl refl t.inv;
                counted = t.counted;
                fit = t.fit;
                frames = t.frames;
                found = t.found;
                found_other = λ a out. t.found_other a out ∙ ap (λ l. table.find l a) same.pages;
                own = t.own;
                kept = λ a used.
                    t.kept a (ap (λ f. (f a).present) same.page ∙ used)
                    ∙ ap (λ f. unlinked (f a)) same.page;
                grown = t.grown;
                joined = t.joined;
              },
              refl,
            ))
