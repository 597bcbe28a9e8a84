-- ===== src/Hemem/Entered.antt =====
-- A frame that was free, mapped at an address and entered in the table.
use dma_migration_test.Base.{
  ℕ, ◌+◌, ◌%◌, ◌≡◌, ◌∙◌, refl, ap, sym, Bool, true, false, List, ◌∷◌, arith, eqb_ne, u64_mod,
  ℕ_discrete, subst, All, not, ◌==◌,
}
use dma_migration_test.Machine.{
  Ptr, null, HememPage, ok, Machine, Event, Devices, HashTable, hash_add, at_list, at_page,
  page_size, mmap, populate_fixed, uffd_register, assert, zero_fill, modify, Cmd, ◌>>◌,
}
use dma_migration_test.Machine.Rules
use dma_migration_test.Machine.Update.{load-ok, at_list_self, at_page-twice}
use dma_migration_test.Machine.Yields.{Yields}
use dma_migration_test.Fifo.Repr.{Queues, unlinked}
use dma_migration_test.Hemem.Calls.{base_of, fd_of}
use dma_migration_test.Hemem.Pages.{FindsByKey, find_page, add_page, table_step}
use dma_migration_test.Pebs.Allocated.{Allocated}
use dma_migration_test.Pebs.Invariant.{Inv, Inv-frame, IsPlaced}
use dma_migration_test.Pebs.Reshape.{SameShape, Inv-SameShape}
use dma_migration_test.Pebs.Hands.{tier_mapped}
use dma_migration_test.Pebs.Route.{free_of, mapped_of}
use dma_migration_test.Pebs.Settled.{put_in}

-- A page in use at address `va`, for a frame that was free.
abbrev pub served_page : (va : ℕ) → HememPage → HememPage
served_page va v = record v {
  va = va;
  present = true;
  migrating = false;
  migrations_up = 0;
  migrations_down = 0;
}

-- The calls that serve it, the latest first.
abbrev pub serving_calls :
    (va : ℕ) → Devices → (in_dram : Bool) (offset : ℕ) → List Event → List Event
serving_calls va dev in_dram offset t =
    uffd_register va page_size
    ∷ mmap va page_size populate_fixed (fd_of dev in_dram) offset
    ∷ zero_fill ((base_of dev in_dram + offset) % u64_mod) page_size
    ∷ t

-- The frame of `p`, from the tier `in_dram`, is mapped at `va`.
pub record Mapped (table : HashTable) (in_dram : Bool) (p : Ptr) (xs : List Ptr) (va : ℕ)
    (qs : Queues) (m m' : Machine) : Type 0 where
  pub inv : Inv m' (put_in (mapped_of in_dram) p (at_list qs (free_of in_dram) xs))
  pub page : unlinked (m'.page p) ≡ unlinked (served_page va (m.page p))
  pub others : (a : Ptr) → ¬ (a ≡ p) → unlinked (m'.page a) ≡ unlinked (m.page a)
  pub found : table.find m'.pages va ≡ p
  pub found_other : (k : ℕ) → ¬ (k ≡ va) → table.find m'.pages k ≡ table.find m.pages k
  pub same_dev : m'.dev ≡ m.dev
  pub calls : m'.trace ≡ serving_calls va m.dev in_dram (m.page p).devdax_offset m.trace

SameShape-write :
    {f g : Ptr → HememPage} (p : Ptr)
    → ((a : Ptr) → ¬ (a ≡ p) → g a ≡ f a)
    → SameShape (f p) (g p)
    → (a : Ptr) → SameShape (f a) (g a)
SameShape-write {f} {g} p other self a = elim (ℕ_discrete a p) [
  | yes e ↦ subst (λ b. SameShape (f b) (g b)) (sym e) self
  | no ne ↦
      let same = other a ne in
      record {
        next = ap (λ v. v.next) same;
        prev = ap (λ v. v.prev) same;
        list = ap (λ v. v.list) same;
        in_dram = ap (λ v. v.in_dram) same;
        present = ap (λ v. v.present) same;
      }
]

-- The address and the reset fields, as they are written.
abbrev pub reset_page : (va : ℕ) → HememPage → HememPage
reset_page va v = record v { va = va; migrating = false; migrations_up = 0; migrations_down = 0 }

SameShape-self : (va : ℕ) {v w : HememPage} → w ≡ reset_page va v → SameShape v w
SameShape-self va e = record {
  next = ap (λ v. v.next) e;
  prev = ap (λ v. v.prev) e;
  list = ap (λ v. v.list) e;
  in_dram = ap (λ v. v.in_dram) e;
  present = ap (λ v. v.present) e;
}

add_page-ok :
    (table : HashTable) (m : Machine) (p : Ptr) (va : ℕ)
    → ¬ (p ≡ null)
    → (m.page p).va ≡ va
    → table.find m.pages va ≡ null
    → add_page table p m ≡ ok tt (record m { pages = hash_add va p ∷ m.pages })
unfolding add_page find_page table_step assert
add_page-ok table m p va valid at_va fresh = rw (load-ok m valid, at_va, fresh) refl

-- The two writes to the descriptor.
abbrev with_va : (Ptr → HememPage) → Ptr → ℕ → Ptr → HememPage
with_va f p va = at_page f p (record (f p) { va = va })

abbrev pub as_reset : HememPage → HememPage
as_reset v = record v { migrating = false; migrations_up = 0; migrations_down = 0 }

abbrev pub written : (Ptr → HememPage) → Ptr → ℕ → Ptr → HememPage
written f p va = at_page (with_va f p va) p (as_reset (with_va f p va p))

written-other :
    (f : Ptr → HememPage) (p : Ptr) (va : ℕ) (a : Ptr) → ¬ (a ≡ p) → written f p va a ≡ f a
written-other f p va a ne = ground arith

-- The state behind the two writes and the entry in the table.
abbrev pub entered : Ptr → ℕ → Machine → Machine
entered p va m = record m { page = written m.page p va; pages = hash_add va p ∷ m.pages }

module _ (table : HashTable) (p : Ptr) (va : ℕ) {A : Type 0} {Q : A → Machine → Type 0} where
  -- How both callers end, up to what follows.
  pub enter-then :
      (m : Machine) (k : Cmd A)
      → ¬ (p ≡ null)
      → ¬ (va ≡ 0)
      → va % page_size ≡ 0
      → table.find m.pages va ≡ null
      → Yields Q (k (entered p va m))
      → Yields Q (
          (modify p (λ q. record q { va = va })
              >> (assert (not (va == 0))
                  >> (assert (va % page_size == 0)
                      >> (modify p as_reset >> (add_page table p >> k)))))
            m)
  enter-then m k valid some_va aligned fresh h = Rules.modify-then p _ _ _ valid (
      Rules.assert-then _ _ _ (rw (eqb_ne va 0 some_va) refl) (
        Rules.assert-then _ _ _ (rw aligned refl) (
          Rules.modify-then p _ _ _ valid (
            rw
              (add_page-ok table (record m { page = written m.page p va }) p va valid
                (ap (λ w. w.va) (at_page-twice m.page p (record (m.page p) { va = va }) as_reset))
                fresh)
              h))))

module _ {b : Bool} {p : Ptr} {xs : List Ptr} {qs : Queues} {m m₁ : Machine}
    (al : Allocated b p xs qs m m₁) where
  -- A page in use is on the mapped list of its tier.
  pub Allocated-side : (m₁.page p).in_dram ≡ b
  Allocated-side =
      let mapped =
        subst (All (IsPlaced m₁ (mapped_of b)))
          (at_list_self (at_list qs (free_of b) xs) (mapped_of b)
            (p ∷ at_list qs (free_of b) xs (mapped_of b)))
          (al.inv.placed (mapped_of b)) in
      mapped.0.0 ∙ tier_mapped b

  pub entered-Mapped :
      {table : HashTable} (keys : FindsByKey table) (va : ℕ) {m' : Machine}
      → m'.page ≡ written m₁.page p va
      → m'.fifo ≡ m₁.fifo
      → m'.pages ≡ hash_add va p ∷ m₁.pages
      → m'.dev ≡ m₁.dev
      → m'.trace ≡ serving_calls va m₁.dev (m₁.page p).in_dram (m₁.page p).devdax_offset m₁.trace
      → Mapped table b p xs va qs m m'
  entered-Mapped {table} keys va {m'} pages fifos entries devs log =
      let page₂ = written m₁.page p va in
      let self : page₂ p ≡ reset_page va (m₁.page p) =
        at_page-twice m₁.page p (record (m₁.page p) { va = va }) as_reset in
      let other = written-other m₁.page p va in
      record {
        inv = Inv-frame pages fifos (
            Inv-SameShape {m' = record m₁ { page = page₂ }}
              (SameShape-write p other (SameShape-self va self)) refl al.inv);
        page =
            ap (λ f. unlinked (f p)) pages
            ∙ ap (λ w. unlinked w) self
            ∙ ap (λ w. reset_page va w) al.page;
        others = λ a ne.
            ap (λ f. unlinked (f a)) pages ∙ ap (λ w. unlinked w) (other a ne) ∙ al.others a ne;
        found = ap (λ t. table.find t va) entries ∙ keys.added m₁.pages va p;
        found_other = λ k ne.
            ap (λ t. table.find t k) entries
            ∙ keys.added_other m₁.pages va k p ne
            ∙ ap (λ t. table.find t k) al.same_pages;
        same_dev = devs ∙ al.same_dev;
        calls = log ∙ (λ i.
            serving_calls va (al.same_dev i) (Allocated-side i) (al.page i).devdax_offset
              (al.same_trace i));
      }
