-- ===== src/Hemem/RoundTrip.antt =====
-- `hemem_mmap` with MAP_POPULATE, and then `hemem_munmap` of the range.
use dma_migration_test.Base.{
  ℕ, zero, suc, ◌+◌, ◌-◌, ◌*◌, ◌%◌, ◌≡◌, ◌≤◌, ◌<◌, ◌⊎◌, ◌∙◌, inl, inr, refl, ap, sym, true, arith,
  eq_cases, u64_mod,
}
use dma_migration_test.Base as List
use dma_migration_test.Machine.{
  null, Machine, MapFlags, HashTable, Os, page_size, dram_free_list, nvm_free_list, ◌>>=◌,
}
use dma_migration_test.Machine.Yields
use dma_migration_test.Machine.Yields.{Yields}
use dma_migration_test.Fifo.Repr.{Queues}
use dma_migration_test.Hemem.Cleared.{Holds, hemem_munmap-Clears}
use dma_migration_test.Hemem.Faults.{hemem_munmap}
use dma_migration_test.Hemem.Fit.{AllFit}
use dma_migration_test.Hemem.Granted.{Grants}
use dma_migration_test.Hemem.Mapping.{IsOutside, Populates}
use dma_migration_test.Hemem.Mmap.{page_round_up, hemem_mmap}
use dma_migration_test.Hemem.Pages.{FindsByKey}
use dma_migration_test.Hemem.Reserved.{
  Reserves, reserving, page_round_up-bounds, hemem_mmap-Populates,
}
use dma_migration_test.Pebs.Invariant.{Inv, Counted}

-- What is found at an address is a page in use there.
pub record Owns (table : HashTable) (m : Machine) : Type 0 where
  pub va : (a : ℕ) → ¬ (table.find m.pages a ≡ null) → (m.page (table.find m.pages a)).va ≡ a
  pub present :
      (a : ℕ) → ¬ (table.find m.pages a ≡ null) → (m.page (table.find m.pages a)).present ≡ true

inside_or_IsOutside :
    (va k a : ℕ) → ((j : ℕ) × (j < k) × (a ≡ va + j * page_size)) ⊎ IsOutside va k a
inside_or_IsOutside va zero a = inr λ j low e. omega arith
inside_or_IsOutside va (suc k) a = elim (eq_cases a (va + k * page_size)) [
  | inl same ↦ inl (k, omega arith, same)
  | inr ne ↦ elim (inside_or_IsOutside va k a) [
    | inl (j, low, e) ↦ inl (j, omega arith, e)
    | inr out ↦ inr λ j low e. elim (eq_cases j k) [
      | inl last ↦ ne (e ∙ ap (λ i. va + i * page_size) last)
      | inr before ↦ out j (omega arith) e
    ]
  ]
]

Populates-Holds :
    (table : HashTable) (va k : ℕ) {qs : Queues} (m m' : Machine)
    → Owns table m
    → Populates table va k qs m m'
    → Holds table va k m'
Populates-Holds table va k m m' owns t = record {
  there = t.found;
  huge = λ j low. (t.own j low).huge;
  alone = λ j a low e. elim (inside_or_IsOutside va k a) [
    | inl (i, below, is) ↦
        is
        ∙ sym (t.own i below).at
        ∙ ap (λ b. (m'.page (table.find m'.pages b)).va) (sym is)
        ∙ ap (λ p. (m'.page p).va) e
        ∙ (t.own j low).at
    | inr out ↦
        let same = t.found_other a out in
        let some : ¬ (table.find m.pages a ≡ null) = λ f. t.found j low (sym e ∙ same ∙ f) in
        sym (owns.va a some)
        ∙ sym (ap (λ v. v.va) (t.kept (table.find m.pages a) (owns.present a some)))
        ∙ ap (λ p. (m'.page p).va) (sym same ∙ e)
        ∙ (t.own j low).at
  ];
}

whole_pages :
    (k : ℕ) → k * page_size < u64_mod - page_size → page_round_up (k * page_size) ≡ k * page_size
whole_pages k small =
    let (low, high, aligned) =
      (page_round_up-bounds (k * page_size) (omega arith)).0 (omega arith) in
    omega (arith, low, high, aligned)

module _ (os : Os) (g : Grants os) (table : HashTable) (keys : FindsByKey table)
    (fuel addr prot : ℕ) (flags : MapFlags) (fd offset va k : ℕ) {m : Machine} {qs : Queues} where
  -- Of a range of `k` huge pages, none of whose addresses is in the table: `hemem_mmap` with
  -- MAP_POPULATE, and then `hemem_munmap` of the range that it returned, return, and leave a table in
  -- which every address is found as before. This is once the manager is initialised, with fuel for
  -- `k` rounds and one more, `k` frames free, descriptors that fit, the invariant and counters in
  -- order, a table that finds by keys and holds pages in use at their addresses, and a kernel that
  -- grants the requests and answers with an aligned range that is not at 0.
  pub hemem_mmap-munmap :
      m.is_init ≡ true
      → Reserves os m (reserving addr (k * page_size) prot flags offset m) va
      → flags.map_populate ≡ true
      → ¬ (k ≡ 0)
      → k < fuel
      → va % page_size ≡ 0
      → va + k * page_size < u64_mod - page_size
      → Inv m qs
      → Counted m qs
      → AllFit m qs
      → k ≤ List.length (qs dram_free_list) + List.length (qs nvm_free_list)
      → Owns table m
      → ((j : ℕ) → j < k → table.find m.pages (va + j * page_size) ≡ null)
      → Yields
          (λ _ m'. (a : ℕ) → table.find m'.pages a ≡ table.find m.pages a)
          ((hemem_mmap os table fuel addr (k * page_size) prot flags fd offset >>= λ p.
              hemem_munmap os table fuel p (k * page_size))
            m)
  hemem_mmap-munmap init r now some fueled aligned below inv counted fit spare owns fresh =
      Yields.bind
        (hemem_mmap-Populates os g table fuel addr (k * page_size) prot flags fd offset va keys k
          init (λ e. omega arith) r now (whole_pages k (omega arith)) some fueled aligned
          (omega arith) inv counted fit spare fresh)
        λ p m₁ (is, t, _). rw is (
          Yields.weaken
            (hemem_munmap-Clears os table keys k fuel va m₁ fueled (omega arith)
              (Populates-Holds table va k m m₁ owns t))
            λ _ m₂ (c, _) a. elim (inside_or_IsOutside va k a) [
              | inl (j, low, e) ↦
                  ap (table.find m₂.pages) e
                  ∙ c.gone j low
                  ∙ sym (fresh j low)
                  ∙ ap (table.find m.pages) (sym e)
              | inr out ↦ c.others a out ∙ t.found_other a out
            ])
