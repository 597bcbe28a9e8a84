-- ===== src/Hemem/Mapping.antt =====
-- `hemem_mmap_populate` for a range of huge pages.
use mathlib.Core.List.{Mem, append_assoc, mem-cons_self, mem-append_right}
use dma_migration_test.Base.{
  ℕ, zero, suc, ◌+◌, ◌-◌, ◌*◌, ◌%◌, ◌≡◌, ◌∙◌, ◌<◌, ◌≤◌, inl, inr, refl, ap, sym, subst, true, false,
  Bool, List, [], ◌∷◌, ◌++◌, length, length-append, All, All-back, arith, ltb, u64_mod, eq_cases,
  eqb_ne,
}
use dma_migration_test.Machine.{
  Ptr, HememPage, hugep, null, Machine, HashTable, Os, page_size, dram_free_list, nvm_free_list,
  ListName-discrete, at_list,
}
use dma_migration_test.Machine.Rules
use dma_migration_test.Machine.Yields
use dma_migration_test.Machine.Yields.{Yields, yields}
use dma_migration_test.Fifo.Repr.{Queues, unlinked}
use dma_migration_test.Hemem.Granted.{Grants}
use dma_migration_test.Hemem.Pages.{FindsByKey}
use dma_migration_test.Hemem.Faults.{populate_pages, hemem_mmap_populate}
use dma_migration_test.Hemem.Fit.{AllFit, Mapped-AllFit, IsFit-last}
use dma_migration_test.Hemem.Populated.{populate_page-Populated}
use dma_migration_test.Hemem.Populates.{
  DramFirst, DramFirst-none, DramFirst-one, DramFirst-then, Next-frame,
}
use dma_migration_test.Pebs.Hands.{used_free}
use dma_migration_test.Pebs.Invariant.{Inv, Counted, IsPlaced}
use dma_migration_test.Pebs.Route.{free_of, mapped_of}
use dma_migration_test.Pebs.Settled.{put_in}
use dma_migration_test.Pebs.Shift.{valid_of_split}

-- Address `a` is none of the `k` page addresses from `va` on.
abbrev pub IsOutside : (va k a : ℕ) → Type 0
IsOutside va k a = (j : ℕ) → j < k → ¬ (a ≡ va + j * page_size)

-- A huge page in use at address `va`.
pub record HasPage (v : HememPage) (va : ℕ) : Type 0 where
  pub at : v.va ≡ va
  pub huge : v.pt ≡ hugep
  pub present : v.present ≡ true

pub HasPage-content :
    {v w : HememPage} {va : ℕ} → unlinked w ≡ unlinked v → HasPage v va → HasPage w va
HasPage-content e h = record {
  at = ap (λ u. u.va) e ∙ h.at;
  huge = ap (λ u. u.pt) e ∙ h.huge;
  present = ap (λ u. u.present) e ∙ h.present;
}

-- `k` huge pages from `va` on are mapped and in the table.
pub record Populates (table : HashTable) (va k : ℕ) (qs : Queues) (m m' : Machine) : Type 0 where
  pub queues : Queues
  pub inv : Inv m' queues
  pub counted : Counted m' queues
  pub fit : AllFit m' queues
  pub frames : DramFirst k qs queues
  pub found : (j : ℕ) → j < k → ¬ (table.find m'.pages (va + j * page_size) ≡ null)
  pub found_other : (a : ℕ) → IsOutside va k a → table.find m'.pages a ≡ table.find m.pages a
  pub own :
      (j : ℕ)
      → j < k
      → HasPage (m'.page (table.find m'.pages (va + j * page_size))) (va + j * page_size)
  pub kept : (a : Ptr) → (m.page a).present ≡ true → unlinked (m'.page a) ≡ unlinked (m.page a)
  pub grown : (b : Bool) → (new : List Ptr) × (queues (mapped_of b) ≡ new ++ qs (mapped_of b))
  pub joined :
      (j : ℕ)
      → j < k
      → (b : Bool) × Mem (table.find m'.pages (va + j * page_size)) (queues (mapped_of b))

-- The mapped lists once a frame is taken into use.
taken_grown :
    (b c : Bool) (p : Ptr) (xs : List Ptr) (qs : Queues)
    → (new : List Ptr) × (put_in (mapped_of b) p (at_list qs (free_of b) xs) (mapped_of c)
        ≡ new ++ qs (mapped_of c))
unfolding ListName-discrete
taken_grown true true p xs qs = (p ∷ [], refl)
taken_grown true false p xs qs = ([], refl)
taken_grown false true p xs qs = ([], refl)
taken_grown false false p xs qs = (p ∷ [], refl)

taken_front :
    (b : Bool) (p : Ptr) (xs : List Ptr) (qs : Queues)
    → put_in (mapped_of b) p (at_list qs (free_of b) xs) (mapped_of b) ≡ p ∷ qs (mapped_of b)
unfolding ListName-discrete
taken_front true p xs qs = refl
taken_front false p xs qs = refl

module _ (os : Os) (g : Grants os) (table : HashTable) (keys : FindsByKey table) where
  populate_pages-Populates :
      (k fuel va end : ℕ) {m : Machine} {qs : Queues}
      → k < fuel
      → end ≡ va + k * page_size
      → end < u64_mod
      → ¬ (va ≡ 0)
      → va % page_size ≡ 0
      → Inv m qs
      → Counted m qs
      → AllFit m qs
      → k ≤ length (qs dram_free_list) + length (qs nvm_free_list)
      → ((j : ℕ) → j < k → table.find m.pages (va + j * page_size) ≡ null)
      → Yields (λ _. Populates table va k qs m) (populate_pages os table fuel va end m)
  unfolding populate_pages
  populate_pages-Populates k zero va end fueled is below some aligned inv counted fit spare fresh =
      absurd (omega arith)
  populate_pages-Populates zero (suc fuel) va end {m} {qs} fueled is below some aligned inv counted
        fit spare fresh =
      let done : ltb va end ≡ false = ground arith in
      rw done (
        yields (record {
          queues = qs;
          inv = inv;
          counted = counted;
          fit = fit;
          frames = DramFirst-none qs;
          found = λ j h. absurd (omega arith);
          found_other = λ a _. refl;
          own = λ j h. absurd (omega arith);
          kept = λ a _. refl;
          grown = λ b. ([], refl);
          joined = λ j h. absurd (omega arith);
        }))
  populate_pages-Populates (suc k) (suc fuel) va end {m} {qs} fueled is below some aligned inv
        counted fit spare fresh =
      let next = Next-frame inv (omega arith) in
      let b = next.side in
      let p = next.frame in
      let xs = next.rest in
      let good = IsFit-last m qs (free_of b) xs p next.split fit in
      let unused : (m.page p).present ≡ false =
        (All-back (IsPlaced m (free_of b)) xs (p ∷ [])
          (subst (All (IsPlaced m (free_of b))) next.split (inv.placed (free_of b)))).0.1
        ∙ used_free b in
      let more : ltb va end ≡ true = ground arith in
      let here : table.find m.pages va ≡ null =
        subst (λ a. table.find m.pages a ≡ null) (omega arith) (fresh 0 (omega arith)) in
      let size = ap length next.split ∙ length-append xs (p ∷ []) in
      let one = DramFirst-one b p xs qs (omega (arith, size)) next.first in
      rw more (
        Yields.bind
          (populate_page-Populated os g table keys b p xs va inv counted next.split some aligned
            here good.huge next.taken)
          λ n m₁ (bytes, t).
            let h = t.mapped in
            let step : (va + n) % u64_mod ≡ va + page_size = omega (arith, bytes) in
            rw step (
              Yields.weaken
                (populate_pages-Populates k fuel (va + page_size) end (omega arith) (omega arith)
                  below (omega arith) (omega arith) h.inv t.counted
                  (Mapped-AllFit h next.split some aligned fit)
                  (omega (arith, one.dram_free, one.nvm_free))
                  (λ j low.
                    let at : va + page_size + j * page_size ≡ va + suc j * page_size =
                      omega arith in
                    rw at (
                      h.found_other (va + suc j * page_size) (λ e. omega arith)
                      ∙ fresh (suc j) (omega arith))))
                λ _ m₂ u. record {
                  queues = u.queues;
                  inv = u.inv;
                  counted = u.counted;
                  fit = u.fit;
                  frames = DramFirst-then k qs _ u.queues (omega arith) one u.frames;
                  found = λ j low e. elim (eq_cases j 0) [
                    | inl first ↦
                        let stays = u.found_other va (λ i _ f. omega arith) ∙ h.found in
                        let at : va + j * page_size ≡ va = omega arith in
                        valid_of_split inv (free_of b) xs p next.split
                          (sym stays ∙ ap (table.find m₂.pages) (sym at) ∙ e)
                    | inr later ↦
                        let at : va + page_size + (j - 1) * page_size ≡ va + j * page_size =
                          omega arith in
                        u.found (j - 1) (omega arith) (ap (table.find m₂.pages) at ∙ e)
                  ];
                  found_other = λ a out.
                      u.found_other a (λ j low e. out (suc j) (omega arith) (omega arith))
                      ∙ h.found_other a (λ e. out 0 (omega arith) (omega arith));
                  own = λ j low. elim (eq_cases j 0) [
                    | inl first ↦
                        let stays = u.found_other va (λ i _ f. omega arith) ∙ h.found in
                        let at : va + j * page_size ≡ va = omega arith in
                        let new : HasPage (m₁.page p) va = record {
                          at = ap (λ v. v.va) h.page;
                          huge = ap (λ v. v.pt) h.page ∙ good.huge;
                          present = ap (λ v. v.present) h.page;
                        } in
                        rw (at, stays) (HasPage-content (u.kept p new.present) new)
                    | inr later ↦
                        let at : va + j * page_size ≡ va + page_size + (j - 1) * page_size =
                          omega arith in
                        rw at (u.own (j - 1) (omega arith))
                  ];
                  kept = λ a used.
                      let ne : ¬ (a ≡ p) =
                        λ e. ground (arith, used, unused, ap (λ b. (m.page b).present) e) in
                      u.kept a (ap (λ v. v.present) (h.others a ne) ∙ used) ∙ h.others a ne;
                  grown = λ c.
                      let (new, e) = u.grown c in
                      let (one_new, d) = taken_grown b c p xs qs in
                      (
                        new ++ one_new,
                        e
                            ∙ ap (λ l. new ++ l) d
                            ∙ sym (append_assoc new one_new (qs (mapped_of c))),
                      );
                  joined = λ j low. elim (eq_cases j 0) [
                    | inl first ↦
                        let stays = u.found_other va (λ i _ f. omega arith) ∙ h.found in
                        let at : va + j * page_size ≡ va = omega arith in
                        let (new, e) = u.grown b in
                        (
                          b,
                          rw (at, stays, e, taken_front b p xs qs)
                              (mem-append_right new (mem-cons_self)),
                        )
                    | inr later ↦
                        let at : va + j * page_size ≡ va + page_size + (j - 1) * page_size =
                          omega arith in
                        rw at (u.joined (j - 1) (omega arith))
                  ];
                }))

  -- `hemem_mmap_populate` for `k` huge pages from an aligned address on.
  pub hemem_mmap_populate-Populates :
      (k fuel va : ℕ) {m : Machine} {qs : Queues}
      → k < fuel
      → ¬ (k ≡ 0)
      → va + k * page_size < u64_mod
      → ¬ (va ≡ 0)
      → va % page_size ≡ 0
      → Inv m qs
      → Counted m qs
      → AllFit m qs
      → k ≤ length (qs dram_free_list) + length (qs nvm_free_list)
      → ((j : ℕ) → j < k → table.find m.pages (va + j * page_size) ≡ null)
      → Yields
          (λ _. Populates table va k qs m)
          (hemem_mmap_populate os table fuel va (k * page_size) m)
  unfolding hemem_mmap_populate
  hemem_mmap_populate-Populates k fuel va {m} fueled some_pages below some aligned inv counted fit
        spare fresh =
      Rules.assert-then _ _ _ (rw (eqb_ne va 0 some) refl) (
        Rules.assert-then _ _ _ (rw (eqb_ne (k * page_size) 0 (omega arith)) refl) (
          populate_pages-Populates k fuel va ((va + k * page_size) % u64_mod) fueled (omega arith)
            (omega arith) some aligned inv counted fit spare fresh))
