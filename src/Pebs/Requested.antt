-- ===== src/Pebs/Requested.antt =====
-- What the requests do: they move pages from the end of a mapped list to the front of a migration
-- queue, or fault.
use dma_migration_test.Base.{
  ℕ, zero, suc, ◌+◌, ◌-◌, ◌≡◌, ◌<◌, ◌∙◌, ◌⊎◌, inl, inr, refl, ap, ap₂, sym, subst, Bool, true, List,
  [], ◌∷◌, ◌++◌, length, length-append, u64_mod, arith, eqb_ne, inc64, dec64, snoc_cases,
}
use mathlib.Core.List.{append_assoc, append-nil}
use dma_migration_test.Machine.{Ptr, null, ListName, Machine, ok, at_list, modify_num}
use dma_migration_test.Machine.Update.{at_list-ne, at_list_comm}
use dma_migration_test.Machine.Rules
use dma_migration_test.Machine.Yields
use dma_migration_test.Machine.Yields.{Yields, yields}
use dma_migration_test.Fifo.Repr.{Queues}
use dma_migration_test.Fifo.Laws.{dequeue_fifo-empty}
use dma_migration_test.Pebs.Invariant.{
  Inv, Inv-frame, Counted, tier, in_use, SameContent, SameContent-trans, length-le-total,
}
use dma_migration_test.Pebs.Shift.{hand_room, counted-at, dequeue-InHand, enqueue-Inv}
use dma_migration_test.Pebs.Request.{request_page, request_in_order}

-- The pages `ys` went from the end of list `n` to the front of list `k`, in their order; `xs` stay.
pub record Shifted (n k : ListName) (xs ys : List Ptr) (qs : Queues) (m m' : Machine) : Type 0 where
  pub queues : Queues
  pub inv : Inv m' queues
  pub counted : Counted m' queues
  pub source : queues n ≡ xs
  pub target : queues k ≡ ys ++ qs k
  pub others : (j : ListName) → ¬ (j ≡ n) → ¬ (j ≡ k) → queues j ≡ qs j
  pub content : SameContent m m'

-- The two lists of a request: pages in use, of the tier that is asserted.
pub record RequestLists (n k : ListName) (in_dram : Bool) : Type 0 where
  pub apart : ¬ (n ≡ k)
  pub tier_source : tier n ≡ in_dram
  pub tier_target : tier k ≡ in_dram
  pub used_source : in_use n ≡ true
  pub used_target : in_use k ≡ true

-- The counters after a page has moved.
pub counted_moved :
    (num : ListName → ℕ) (qs : Queues) (n k : ListName) (xs : List Ptr) (p : Ptr)
    → ¬ (n ≡ k)
    → ((j : ListName) → num j ≡ length (qs j))
    → length (qs n) ≡ suc (length xs)
    → length (qs n) < u64_mod
    → suc (length (qs k)) < u64_mod
    → (j : ListName)
    → at_list (at_list num k (inc64 (num k))) n (dec64 (at_list num k (inc64 (num k)) n)) j
      ≡ length (at_list (at_list qs n xs) k (p ∷ at_list qs n xs k) j)
counted_moved num qs n k xs p apart h e small room j =
    rw (at_list-ne num k n (inc64 (num k)) apart, at_list-ne qs n k xs (λ e. apart (sym e)))
      (subst
        (λ (f : Queues). at_list (at_list num k (inc64 (num k))) n (dec64 (num n)) j ≡ length (f j))
        (sym (at_list_comm qs n k xs (p ∷ qs k) apart))
        (counted-at (at_list num k (inc64 (num k))) (at_list qs k (p ∷ qs k)) n xs
          (counted-at num qs k (p ∷ qs k) h (omega (arith, h k))) (omega (arith, h n)) j))

module _ {n k : ListName} {in_dram : Bool} (b : RequestLists n k in_dram) where
  pub request_page-Shifted :
      {m : Machine} {qs : Queues}
      → Inv m qs
      → Counted m qs
      → (xs : List Ptr) (p : Ptr) → qs n ≡ xs ++ p ∷ []
      → Yields (λ put m'. (put ≡ 1) × Shifted n k xs (p ∷ []) qs m m') (request_page n k in_dram m)
  unfolding request_page modify_num
  request_page-Shifted {m} {qs} inv counted xs p e =
      let size : length (qs n) ≡ suc (length xs) =
        omega (arith, ap length e, length-append xs (p ∷ [])) in
      let small : length (qs n) < u64_mod = omega (arith, inv.few, length-le-total n qs) in
      Yields.bind (dequeue-InHand inv n xs p e) λ a m₁ (same, hand, placed, content, nums, _).
        let room : suc (length (qs k)) < u64_mod =
          rw (at_list-ne qs n k xs (λ e. b.apart (sym e))) at (hand_room hand k) in
        rw (same, eqb_ne p null hand.valid)
          (Rules.load-then p m₁ _ hand.valid (
            Rules.assert-then _ _ _ (ground (arith, placed.0, b.tier_source)) (
              Rules.assert-then _ _ _ (placed.1 ∙ b.used_source) (
                Yields.bind
                  (enqueue-Inv hand k (
                    placed.0 ∙ b.tier_source ∙ sym b.tier_target,
                    placed.1 ∙ b.used_source ∙ sym b.used_target,
                  ))
                  λ _ m₂ (inv₂, content₂, nums₂, step). yields (
                    refl,
                    record {
                      queues = at_list (at_list qs n xs) k (p ∷ at_list qs n xs k);
                      inv = Inv-frame refl refl inv₂;
                      counted =
                          rw (nums₂, nums)
                            (counted_moved m.num qs n k xs p b.apart counted size small room);
                      source = ground (arith, b.apart);
                      target = ground (arith, b.apart);
                      others = λ j jn jk. ground arith;
                      content = record { content = (SameContent-trans content content₂).content };
                    },
                  )))))

  -- A page that was moved, and the pages that followed it.
  pub Shifted-then :
      {m m₁ m₂ : Machine} {qs : Queues} {ws xs zs : List Ptr} {p : Ptr}
      (s : Shifted n k ws (p ∷ []) qs m m₁)
      → Shifted n k xs zs s.queues m₁ m₂
      → Shifted n k xs (zs ++ p ∷ []) qs m m₂
  Shifted-then {qs} {zs} {p} s t = record {
    queues = t.queues;
    inv = t.inv;
    counted = t.counted;
    source = t.source;
    target = t.target ∙ ap (◌++◌ zs) s.target ∙ sym (append_assoc zs (p ∷ []) (qs k));
    others = λ j jn jk. t.others j jn jk ∙ s.others j jn jk;
    content = SameContent-trans s.content t.content;
  }

  pub request_page-empty :
      {m : Machine} {qs : Queues} → Inv m qs → qs n ≡ [] → request_page n k in_dram m ≡ ok 0 m
  unfolding request_page
  request_page-empty inv e = rw (dequeue_fifo-empty inv.lists n e)

  pub Shifted-none :
      {m : Machine} {qs : Queues} {xs : List Ptr}
      → Inv m qs
      → Counted m qs
      → qs n ≡ xs
      → Shifted n k xs [] qs m m
  Shifted-none {qs} inv counted e = record {
    queues = qs;
    inv = inv;
    counted = counted;
    source = e;
    target = refl;
    others = λ j _ _. refl;
    content = record { content = λ a. refl };
  }

  -- The last pages of the list move together; rounds beyond the last page move nothing.
  pub request_in_order-Shifted :
      (pages put extra : ℕ) {m : Machine} {qs : Queues} (xs ys : List Ptr)
      → Inv m qs
      → Counted m qs
      → qs n ≡ xs ++ ys
      → pages ≡ length ys + extra
      → (extra ≡ 0) ⊎ (xs ≡ [])
      → Yields
          (λ r m'. (r ≡ put + length ys) × Shifted n k xs ys qs m m')
          (request_in_order n k in_dram pages put m)
  unfolding request_in_order
  request_in_order-Shifted zero put extra xs [] inv counted e size enough =
      yields (omega arith, Shifted-none inv counted (e ∙ append-nil xs))
  request_in_order-Shifted zero put extra xs (y ∷ ys) inv counted e size enough =
      absurd (omega arith)
  request_in_order-Shifted (suc pages) put extra {m} {qs} xs ys inv counted e size enough =
      elim (snoc_cases ys) [
        | inl none_left ↦
            let nil : xs ≡ [] = ground (arith, enough) in
            rw (request_page-empty inv (e ∙ ap₂ ◌++◌ nil none_left)) (
              Yields.weaken
                (request_in_order-Shifted pages (put + 0) (extra - 1) xs ys inv counted e
                  (omega (arith, ap length none_left)) (inr nil))
                λ r m' (sum, s). (omega arith, s))
        | inr (zs, p, split) ↦
            let size_ys = ap length split ∙ length-append zs (p ∷ []) in
            Yields.bind
              (request_page-Shifted inv counted (xs ++ zs) p
                (e ∙ ap (◌++◌ xs) split ∙ sym (append_assoc xs zs (p ∷ []))))
              λ r m₁ (one, s).
                Yields.weaken
                  (request_in_order-Shifted pages (put + r) extra xs zs s.inv s.counted s.source
                    (omega arith) enough)
                  λ r' m₂ (sum, t). (
                    omega arith,
                    subst (λ ls. Shifted n k xs ls qs m m₂) (sym split) (Shifted-then s t),
                  )
      ]
