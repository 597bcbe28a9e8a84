-- ===== src/Pebs/Drawn.antt =====
-- The random requests: each round rotates the mapped list and takes its last page.
use mathlib.Core.List.{Perm, perm_middle, perm_append_comm, append_assoc, append-nil}
use mathlib.Core.List.Perm
use dma_migration_test.Base.{
  ℕ, zero, suc, ◌+◌, ◌%◌, ◌≡◌, ◌≤◌, ◌<◌, ◌∙◌, refl, ap, sym, subst, Bool, List, [], ◌∷◌, ◌++◌,
  length, length-append, arith, eqb_ne, inl, inr, snoc_cases, if_pos, if_neg, split_from_end,
  ℕ_discrete,
}
use dma_migration_test.Machine.{
  Ptr, ListName, ListName-discrete, Machine, Cmd, fault, at_list, Outcome, continue_with, ◌>>=◌,
}
use dma_migration_test.Machine.Update.{at_list_self, at_list-ne}
use dma_migration_test.Machine.Yields
use dma_migration_test.Machine.Yields.{Yields, yields}
use dma_migration_test.Fifo.Repr.{Queues}
use dma_migration_test.Pebs.Invariant.{Inv, Counted, SameContent, SameContent-trans}
use dma_migration_test.Pebs.Shift.{dequeue-InHand, enqueue-Inv}
use dma_migration_test.Pebs.Request.{rotate, request_page, request_at_random}
use dma_migration_test.Pebs.Requested.{
  Shifted, Shifted-then, Shifted-none, RequestLists, request_page-Shifted,
}

-- List `n` now holds `xs`; nothing else changed.
pub record Reordered (n : ListName) (xs : List Ptr) (qs : Queues) (m m' : Machine) : Type 0 where
  pub queues : Queues
  pub inv : Inv m' queues
  pub counted : Counted m' queues
  pub source : queues n ≡ xs
  pub others : (j : ListName) → ¬ (j ≡ n) → queues j ≡ qs j
  pub content : SameContent m m'

pub counted_twice :
    (num : ListName → ℕ) (qs : Queues) (n : ListName) (xs ys : List Ptr)
    → ((j : ListName) → num j ≡ length (qs j))
    → length ys ≡ length (qs n)
    → (j : ListName) → num j ≡ length (at_list (at_list qs n xs) n ys j)
counted_twice num qs n xs ys h e j = elim (ListName-discrete j n) [
  | yes hit ↦ rw (if_pos _ hit) (ap num hit ∙ h n ∙ sym e)
  | no miss ↦ rw (if_neg _ miss, if_neg _ miss) (h j)
]

-- `while (choose--)`: the last `choose` pages come to the front, in their order.
pub rotate-Reordered :
    (n : ListName) (choose : ℕ) {m : Machine} {qs : Queues} (xs ys : List Ptr)
    → Inv m qs
    → Counted m qs
    → qs n ≡ xs ++ ys
    → length ys ≡ choose
    → Yields (λ _. Reordered n (ys ++ xs) qs m) (rotate n choose m)
unfolding rotate
rotate-Reordered n zero {qs} xs [] inv counted e size = yields (record {
  queues = qs;
  inv = inv;
  counted = counted;
  source = e ∙ append-nil xs;
  others = λ j _. refl;
  content = record { content = λ a. refl };
})
rotate-Reordered n zero xs (y ∷ ys) inv counted e size = absurd (omega arith)
rotate-Reordered n (suc choose) {m} {qs} xs ys inv counted e size = elim (snoc_cases ys) [
  | inl none_left ↦ absurd (omega (arith, ap length none_left))
  | inr (zs, p, split) ↦
      let whole : qs n ≡ (xs ++ zs) ++ p ∷ [] =
        e ∙ ap (◌++◌ xs) split ∙ sym (append_assoc xs zs (p ∷ [])) in
      let kept = at_list_self qs n (xs ++ zs) in
      let q₁ = at_list qs n (xs ++ zs) in
      Yields.bind (dequeue-InHand inv n (xs ++ zs) p whole)
        λ a m₁ (same, hand, placed, content, nums, _). rw same (
          Yields.bind (enqueue-Inv hand n placed) λ _ m₂ (inv₂, content₂, nums₂, step).
            Yields.weaken
              (rotate-Reordered n choose (p ∷ xs) zs inv₂
                (rw (nums₂, nums)
                  (counted_twice m.num qs n (xs ++ zs) (p ∷ at_list qs n (xs ++ zs) n) counted (
                    omega
                      (arith, ap length kept, ap length whole, length-append (xs ++ zs) (p ∷ [])))))
                (at_list_self q₁ n (p ∷ q₁ n) ∙ ap (◌∷◌ p) kept)
                (omega (arith, ap length split, length-append zs (p ∷ []))))
              λ _ m₃ r. record {
                queues = r.queues;
                inv = r.inv;
                counted = r.counted;
                source =
                    r.source ∙ sym (append_assoc zs (p ∷ []) xs) ∙ ap (λ l. l ++ xs) (sym split);
                others = λ j ne.
                    r.others j ne
                    ∙ at_list-ne q₁ n j (p ∷ q₁ n) ne
                    ∙ at_list-ne qs n j (xs ++ zs) ne;
                content = SameContent-trans content (SameContent-trans content₂ r.content);
              })
]

-- The pages that a random request moved, and those that stay, in their new order.
pub record Drawn (n k : ListName) (pages : ℕ) (qs : Queues) (m m' : Machine) : Type 0 where
  pub kept : List Ptr
  pub drawn : List Ptr
  pub size : length drawn ≡ pages
  pub shifted : Shifted n k kept drawn qs m m'
  pub same_pages : Perm (drawn ++ kept) (qs n)

module _ {n k : ListName} {in_dram : Bool} (b : RequestLists n k in_dram) where
  Shifted-after :
      {m m₁ m₂ : Machine} {qs : Queues} {xs ys zs : List Ptr} (r : Reordered n zs qs m m₁)
      → Shifted n k xs ys r.queues m₁ m₂
      → Shifted n k xs ys qs m m₂
  Shifted-after {ys} r s = record {
    queues = s.queues;
    inv = s.inv;
    counted = s.counted;
    source = s.source;
    target = s.target ∙ ap (◌++◌ ys) (r.others k (λ e. b.apart (sym e)));
    others = λ j jn jk. s.others j jn jk ∙ r.others j jn;
    content = SameContent-trans r.content s.content;
  }

  -- One round takes the page with `choose` pages behind it, and brings those to the front.
  abbrev pub Drew : List Ptr → List Ptr → Ptr → Queues → Machine → Machine → Type 0
  Drew xs ys p = Shifted n k (ys ++ xs) (p ∷ [])

  Drawn-then :
      {m m₁ m₂ : Machine} {qs : Queues} (pages : ℕ) (xs ys : List Ptr) (p : Ptr)
      (s : Drew xs ys p qs m m₁)
      → qs n ≡ xs ++ p ∷ ys
      → Drawn n k pages s.queues m₁ m₂
      → Drawn n k (suc pages) qs m m₂
  Drawn-then {m} {m₂} {qs} pages xs ys p s e d = record {
    kept = d.kept;
    drawn = d.drawn ++ p ∷ [];
    size = omega (arith, d.size, length-append d.drawn (p ∷ []));
    shifted = Shifted-then b s d.shifted;
    same_pages = subst (Perm _) (sym e) (
        rw (append_assoc d.drawn (p ∷ []) d.kept) (
          Perm.trans (perm_middle d.drawn d.kept) (
            Perm.trans (Perm.cons p (subst (Perm _) s.source d.same_pages))
              (perm_append_comm (p ∷ ys) xs))));
  }

  -- A round as a rule for what follows it.
  pub draw_then :
      (Q : Outcome ℕ → Type 0) {m : Machine} {qs : Queues} (choose : ℕ) (cont : ℕ → Cmd ℕ)
      → Inv m qs
      → Counted m qs
      → choose < length (qs n)
      → ((xs ys : List Ptr) (p : Ptr) (m' : Machine)
          → qs n ≡ xs ++ p ∷ ys
          → Drew xs ys p qs m m'
          → Q (cont 1 m'))
      → Q (continue_with (rotate n choose m) λ _. request_page n k in_dram >>= cont)
  draw_then Q {m} {qs} choose cont inv counted below rest =
      let (xs, p, ys, e, size) = split_from_end (qs n) choose below in
      Yields.run Q
        (rotate-Reordered n choose (xs ++ p ∷ []) ys inv counted
          (e ∙ sym (append_assoc xs (p ∷ []) ys)) size)
        λ _ m₁ r.
          Yields.run Q
            (request_page-Shifted b r.inv r.counted (ys ++ xs) p
              (r.source ∙ sym (append_assoc ys xs (p ∷ []))))
            λ put m' (one, s). rw one (rest xs ys p m' e (Shifted-after r s))

  -- With enough mapped pages every round draws one.
  pub request_at_random-Drawn :
      (rand : ℕ → ℕ) (pages i put : ℕ) {m : Machine} {qs : Queues}
      → Inv m qs
      → Counted m qs
      → pages ≤ length (qs n)
      → Yields
          (λ r m'. (r ≡ put + pages) × Drawn n k pages qs m m')
          (request_at_random rand n k in_dram pages i put m)
  unfolding request_at_random
  request_at_random-Drawn rand zero i put {m} {qs} inv counted enough = yields (
    omega arith,
    record {
      kept = qs n;
      drawn = [];
      size = refl;
      shifted = Shifted-none b inv counted refl;
      same_pages = Perm.refl (qs n);
    },
  )
  request_at_random-Drawn rand (suc pages) i put {m} {qs} inv counted enough =
      rw (eqb_ne (m.num n) 0 (λ e. absurd (omega (arith, counted n)))) (
        draw_then (Yields _) (rand i % m.num n) _ inv counted (omega (arith, counted n))
          λ xs ys p m' e s.
            Yields.weaken
              (request_at_random-Drawn rand pages (i + 1) (put + 1) s.inv s.counted (
                omega (
                  arith,
                  ap length s.source,
                  ap length e,
                  length-append ys xs,
                  length-append xs (p ∷ ys),
                )))
              λ r m₂ (sum, d). (omega arith, Drawn-then pages xs ys p s e d))

  -- A request for more pages than are mapped divides by zero, once the last page is gone.
  pub request_at_random-fault :
      (rand : ℕ → ℕ) (pages i put : ℕ) {m : Machine} {qs : Queues}
      → Inv m qs
      → Counted m qs
      → length (qs n) < pages
      → request_at_random rand n k in_dram pages i put m ≡ fault
  unfolding request_at_random
  request_at_random-fault rand zero i put inv counted many = elim many [ ]
  request_at_random-fault rand (suc pages) i put {m} {qs} inv counted many =
      elim (ℕ_discrete (m.num n) 0) [
        | yes none_left ↦ rw none_left
        | no some_left ↦ rw (eqb_ne (m.num n) 0 some_left) (
            draw_then (λ r. r ≡ fault) (rand i % m.num n) _ inv counted (omega (arith, counted n))
              λ xs ys p m' e s.
                request_at_random-fault rand pages (i + 1) (put + 1) s.inv s.counted (
                  omega (
                    arith,
                    ap length s.source,
                    ap length e,
                    length-append ys xs,
                    length-append xs (p ∷ ys),
                  )))
      ]
