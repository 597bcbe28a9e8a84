-- ===== src/Pebs/Fresh.antt =====
-- The oldest free frames of a tier, which a migration takes first, and the pages, all of which lie in
-- the device that they name.
use dma_migration_test.Base.{
  ℕ, suc, ◌+◌, ◌≡◌, ◌≤◌, ◌∙◌, inl, inr, refl, ap, ap₂, sym, subst, Bool, true, List, [], ◌∷◌, ◌++◌,
  length, length-append, All, All-front, All-back, All-map₂, arith, snoc_cases,
}
use mathlib.Core.List.{append_assoc, head-eq_of_cons-eq, tail-eq_of_cons-eq}
use dma_migration_test.Machine.{Ptr, HememPage, ListName, Machine, page_size}
use dma_migration_test.Fifo.Repr.{Queues}
use dma_migration_test.Hemem.Calls.{size_of}
use dma_migration_test.Hemem.Fit.{IsFit}
use dma_migration_test.Pebs.Invariant.{in_use}
use dma_migration_test.Pebs.Remapped.{moved_page}
use dma_migration_test.Pebs.Route.{
  Route, dram_to_dram, dram_to_nvm, nvm_to_dram, nvm_to_nvm, to_dram, free_of, queue_of,
}

-- The last `k` at least of a list have the property.
pub record Oldest (P : Ptr → Type 0) (k : ℕ) (l : List Ptr) : Type 0 where
  pub new : List Ptr
  pub old : List Ptr
  pub split : l ≡ new ++ old
  pub enough : k ≤ length old
  pub holds : All P old

pub Oldest-All : {P : Ptr → Type 0} (k : ℕ) (l : List Ptr) → k ≤ length l → All P l → Oldest P k l
Oldest-All k l h all = record { new = []; old = l; split = refl; enough = h; holds = all }

pub Oldest-least : {P : Ptr → Type 0} (k j : ℕ) {l : List Ptr} → j ≤ k → Oldest P k l → Oldest P j l
Oldest-least k j less o = record {
  new = o.new;
  old = o.old;
  split = o.split;
  enough = omega (arith, o.enough);
  holds = o.holds;
}

module _ {P : Ptr → Type 0} {k : ℕ} where
  pub Oldest-cons : (q : Ptr) {l : List Ptr} → Oldest P k l → Oldest P k (q ∷ l)
  Oldest-cons q o = record {
    new = q ∷ o.new;
    old = o.old;
    split = ap (◌∷◌ q) o.split;
    enough = o.enough;
    holds = o.holds;
  }

  pub Oldest-map :
      {Q : Ptr → Type 0} {l : List Ptr} → All (λ a. P a → Q a) l → Oldest P k l → Oldest Q k l
  Oldest-map {Q} h o = record {
    new = o.new;
    old = o.old;
    split = o.split;
    enough = o.enough;
    holds =
        All-map₂ o.old (λ a f p. f p)
          (All-back (λ a. P a → Q a) o.new o.old (subst (All (λ a. P a → Q a)) o.split h)) o.holds;
  }

snoc_inj : (xs ys : List Ptr) (a b : Ptr) → xs ++ a ∷ [] ≡ ys ++ b ∷ [] → (xs ≡ ys) × (a ≡ b)
snoc_inj [] [] a b e = (refl, head-eq_of_cons-eq e)
snoc_inj [] (y ∷ ys) a b e = absurd (omega (arith, ap length e, length-append ys (b ∷ [])))
snoc_inj (x ∷ xs) [] a b e = absurd (omega (arith, ap length e, length-append xs (a ∷ [])))
snoc_inj (x ∷ xs) (y ∷ ys) a b e =
    let rest = snoc_inj xs ys a b (tail-eq_of_cons-eq e) in
    (ap₂ ◌∷◌ (head-eq_of_cons-eq e) rest.0, rest.1)

-- The last one is taken off.
module _ {P : Ptr → Type 0} {k : ℕ} (q : Ptr) (ys : List Ptr) where
  ends :
      (o : Oldest P (suc k) (ys ++ q ∷ []))
      → (zs : List Ptr) × (a : Ptr) × (o.old ≡ zs ++ a ∷ []) × (ys ≡ o.new ++ zs) × (q ≡ a)
  ends o = elim (snoc_cases o.old) [
    | inl nil ↦ absurd (omega (arith, o.enough, ap length nil))
    | inr (zs, a, e) ↦
        let same =
          snoc_inj ys (o.new ++ zs) q a
            (o.split ∙ ap (◌++◌ o.new) e ∙ sym (append_assoc o.new zs (a ∷ []))) in
        (zs, a, e, same.0, same.1)
  ]

  pub Oldest-last : Oldest P (suc k) (ys ++ q ∷ []) → P q
  Oldest-last o =
      let (zs, a, e, _, same) = ends o in
      subst P (sym same) (All-back P zs (a ∷ []) (subst (All P) e o.holds)).0

  pub Oldest-take : Oldest P (suc k) (ys ++ q ∷ []) → Oldest P k ys
  Oldest-take o =
      let (zs, a, e, front, _) = ends o in
      record {
        new = o.new;
        old = zs;
        split = front;
        enough = omega (arith, o.enough, ap length e, length-append zs (a ∷ []));
        holds = All-front P zs (a ∷ []) (subst (All P) e o.holds);
      }

-- What a round keeps for the queue of `r`: the pages lie in their devices, and so do the oldest free
-- frames, those of `spare` in either tier and in the new tier one more for each page of the queue.
pub record Fresh (r : Route) (spare : Bool → ℕ) (qs : Queues) (m : Machine) : Type 0 where
  pub pages : (n : ListName) → in_use n ≡ true → All (λ a. IsFit (m.page a)) (qs n)
  pub target :
      Oldest
        (λ a. IsFit (m.page a))
        (spare (to_dram r) + length (qs (queue_of r)))
        (qs (free_of (to_dram r)))
  pub other :
      (b : Bool) → ¬ (b ≡ to_dram r) → Oldest (λ a. IsFit (m.page a)) (spare b) (qs (free_of b))

pub IsFit-moved :
    (r : Route) (v : HememPage) (offset : ℕ)
    → offset + page_size ≤ size_of (to_dram r)
    → IsFit v
    → IsFit (moved_page r v offset)
IsFit-moved dram_to_dram v offset low h = record {
  huge = h.huge;
  fits = low;
  mapped = h.mapped;
  aligned = h.aligned;
}
IsFit-moved dram_to_nvm v offset low h = record {
  huge = h.huge;
  fits = low;
  mapped = h.mapped;
  aligned = h.aligned;
}
IsFit-moved nvm_to_dram v offset low h = record {
  huge = h.huge;
  fits = low;
  mapped = h.mapped;
  aligned = h.aligned;
}
IsFit-moved nvm_to_nvm v offset low h = record {
  huge = h.huge;
  fits = low;
  mapped = h.mapped;
  aligned = h.aligned;
}
