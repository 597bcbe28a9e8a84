-- ===== src/Pebs/Renewed.antt =====
-- A round of the migration thread keeps what the next rounds need of pages and frames.
use dma_migration_test.Base.{
  inl, inr, ◌⊎◌, ℕ, suc, ◌+◌, ◌≡◌, ◌≤◌, ◌∙◌, refl, ap, sym, subst, Bool, true, false, List, [], ◌∷◌,
  ◌++◌, length, length-append, All, All-front, All-back, All-map, All-map₂, arith, ℕ_discrete,
}
use dma_migration_test.Machine.{Ptr, ListName, ListName-discrete, Machine, page_size}
use dma_migration_test.Fifo.Repr.{Queues}
use dma_migration_test.Fifo.Seg.{Distinct, Distinct-middle}
use dma_migration_test.Hemem.Calls.{size_of}
use dma_migration_test.Hemem.Fit.{IsFit, IsFit-content}
use dma_migration_test.Pebs.Drained.{after-queue}
use dma_migration_test.Pebs.Fresh.{
  Fresh, Oldest, Oldest-cons, Oldest-least, Oldest-map, Oldest-last, Oldest-take, IsFit-moved,
}
use dma_migration_test.Pebs.Hands.{used_queue, used_free, tier_free, tier_queue}
use dma_migration_test.Pebs.Invariant.{Inv, IsPlaced, in_use, at_list-All}
use dma_migration_test.Pebs.Loop.{Kept}
use dma_migration_test.Pebs.Rounds.{Moved}
use dma_migration_test.Pebs.Route.{
  Route, dram_to_dram, dram_to_nvm, nvm_to_dram, nvm_to_nvm, from_dram, to_dram, mapped_of, free_of,
  queue_of,
}
use dma_migration_test.Pebs.Settled.{after_round, taken_out, put_in}
use dma_migration_test.Pebs.Touched.{IsReady}

-- The free list of a tier after a round.
free_after :
    {P : Ptr → Type 0} {k : ℕ} (r : Route) (b : Bool) (p q : Ptr) (zs ys : List Ptr) (qs : Queues)
    → (b ≡ to_dram r → Oldest P k ys)
    → (¬ (b ≡ to_dram r) → Oldest P k (qs (free_of b)))
    → Oldest P k (after_round r p q zs ys qs (free_of b))
unfolding ListName-discrete
free_after dram_to_dram true p q zs ys qs t o = Oldest-cons q (t refl)
free_after dram_to_dram false p q zs ys qs t o = o (λ e. cc)
free_after dram_to_nvm true p q zs ys qs t o = Oldest-cons q (o (λ e. cc))
free_after dram_to_nvm false p q zs ys qs t o = t refl
free_after nvm_to_dram true p q zs ys qs t o = t refl
free_after nvm_to_dram false p q zs ys qs t o = Oldest-cons q (o (λ e. cc))
free_after nvm_to_nvm true p q zs ys qs t o = o (λ e. cc)
free_after nvm_to_nvm false p q zs ys qs t o = Oldest-cons q (t refl)

module _ (r : Route) {m : Machine} {qs : Queues} (inv : Inv m qs) (p q : Ptr) (zs ys : List Ptr)
    (e : qs (queue_of r) ≡ zs ++ p ∷ []) (d : qs (free_of (to_dram r)) ≡ ys ++ q ∷ [])
    (spare : Bool → ℕ) (k : Fresh r spare qs m) where
  target_frames :
      Oldest (λ a. IsFit (m.page a)) (suc (spare (to_dram r) + length zs)) (ys ++ q ∷ [])
  target_frames =
      let size : spare (to_dram r) + length (qs (queue_of r))
          ≡ suc (spare (to_dram r) + length zs) =
        omega (arith, ap length e, length-append zs (p ∷ [])) in
      subst (Oldest (λ a. IsFit (m.page a)) (suc (spare (to_dram r) + length zs))) d
        (subst (λ n. Oldest (λ a. IsFit (m.page a)) n (qs (free_of (to_dram r)))) size k.target)

  page-IsFit : IsFit (m.page p)
  page-IsFit =
      (All-back (λ a. IsFit (m.page a)) zs (p ∷ [])
        (subst (All (λ a. IsFit (m.page a))) e (k.pages (queue_of r) (used_queue r)))).0

  page-IsPlaced : IsPlaced m (queue_of r) p
  page-IsPlaced =
      (All-back (IsPlaced m (queue_of r)) zs (p ∷ [])
        (subst (All (IsPlaced m (queue_of r))) e (inv.placed (queue_of r)))).0

  frame-IsPlaced : IsPlaced m (free_of (to_dram r)) q
  frame-IsPlaced =
      (All-back (IsPlaced m (free_of (to_dram r))) ys (q ∷ [])
        (subst (All (IsPlaced m (free_of (to_dram r)))) d (inv.placed (free_of (to_dram r))))).0

  frame_fits : (m.page q).devdax_offset + page_size ≤ size_of (to_dram r)
  frame_fits =
      subst (λ b. (m.page q).devdax_offset + page_size ≤ size_of b)
        (frame-IsPlaced.0 ∙ tier_free (to_dram r)) (Oldest-last q ys target_frames).fits

  Fresh-IsReady : IsReady r (m.page p) (m.page q).devdax_offset
  Fresh-IsReady =
      let used = page-IsPlaced.1 ∙ used_queue r in
      let side = page-IsPlaced.0 ∙ tier_queue r in
      record {
        huge = page-IsFit.huge;
        mapped = page-IsFit.mapped used;
        aligned = page-IsFit.aligned used;
        tier = side;
        old_fits =
            subst (λ b. (m.page p).devdax_offset + page_size ≤ size_of b) side page-IsFit.fits;
        new_fits = frame_fits;
      }

  module _ {m' : Machine} (h : Moved r p q (after_round r p q zs ys qs) m m') where
    IsFit-after : (a : Ptr) → ¬ (a ≡ q) → IsFit (m.page a) → IsFit (m'.page a)
    IsFit-after a not_q f = elim (ℕ_discrete a p) [
      | yes is_p ↦ rw is_p (
          IsFit-content (sym h.page)
            (IsFit-moved r (m.page p) (m.page q).devdax_offset frame_fits page-IsFit))
      | no not_p ↦ IsFit-content (sym (h.others a not_p not_q)) f
    ]

    -- A page in use is not a free frame.
    not_frame : (a : Ptr) → (m.page a).present ≡ true → ¬ (a ≡ q)
    not_frame a used same =
        ground
          (arith, used, frame-IsPlaced.1, used_free (to_dram r), ap (λ b. (m.page b).present) same)

    pages_after :
        (n : ListName)
        → in_use n ≡ true
        → All (λ a. IsFit (m'.page a)) (after_round r p q zs ys qs n)
    pages_after =
        let P : ListName → List Ptr → Type 0 =
          λ n l. in_use n ≡ true → All (λ a. IsFit (m'.page a)) l in
        let old : (n : ListName) → P n (qs n) = λ n on.
          All-map₂ (qs n)
            (λ a placed (f : IsFit (m.page a)). IsFit-after a (not_frame a (placed.1 ∙ on)) f)
            (inv.placed n) (k.pages n on) in
        let unused : (b : Bool) (l : List Ptr) → P (free_of b) l =
          λ b l on. ground (arith, on, used_free b) in
        let out : (n : ListName) → P n (taken_out r zs ys qs n) =
          at_list-All P (free_of (to_dram r)) ys _
            (at_list-All P (queue_of r) zs qs old λ on.
              All-front _ zs (p ∷ [])
                (subst (All (λ a. IsFit (m'.page a))) e (old (queue_of r) on)))
            (unused (to_dram r) ys) in
        let page = IsFit-after p (not_frame p (page-IsPlaced.1 ∙ used_queue r)) page-IsFit in
        at_list-All P (free_of (from_dram r)) _ _
          (at_list-All P (mapped_of (to_dram r)) _ _ out
            λ on. (page, out (mapped_of (to_dram r)) on))
          (unused (from_dram r)
            (q ∷ put_in (mapped_of (to_dram r)) p (taken_out r zs ys qs) (free_of (from_dram r))))

    target_after :
        Oldest
          (λ a. IsFit (m'.page a))
          (spare (to_dram r) + length zs)
          (after_round r p q zs ys qs (free_of (to_dram r)))
    target_after =
        free_after r (to_dram r) p q zs ys qs
          (λ _.
            Oldest-map
              (All-map ys (λ a ne. IsFit-after a ne)
                (Distinct-middle ys [] q
                  (subst Distinct d (inv.lists (free_of (to_dram r))).distinct)).1)
              (Oldest-take q ys target_frames))
          (λ ne. absurd (ne refl))

    other_after :
        (b : Bool)
        → ¬ (b ≡ to_dram r)
        → Oldest (λ a. IsFit (m'.page a)) (spare b) (after_round r p q zs ys qs (free_of b))
    other_after b ne =
        free_after r b p q zs ys qs (λ same. absurd (ne same))
          (λ _.
            Oldest-map
              (All-map (qs (free_of b))
                (λ a placed. IsFit-after a λ same. ne (
                  sym (placed.0 ∙ tier_free b)
                  ∙ ap (λ c. (m.page c).in_dram) same
                  ∙ frame-IsPlaced.0
                  ∙ tier_free (to_dram r)))
                (inv.placed (free_of b)))
              (k.other b ne))

    Fresh-after : Fresh r spare (after_round r p q zs ys qs) m'
    Fresh-after = record {
      pages = pages_after;
      target = rw (after-queue p q zs ys qs r) target_after;
      other = other_after;
    }

pub Fresh-Kept : (r : Route) (spare : Bool → ℕ) → Kept r (Fresh r spare)
Fresh-Kept r spare = record {
  ready = λ m qs p q zs ys inv e d k. Fresh-IsReady r inv p q zs ys e d spare k;
  step = λ m m' qs p q zs ys inv e d k h. Fresh-after r inv p q zs ys e d spare k h;
}

-- The frames of `spare` are there in either tier.
pub spare_frames :
    (r : Route) (spare : Bool → ℕ) {qs : Queues} {m : Machine} (b : Bool)
    → Fresh r spare qs m
    → Oldest (λ a. IsFit (m.page a)) (spare b) (qs (free_of b))
spare_frames r spare {qs} {m} b k = elim (same_tier b (to_dram r)) [
  | inl same ↦ rw same (Oldest-least _ (spare (to_dram r)) (omega arith) k.target)
  | inr ne ↦ k.other b ne
]
  where
    same_tier : (b c : Bool) → (b ≡ c) ⊎ (¬ (b ≡ c))
    same_tier true true = inl refl
    same_tier true false = inr (λ e. cc)
    same_tier false true = inr (λ e. cc)
    same_tier false false = inl refl

-- The next queue's pages are among those that were to spare.
pub Fresh-next :
    (r r' : Route) (spare spare' : Bool → ℕ) {qs : Queues} {m : Machine}
    → spare' (to_dram r') + length (qs (queue_of r')) ≤ spare (to_dram r')
    → ((b : Bool) → spare' b ≤ spare b)
    → Fresh r spare qs m
    → Fresh r' spare' qs m
Fresh-next r r' spare spare' enough less k = record {
  pages = k.pages;
  target = Oldest-least (spare (to_dram r')) _ enough (spare_frames r spare (to_dram r') k);
  other = λ b _. Oldest-least (spare b) (spare' b) (less b) (spare_frames r spare b k);
}

pub enough-Fresh :
    (r : Route) (spare : Bool → ℕ) {qs : Queues} {m : Machine}
    → Fresh r spare qs m
    → length (qs (queue_of r)) ≤ length (qs (free_of (to_dram r)))
enough-Fresh r spare k =
    let o = k.target in omega (arith, o.enough, ap length o.split, length-append o.new o.old)
