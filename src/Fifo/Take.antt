-- ===== src/Fifo/Take.antt =====
-- Taking a page out of the sequence that a list stands for: any page, or the last one.
use dma_migration_test.Base.{
  ◌≡◌, refl, List, [], ◌∷◌, ◌++◌, length-append, arith, first_or, last_or, last_or-append,
  if◌then◌else◌, ◌==◌, sym, ◌∙◌, some, subst,
}
use mathlib.Core.List.{append-nil}
use dma_migration_test.Machine.{Ptr, null, ListName, Machine, ok}
use dma_migration_test.Machine.Yields
use dma_migration_test.Machine.Yields.{Yields, yields}
use dma_migration_test.Fifo.{page_list_remove_page, dequeue_fifo}
use dma_migration_test.Fifo.Seg.{Seg-head, Seg-back, Seg-front, Seg-All, Distinct-middle}
use dma_migration_test.Fifo.Splice.{Splice-Seg, Avoids-last, All-last, first-Avoids, Distinct-back}
use dma_migration_test.Fifo.Repr.{IsFifo, ListStep, Detached}
use dma_migration_test.Fifo.Remove.{Between, TakenOut, remove-TakenOut, dequeue-TakenOut}

-- What taking `p` off list `n` leaves.
abbrev pub Removed : ListName → Ptr → List Ptr → Machine → Machine → Type 0
Removed n p xs m m' = IsFifo m' n xs × ListStep n p m m' × Detached (m'.page p)

module _ {n : ListName} (p : Ptr) {m : Machine} where
  before-ne : (xs ys : List Ptr) → IsFifo m n (xs ++ p ∷ ys) → ¬ (last_or null xs ≡ p)
  before-ne [] ys h e = (Seg-head h.chain).ne_null (sym e)
  before-ne (x ∷ xs) ys h e = Avoids-last p x xs (Distinct-middle (x ∷ xs) ys p h.distinct).1 e

  behind-ne : (xs ys : List Ptr) → IsFifo m n (xs ++ p ∷ ys) → ¬ (first_or null ys ≡ p)
  behind-ne xs [] h e = (Seg-head (Seg-back xs (p ∷ []) h.chain)).ne_null (sym e)
  behind-ne xs (y ∷ ys) h e = (Distinct-back xs (p ∷ y ∷ ys) h.distinct).0.0 e

  ends_apart :
      (xs ys : List Ptr)
      → IsFifo m n (xs ++ p ∷ ys)
      → last_or null xs ≡ first_or null ys
      → last_or null xs ≡ null
  ends_apart [] ys h e = refl
  ends_apart (x ∷ xs) ys h e = absurd (
      Avoids-last (first_or null ys) x xs
        (first-Avoids (x ∷ xs) ys (Seg-front (x ∷ xs) (p ∷ ys) h.chain)
          (Distinct-middle (x ∷ xs) ys p h.distinct).0)
        e)

  last-on :
      (xs ys : List Ptr)
      → IsFifo m n (xs ++ p ∷ ys)
      → ¬ (last_or null xs ≡ null)
      → (m.page (last_or null xs)).list ≡ some n
  last-on [] ys h ne = absurd (ne refl)
  last-on (x ∷ xs) ys h ne = (All-last _ x xs (Seg-All (Seg-front (x ∷ xs) (p ∷ ys) h.chain))).1

  first-on :
      (xs ys : List Ptr)
      → IsFifo m n (xs ++ p ∷ ys)
      → ¬ (first_or null ys ≡ null)
      → (m.page (first_or null ys)).list ≡ some n
  first-on xs [] h ne = absurd (ne refl)
  first-on xs (y ∷ ys) h ne = (Seg-All (Seg-back xs (p ∷ y ∷ ys) h.chain)).1.0.1

  pub Between-of_IsFifo :
      (xs ys : List Ptr)
      → IsFifo m n (xs ++ p ∷ ys)
      → Between n (last_or null xs) p (first_or null ys) m
  Between-of_IsFifo xs ys h =
      let count = length-append xs (p ∷ ys) in
      let entries = h.numentries in
      let bound = h.bounded in
      record {
        node = Seg-head (Seg-back xs (p ∷ ys) h.chain);
        apart_left = before-ne xs ys h;
        apart_right = behind-ne xs ys h;
        apart = ends_apart xs ys h;
        on_left = last-on xs ys h;
        on_right = first-on xs ys h;
        some_entry = omega arith;
        in_range = omega arith;
      }

  new_first :
      (xs ys : List Ptr)
      → IsFifo m n (xs ++ p ∷ ys)
      → (if (m.fifo n).first == p then first_or null ys else (m.fifo n).first)
        ≡ first_or null (xs ++ ys)
  new_first [] ys h = ground (arith, h.first)
  new_first (x ∷ xs) ys h = ground (arith, h.first, (Distinct-middle (x ∷ xs) ys p h.distinct).1.0)

  new_last :
      (xs ys : List Ptr)
      → IsFifo m n (xs ++ p ∷ ys)
      → (if (m.fifo n).last == p then last_or null xs else (m.fifo n).last)
        ≡ last_or null (xs ++ ys)
  new_last xs [] h =
      ground (arith, h.last, last_or-append null xs (p ∷ []), last_or-append null xs [])
  new_last xs (y ∷ ys) h = ground (
    arith,
    h.last,
    last_or-append null xs (p ∷ y ∷ ys),
    last_or-append null xs (y ∷ ys),
    Avoids-last p y ys (Distinct-back xs (p ∷ y ∷ ys) h.distinct).0,
  )

  first-ne : (xs ys : List Ptr) → IsFifo m n (xs ++ p ∷ ys) → ¬ ((m.fifo n).first ≡ null)
  first-ne [] ys h e = (Seg-head h.chain).ne_null (sym h.first ∙ e)
  first-ne (x ∷ xs) ys h e = (Seg-head h.chain).ne_null (sym h.first ∙ e)

  pub Removed-of_TakenOut :
      {m' : Machine} (xs ys : List Ptr)
      → IsFifo m n (xs ++ p ∷ ys)
      → TakenOut n (last_or null xs) p (first_or null ys) m m'
      → Removed n p (xs ++ ys) m m'
  Removed-of_TakenOut xs ys h t =
      let shorter = length-append xs ys in
      let longer = length-append xs (p ∷ ys) in
      let entries = h.numentries in
      let bound = h.bounded in
      let count = t.count in
      (
        record {
          first = t.first ∙ new_first xs ys h;
          last = t.last ∙ new_last xs ys h;
          numentries = omega arith;
          bounded = omega arith;
          chain = Splice-Seg xs ys t.splice h.chain h.distinct;
          distinct = (Distinct-middle xs ys p h.distinct).0;
        },
        t.step,
        t.off,
      )

  pub page_list_remove_page-Removed :
      (xs ys : List Ptr)
      → IsFifo m n (xs ++ p ∷ ys)
      → Yields (λ _. Removed n p (xs ++ ys) m) (page_list_remove_page n p m)
  page_list_remove_page-Removed xs ys h =
      Yields.weaken (remove-TakenOut n p m (Between-of_IsFifo xs ys h) (first-ne xs ys h))
        λ _ m' t. Removed-of_TakenOut xs ys h t

  -- The page is the first exactly when nothing stands before it.
  only_entry :
      (xs : List Ptr) → IsFifo m n (xs ++ p ∷ []) → (m.fifo n).first ≡ p → last_or null xs ≡ null
  only_entry [] h e = refl
  only_entry (x ∷ xs) h e =
      absurd ((Distinct-middle (x ∷ xs) [] p h.distinct).1.0 (sym h.first ∙ e))

  sole_entry :
      (xs : List Ptr) → IsFifo m n (xs ++ p ∷ []) → last_or null xs ≡ null → (m.fifo n).first ≡ p
  sole_entry [] h e = h.first
  sole_entry (x ∷ xs) h e =
      absurd ((All-last _ x xs (Seg-All (Seg-front (x ∷ xs) (p ∷ []) h.chain))).0 e)

  pub dequeue_fifo-Removed :
      (xs : List Ptr)
      → IsFifo m n (xs ++ p ∷ [])
      → Yields (λ r m'. (r ≡ p) × Removed n p xs m m') (dequeue_fifo n m)
  dequeue_fifo-Removed xs h =
      Yields.weaken
        (dequeue-TakenOut n p m (Between-of_IsFifo xs [] h)
          (h.last ∙ last_or-append null xs (p ∷ [])) refl (only_entry xs h) (sole_entry xs h))
        λ r m' (e, t).
          (e, subst (λ l. Removed n p l m m') (append-nil xs) (Removed-of_TakenOut xs [] h t))

-- An empty list answers NULL and stays as it is.
pub dequeue_fifo-nil : (n : ListName) (m : Machine) → IsFifo m n [] → dequeue_fifo n m ≡ ok null m
unfolding dequeue_fifo
dequeue_fifo-nil n m h = rw h.last
