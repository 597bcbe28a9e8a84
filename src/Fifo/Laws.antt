-- ===== src/Fifo/Laws.antt =====
-- The list operations against the sequences that all the lists stand for.
use dma_migration_test.Base.{
  ◌≡◌, refl, sym, List, [], ◌∷◌, ◌++◌, suc, none, some, length, ◌<◌, u64_mod, arith, last_or,
  if_pos, if_neg, subst, Bool, true, eqb_ne,
}
use dma_migration_test.Machine.{
  Ptr, null, ListName, ListName-discrete, Machine, ok, at_list, assert,
}
use dma_migration_test.Machine.Update.{load-ok}
use dma_migration_test.Machine.Yields
use dma_migration_test.Machine.Yields.{Yields, yields}
use dma_migration_test.Fifo.{enqueue_fifo, dequeue_fifo, page_list_remove_page, next_page, on_list}
use dma_migration_test.Fifo.Seg.{Seg-head, Seg-back}
use dma_migration_test.Fifo.Repr.{IsFifo, Queues, Represents, ListStep, Detached, IsFifo-frame}
use dma_migration_test.Fifo.Enqueue.{enqueue_fifo-IsFifo}
use dma_migration_test.Fifo.Take.{
  Removed, page_list_remove_page-Removed, dequeue_fifo-Removed, dequeue_fifo-nil,
}

-- Changing the sequence of one list, where the others are framed.
Represents-at :
    {n : ListName} {p : Ptr} {m m' : Machine} (qs : Queues) (xs : List Ptr)
    → Represents m qs
    → ListStep n p m m'
    → ((k : ListName) → ¬ (k ≡ n) → ¬ ((m.page p).list ≡ some k))
    → IsFifo m' n xs
    → Represents m' (at_list qs n xs)
Represents-at {n} {m'} qs xs r step off h k = elim (ListName-discrete k n) [
  | yes e ↦ rw (if_pos _ e) (subst (λ j. IsFifo m' j xs) (sym e) h)
  | no ne ↦ rw (if_neg _ ne) (IsFifo-frame step ne (off k ne) (r k))
]

-- What `enqueue_fifo` promises.
pub record Enqueued (n : ListName) (p : Ptr) (qs : Queues) (m m' : Machine) : Type 0 where
  pub queues : Represents m' (at_list qs n (p ∷ qs n))
  pub step : ListStep n p m m'

-- What taking `p` off list `n` promises.
pub record Taken (n : ListName) (p : Ptr) (xs : List Ptr) (qs : Queues) (m m' : Machine)
    : Type 0 where
  pub queues : Represents m' (at_list qs n xs)
  pub step : ListStep n p m m'
  pub off : Detached (m'.page p)

module _ {m : Machine} {qs : Queues} (r : Represents m qs) where
  -- For a page that is on no list, `enqueue_fifo` returns with the page in front of the list's
  -- sequence. Every other list stands for what it did, and of the descriptors only links change.
  pub enqueue_fifo-Enqueued :
      (n : ListName) (p : Ptr)
      → ¬ (p ≡ null)
      → (m.page p).prev ≡ null
      → (m.page p).list ≡ none
      → suc (length (qs n)) < u64_mod
      → Yields (λ _. Enqueued n p qs m) (enqueue_fifo n p m)
  enqueue_fifo-Enqueued n p valid loose off room =
      Yields.weaken (enqueue_fifo-IsFifo n p m valid loose (λ e. cc) (qs n) (r n) room)
        λ _ m' (h, step). record {
          queues = Represents-at qs (p ∷ qs n) r step (λ k ne e. cc) h;
          step = step;
        }

  Taken-of_Removed :
      {n : ListName} {p : Ptr} {m' : Machine} (xs : List Ptr)
      → (m.page p).list ≡ some n
      → Removed n p xs m m'
      → Taken n p xs qs m m'
  Taken-of_Removed {n} xs on (h, step, off) = record {
    queues = Represents-at qs xs r step (λ k ne e. ne (cc)) h;
    step = step;
    off = off;
  }

  on_its_list :
      {n : ListName} (p : Ptr) (xs ys : List Ptr) → qs n ≡ xs ++ p ∷ ys → (m.page p).list ≡ some n
  on_its_list {n} p xs ys e =
      (Seg-head (Seg-back xs (p ∷ ys) (subst (IsFifo m n) e (r n)).chain)).list

  -- `dequeue_fifo` on a list that is not empty returns the last page of the sequence, takes it off,
  -- and leaves its links NULL. The other lists stand for what they did.
  pub dequeue_fifo-Taken :
      (n : ListName) (xs : List Ptr) (p : Ptr)
      → qs n ≡ xs ++ p ∷ []
      → Yields (λ a m'. (a ≡ p) × Taken n p xs qs m m') (dequeue_fifo n m)
  dequeue_fifo-Taken n xs p e =
      Yields.weaken (dequeue_fifo-Removed p xs (subst (IsFifo m n) e (r n)))
        λ a m' (same, h). (same, Taken-of_Removed xs (on_its_list p xs [] e) h)

  -- On an empty list `dequeue_fifo` returns NULL and changes nothing.
  pub dequeue_fifo-empty : (n : ListName) → qs n ≡ [] → dequeue_fifo n m ≡ ok null m
  dequeue_fifo-empty n e = dequeue_fifo-nil n m (subst (IsFifo m n) e (r n))

  -- `page_list_remove_page` takes out a page wherever it stands in its list, and keeps the order of
  -- the others.
  pub page_list_remove_page-Taken :
      (n : ListName) (xs ys : List Ptr) (p : Ptr)
      → qs n ≡ xs ++ p ∷ ys
      → Yields (λ _. Taken n p (xs ++ ys) qs m) (page_list_remove_page n p m)
  page_list_remove_page-Taken n xs ys p e =
      Yields.weaken (page_list_remove_page-Removed p xs ys (subst (IsFifo m n) e (r n)))
        λ _ m' h. Taken-of_Removed (xs ++ ys) (on_its_list p xs ys e) h

  on_list-true : (n : ListName) → on_list (some n) n ≡ true
  on_list-true n =
      elim (ListName-discrete n n) as (λ d. elim d [ yes _ ↦ true | no _ ↦ Bool.false ] ≡ true) [
        | yes _ ↦ refl
        | no ne ↦ absurd (ne refl)
      ]

  -- `next_page` walks a list from its last page to its first: NULL gives the last page, each page
  -- the one before it, and the first page NULL. It changes nothing.
  pub next_page-walk :
      (n : ListName)
      → (next_page n null m ≡ ok (last_or null (qs n)) m)
        × ((xs ys : List Ptr) (p : Ptr)
            → qs n ≡ xs ++ p ∷ ys
            → next_page n p m ≡ ok (last_or null xs) m)
  unfolding next_page assert
  next_page-walk n = (ground (arith, (r n).last), visit)
    where
      visit :
          (xs ys : List Ptr) (p : Ptr)
          → qs n ≡ xs ++ p ∷ ys
          → next_page n p m ≡ ok (last_or null xs) m
      visit xs ys p e =
          let node = Seg-head (Seg-back xs (p ∷ ys) (subst (IsFifo m n) e (r n)).chain) in
          rw (
            eqb_ne p null node.ne_null,
            load-ok m node.ne_null,
            node.list,
            on_list-true n,
            node.prev,
          )
