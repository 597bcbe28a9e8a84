-- ===== src/Fifo/Repr.antt =====
-- What the list headers and the descriptors stand for: a sequence of pages for each list, the
-- latest entry first, and what one operation on one list leaves alone.
use dma_migration_test.Base.{
  ◌<◌, ◌≡◌, List, none, some, length, first_or, last_or, u64_mod, All-map, sym,
}
use dma_migration_test.Machine.{Ptr, null, HememPage, ListName, Machine}
use dma_migration_test.Fifo.Seg.{Seg, Seg-frame, Seg-All, Distinct}

-- List `n` holds the pages `xs`, from its `first` to its `last`.
pub record IsFifo (m : Machine) (n : ListName) (xs : List Ptr) : Type 0 where
  pub first : (m.fifo n).first ≡ first_or null xs
  pub last : (m.fifo n).last ≡ last_or null xs
  pub numentries : (m.fifo n).numentries ≡ length xs
  pub bounded : length xs < u64_mod
  pub chain : Seg m.page n null null xs
  pub distinct : Distinct xs

abbrev pub Queues : Type 0
Queues = ListName → List Ptr

-- All lists at once. A page is on one list at most, since its descriptor names it.
abbrev pub Represents : Machine → Queues → Type 0
Represents m qs = (n : ListName) → IsFifo m n (qs n)

-- A page on no list, as `calloc` and `dequeue_fifo` leave it.
pub record Detached (r : HememPage) : Type 0 where
  pub next : r.next ≡ null
  pub prev : r.prev ≡ null
  pub list : r.list ≡ none

-- A descriptor without its links: what the list operations do not write.
abbrev pub unlinked : HememPage → HememPage
unlinked r = record r { next = null; prev = null; list = none }

-- A step on list `n` that moves page `p` on or off it.
pub record ListStep (n : ListName) (p : Ptr) (m m' : Machine) : Type 0 where
  pub same_page : (a : Ptr) → ¬ ((m.page a).list ≡ some n) → ¬ (a ≡ p) → m'.page a ≡ m.page a
  pub same_content : (a : Ptr) → unlinked (m'.page a) ≡ unlinked (m.page a)
  pub same_fifo : (k : ListName) → ¬ (k ≡ n) → m'.fifo k ≡ m.fifo k
  pub same_num : m'.num ≡ m.num
  pub same_call : m'.internal_call ≡ m.internal_call
  pub same_dev : m'.dev ≡ m.dev
  pub same_trace : m'.trace ≡ m.trace
  pub same_pages : m'.pages ≡ m.pages

-- The other lists do not change.
pub IsFifo-frame :
    {n k : ListName} {p : Ptr} {m m' : Machine} {xs : List Ptr}
    → ListStep n p m m'
    → ¬ (k ≡ n)
    → ¬ ((m.page p).list ≡ some k)
    → IsFifo m k xs
    → IsFifo m' k xs
IsFifo-frame {n} {k} {p} {m} {m'} {xs} step ne off h = record {
  first = rw (step.same_fifo k ne) h.first;
  last = rw (step.same_fifo k ne) h.last;
  numentries = rw (step.same_fifo k ne) h.numentries;
  bounded = h.bounded;
  chain = Seg-frame h.chain (All-map xs kept (Seg-All h.chain));
  distinct = h.distinct;
}
  where
    kept : (a : Ptr) → ¬ (a ≡ null) × ((m.page a).list ≡ some k) → m'.page a ≡ m.page a
    kept a (_, on) = step.same_page a (λ e. ne (cc)) (λ e. off (rw (sym e) on))
