-- ===== src/Fifo.antt =====
-- fifo.c: the doubly linked page lists. Each function runs under its list's mutex, so it is one
-- step here. `enqueue_fifo` puts a page at the `first` end and `dequeue_fifo` takes the `last`.
pub mod Seg
pub mod Repr
pub mod Enqueue
pub mod Splice
pub mod Remove
pub mod Take
pub mod Laws
use dma_migration_test.Base.{
  ℕ, ◌<◌, Bool, true, Option, none, some, ◌==◌, if◌then◌else◌, ltb, inc64, dec64, not,
}
use dma_migration_test.Machine.{
  Ptr, null, HememPage, FifoList, ListName, ListName-discrete, Cmd, pure, ◌>>=◌, ◌>>◌, assert, load,
  modify, get_fifo, modify_fifo, when,
}

unfoldable pub enqueue_fifo : (queue : ListName) (entry : Ptr) → Cmd (Unit {0})
enqueue_fifo queue entry = do
  e ← load entry
  assert (e.prev == null)
  q ← get_fifo queue
  modify entry (λ r. record r { next = q.first })
  if q.first == null
      then (do
        assert (q.last == null)
        assert (q.numentries == 0)
        modify_fifo queue (λ l. record l { last = entry }))
      else (do
        head ← load q.first
        assert (head.prev == null)
        modify q.first (λ r. record r { prev = entry }))
  modify_fifo queue (λ l. record l { first = entry })
  modify entry (λ r. record r { list = some queue })
  modify_fifo queue (λ l. record l { numentries = inc64 l.numentries })

-- NULL is the answer of an empty list.
unfoldable pub dequeue_fifo : (queue : ListName) → Cmd Ptr
dequeue_fifo queue = do
  q ← get_fifo queue
  if q.last == null then pure null else do
    ret ← load q.last
    modify_fifo queue (λ l. record l { last = ret.prev })
    if ret.prev == null
        then modify_fifo queue (λ l. record l { first = null })
        else modify ret.prev (λ r. record r { next = null })
    modify q.last (λ r. record r { prev = null; next = null; list = none })
    l ← get_fifo queue
    assert (ltb 0 l.numentries)
    modify_fifo queue (λ l. record l { numentries = dec64 l.numentries })
    pure q.last

unfoldable pub page_list_remove_page : (list : ListName) (page : Ptr) → Cmd (Unit {0})
page_list_remove_page list page = do
  l ← get_fifo list
  if l.first == null then (do assert (l.last == null); assert (l.numentries == 0)) else do
    p ← load page
    when (l.first == page) (modify_fifo list (λ l. record l { first = p.next }))
    when (l.last == page) (modify_fifo list (λ l. record l { last = p.prev }))
    when (not (p.next == null)) (modify p.next (λ r. record r { prev = p.prev }))
    p ← load page
    when (not (p.prev == null)) (modify p.prev (λ r. record r { next = p.next }))
    l ← get_fifo list
    assert (ltb 0 l.numentries)
    modify_fifo list (λ l. record l { numentries = dec64 l.numentries })
    modify page (λ r. record r { next = null; prev = null; list = none })

-- `page->list == list`, for a list that is not NULL.
abbrev pub on_list : Option ListName → ListName → Bool
on_list none n = Bool.false
on_list (some k) n = elim (ListName-discrete k n) [ yes _ ↦ true | no _ ↦ Bool.false ]

-- From the `last` end towards the `first`; NULL starts the walk, and ends it.
unfoldable pub next_page : (list : ListName) (page : Ptr) → Cmd Ptr
next_page list page =
    if page == null
    then (do l ← get_fifo list; pure l.last)
    else do p ← load page; assert (on_list p.list list); pure p.prev
