-- ===== src/Machine/Rules.antt =====
-- Rules that step through a command: to run it, run what follows its first part.
use dma_migration_test.Base.{ℕ, ◌≡◌, Bool, true, not, ◌==◌, if◌then◌else◌}
use dma_migration_test.Machine.{
  Ptr, null, HememPage, FifoList, ListName, Machine, Cmd, continue_with, assert, when, load, modify,
  modify_fifo, at_page, at_list, PageType, pt_to_pagesize, hugepage_size,
}
use dma_migration_test.Machine.Update.{
  load-ok, modify-ok, modify_fifo-when, modify-when, modify_either,
}
use dma_migration_test.Machine.Yields.{Yields}

module _ {A : Type 0} {Q : A → Machine → Type 0} where
  pub load-then :
      (p : Ptr) (m : Machine) (k : HememPage → Cmd A)
      → ¬ (p ≡ null)
      → Yields Q (k (m.page p) m)
      → Yields Q (continue_with (load p m) k)
  load-then p m k ne h = rw (load-ok m ne) h

  pub modify-then :
      (p : Ptr) (f : HememPage → HememPage) (m : Machine) (k : Unit {0} → Cmd A)
      → ¬ (p ≡ null)
      → Yields Q (k tt (record m { page = at_page m.page p (f (m.page p)) }))
      → Yields Q (continue_with (modify p f m) k)
  modify-then p f m k ne h = rw (modify-ok m ne f) h

  pub assert-then :
      (b : Bool) (m : Machine) (k : Unit {0} → Cmd A)
      → b ≡ true
      → Yields Q (k tt m)
      → Yields Q (continue_with (assert b m) k)
  unfolding assert
  assert-then b m k e h = rw e h

  pub modify_fifo-then :
      (n : ListName) (f : FifoList → FifoList) (m : Machine) (k : Unit {0} → Cmd A)
      → Yields Q (k tt (record m { fifo = at_list m.fifo n (f (m.fifo n)) }))
      → Yields Q (continue_with (modify_fifo n f m) k)
  unfolding modify_fifo
  modify_fifo-then n f m k h = h

  pub modify_fifo-when-then :
      (n : ListName) (f : FifoList → FifoList) (b : Bool) (m : Machine) (k : Unit {0} → Cmd A)
      → Yields Q
          (k tt (record m { fifo = at_list m.fifo n (if b then f (m.fifo n) else m.fifo n) }))
      → Yields Q (continue_with (when b (modify_fifo n f) m) k)
  modify_fifo-when-then n f b m k h = rw (modify_fifo-when m n f b) h

  pub modify-when-then :
      (q : Ptr) (f : HememPage → HememPage) (m : Machine) (k : Unit {0} → Cmd A)
      → Yields Q
          (k tt (record m { page = if q == null then m.page else at_page m.page q (f (m.page q)) }))
      → Yields Q (continue_with (when (not (q == null)) (modify q f) m) k)
  modify-when-then q f m k h = rw (modify-when m q f) h

  pub modify_either-then :
      (n : ListName) (q : Ptr) (f : FifoList → FifoList) (g : HememPage → HememPage) (m : Machine)
      (k : Unit {0} → Cmd A)
      → Yields Q (
          k tt (record m {
            page = if q == null then m.page else at_page m.page q (g (m.page q));
            fifo = at_list m.fifo n (if q == null then f (m.fifo n) else m.fifo n);
          }))
      → Yields Q (continue_with ((if q == null then modify_fifo n f else modify q g) m) k)
  modify_either-then n q f g m k h = rw (modify_either m n q f g) h

  pub pagesize-then :
      (t : PageType) (m : Machine) (k : ℕ → Cmd A)
      → t ≡ PageType.hugep
      → Yields Q (k hugepage_size m)
      → Yields Q (continue_with (pt_to_pagesize t m) k)
  unfolding pt_to_pagesize
  pagesize-then t m k e h = rw e h
