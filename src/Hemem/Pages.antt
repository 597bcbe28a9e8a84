-- ===== src/Hemem/Pages.antt =====
-- The table of mapped pages of hemem.c: `add_page`, `remove_page` and `find_page`. What uthash does is
-- a parameter.
use dma_migration_test.Base.{ℕ, ◌≡◌, ◌∷◌, ◌==◌, List}
use dma_migration_test.Machine.{
  Ptr, null, TableOp, hash_add, hash_del, HashTable, Cmd, ok, ◌>>=◌, ◌>>◌, assert, load,
}

-- What uthash documents: an element is found by the key that it was added under until it is
-- deleted, and other keys are not affected.
pub record FindsByKey (table : HashTable) : Type 0 where
  pub added : (t : List TableOp) (va : ℕ) (p : Ptr) → table.find (hash_add va p ∷ t) va ≡ p
  pub added_other :
      (t : List TableOp) (va k : ℕ) (p : Ptr)
      → ¬ (k ≡ va)
      → table.find (hash_add va p ∷ t) k ≡ table.find t k
  pub deleted : (t : List TableOp) (k : ℕ) → table.find (hash_del (table.find t k) ∷ t) k ≡ null
  pub deleted_other :
      (t : List TableOp) (k : ℕ) (p : Ptr)
      → ¬ (table.find t k ≡ p)
      → table.find (hash_del p ∷ t) k ≡ table.find t k

unfoldable pub table_step : TableOp → Cmd (Unit {0})
table_step op m = ok tt (record m { pages = op ∷ m.pages })

module _ (table : HashTable) where
  unfoldable pub find_page : (va : ℕ) → Cmd Ptr
  find_page va m = ok (table.find m.pages va) m

  unfoldable pub add_page : (page : Ptr) → Cmd (Unit {0})
  add_page page = do
    q ← load page
    p ← find_page q.va
    assert (p == null)
    table_step (hash_add q.va page)

  unfoldable pub remove_page : (page : Ptr) → Cmd (Unit {0})
  remove_page page = table_step (hash_del page)
