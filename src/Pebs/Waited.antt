-- ===== src/Pebs/Waited.antt =====
-- A write-protection fault in the middle of a page's migration: `handle_wp_fault` of hemem.c against
-- the functions `pebs_migrate_*` of pebs.c, whose thread has protected the page.
use dma_migration_test.Base.{◌≡◌, refl, sym, true, false}
use dma_migration_test.Machine.{
  Outcome, ok, abort, exit, fault, out_of_fuel, continue_with, Machine, Os, Cmd, ◌>>=◌, ◌>>◌,
}
use dma_migration_test.Machine.Yields
use dma_migration_test.Machine.Yields.{Yields}
use dma_migration_test.Hemem.Migrate.{Batch, hemem_migrate, hemem_wp_page}
use dma_migration_test.Pebs.Migration.{set_migrating, pages_of, migrate_with, migrate_of}
use dma_migration_test.Pebs.Remapped.{Remapped, migrate_of-migrate_with}
use dma_migration_test.Pebs.Route.{Route}
use dma_migration_test.Pebs.Touched.{Touched}

-- The two halves of a `pebs_migrate_*`: up to the write protection, and behind it.
unfoldable pub protect_pages : (os : Os) → Batch → Cmd (Unit {0})
protect_pages os batch = do
  set_migrating true (pages_of batch)
  hemem_wp_page os true (pages_of batch)

unfoldable pub move_pages : (os : Os) → Route → Batch → Cmd (Unit {0})
move_pages os r batch = do hemem_migrate os r batch; set_migrating false (pages_of batch)

continue-continue :
    {A B C : Type 0} (o : Outcome A) (k : A → Cmd B) (l : B → Cmd C)
    → continue_with (continue_with o k) l ≡ continue_with o (λ a. k a >>= l)
continue-continue (ok a m) k l = refl
continue-continue abort k l = refl
continue-continue exit k l = refl
continue-continue fault k l = refl
continue-continue out_of_fuel k l = refl

-- One after the other they are the whole function.
pub migrate_of-halves :
    (r : Route) (os : Os) (batch : Batch) (m : Machine)
    → migrate_of r os batch m ≡ (protect_pages os batch >> move_pages os r batch) m
unfolding protect_pages move_pages migrate_with
migrate_of-halves r os batch m =
    rw (migrate_of-migrate_with r os)
      (sym (continue-continue (set_migrating true (pages_of batch) m) _ _))
