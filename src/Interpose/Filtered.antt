-- ===== src/Interpose/Filtered.antt =====
-- Which calls the filters take.
use dma_migration_test.Base.{ℕ, ◌≡◌, Bool, not, ◌&&◌, none, some, if◌then◌else◌, ltb, arith}
use dma_migration_test.Machine.{Machine, MapFlags, HashTable, Os, ok, pure, ◌>>=◌}
use dma_migration_test.Hemem.Mmap.{hemem_mmap}
use dma_migration_test.Interpose.{gigabyte, is_devdax, mmap_filter}

-- A mapping for the manager: anonymous memory of a gigabyte at least, not a stack, not from a device
-- of the manager's, asked for by the application once the manager is initialised.
abbrev pub is_managed : Machine → MapFlags → (fd length : ℕ) → Bool
is_managed m flags fd length =
    flags.map_anonymous
    && not flags.map_stack
    && not (is_devdax m fd)
    && not m.internal_call
    && m.is_init
    && not (ltb length gigabyte)

-- The chain of the filter's tests, on their answers.
chain :
    {A : Type 0} (anonymous stack devdax internal init short : Bool) (pass take : A)
    → (if not anonymous && not devdax
        then pass
        else if stack
        then pass
        else if devdax
        then pass
        else if internal
        then pass
        else if not init
        then pass
        else if short
        then pass
        else take)
      ≡ (if anonymous && not stack && not devdax && not internal && init && not short
          then take
          else pass)
chain a s d i n l pass take = ground arith

module _ (os : Os) (table : HashTable) (fuel : ℕ) where
  -- The filter takes exactly the mappings for the manager: those it hands to `hemem_mmap` as they
  -- are, and all others go on to the kernel with the state as it is.
  pub mmap_filter-is_managed :
      (addr length prot : ℕ) (flags : MapFlags) (fd offset : ℕ) (m : Machine)
      → mmap_filter os table fuel addr length prot flags fd offset m ≡ (
          if is_managed m flags fd length
          then (hemem_mmap os table fuel addr length prot flags fd offset >>= λ r. pure (some r)) m
          else ok none m)
  unfolding mmap_filter
  mmap_filter-is_managed addr length prot flags fd offset m =
      chain flags.map_anonymous flags.map_stack (is_devdax m fd) m.internal_call m.is_init
        (ltb length gigabyte) _ _
