-- ===== src/Hemem/Mmap.antt =====
-- `hemem_mmap` of hemem.c, and PAGE_ROUND_UP.
use dma_migration_test.Base.{ℕ, ◌-◌, true, false, not, ◌==◌, if◌then◌else◌, add64, u64_mod, bit_and}
use dma_migration_test.Machine.{
  Machine, MapFlags, HashTable, Os, Cmd, ok, pure, ◌>>=◌, ◌>>◌, assert, when, mmap, requested,
  uffd_cr3, page_size, set_internal_call,
}
use dma_migration_test.Hemem.Calls.{ioctl, libc_mmap, register_range}
use dma_migration_test.Hemem.Faults.{hemem_mmap_populate}

-- `x & ~(PAGE_SIZE - 1)` on 64 bits.
unfoldable pub page_base : ℕ → ℕ
page_base x = bit_and x (u64_mod - page_size)

-- PAGE_ROUND_UP.
unfoldable pub page_round_up : ℕ → ℕ
unfolding page_base
page_round_up x = page_base (add64 x (page_size - 1))

-- What the reserving `mmap` is asked for in place of the application's flags.
unfoldable pub devdax_flags : MapFlags → MapFlags
devdax_flags flags =
    let shared =
      if flags.map_private
      then record flags { map_private = false; map_shared = true }
      else flags in
    let named = if shared.map_anonymous then record shared { map_anonymous = false } else shared in
    if named.map_hugetlb then record named { map_hugetlb = false } else named

abbrev get_machine : Cmd Machine
get_machine m = ok m m

module _ (os : Os) where
  -- The kernel's answer to UFFDIO_CR3 is kept once.
  unfoldable pub ask_cr3 : Cmd (Unit {0})
  ask_cr3 = do
    m ← get_machine
    when (not m.cr3_set) (do
      done ← ioctl os uffd_cr3
      assert done
      λ k. ok tt (record k { cr3 = os.cr3_result m.trace; cr3_set = true }))

module _ (os : Os) (table : HashTable) where
  -- `fd` is not read.
  unfoldable pub hemem_mmap : (fuel addr length prot : ℕ) (flags : MapFlags) (fd offset : ℕ) → Cmd ℕ
  unfolding devdax_flags page_round_up ask_cr3
  hemem_mmap fuel addr length prot flags fd offset = do
    set_internal_call true
    m ← get_machine
    assert m.is_init
    assert (not (length == 0))
    p ←
        libc_mmap os (
          mmap addr (page_round_up length) (requested prot (devdax_flags flags)) m.dev.dramfd
            offset)
    assert (not (p == 0))
    register_range os p (page_round_up length)
    ask_cr3 os
    when (devdax_flags flags).map_populate
        (hemem_mmap_populate os table fuel p (page_round_up length))
    set_internal_call false
    pure p
