-- ===== src/Interpose.antt =====
-- interpose.c: which of the application's `mmap` and `munmap` calls go to the manager. `none` stands
-- for the result 1, which lets the call go on to the kernel; `some r` for 0, with `r` in `*result`.
pub mod Filtered
use dma_migration_test.Base.{
  ℕ, ◌*◌, ◌%◌, ◌^◌, Bool, true, false, not, ◌&&◌, ◌||◌, Option, none, some, ◌==◌, if◌then◌else◌,
  ltb,
}
use dma_migration_test.Machine.{Machine, MapFlags, HashTable, Os, Cmd, ok, pure, ◌>>=◌}
use dma_migration_test.Hemem.Faults.{hemem_munmap}
use dma_migration_test.Hemem.Mmap.{hemem_mmap}

-- What the kernel's interface fixes: two system call numbers, and the flags that an `int` holds.
pub record Abi : Type 0 where
  pub sys_mmap : ℕ
  pub sys_munmap : ℕ
  pub flags_of : ℕ → MapFlags

-- `(int)arg`, as the pattern of its 32 bits.
abbrev pub as_int : ℕ → ℕ
as_int arg = arg % 2 ^ 32

abbrev pub gigabyte : ℕ
gigabyte = 1024 * 1024 * 1024

-- `(fd == dramfd) || (fd == nvmfd)`.
abbrev pub is_devdax : Machine → (fd : ℕ) → Bool
is_devdax m fd = (fd == m.dev.dramfd) || (fd == m.dev.nvmfd)

module _ (os : Os) (table : HashTable) (fuel : ℕ) where
  unfoldable pub mmap_filter :
      (addr length prot : ℕ) (flags : MapFlags) (fd offset : ℕ) → Cmd (Option ℕ)
  mmap_filter addr length prot flags fd offset m =
      if not flags.map_anonymous && not (is_devdax m fd)
      then ok none m
      else if flags.map_stack
      then ok none m
      else if is_devdax m fd
      then ok none m
      else if m.internal_call
      then ok none m
      else if not m.is_init
      then ok none m
      else if ltb length gigabyte
      then ok none m
      else (hemem_mmap os table fuel addr length prot flags fd offset >>= λ r. pure (some r)) m

  unfoldable pub munmap_filter : (addr length : ℕ) → Cmd (Option ℕ)
  munmap_filter addr length m =
      if m.internal_call
      then ok none m
      else (hemem_munmap os table fuel addr length >>= λ r. pure (some r)) m

  unfoldable pub hook : Abi → (syscall_number arg0 arg1 arg2 arg3 arg4 arg5 : ℕ) → Cmd (Option ℕ)
  hook abi syscall_number arg0 arg1 arg2 arg3 arg4 arg5 =
      if syscall_number == abi.sys_mmap
      then mmap_filter arg0 arg1 (as_int arg2) (abi.flags_of (as_int arg3)) (as_int arg4) arg5
      else if syscall_number == abi.sys_munmap
      then munmap_filter arg0 arg1
      else pure none
