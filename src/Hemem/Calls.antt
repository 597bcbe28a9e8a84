-- ===== src/Hemem/Calls.antt =====
-- The calls of hemem.c on the kernel and on the devices: each is logged, and answered by `os`.
use dma_migration_test.Base.{ℕ, Bool, ◌∷◌, if◌then◌else◌, not, ◌==◌}
use dma_migration_test.Machine.{
  Cmd, ok, ◌>>=◌, ◌>>◌, pure, assert, Os, Event, Devices, mmap, munmap, uffd_register,
  populate_fixed, dramsize, nvmsize,
}

-- The size of a device, where it is mapped, and its file descriptor; `true` is DRAM.
abbrev pub size_of : Bool → ℕ
size_of in_dram = if in_dram then dramsize else nvmsize

abbrev pub base_of : Devices → Bool → ℕ
base_of dev in_dram = if in_dram then dev.dram_devdax_mmap else dev.nvm_devdax_mmap

abbrev pub fd_of : Devices → Bool → ℕ
fd_of dev in_dram = if in_dram then dev.dramfd else dev.nvmfd

abbrev pub get_dev : Cmd Devices
get_dev m = ok m.dev m

module _ (os : Os) where
  -- `ioctl(uffd, ...)`: whether it succeeded.
  unfoldable pub ioctl : Event → Cmd Bool
  ioctl e m = ok (os.ioctl_succeeds m.trace e) (record m { trace = e ∷ m.trace })

  -- `libc_mmap`, behind the check for MAP_FAILED that every caller makes.
  unfoldable pub libc_mmap : Event → Cmd ℕ
  libc_mmap e = do
    newptr ← λ m. ok (os.mmap_result m.trace e) (record m { trace = e ∷ m.trace })
    assert (not (newptr == os.map_failed))
    pure newptr

  unfoldable pub libc_munmap : (addr length : ℕ) → Cmd ℕ
  libc_munmap addr length m =
      ok (os.munmap_result m.trace (munmap addr length))
        (record m { trace = munmap addr length ∷ m.trace })

  -- A page's frame is mapped at a fixed address.
  unfoldable pub map_frame : (va pagesize fd offset : ℕ) → Cmd ℕ
  map_frame va pagesize fd offset = libc_mmap (mmap va pagesize populate_fixed fd offset)

  -- The mapping is registered with the userfaultfd.
  unfoldable pub register_range : (start len : ℕ) → Cmd (Unit {0})
  register_range start len = do done ← ioctl (uffd_register start len); assert done
