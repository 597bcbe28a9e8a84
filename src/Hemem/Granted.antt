-- ===== src/Hemem/Granted.antt =====
-- The kernel as the theorems assume it: it grants every call, as its documentation allows.
use dma_migration_test.Base.{ℕ, ◌%◌, ◌≡◌, true, List, ◌∷◌, eqb_ne}
use dma_migration_test.Machine.{
  Machine, Os, Event, Cmd, ok, assert, mmap, populate_fixed, uffd_register, page_size,
  continue_with, ◌>>=◌,
}
use dma_migration_test.Machine.Yields.{Yields, yields}
use dma_migration_test.Hemem.Calls.{ioctl, libc_mmap, map_frame, register_range}

-- No `ioctl` fails, and a fixed mapping at a page boundary lands where it was asked for.
pub record Grants (os : Os) : Type 0 where
  pub ioctls : (t : List Event) (e : Event) → os.ioctl_succeeds t e ≡ true
  pub maps :
      (t : List Event) (va len fd offset : ℕ)
      → os.mmap_result t (mmap va len populate_fixed fd offset) ≡ va
  pub not_failed : (va : ℕ) → va % page_size ≡ 0 → ¬ (va ≡ os.map_failed)

module _ {os : Os} (g : Grants os) (m : Machine) where
  pub map_frame-ok :
      (va len fd offset : ℕ)
      → va % page_size ≡ 0
      → map_frame os va len fd offset m
        ≡ ok va (record m { trace = mmap va len populate_fixed fd offset ∷ m.trace })
  unfolding map_frame libc_mmap assert
  map_frame-ok va len fd offset aligned =
      rw (g.maps m.trace va len fd offset, eqb_ne _ _ (g.not_failed va aligned))

  pub register_range-ok :
      (start len : ℕ)
      → register_range os start len m
        ≡ ok tt (record m { trace = uffd_register start len ∷ m.trace })
  unfolding register_range ioctl assert
  register_range-ok start len = rw (g.ioctls m.trace (uffd_register start len))

  pub granted :
      {A : Type 0} {Q : A → Machine → Type 0} (e : Event) (k : Unit {0} → Cmd A)
      → Yields Q (k tt (record m { trace = e ∷ m.trace }))
      → Yields Q (continue_with (ioctl os e m) λ done. assert done >>= k)
  unfolding ioctl assert
  granted e k h = rw (g.ioctls m.trace e) h

  pub granted_last :
      {P : Unit {0} → Machine → Type 0} (e : Event)
      → P tt (record m { trace = e ∷ m.trace })
      → Yields P (continue_with (ioctl os e m) λ done. assert done)
  unfolding ioctl assert
  granted_last e h = rw (g.ioctls m.trace e) (yields h)
