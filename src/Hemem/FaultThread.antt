-- ===== src/Hemem/FaultThread.antt =====
-- `handle_wp_fault` and the fault thread `handle_fault` of hemem.c. What `poll` and `read` answer is
-- an argument of a round.
use dma_migration_test.Base.{
  ℕ, zero, suc, ◌/◌, ◌%◌, Bool, true, false, not, List, [], ◌∷◌, ◌==◌, if◌then◌else◌, bit_and,
}
use dma_migration_test.Machine.{
  Ptr, null, HashTable, Os, Cmd, ok, abort, out_of_fuel, pure, failing, ◌>>=◌, ◌>>◌, assert, load,
  set_internal_call, page_size, uffd_wake,
}
use dma_migration_test.Hemem.Calls.{ioctl}
use dma_migration_test.Hemem.Pages.{find_page}
use dma_migration_test.Hemem.Faults.{handle_missing_fault}
use dma_migration_test.Hemem.Mmap.{page_base}

-- The constants of the kernel's headers that the thread tests with.
pub record Headers : Type 0 where
  pub pollerr : ℕ
  pub pollin : ℕ
  pub event_pagefault : ℕ
  pub event_unmap : ℕ
  pub event_remove : ℕ
  pub pagefault_flag_wp : ℕ
  pub msg_size : ℕ

-- A `struct uffd_msg`.
pub record Message : Type 0 where
  pub event : ℕ
  pub address : ℕ
  pub flags : ℕ

-- The answer of `poll`, with the `revents` that it fills in.
pub data Poll : Type 0 where
  poll_failed poll_none poll_other : Poll
  poll_one : (revents : ℕ) → Poll

-- The answer of `read`: a failure, with `errno` EAGAIN or not, or a number of bytes with what is in
-- `msg` then.
pub data Read : Type 0 where
  read_failed : (again : Bool) → Read
  read_bytes : (nread : ℕ) → List Message → Read

-- `x & y` as a condition.
abbrev pub shares_bit : ℕ → ℕ → Bool
shares_bit x y = not (bit_and x y == 0)

-- A turn of the other threads: they leave this thread's `internal_call` alone, which is `__thread`.
unfoldable pub let_run : (others : Cmd (Unit {0})) → Cmd (Unit {0})
let_run others = do own ← λ m. ok m.internal_call m; others; set_internal_call own

-- `while (page->migrating);`: between two reads the other threads run.
unfoldable pub wait_migrated : (others : Cmd (Unit {0})) (fuel : ℕ) (page : Ptr) → Cmd (Unit {0})
wait_migrated others zero page = failing out_of_fuel
wait_migrated others (suc fuel) page = do
  p ← load page
  if p.migrating then (do let_run others; wait_migrated others fuel page) else pure tt

unfoldable pub handle_wp_fault :
    (table : HashTable) (others : Cmd (Unit {0})) (fuel page_boundry : ℕ) → Cmd (Unit {0})
handle_wp_fault table others fuel page_boundry = do
  set_internal_call true
  page ← find_page table page_boundry
  assert (not (page == null))
  wait_migrated others fuel page
  set_internal_call false

module _ (os : Os) (table : HashTable) (others : Cmd (Unit {0})) (fuel : ℕ) (h : Headers) where
  -- The body of the `for` loop over the messages.
  unfoldable pub handle_message : Message → Cmd (Unit {0})
  handle_message msg =
      if shares_bit msg.event h.event_pagefault
      then (do
        if shares_bit msg.flags h.pagefault_flag_wp
            then handle_wp_fault table others fuel (page_base msg.address)
            else handle_missing_fault os table (page_base msg.address)
        woken ← ioctl os (uffd_wake (page_base msg.address) page_size)
        assert woken)
      else if shares_bit msg.event h.event_unmap
      then failing abort
      else if shares_bit msg.event h.event_remove
      then failing abort
      else failing abort

  -- `nmsgs` messages; behind the ones that were read, `msg` holds what it held.
  unfoldable pub handle_messages : (nmsgs : ℕ) → List Message → Cmd (Unit {0})
  handle_messages zero msgs = pure tt
  handle_messages (suc nmsgs) [] = pure tt
  handle_messages (suc nmsgs) (msg ∷ msgs) = do handle_message msg; handle_messages nmsgs msgs

  unfoldable pub handle_read : Read → Cmd (Unit {0})
  handle_read (read_failed again) = if again then pure tt else failing abort
  handle_read (read_bytes nread msgs) =
      if nread == 0
      then failing abort
      else if not (nread % h.msg_size == 0)
      then failing abort
      else handle_messages (nread / h.msg_size) msgs

  -- One round of `for (;;)`.
  unfoldable pub handle_round : Poll → Read → Cmd (Unit {0})
  unfolding handle_read
  handle_round poll_failed read = failing abort
  handle_round poll_none read = pure tt
  handle_round poll_other read = failing abort
  handle_round (poll_one revents) read =
      if shares_bit revents h.pollerr
      then failing abort
      else if shares_bit (if revents == 0 then 1 else 0) h.pollin
      then pure tt
      else handle_read read
