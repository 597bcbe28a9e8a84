-- ===== src/Hemem/Handled.antt =====
-- What the fault thread does with a page fault.
use dma_migration_test.Base.{
  ℕ, suc, ◌+◌, ◌/◌, ◌%◌, ◌≡◌, ◌<◌, ◌≤◌, refl, Bool, true, false, not, List, [], ◌∷◌, ◌++◌, arith,
  u64_mod, eqb_ne, bit_and-zero, if-true, if-false, inl, inr,
}
use dma_migration_test.Machine.{
  Ptr, null, hugep, abort, Machine, Cmd, HashTable, Os, page_size, assert, set_internal_call,
  uffd_wake, continue_with, pure,
}
use dma_migration_test.Machine.Update.{load-ok}
use dma_migration_test.Machine.Yields
use dma_migration_test.Machine.Yields.{Yields, yields}
use dma_migration_test.Fifo.Repr.{Queues}
use dma_migration_test.Hemem.Granted.{Grants, granted_last}
use dma_migration_test.Hemem.Pages.{FindsByKey, find_page}
use dma_migration_test.Hemem.Faults.{handle_missing_fault}
use dma_migration_test.Hemem.Mmap.{page_base}
use dma_migration_test.Hemem.Reserved.{page_base-div}
use dma_migration_test.Hemem.Served.{Served, handle_missing_fault-Served}
use dma_migration_test.Hemem.FaultThread.{
  Headers, Message, Poll, Read, poll_failed, poll_none, poll_other, poll_one, read_failed,
  read_bytes, shares_bit, let_run, wait_migrated, handle_wp_fault, handle_message, handle_messages,
  handle_read, handle_round,
}
use dma_migration_test.Hemem.Populates.{IsNext}
use dma_migration_test.Pebs.Route.{free_of}
use dma_migration_test.Pebs.Invariant.{Inv}

-- What the others leave, but for the flag that is this thread's own.
let_run-Yields :
    (R : Machine → Type 0) (others : Cmd (Unit {0})) (m : Machine)
    → Yields (λ _ m₁. R (record m₁ { internal_call = m.internal_call })) (others m)
    → Yields (λ _. R) (let_run others m)
unfolding let_run set_internal_call
let_run-Yields R others m turn = Yields.bind turn λ _ m₁ h. yields h

-- Page `page` is settled, and `Q` holds of the state with the flag reset.
abbrev pub Settles : Ptr → (Machine → Type 0) → Machine → Type 0
Settles page Q m = ((m.page page).migrating ≡ false) × Q (record m { internal_call = false })

module _ (Q : Machine → Type 0) (others : Cmd (Unit {0})) (fuel : ℕ) (page : Ptr) where
  -- The page is not: the others run, and their turn settles it.
  wait_migrated-turn :
      (m : Machine)
      → ¬ (page ≡ null)
      → (m.page page).migrating ≡ true
      → Yields (λ _. Settles page Q) (others m)
      → Yields
          (λ _ m'. Q (record m' { internal_call = false }))
          (wait_migrated others (suc (suc fuel)) page m)
  unfolding wait_migrated
  wait_migrated-turn m valid busy turn =
      rw (load-ok m valid, if-true (m.page page).migrating _ _ busy)
        (Yields.bind (let_run-Yields (Settles page Q) others m turn) λ _ m₂ (done, q).
          rw (load-ok m₂ valid, if-false (m₂.page page).migrating _ _ done) (yields q))

  -- A write-protection fault for a page that the table finds, while that page migrates: the others'
  -- turn ends its migration, and the fault thread returns with the state that they left.
  pub handle_wp_fault-turn :
      (table : HashTable) (va : ℕ) (m : Machine)
      → ¬ (page ≡ null)
      → table.find m.pages va ≡ page
      → (m.page page).migrating ≡ true
      → Yields (λ _. Settles page Q) (others (record m { internal_call = true }))
      → Yields (λ _. Q) (handle_wp_fault table others (suc (suc fuel)) va m)
  unfolding handle_wp_fault set_internal_call find_page assert
  handle_wp_fault-turn table va m valid found busy turn =
      rw (found, eqb_ne page null valid)
        (Yields.bind (wait_migrated-turn (record m { internal_call = true }) valid busy turn)
          λ _ m₂ q. yields q)

-- The page that a fault is served for is the one that holds the faulting address.
pub page_base-holds :
    (a : ℕ)
    → a < u64_mod
    → (page_base a ≤ a) × (a < page_base a + page_size) × (page_base a % page_size ≡ 0)
page_base-holds a h = (
  omega (arith, page_base-div a h),
  omega (arith, page_base-div a h),
  omega (arith, page_base-div a h),
)

-- Events that the thread reads behind, none of which is an error.
pub record IsReadable (h : Headers) (revents : ℕ) : Type 0 where
  pub some : ¬ (revents ≡ 0)
  pub fine : shares_bit revents h.pollerr ≡ false

-- An answer of `poll` and `read` with no whole number of messages, and whether it ends the process.
pub data IsQuiet (h : Headers) : (ends : Bool) → Poll → Read → Type 0 where
  no_poll : {r : Read} → IsQuiet h true poll_failed r
  nothing : {r : Read} → IsQuiet h false poll_none r
  odd_poll : {r : Read} → IsQuiet h true poll_other r
  poll_error :
      {revents : ℕ} {r : Read}
      → shares_bit revents h.pollerr ≡ true
      → IsQuiet h true (poll_one revents) r
  no_event : {r : Read} → shares_bit 1 h.pollin ≡ true → IsQuiet h false (poll_one 0) r
  no_read :
      {revents : ℕ} {again : Bool}
      → IsReadable h revents
      → IsQuiet h (not again) (poll_one revents) (read_failed again)
  end_of_file :
      {revents : ℕ} {msgs : List Message}
      → IsReadable h revents
      → IsQuiet h true (poll_one revents) (read_bytes 0 msgs)
  ragged :
      {revents nread : ℕ} {msgs : List Message}
      → IsReadable h revents
      → ¬ (nread % h.msg_size ≡ 0)
      → IsQuiet h true (poll_one revents) (read_bytes nread msgs)

module _ (os : Os) (table : HashTable) (others : Cmd (Unit {0})) (fuel : ℕ) (h : Headers) where
  -- A message whose event shares no bit with that of a page fault ends the process.
  message_other :
      (msg : Message) (m : Machine)
      → shares_bit msg.event h.event_pagefault ≡ false
      → handle_message os table others fuel h msg m ≡ abort
  unfolding handle_message
  message_other msg m other = rw other (ground arith)

  -- One message, read behind a `poll` with events but no error.
  one_message :
      (revents : ℕ) (msg : Message) (m : Machine)
      → ¬ (revents ≡ 0)
      → shares_bit revents h.pollerr ≡ false
      → ¬ (h.msg_size ≡ 0)
      → handle_round os table others fuel h (poll_one revents) (read_bytes h.msg_size (msg ∷ [])) m
        ≡ continue_with (handle_message os table others fuel h msg m) pure
  unfolding handle_round handle_read handle_messages
  one_message revents msg m some fine sized =
      let whole : h.msg_size % h.msg_size ≡ 0 = grind arith in
      let once : h.msg_size / h.msg_size ≡ 1 = grind arith in
      rw
        (fine, eqb_ne revents 0 some, bit_and-zero h.pollin, eqb_ne h.msg_size 0 sized, whole, once)
        refl

-- A missing fault at `va`, served by the frame of `p`, whose thread was woken.
pub record Answered (table : HashTable) (b : Bool) (p : Ptr) (xs : List Ptr) (va : ℕ) (qs : Queues)
    (m m' : Machine) : Type 0 where
  pub before : Machine
  pub served : Served table b p xs va qs m before
  pub woken : m' ≡ record before { trace = uffd_wake va page_size ∷ before.trace }

module _ (os : Os) (g : Grants os) (table : HashTable) (keys : FindsByKey table)
    (others : Cmd (Unit {0})) (fuel : ℕ) (h : Headers) {m : Machine} {qs : Queues} where
  Served-next :
      (b : Bool) (p : Ptr) (xs : List Ptr) (va : ℕ)
      → Inv m qs
      → ¬ (va ≡ 0)
      → va % page_size ≡ 0
      → table.find m.pages va ≡ null
      → ((a : Ptr) → (m.page a).pt ≡ hugep)
      → qs (free_of b) ≡ xs ++ p ∷ []
      → IsNext b qs
      → Yields (λ _. Served table b p xs va qs m) (handle_missing_fault os table va m)
  Served-next true p xs va inv some aligned fresh huge split next =
      (handle_missing_fault-Served os g table keys va inv some aligned fresh huge).0 xs p split
  Served-next false p xs va inv some aligned fresh huge split (inr (_, none_left)) =
      (handle_missing_fault-Served os g table keys va inv some aligned fresh huge).1 xs p none_left
        split
  Served-next false p xs va inv some aligned fresh huge split (inl e) = absurd (ground (arith, e))

  -- A round in which `poll` brings events and no error, and `read` one page fault that is not for
  -- write protection, at a 64-bit address outside the first huge page whose page the table does not
  -- find, when the lists are well formed, all descriptors are of huge pages, a frame is free and the
  -- kernel grants the requests: the fault is served at the page that holds the address, by the next
  -- free frame, DRAM first, as `handle_missing_fault` serves it, and then the faulting thread is
  -- woken.
  pub handle_round-Answered :
      (revents : ℕ) (msg : Message) (b : Bool) (p : Ptr) (xs : List Ptr)
      → ¬ (revents ≡ 0)
      → shares_bit revents h.pollerr ≡ false
      → ¬ (h.msg_size ≡ 0)
      → shares_bit msg.event h.event_pagefault ≡ true
      → shares_bit msg.flags h.pagefault_flag_wp ≡ false
      → page_size ≤ msg.address
      → msg.address < u64_mod
      → Inv m qs
      → table.find m.pages (page_base msg.address) ≡ null
      → ((a : Ptr) → (m.page a).pt ≡ hugep)
      → qs (free_of b) ≡ xs ++ p ∷ []
      → IsNext b qs
      → Yields
          (λ _. Answered table b p xs (page_base msg.address) qs m)
          (handle_round os table others fuel h
            (poll_one revents)
            (read_bytes h.msg_size (msg ∷ []))
            m)
  unfolding handle_message
  handle_round-Answered revents msg b p xs some fine sized is_fault missing low high inv fresh huge
        split next =
      let va = page_base msg.address in
      let base = page_base-holds msg.address high in
      rw (one_message os table others fuel h revents msg m some fine sized, is_fault, missing)
        (Yields.bind
          (Yields.bind (Served-next b p xs va inv (λ e. omega arith) base.2 fresh huge split next)
            λ _ m₁ t.
              granted_last g m₁ (uffd_wake va page_size)
                (record { before = m₁; served = t; woken = refl }))
          λ _ m' t. yields t)
