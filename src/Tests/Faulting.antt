-- ===== src/Tests/Faulting.antt =====
-- Mappings, faults and system calls at concrete inputs.
use dma_migration_test.Base.{
  ℕ, ◌+◌, ◌-◌, ◌*◌, ◌/◌, ◌≡◌, ◌<◌, ◌≤◌, inl, refl, true, false, some, none, [], ◌∷◌, arith,
  if◌then◌else◌, ◌%◌, u64_mod, ◌^◌,
}
use dma_migration_test.Machine.{MapFlags, ok, pure, page_size, ◌>>=◌}
use dma_migration_test.Machine.Yields.{Yields}
use dma_migration_test.Hemem.Mmap.{page_base, page_round_up, hemem_mmap}
use dma_migration_test.Hemem.Mapping.{Populates}
use dma_migration_test.Hemem.Reserved.{
  page_base-div, page_round_up-bounds, SameState, Reserves, reserving, hemem_mmap-SameState,
  hemem_mmap-Populates,
}
use dma_migration_test.Hemem.FaultThread.{Headers, Message, poll_one, read_bytes, handle_round}
use dma_migration_test.Hemem.Handled.{Answered, handle_round-Answered}
use dma_migration_test.Interpose.{mmap_filter}
use dma_migration_test.Interpose.Filtered.{is_managed, mmap_filter-is_managed}
use dma_migration_test.Tests.Fit.{sample-AllFit}
use dma_migration_test.Tests.Sample.{
  sample, sample_queues, sample-Inv, sample-Counted, sample-huge, granting, granting-Grants, listed,
  listed-FindsByKey,
}

page_base-div_example : page_base 5000000 ≡ 5000000 / page_size * page_size
page_base-div_example = page_base-div 5000000 (omega arith)

page_round_up-bounds_example :
    (5000000 ≤ u64_mod - page_size
      → (5000000 ≤ page_round_up 5000000)
        × (page_round_up 5000000 < 5000000 + page_size)
        × (page_round_up 5000000 % page_size ≡ 0))
    × (u64_mod - page_size < 5000000 → page_round_up 5000000 ≡ 0)
page_round_up-bounds_example = page_round_up-bounds 5000000 (omega arith)

-- `MAP_ANONYMOUS | MAP_PRIVATE | MAP_POPULATE`, and the same without MAP_POPULATE.
abbrev app_flags : MapFlags
app_flags = record {
  map_private = true;
  map_shared = false;
  map_anonymous = true;
  map_hugetlb = false;
  map_populate = true;
  map_stack = false;
  others = 0;
}

abbrev lazy_flags : MapFlags
lazy_flags = record app_flags { map_populate = false }

abbrev wanted : ℕ
wanted = 2 * page_size - 5

wanted-Reserves :
    (flags : MapFlags)
    → Reserves granting sample (reserving (8 * page_size) wanted 3 flags 0 sample) (8 * page_size)
wanted-Reserves flags = record {
  answer = refl;
  some = λ e. omega arith;
  succeeds = λ e. omega arith;
}

page_round_up-wanted : page_round_up wanted ≡ 2 * page_size
unfolding page_round_up page_base
page_round_up-wanted = refl

hemem_mmap-SameState_example :
    Yields
      (λ p m'. (p ≡ 8 * page_size) × SameState sample m' × (m'.internal_call ≡ false))
      (hemem_mmap granting listed 3 (8 * page_size) wanted 3 lazy_flags 9 0 sample)
hemem_mmap-SameState_example =
    hemem_mmap-SameState granting granting-Grants listed 3 (8 * page_size) wanted 3 lazy_flags 9 0
      (8 * page_size) refl (λ e. omega arith) (wanted-Reserves lazy_flags) refl

hemem_mmap-Populates_example :
    Yields
      (λ p m'.
        (p ≡ 8 * page_size)
        × Populates listed (8 * page_size) 2 sample_queues sample m'
        × (m'.internal_call ≡ false))
      (hemem_mmap granting listed 3 (8 * page_size) wanted 3 app_flags 9 0 sample)
hemem_mmap-Populates_example =
    hemem_mmap-Populates granting granting-Grants listed 3 (8 * page_size) wanted 3 app_flags 9 0
      (8 * page_size) listed-FindsByKey 2 refl (λ e. omega arith) (wanted-Reserves app_flags) refl
      page_round_up-wanted (λ e. omega arith) (omega arith) refl (omega arith) sample-Inv
      sample-Counted sample-AllFit (omega arith) (λ j h. refl)

abbrev linux : Headers
linux = record {
  pollerr = 8;
  pollin = 1;
  event_pagefault = 18;
  event_unmap = 22;
  event_remove = 21;
  pagefault_flag_wp = 2;
  msg_size = 32;
}

abbrev fault_message : Message
fault_message = record { event = 18; address = 8 * page_size + 77; flags = 1 }

handle_round-Answered_example :
    Yields
      (λ _. Answered listed true 5 [] (page_base fault_message.address) sample_queues sample)
      (handle_round granting listed
        (pure tt)
        2
        linux
        (poll_one 1)
        (read_bytes 32 (fault_message ∷ []))
        sample)
handle_round-Answered_example =
    handle_round-Answered granting granting-Grants listed listed-FindsByKey (pure tt) 2 linux 1
      fault_message true 5 [] (λ e. omega arith) refl (λ e. omega arith) refl refl (omega arith)
      (omega arith) sample-Inv refl sample-huge refl (inl refl)

mmap_filter-is_managed_example :
    mmap_filter granting listed 3 0 (1024 * page_size) 3 app_flags (2 ^ 32 - 1) 0 sample ≡ (
      if is_managed sample app_flags (2 ^ 32 - 1) (1024 * page_size)
      then (hemem_mmap granting listed 3 0 (1024 * page_size) 3 app_flags (2 ^ 32 - 1) 0 >>= λ r.
            pure (some r))
          sample
      else ok none sample)
mmap_filter-is_managed_example =
    mmap_filter-is_managed granting listed 3 0 (1024 * page_size) 3 app_flags (2 ^ 32 - 1) 0 sample
