-- ===== src/Tests/Recording.antt =====
-- Runs of timer.c, of the counters of pebs.c and of res-record.c.
use dma_migration_test.Base.{
  ℕ, ◌+◌, ◌-◌, ◌*◌, ◌≡◌, ◌≤◌, [], ◌∷◌, ◌++◌, length, some, none, Bool, true, false, ltb, ◌&&◌,
  if◌then◌else◌, arith,
}
use dma_migration_test.Base.Int.{pos, ◌+ℤ◌, ◌*ℤ◌, ◌-ℤ◌, ◌≤ℤ◌}
use dma_migration_test.Timer.{Timeval, Timespec, time_diff, cal_tv, elapsed_long}
use dma_migration_test.Timer.Exact.{IsNormal, time_diff-IsNormal, elapsed_long-exact}
use dma_migration_test.Record.{
  Cores, Recorder, difference, record_run_request, open_res_file, file_num,
}
use dma_migration_test.Record.Written.{record_rounds, record_rounds-differences, rows_behind}
use dma_migration_test.Record.Intervals.{busy, difference-interval}
use dma_migration_test.Record.Opened.{open_res_file-opens}
use dma_migration_test.Machine.{
  dram_free_list, nvm_free_list, dram_to_dram_list, dram_to_nvm_list, nvm_to_dram_list,
  nvm_to_nvm_list,
}
use dma_migration_test.Pebs.Invariant.{total}
use dma_migration_test.Pebs.Counters.{
  get_dram_to_dram_list_num, get_dram_to_nvm_list_num, get_nvm_to_dram_list_num,
  get_nvm_to_nvm_list_num, get_total_mmap, get_total_mmap-counts,
}
use dma_migration_test.Tests.Sample.{sample, sample_queues, sample-Counted}

abbrev noon : Timeval
noon = record { tv_sec = pos 100; tv_usec = pos 900000 }

abbrev past_noon : Timeval
past_noon = record { tv_sec = pos 102; tv_usec = pos 100000 }

time_diff-IsNormal_example :
    IsNormal (time_diff past_noon noon) × (pos 0 ≤ℤ (time_diff past_noon noon).tv_sec)
unfolding cal_tv ◌+ℤ◌ ◌*ℤ◌
time_diff-IsNormal_example =
    time_diff-IsNormal past_noon noon (record { low = omega arith; high = omega arith })
      (record { low = omega arith; high = omega arith }) (omega arith)

elapsed_long-exact_example : elapsed_long noon past_noon ≡ cal_tv past_noon -ℤ cal_tv noon
elapsed_long-exact_example = elapsed_long-exact noon past_noon

abbrev tick : ℕ → Timespec
tick n = record { tv_sec = pos n; tv_nsec = pos (7 * n) }

-- What core `i` has used at time `t`.
abbrev used : ℕ → Cores
used t i = record {
  usr = t * i;
  sys = t;
  nice = 0;
  idle = t + i;
  wait = 2;
  irq = 0;
  softirq = 0;
  steal = 0;
  guest = 1;
  interval = 0;
}

abbrev fresh : Recorder
fresh = record {
  stats = used 0;
  before = used 0;
  after = used 0;
  first = false;
  running = false;
  output = [];
}

record_rounds-differences_example :
    (record_rounds (used 3 ∷ used 5 ∷ used 9 ∷ []) (record_run_request fresh)).output
    ≡ [] ++ rows_behind (used 3) (used 5 ∷ used 9 ∷ [])
record_rounds-differences_example = record_rounds-differences fresh (used 3) (used 5 ∷ used 9 ∷ [])

difference-interval_example :
    ((difference (used 5 2) (used 3 2)).interval + busy (used 3 2) ≡ busy (used 5 2))
    × (((difference (used 5 2) (used 3 2)).usr ≤ (difference (used 5 2) (used 3 2)).interval)
        × ((difference (used 5 2) (used 3 2)).sys ≤ (difference (used 5 2) (used 3 2)).interval)
        × ((difference (used 5 2) (used 3 2)).nice ≤ (difference (used 5 2) (used 3 2)).interval)
        × ((difference (used 5 2) (used 3 2)).idle ≤ (difference (used 5 2) (used 3 2)).interval)
        × ((difference (used 5 2) (used 3 2)).wait ≤ (difference (used 5 2) (used 3 2)).interval))
difference-interval_example =
    difference-interval (used 5 2) (used 3 2)
      (record {
        usr = omega arith;
        sys = omega arith;
        nice = omega arith;
        idle = omega arith;
        wait = omega arith;
        irq = omega arith;
        softirq = omega arith;
        steal = omega arith;
        guest = omega arith;
      })
      (omega arith)

abbrev no_files : ℕ → Bool
no_files n = false

-- Only the files from 2 on cannot be opened.
abbrev two_open : ℕ → Bool
two_open n = ltb n 2

open_res_file-opens_example : open_res_file two_open no_files ≡ (
    if two_open 0 && two_open 1 && two_open 2 && two_open 3
    then some (λ n. if ltb n file_num then true else no_files n)
    else none)
open_res_file-opens_example = open_res_file-opens two_open no_files

get_total_mmap-counts_example :
    (get_dram_to_dram_list_num sample ≡ pos (length (sample_queues dram_to_dram_list)))
    × (get_dram_to_nvm_list_num sample ≡ pos (length (sample_queues dram_to_nvm_list)))
    × (get_nvm_to_dram_list_num sample ≡ pos (length (sample_queues nvm_to_dram_list)))
    × (get_nvm_to_nvm_list_num sample ≡ pos (length (sample_queues nvm_to_nvm_list)))
    × (get_total_mmap sample
        ≡ pos (
            total sample_queues
            - (length (sample_queues dram_free_list) + length (sample_queues nvm_free_list))))
get_total_mmap-counts_example =
    get_total_mmap-counts sample sample_queues sample-Counted (omega arith)
