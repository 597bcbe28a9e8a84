-- ===== src/Record.antt =====
-- res-record.c: the result files, and the thread that records how busy the cores are. What a pass
-- over /proc/stat reads is an argument.
pub mod Written
pub mod Intervals
pub mod Opened
use dma_migration_test.Base.{
  ℕ, zero, suc, ◌+◌, Bool, true, false, Option, none, some, List, [], ◌∷◌, ◌++◌, ◌==◌,
  if◌then◌else◌, ltb, add64, sub64,
}

abbrev pub scan_core_max : ℕ
scan_core_max = 7

abbrev pub file_num : ℕ
file_num = 4

pub record CpuStat : Type 0 where
  pub usr : ℕ
  pub sys : ℕ
  pub nice : ℕ
  pub idle : ℕ
  pub wait : ℕ
  pub irq : ℕ
  pub softirq : ℕ
  pub steal : ℕ
  pub guest : ℕ
  pub interval : ℕ

-- A row of the record: UTIL_RECORD prints a core with these fields.
pub record Row : Type 0 where
  pub core : ℕ
  pub usr : ℕ
  pub sys : ℕ
  pub nice : ℕ
  pub idle : ℕ
  pub wait : ℕ
  pub interval : ℕ

abbrev pub Cores : Type 0
Cores = ℕ → CpuStat

-- `stats` is the array `record`; `output` is what was printed to `cpu_util`, in order.
pub record Recorder : Type 0 where
  pub stats : Cores
  pub before : Cores
  pub after : Cores
  pub first : Bool
  pub running : Bool
  pub output : List Row

abbrev pub at_core : Cores → ℕ → CpuStat → Cores
at_core f core v i = if i == core then v else f i

-- The nine differences, and their sum.
unfoldable pub difference : (after before : CpuStat) → CpuStat
difference a b = record {
  usr = sub64 a.usr b.usr;
  sys = sub64 a.sys b.sys;
  nice = sub64 a.nice b.nice;
  idle = sub64 a.idle b.idle;
  wait = sub64 a.wait b.wait;
  irq = sub64 a.irq b.irq;
  softirq = sub64 a.softirq b.softirq;
  steal = sub64 a.steal b.steal;
  guest = sub64 a.guest b.guest;
  interval =
      add64
        (add64
          (add64
            (add64
              (add64
                (add64 (add64 (add64 (sub64 a.usr b.usr) (sub64 a.sys b.sys)) (sub64 a.nice b.nice))
                  (sub64 a.idle b.idle))
                (sub64 a.wait b.wait))
              (sub64 a.irq b.irq))
            (sub64 a.softirq b.softirq))
          (sub64 a.steal b.steal))
        (sub64 a.guest b.guest);
}

unfoldable pub cal_stat : (core : ℕ) → Recorder → Recorder
cal_stat core r = record r {
  stats = at_core r.stats core (difference (r.after core) (r.before core));
}

-- The loop of `cal_record` over the cores from `i` on; `s` is what `fscanf` reads of each core.
unfoldable pub read_cores : (s : Cores) (i rounds : ℕ) → Recorder → Recorder
unfolding cal_stat
read_cores s i zero r = r
read_cores s i (suc rounds) r =
    let shifted : Recorder = record r {
      before = at_core r.before i (r.after i);
      after = at_core r.after i (s i);
    } in
    read_cores s (i + 1) rounds (if r.first then shifted else cal_stat i shifted)

unfoldable pub cal_record : Cores → Recorder → Recorder
cal_record s r = read_cores s 0 scan_core_max r

abbrev pub row : ℕ → CpuStat → Row
row core v = record {
  core = core;
  usr = v.usr;
  sys = v.sys;
  nice = v.nice;
  idle = v.idle;
  wait = v.wait;
  interval = v.interval;
}

-- The rows of the cores from `i` on.
unfoldable pub rows : Cores → (i rounds : ℕ) → List Row
rows f i zero = []
rows f i (suc rounds) = row i (f i) ∷ rows f (i + 1) rounds

unfoldable pub write_record : Recorder → Recorder
unfolding rows
write_record r = record r { output = r.output ++ rows r.stats 0 scan_core_max }

-- A round of `record_util` in which the interval has passed.
unfoldable pub record_round : Cores → Recorder → Recorder
unfolding cal_record write_record
record_round s r =
    if r.running
    then (let c = cal_record s r in if c.first then record c { first = false } else write_record c)
    else r

unfoldable pub record_run_request : Recorder → Recorder
record_run_request r = record r { first = true; running = true }

unfoldable pub record_stop_request : Recorder → Recorder
record_stop_request r = record r { running = false }

-- `open_res`: which of the files are open; `opens` says whether `fopen` succeeds. `none` stands for
-- the failed assertion.
unfoldable pub open_res : (opens : ℕ → Bool) (fnum : ℕ) → (ℕ → Bool) → Option (ℕ → Bool)
open_res opens fnum files =
    if ltb file_num (fnum + 1)
    then some files
    else if opens fnum
    then some (λ n. if n == fnum then true else files n)
    else none

unfoldable pub open_then : Option (ℕ → Bool) → ((ℕ → Bool) → Option (ℕ → Bool)) → Option (ℕ → Bool)
open_then none calls = none
open_then (some files) calls = calls files

-- The ten calls of `open_res_file`, from `fnum` on.
unfoldable pub open_files : (opens : ℕ → Bool) (fnum calls : ℕ) → (ℕ → Bool) → Option (ℕ → Bool)
unfolding open_then
open_files opens fnum zero files = some files
open_files opens fnum (suc calls) files =
    open_then (open_res opens fnum files) (open_files opens (fnum + 1) calls)

unfoldable pub open_res_file : (opens : ℕ → Bool) → (ℕ → Bool) → Option (ℕ → Bool)
unfolding open_files
open_res_file opens files = open_files opens 0 10 files
