-- ===== src/Timer.antt =====
-- timer.c: differences of times. A C `long` is an integer here: the functions are for times whose
-- differences a `long` holds. `elapsed`, which converts to floating point, is not modelled.
pub mod Exact
use dma_migration_test.Base.{ℕ, ◌*◌, if◌then◌else◌}
use dma_migration_test.Base.Int.{ℤ, pos, ◌+ℤ◌, ◌-ℤ◌, ◌*ℤ◌, is_negative}

pub record Timeval : Type 0 where
  pub tv_sec : ℤ
  pub tv_usec : ℤ

pub record Timespec : Type 0 where
  pub tv_sec : ℤ
  pub tv_nsec : ℤ

-- What the function stores in `*d`.
unfoldable pub time_diff : (a b : Timeval) → Timeval
time_diff a b =
    let d : Timeval = record { tv_sec = a.tv_sec -ℤ b.tv_sec; tv_usec = a.tv_usec -ℤ b.tv_usec } in
    if is_negative d.tv_usec
    then record { tv_sec = d.tv_sec -ℤ pos 1; tv_usec = d.tv_usec +ℤ pos 1000000 }
    else d

unfoldable pub cal_tv : Timeval → ℤ
cal_tv t = t.tv_sec *ℤ 1000000 +ℤ t.tv_usec

unfoldable pub elapsed_long : (starttime endtime : Timeval) → ℤ
elapsed_long starttime endtime = cal_tv (time_diff endtime starttime)

unfoldable pub clock_time_elapsed : (start end : Timespec) → ℤ
clock_time_elapsed start end =
    (end.tv_sec -ℤ start.tv_sec) *ℤ 1000000000 +ℤ (end.tv_nsec -ℤ start.tv_nsec)
