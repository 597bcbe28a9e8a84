-- ===== src/Timer/Exact.antt =====
-- The differences are exact, and carry as they should.
use dma_migration_test.Base.{
  ◌≡◌, ◌<◌, ◌≤◌, true, false, inl, inr, arith, Bool-cases, if-true, if-false,
}
use dma_migration_test.Base.Int.{ℤ, pos, above, below, ◌+ℤ◌, ◌-ℤ◌, ◌≤ℤ◌, is_negative, int_laws}
use dma_migration_test.Timer.{
  Timeval, Timespec, time_diff, cal_tv, elapsed_long, clock_time_elapsed,
}

-- A time as the kernel gives it.
pub record IsNormal (t : Timeval) : Type 0 where
  pub low : pos 0 ≤ℤ t.tv_usec
  pub high : t.tv_usec ≤ℤ pos 999999

module _ (a b : Timeval) where
  abbrev seconds : ℤ
  seconds = a.tv_sec -ℤ b.tv_sec

  abbrev micros : ℤ
  micros = a.tv_usec -ℤ b.tv_usec

  -- With and without a carry.
  time_diff-carry :
      is_negative micros ≡ true
      → time_diff a b ≡ record { tv_sec = seconds -ℤ pos 1; tv_usec = micros +ℤ pos 1000000 }
  unfolding time_diff
  time_diff-carry e = if-true (is_negative micros) _ _ e

  time_diff-plain :
      is_negative micros ≡ false → time_diff a b ≡ record { tv_sec = seconds; tv_usec = micros }
  unfolding time_diff
  time_diff-plain e = if-false (is_negative micros) _ _ e

  -- The difference of two times with microseconds within a second, the first not before the second,
  -- has microseconds within a second, and its seconds are not negative.
  pub time_diff-IsNormal :
      IsNormal a
      → IsNormal b
      → cal_tv b ≤ℤ cal_tv a
      → IsNormal (time_diff a b) × (pos 0 ≤ℤ (time_diff a b).tv_sec)
  unfolding cal_tv
  time_diff-IsNormal ha hb later = elim (Bool-cases (is_negative micros)) [
    | inl e ↦
        let less : above micros < below micros = ground arith in
        rw (time_diff-carry e) (
          record {
            low = omega int_laws;
            high = omega (int_laws, ha.low, ha.high, hb.low, hb.high);
          },
          omega (int_laws, ha.low, ha.high, hb.low, hb.high),
        )
    | inr e ↦
        let more : below micros ≤ above micros = ground arith in
        rw (time_diff-plain e) (
          record {
            low = omega (int_laws, ha.low, ha.high, hb.low, hb.high);
            high = omega (int_laws, ha.low, ha.high, hb.low, hb.high);
          },
          omega (int_laws, ha.low, ha.high, hb.low, hb.high),
        )
  ]

-- The microseconds of the difference of two times are the difference of their microseconds.
pub elapsed_long-exact :
    (starttime endtime : Timeval)
    → elapsed_long starttime endtime ≡ cal_tv endtime -ℤ cal_tv starttime
unfolding elapsed_long cal_tv
elapsed_long-exact s e = elim (Bool-cases (is_negative (micros e s))) [
  | inl carry ↦ rw (time_diff-carry e s carry) (omega int_laws)
  | inr plain ↦ rw (time_diff-plain e s plain) (omega int_laws)
]

-- The nanoseconds from a first time to a second and from there to a third are those from the first
-- to the third.
pub clock_time_elapsed-sum :
    (a b c : Timespec) → clock_time_elapsed a b +ℤ clock_time_elapsed b c ≡ clock_time_elapsed a c
unfolding clock_time_elapsed
clock_time_elapsed-sum a b c = omega int_laws
