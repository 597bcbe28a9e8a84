-- ===== src/Record/Intervals.antt =====
-- res-record.c: the interval that `cal_stat` computes, and the shares printed with it.
use dma_migration_test.Base.{ℕ, ◌+◌, ◌-◌, ◌≡◌, ◌≤◌, ◌<◌, refl, arith, u64_mod, add64, sub64}
use dma_migration_test.Record.{CpuStat, difference}

-- The counters of a core that `cal_stat` subtracts, summed.
abbrev pub busy : CpuStat → ℕ
busy v = v.usr + v.sys + v.nice + v.idle + v.wait + v.irq + v.softirq + v.steal + v.guest

-- The nine counters did not fall.
pub record Grew (before after : CpuStat) : Type 0 where
  pub usr : before.usr ≤ after.usr
  pub sys : before.sys ≤ after.sys
  pub nice : before.nice ≤ after.nice
  pub idle : before.idle ≤ after.idle
  pub wait : before.wait ≤ after.wait
  pub irq : before.irq ≤ after.irq
  pub softirq : before.softirq ≤ after.softirq
  pub steal : before.steal ≤ after.steal
  pub guest : before.guest ≤ after.guest

sub64-exact : (x y : ℕ) → y ≤ x → x < u64_mod → sub64 x y ≡ x - y
sub64-exact x y le small = omega arith

-- Nine summands.
nine-add64 :
    (u s n i w q f t g : ℕ)
    → u + s + n + i + w + q + f + t + g < u64_mod
    → add64 (add64 (add64 (add64 (add64 (add64 (add64 (add64 u s) n) i) w) q) f) t) g
      ≡ u + s + n + i + w + q + f + t + g
nine-add64 u s n i w q f t g small = omega arith

-- Each of the five is at most the sum.
nine_shares :
    (u s n i w q f t g : ℕ)
    → let sum = u + s + n + i + w + q + f + t + g in
      (u ≤ sum) × (s ≤ sum) × (n ≤ sum) × (i ≤ sum) × (w ≤ sum)
nine_shares u s n i w q f t g = (omega arith, omega arith, omega arith, omega arith, omega arith)

nine_sums :
    (u s n i w q f t g u' s' n' i' w' q' f' t' g' : ℕ)
    → (u + s + n + i + w + q + f + t + g) + (u' + s' + n' + i' + w' + q' + f' + t' + g')
      ≡ (u + u')
        + (s + s')
        + (n + n')
        + (i + i')
        + (w + w')
        + (q + q')
        + (f + f')
        + (t + t')
        + (g + g')
nine_sums u s n i w q f t g u' s' n' i' w' q' f' t' g' = omega arith

minus_plus : (x y : ℕ) → y ≤ x → x - y + y ≡ x
minus_plus x y le = omega arith

-- For counters that did not fall and whose sum a 64-bit word holds, the interval is the difference of
-- the sums, and no printed share exceeds it.
pub difference-interval :
    (after before : CpuStat)
    → Grew before after
    → busy after < u64_mod
    → ((difference after before).interval + busy before ≡ busy after)
      × (((difference after before).usr ≤ (difference after before).interval)
          × ((difference after before).sys ≤ (difference after before).interval)
          × ((difference after before).nice ≤ (difference after before).interval)
          × ((difference after before).idle ≤ (difference after before).interval)
          × ((difference after before).wait ≤ (difference after before).interval))
unfolding difference
difference-interval a b g small =
    rw
      (
        sub64-exact a.usr b.usr g.usr (omega arith),
        sub64-exact a.sys b.sys g.sys (omega arith),
        sub64-exact a.nice b.nice g.nice (omega arith),
        sub64-exact a.idle b.idle g.idle (omega arith),
        sub64-exact a.wait b.wait g.wait (omega arith),
        sub64-exact a.irq b.irq g.irq (omega arith),
        sub64-exact a.softirq b.softirq g.softirq (omega arith),
        sub64-exact a.steal b.steal g.steal (omega arith),
        sub64-exact a.guest b.guest g.guest (omega arith),
        nine-add64 (a.usr - b.usr) (a.sys - b.sys) (a.nice - b.nice) (a.idle - b.idle)
            (a.wait - b.wait) (a.irq - b.irq) (a.softirq - b.softirq) (a.steal - b.steal)
            (a.guest - b.guest) (omega arith),
      )
      (
        rw
            (
              nine_sums (a.usr - b.usr) (a.sys - b.sys) (a.nice - b.nice) (a.idle - b.idle)
                  (a.wait - b.wait) (a.irq - b.irq) (a.softirq - b.softirq) (a.steal - b.steal)
                  (a.guest - b.guest) b.usr b.sys b.nice b.idle b.wait b.irq b.softirq b.steal
                  b.guest,
              minus_plus a.usr b.usr g.usr,
              minus_plus a.sys b.sys g.sys,
              minus_plus a.nice b.nice g.nice,
              minus_plus a.idle b.idle g.idle,
              minus_plus a.wait b.wait g.wait,
              minus_plus a.irq b.irq g.irq,
              minus_plus a.softirq b.softirq g.softirq,
              minus_plus a.steal b.steal g.steal,
              minus_plus a.guest b.guest g.guest,
            )
            refl,
        nine_shares (a.usr - b.usr) (a.sys - b.sys) (a.nice - b.nice) (a.idle - b.idle)
            (a.wait - b.wait) (a.irq - b.irq) (a.softirq - b.softirq) (a.steal - b.steal)
            (a.guest - b.guest),
      )
