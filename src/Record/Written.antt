-- ===== src/Record/Written.antt =====
-- res-record.c: what `record_util` prints between a request to run and the request to stop.
use mathlib.Core.List.{append_assoc, append-nil}
use dma_migration_test.Base.{
  ℕ, zero, suc, ◌+◌, ◌≡◌, ◌∙◌, ◌≤◌, ◌<◌, refl, ap, ap₂, sym, true, false, List, [], ◌∷◌, ◌++◌,
  if◌then◌else◌, if-true, if-false, if_elim, eq_cases, inl, inr, arith,
}
use dma_migration_test.Record.{
  Cores, Recorder, Row, at_core, difference, cal_stat, read_cores, cal_record, rows, row,
  write_record, record_round, record_run_request, scan_core_max,
}

-- The cores from `i` on were read: each has the new reading, the one before it, and, but in a first
-- pass, their difference.
record Shifts (s : Cores) (i n : ℕ) (r r' : Recorder) : Type 0 where
  after : (j : ℕ) → i ≤ j → j < i + n → r'.after j ≡ s j
  stats : (j : ℕ) → i ≤ j → j < i + n → r.first ≡ false → r'.stats j ≡ difference (s j) (r.after j)
  after_other : (j : ℕ) → j < i → r'.after j ≡ r.after j
  stats_other : (j : ℕ) → j < i → r'.stats j ≡ r.stats j
  first : r'.first ≡ r.first
  running : r'.running ≡ r.running
  output : r'.output ≡ r.output

-- One core.
abbrev pass : Cores → ℕ → Recorder → Recorder
pass s i r =
    let shifted : Recorder = record r {
      before = at_core r.before i (r.after i);
      after = at_core r.after i (s i);
    } in
    if r.first then shifted else cal_stat i shifted

record Passed (s : Cores) (i : ℕ) (r r' : Recorder) : Type 0 where
  after : r'.after i ≡ s i
  stats : r.first ≡ false → r'.stats i ≡ difference (s i) (r.after i)
  after_other : (j : ℕ) → ¬ (j ≡ i) → r'.after j ≡ r.after j
  stats_other : (j : ℕ) → ¬ (j ≡ i) → r'.stats j ≡ r.stats j
  first : r'.first ≡ r.first
  running : r'.running ≡ r.running
  output : r'.output ≡ r.output

pass-Passed : (s : Cores) (i : ℕ) (r : Recorder) → Passed s i r (pass s i r)
unfolding cal_stat
pass-Passed s i r =
    if_elim (Passed s i r) r.first _ _
      (λ e. record {
        after = ground arith;
        stats = λ later. absurd (ground arith);
        after_other = λ j ne. ground arith;
        stats_other = λ j ne. refl;
        first = refl;
        running = refl;
        output = refl;
      })
      (λ e. record {
        after = ground arith;
        stats = λ later. ground arith;
        after_other = λ j ne. ground arith;
        stats_other = λ j ne. ground arith;
        first = refl;
        running = refl;
        output = refl;
      })

read_cores-Shifts : (s : Cores) (i n : ℕ) (r : Recorder) → Shifts s i n r (read_cores s i n r)
unfolding read_cores
read_cores-Shifts s i zero r = record {
  after = λ j low high. absurd (omega arith);
  stats = λ j low high _. absurd (omega arith);
  after_other = λ j _. refl;
  stats_other = λ j _. refl;
  first = refl;
  running = refl;
  output = refl;
}
read_cores-Shifts s i (suc n) r =
    let one = pass-Passed s i r in
    let rest = read_cores-Shifts s (i + 1) n (pass s i r) in
    record {
      after = λ j low high. elim (eq_cases j i) [
        | inl same ↦ rw same (rest.after_other i (omega arith) ∙ one.after)
        | inr ne ↦ rest.after j (omega arith) (omega arith)
      ];
      stats = λ j low high later. elim (eq_cases j i) [
        | inl same ↦ rw same (rest.stats_other i (omega arith) ∙ one.stats later)
        | inr ne ↦
            rest.stats j (omega arith) (omega arith) (one.first ∙ later)
            ∙ ap (difference (s j)) (one.after_other j ne)
      ];
      after_other = λ j low. rest.after_other j (omega arith) ∙ one.after_other j (omega arith);
      stats_other = λ j low. rest.stats_other j (omega arith) ∙ one.stats_other j (omega arith);
      first = rest.first ∙ one.first;
      running = rest.running ∙ one.running;
      output = rest.output ∙ one.output;
    }

rows-same :
    (f g : Cores) (i n : ℕ) → ((j : ℕ) → i ≤ j → j < i + n → f j ≡ g j) → rows f i n ≡ rows g i n
unfolding rows
rows-same f g i zero h = refl
rows-same f g i (suc n) h =
    ap₂ ◌∷◌ (ap (row i) (h i (omega arith) (omega arith)))
      (rows-same f g (i + 1) n (λ j low high. h j (omega arith) (omega arith)))

-- The rounds of the thread, one for each reading.
unfoldable pub record_rounds : List Cores → Recorder → Recorder
record_rounds [] r = r
record_rounds (s ∷ readings) r = record_rounds readings (record_round s r)

-- The rows between two readings, and those of all readings behind a first one.
abbrev pub rows_between : (before after : Cores) → List Row
rows_between b a = rows (λ i. difference (a i) (b i)) 0 scan_core_max

abbrev pub rows_behind : Cores → List Cores → List Row
rows_behind s [] = []
rows_behind s (t ∷ readings) = rows_between s t ++ rows_behind t readings

-- The thread runs, and `s` was read last.
record Runs (s : Cores) (r : Recorder) (printed : List Row) : Type 0 where
  running : r.running ≡ true
  first : r.first ≡ false
  after : (j : ℕ) → j < scan_core_max → r.after j ≡ s j
  output : r.output ≡ printed

-- A reading behind another is printed.
round_later :
    (s t : Cores) (r : Recorder) (printed : List Row)
    → Runs s r printed
    → Runs t (record_round t r) (printed ++ rows_between s t)
unfolding record_round cal_record write_record
round_later s t r printed runs =
    let read = read_cores-Shifts t 0 scan_core_max r in
    rw
      (
        if-true r.running _ _ runs.running,
        if-false (read_cores t 0 scan_core_max r).first _ _ (read.first ∙ runs.first),
      )
      (record {
        running = read.running ∙ runs.running;
        first = read.first ∙ runs.first;
        after = λ j low. read.after j (omega arith) low;
        output = ap₂ ◌++◌ (read.output ∙ runs.output) (
            rows-same _ _ 0 scan_core_max (λ j low high.
              read.stats j low high runs.first ∙ ap (difference (t j)) (runs.after j high)));
      })

-- The first reading is not.
round_first : (s : Cores) (r : Recorder) → Runs s (record_round s (record_run_request r)) r.output
unfolding record_round cal_record record_run_request
round_first s r =
    let start = record_run_request r in
    let read = read_cores-Shifts s 0 scan_core_max start in
    rw (if-true (read_cores s 0 scan_core_max start).first _ _ read.first) (record {
      running = read.running;
      first = refl;
      after = λ j low. read.after j (omega arith) low;
      output = read.output;
    })

rounds_later :
    (s : Cores) (readings : List Cores) (r : Recorder) (printed : List Row)
    → Runs s r printed
    → (record_rounds readings r).output ≡ printed ++ rows_behind s readings
unfolding record_rounds
rounds_later s [] r printed runs = runs.output ∙ sym (append-nil printed)
rounds_later s (t ∷ readings) r printed runs =
    rounds_later t readings (record_round t r) (printed ++ rows_between s t)
      (round_later s t r printed runs)
    ∙ append_assoc printed (rows_between s t) (rows_behind t readings)

-- After a request to run, the readings `s`, then `readings`, print a row for every core and every
-- reading but the first, of the difference to the reading before it, and nothing else: what an
-- earlier run read has no effect.
pub record_rounds-differences :
    (r : Recorder) (s : Cores) (readings : List Cores)
    → (record_rounds (s ∷ readings) (record_run_request r)).output
      ≡ r.output ++ rows_behind s readings
unfolding record_rounds
record_rounds-differences r s readings =
    rounds_later s readings (record_round s (record_run_request r)) r.output (round_first s r)
