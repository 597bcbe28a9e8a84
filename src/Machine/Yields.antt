-- ===== src/Machine/Yields.antt =====
-- Total correctness of a command's run: it ends with a value, and the postcondition holds.
use dma_migration_test.Machine.{Machine, Outcome, ok, Cmd, continue_with}

pub data Yields {A : Type 0} (P : A → Machine → Type 0) : Outcome A → Type 0 where
  yields : {a : A} {m : Machine} → P a m → Yields P (ok a m)

module _ {A : Type 0} {P : A → Machine → Type 0} where
  pub bind :
      {B : Type 0} {Q : B → Machine → Type 0} {r : Outcome A} {k : A → Cmd B}
      → Yields P r
      → ((a : A) (m : Machine) → P a m → Yields Q (k a m))
      → Yields Q (continue_with r k)
  bind (yields {a} {m} h) rest = rest a m h

  pub weaken :
      {Q : A → Machine → Type 0} {r : Outcome A}
      → Yields P r
      → ((a : A) (m : Machine) → P a m → Q a m)
      → Yields Q r
  weaken (yields {a} {m} h) f = yields (f a m h)

-- What follows a part that returns, for any claim about the whole run.
pub run :
    {A B : Type 0} {P : A → Machine → Type 0} (Q : Outcome B → Type 0) {r : Outcome A}
    {k : A → Cmd B}
    → Yields P r
    → ((a : A) (m : Machine) → P a m → Q (k a m))
    → Q (continue_with r k)
run Q (yields {a} {m} h) rest = rest a m h
