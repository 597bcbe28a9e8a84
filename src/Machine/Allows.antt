-- ===== src/Machine/Allows.antt =====
-- Partial correctness of a command's run: if it ends with a value, the postcondition holds.
use dma_migration_test.Base.{◌≡◌, refl, Bool, true, false, eq_cases, eqb_ne, inl, inr}
use dma_migration_test.Machine.{
  Ptr, null, HememPage, Machine, Outcome, ok, abort, exit, fault, out_of_fuel, Cmd, continue_with,
  load, modify, assert, at_page,
}
use dma_migration_test.Machine.Yields.{Yields, yields}

module _ {A : Type 0} where
  abbrev pub Allows : (A → Machine → Type 0) → Outcome A → Type 0
  Allows P (ok a m) = P a m
  Allows P abort = Unit
  Allows P exit = Unit
  Allows P fault = Unit
  Allows P out_of_fuel = Unit

  pub of_Yields : {P : A → Machine → Type 0} {r : Outcome A} → Yields P r → Allows P r
  of_Yields (yields h) = h

  pub returns : (r : Outcome A) → Allows (λ _ _. Unit) r
  returns (ok a m) = tt
  returns abort = tt
  returns exit = tt
  returns fault = tt
  returns out_of_fuel = tt

module _ {A B : Type 0} (P : A → Machine → Type 0) (Q : B → Machine → Type 0) where
  pub bind :
      (r : Outcome A) (k : A → Cmd B)
      → Allows P r
      → ((a : A) (m : Machine) → P a m → Allows Q (k a m))
      → Allows Q (continue_with r k)
  bind (ok a m) k h rest = rest a m h
  bind abort k h rest = tt
  bind exit k h rest = tt
  bind fault k h rest = tt
  bind out_of_fuel k h rest = tt

module _ {A B : Type 0} {P : A → Machine → Type 0} (Q : B → Machine → Type 0) where
  -- A first part that is known to return.
  pub after :
      {r : Outcome A} (k : A → Cmd B)
      → Yields P r
      → ((a : A) (m : Machine) → P a m → Allows Q (k a m))
      → Allows Q (continue_with r k)
  after k (yields {a} {m} h) rest = rest a m h

module _ {A : Type 0} (Q : A → Machine → Type 0) where
  pub weaken :
      (P : A → Machine → Type 0) (r : Outcome A)
      → Allows P r
      → ((a : A) (m : Machine) → P a m → Q a m)
      → Allows Q r
  weaken P (ok a m) h f = f a m h
  weaken P abort h f = tt
  weaken P exit h f = tt
  weaken P fault h f = tt
  weaken P out_of_fuel h f = tt

  pub load-then :
      (p : Ptr) (m : Machine) (k : HememPage → Cmd A)
      → (¬ (p ≡ null) → Allows Q (k (m.page p) m))
      → Allows Q (continue_with (load p m) k)
  unfolding load
  load-then p m k h = elim (eq_cases p null) [
    | inl e ↦ rw e tt
    | inr ne ↦ rw (eqb_ne p null ne) (h ne)
  ]

  pub modify-then :
      (p : Ptr) (f : HememPage → HememPage) (m : Machine) (k : Unit {0} → Cmd A)
      → (¬ (p ≡ null) → Allows Q (k tt (record m { page = at_page m.page p (f (m.page p)) })))
      → Allows Q (continue_with (modify p f m) k)
  unfolding modify
  modify-then p f m k h = elim (eq_cases p null) [
    | inl e ↦ rw e tt
    | inr ne ↦ rw (eqb_ne p null ne) (h ne)
  ]

  pub assert-then :
      (b : Bool) (m : Machine) (k : Unit {0} → Cmd A)
      → (b ≡ true → Allows Q (k tt m))
      → Allows Q (continue_with (assert b m) k)
  unfolding assert
  assert-then true m k h = h refl
  assert-then false m k h = tt
