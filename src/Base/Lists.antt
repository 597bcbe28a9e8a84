-- ===== src/Base/Lists.antt =====
-- Lists measured by native numbers, membership by recursion, and the two ends of a list.
use Prim.Native.Nat.{ℕ, suc, ◌+◌, ◌<◌}
use native.Mathlib.Decide.{ℕ_discrete}
use mathlib.Core.Path.{◌≡◌, refl, ap}
use mathlib.Core.Logic.{◌⊎◌, inl, inr}
use mathlib.Core.List.{List, [], ◌∷◌, ◌++◌}
use native.Mathlib.Omega.{arith}

module _ {ℓ} {A : Type ℓ} where
  abbrev pub length : List A → ℕ
  length [] = 0
  length (x ∷ xs) = suc (length xs)

  pub length-append : (xs ys : List A) → length (xs ++ ys) ≡ length xs + length ys
  length-append [] ys = omega arith
  length-append (x ∷ xs) ys = omega (arith, length-append xs ys)

  -- The first and the last element, or a default.
  abbrev pub first_or : A → List A → A
  first_or d [] = d
  first_or d (x ∷ xs) = x

  abbrev pub last_or : A → List A → A
  last_or d [] = d
  last_or d (x ∷ xs) = last_or x xs

  pub first_or-append :
      (d : A) (xs ys : List A) → first_or d (xs ++ ys) ≡ first_or (first_or d ys) xs
  first_or-append d [] ys = refl
  first_or-append d (x ∷ xs) ys = refl

  pub last_or-append : (d : A) (xs ys : List A) → last_or d (xs ++ ys) ≡ last_or (last_or d xs) ys
  last_or-append d [] ys = refl
  last_or-append d (x ∷ xs) ys = last_or-append x xs ys

  -- A list without its last element, which `last_or` gives.
  abbrev pub drop_last : List A → List A
  drop_last [] = []
  drop_last (x ∷ []) = []
  drop_last (x ∷ y ∷ ys) = x ∷ drop_last (y ∷ ys)

  -- A list is empty or splits into its front and its last element.
  pub snoc_cases : (xs : List A) → (xs ≡ []) ⊎ ((ys : List A) × (y : A) × (xs ≡ ys ++ y ∷ []))
  snoc_cases [] = inl refl
  snoc_cases (x ∷ xs) = inr (front x (snoc_cases xs))
    where
      front :
          {xs : List A} (x : A)
          → (xs ≡ []) ⊎ ((ys : List A) × (y : A) × (xs ≡ ys ++ y ∷ []))
          → (ys : List A) × (y : A) × (x ∷ xs ≡ ys ++ y ∷ [])
      front x (inl e) = ([], x, ap (◌∷◌ x) e)
      front x (inr (ys, y, e)) = (x ∷ ys, y, ap (◌∷◌ x) e)

  -- Every element has the property.
  abbrev pub All {κ} : (A → Type κ) → List A → Type κ
  All P [] = Unit
  All P (x ∷ xs) = P x × All P xs

  pub All-append {κ} : (P : A → Type κ) (xs ys : List A) → All P xs → All P ys → All P (xs ++ ys)
  All-append P [] ys h k = k
  All-append P (x ∷ xs) ys h k = (h.0, All-append P xs ys h.1 k)

  pub All-front {κ} : (P : A → Type κ) (xs ys : List A) → All P (xs ++ ys) → All P xs
  All-front P [] ys h = tt
  All-front P (x ∷ xs) ys h = (h.0, All-front P xs ys h.1)

  pub All-back {κ} : (P : A → Type κ) (xs ys : List A) → All P (xs ++ ys) → All P ys
  All-back P [] ys h = h
  All-back P (x ∷ xs) ys h = All-back P xs ys h.1

  pub All-map {κ μ} :
      {P : A → Type κ} {Q : A → Type μ} (xs : List A) → ((a : A) → P a → Q a) → All P xs → All Q xs
  All-map [] f h = tt
  All-map (x ∷ xs) f h = (f x h.0, All-map xs f h.1)

  pub All-map₂ {κ μ ν} :
      {P : A → Type κ} {Q : A → Type μ} {R : A → Type ν} (xs : List A)
      → ((a : A) → P a → Q a → R a)
      → All P xs
      → All Q xs
      → All R xs
  All-map₂ [] f h k = tt
  All-map₂ (x ∷ xs) f h k = (f x h.0 k.0, All-map₂ xs f h.1 k.1)

  -- The entry that has `c` entries behind it.
  pub split_from_end :
      (l : List A) (c : ℕ)
      → c < length l
      → (xs : List A) × (p : A) × (ys : List A) × (l ≡ xs ++ p ∷ ys) × (length ys ≡ c)
  split_from_end [] c h = elim h [ ]
  split_from_end (x ∷ l) c h = elim (ℕ_discrete (length l) c) [
    | yes e ↦ ([], x, l, refl, e)
    | no ne ↦
        let (xs, p, ys, e, size) = split_from_end l c (omega arith) in
        (x ∷ xs, p, ys, ap (◌∷◌ x) e, size)
  ]
