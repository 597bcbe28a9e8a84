-- ===== src/Pebs/Spaced.antt =====
-- Pages and frames that do not meet.
use dma_migration_test.Base.{
  ℕ, ◌+◌, ◌-◌, ◌≡◌, ◌≤◌, ◌<◌, ◌⊎◌, inl, inr, refl, true, false, List, [], ◌∷◌, ◌++◌, All, All-front,
  All-back, All-map₂, arith, Bool-cases, ltb,
}
use dma_migration_test.Machine.{Ptr, HememPage, Devices, page_size}
use dma_migration_test.Hemem.Calls.{size_of, base_of}
use dma_migration_test.Pebs.Memory.{IsClear, AreApart, frame_at}
use dma_migration_test.Pebs.Route.{
  Route, dram_to_dram, dram_to_nvm, nvm_to_dram, nvm_to_nvm, from_dram, to_dram,
}
use dma_migration_test.Pebs.Touched.{IsReady}

-- Pages of which no two meet, by where they begin.
abbrev pub Spaced : (Ptr → ℕ) → List Ptr → Type 0
Spaced f [] = Unit
Spaced f (a ∷ l) = All (λ b. AreApart (f a) (f b) page_size) l × Spaced f l

pub Spaced-snoc :
    (f : Ptr → ℕ) (l : List Ptr) (p : Ptr)
    → Spaced f (l ++ p ∷ [])
    → Spaced f l × All (λ b. AreApart (f b) (f p) page_size) l
Spaced-snoc f [] p h = (tt, tt)
Spaced-snoc f (a ∷ l) p (near, h) =
    let rest = Spaced-snoc f l p h in
    ((All-front _ l (p ∷ []) near, rest.0), ((All-back _ l (p ∷ []) near).0, rest.1))

pub Spaced-same : (f g : Ptr → ℕ) (l : List Ptr) → All (λ a. g a ≡ f a) l → Spaced f l → Spaced g l
Spaced-same f g [] e h = tt
Spaced-same f g (a ∷ l) (e, es) (near, h) = (
  All-map₂ l (λ b (same : g b ≡ f b) (apart : AreApart (f a) (f b) page_size). rw (e, same) apart)
      es near,
  Spaced-same f g l es h,
)

-- An address is in a page or clear of it.
pub in_page : (va a : ℕ) → IsClear va page_size a ⊎ ((i : ℕ) × (i < page_size) × (a ≡ va + i))
in_page va a = elim (Bool-cases (ltb a va)) [
  | inl low ↦ inl (inl (ground arith))
  | inr high ↦ elim (Bool-cases (ltb a (va + page_size))) [
    | inl inside ↦ inr (a - va, ground arith, ground arith)
    | inr behind ↦ inl (inr (ground arith))
  ]
]

pub frame-IsClear :
    (base x y i : ℕ)
    → i < page_size
    → AreApart x y page_size
    → IsClear (base + x) page_size (base + y + i)
frame-IsClear base x y i low (inl h) = inr (omega arith)
frame-IsClear base x y i low (inr h) = inl (omega arith)

-- The mappings of the two devices do not meet.
abbrev pub AreSeparate : Devices → Type 0
AreSeparate dev =
    (base_of dev true + size_of true ≤ base_of dev false)
    ⊎ (base_of dev false + size_of false ≤ base_of dev true)

pub frames-AreApart :
    (r : Route) (dev : Devices) (v : HememPage) (offset : ℕ)
    → ¬ (from_dram r ≡ to_dram r)
    → AreSeparate dev
    → IsReady r v offset
    → AreApart
        (frame_at dev (from_dram r) v.devdax_offset)
        (frame_at dev (to_dram r) offset)
        page_size
frames-AreApart dram_to_dram dev v offset crosses h ready = absurd (crosses refl)
frames-AreApart dram_to_nvm dev v offset crosses (inl h) ready = inl (omega (arith, ready.old_fits))
frames-AreApart dram_to_nvm dev v offset crosses (inr h) ready = inr (omega (arith, ready.new_fits))
frames-AreApart nvm_to_dram dev v offset crosses (inl h) ready = inr (omega (arith, ready.new_fits))
frames-AreApart nvm_to_dram dev v offset crosses (inr h) ready = inl (omega (arith, ready.old_fits))
frames-AreApart nvm_to_nvm dev v offset crosses h ready = absurd (crosses refl)
