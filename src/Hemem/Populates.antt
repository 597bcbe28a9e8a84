-- ===== src/Hemem/Populates.antt =====
-- The loop of `hemem_mmap_populate`.
use dma_migration_test.Base.{
  ℕ, suc, ◌+◌, ◌-◌, ◌≡◌, ◌∙◌, ◌<◌, ◌⊎◌, inl, inr, refl, ap, Bool, true, false, List, [], ◌∷◌, ◌++◌,
  length, snoc_cases, arith,
}
use dma_migration_test.Machine.{
  Ptr, ListName, ListName-discrete, Machine, at_list, dram_free_list, nvm_free_list, dram_mmap_list,
  nvm_mmap_list,
}
use dma_migration_test.Machine.Yields.{Yields}
use dma_migration_test.Fifo.Repr.{Queues}
use dma_migration_test.Pebs.Allocate.{pebs_pagefault}
use dma_migration_test.Pebs.Allocated.{Allocated, pebs_pagefault-Allocated}
use dma_migration_test.Pebs.Invariant.{Inv}
use dma_migration_test.Pebs.Route.{free_of, mapped_of}
use dma_migration_test.Pebs.Settled.{put_in}

-- `k` frames went from the free to the mapped lists, those of DRAM first.
pub record DramFirst (k : ℕ) (qs rest : Queues) : Type 0 where
  pub dram_free : length (rest dram_free_list) ≡ length (qs dram_free_list) - k
  pub nvm_free :
      length (rest nvm_free_list) ≡ length (qs nvm_free_list) - (k - length (qs dram_free_list))
  pub dram_mapped :
      length (rest dram_mmap_list) + length (rest dram_free_list)
      ≡ length (qs dram_mmap_list) + length (qs dram_free_list)
  pub nvm_mapped :
      length (rest nvm_mmap_list) + length (rest nvm_free_list)
      ≡ length (qs nvm_mmap_list) + length (qs nvm_free_list)
  pub others :
      (j : ListName)
      → ¬ (j ≡ dram_free_list)
      → ¬ (j ≡ nvm_free_list)
      → ¬ (j ≡ dram_mmap_list)
      → ¬ (j ≡ nvm_mmap_list)
      → rest j ≡ qs j

pub DramFirst-none : (qs : Queues) → DramFirst 0 qs qs
DramFirst-none qs = record {
  dram_free = omega arith;
  nvm_free = omega arith;
  dram_mapped = refl;
  nvm_mapped = refl;
  others = λ j a b c d. refl;
}

pub DramFirst-then :
    (k : ℕ) (qs mid rest : Queues)
    → 0 < length (qs dram_free_list) + length (qs nvm_free_list)
    → DramFirst 1 qs mid
    → DramFirst k mid rest
    → DramFirst (suc k) qs rest
DramFirst-then k qs mid rest some one more = record {
  dram_free = omega (arith, one.dram_free, more.dram_free);
  nvm_free = omega (arith, one.dram_free, one.nvm_free, more.nvm_free);
  dram_mapped = more.dram_mapped ∙ one.dram_mapped;
  nvm_mapped = more.nvm_mapped ∙ one.nvm_mapped;
  others = λ j a b c d. more.others j a b c d ∙ one.others j a b c d;
}

-- DRAM, or NVM with no DRAM frame free.
abbrev pub IsNext : Bool → Queues → Type 0
IsNext b qs = (b ≡ true) ⊎ ((b ≡ false) × (qs dram_free_list ≡ []))

pub DramFirst-one :
    (b : Bool) (p : Ptr) (xs : List Ptr) (qs : Queues)
    → length (qs (free_of b)) ≡ suc (length xs)
    → IsNext b qs
    → DramFirst 1 qs (put_in (mapped_of b) p (at_list qs (free_of b) xs))
unfolding ListName-discrete
DramFirst-one true p xs qs size next = record {
  dram_free = omega (arith, size);
  nvm_free = omega (arith, size);
  dram_mapped = omega (arith, size);
  nvm_mapped = refl;
  others = λ j a b c d. ground arith;
}
DramFirst-one false p xs qs size (inr (_, none_left)) =
    let nil = ap length none_left in
    record {
      dram_free = omega arith;
      nvm_free = omega (arith, size);
      dram_mapped = refl;
      nvm_mapped = omega (arith, size);
      others = λ j a b c d. ground arith;
    }
DramFirst-one false p xs qs size (inl e) = absurd (ground (arith, e))

-- The frame that a page fault takes.
pub record Next (qs : Queues) (m : Machine) : Type 0 where
  pub side : Bool
  pub frame : Ptr
  pub rest : List Ptr
  pub split : qs (free_of side) ≡ rest ++ frame ∷ []
  pub first : IsNext side qs
  pub taken : Yields (λ a m'. (a ≡ frame) × Allocated side frame rest qs m m') (pebs_pagefault m)

pub Next-frame :
    {m : Machine} {qs : Queues}
    → Inv m qs
    → 0 < length (qs dram_free_list) + length (qs nvm_free_list)
    → Next qs m
Next-frame {qs} inv some = elim (snoc_cases (qs dram_free_list)) [
  | inr (xs, p, e) ↦ record {
    side = true;
    frame = p;
    rest = xs;
    split = e;
    first = inl refl;
    taken = (pebs_pagefault-Allocated inv).0 xs p e;
  }
  | inl nil ↦ elim (snoc_cases (qs nvm_free_list)) [
    | inr (xs, p, e) ↦ record {
      side = false;
      frame = p;
      rest = xs;
      split = e;
      first = inr (refl, nil);
      taken = (pebs_pagefault-Allocated inv).1 xs p nil e;
    }
    | inl none_left ↦ absurd (omega (arith, ap length nil, ap length none_left))
  ]
]
