-- ===== src/Hemem/Fit.antt =====
-- Descriptors whose frame lies in the device that they name, as all are after `pebs_init`.
use mathlib.Core.Logic.{∥∥₁_elim}
use mathlib.Core.List.{Perm, Permᴰ}
use mathlib.Core.List.Permᴰ
use native.Mathlib.Bridge.{le_prop}
use dma_migration_test.Base.{
  ℕ, zero, suc, ◌+◌, ◌*◌, ◌%◌, ◌≡◌, ◌≤◌, ◌<◌, refl, sym, subst, Bool, true, false, List, [], ◌∷◌,
  ◌++◌, All, All-map, All-append, All-front, All-back, ℕ_discrete, arith,
}
use dma_migration_test.Machine.{
  Ptr, HememPage, hugep, ListName, Machine, HashTable, at_list, page_size, fastmem_pages,
  slowmem_pages, dram_free_list, nvm_free_list, ListName-discrete,
}
use dma_migration_test.Fifo.Repr.{Queues, unlinked}
use dma_migration_test.Hemem.Calls.{size_of}
use dma_migration_test.Hemem.Entered.{Mapped, served_page}
use dma_migration_test.Pebs.Invariant.{at_list-All}
use dma_migration_test.Pebs.Filled.{frames, frame}
use dma_migration_test.Pebs.Route.{free_of, mapped_of}
use dma_migration_test.Pebs.Settled.{put_in}
use dma_migration_test.Pebs.Start.{Started}

-- A huge page within its device; in use, it is mapped at an aligned address.
pub record IsFit (v : HememPage) : Type 0 where
  pub huge : v.pt ≡ hugep
  pub fits : v.devdax_offset + page_size ≤ size_of v.in_dram
  pub mapped : v.present ≡ true → ¬ (v.va ≡ 0)
  pub aligned : v.present ≡ true → v.va % page_size ≡ 0

abbrev pub AllFit : Machine → Queues → Type 0
AllFit m qs = (n : ListName) → All (λ a. IsFit (m.page a)) (qs n)

pub IsFit-content : {v w : HememPage} → unlinked v ≡ unlinked w → IsFit v → IsFit w
IsFit-content {v} {w} e h =
    let same : IsFit (unlinked v) = record {
      huge = h.huge;
      fits = h.fits;
      mapped = h.mapped;
      aligned = h.aligned;
    } in
    let new = subst IsFit e same in
    record { huge = new.huge; fits = new.fits; mapped = new.mapped; aligned = new.aligned }

IsFit-served :
    (va : ℕ) {v : HememPage} → ¬ (va ≡ 0) → va % page_size ≡ 0 → IsFit v → IsFit (served_page va v)
IsFit-served va some aligned h = record {
  huge = h.huge;
  fits = h.fits;
  mapped = λ _. some;
  aligned = λ _. aligned;
}

pub Mapped-AllFit :
    {table : HashTable} {b : Bool} {p : Ptr} {xs : List Ptr} {va : ℕ} {qs : Queues} {m m' : Machine}
    → Mapped table b p xs va qs m m'
    → qs (free_of b) ≡ xs ++ p ∷ []
    → ¬ (va ≡ 0)
    → va % page_size ≡ 0
    → AllFit m qs
    → AllFit m' (put_in (mapped_of b) p (at_list qs (free_of b) xs))
Mapped-AllFit {b} {p} {xs} {va} {qs} {m} {m'} h split some aligned fit =
    let page : (a : Ptr) → IsFit (m.page a) → IsFit (m'.page a) = λ a k. elim (ℕ_discrete a p) [
      | yes e ↦ rw e (IsFit-content (sym h.page) (IsFit-served va some aligned (rw e at k)))
      | no ne ↦ IsFit-content (sym (h.others a ne)) k
    ] in
    let after : AllFit m' qs = λ n. All-map (qs n) page (fit n) in
    let free = subst (All (λ a. IsFit (m'.page a))) split (after (free_of b)) in
    let P : ListName → List Ptr → Type 0 = λ n l. All (λ a. IsFit (m'.page a)) l in
    let rest = at_list-All P (free_of b) xs qs after (All-front _ xs (p ∷ []) free) in
    at_list-All P (mapped_of b) (p ∷ at_list qs (free_of b) xs (mapped_of b))
      (at_list qs (free_of b) xs) rest ((All-back _ xs (p ∷ []) free).0, rest (mapped_of b))

frames-All :
    (P : Ptr → Type 0) (calloc : ℕ → Ptr) (i rounds : ℕ)
    → ((j : ℕ) → i ≤ j → j < i + rounds → P (calloc j))
    → All P (frames calloc i rounds)
unfolding frames
frames-All P calloc i zero h = tt
frames-All P calloc i (suc rounds) h =
    All-append P (frames calloc (i + 1) rounds) (calloc i ∷ [])
      (frames-All P calloc (i + 1) rounds (λ j low high. h j (omega arith) (omega arith)))
      (h i (omega arith) (omega arith), tt)

frame-IsFit : (b : Bool) (j : ℕ) → j * page_size + page_size ≤ size_of b → IsFit (frame b j)
frame-IsFit true j below = record {
  huge = refl;
  fits = omega arith;
  mapped = λ e. absurd (ground arith);
  aligned = λ e. absurd (ground arith);
}
frame-IsFit false j below = record {
  huge = refl;
  fits = omega arith;
  mapped = λ e. absurd (ground arith);
  aligned = λ e. absurd (ground arith);
}

-- As the program starts, every descriptor fits.
pub Started-AllFit :
    {calloc : ListName → ℕ → Ptr} {m m' : Machine} (s : Started calloc m m') → AllFit m' s.queues
Started-AllFit {calloc} {m} {m'} s n = elim (ListName-discrete n dram_free_list) [
  | yes d ↦
      rw (d, s.dram_free)
        (frames-All _ (calloc dram_free_list) 0 fastmem_pages λ j low high.
          IsFit-content (sym (s.dram_frame j high)) (frame-IsFit true j (omega arith)))
  | no d ↦ elim (ListName-discrete n nvm_free_list) [
    | yes v ↦
        rw (v, s.nvm_free)
          (frames-All _ (calloc nvm_free_list) 0 slowmem_pages λ j low high.
            IsFit-content (sym (s.nvm_frame j high)) (frame-IsFit false j (omega arith)))
    | no v ↦ rw (s.others n d v) tt
  ]
]

pub IsFit-last :
    (m : Machine) (qs : Queues) (n : ListName) (xs : List Ptr) (p : Ptr)
    → qs n ≡ xs ++ p ∷ []
    → AllFit m qs
    → IsFit (m.page p)
IsFit-last m qs n xs p split fit =
    (All-back _ xs (p ∷ []) (subst (All (λ a. IsFit (m.page a))) split (fit n))).0

IsFit-IsProp : (v : HememPage) → IsProp (IsFit v)
IsFit-IsProp v = hlevel (le_prop)

module _ {A : Type 0} (P : A → Type 0) where
  All-IsProp : ((a : A) → IsProp (P a)) → (l : List A) → IsProp (All P l)
  All-IsProp h [] = hlevel
  All-IsProp h (a ∷ l) = hlevel (h a, All-IsProp h l)

  All-steps : {l k : List A} → Permᴰ l k → All P l → All P k
  All-steps Permᴰ.nil h = tt
  All-steps (Permᴰ.cons {b} e d) h = (subst P e h.0, All-steps d h.1)
  All-steps (Permᴰ.swap e f) h = (subst P f h.1.0, (subst P e h.0, h.1.1))
  All-steps (Permᴰ.trans c d) h = All-steps d (All-steps c h)

-- The order of descriptors does not matter.
pub IsFit-perm :
    (m : Machine) (l k : List Ptr)
    → Perm l k
    → All (λ a. IsFit (m.page a)) k
    → All (λ a. IsFit (m.page a)) l
IsFit-perm m l k p h =
    ∥∥₁_elim p (All-IsProp (λ a. IsFit (m.page a)) (λ a. IsFit-IsProp (m.page a)) l)
      λ d. All-steps (λ a. IsFit (m.page a)) (Permᴰ.symm d) h
