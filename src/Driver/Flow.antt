-- ===== src/Driver/Flow.antt =====
-- A request of the benchmark among the turns of the migration thread: its pages go from the mapped
-- list of their tier through the queue to the mapped list of the other.
use mathlib.Core.List.{Perm, append_assoc}
use dma_migration_test.Base.{
  ℕ, zero, suc, ◌+◌, ◌≡◌, ◌∙◌, inl, inr, refl, ap, ap₂, sym, Bool, subst, true, false, List, [],
  ◌∷◌, ◌++◌, length, length-append, arith, eqb_ne, snoc_cases, ℕ_discrete,
}
use dma_migration_test.Machine.{Ptr, HememPage, ListName, Machine, Os}
use dma_migration_test.Machine.Yields
use dma_migration_test.Machine.Yields.{Yields, yields}
use dma_migration_test.Fifo.Repr.{Queues}
use dma_migration_test.Hemem.Granted.{Grants}
use dma_migration_test.Pebs.Drained.{after-queue, after-mapped, after-others, one_batch}
use dma_migration_test.Pebs.Fresh.{Fresh}
use dma_migration_test.Pebs.Invariant.{Inv, Counted}
use dma_migration_test.Pebs.Renewed.{Fresh-Kept, enough-Fresh}
use dma_migration_test.Pebs.Remapped.{moved_page}
use dma_migration_test.Pebs.Requests.{source_of}
use dma_migration_test.Pebs.Rounds.{Moved, migrate_round-Moved}
use dma_migration_test.Pebs.Settled.{after_round}
use dma_migration_test.Pebs.Route.{
  Route, dram_to_dram, dram_to_nvm, nvm_to_dram, nvm_to_nvm, from_dram, to_dram, mapped_of, free_of,
  queue_of,
}
use dma_migration_test.Driver.{migrate_turns}

-- `n` in one tier, nothing in the other.
abbrev pub only : Bool → Bool → ℕ → ℕ
only true true n = n
only true false n = 0
only false true n = 0
only false false n = n

pub only-same : (b : Bool) (n : ℕ) → only b b n ≡ n
only-same true n = refl
only-same false n = refl

pub only-other : (b c : Bool) (n : ℕ) → ¬ (c ≡ b) → only b c n ≡ 0
only-other true true n ne = absurd (ne refl)
only-other true false n ne = refl
only-other false true n ne = refl
only-other false false n ne = absurd (ne refl)

-- The frames to keep while `left` pages are still to be asked for.
abbrev pub wanted : Route → (Bool → ℕ) → ℕ → Bool → ℕ
wanted r spare left b = spare b + only (to_dram r) b left

-- `left` pages are still to be asked for; with those that wait and those that arrived they are the
-- pages of `all`, at the addresses that they had.
pub record Flow (r : Route) (spare : Bool → ℕ) (left : ℕ) (all : List Ptr) (qs : Queues)
    (m₀ m' : Machine) : Type 0 where
  pub queues : Queues
  pub inv : Inv m' queues
  pub counted : Counted m' queues
  pub fresh : Fresh r (wanted r spare left) queues m'
  pub size : length (queues (source_of r)) ≡ left
  pub same_pages :
      Perm (queues (source_of r) ++ (queues (queue_of r) ++ queues (mapped_of (to_dram r)))) all
  pub others :
      (j : ListName)
      → ¬ (j ≡ source_of r)
      → ¬ (j ≡ queue_of r)
      → ¬ (j ≡ mapped_of (to_dram r))
      → ¬ (j ≡ free_of true)
      → ¬ (j ≡ free_of false)
      → queues j ≡ qs j
  pub same_va : (a : Ptr) → (m'.page a).va ≡ (m₀.page a).va

-- The lists of a route between the tiers.
pub record Crosses (r : Route) : Type 0 where
  pub source_mapped : ¬ (source_of r ≡ mapped_of (to_dram r))
  pub source_queue : ¬ (source_of r ≡ queue_of r)
  pub mapped_queue : ¬ (mapped_of (to_dram r) ≡ queue_of r)
  pub free_source : (b : Bool) → ¬ (free_of b ≡ source_of r)
  pub free_queue : (b : Bool) → ¬ (free_of b ≡ queue_of r)

pub crossing : (r : Route) → ¬ (from_dram r ≡ to_dram r) → Crosses r
crossing dram_to_dram h = absurd (h refl)
crossing nvm_to_nvm h = absurd (h refl)
crossing dram_to_nvm h = record {
  source_mapped = λ e. cc;
  source_queue = λ e. cc;
  mapped_queue = λ e. cc;
  free_source = free_ne_source;
  free_queue = free_ne_queue;
}
  where
    free_ne_source : (b : Bool) → ¬ (free_of b ≡ source_of dram_to_nvm)
    free_ne_source true e = cc
    free_ne_source false e = cc

    free_ne_queue : (b : Bool) → ¬ (free_of b ≡ queue_of dram_to_nvm)
    free_ne_queue true e = cc
    free_ne_queue false e = cc
crossing nvm_to_dram h = record {
  source_mapped = λ e. cc;
  source_queue = λ e. cc;
  mapped_queue = λ e. cc;
  free_source = free_ne_source;
  free_queue = free_ne_queue;
}
  where
    free_ne_source : (b : Bool) → ¬ (free_of b ≡ source_of nvm_to_dram)
    free_ne_source true e = cc
    free_ne_source false e = cc

    free_ne_queue : (b : Bool) → ¬ (free_of b ≡ queue_of nvm_to_dram)
    free_ne_queue true e = cc
    free_ne_queue false e = cc

pub Moved-va :
    (r : Route) (p q : Ptr) {rest : Queues} {m m' : Machine}
    → Moved r p q rest m m'
    → (a : Ptr) → (m'.page a).va ≡ (m.page a).va
Moved-va r p q {rest} {m} h a = elim (ℕ_discrete a p) [
  | yes is_p ↦ rw is_p (ap (λ v. v.va) h.page ∙ keeps_va r (m.page p) (m.page q).devdax_offset)
  | no not_p ↦ elim (ℕ_discrete a q) [
    | yes is_q ↦ rw is_q (ap (λ v. v.va) h.free)
    | no not_q ↦ ap (λ v. v.va) (h.others a not_p not_q)
  ]
]
  where
    keeps_va : (r : Route) (v : HememPage) (offset : ℕ) → (moved_page r v offset).va ≡ v.va
    keeps_va dram_to_dram v offset = refl
    keeps_va dram_to_nvm v offset = refl
    keeps_va nvm_to_dram v offset = refl
    keeps_va nvm_to_nvm v offset = refl

module _ (os : Os) (g : Grants os) (r : Route) (between : ¬ (from_dram r ≡ to_dram r))
    (spare : Bool → ℕ) (left : ℕ) (all : List Ptr) (qs : Queues) (m₀ : Machine) where
  -- A round for the oldest page that waits.
  Flow-round :
      {m m' : Machine} (f : Flow r spare left all qs m₀ m) (p q : Ptr) (zs ys : List Ptr)
      → (e : f.queues (queue_of r) ≡ zs ++ p ∷ [])
      → (d : f.queues (free_of (to_dram r)) ≡ ys ++ q ∷ [])
      → Moved r p q (after_round r p q zs ys f.queues) m m'
      → Flow r spare left all qs m₀ m'
  Flow-round {m} {m'} f p q zs ys e d h =
      let c = crossing r between in
      let source : after_round r p q zs ys f.queues (source_of r) ≡ f.queues (source_of r) =
        after-others p q zs ys f.queues r (source_of r) c.source_queue c.source_mapped
          (λ e. c.free_source true (sym e)) (λ e. c.free_source false (sym e)) in
      record {
        queues = after_round r p q zs ys f.queues;
        inv = h.inv;
        counted = h.counted;
        fresh =
            (Fresh-Kept r (wanted r spare left)).step m m' f.queues p q zs ys f.inv e d f.fresh h;
        size = ap length source ∙ f.size;
        same_pages =
            subst (λ l. Perm l all)
              (sym (
                ap₂ ◌++◌ source (
                  ap₂ ◌++◌ (after-queue p q zs ys f.queues r) (after-mapped p q zs ys f.queues r)
                  ∙ sym (append_assoc zs (p ∷ []) (f.queues (mapped_of (to_dram r))))
                  ∙ ap (λ l. l ++ f.queues (mapped_of (to_dram r))) (sym e))))
              f.same_pages;
        others = λ j a b k t u. after-others p q zs ys f.queues r j b k t u ∙ f.others j a b k t u;
        same_va = λ a. Moved-va r p q h a ∙ f.same_va a;
      }

  -- Any number of turns.
  pub Flow-turns :
      (turns : ℕ) {m : Machine}
      → Flow r spare left all qs m₀ m
      → Yields (λ _. Flow r spare left all qs m₀) (migrate_turns os r turns m)
  unfolding migrate_turns
  Flow-turns zero f = yields f
  Flow-turns (suc turns) {m} f = elim (snoc_cases (f.queues (queue_of r))) [
    | inl none_left ↦ rw (f.counted (queue_of r), none_left) (Flow-turns turns f)
    | inr (zs, p, e) ↦ elim (snoc_cases (f.queues (free_of (to_dram r)))) [
      | inl nil ↦ absurd (
          omega (
            arith,
            ap length nil,
            ap length e,
            length-append zs (p ∷ []),
            enough-Fresh r (wanted r spare left) f.fresh,
          ))
      | inr (ys, q, d) ↦
          let long = ap length e ∙ length-append zs (p ∷ []) in
          let some : ¬ (m.num (queue_of r) ≡ 0) =
            λ z. omega (arith, f.counted (queue_of r), long) in
          rw (eqb_ne _ 0 some, one_batch _ some)
            (Yields.bind
              (migrate_round-Moved os g r p q zs ys f.inv f.counted e d
                ((Fresh-Kept r (wanted r spare left)).ready m f.queues p q zs ys f.inv e d f.fresh))
              λ _ m' h. Flow-turns turns (Flow-round f p q zs ys e d h))
    ]
  ]
