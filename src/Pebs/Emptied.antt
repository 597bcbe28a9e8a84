-- ===== src/Pebs/Emptied.antt =====
-- `migration_request`: what the four loops of its body do together.
use dma_migration_test.Base.{
  true, false, ℕ, ◌+◌, ◌≡◌, ◌≤◌, ◌<◌, ◌∙◌, ap, ap₂, Bool, [], ◌++◌, length, arith,
}
use dma_migration_test.Machine.{
  Machine, Os, dram_free_list, dram_mmap_list, nvm_mmap_list, dram_to_dram_list, dram_to_nvm_list,
  nvm_to_dram_list, nvm_to_nvm_list,
}
use dma_migration_test.Machine.Yields
use dma_migration_test.Machine.Yields.{Yields}
use dma_migration_test.Fifo.Repr.{Queues}
use dma_migration_test.Hemem.Fit.{AllFit}
use dma_migration_test.Hemem.Granted.{Grants}
use dma_migration_test.Pebs.Drained.{Drained}
use dma_migration_test.Pebs.Fresh.{Fresh, Oldest-All}
use dma_migration_test.Pebs.Invariant.{Inv, Counted}
use dma_migration_test.Pebs.Loop.{migrate_queue-Kept}
use dma_migration_test.Pebs.Migration.{migration_request, migrate_queue}
use dma_migration_test.Pebs.Renewed.{Fresh-Kept, Fresh-next, enough-Fresh}
use dma_migration_test.Pebs.Route.{
  Route, dram_to_dram, dram_to_nvm, nvm_to_dram, nvm_to_nvm, free_of, queue_of,
}

-- The pages that wait for a migration to a tier.
abbrev pub waiting : Bool → Queues → ℕ
waiting true qs = length (qs dram_to_dram_list) + length (qs nvm_to_dram_list)
waiting false qs = length (qs dram_to_nvm_list) + length (qs nvm_to_nvm_list)

-- No page waits; each is mapped in the tier that it was to go to, the latest first.
pub record Emptied (qs : Queues) (m m' : Machine) : Type 0 where
  pub queues : Queues
  pub inv : Inv m' queues
  pub counted : Counted m' queues
  pub none_waits : (r : Route) → queues (queue_of r) ≡ []
  pub dram :
      queues dram_mmap_list ≡ qs nvm_to_dram_list ++ (qs dram_to_dram_list ++ qs dram_mmap_list)
  pub nvm : queues nvm_mmap_list ≡ qs nvm_to_nvm_list ++ (qs dram_to_nvm_list ++ qs nvm_mmap_list)

-- The queues that a loop leaves to the later ones.
module _ {qs : Queues} {m m' : Machine} where
  first_leaves :
      (t : Drained dram_to_dram qs m m')
      → (t.queues dram_to_nvm_list ≡ qs dram_to_nvm_list)
        × (t.queues nvm_to_dram_list ≡ qs nvm_to_dram_list)
        × (t.queues nvm_to_nvm_list ≡ qs nvm_to_nvm_list)
  first_leaves t = (
    t.others dram_to_nvm_list (λ e. cc) (λ e. cc) (λ e. cc) (λ e. cc),
    t.others nvm_to_dram_list (λ e. cc) (λ e. cc) (λ e. cc) (λ e. cc),
    t.others nvm_to_nvm_list (λ e. cc) (λ e. cc) (λ e. cc) (λ e. cc),
  )

  second_leaves :
      (t : Drained dram_to_nvm qs m m')
      → (t.queues nvm_to_dram_list ≡ qs nvm_to_dram_list)
        × (t.queues nvm_to_nvm_list ≡ qs nvm_to_nvm_list)
  second_leaves t = (
    t.others nvm_to_dram_list (λ e. cc) (λ e. cc) (λ e. cc) (λ e. cc),
    t.others nvm_to_nvm_list (λ e. cc) (λ e. cc) (λ e. cc) (λ e. cc),
  )

  third_leaves : (t : Drained nvm_to_dram qs m m') → t.queues nvm_to_nvm_list ≡ qs nvm_to_nvm_list
  third_leaves t = t.others nvm_to_nvm_list (λ e. cc) (λ e. cc) (λ e. cc) (λ e. cc)

-- What the four loops did, one after the other.
record Loops (qs : Queues) (m m' : Machine) : Type 0 where
  end₁ : Machine
  end₂ : Machine
  end₃ : Machine
  first : Drained dram_to_dram qs m end₁
  second : Drained dram_to_nvm first.queues end₁ end₂
  third : Drained nvm_to_dram second.queues end₂ end₃
  fourth : Drained nvm_to_nvm third.queues end₃ m'

module _ {qs : Queues} {m m' : Machine} (t : Loops qs m m') where
  none_left : (r : Route) → t.fourth.queues (queue_of r) ≡ []
  none_left dram_to_dram =
      t.fourth.others dram_to_dram_list (λ e. cc) (λ e. cc) (λ e. cc) (λ e. cc)
      ∙ t.third.others dram_to_dram_list (λ e. cc) (λ e. cc) (λ e. cc) (λ e. cc)
      ∙ t.second.others dram_to_dram_list (λ e. cc) (λ e. cc) (λ e. cc) (λ e. cc)
      ∙ t.first.empty
  none_left dram_to_nvm =
      t.fourth.others dram_to_nvm_list (λ e. cc) (λ e. cc) (λ e. cc) (λ e. cc)
      ∙ t.third.others dram_to_nvm_list (λ e. cc) (λ e. cc) (λ e. cc) (λ e. cc)
      ∙ t.second.empty
  none_left nvm_to_dram =
      t.fourth.others nvm_to_dram_list (λ e. cc) (λ e. cc) (λ e. cc) (λ e. cc) ∙ t.third.empty
  none_left nvm_to_nvm = t.fourth.empty

  up_waits : t.second.queues nvm_to_dram_list ≡ qs nvm_to_dram_list
  up_waits = (second_leaves t.second).0 ∙ (first_leaves t.first).1

  nvm_waits : t.third.queues nvm_to_nvm_list ≡ qs nvm_to_nvm_list
  nvm_waits = third_leaves t.third ∙ (second_leaves t.second).1 ∙ (first_leaves t.first).2

  Loops-Emptied : Emptied qs m m'
  Loops-Emptied = record {
    queues = t.fourth.queues;
    inv = t.fourth.inv;
    counted = t.fourth.counted;
    none_waits = none_left;
    dram =
        t.fourth.others dram_mmap_list (λ e. cc) (λ e. cc) (λ e. cc) (λ e. cc)
        ∙ t.third.mapped
        ∙ ap₂ ◌++◌ up_waits (
            t.second.others dram_mmap_list (λ e. cc) (λ e. cc) (λ e. cc) (λ e. cc)
            ∙ t.first.mapped);
    nvm =
        t.fourth.mapped
        ∙ ap₂ ◌++◌ nvm_waits (
            t.third.others nvm_mmap_list (λ e. cc) (λ e. cc) (λ e. cc) (λ e. cc)
            ∙ t.second.mapped
            ∙ ap₂ ◌++◌ (first_leaves t.first).0
                (t.first.others nvm_mmap_list (λ e. cc) (λ e. cc) (λ e. cc) (λ e. cc)));
  }

-- A number for each tier.
abbrev per_tier : (dram nvm : ℕ) → Bool → ℕ
per_tier dram nvm true = dram
per_tier dram nvm false = nvm

per_tier_le :
    (dram nvm : ℕ) (b : Bool) (qs : Queues)
    → dram ≤ length (qs (free_of true))
    → nvm ≤ length (qs (free_of false))
    → per_tier dram nvm b ≤ length (qs (free_of b))
per_tier_le dram nvm true qs h k = h
per_tier_le dram nvm false qs h k = k

per_tier_mono :
    (dram dram' nvm nvm' : ℕ)
    → dram' ≤ dram
    → nvm' ≤ nvm
    → (b : Bool) → per_tier dram' nvm' b ≤ per_tier dram nvm b
per_tier_mono dram dram' nvm nvm' h k true = h
per_tier_mono dram dram' nvm nvm' h k false = k

module _ (os : Os) (g : Grants os) (fuel : ℕ) where
  -- One loop, with frames to spare for what waits elsewhere.
  one_loop :
      (r : Route) (spare : Bool → ℕ) {m : Machine} {qs : Queues}
      → Inv m qs
      → Counted m qs
      → length (qs (queue_of r)) < fuel
      → Fresh r spare qs m
      → Yields
          (λ _ m'. (t : Drained r qs m m') × Fresh r spare t.queues m')
          (migrate_queue os r fuel m)
  one_loop r spare inv counted fueled k =
      migrate_queue-Kept os g r (Fresh r spare) (Fresh-Kept r spare) fuel inv counted fueled
        (omega (arith, enough-Fresh r spare k)) k

  -- With as many free frames in each tier as pages wait to go there, with pages and frames that lie in
  -- their devices and pages mapped at aligned addresses, with more fuel than pages wait, and under a
  -- kernel that grants the requests: the body of the migration thread returns with all four queues
  -- empty, each page that waited is mapped in the tier that it was to go to, ahead of those mapped
  -- there before, and invariant and counters are kept.
  pub migration_request-Emptied :
      {m : Machine} {qs : Queues}
      → Inv m qs
      → Counted m qs
      → AllFit m qs
      → waiting true qs + waiting false qs < fuel
      → ((b : Bool) → waiting b qs ≤ length (qs (free_of b)))
      → Yields (λ _. Emptied qs m) (migration_request os fuel m)
  unfolding migration_request
  migration_request-Emptied {m} {qs} inv counted all fueled enough =
      let b = length (qs dram_to_nvm_list) in
      let c = length (qs nvm_to_dram_list) in
      let d = length (qs nvm_to_nvm_list) in
      let spare₁ = per_tier c (b + d) in
      let spare₂ = per_tier c d in
      let spare₃ = per_tier 0 d in
      Yields.bind
        (one_loop dram_to_dram spare₁ inv counted (omega arith) (record {
          pages = λ n on. all n;
          target = Oldest-All _ _ (omega (arith, enough true)) (all dram_free_list);
          other = λ t ne.
              Oldest-All _ _
                (per_tier_le c (b + d) t qs (omega (arith, enough true))
                  (omega (arith, enough false)))
                (all (free_of t));
        }))
        λ _ m₁ (t₁, k₁).
          let l₁ = first_leaves t₁ in
          Yields.bind
            (one_loop dram_to_nvm spare₂ t₁.inv t₁.counted (omega (arith, ap length l₁.0)) (
              Fresh-next dram_to_dram dram_to_nvm spare₁ spare₂ (omega (arith, ap length l₁.0))
                (per_tier_mono c c (b + d) d (omega arith) (omega arith)) k₁))
            λ _ m₂ (t₂, k₂).
              let l₂ = second_leaves t₂ in
              let up = ap length (l₂.0 ∙ l₁.1) in
              Yields.bind
                (one_loop nvm_to_dram spare₃ t₂.inv t₂.counted (omega (arith, up)) (
                  Fresh-next dram_to_nvm nvm_to_dram spare₂ spare₃ (omega (arith, up))
                    (per_tier_mono c 0 d d (omega arith) (omega arith)) k₂))
                λ _ m₃ (t₃, k₃).
                  let last = ap length (third_leaves t₃ ∙ l₂.1 ∙ l₁.2) in
                  Yields.weaken
                    (one_loop nvm_to_nvm (per_tier 0 0) t₃.inv t₃.counted (omega (arith, last)) (
                      Fresh-next nvm_to_dram nvm_to_nvm spare₃ (per_tier 0 0) (omega (arith, last))
                        (per_tier_mono 0 0 d 0 (omega arith) (omega arith)) k₃))
                    λ _ m₄ (t₄, _). Loops-Emptied (record {
                      end₁ = m₁;
                      end₂ = m₂;
                      end₃ = m₃;
                      first = t₁;
                      second = t₂;
                      third = t₃;
                      fourth = t₄;
                    })
