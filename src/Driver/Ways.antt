-- ===== src/Driver/Ways.antt =====
-- The way of all pages of the benchmark to the other tier: a request and the wait for it.
use mathlib.Core.Logic.{∥∥₁_elim}
use mathlib.Core.List.{Perm, Permᴰ, append-nil}
use mathlib.Core.List.Perm
use dma_migration_test.Base.{
  ℕ, ◌+◌, ◌≡◌, ◌<◌, ◌≤◌, ◌∙◌, refl, ap, ap₂, sym, subst, Bool, true, false, List, [], ◌∷◌, ◌++◌,
  length, length-append, All, arith,
}
use dma_migration_test.Base.Int.{ℤ, pos, to_int}
use dma_migration_test.Machine.{
  Ptr, ListName, Machine, HashTable, Os, slowmem_pages, dram_free_list, nvm_free_list,
  nvm_to_dram_list, dram_to_nvm_list, dram_mmap_list, nvm_mmap_list, Cmd, ◌>>=◌, ◌>>◌,
}
use dma_migration_test.Machine.Yields
use dma_migration_test.Machine.Yields.{Yields, yields}
use dma_migration_test.Fifo.Repr.{Queues}
use dma_migration_test.Hemem.Granted.{Grants}
use dma_migration_test.Hemem.Fit.{IsFit, AllFit}
use dma_migration_test.Pebs.Counters.{get_dram_to_nvm_list_num, get_nvm_to_dram_list_num}
use dma_migration_test.Pebs.Invariant.{Inv, Counted, in_use}
use dma_migration_test.Pebs.Migration.{migrate_queue}
use dma_migration_test.Pebs.Route.{
  Route, dram_to_nvm, nvm_to_dram, from_dram, to_dram, free_of, mapped_of, queue_of,
}
use dma_migration_test.Pebs.Requests.{source_of}
use dma_migration_test.Pebs.Fresh.{Fresh, Oldest, Oldest-All, Oldest-least}
use dma_migration_test.Pebs.Loop.{Kept, migrate_queue-Kept}
use dma_migration_test.Pebs.Renewed.{Fresh-Kept, enough-Fresh, spare_frames}
use dma_migration_test.Driver.Flow.{Flow, crossing, only-same, only-other, wanted, Moved-va}
use dma_migration_test.Driver.Asked.{request_among-Flow}
use dma_migration_test.Driver.{npage, request_among, move_down, move_up}

module _ {A : Type 0} where
  length-steps : {l k : List A} → Permᴰ l k → length l ≡ length k
  length-steps Permᴰ.nil = refl
  length-steps (Permᴰ.cons e d) = omega (arith, length-steps d)
  length-steps (Permᴰ.swap e f) = refl
  length-steps (Permᴰ.trans c d) = length-steps c ∙ length-steps d

  pub length-perm : {l k : List A} → Perm l k → length l ≡ length k
  length-perm {l} {k} p = ∥∥₁_elim p (hlevel) length-steps

pub nil_of_length : (l : List Ptr) → length l ≡ 0 → l ≡ []
nil_of_length [] h = refl
nil_of_length (a ∷ l) h = absurd (omega arith)

-- Half of the frames of the DRAM.
abbrev pub half : Bool → ℕ
half true = npage
half false = 0

abbrev pub none_spare : Bool → ℕ
none_spare b = 0

-- What is printed for one way, and what ends the wait for it.
abbrev pub moved : ℕ × ℤ
moved = (npage, pos 0)

abbrev pub all_moved : (ℕ × ℤ) × (ℕ × ℤ)
all_moved = (moved, moved)

-- Pages that fit, with `pages` frames to go to, besides those of `spare`.
pub record Roomy (r : Route) (spare : Bool → ℕ) (pages : ℕ) (qs : Queues) (m : Machine)
    : Type 0 where
  pub fit : (n : ListName) → in_use n ≡ true → All (λ a. IsFit (m.page a)) (qs n)
  pub target : Oldest (λ a. IsFit (m.page a)) (spare (to_dram r) + pages) (qs (free_of (to_dram r)))
  pub other :
      (b : Bool) → ¬ (b ≡ to_dram r) → Oldest (λ a. IsFit (m.page a)) (spare b) (qs (free_of b))

half_le :
    (qs : Queues) (b : Bool) → length (qs dram_free_list) ≡ npage → half b ≤ length (qs (free_of b))
half_le qs true left = omega arith
half_le qs false left = omega arith

-- Half of the DRAM is left free, and its frames are the oldest of its free list on the way back.
pub first_room :
    {m : Machine} {qs : Queues}
    → AllFit m qs
    → length (qs nvm_free_list) ≡ slowmem_pages
    → length (qs dram_free_list) ≡ npage
    → Roomy dram_to_nvm half npage qs m
first_room {qs} fit spare left = record {
  fit = λ n _. fit n;
  target = Oldest-All _ _ (omega arith) (fit nvm_free_list);
  other = λ b ne. Oldest-All _ _ (half_le qs b left) (fit (free_of b));
}

pub second_room :
    {m : Machine} {qs : Queues}
    → Fresh dram_to_nvm half qs m
    → Roomy nvm_to_dram none_spare npage qs m
second_room fresh = record {
  fit = fresh.pages;
  target = spare_frames dram_to_nvm half true fresh;
  other = λ b ne. Oldest-least (half b) 0 (omega arith) (spare_frames dram_to_nvm half b fresh);
}

-- All pages of the source are mapped in the other tier, at the addresses that they had.
pub record Arrived (r : Route) (spare : Bool → ℕ) (qs : Queues) (m₀ m' : Machine) : Type 0 where
  pub queues : Queues
  pub inv : Inv m' queues
  pub counted : Counted m' queues
  pub fresh : Fresh r spare queues m'
  pub left : queues (source_of r) ≡ []
  pub none_waits : queues (queue_of r) ≡ []
  pub same_pages : Perm (queues (mapped_of (to_dram r))) (qs (source_of r))
  pub others :
      (j : ListName)
      → ¬ (j ≡ source_of r)
      → ¬ (j ≡ queue_of r)
      → ¬ (j ≡ mapped_of (to_dram r))
      → ¬ (j ≡ free_of true)
      → ¬ (j ≡ free_of false)
      → queues j ≡ qs j
  pub same_va : (a : Ptr) → (m'.page a).va ≡ (m₀.page a).va

module _ (r : Route) (spare : Bool → ℕ) (pages : ℕ) {qs : Queues} {m : Machine} where
  Roomy-Fresh :
      Roomy r spare pages qs m → qs (queue_of r) ≡ [] → Fresh r (wanted r spare pages) qs m
  Roomy-Fresh roomy idle = record {
    pages = roomy.fit;
    target =
        Oldest-least _ _ (omega (arith, only-same (to_dram r) pages, ap length idle)) roomy.target;
    other = λ b ne.
        Oldest-least _ _ (omega (arith, only-other (to_dram r) b pages ne)) (roomy.other b ne);
  }

  Fresh-spare : Fresh r (wanted r spare 0) qs m → Fresh r spare qs m
  Fresh-spare k = record {
    pages = k.pages;
    target = Oldest-least _ _ (omega (arith, only-same (to_dram r) 0)) k.target;
    other = λ b ne. Oldest-least _ _ (omega (arith, only-other (to_dram r) b 0 ne)) (k.other b ne);
  }

-- A round keeps the addresses too.
Fresh-va-Kept :
    (r : Route) (spare : Bool → ℕ) (m₀ : Machine)
    → Kept r (λ qs m. Fresh r spare qs m × ((a : Ptr) → (m.page a).va ≡ (m₀.page a).va))
Fresh-va-Kept r spare m₀ = record {
  ready = λ m qs p q zs ys inv e d (k, _). (Fresh-Kept r spare).ready m qs p q zs ys inv e d k;
  step = λ m m' qs p q zs ys inv e d (k, same) h.
      ((Fresh-Kept r spare).step m m' qs p q zs ys inv e d k h, λ a. Moved-va r p q h a ∙ same a);
}

module _ (os : Os) (g : Grants os) (r : Route) (between : ¬ (from_dram r ≡ to_dram r))
    (rand turns : ℕ → ℕ) (fuel : ℕ) (spare : Bool → ℕ) (qs : Queues) (m₀ : Machine)
    (none_there : qs (mapped_of (to_dram r)) ≡ []) where
  -- The wait, once all pages are asked for.
  wait-Arrived :
      {m : Machine}
      → (f : Flow r spare 0 (qs (source_of r)) qs m₀ m) → length (f.queues (queue_of r)) < fuel
      → Yields (λ _. Arrived r spare qs m₀) (migrate_queue os r fuel m)
  wait-Arrived f fueled =
      let c = crossing r between in
      let gone = nil_of_length _ f.size in
      Yields.weaken
        (migrate_queue-Kept os g r _ (Fresh-va-Kept r (wanted r spare 0) m₀) fuel f.inv f.counted
          fueled (enough-Fresh r (wanted r spare 0) f.fresh) (f.fresh, f.same_va))
        λ _ m' (t, (fresh, same)). record {
          queues = t.queues;
          inv = t.inv;
          counted = t.counted;
          fresh = Fresh-spare r spare 0 fresh;
          left =
              t.others (source_of r) c.source_queue c.source_mapped
                (λ e. c.free_source true (sym e)) (λ e. c.free_source false (sym e))
              ∙ gone;
          none_waits = t.empty;
          same_pages =
              subst (λ l. Perm l (qs (source_of r))) (sym t.mapped)
                (subst
                  (λ l.
                    Perm (l ++ (f.queues (queue_of r) ++ f.queues (mapped_of (to_dram r))))
                      (qs (source_of r)))
                  gone f.same_pages);
          others = λ j a b k u v. t.others j b k u v ∙ f.others j a b k u v;
          same_va = same;
        }

  -- A random request for all pages, among turns of the migration thread, and the wait for it.
  request-Arrived :
      {A : Type 0} {Q : A → Machine → Type 0} (cont : ℕ → Cmd A) {m : Machine}
      → Inv m qs
      → Counted m qs
      → Roomy r spare npage qs m
      → qs (queue_of r) ≡ []
      → length (qs (source_of r)) ≡ npage
      → npage < fuel
      → ((a : Ptr) → (m.page a).va ≡ (m₀.page a).va)
      → ((n : ℕ) (m' : Machine) → n ≡ npage → Arrived r spare qs m₀ m' → Yields Q (cont n m'))
      → Yields Q (
          (request_among os rand turns r npage 0 0 >>= λ put. migrate_queue os r fuel >> cont put)
            m)
  request-Arrived cont {m} inv counted roomy idle there fueled same_va rest =
      let whole : qs (source_of r) ++ (qs (queue_of r) ++ qs (mapped_of (to_dram r)))
          ≡ qs (source_of r) =
        ap (λ l. qs (source_of r) ++ l) (ap₂ ◌++◌ idle none_there)
        ∙ append-nil (qs (source_of r)) in
      Yields.bind
        (request_among-Flow os g r between rand turns spare (qs (source_of r)) qs m₀ npage 0 0
          (record {
            queues = qs;
            inv = inv;
            counted = counted;
            fresh = Roomy-Fresh r spare npage roomy idle;
            size = there;
            same_pages =
                subst (λ l. Perm l (qs (source_of r))) (sym whole) (Perm.refl (qs (source_of r)));
            others = λ j _ _ _ _ _. refl;
            same_va = same_va;
          }))
        λ n m₁ (is, f).
          let waiting = f.queues (queue_of r) ++ f.queues (mapped_of (to_dram r)) in
          let few : length (f.queues (queue_of r)) ≤ npage = omega (
            arith,
            length-perm f.same_pages,
            length-append (f.queues (source_of r)) waiting,
            length-append (f.queues (queue_of r)) (f.queues (mapped_of (to_dram r))),
            there,
          ) in
          Yields.bind (wait-Arrived f (omega arith)) λ _ m₂ t. rest n m₂ (omega arith) t

module _ (os : Os) (g : Grants os) (table : HashTable) (rand turns : ℕ → ℕ) (fuel : ℕ) {m : Machine}
    (m₀ : Machine) {qs : Queues} (inv : Inv m qs) (counted : Counted m qs) (fueled : npage < fuel)
    (same_va : (a : Ptr) → (m.page a).va ≡ (m₀.page a).va) where
  pub move_down-Arrived :
      Roomy dram_to_nvm half npage qs m
      → qs dram_to_nvm_list ≡ []
      → qs nvm_mmap_list ≡ []
      → length (qs dram_mmap_list) ≡ npage
      → Yields
          (λ printed m'. (printed ≡ moved) × Arrived dram_to_nvm half qs m₀ m')
          (move_down os table fuel rand turns m)
  unfolding move_down get_dram_to_nvm_list_num
  move_down-Arrived roomy idle none_there there =
      request-Arrived os g dram_to_nvm (λ e. cc) rand turns fuel half qs m₀ none_there _ inv counted
        roomy idle there fueled same_va
        λ put m' asked h. yields (
          ap₂ (λ a b. (a, b)) asked
              (ap to_int (h.counted dram_to_nvm_list ∙ ap length h.none_waits)),
          h,
        )

  pub move_up-Arrived :
      Roomy nvm_to_dram none_spare npage qs m
      → qs nvm_to_dram_list ≡ []
      → qs dram_mmap_list ≡ []
      → length (qs nvm_mmap_list) ≡ npage
      → Yields
          (λ printed m'. (printed ≡ moved) × Arrived nvm_to_dram none_spare qs m₀ m')
          (move_up os table fuel rand turns m)
  unfolding move_up get_nvm_to_dram_list_num
  move_up-Arrived roomy idle none_there there =
      request-Arrived os g nvm_to_dram (λ e. cc) rand turns fuel none_spare qs m₀ none_there _ inv
        counted roomy idle there fueled same_va
        λ put m' asked h. yields (
          ap₂ (λ a b. (a, b)) asked
              (ap to_int (h.counted nvm_to_dram_list ∙ ap length h.none_waits)),
          h,
        )
