-- ===== src/Driver/Asked.antt =====
-- The benchmark's random request, page by page, among the turns of the migration thread.
use mathlib.Core.List.{Perm, perm_append_comm, perm_middle, perm-append_right_iff}
use mathlib.Core.List.Perm
use dma_migration_test.Base.{
  ℕ, zero, suc, ◌+◌, ◌%◌, ◌≡◌, ◌∙◌, refl, ap, ap₂, sym, Bool, subst, List, [], ◌∷◌, ◌++◌, length,
  length-append, All, All-map, arith, ◌==◌, if◌then◌else◌, eqb_ne,
}
use dma_migration_test.Machine.{
  Cmd, fault, failing, get_num, ◌>>=◌, ◌>>◌, Ptr, ListName-discrete, Machine, Os,
}
use dma_migration_test.Machine.Yields
use dma_migration_test.Machine.Yields.{Yields, yields}
use dma_migration_test.Fifo.Repr.{Queues}
use dma_migration_test.Hemem.Granted.{Grants}
use dma_migration_test.Hemem.Fit.{IsFit, IsFit-content, IsFit-perm}
use dma_migration_test.Pebs.Drawn.{Drew, draw_then}
use dma_migration_test.Pebs.Fresh.{Oldest-map, Oldest-least}
use dma_migration_test.Pebs.Hands.{used_mapped, used_queue}
use dma_migration_test.Pebs.Request.{rotate, request_page, request_at_random}
use dma_migration_test.Pebs.Requests.{source_of, route-RequestLists}
use dma_migration_test.Pebs.Route.{Route, from_dram, to_dram, mapped_of, free_of, queue_of}
use dma_migration_test.Driver.Flow.{Flow, crossing, only-same, only-other, Flow-turns}
use dma_migration_test.Driver.{migrate_turns, request_among}

All-of : {P : Ptr → Type 0} (l : List Ptr) → ((a : Ptr) → P a) → All P l
All-of [] h = tt
All-of (a ∷ l) h = (h a, All-of l h)

-- The page at `p` goes from the middle of one list to the front of the next.
drawn_perm :
    (xs ys rest : List Ptr) (p : Ptr) {all : List Ptr}
    → Perm ((xs ++ p ∷ ys) ++ rest) all
    → Perm ((ys ++ xs) ++ p ∷ rest) all
drawn_perm xs ys rest p same =
    Perm.trans (perm_middle (ys ++ xs) rest)
      (Perm.trans ((perm-append_right_iff rest).1 (perm_append_comm (p ∷ ys) xs)) same)

module _ (os : Os) (g : Grants os) (r : Route) (between : ¬ (from_dram r ≡ to_dram r))
    (spare : Bool → ℕ) (left : ℕ) (all : List Ptr) (qs : Queues) (m₀ : Machine) where
  -- A page that is asked for.
  Flow-Drew :
      {m m' : Machine} (xs ys : List Ptr) (p : Ptr) (f : Flow r spare (suc left) all qs m₀ m)
      → f.queues (source_of r) ≡ xs ++ p ∷ ys
      → Drew (route-RequestLists r) xs ys p f.queues m m'
      → Flow r spare left all qs m₀ m'
  Flow-Drew {m} {m'} xs ys p f e s =
      let c = crossing r between in
      let still : (a : Ptr) → IsFit (m.page a) → IsFit (m'.page a) =
        λ a. IsFit-content (sym (s.content.content a)) in
      let parts : All (λ a. IsFit (m'.page a)) (p ∷ (ys ++ xs)) =
        IsFit-perm m' _ _ (perm_append_comm (p ∷ ys) xs) (
          subst (All (λ a. IsFit (m'.page a))) e (
            All-map (f.queues (source_of r)) still
              (f.fresh.pages (source_of r) (used_mapped (from_dram r))))) in
      let free : (b : Bool) → s.queues (free_of b) ≡ f.queues (free_of b) =
        λ b. s.others _ (c.free_source b) (c.free_queue b) in
      let mapped = s.others (mapped_of (to_dram r)) (λ e. c.source_mapped (sym e)) c.mapped_queue in
      record {
        queues = s.queues;
        inv = s.inv;
        counted = s.counted;
        fresh = record {
          pages = λ n on. elim (ListName-discrete n (source_of r)) [
            | yes source ↦ rw (source, s.source) parts.1
            | no apart ↦ elim (ListName-discrete n (queue_of r)) [
              | yes queue ↦
                  rw (queue, s.target)
                    (
                      parts.0,
                      All-map (f.queues (queue_of r)) still
                          (f.fresh.pages (queue_of r) (used_queue r)),
                    )
              | no elsewhere ↦
                  rw (s.others n apart elsewhere) (All-map (f.queues n) still (f.fresh.pages n on))
            ]
          ];
          target =
              rw (free (to_dram r), s.target)
                (Oldest-least _ _
                  (omega (arith, only-same (to_dram r) left, only-same (to_dram r) (suc left)))
                  (Oldest-map (All-of (f.queues (free_of (to_dram r))) still) f.fresh.target));
          other = λ b ne. rw (free b) (
              Oldest-least _ _
                (omega
                  (arith, only-other (to_dram r) b left ne, only-other (to_dram r) b (suc left) ne))
                (Oldest-map (All-of (f.queues (free_of b)) still) (f.fresh.other b ne)));
        };
        size = omega (
          arith,
          ap length s.source,
          length-append ys xs,
          ap length e,
          length-append xs (p ∷ ys),
          f.size,
        );
        same_pages =
            subst (λ l. Perm l all) (sym (ap₂ ◌++◌ s.source (ap₂ ◌++◌ s.target mapped)))
              (drawn_perm xs ys (f.queues (queue_of r) ++ f.queues (mapped_of (to_dram r))) p (
                subst
                  (λ l. Perm (l ++ (f.queues (queue_of r) ++ f.queues (mapped_of (to_dram r)))) all)
                  e f.same_pages));
        others = λ j a b k t u. s.others j a b ∙ f.others j a b k t u;
        same_va = λ a. ap (λ v. v.va) (s.content.content a) ∙ f.same_va a;
      }

module _ (os : Os) (g : Grants os) (r : Route) (between : ¬ (from_dram r ≡ to_dram r))
    (rand turns : ℕ → ℕ) (spare : Bool → ℕ) (all : List Ptr) (qs : Queues) (m₀ : Machine) where
  -- A request for all pages that are left.
  pub request_among-Flow :
      (pages i put : ℕ) {m : Machine}
      → Flow r spare pages all qs m₀ m
      → Yields
          (λ n m'. (n ≡ put + pages) × Flow r spare 0 all qs m₀ m')
          (request_among os rand turns r pages i put m)
  unfolding request_among
  request_among-Flow zero i put f =
      Yields.bind (Flow-turns os g r between spare 0 all qs m₀ (turns i) f)
        λ _ m' h. yields (omega arith, h)
  request_among-Flow (suc pages) i put f =
      Yields.bind (Flow-turns os g r between spare (suc pages) all qs m₀ (turns i) f) λ _ m₁ h.
        rw
          (eqb_ne (m₁.num (source_of r)) 0
            (λ e. absurd (omega (arith, h.counted (source_of r), h.size))))
          (draw_then (route-RequestLists r) (Yields _) (rand i % m₁.num (source_of r)) _ h.inv
            h.counted (omega (arith, h.counted (source_of r), h.size))
            λ xs ys p m₂ e s.
              Yields.weaken
                (request_among-Flow pages (i + 1) (put + 1)
                  (Flow-Drew os g r between spare pages all qs m₀ xs ys p h e s))
                λ n m' (sum, t). (omega arith, t))

-- Without turns it is the request of pebs.c.
request_among-alone :
    (os : Os) (rand : ℕ → ℕ) (r : Route) (pages i : ℕ)
    → request_among os rand (λ _. 0) r pages i
      ≡ request_at_random rand (source_of r) (queue_of r) (from_dram r) pages i
unfolding request_among request_at_random migrate_turns
request_among-alone os rand r zero i = refl
request_among-alone os rand r (suc pages) i =
    ap {A = ℕ → Cmd ℕ}
      (λ more page_put. do
        num ← get_num (source_of r)
        if num == 0 then failing fault else do
          rotate (source_of r) (rand i % num)
          put ← request_page (source_of r) (queue_of r) (from_dram r)
          more (page_put + put))
      (request_among-alone os rand r pages (i + 1))
