-- ===== src/Pebs/Filled.antt =====
-- `pebs_init`: the two loops that fill the free lists.
use mathlib.Core.List.{append_assoc}
use dma_migration_test.Base.{
  ℕ, zero, suc, ◌+◌, ◌*◌, ◌%◌, ◌≡◌, ◌≤◌, ◌<◌, ◌∙◌, refl, ap, sym, Bool, false, none, List, [], ◌∷◌,
  ◌++◌, u64_mod, arith, inc64, ℕ_discrete,
}
use dma_migration_test.Machine.{
  Ptr, null, HememPage, hugep, ListName, Machine, at_list, at_page, modify_num, pagesize_to_pt,
  page_size,
}
use dma_migration_test.Machine.Update.{modify-ok, at_page_self, at_list_self, at_list-ne}
use dma_migration_test.Machine.Yields
use dma_migration_test.Machine.Yields.{Yields, yields}
use dma_migration_test.Fifo.Repr.{Queues, unlinked}
use dma_migration_test.Pebs.Allocate.{zeroed, init_list}
use dma_migration_test.Pebs.Hands.{used_free, tier_free}
use dma_migration_test.Pebs.Invariant.{
  Inv, Inv-frame, Inv-touch, Counted, total, total-at_list, length-le-total,
}
use dma_migration_test.Pebs.Route.{free_of}
use dma_migration_test.Pebs.Shift.{InHand, enqueue-Inv, counted-at}

-- The descriptors of `rounds` rounds from `i` on, the latest first.
unfoldable pub frames : (ℕ → Ptr) → (i rounds : ℕ) → List Ptr
frames calloc i zero = []
frames calloc i (suc rounds) = frames calloc (i + 1) rounds ++ calloc i ∷ []

-- What a round writes to its descriptor.
abbrev pub frame : Bool → ℕ → HememPage
frame b i = record zeroed {
  devdax_offset = (i * page_size) % u64_mod;
  present = false;
  in_dram = b;
  pt = hugep;
}

-- An address that the rounds from `i` on do not use.
abbrev pub Apart : (ℕ → Ptr) → (i rounds : ℕ) → Ptr → Type 0
Apart calloc i rounds a = (j : ℕ) → i ≤ j → j < i + rounds → ¬ (a ≡ calloc j)

pub record Filled (b : Bool) (calloc : ℕ → Ptr) (i rounds : ℕ) (qs : Queues) (m m' : Machine)
    : Type 0 where
  pub queues : Queues
  pub inv : Inv m' queues
  pub counted : Counted m' queues
  pub filled : queues (free_of b) ≡ frames calloc i rounds ++ qs (free_of b)
  pub others : (j : ListName) → ¬ (j ≡ free_of b) → queues j ≡ qs j
  pub written :
      (j : ℕ) → i ≤ j → j < i + rounds → unlinked (m'.page (calloc j)) ≡ unlinked (frame b j)
  pub content : (a : Ptr) → Apart calloc i rounds a → unlinked (m'.page a) ≡ unlinked (m.page a)
  pub unlisted :
      (a : Ptr) → Apart calloc i rounds a → (m.page a).list ≡ none → (m'.page a).list ≡ none
  pub same_dev : m'.dev ≡ m.dev
  pub same_pages : m'.pages ≡ m.pages

-- What `calloc` promises: distinct addresses that are not NULL.
pub record Allocates (calloc : ℕ → Ptr) : Type 0 where
  pub some : (j : ℕ) → ¬ (calloc j ≡ null)
  pub distinct : (j k : ℕ) → calloc j ≡ calloc k → j ≡ k

module _ (b : Bool) (calloc : ℕ → Ptr) (al : Allocates calloc) where
  pub init_list-Filled :
      (i rounds : ℕ) {m : Machine} {qs : Queues}
      → Inv m qs
      → Counted m qs
      → total qs + rounds + 1 < u64_mod
      → ((j : ℕ) → i ≤ j → (m.page (calloc j)).list ≡ none)
      → Yields (λ _. Filled b calloc i rounds qs m) (init_list calloc (free_of b) b i rounds m)
  unfolding init_list frames pagesize_to_pt modify_num
  init_list-Filled i zero {m} {qs} inv counted room fresh = yields (record {
    queues = qs;
    inv = inv;
    counted = counted;
    filled = refl;
    others = λ j _. refl;
    written = λ j low high. absurd (omega arith);
    content = λ a _. refl;
    unlisted = λ a _ off. off;
    same_dev = refl;
    same_pages = refl;
  })
  init_list-Filled i (suc rounds) {m} {qs} inv counted room fresh =
      let p = calloc i in
      let n = free_of b in
      let m₁ : Machine = record m { page = at_page m.page p (frame b i) } in
      let self : m₁.page p ≡ frame b i = at_page_self m.page p (frame b i) in
      let other : (a : Ptr) → ¬ (a ≡ p) → m₁.page a ≡ m.page a = λ a ne. ground arith in
      let hand : InHand p qs m₁ = record {
        inv = Inv-touch p (fresh i (omega arith)) other refl inv;
        room = omega arith;
        valid = al.some i;
        off = rw self (record { next = refl; prev = refl; list = refl });
      } in
      let size = total-at_list n qs (p ∷ qs n) in
      let short = length-le-total n qs in
      rw (modify-ok m (al.some i)) (
        Yields.bind
          (enqueue-Inv hand n (
            ap (λ v. v.in_dram) self ∙ sym (tier_free b),
            ap (λ v. v.present) self ∙ sym (used_free b),
          ))
          λ _ m₂ (inv₂, content₂, nums₂, step₂).
            let m₃ : Machine = record m₂ { num = at_list m₂.num n (inc64 (m₂.num n)) } in
            let off_list : (a : Ptr)
                → ¬ (a ≡ p)
                → (m.page a).list ≡ none
                → (m₃.page a).list ≡ none =
              λ a ne off.
                ap (λ v. v.list)
                  (step₂.same_page a (λ on. ground (arith, on, off, ap (λ v. v.list) (other a ne)))
                      ne
                    ∙ other a ne)
                ∙ off in
            let later : (a : Ptr) → Apart calloc i (suc rounds) a → Apart calloc (i + 1) rounds a =
              λ a apart j low high. apart j (omega arith) (omega arith) in
            let next_ne : (j : ℕ) → suc i ≤ j → ¬ (calloc j ≡ p) =
              λ j low e. omega (arith, al.distinct j i e) in
            Yields.weaken
              (init_list-Filled (i + 1) rounds {m = m₃} (Inv-frame refl refl inv₂)
                (rw nums₂ (
                  counted-at m.num qs n (p ∷ qs n) counted (omega (arith, counted n, short, room))))
                (omega arith)
                (λ j low. off_list (calloc j) (next_ne j (omega arith)) (fresh j (omega arith))))
              λ _ m₄ t. record {
                queues = t.queues;
                inv = t.inv;
                counted = t.counted;
                filled =
                    t.filled
                    ∙ ap (◌++◌ (frames calloc (i + 1) rounds)) (at_list_self qs n (p ∷ qs n))
                    ∙ sym (append_assoc (frames calloc (i + 1) rounds) (p ∷ []) (qs n));
                others = λ j ne. t.others j ne ∙ at_list-ne qs n j (p ∷ qs n) ne;
                written = λ j low high. elim (ℕ_discrete j i) [
                  | yes same ↦ rw same (
                      t.content p (λ k l h e. omega (arith, al.distinct i k e))
                      ∙ content₂.content p
                      ∙ ap (λ v. unlinked v) self)
                  | no ne ↦ t.written j (omega arith) (omega arith)
                ];
                content = λ a apart.
                    t.content a (later a apart)
                    ∙ content₂.content a
                    ∙ ap (λ v. unlinked v) (other a (apart i (omega arith) (omega arith)));
                unlisted = λ a apart off.
                    t.unlisted a (later a apart)
                      (off_list a (apart i (omega arith) (omega arith)) off);
                same_dev = t.same_dev ∙ step₂.same_dev;
                same_pages = t.same_pages ∙ step₂.same_pages;
              })
