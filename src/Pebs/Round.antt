-- ===== src/Pebs/Round.antt =====
-- A whole round of the migration thread for one page of a queue.
use dma_migration_test.Base.{
  ℕ, ◌≡◌, ◌<◌, ◌∙◌, refl, ap, sym, subst, true, false, [], ◌∷◌, suc, u64_mod, arith,
}
use dma_migration_test.Machine.{Ptr, HememPage, Machine, at_page}
use dma_migration_test.Machine.Update.{modify-ok, at_page_self}
use dma_migration_test.Machine.Yields
use dma_migration_test.Machine.Yields.{Yields, yields}
use dma_migration_test.Fifo.Repr.{Queues, Detached, unlinked}
use dma_migration_test.Pebs.Invariant.{Inv, Inv-touch, total, total-at_list}
use dma_migration_test.Pebs.Shift.{InHand, enqueue-Inv}
use dma_migration_test.Pebs.Migration.{put_back}
use dma_migration_test.Pebs.Touched.{IsReady}
use dma_migration_test.Pebs.Remapped.{moved_page}
use dma_migration_test.Pebs.Route.{
  Route, dram_to_dram, dram_to_nvm, nvm_to_dram, nvm_to_nvm, from_dram, to_dram, mapped_of, free_of,
}
use dma_migration_test.Pebs.Settled.{put_in}
use dma_migration_test.Pebs.Hands.{used_free, used_mapped, tier_free, tier_mapped}

-- Readiness is about the content, not about the links.
pub IsReady-content :
    (r : Route) {v w : HememPage} (offset : ℕ)
    → unlinked v ≡ unlinked w
    → IsReady r v offset
    → IsReady r w offset
IsReady-content r {v} {w} offset e h =
    let same : IsReady r (unlinked v) offset = record {
      huge = h.huge;
      mapped = h.mapped;
      aligned = h.aligned;
      tier = h.tier;
      old_fits = h.old_fits;
      new_fits = h.new_fits;
    } in
    let moved = subst (λ u. IsReady r u offset) e same in
    record {
      huge = moved.huge;
      mapped = moved.mapped;
      aligned = moved.aligned;
      tier = moved.tier;
      old_fits = moved.old_fits;
      new_fits = moved.new_fits;
    }

pub moved_page-off :
    (r : Route) (v : HememPage) (offset : ℕ) → Detached v → Detached (moved_page r v offset)
moved_page-off dram_to_dram v offset h = record { next = h.next; prev = h.prev; list = h.list }
moved_page-off dram_to_nvm v offset h = record { next = h.next; prev = h.prev; list = h.list }
moved_page-off nvm_to_dram v offset h = record { next = h.next; prev = h.prev; list = h.list }
moved_page-off nvm_to_nvm v offset h = record { next = h.next; prev = h.prev; list = h.list }

pub moved_page-present :
    (r : Route) (v : HememPage) (offset : ℕ) → (moved_page r v offset).present ≡ v.present
moved_page-present dram_to_dram v offset = refl
moved_page-present dram_to_nvm v offset = refl
moved_page-present nvm_to_dram v offset = refl
moved_page-present nvm_to_nvm v offset = refl

pub unlinked-moved_page :
    (r : Route) (v : HememPage) (offset : ℕ)
    → unlinked (moved_page r v offset) ≡ moved_page r (unlinked v) offset
unlinked-moved_page dram_to_dram v offset = refl
unlinked-moved_page dram_to_nvm v offset = refl
unlinked-moved_page nvm_to_dram v offset = refl
unlinked-moved_page nvm_to_nvm v offset = refl

-- The descriptor of a frame, as the second loop leaves it.
abbrev pub freed_page : Route → HememPage → ℕ → HememPage
freed_page r v offset = record v { devdax_offset = offset; present = false; in_dram = from_dram r }

-- The second loop, with the page and the free descriptor in hand.
pub record PutBack (r : Route) (p q : Ptr) (offset : ℕ) (rest : Queues) (m m' : Machine)
    : Type 0 where
  pub inv : Inv m' (put_in (free_of (from_dram r)) q (put_in (mapped_of (to_dram r)) p rest))
  pub page : unlinked (m'.page p) ≡ unlinked (m.page p)
  pub free : unlinked (m'.page q) ≡ unlinked (freed_page r (m.page q) offset)
  pub others : (a : Ptr) → ¬ (a ≡ q) → unlinked (m'.page a) ≡ unlinked (m.page a)
  pub same_num : m'.num ≡ m.num
  pub same_trace : m'.trace ≡ m.trace
  pub same_dev : m'.dev ≡ m.dev

module _ (r : Route) (p q : Ptr) (offset : ℕ) {rest : Queues} {m : Machine} where
  pub put_back-PutBack :
      InHand p rest m
      → InHand q rest m
      → suc (suc (total rest)) < u64_mod
      → ¬ (p ≡ q)
      → (m.page p).in_dram ≡ to_dram r
      → (m.page p).present ≡ true
      → Yields
          (λ _. PutBack r p q offset rest m)
          (put_back r (record { page = p; next_page = q; offset = offset } ∷ []) m)
  unfolding put_back
  put_back-PutBack hp hq room apart side used =
      let freed = freed_page r (m.page q) offset in
      let m₁ : Machine = record m { page = at_page m.page q freed } in
      let self : m₁.page q ≡ freed = at_page_self m.page q freed in
      let other : (a : Ptr) → ¬ (a ≡ q) → m₁.page a ≡ m.page a = λ a ne. ground arith in
      let page_kept = other p apart in
      let hand : InHand p rest m₁ = record {
        inv = Inv-touch q hq.off.list other refl hp.inv;
        room = hp.room;
        valid = hp.valid;
        off = rw page_kept hp.off;
      } in
      rw (modify-ok m hq.valid) (
        Yields.bind
          (enqueue-Inv hand (mapped_of (to_dram r)) (
            ap (λ v. v.in_dram) page_kept ∙ side ∙ sym (tier_mapped (to_dram r)),
            ap (λ v. v.present) page_kept ∙ used ∙ sym (used_mapped (to_dram r)),
          ))
          λ _ m₂ (inv₂, content₂, nums₂, step₂).
            let kept =
              step₂.same_page q (λ on. ground (arith, on, ap (λ v. v.list) self, hq.off.list))
                (λ e. apart (sym e)) in
            let size =
              total-at_list (mapped_of (to_dram r)) rest (p ∷ rest (mapped_of (to_dram r))) in
            let free : InHand q (put_in (mapped_of (to_dram r)) p rest) m₂ = record {
              inv = inv₂;
              room = omega arith;
              valid = hq.valid;
              off =
                  rw (kept, self)
                    (record { next = hq.off.next; prev = hq.off.prev; list = hq.off.list });
            } in
            Yields.bind
              (enqueue-Inv free (free_of (from_dram r)) (
                ap (λ v. v.in_dram) (kept ∙ self) ∙ sym (tier_free (from_dram r)),
                ap (λ v. v.present) (kept ∙ self) ∙ sym (used_free (from_dram r)),
              ))
              λ _ m₃ (inv₃, content₃, nums₃, step₃). yields (record {
                inv = inv₃;
                page = content₃.content p ∙ content₂.content p ∙ ap (λ v. unlinked v) page_kept;
                free = content₃.content q ∙ content₂.content q ∙ ap (λ v. unlinked v) self;
                others = λ a ne.
                    content₃.content a ∙ content₂.content a ∙ ap (λ v. unlinked v) (other a ne);
                same_num = nums₃ ∙ nums₂;
                same_trace = step₃.same_trace ∙ step₂.same_trace;
                same_dev = step₃.same_dev ∙ step₂.same_dev;
              }))
