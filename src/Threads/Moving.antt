-- ===== src/Threads/Moving.antt =====
-- A migration of one page, with any kernel: the page changes its tier, and no list or counter changes.
use dma_migration_test.Base.{
  ℕ, ◌≡◌, ◌∙◌, refl, ap, Bool, true, false, [], ◌∷◌, if◌then◌else◌, eq_cases, eqb_ne, inl, inr,
}
use dma_migration_test.Machine.{
  Ptr, null, Machine, Os, Cmd, ◌>>=◌, pure, load, modify, pt_to_pagesize,
}
use dma_migration_test.Machine.Update.{at_page_self}
use dma_migration_test.Machine.Allows
use dma_migration_test.Machine.Allows.{Allows}
use dma_migration_test.Hemem.Migrate.{count_migration, remap_page, remap_pages, hemem_migrate}
use dma_migration_test.Pebs.Migration.{migrate_with, migrate_of}
use dma_migration_test.Pebs.Remapped.{migrate_of-migrate_with}
use dma_migration_test.Pebs.Reshape.{SameShape}
use dma_migration_test.Pebs.Route.{Route, from_dram, to_dram}
use dma_migration_test.Threads.Quiet.{
  Quiet, Quietly, SameShape-refl, SameShape-trans, if-Quietly, bind-Quietly, pure-Quietly,
  load-Quietly, assert-Quietly, modify-Quietly, pt_to_pagesize-Quietly, set_internal_call-Quietly,
}
use dma_migration_test.Threads.Calls.{
  ioctl-Quietly, map_frame-Quietly, register_range-Quietly, hemem_wp_page-Quietly,
  copy_entries-Quietly, set_migrating-Quietly, count_migration-SameShape,
}

pub record Moving (p : Ptr) (b : Bool) (m m' : Machine) : Type 0 where
  pub next : (m'.page p).next ≡ (m.page p).next
  pub prev : (m'.page p).prev ≡ (m.page p).prev
  pub list : (m'.page p).list ≡ (m.page p).list
  pub present : (m'.page p).present ≡ (m.page p).present
  pub in_dram : (m'.page p).in_dram ≡ b
  pub shape : (a : Ptr) → ¬ (a ≡ p) → SameShape (m.page a) (m'.page a)
  pub same_fifo : m'.fifo ≡ m.fifo
  pub same_num : m'.num ≡ m.num

module _ (p : Ptr) (b : Bool) where
  abbrev pub Moves : {A : Type 0} → Cmd A → Type 0
  Moves c = (m : Machine) → Allows (λ _. Moving p b m) (c m)

  module _ {A B : Type 0} (c : Cmd A) (k : A → Cmd B) where
    quiet_then : Quietly c → ((a : A) → Moves (k a)) → Moves (c >>= k)
    quiet_then h rest m =
        Allows.bind (λ _. Quiet m) (λ _. Moving p b m) (c m) k (h m)
          λ a m₁ q.
            Allows.weaken (λ _. Moving p b m) (λ _. Moving p b m₁) (k a m₁) (rest a m₁)
              λ _ m₂ t. record {
                next = t.next ∙ (q.shape p).next;
                prev = t.prev ∙ (q.shape p).prev;
                list = t.list ∙ (q.shape p).list;
                present = t.present ∙ (q.shape p).present;
                in_dram = t.in_dram;
                shape = λ a ne. SameShape-trans (q.shape a) (t.shape a ne);
                same_fifo = t.same_fifo ∙ q.same_fifo;
                same_num = t.same_num ∙ q.same_num;
              }

    then_quiet : Moves c → ((a : A) → Quietly (k a)) → Moves (c >>= k)
    then_quiet h rest m =
        Allows.bind (λ _. Moving p b m) (λ _. Moving p b m) (c m) k (h m)
          λ a m₁ t.
            Allows.weaken (λ _. Moving p b m) (λ _. Quiet m₁) (k a m₁) (rest a m₁)
              λ _ m₂ q. record {
                next = (q.shape p).next ∙ t.next;
                prev = (q.shape p).prev ∙ t.prev;
                list = (q.shape p).list ∙ t.list;
                present = (q.shape p).present ∙ t.present;
                in_dram = (q.shape p).in_dram ∙ t.in_dram;
                shape = λ a ne. SameShape-trans (t.shape a ne) (q.shape a);
                same_fifo = q.same_fifo ∙ t.same_fifo;
                same_num = q.same_num ∙ t.same_num;
              }

  modify-Moves :
      (offset : ℕ) → Moves (modify p (λ q. record q { in_dram = b; devdax_offset = offset }))
  unfolding modify
  modify-Moves offset m = elim (eq_cases p null) [
    | inl e ↦ rw e tt
    | inr ne ↦
        let v = record (m.page p) { in_dram = b; devdax_offset = offset } in
        let self = at_page_self m.page p v in
        rw (eqb_ne p null ne) (record {
          next = ap (λ w. w.next) self;
          prev = ap (λ w. w.prev) self;
          list = ap (λ w. w.list) self;
          present = ap (λ w. w.present) self;
          in_dram = ap (λ w. w.in_dram) self;
          shape = λ a other. rw (eqb_ne a p other) (SameShape-refl (m.page a));
          same_fifo = refl;
          same_num = refl;
        })
  ]

module _ (os : Os) (r : Route) (p : Ptr) (offset : ℕ) where
  remap_page-Moves : (pagesize : ℕ) → Moves p (to_dram r) (remap_page os r pagesize p offset)
  unfolding remap_page
  remap_page-Moves pagesize = quiet_then p (to_dram r) _ _ (load-Quietly p) λ q m.
      quiet_then p (to_dram r) _ _ (map_frame-Quietly os _ _ _ _)
        (λ newptr. quiet_then p (to_dram r) _ _ (assert-Quietly _) λ _.
          quiet_then p (to_dram r) _ _ (register_range-Quietly os _ _) λ _.
            quiet_then p (to_dram r) _ _
              (modify-Quietly p (count_migration r) (count_migration-SameShape r))
              λ _. modify-Moves p (to_dram r) offset)
        m

  remap_pages-Moves : (size : ℕ) → Moves p (to_dram r) (remap_pages os r size ((p, offset) ∷ []))
  unfolding remap_pages
  remap_pages-Moves size =
      quiet_then p (to_dram r)
        (if from_dram r then pure size else (load p >>= λ q. pt_to_pagesize q.pt)) _
        (if-Quietly (from_dram r) (pure size) (load p >>= λ q. pt_to_pagesize q.pt)
          (pure-Quietly size) (bind-Quietly _ _ (load-Quietly p) λ q. pt_to_pagesize-Quietly q.pt))
        λ pagesize. then_quiet p (to_dram r) _ _ (remap_page-Moves pagesize) λ _. pure-Quietly tt

  hemem_migrate-Moves : Moves p (to_dram r) (hemem_migrate os r ((p, offset) ∷ []))
  unfolding hemem_migrate
  hemem_migrate-Moves = quiet_then p (to_dram r) _ _ (set_internal_call-Quietly true) λ _.
      quiet_then p (to_dram r) _ _ (copy_entries-Quietly r ((p, offset) ∷ [])) λ entries.
        quiet_then p (to_dram r) _ _ (ioctl-Quietly os _) λ copied.
          quiet_then p (to_dram r) _ _ (assert-Quietly copied) λ _.
            then_quiet p (to_dram r) _ _ (remap_pages-Moves _) λ _. set_internal_call-Quietly false

  -- Whatever the kernel answers: when the migration of one page returns, the page has the new
  -- tier, and the lists and counters are as before.
  pub migrate_of-Moves : Moves p (to_dram r) (migrate_of r os ((p, offset) ∷ []))
  unfolding migrate_with
  migrate_of-Moves = rw (migrate_of-migrate_with r os) (
      quiet_then p (to_dram r) _ _ (set_migrating-Quietly true (p ∷ [])) λ _.
        quiet_then p (to_dram r) _ _ (hemem_wp_page-Quietly os true (p ∷ [])) λ _.
          then_quiet p (to_dram r) _ _ hemem_migrate-Moves
            λ _. set_migrating-Quietly false (p ∷ []))
