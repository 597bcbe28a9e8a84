-- ===== src/Machine/Update.antt =====
-- What the primitive commands do to the machine, as equations.
use dma_migration_test.Base.{
  ◌≡◌, ◌∙◌, arith, refl, sym, ap, fun_ext, Bool, true, false, not, Bool-cases, inl, inr, ◌==◌,
  if◌then◌else◌, eqb_refl,
}
use dma_migration_test.Machine.{
  Cmd, Ptr, null, HememPage, FifoList, ListName, Machine, ok, when, load, modify, modify_fifo,
  at_page, at_list,
}

module _ (m : Machine) {p : Ptr} (h : ¬ (p ≡ null)) where
  pub load-ok : load p m ≡ ok (m.page p) m
  unfolding load
  load-ok = ground arith

  pub modify-ok :
      (f : HememPage → HememPage)
      → modify p f m ≡ ok tt (record m { page = at_page m.page p (f (m.page p)) })
  unfolding modify
  modify-ok f = ground arith

pub at_list-get : {A : Type 0} (f : ListName → A) (n : ListName) → at_list f n (f n) ≡ f
at_list-get f n = fun_ext λ k. ground arith

module _ (m : Machine) where
  pub modify_fifo-when :
      (n : ListName) (f : FifoList → FifoList) (b : Bool)
      → when b (modify_fifo n f) m
        ≡ ok tt (record m { fifo = at_list m.fifo n (if b then f (m.fifo n) else m.fifo n) })
  unfolding when modify_fifo
  modify_fifo-when n f true = refl
  modify_fifo-when n f false = ap (λ g. ok tt (record m { fifo = g })) (sym (at_list-get m.fifo n))

  pub modify-when :
      (q : Ptr) (f : HememPage → HememPage)
      → when (not (q == null)) (modify q f) m
        ≡ ok tt (record m { page = if q == null then m.page else at_page m.page q (f (m.page q)) })
  unfolding when
  modify-when q f = elim (Bool-cases (q == null)) [
    | inl e ↦ rw e
    | inr e ↦ rw e (modify-ok m (ground arith) f)
  ]

  -- NULL is recorded in the header, and otherwise the neighbour's descriptor is written.
  pub modify_either :
      (n : ListName) (q : Ptr) (f : FifoList → FifoList) (g : HememPage → HememPage)
      → (if q == null then modify_fifo n f else modify q g) m
        ≡ ok tt (record m {
          page = if q == null then m.page else at_page m.page q (g (m.page q));
          fifo = at_list m.fifo n (if q == null then f (m.fifo n) else m.fifo n);
        })
  unfolding modify_fifo
  modify_either n q f g = elim (Bool-cases (q == null)) [
    | inl e ↦ rw e
    | inr e ↦ rw e (
        modify-ok m (ground arith) g
        ∙ ap (λ l. ok tt (record m { page = at_page m.page q (g (m.page q)); fifo = l }))
            (sym (at_list-get m.fifo n)))
  ]

pub at_list_self : {A : Type 0} (f : ListName → A) (n : ListName) (v : A) → at_list f n v n ≡ v
at_list_self f n v = ground arith

module _ {A : Type 0} (f : ListName → A) (n k : ListName) where
  pub at_list-ne : (v : A) → ¬ (k ≡ n) → at_list f n v k ≡ f k
  at_list-ne v h = ground arith

  pub at_list_comm :
      (v w : A) → ¬ (n ≡ k) → at_list (at_list f n v) k w ≡ at_list (at_list f k w) n v
  at_list_comm v w h = fun_ext λ j. ground arith

pub at_page_self : (f : Ptr → HememPage) (p : Ptr) (v : HememPage) → at_page f p v p ≡ v
at_page_self f p v = rw (eqb_refl p)

-- A descriptor written twice.
pub at_page-twice :
    (f : Ptr → HememPage) (p : Ptr) (v : HememPage) (g : HememPage → HememPage)
    → at_page (at_page f p v) p (g (at_page f p v p)) p ≡ g v
at_page-twice f p v g = rw (eqb_refl p)

module _ (b : Bool) (c : Cmd (Unit {0})) (m : Machine) where
  pub when-true : b ≡ true → when b c m ≡ c m
  unfolding when
  when-true e = rw e refl

  pub when-false : b ≡ false → when b c m ≡ ok tt m
  unfolding when
  when-false e = rw e refl
