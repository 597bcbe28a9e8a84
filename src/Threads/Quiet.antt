-- ===== src/Threads/Quiet.antt =====
-- Commands that leave the lists and their counters alone, whatever the kernel answers.
use dma_migration_test.Base.{
  ◌≡◌, ◌∙◌, refl, sym, subst, Bool, true, false, if◌then◌else◌, if_elim, eq_cases, eqb_ne, inl, inr,
  ◌==◌, arith,
}
use dma_migration_test.Machine.{
  Ptr, null, HememPage, PageType, Machine, Event, Cmd, pure, ◌>>=◌, load, modify, assert,
  record_event, set_internal_call, pt_to_pagesize,
}
use dma_migration_test.Machine.Allows
use dma_migration_test.Machine.Allows.{Allows}
use dma_migration_test.Pebs.Reshape.{SameShape}

pub record Quiet (m m' : Machine) : Type 0 where
  pub shape : (a : Ptr) → SameShape (m.page a) (m'.page a)
  pub same_fifo : m'.fifo ≡ m.fifo
  pub same_num : m'.num ≡ m.num

pub SameShape-refl : (v : HememPage) → SameShape v v
SameShape-refl v = record { next = refl; prev = refl; list = refl; in_dram = refl; present = refl }

pub SameShape-trans : {u v w : HememPage} → SameShape u v → SameShape v w → SameShape u w
SameShape-trans h k = record {
  next = k.next ∙ h.next;
  prev = k.prev ∙ h.prev;
  list = k.list ∙ h.list;
  in_dram = k.in_dram ∙ h.in_dram;
  present = k.present ∙ h.present;
}

pub Quiet-refl : (m : Machine) → Quiet m m
Quiet-refl m = record { shape = λ a. SameShape-refl (m.page a); same_fifo = refl; same_num = refl }

pub Quiet-log : {m m' : Machine} → m'.page ≡ m.page → m'.fifo ≡ m.fifo → m'.num ≡ m.num → Quiet m m'
Quiet-log {m} {m'} pages fifos nums = record {
  shape = λ a. subst (λ f. SameShape (m.page a) (f a)) (sym pages) (SameShape-refl (m.page a));
  same_fifo = fifos;
  same_num = nums;
}

pub Quiet-trans : {m m₁ m₂ : Machine} → Quiet m m₁ → Quiet m₁ m₂ → Quiet m m₂
Quiet-trans h k = record {
  shape = λ a. SameShape-trans (h.shape a) (k.shape a);
  same_fifo = k.same_fifo ∙ h.same_fifo;
  same_num = k.same_num ∙ h.same_num;
}

-- A command that is quiet in every state.
abbrev pub Quietly : {A : Type 0} → Cmd A → Type 0
Quietly c = (m : Machine) → Allows (λ _. Quiet m) (c m)

module _ {A : Type 0} where
  pub pure-Quietly : (a : A) → Quietly (pure a)
  pure-Quietly a m = Quiet-refl m

  pub bind-Quietly :
      {B : Type 0} (c : Cmd A) (k : A → Cmd B)
      → Quietly c
      → ((a : A) → Quietly (k a))
      → Quietly (c >>= k)
  bind-Quietly c k h rest m =
      Allows.bind (λ _. Quiet m) (λ _. Quiet m) (c m) k (h m)
        λ a m₁ q.
          Allows.weaken (λ _. Quiet m) (λ _. Quiet m₁) (k a m₁) (rest a m₁)
            λ b m₂ t. Quiet-trans q t

  pub if-Quietly : (b : Bool) (c d : Cmd A) → Quietly c → Quietly d → Quietly (if b then c else d)
  if-Quietly true c d h k = h
  if-Quietly false c d h k = k

pub load-Quietly : (p : Ptr) → Quietly (load p)
unfolding load
load-Quietly p m = elim (eq_cases p null) [
  | inl e ↦ rw e tt
  | inr ne ↦ rw (eqb_ne p null ne) (Quiet-refl m)
]

pub assert-Quietly : (b : Bool) → Quietly (assert b)
unfolding assert
assert-Quietly true m = Quiet-refl m
assert-Quietly false m = tt

pub modify-Quietly :
    (p : Ptr) (f : HememPage → HememPage)
    → ((v : HememPage) → SameShape v (f v))
    → Quietly (modify p f)
unfolding modify
modify-Quietly p f h m = elim (eq_cases p null) [
  | inl e ↦ rw e tt
  | inr ne ↦ rw (eqb_ne p null ne) (record {
    shape = λ a.
        if_elim (SameShape (m.page a)) (a == p) _ _
          (λ e.
            let same : a ≡ p = ground arith in
            subst (λ b. SameShape (m.page b) (f (m.page p))) (sym same) (h (m.page p)))
          (λ e. SameShape-refl (m.page a));
    same_fifo = refl;
    same_num = refl;
  })
]

pub pt_to_pagesize-Quietly : (t : PageType) → Quietly (pt_to_pagesize t)
unfolding pt_to_pagesize
pt_to_pagesize-Quietly PageType.hugep m = Quiet-refl m
pt_to_pagesize-Quietly PageType.basep m = Quiet-refl m
pt_to_pagesize-Quietly PageType.npagetypes m = tt

pub record_event-Quietly : (e : Event) → Quietly (record_event e)
unfolding record_event
record_event-Quietly e m = record {
  shape = λ a. SameShape-refl (m.page a);
  same_fifo = refl;
  same_num = refl;
}

pub set_internal_call-Quietly : (b : Bool) → Quietly (set_internal_call b)
unfolding set_internal_call
set_internal_call-Quietly b m = record {
  shape = λ a. SameShape-refl (m.page a);
  same_fifo = refl;
  same_num = refl;
}
