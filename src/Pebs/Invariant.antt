-- ===== src/Pebs/Invariant.antt =====
-- The invariant of the eight lists: what each list's descriptors say, and what its counter says.
use dma_migration_test.Base.{
  ℕ, ◌+◌, ◌≡◌, ◌<◌, ◌≤◌, ◌∙◌, ap, sym, subst, Bool, true, false, List, length, All, All-map,
  u64_mod, arith, if_pos, if_neg, none, All-map₂,
}
use dma_migration_test.Machine.{
  Ptr, ListName, ListName-discrete, Machine, at_list, dram_free_list, nvm_free_list, dram_mmap_list,
  nvm_mmap_list, dram_to_dram_list, dram_to_nvm_list, nvm_to_dram_list, nvm_to_nvm_list,
}
use dma_migration_test.Fifo.Repr.{Queues, Represents, unlinked}
use dma_migration_test.Fifo.Seg.{Seg-All, Seg-frame}

-- The tier of the frames on a list.
abbrev pub tier : ListName → Bool
tier dram_free_list = true
tier nvm_free_list = false
tier dram_mmap_list = true
tier nvm_mmap_list = false
tier dram_to_dram_list = true
tier dram_to_nvm_list = true
tier nvm_to_dram_list = false
tier nvm_to_nvm_list = false

-- Whether they are in use.
abbrev pub in_use : ListName → Bool
in_use dram_free_list = false
in_use nvm_free_list = false
in_use dram_mmap_list = true
in_use nvm_mmap_list = true
in_use dram_to_dram_list = true
in_use dram_to_nvm_list = true
in_use nvm_to_dram_list = true
in_use nvm_to_nvm_list = true

abbrev pub IsPlaced : Machine → ListName → Ptr → Type 0
IsPlaced m n p = ((m.page p).in_dram ≡ tier n) × ((m.page p).present ≡ in_use n)

-- All descriptors that the lists hold.
abbrev pub total : Queues → ℕ
total qs =
    length (qs dram_free_list)
    + length (qs nvm_free_list)
    + length (qs dram_mmap_list)
    + length (qs nvm_mmap_list)
    + length (qs dram_to_dram_list)
    + length (qs dram_to_nvm_list)
    + length (qs nvm_to_dram_list)
    + length (qs nvm_to_nvm_list)

pub record Inv (m : Machine) (qs : Queues) : Type 0 where
  pub lists : Represents m qs
  pub placed : (n : ListName) → All (IsPlaced m n) (qs n)
  pub few : total qs < u64_mod

-- Each counter is the length of its list.
abbrev pub Counted : Machine → Queues → Type 0
Counted m qs = (n : ListName) → m.num n ≡ length (qs n)

-- No descriptor changes but in its links.
pub record SameContent (m m' : Machine) : Type 0 where
  pub content : (a : Ptr) → unlinked (m'.page a) ≡ unlinked (m.page a)

pub length-le-total : (n : ListName) (qs : Queues) → length (qs n) ≤ total qs
length-le-total dram_free_list qs = omega arith
length-le-total nvm_free_list qs = omega arith
length-le-total dram_mmap_list qs = omega arith
length-le-total nvm_mmap_list qs = omega arith
length-le-total dram_to_dram_list qs = omega arith
length-le-total dram_to_nvm_list qs = omega arith
length-le-total nvm_to_dram_list qs = omega arith
length-le-total nvm_to_nvm_list qs = omega arith

-- Replacing one list changes the total by the difference in length.
pub total-at_list :
    (n : ListName) (qs : Queues) (xs : List Ptr)
    → total (at_list qs n xs) + length (qs n) ≡ total qs + length xs
unfolding ListName-discrete
total-at_list dram_free_list qs xs = omega arith
total-at_list nvm_free_list qs xs = omega arith
total-at_list dram_mmap_list qs xs = omega arith
total-at_list nvm_mmap_list qs xs = omega arith
total-at_list dram_to_dram_list qs xs = omega arith
total-at_list dram_to_nvm_list qs xs = omega arith
total-at_list nvm_to_dram_list qs xs = omega arith
total-at_list nvm_to_nvm_list qs xs = omega arith

module _ {m m' : Machine} (same : SameContent m m') where
  pub IsPlaced-content : (n : ListName) (p : Ptr) → IsPlaced m n p → IsPlaced m' n p
  IsPlaced-content n p h =
      (ap (λ r. r.in_dram) (same.content p) ∙ h.0, ap (λ r. r.present) (same.content p) ∙ h.1)

  pub All-IsPlaced-content :
      (n : ListName) (xs : List Ptr) → All (IsPlaced m n) xs → All (IsPlaced m' n) xs
  All-IsPlaced-content n xs h = All-map xs (IsPlaced-content n) h

pub SameContent-trans :
    {m m' m'' : Machine} → SameContent m m' → SameContent m' m'' → SameContent m m''
SameContent-trans h k = record { content = λ a. k.content a ∙ h.content a }

-- A property of all lists, after one of them is replaced.
pub at_list-All :
    (P : ListName → List Ptr → Type 0) (n : ListName) (xs : List Ptr) (qs : Queues)
    → ((k : ListName) → P k (qs k))
    → P n xs
    → (k : ListName) → P k (at_list qs n xs k)
at_list-All P n xs qs all new k = elim (ListName-discrete k n) [
  | yes e ↦ rw (if_pos _ e) (subst (λ j. P j xs) (sym e) new)
  | no ne ↦ rw (if_neg _ ne) (all k)
]

-- The lists and the descriptors do not know of the counters, the log, or the running call.
pub Inv-frame :
    {m m' : Machine} {qs : Queues} → m'.page ≡ m.page → m'.fifo ≡ m.fifo → Inv m qs → Inv m' qs
Inv-frame {m} {m'} {qs} e d inv = record {
  lists = λ n. record {
    first = rw d (inv.lists n).first;
    last = rw d (inv.lists n).last;
    numentries = rw d (inv.lists n).numentries;
    bounded = (inv.lists n).bounded;
    chain = rw e (inv.lists n).chain;
    distinct = (inv.lists n).distinct;
  };
  placed = λ n. rw e (inv.placed n);
  few = inv.few;
}

-- Nor do the lists know of a descriptor that is on none of them.
pub Inv-touch :
    {m m' : Machine} {qs : Queues} (p : Ptr)
    → (m.page p).list ≡ none
    → ((a : Ptr) → ¬ (a ≡ p) → m'.page a ≡ m.page a)
    → m'.fifo ≡ m.fifo
    → Inv m qs
    → Inv m' qs
Inv-touch {m} {m'} {qs} p off same d inv = record {
  lists = λ n. record {
    first = rw d (inv.lists n).first;
    last = rw d (inv.lists n).last;
    numentries = rw d (inv.lists n).numentries;
    bounded = (inv.lists n).bounded;
    chain = Seg-frame (inv.lists n).chain (kept n);
    distinct = (inv.lists n).distinct;
  };
  placed = λ n.
      All-map₂ (qs n) (λ a e h. (ap (λ r. r.in_dram) e ∙ h.0, ap (λ r. r.present) e ∙ h.1)) (kept n)
        (inv.placed n);
  few = inv.few;
}
  where
    kept : (n : ListName) → All (λ a. m'.page a ≡ m.page a) (qs n)
    kept n =
        All-map (qs n) (λ a (_, on). same a (λ e. cc (ap (λ b. (m.page b).list) e)))
          (Seg-All (inv.lists n).chain)
