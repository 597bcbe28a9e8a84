-- ===== src/Tests/Sample.antt =====
-- A small state that the witnesses run on: six descriptors on five lists, and a kernel that grants
-- every request.
use dma_migration_test.Base.{
  ℕ, ◌+◌, ◌*◌, ◌≡◌, refl, true, false, some, List, [], ◌∷◌, length, All, ap, u64_mod, eqb_refl,
  eqb_ne, ◌-◌, ◌==◌, if◌then◌else◌, arith,
}
use dma_migration_test.Machine.{
  Ptr, null, HememPage, FifoList, ListName, Machine, Os, Event, HashTable, TableOp, hash_add,
  hash_del, hugep, mmap, page_size, dram_free_list, nvm_free_list, dram_mmap_list, nvm_mmap_list,
  dram_to_dram_list, dram_to_nvm_list, nvm_to_dram_list, nvm_to_nvm_list,
}
use dma_migration_test.Fifo.Seg.{Node, cons, nil}
use dma_migration_test.Fifo.Repr.{IsFifo, Queues}
use dma_migration_test.Hemem.Granted.{Grants}
use dma_migration_test.Pebs.Filled.{Allocates}
use dma_migration_test.Pebs.Start.{IsBlank}
use dma_migration_test.Hemem.Pages.{FindsByKey}
use dma_migration_test.Pebs.Allocate.{zeroed}
use dma_migration_test.Pebs.Invariant.{Inv, Counted, IsPlaced}

abbrev mapped_page : (frame : ℕ) → HememPage
mapped_page frame = record zeroed {
  va = (frame + 1) * page_size;
  devdax_offset = frame * page_size;
  in_dram = true;
  present = true;
}

abbrev sample_page : Ptr → HememPage
sample_page p =
    if p == 1
    then record (mapped_page 0) { prev = 6; list = some dram_mmap_list }
    else if p == 2
    then record zeroed { list = some nvm_free_list }
    else if p == 3
    then record (mapped_page 1) { list = some dram_to_nvm_list }
    else if p == 4
    then record (mapped_page 2) { list = some dram_to_dram_list }
    else if p == 5
    then record zeroed { devdax_offset = 3 * page_size; in_dram = true; list = some dram_free_list }
    else if p == 6
    then record (mapped_page 4) { next = 1; list = some dram_mmap_list }
    else zeroed

abbrev pub sample_queues : Queues
sample_queues dram_free_list = 5 ∷ []
sample_queues nvm_free_list = 2 ∷ []
sample_queues dram_mmap_list = 6 ∷ 1 ∷ []
sample_queues nvm_mmap_list = []
sample_queues dram_to_dram_list = 4 ∷ []
sample_queues dram_to_nvm_list = 3 ∷ []
sample_queues nvm_to_dram_list = []
sample_queues nvm_to_nvm_list = []

abbrev sample_fifo : ListName → FifoList
sample_fifo dram_free_list = record { first = 5; last = 5; numentries = 1 }
sample_fifo nvm_free_list = record { first = 2; last = 2; numentries = 1 }
sample_fifo dram_mmap_list = record { first = 6; last = 1; numentries = 2 }
sample_fifo nvm_mmap_list = record { first = null; last = null; numentries = 0 }
sample_fifo dram_to_dram_list = record { first = 4; last = 4; numentries = 1 }
sample_fifo dram_to_nvm_list = record { first = 3; last = 3; numentries = 1 }
sample_fifo nvm_to_dram_list = record { first = null; last = null; numentries = 0 }
sample_fifo nvm_to_nvm_list = record { first = null; last = null; numentries = 0 }

abbrev pub sample : Machine
sample = record {
  page = sample_page;
  fifo = sample_fifo;
  num = λ n. length (sample_queues n);
  internal_call = false;
  is_init = true;
  cr3_set = false;
  cr3 = 0;
  dev = record {
    dram_devdax_mmap = 1000 * page_size;
    nvm_devdax_mmap = 20000 * page_size;
    dramfd = 3;
    nvmfd = 4;
  };
  pages = [];
  trace = [];
}

empty-IsFifo :
    (n : ListName)
    → sample_fifo n ≡ record { first = null; last = null; numentries = 0 }
    → IsFifo sample n []
empty-IsFifo n e = record {
  first = ap (λ l. l.first) e;
  last = ap (λ l. l.last) e;
  numentries = ap (λ l. l.numentries) e;
  bounded = omega arith;
  chain = nil;
  distinct = tt;
}

single-IsFifo :
    (n : ListName) (p : Ptr)
    → ¬ (p ≡ null)
    → sample_fifo n ≡ record { first = p; last = p; numentries = 1 }
    → (sample_page p).prev ≡ null
    → (sample_page p).next ≡ null
    → (sample_page p).list ≡ some n
    → IsFifo sample n (p ∷ [])
single-IsFifo n p valid e before behind on = record {
  first = ap (λ l. l.first) e;
  last = ap (λ l. l.last) e;
  numentries = ap (λ l. l.numentries) e;
  bounded = omega arith;
  chain = cons (record { ne_null = valid; prev = before; next = behind; list = on }) nil;
  distinct = (tt, tt);
}

Node-6 : Node sample_page dram_mmap_list null 6 1
Node-6 = record { ne_null = λ e. omega arith; prev = refl; next = refl; list = refl }

Node-1 : Node sample_page dram_mmap_list 6 1 null
Node-1 = record { ne_null = λ e. omega arith; prev = refl; next = refl; list = refl }

pub sample-Represents : (n : ListName) → IsFifo sample n (sample_queues n)
sample-Represents dram_free_list = single-IsFifo _ 5 (λ e. omega arith) refl refl refl refl
sample-Represents nvm_free_list = single-IsFifo _ 2 (λ e. omega arith) refl refl refl refl
sample-Represents dram_mmap_list = record {
  first = refl;
  last = refl;
  numentries = refl;
  bounded = omega arith;
  chain = cons Node-6 (cons Node-1 nil);
  distinct = (((λ e. omega arith), tt), (tt, tt));
}
sample-Represents nvm_mmap_list = empty-IsFifo _ refl
sample-Represents dram_to_dram_list = single-IsFifo _ 4 (λ e. omega arith) refl refl refl refl
sample-Represents dram_to_nvm_list = single-IsFifo _ 3 (λ e. omega arith) refl refl refl refl
sample-Represents nvm_to_dram_list = empty-IsFifo _ refl
sample-Represents nvm_to_nvm_list = empty-IsFifo _ refl

sample-IsPlaced : (n : ListName) → All (IsPlaced sample n) (sample_queues n)
sample-IsPlaced dram_free_list = ((refl, refl), tt)
sample-IsPlaced nvm_free_list = ((refl, refl), tt)
sample-IsPlaced dram_mmap_list = ((refl, refl), ((refl, refl), tt))
sample-IsPlaced nvm_mmap_list = tt
sample-IsPlaced dram_to_dram_list = ((refl, refl), tt)
sample-IsPlaced dram_to_nvm_list = ((refl, refl), tt)
sample-IsPlaced nvm_to_dram_list = tt
sample-IsPlaced nvm_to_nvm_list = tt

pub sample-Inv : Inv sample sample_queues
sample-Inv = record { lists = sample-Represents; placed = sample-IsPlaced; few = omega arith }

pub sample-Counted : Counted sample sample_queues
sample-Counted n = refl

-- `mmap` at a fixed address returns it; MAP_FAILED is `(void *) -1`.
abbrev granting_mmap : List Event → Event → ℕ
granting_mmap t (mmap addr length mode fd offset) = addr
granting_mmap t _ = 0

abbrev pub granting : Os
granting = record {
  mmap_result = granting_mmap;
  munmap_result = λ t e. 0;
  ioctl_succeeds = λ t e. true;
  cr3_result = λ t. 0;
  map_failed = u64_mod - 1;
}

pub granting-Grants : Grants granting
granting-Grants = record {
  ioctls = λ t e. refl;
  maps = λ t va len fd offset. refl;
  not_failed = λ va aligned e. omega arith;
}

-- A table that keeps its elements in a sequence.
abbrev find_in : List TableOp → ℕ → Ptr
find_in [] k = null
find_in (hash_add va p ∷ t) k = if k == va then p else find_in t k
find_in (hash_del p ∷ t) k = if find_in t k == p then null else find_in t k

abbrev pub listed : HashTable
listed = record { find = find_in }

pub listed-FindsByKey : FindsByKey listed
listed-FindsByKey = record {
  added = λ t va p. rw (eqb_refl va) refl;
  added_other = λ t va k p ne. rw (eqb_ne k va ne) refl;
  deleted = λ t k. rw (eqb_refl (find_in t k)) refl;
  deleted_other = λ t k p ne. rw (eqb_ne (find_in t k) p ne) refl;
}

pub sample-huge : (p : Ptr) → (sample.page p).pt ≡ hugep
sample-huge p = ground arith

-- The program's start, and a `calloc` that gives out odd addresses for one device and even ones for
-- the rest.
abbrev pub blank : Machine
blank = record {
  page = λ a. zeroed;
  fifo = λ n. record { first = null; last = null; numentries = 0 };
  num = λ n. 0;
  internal_call = false;
  is_init = false;
  cr3_set = false;
  cr3 = 0;
  dev = sample.dev;
  pages = [];
  trace = [];
}

pub blank-IsBlank : IsBlank blank
blank-IsBlank = record { lists = λ n. refl; counters = λ n. refl; pages = λ a. refl }

abbrev pub counting : ListName → ℕ → Ptr
counting dram_free_list j = 2 * j + 1
counting _ j = 2 * j + 2

pub counting-Allocates : Allocates (counting dram_free_list)
counting-Allocates = record { some = λ j e. omega arith; distinct = λ j k e. omega arith }

pub counting_even-Allocates : Allocates (counting nvm_free_list)
counting_even-Allocates = record { some = λ j e. omega arith; distinct = λ j k e. omega arith }
