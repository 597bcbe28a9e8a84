-- ===== src/Machine.antt =====
-- The state that fifo.c, pebs.c and hemem.c share (the types and constants of hemem.h and fifo.h),
-- what they ask of the kernel, and the commands by which they read and write the state.
-- A command answers with a value and the new state, or says how the process ends.
pub mod Rules
pub mod Update
pub mod Yields
pub mod Allows
use dma_migration_test.Base.{ℕ, ◌*◌, ◌/◌, Bool, Option, List, ◌∷◌, ◌==◌, if◌then◌else◌, ite}

-- A `struct hemem_page *`: 0 is NULL. Descriptors come from `calloc` in `pebs_init` and are never
-- freed, so every other pointer that the program holds has a descriptor behind it.
abbrev pub Ptr : Type 0
Ptr = ℕ

abbrev pub null : Ptr
null = 0

abbrev pub basepage_size : ℕ
basepage_size = 4 * 1024

abbrev pub hugepage_size : ℕ
hugepage_size = 2 * 1024 * 1024

abbrev pub page_size : ℕ
page_size = hugepage_size

abbrev pub dramsize : ℕ
dramsize = 16 * (1024 * 1024 * 1024)

abbrev pub nvmsize : ℕ
nvmsize = 240 * (1024 * 1024 * 1024)

abbrev pub fastmem_pages : ℕ
fastmem_pages = dramsize / page_size

abbrev pub slowmem_pages : ℕ
slowmem_pages = nvmsize / page_size

abbrev pub num_batchs : ℕ
num_batchs = 1

pub data PageType : Type 0 where
  hugep basep npagetypes : PageType

-- The static lists of pebs.c. A `struct fifo_list *` is NULL or the address of one of them.
pub data ListName : Type 0 where
  dram_free_list nvm_free_list dram_mmap_list nvm_mmap_list : ListName
  dram_to_dram_list dram_to_nvm_list nvm_to_dram_list nvm_to_nvm_list : ListName

unfoldable pub ListName-discrete : Discrete ListName
ListName-discrete = hlevel

pub record HememPage : Type 0 where
  pub va : ℕ
  pub devdax_offset : ℕ
  pub in_dram : Bool
  pub pt : PageType
  pub migrating : Bool
  pub present : Bool
  pub written : Bool
  pub migrations_up : ℕ
  pub migrations_down : ℕ
  pub next : Ptr
  pub prev : Ptr
  pub list : Option ListName

pub record FifoList : Type 0 where
  pub first : Ptr
  pub last : Ptr
  pub numentries : ℕ

-- One entry of a `struct uffdio_dma_copy`.
pub record Copy : Type 0 where
  pub src : ℕ
  pub dst : ℕ
  pub len : ℕ

-- The `flags` of an `mmap`: each MAP_ constant that the program tests is one bit; `others` is what
-- the remaining bits hold.
pub record MapFlags : Type 0 where
  pub map_private : Bool
  pub map_shared : Bool
  pub map_anonymous : Bool
  pub map_hugetlb : Bool
  pub map_populate : Bool
  pub map_stack : Bool
  pub others : ℕ

-- The protection and flags of an `mmap`: those of the page mappings, or the application's own.
pub data MapMode : Type 0 where
  populate_fixed : MapMode
  requested : (prot : ℕ) (flags : MapFlags) → MapMode

-- The calls by which the program acts on memory and on the kernel.
pub data Event : Type 0 where
  mmap : (addr length : ℕ) → MapMode → (fd offset : ℕ) → Event
  munmap : (addr length : ℕ) → Event
  zero_fill : (addr length : ℕ) → Event
  uffd_register : (start len : ℕ) → Event
  uffd_writeprotect : (start len : ℕ) → Bool → Event
  uffd_wake : (start len : ℕ) → Event
  uffd_dma_copy : List Copy → Event
  uffd_cr3 : Event
  uffd_api : Event
  uffd_dma_request_channs : (num_channs size_per_dma_request : ℕ) → Event
  uffd_dma_release_channs : (num_channs size_per_dma_request : ℕ) → Event

-- What is done to the hash table `pages`, whose elements are found by their `va`.
pub data TableOp : Type 0 where
  hash_add : (va : ℕ) (page : Ptr) → TableOp
  hash_del : (page : Ptr) → TableOp

-- The hash table's answers, which depend on what was done to it, the latest first: the descriptor
-- that HASH_FIND gives, or NULL.
pub record HashTable : Type 0 where
  pub find : List TableOp → (va : ℕ) → Ptr

-- The kernel's answers, which may depend on all earlier calls, the latest first: the address that
-- `mmap` returns, whether an `ioctl` succeeds, and the register that UFFDIO_CR3 reads.
pub record Os : Type 0 where
  pub mmap_result : List Event → Event → ℕ
  pub munmap_result : List Event → Event → ℕ
  pub ioctl_succeeds : List Event → Event → Bool
  pub cr3_result : List Event → ℕ
  pub map_failed : ℕ

-- What `hemem_init` fixes: where the two devices are mapped, and their descriptors.
pub record Devices : Type 0 where
  pub dram_devdax_mmap : ℕ
  pub nvm_devdax_mmap : ℕ
  pub dramfd : ℕ
  pub nvmfd : ℕ

-- `num` holds the counters `dram_free_list_num`, ..., each under its list's name; `internal_call` is
-- that of the running thread.
pub record Machine : Type 0 where
  pub page : Ptr → HememPage
  pub fifo : ListName → FifoList
  pub num : ListName → ℕ
  pub internal_call : Bool
  pub is_init : Bool
  pub cr3_set : Bool
  pub cr3 : ℕ
  pub dev : Devices
  pub pages : List TableOp
  pub trace : List Event

-- A run ends with a value, by a failed `assert` or a call of `abort`, by a call of `exit`, by a fault
-- (a read or write through NULL, or a division by zero), or, in the model alone, because a loop's
-- fuel ran out.
pub data Outcome (A : Type 0) : Type 0 where
  ok : A → Machine → Outcome A
  abort : Outcome A
  exit : Outcome A
  fault : Outcome A
  out_of_fuel : Outcome A

abbrev pub Cmd : Type 0 → Type 0
Cmd A = Machine → Outcome A

module _ {A : Type 0} where
  abbrev pub pure : A → Cmd A
  pure = ok

  abbrev pub failing : Outcome A → Cmd A
  failing r m = r

module _ {A B : Type 0} where
  abbrev pub continue_with : Outcome A → (A → Cmd B) → Outcome B
  continue_with (ok a m) k = k a m
  continue_with abort k = abort
  continue_with exit k = exit
  continue_with fault k = fault
  continue_with out_of_fuel k = out_of_fuel

  infixl 5 ◌>>=◌ ◌>>◌
  abbrev pub ◌>>=◌ : Cmd A → (A → Cmd B) → Cmd B
  c >>= k = λ m. continue_with (c m) k

  abbrev pub ◌>>◌ : Cmd A → Cmd B → Cmd B
  c >> d = c >>= λ _. d

unfoldable pub assert : Bool → Cmd (Unit {0})
assert b m = if b then ok tt m else abort

-- An `if` without an `else`.
unfoldable pub when : Bool → Cmd (Unit {0}) → Cmd (Unit {0})
when b c m = if b then c m else ok tt m

-- Functions changed at one argument.
abbrev pub at_page : (Ptr → HememPage) → Ptr → HememPage → Ptr → HememPage
at_page f p v a = if a == p then v else f a

abbrev pub at_list : {A : Type 0} → (ListName → A) → ListName → A → ListName → A
at_list f n v k = ite (ListName-discrete k n) v (f k)

-- `*p` and `p->field = value`, a fault at NULL.
unfoldable pub load : Ptr → Cmd HememPage
load p m = if p == null then fault else ok (m.page p) m

unfoldable pub modify : Ptr → (HememPage → HememPage) → Cmd (Unit {0})
modify p f m =
    if p == null then fault else ok tt (record m { page = at_page m.page p (f (m.page p)) })

abbrev pub get_fifo : ListName → Cmd FifoList
get_fifo n m = ok (m.fifo n) m

unfoldable pub modify_fifo : ListName → (FifoList → FifoList) → Cmd (Unit {0})
modify_fifo n f m = ok tt (record m { fifo = at_list m.fifo n (f (m.fifo n)) })

abbrev pub get_num : ListName → Cmd ℕ
get_num n m = ok (m.num n) m

unfoldable pub modify_num : ListName → (ℕ → ℕ) → Cmd (Unit {0})
modify_num n f m = ok tt (record m { num = at_list m.num n (f (m.num n)) })

unfoldable pub record_event : Event → Cmd (Unit {0})
record_event e m = ok tt (record m { trace = e ∷ m.trace })

unfoldable pub set_internal_call : Bool → Cmd (Unit {0})
set_internal_call b m = ok tt (record m { internal_call = b })

-- The page size of a page type; the `default` case asserts.
unfoldable pub pt_to_pagesize : PageType → Cmd ℕ
pt_to_pagesize PageType.hugep = pure hugepage_size
pt_to_pagesize PageType.basep = pure basepage_size
pt_to_pagesize PageType.npagetypes = failing abort

unfoldable pub pagesize_to_pt : ℕ → Cmd PageType
pagesize_to_pt pagesize =
    if pagesize == basepage_size
    then pure PageType.basep
    else if pagesize == hugepage_size
    then pure PageType.hugep
    else failing abort
