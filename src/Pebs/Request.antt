-- ===== src/Pebs/Request.antt =====
-- The four requests of pebs.c, which move mapped pages to a migration queue. They differ in the
-- lists and in the tier that the page is asserted to be in.
use dma_migration_test.Base.{
  ℕ, zero, suc, ◌+◌, ◌%◌, Bool, true, false, not, ◌==◌, if◌then◌else◌, inc64, dec64,
}
use dma_migration_test.Machine.{
  null, ListName, Cmd, fault, pure, failing, ◌>>=◌, ◌>>◌, assert, load, get_num, modify_num,
  dram_mmap_list, nvm_mmap_list, dram_to_dram_list, dram_to_nvm_list, nvm_to_dram_list,
  nvm_to_nvm_list,
}
use dma_migration_test.Fifo.{enqueue_fifo, dequeue_fifo}

-- The body of either loop, behind the choice: how many pages it put on the queue.
unfoldable pub request_page : (mapped queue : ListName) (in_dram : Bool) → Cmd ℕ
request_page mapped queue in_dram = do
  page ← dequeue_fifo mapped
  if page == null then pure 0 else do
    p ← load page
    assert (if in_dram then p.in_dram else not p.in_dram)
    assert p.present
    enqueue_fifo queue page
    modify_num queue inc64
    modify_num mapped dec64
    pure 1

-- `while (choose--)`: the last page goes to the front, `choose` times.
unfoldable pub rotate : (mapped : ListName) (choose : ℕ) → Cmd (Unit {0})
rotate mapped zero = pure tt
rotate mapped (suc choose) = do
  page ← dequeue_fifo mapped
  enqueue_fifo mapped page
  rotate mapped choose

-- `pages` is the number of rounds left.
unfoldable pub request_in_order :
    (mapped queue : ListName) (in_dram : Bool) (pages page_put : ℕ) → Cmd ℕ
request_in_order mapped queue in_dram zero page_put = pure page_put
request_in_order mapped queue in_dram (suc pages) page_put = do
  put ← request_page mapped queue in_dram
  request_in_order mapped queue in_dram pages (page_put + put)

-- `rand i` is the answer of the i-th `rand()` after `srand(1)`. A remainder by zero is a fault.
unfoldable pub request_at_random :
    (rand : ℕ → ℕ) (mapped queue : ListName) (in_dram : Bool) (pages i page_put : ℕ) → Cmd ℕ
request_at_random rand mapped queue in_dram zero i page_put = pure page_put
request_at_random rand mapped queue in_dram (suc pages) i page_put = do
  num ← get_num mapped
  if num == 0 then failing fault else do
    rotate mapped (rand i % num)
    put ← request_page mapped queue in_dram
    request_at_random rand mapped queue in_dram pages (i + 1) (page_put + put)

-- A request for `pages_num` pages; a negative number makes no round, as 0 does.
request :
    (mapped queue : ListName) (in_dram : Bool) (rand : ℕ → ℕ) (pages_num : ℕ) (random : Bool)
    → Cmd ℕ
request mapped queue in_dram rand pages_num random =
    if random
    then request_at_random rand mapped queue in_dram pages_num 0 0
    else request_in_order mapped queue in_dram pages_num 0

unfoldable pub mig_dram_to_dram_request : (rand : ℕ → ℕ) (pages_num : ℕ) (random : Bool) → Cmd ℕ
unfolding request
mig_dram_to_dram_request = request dram_mmap_list dram_to_dram_list true

unfoldable pub mig_nvm_to_nvm_request : (rand : ℕ → ℕ) (pages_num : ℕ) (random : Bool) → Cmd ℕ
unfolding request
mig_nvm_to_nvm_request = request nvm_mmap_list nvm_to_nvm_list false

unfoldable pub migrate_down_request : (rand : ℕ → ℕ) (pages_num : ℕ) (random : Bool) → Cmd ℕ
unfolding request
migrate_down_request = request dram_mmap_list dram_to_nvm_list true

unfoldable pub migrate_up_request : (rand : ℕ → ℕ) (pages_num : ℕ) (random : Bool) → Cmd ℕ
unfolding request
migrate_up_request = request nvm_mmap_list nvm_to_dram_list false
