-- ===== src/Pebs/Route.antt =====
-- The four ways of a page from tier to tier, with the lists and the request of each.
use dma_migration_test.Base.{ℕ, Bool, true, false}
use dma_migration_test.Machine.{
  ListName, Cmd, dram_free_list, nvm_free_list, dram_mmap_list, nvm_mmap_list, dram_to_dram_list,
  dram_to_nvm_list, nvm_to_dram_list, nvm_to_nvm_list,
}
use dma_migration_test.Pebs.Request.{
  mig_dram_to_dram_request, mig_nvm_to_nvm_request, migrate_down_request, migrate_up_request,
}

pub data Route : Type 0 where
  dram_to_dram dram_to_nvm nvm_to_dram nvm_to_nvm : Route

-- Whether the page starts, and ends, in DRAM.
abbrev pub from_dram : Route → Bool
from_dram dram_to_dram = true
from_dram dram_to_nvm = true
from_dram nvm_to_dram = false
from_dram nvm_to_nvm = false

abbrev pub to_dram : Route → Bool
to_dram dram_to_dram = true
to_dram dram_to_nvm = false
to_dram nvm_to_dram = true
to_dram nvm_to_nvm = false

abbrev pub mapped_of : Bool → ListName
mapped_of true = dram_mmap_list
mapped_of false = nvm_mmap_list

abbrev pub free_of : Bool → ListName
free_of true = dram_free_list
free_of false = nvm_free_list

abbrev pub queue_of : Route → ListName
queue_of dram_to_dram = dram_to_dram_list
queue_of dram_to_nvm = dram_to_nvm_list
queue_of nvm_to_dram = nvm_to_dram_list
queue_of nvm_to_nvm = nvm_to_nvm_list

-- The function of pebs.c that requests such migrations.
abbrev pub request_of : Route → (rand : ℕ → ℕ) (pages_num : ℕ) (random : Bool) → Cmd ℕ
request_of dram_to_dram = mig_dram_to_dram_request
request_of dram_to_nvm = migrate_down_request
request_of nvm_to_dram = migrate_up_request
request_of nvm_to_nvm = mig_nvm_to_nvm_request
