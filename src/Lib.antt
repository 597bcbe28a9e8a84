-- ===== src/Lib.antt =====
-- DMA-migration-test: a page manager for two tiers of memory, DRAM and NVM, both mapped from
-- devices. A page of the application is a descriptor (`struct hemem_page`) that says where its
-- frame is and which list it is on. Eight lists hold the descriptors by tier and state: free,
-- mapped, and waiting for one of four kinds of migration. A benchmark puts mapped pages on the
-- waiting lists; a thread takes them off, has the kernel copy them by DMA, maps them to their new
-- frames and puts them on the mapped lists.
--
-- - Base: names of the libraries, Boolean tests, 64-bit counters, lemmas on lists.
-- - Machine: the state that the C files share (hemem.h, fifo.h, the statics of pebs.c), and the
--   commands on it. A command returns a value and a state, or ends by a failed `assert`, a call of
--   `exit`, a fault (NULL or a division by zero), or the end of its fuel. Children: runs that
--   return (Yields), runs that may not (Allows), and what single commands do.
-- - Fifo: fifo.c. Its children relate the links of the descriptors to sequences of pages; Laws
--   holds what the operations do to the sequences.
-- - Pebs: pebs.c. Request (the four request functions), Allocate (`pebs_allocate_page`,
--   `pebs_pagefault`, `pebs_init`), Migration (the thread and the `pebs_migrate_` functions),
--   Counters (the getters). Invariant says what the lists say of their descriptors; Memory says what
--   the kernel's calls do to the bytes that the application has, as a parameter; the other children
--   prove.
-- - Hemem: hemem.c: the migrations and the write protection (Migrate), the table of mapped pages
--   (Pages), the missing fault, `hemem_mmap_populate` and `hemem_munmap` (Faults), `hemem_mmap`
--   (Mmap), `handle_wp_fault` with the fault thread (FaultThread), and `hemem_init` and
--   `hemem_stop` with the constructor and destructor of interpose.c (Init); ParallelCopy models the
--   copy threads that are built without USE_DMA. Calls to the kernel are logged and answered by a
--   parameter (`Os`), and so are uses of the hash table (`HashTable`).
-- - Interpose: interpose.c: which system calls of the application go to the manager.
-- - Threads: the loop bodies of all threads in any order, under a kernel that may answer anything:
--   Reach has the relation, Sound what holds of every state that it reaches.
-- - Driver: mig-test.c, the benchmark, run on all of the parts above, from the start of the
--   program; the migration thread takes its turns between the pages of a request by any schedule
--   (`turns`), and finishes the queue in the waits.
-- - Timer: timer.c, over integers. Record: res-record.c, the thread that records how busy the cores
--   are and the files of the results. Both stand apart from the state of the manager.
-- - Tests: the theorems at concrete inputs.
--
-- How the state corresponds: a pointer is a number, NULL is 0, and `page` maps a pointer to its
-- descriptor. `fifo` and `num` hold each list's header and its counter. Unsigned 64-bit arithmetic
-- wraps around. Each function of fifo.c runs under its list's mutex and each change of the counters
-- under `stats_lock`, so both are steps of one sequence. Threads take turns at the ends of loop
-- bodies: a round of the migration thread, a page of a request, a fault, a page of `mmap` or
-- `munmap`; what happens when they meet inside one is not modelled, but
-- for a write-protection fault that meets a `pebs_migrate_` function behind its write protection
-- (Pebs/Waited). `internal_call` is that of the thread whose turn it is. The four request functions differ in their lists and in an assertion only, as the four migrations do in
-- their devices: they are instances of one command, with a route for the migrations.
--
-- Fuel: a `while` loop of `migration_request` takes one unit a round, and each round takes one page
-- at least off its list, so that a unit for each page and one more are enough. The loops of
-- `hemem_mmap_populate` and `hemem_munmap` take one unit a round, and a round goes on by 4 KB at
-- least. NUM_BATCHS is 1, so a round of the migration thread is for one page.
--
-- Assumed of code that is not here: `Grants` says that the kernel grants each request and that a
-- fixed mapping lands at its address; `Succeeds`, `MapsAt`, `Maps` and `Reserves`, what the
-- program's start and its `mmap` calls are given; `Allocates`, that `calloc` gives distinct
-- addresses that are not NULL; `Behaves`, that a DMA copy and a fixed mapping do to the bytes what
-- their documentation says; `FindsByKey` says that the hash table finds an element by the key
-- that it was added under. `rand` is any sequence of numbers.
--
-- Not modelled: the statistics thread and the log lines, `elapsed` of timer.c, which converts to
-- floating point, the rest of mig-test.c (its munmap and the last wait), test.c (which
-- runs the recorder for five seconds), and uthash.h (a copy of a library).
pub mod Base
pub mod Machine
pub mod Fifo
pub mod Pebs
pub mod Hemem
pub mod Interpose
pub mod Timer
pub mod Record
pub mod Driver
pub mod Threads
pub mod Tests
