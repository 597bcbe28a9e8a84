-- ===== src/Pebs/Settled.antt =====
-- The counters after one round of the migration thread.
use dma_migration_test.Base.{
  ℕ, ◌≡◌, ◌<◌, refl, List, ◌∷◌, length, suc, u64_mod, add64, sub64, arith,
}
use dma_migration_test.Machine.{
  Ptr, ListName, ListName-discrete, Machine, ok, at_list, modify_num, dram_free_list, nvm_free_list,
  dram_mmap_list, nvm_mmap_list, dram_to_dram_list, dram_to_nvm_list, nvm_to_dram_list,
  nvm_to_nvm_list,
}
use dma_migration_test.Fifo.Repr.{Queues}
use dma_migration_test.Pebs.Invariant.{total, length-le-total}
use dma_migration_test.Pebs.Migration.{settle}
use dma_migration_test.Pebs.Route.{
  Route, dram_to_dram, dram_to_nvm, nvm_to_dram, nvm_to_nvm, from_dram, to_dram, mapped_of, free_of,
  queue_of,
}

abbrev up : (ListName → ℕ) → ListName → ListName → ℕ
up f n = at_list f n (add64 (f n) 1)

abbrev down : (ListName → ℕ) → ListName → ListName → ℕ
down f n = at_list f n (sub64 (f n) 1)

abbrev pub settled : Route → (ListName → ℕ) → ListName → ℕ
settled dram_to_dram f = down (up f dram_mmap_list) dram_to_dram_list
settled dram_to_nvm f =
    down (down (up (up f nvm_mmap_list) dram_free_list) nvm_free_list) dram_to_nvm_list
settled nvm_to_dram f =
    down (down (up (up f dram_mmap_list) nvm_free_list) dram_free_list) nvm_to_dram_list
settled nvm_to_nvm f = down (up f nvm_mmap_list) nvm_to_nvm_list

pub settle-ok :
    (r : Route) (m : Machine) → settle r 1 m ≡ ok tt (record m { num = settled r m.num })
unfolding settle modify_num
settle-ok dram_to_dram m = refl
settle-ok dram_to_nvm m = refl
settle-ok nvm_to_dram m = refl
settle-ok nvm_to_nvm m = refl

-- The lists after one round: `p` left the queue and `q` the free list of its new tier; `p` is mapped
-- there, and `q` is free in the tier that `p` left.
abbrev pub taken_out : Route → List Ptr → List Ptr → Queues → Queues
taken_out r xs ys qs = at_list (at_list qs (queue_of r) xs) (free_of (to_dram r)) ys

abbrev pub put_in : ListName → Ptr → Queues → Queues
put_in n p qs = at_list qs n (p ∷ qs n)

abbrev pub after_round : Route → Ptr → Ptr → List Ptr → List Ptr → Queues → Queues
after_round r p q xs ys qs =
    put_in (free_of (from_dram r)) q (put_in (mapped_of (to_dram r)) p (taken_out r xs ys qs))

pub settled-Counted :
    (r : Route) (f : ListName → ℕ) (qs : Queues) (p q : Ptr) (xs ys : List Ptr)
    → ((j : ListName) → f j ≡ length (qs j))
    → total qs < u64_mod
    → length (qs (queue_of r)) ≡ suc (length xs)
    → length (qs (free_of (to_dram r))) ≡ suc (length ys)
    → (j : ListName) → settled r f j ≡ length (after_round r p q xs ys qs j)
unfolding ListName-discrete
settled-Counted dram_to_dram f qs p q xs ys h t e d dram_free_list =
    omega (arith, h dram_free_list, length-le-total dram_free_list qs)
settled-Counted dram_to_dram f qs p q xs ys h t e d nvm_free_list = h nvm_free_list
settled-Counted dram_to_dram f qs p q xs ys h t e d dram_mmap_list =
    omega (arith, h dram_mmap_list, length-le-total dram_mmap_list qs)
settled-Counted dram_to_dram f qs p q xs ys h t e d nvm_mmap_list = h nvm_mmap_list
settled-Counted dram_to_dram f qs p q xs ys h t e d dram_to_dram_list =
    omega (arith, h dram_to_dram_list, length-le-total dram_to_dram_list qs)
settled-Counted dram_to_dram f qs p q xs ys h t e d dram_to_nvm_list = h dram_to_nvm_list
settled-Counted dram_to_dram f qs p q xs ys h t e d nvm_to_dram_list = h nvm_to_dram_list
settled-Counted dram_to_dram f qs p q xs ys h t e d nvm_to_nvm_list = h nvm_to_nvm_list
settled-Counted dram_to_nvm f qs p q xs ys h t e d dram_free_list =
    omega (arith, h dram_free_list, length-le-total dram_free_list qs)
settled-Counted dram_to_nvm f qs p q xs ys h t e d nvm_free_list =
    omega (arith, h nvm_free_list, length-le-total nvm_free_list qs)
settled-Counted dram_to_nvm f qs p q xs ys h t e d dram_mmap_list = h dram_mmap_list
settled-Counted dram_to_nvm f qs p q xs ys h t e d nvm_mmap_list =
    omega (arith, h nvm_mmap_list, length-le-total nvm_mmap_list qs)
settled-Counted dram_to_nvm f qs p q xs ys h t e d dram_to_dram_list = h dram_to_dram_list
settled-Counted dram_to_nvm f qs p q xs ys h t e d dram_to_nvm_list =
    omega (arith, h dram_to_nvm_list, length-le-total dram_to_nvm_list qs)
settled-Counted dram_to_nvm f qs p q xs ys h t e d nvm_to_dram_list = h nvm_to_dram_list
settled-Counted dram_to_nvm f qs p q xs ys h t e d nvm_to_nvm_list = h nvm_to_nvm_list
settled-Counted nvm_to_dram f qs p q xs ys h t e d dram_free_list =
    omega (arith, h dram_free_list, length-le-total dram_free_list qs)
settled-Counted nvm_to_dram f qs p q xs ys h t e d nvm_free_list =
    omega (arith, h nvm_free_list, length-le-total nvm_free_list qs)
settled-Counted nvm_to_dram f qs p q xs ys h t e d dram_mmap_list =
    omega (arith, h dram_mmap_list, length-le-total dram_mmap_list qs)
settled-Counted nvm_to_dram f qs p q xs ys h t e d nvm_mmap_list = h nvm_mmap_list
settled-Counted nvm_to_dram f qs p q xs ys h t e d dram_to_dram_list = h dram_to_dram_list
settled-Counted nvm_to_dram f qs p q xs ys h t e d dram_to_nvm_list = h dram_to_nvm_list
settled-Counted nvm_to_dram f qs p q xs ys h t e d nvm_to_dram_list =
    omega (arith, h nvm_to_dram_list, length-le-total nvm_to_dram_list qs)
settled-Counted nvm_to_dram f qs p q xs ys h t e d nvm_to_nvm_list = h nvm_to_nvm_list
settled-Counted nvm_to_nvm f qs p q xs ys h t e d dram_free_list = h dram_free_list
settled-Counted nvm_to_nvm f qs p q xs ys h t e d nvm_free_list =
    omega (arith, h nvm_free_list, length-le-total nvm_free_list qs)
settled-Counted nvm_to_nvm f qs p q xs ys h t e d dram_mmap_list = h dram_mmap_list
settled-Counted nvm_to_nvm f qs p q xs ys h t e d nvm_mmap_list =
    omega (arith, h nvm_mmap_list, length-le-total nvm_mmap_list qs)
settled-Counted nvm_to_nvm f qs p q xs ys h t e d dram_to_dram_list = h dram_to_dram_list
settled-Counted nvm_to_nvm f qs p q xs ys h t e d dram_to_nvm_list = h dram_to_nvm_list
settled-Counted nvm_to_nvm f qs p q xs ys h t e d nvm_to_dram_list = h nvm_to_dram_list
settled-Counted nvm_to_nvm f qs p q xs ys h t e d nvm_to_nvm_list =
    omega (arith, h nvm_to_nvm_list, length-le-total nvm_to_nvm_list qs)
