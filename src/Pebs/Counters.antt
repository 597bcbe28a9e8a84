-- ===== src/Pebs/Counters.antt =====
-- The functions of pebs.c that read the counters, each converted to an `int`, and what they say.
use dma_migration_test.Base.{ℕ, ◌+◌, ◌-◌, ◌^◌, ◌≡◌, ◌∙◌, ap, ◌<◌, length, arith, add64}
use dma_migration_test.Base.Int.{ℤ, pos, to_int}
use dma_migration_test.Machine.{
  ListName, Machine, dram_free_list, nvm_free_list, dram_mmap_list, nvm_mmap_list,
  dram_to_dram_list, dram_to_nvm_list, nvm_to_dram_list, nvm_to_nvm_list,
}
use dma_migration_test.Fifo.Repr.{Queues}
use dma_migration_test.Pebs.Invariant.{Counted, total, length-le-total}

unfoldable pub get_dram_to_dram_list_num : Machine → ℤ
get_dram_to_dram_list_num m = to_int (m.num dram_to_dram_list)

unfoldable pub get_dram_to_nvm_list_num : Machine → ℤ
get_dram_to_nvm_list_num m = to_int (m.num dram_to_nvm_list)

unfoldable pub get_nvm_to_dram_list_num : Machine → ℤ
get_nvm_to_dram_list_num m = to_int (m.num nvm_to_dram_list)

unfoldable pub get_nvm_to_nvm_list_num : Machine → ℤ
get_nvm_to_nvm_list_num m = to_int (m.num nvm_to_nvm_list)

unfoldable pub get_total_mmap : Machine → ℤ
get_total_mmap m = to_int (
    add64
      (add64
        (add64
          (add64 (add64 (m.num dram_to_dram_list) (m.num dram_to_nvm_list)) (m.num dram_mmap_list))
          (m.num nvm_to_nvm_list))
        (m.num nvm_to_dram_list))
      (m.num nvm_mmap_list))

small_int : (x : ℕ) → x < 2 ^ 31 → to_int x ≡ pos x
small_int x h = ground arith

-- The sum of six of the counters.
abbrev six : (ListName → ℕ) → ℕ
six f =
    f dram_to_dram_list
    + f dram_to_nvm_list
    + f dram_mmap_list
    + f nvm_to_nvm_list
    + f nvm_to_dram_list
    + f nvm_mmap_list

six-add64 :
    (f : ListName → ℕ)
    → six f < 2 ^ 31
    → add64
        (add64
          (add64
            (add64 (add64 (f dram_to_dram_list) (f dram_to_nvm_list)) (f dram_mmap_list))
            (f nvm_to_nvm_list))
          (f nvm_to_dram_list))
        (f nvm_mmap_list)
      ≡ six f
six-add64 f h = omega arith

sum_of_six :
    (m : Machine) (f : ListName → ℕ)
    → ((n : ListName) → m.num n ≡ f n)
    → six f < 2 ^ 31
    → get_total_mmap m ≡ pos (six f)
unfolding get_total_mmap
sum_of_six m f same h =
    rw
      (
        same dram_to_dram_list,
        same dram_to_nvm_list,
        same dram_mmap_list,
        same nvm_to_nvm_list,
        same nvm_to_dram_list,
        same nvm_mmap_list,
        six-add64 f h,
      )
      (small_int (six f) h)

-- With fewer than 2^31 descriptors on the lists, and counters that agree with them, no conversion
-- loses anything: the functions return the lengths of the queues, and the number of all
-- descriptors less the free ones.
pub get_total_mmap-counts :
    (m : Machine) (qs : Queues)
    → Counted m qs
    → total qs < 2 ^ 31
    → (get_dram_to_dram_list_num m ≡ pos (length (qs dram_to_dram_list)))
      × (get_dram_to_nvm_list_num m ≡ pos (length (qs dram_to_nvm_list)))
      × (get_nvm_to_dram_list_num m ≡ pos (length (qs nvm_to_dram_list)))
      × (get_nvm_to_nvm_list_num m ≡ pos (length (qs nvm_to_nvm_list)))
      × (get_total_mmap m
          ≡ pos (total qs - (length (qs dram_free_list) + length (qs nvm_free_list))))
unfolding get_dram_to_dram_list_num get_dram_to_nvm_list_num get_nvm_to_dram_list_num
    get_nvm_to_nvm_list_num get_total_mmap
get_total_mmap-counts m qs counted few =
    let one : (n : ListName) → to_int (m.num n) ≡ pos (length (qs n)) =
      λ n. rw (counted n) (small_int (length (qs n)) (omega (arith, length-le-total n qs))) in
    (
      one dram_to_dram_list,
      one dram_to_nvm_list,
      one nvm_to_dram_list,
      one nvm_to_nvm_list,
      sum_of_six m (λ n. length (qs n)) counted (omega arith) ∙ ap pos (omega arith),
    )
