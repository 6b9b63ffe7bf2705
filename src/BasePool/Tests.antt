-- ===== src/BasePool/Tests.antt =====
-- Runs of 1.base/mem_pool.c, and its theorems at the pools that they reach.
use learn_c.Common.{
  ℕ, ◌-◌, ◌^◌, ◌≡◌, refl, inr, some, List, [], ◌∷◌, arith, ok, if◌then◌else◌, update,
}
use learn_c.BasePool.{
  Block, Pool, Fresh, invalid_free, overflow_on, intact, mem_pool_init, mem_pool_alloc, slab_index,
  index_from, pick_block, choose, create, count_new, new_block, finish, push_active, fill,
  fill_guard, check, check_guard, mem_pool_free, find_ptr, free_found, retire, remove_active,
  find_index, swap_out, mem_pool_dump_stats, stats_from, mem_pool_dump_leaks, leaks, listed,
  chunk_at,
}
use learn_c.BasePool.Array.{sum_by}
use learn_c.BasePool.Ownership.{Inv, IsNew, Reach, initial, allocates, frees, Reach-Inv, free_twice}
use learn_c.BasePool.Guards.{guards_kept, overflow_reported}

abbrev zeros : ℕ → ℕ
zeros _ = 0

abbrev fresh : Fresh
fresh = record { blk = 1000; raw = 5000; array = 9000; frames = 3 }

-- The block of 10 bytes that the first call makes, and the pool after it.
abbrev first : Block
first = record (new_block 10 fresh) { bt_size = 3 }

abbrev one_used : Pool
one_used = record (mem_pool_init zeros) {
  slabs = count_new (some 0) (mem_pool_init zeros).slabs;
  active_blocks = first ∷ [];
  active_capacity = 64;
  mem = fill_guard (fill_guard zeros 5000) 5026;
}

first_alloc : mem_pool_alloc 10 fresh (mem_pool_init zeros) ≡ ok (first, one_used)
unfolding mem_pool_init mem_pool_alloc slab_index index_from pick_block choose create count_new
    finish push_active
first_alloc = refl

abbrev one_free : Pool
one_free = (mem_pool_free 5016 one_used).0

-- One block was made and freed: none is in use, and the first line of the statistics says 2^64 - 1.
abbrev first_line : List (ℕ × ℕ × ℕ × ℕ) → ℕ × ℕ × ℕ × ℕ
first_line [] = (0, 0, 0, 0)
first_line (l ∷ ls) = l

stats_after_free :
    ((mem_pool_free 5016 one_used).1 ≡ [])
    × (first_line (mem_pool_dump_stats one_free) ≡ (32, 1, 2 ^ 64 - 1, 2))
    × (mem_pool_dump_leaks one_used ≡ (5016, 10) ∷ [])
    × (mem_pool_dump_leaks one_free ≡ [])
unfolding mem_pool_init mem_pool_free free_found find_ptr retire remove_active find_index swap_out
    slab_index index_from check_guard check fill_guard fill mem_pool_dump_stats stats_from
    mem_pool_dump_leaks leaks chunk_at count_new
stats_after_free = (refl, refl, refl, refl)

init-IsNew : IsNew fresh (mem_pool_init zeros)
unfolding mem_pool_init sum_by listed
init-IsNew = record { addr = refl; ptr = refl }

one_used-Reach : Reach zeros one_used
one_used-Reach = allocates 10 fresh initial init-IsNew first_alloc

one_free-Reach : Reach zeros one_free
one_free-Reach = frees 5016 one_used-Reach

Reach-Inv_example : Inv one_free
Reach-Inv_example = Reach-Inv one_free-Reach

free_twice_example :
    let (q, messages) = mem_pool_free 5016 one_used in
    (messages ≡ (if intact first one_used.mem then [] else overflow_on 10 ∷ []))
    × (mem_pool_free 5016 q ≡ (q, invalid_free ∷ []))
unfolding find_ptr
free_twice_example = free_twice one_used 5016 first (Reach-Inv one_used-Reach) (omega arith) refl

no_free_block : (i : ℕ) → slab_index 10 ≡ some i → ((mem_pool_init zeros).slabs i).free_list ≡ []
unfolding mem_pool_init
no_free_block i e = refl

guards_kept_example :
    (mem_pool_free 5016 (record one_used { mem = update one_used.mem 5020 7 })).1 ≡ []
guards_kept_example =
    guards_kept 10 fresh (mem_pool_init zeros) first one_used (update one_used.mem 5020 7)
      (Reach-Inv initial) init-IsNew first_alloc no_free_block (λ x out lo hi. ground arith)

overflow_reported_example :
    (mem_pool_free 5016 (record one_used { mem = update one_used.mem 5026 7 })).1
    ≡ overflow_on 10 ∷ []
overflow_reported_example =
    overflow_reported 10 fresh (mem_pool_init zeros) first one_used (update one_used.mem 5026 7)
      (Reach-Inv initial) init-IsNew first_alloc no_free_block 5026 (inr (omega arith, omega arith))
      (omega arith)
