-- ===== src/LabelPool/Tests.antt =====
-- Runs of 2.upgrade/mem_pool.c, and its theorems at the states that they reach.
use learn_c.Common.{ℕ, ◌+◌, ◌≡◌, refl, Option, none, some, [], arith}
use learn_c.ServerPool.{MemBlk, Fresh, double_free, underrun, overflow, blk_size, tail_magic}
use learn_c.ServerPool
use learn_c.ServerPool.Whole
use learn_c.ServerPool.Ownership.{IsOwned}
use learn_c.LabelPool.{
  Pool, done, statics, mem_pool_init, init_loop, init_class, find_slab_index, index_from,
  actual_size, total_size, pop_free, take_free, new_block, set_up, set_guards, finish_alloc,
  mem_pool_alloc_label, give_back, release, free_block, mem_pool_free, mem_pool_dump_stats,
  mem_pool_dump_leaks, mem_pool_destroy,
}
use learn_c.LabelPool.Same.{to_server, answer, outcome, IsSized, calls-same}
use learn_c.LabelPool.Reach.{Reach, initial, allocates, frees, Reach-IsSized-IsOwned}
use learn_c.LabelPool.Destroy.{destroy_then_label}

abbrev nothing : ℕ → Option MemBlk
nothing _ = none

abbrev zeros : ℕ → ℕ
zeros _ = 0

abbrev at_start : Pool
at_start = mem_pool_init (statics nothing zeros)

abbrev fresh : Fresh
fresh = record { raw = 1000; now = 7; frames = 2 }

abbrev one_used : Pool
one_used = (mem_pool_alloc_label 10 none fresh at_start).1

first_alloc : (mem_pool_alloc_label 10 none fresh at_start).0 ≡ some 1216
unfolding mem_pool_init init_loop init_class mem_pool_alloc_label find_slab_index index_from
    take_free pop_free finish_alloc
first_alloc = refl

one_free : Pool
one_free = release 1000 (new_block 1000 240 16 none fresh at_start) one_used

first_free : mem_pool_free (some 1216) one_used ≡ done one_free
unfolding mem_pool_init init_loop init_class mem_pool_alloc_label find_slab_index index_from
    take_free pop_free finish_alloc mem_pool_free free_block set_up set_guards new_block actual_size
    total_size one_free
first_free = refl

one_free-Reach : Reach nothing zeros one_free
unfolding mem_pool_init init_loop
one_free-Reach =
    frees (some 1216) (allocates 10 none fresh initial (omega arith) (λ h. refl)) first_free

Reach-IsSized-IsOwned_example : IsSized one_free × IsOwned (to_server one_free)
Reach-IsSized-IsOwned_example = Reach-IsSized-IsOwned (λ a. refl) one_free-Reach

one_free-IsSized : IsSized one_free
one_free-IsSized = (Reach-IsSized-IsOwned (λ a. refl) one_free-Reach).0

calls-same_example :
    (answer (mem_pool_alloc_label 9 none fresh one_free)
      ≡ ServerPool.mem_pool_alloc_label 9 none fresh (to_server one_free))
    × (outcome (mem_pool_free (some 1216) one_free)
        ≡ ServerPool.mem_pool_free (some 1216) (to_server one_free))
    × (mem_pool_dump_stats one_free ≡ Whole.mem_pool_dump_stats (to_server one_free))
    × (mem_pool_dump_leaks one_free ≡ Whole.mem_pool_dump_leaks (to_server one_free))
    × ((mem_pool_destroy one_free).blocks ≡ Whole.mem_pool_destroy (to_server one_free))
calls-same_example = calls-same 9 none fresh (some 1216) one_free one_free-IsSized

destroy_then_label_example :
    ((mem_pool_destroy one_free).blocks 1000 ≡ none)
    × ((mem_pool_alloc_label 9 none fresh (mem_pool_destroy one_free)).0 ≡ some (1000 + blk_size))
unfolding mem_pool_init init_loop init_class mem_pool_alloc_label find_slab_index index_from
    take_free pop_free finish_alloc release give_back set_up set_guards new_block actual_size
    total_size one_free
destroy_then_label_example =
    destroy_then_label 9 1 1000 [] none fresh (λ a. refl) one_free-Reach refl refl

-- A second call of mem_pool_init counts the classes again.
counted_twice : (mem_pool_init at_start).slab_class_count ≡ 22
unfolding mem_pool_init init_loop init_class
counted_twice = refl
