-- ===== src/ServerPool/Tests.antt =====
-- Runs of 3.m_mem_pool/mem_pool.c, and its theorems at the states that they reach.
use mathlib.Core.Option.{some_inj}
use learn_c.Common.{
  ap, sym, update, count, ℕ, suc, ◌+◌, ◌-◌, ◌≤◌, ◌≡◌, refl, true, false, Option, none, some, List,
  [], ◌∷◌, arith, ◌==◌, if◌then◌else◌, leb,
}
use learn_c.ServerPool.{
  Server, MemBlk, Fresh, done, aborts, stray, double_free, underrun, overflow, blk_size,
  protect_magic, tail_magic, mem_pool_alloc_label, find_slab_index, index_from, take_free, pop_free,
  finish_alloc, release, mem_pool_free, free_blk, set_up, set_guards, new_blk, actual_size,
  total_size, mem_pool_set_protection, label_text,
}
use learn_c.ServerPool.Classes.{class_of, sizes}
use learn_c.ServerPool.Whole.{
  mem_pool_init, init_loop, mem_pool_dump_leaks, mem_pool_dump_stats, mem_pool_destroy, live,
  leak_lines, sum_sizes,
}
use learn_c.ServerPool.Ownership.{IsOwned}
use learn_c.ServerPool.Allocating.{IsNew}
use learn_c.ServerPool.Reach.{Reach, initial, allocates, frees, sets_protection, Reach-IsOwned}
use learn_c.ServerPool.Calls.{Given, alloc_given}
use learn_c.ServerPool.Guards.{free_new, full_write, protection_late, second_free}
use learn_c.ServerPool.Report.{reported, destroy-none}
use learn_c.ServerPool.Listing.{dumps-alloc}

abbrev nothing : ℕ → Option MemBlk
nothing _ = none

abbrev zeros : ℕ → ℕ
zeros _ = 0

abbrev at_start : Server
at_start = mem_pool_init nothing zeros

abbrev fresh : Fresh
fresh = record { raw = 1000; now = 7; frames = 2 }

-- The text "ab".
abbrev ab : Option (List ℕ)
ab = some (b'a' ∷ b'b' ∷ [])

abbrev one_used : Server
one_used = (mem_pool_alloc_label 16 ab fresh at_start).1

first_alloc : mem_pool_alloc_label 16 ab fresh at_start ≡ (some 1216, one_used)
unfolding mem_pool_init init_loop mem_pool_alloc_label find_slab_index index_from take_free pop_free
    finish_alloc
first_alloc = refl

one_free : Server
one_free = release 1000 (new_blk 1000 240 16 ab fresh at_start) one_used

first_free : mem_pool_free (some 1216) one_used ≡ done one_free
unfolding mem_pool_init init_loop mem_pool_alloc_label find_slab_index index_from take_free pop_free
    finish_alloc mem_pool_free free_blk set_up set_guards new_blk actual_size total_size one_free
first_free = refl

start-Reach : Reach nothing zeros at_start
start-Reach = initial

one_used-Reach : Reach nothing zeros one_used
unfolding mem_pool_init
one_used-Reach = allocates 16 ab fresh initial (omega arith) (λ h. refl)

one_free-Reach : Reach nothing zeros one_free
one_free-Reach = frees (some 1216) one_used-Reach first_free

start-IsNew : IsNew fresh at_start
unfolding mem_pool_init
start-IsNew h = refl

start-IsOwned : IsOwned at_start
start-IsOwned = Reach-IsOwned (λ a. refl) start-Reach

one_used-IsOwned : IsOwned one_used
one_used-IsOwned = Reach-IsOwned (λ a. refl) one_used-Reach

start-on : at_start.protect_mode ≡ true
unfolding mem_pool_init
start-on = refl

abbrev fresh_again : Fresh
fresh_again = record { raw = 2000; now = 8; frames = 0 }

-- A second block, without a label.
abbrev two_used : Server
two_used = (mem_pool_alloc_label 16 none fresh_again one_used).1

second_alloc : mem_pool_alloc_label 16 none fresh_again one_used ≡ (some 2216, two_used)
unfolding mem_pool_init init_loop mem_pool_alloc_label find_slab_index index_from take_free pop_free
    finish_alloc set_up
second_alloc = refl

one_used-IsNew : IsNew fresh_again one_used
unfolding mem_pool_init init_loop mem_pool_alloc_label find_slab_index index_from take_free pop_free
    finish_alloc set_up
one_used-IsNew h = refl

-- The leak report of the one block.
leaks_example :
    (mem_pool_dump_leaks one_used ≡ (1216, 16, b'a' ∷ b'b' ∷ []) ∷ [])
    × (mem_pool_dump_stats one_used ≡ (1, 16))
unfolding mem_pool_dump_leaks mem_pool_dump_stats live leak_lines sum_sizes mem_pool_init init_loop
    mem_pool_alloc_label find_slab_index index_from take_free pop_free finish_alloc set_up
    set_guards new_blk actual_size total_size label_text
leaks_example = (refl, refl)

Reach-IsOwned_example : IsOwned one_free
Reach-IsOwned_example = Reach-IsOwned (λ a. refl) one_free-Reach

alloc_given_example :
    (g : Given 16 ab at_start 1216 one_used) × (count g.at at_start.active_list ≡ 0)
    × (blk_size + g.blk.size ≤ g.blk.room)
alloc_given_example =
    alloc_given 16 ab fresh at_start 1216 one_used start-IsOwned (omega arith) start-IsNew
      first_alloc

free_new_example :
    (b : MemBlk) × (16 ≤ b.size)
    × (mem_pool_free (some 1216) (record one_used { words = zeros }) ≡ (
        if zeros 1208 == protect_magic
        then (if zeros (1216 + b.size - 8) == tail_magic
            then done (release 1000 b (record one_used { words = zeros }))
            else aborts overflow)
        else aborts underrun))
    × (mem_pool_free (some 1216) one_used ≡ done (release 1000 b one_used))
free_new_example =
    free_new 16 ab fresh at_start 1216 one_used start-IsOwned (omega arith) start-IsNew first_alloc
      start-on zeros

sixteen : (i : ℕ) → class_of 16 ≡ some i → sizes i ≡ 16
unfolding index_from
sixteen i h = ap sizes (some_inj.0 (sym h))

full_write_example :
    mem_pool_free (some 1216) (record one_used { words = update one_used.words 1224 7 })
    ≡ aborts overflow
full_write_example =
    full_write 16 ab fresh at_start 1216 one_used start-IsOwned (omega arith) start-IsNew
      first_alloc 7 start-on sixteen (omega arith)

second_free_example :
    (b : MemBlk) × (one_used.blks 1000 ≡ some b)
    × (mem_pool_free (some 1216) one_free ≡ (if leb b.size 8192 then aborts double_free else stray))
second_free_example = second_free 1216 one_used one_free one_used-IsOwned first_free

used_header : one_used.blks 1000 ≡ some (new_blk 1000 240 16 ab fresh at_start)
unfolding mem_pool_init init_loop mem_pool_alloc_label find_slab_index index_from take_free pop_free
    finish_alloc set_up set_guards new_blk actual_size total_size
used_header = refl

dumps-alloc_example :
    (n : ℕ) × (rest : List (ℕ × ℕ × List ℕ)) × (16 ≤ n)
    × (mem_pool_dump_leaks two_used ≡ (2216, n, label_text none) ∷ rest)
    × (reported rest ≡ reported (mem_pool_dump_leaks one_used))
    × ((mem_pool_dump_stats two_used).0 ≡ suc (mem_pool_dump_stats one_used).0)
dumps-alloc_example =
    dumps-alloc 16 none fresh_again one_used 2216 two_used one_used-IsOwned (omega arith)
      one_used-IsNew second_alloc

destroy-none_example : mem_pool_destroy one_used 1000 ≡ none
destroy-none_example = destroy-none one_used one_used-IsOwned 1000

-- A server that was told to go without protection.
abbrev bare : Server
bare = mem_pool_set_protection 0 at_start

abbrev bare_used : Server
bare_used = (mem_pool_alloc_label 16 ab fresh bare).1

bare_alloc : mem_pool_alloc_label 16 ab fresh bare ≡ (some 1216, bare_used)
unfolding mem_pool_set_protection mem_pool_init init_loop mem_pool_alloc_label find_slab_index
    index_from take_free pop_free finish_alloc
bare_alloc = refl

bare-IsOwned : IsOwned bare
bare-IsOwned = Reach-IsOwned (λ a. refl) (sets_protection 0 start-Reach)

bare-off : bare.protect_mode ≡ false
unfolding mem_pool_set_protection
bare-off = refl

bare-IsNew : IsNew fresh bare
unfolding mem_pool_set_protection mem_pool_init
bare-IsNew h = refl

zeros_kept : zeros 1208 ≡ bare_used.words 1208
unfolding mem_pool_set_protection mem_pool_init init_loop mem_pool_alloc_label find_slab_index
    index_from take_free pop_free finish_alloc set_up set_guards actual_size
zeros_kept = refl

protection_late_example :
    mem_pool_free (some 1216) (mem_pool_set_protection 1 (record bare_used { words = zeros }))
    ≡ aborts underrun
protection_late_example =
    protection_late 16 ab fresh bare 1216 bare_used bare-IsOwned (omega arith) bare-IsNew bare_alloc
      1 bare-off (omega arith) zeros zeros_kept
