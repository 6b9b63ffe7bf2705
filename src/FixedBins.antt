-- ===== src/FixedBins.antt =====
-- 1.Demo/1.syntax_interface/15.memory_allocation/1.allocation_strategy/4.slab_style_fixed_size_bins.c: a
-- pool of chunks of two sizes. A chunk is its offset from `memory_pool`, and a list that is linked by
-- `next` is the list of the chunks in it.
pub mod Chunks
pub mod Reach
mod Tests
use learn_c.Common.{ℕ, zero, suc, ◌+◌, ◌*◌, Option, none, some, List, [], ◌∷◌}

abbrev pub pool_size : ℕ
pool_size = 1024 * 4

abbrev pub chunk_32_size : ℕ
chunk_32_size = 32

abbrev pub chunk_64_size : ℕ
chunk_64_size = 64

abbrev pub num_32 : ℕ
num_32 = 50

abbrev pub num_64 : ℕ
num_64 = 30

pub record Bins : Type 0 where
  pub free_list_32 : List ℕ
  pub free_list_64 : List ℕ

-- A loop of `init_memory`: `n` chunks from `ptr` on, each put before the list; the list, and `ptr` after
-- it.
pub carve : (n size ptr : ℕ) → List ℕ → List ℕ × ℕ
carve zero size ptr list = (list, ptr)
carve (suc n) size ptr list = carve n size (ptr + size) (ptr ∷ list)

-- On the empty lists that the program begins with.
pub init_memory : Bins
unfolding carve
init_memory =
    let (list_32, ptr) = carve num_32 chunk_32_size 0 [] in
    record { free_list_32 = list_32; free_list_64 = (carve num_64 chunk_64_size ptr []).0 }

-- The head of a list, and what is left.
pub pop : List ℕ → Option ℕ × List ℕ
pop [] = (none, [])
pop (chunk ∷ next) = (some chunk, next)

pub alloc_32 : Bins → Option ℕ × Bins
unfolding pop
alloc_32 b = let (chunk, rest) = pop b.free_list_32 in (chunk, record b { free_list_32 = rest })

pub alloc_64 : Bins → Option ℕ × Bins
unfolding pop
alloc_64 b = let (chunk, rest) = pop b.free_list_64 in (chunk, record b { free_list_64 = rest })

pub free_32 : ℕ → Bins → Bins
free_32 ptr b = record b { free_list_32 = ptr ∷ b.free_list_32 }

pub free_64 : ℕ → Bins → Bins
free_64 ptr b = record b { free_list_64 = ptr ∷ b.free_list_64 }

pub count_loop : List ℕ → ℕ → ℕ
count_loop [] count = count
count_loop (c ∷ next) count = count_loop next (count + 1)

-- The two numbers that are printed.
pub print_state : Bins → ℕ × ℕ
unfolding count_loop
print_state b = (count_loop b.free_list_32 0, count_loop b.free_list_64 0)
