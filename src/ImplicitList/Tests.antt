-- ===== src/ImplicitList/Tests.antt =====
-- Runs of 1.implicit_free_list.c on concrete pools, and its theorems at such pools.
use learn_c.Common.{◌+◌, ◌≡◌, refl, true, false, some, List, [], ◌∷◌, Run, ok, ◌>>=◌}
use learn_c.ImplicitList.{
  Header, block, header_size, Memory, align4, init_memory, place, malloc_loop, my_malloc, join_loop,
  my_free, print_loop, print_state,
}
use learn_c.ImplicitList.Blocks.{Tiled, init_block, find_block}
use learn_c.ImplicitList.Malloc.{Allocated, my_malloc-Allocated}
use learn_c.ImplicitList.Free.{Freed, my_free-Freed}

-- `main`: 100, 200 and 300 bytes, the second freed, then the first and the third.
abbrev demo : Run Memory
demo = my_malloc 100 init_memory >>= λ a.
    my_malloc 200 a.1 >>= λ b. my_malloc 300 b.1 >>= λ c. my_free b.0 c.1

demo_states :
    ((demo >>= print_state)
      ≡ ok (block 100 false ∷ block 200 true ∷ block 300 false ∷ block 9576 true ∷ []))
    × ((demo >>= λ m. my_free (some 16) m >>= λ n. my_free (some 348) n >>= print_state)
        ≡ ok (init_block ∷ []))
unfolding my_malloc malloc_loop align4 init_memory place my_free join_loop print_state print_loop
demo_states = (refl, refl)

init-Tiled : Tiled init_memory 0 (init_block ∷ [])
unfolding init_memory
init-Tiled = (refl, refl)

-- The pool with 100 bytes handed out.
abbrev one_live : Memory
one_live = (place init_memory 0 init_block 100).1

abbrev one_live_blocks : List Header
one_live_blocks = block 100 false ∷ block 10108 true ∷ []

one_live-Tiled : Tiled one_live 0 one_live_blocks
unfolding init_memory place
one_live-Tiled = (refl, (refl, refl))

my_malloc-Allocated_example : Allocated (align4 98) (init_block ∷ []) (my_malloc 98 init_memory)
my_malloc-Allocated_example = my_malloc-Allocated 98 init_memory (init_block ∷ []) init-Tiled

my_free-Freed_example : Freed 0 100 one_live_blocks (my_free (some (0 + header_size)) one_live)
unfolding find_block
my_free-Freed_example =
    my_free-Freed 0 one_live (block 100 false) one_live_blocks one_live-Tiled refl refl
