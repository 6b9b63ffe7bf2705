-- ===== src/ExplicitList/Tests.antt =====
-- Runs of 2.explicit_free_list.c, and its theorems at the pools that they reach.
use learn_c.Common.{
  ℕ, ◌≡◌, refl, true, false, Bool, Option, none, some, List, [], ◌∷◌, Run, ok, ◌>>=◌,
}
use learn_c.ExplicitList.{
  Heap, init_memory, my_malloc, my_free, malloc_loop, align4, place, split, join, join_loop,
  print_state, print_loop, remove_from_free_list, add_to_free_list,
}
use learn_c.ExplicitList.Tiles.{Inv}
use learn_c.ExplicitList.Malloc.{Served, my_malloc-Served}
use learn_c.ExplicitList.Free.{Freed, my_free-unused}
use learn_c.ExplicitList.Reach.{Reach, initial, allocates, IsWell, Reach-IsWell}

abbrev zeros : Heap
zeros = record {
  size = λ _. 0;
  free = λ _. false;
  next = λ _. none;
  prev = λ _. none;
  free_list = none;
}

abbrev one_used : Heap
one_used = place 0 128 (init_memory zeros)

first_malloc : my_malloc 126 (init_memory zeros) ≡ ok (some 32, one_used)
unfolding my_malloc malloc_loop align4 init_memory
first_malloc = refl

one_used-Inv : Inv one_used ((128, false) ∷ (10048, true) ∷ []) (160 ∷ [])
unfolding place split init_memory remove_from_free_list add_to_free_list
one_used-Inv = record {
  tiles = (refl, refl, (refl, refl, refl));
  links = (refl, refl, tt);
  head = refl;
  listed = λ x. refl;
}

one_used-Reach : Reach zeros one_used
one_used-Reach = allocates 126 (some 32) initial first_malloc

my_malloc-Served_example :
    (o : Option ℕ) × (t : Heap) × (my_malloc 500 one_used ≡ ok (o, t))
    × Served one_used ((128, false) ∷ (10048, true) ∷ []) (align4 500) o t
my_malloc-Served_example = my_malloc-Served 500 one_used _ _ one_used-Inv

my_free-unused_example :
    (t : Heap) × (my_free (some 32) one_used ≡ ok t) × Freed t [] 128 ((10048, true) ∷ [])
my_free-unused_example = my_free-unused one_used [] ((10048, true) ∷ []) 128 (160 ∷ []) one_used-Inv

Reach-IsWell_example : IsWell one_used
Reach-IsWell_example = Reach-IsWell one_used-Reach

-- The three requests of `main`, and the block in the middle given back.
after_b : Run (List (ℕ × Bool))
after_b = my_malloc 128 (init_memory zeros) >>= λ a.
    my_malloc 256 a.1 >>= λ b. my_malloc 64 b.1 >>= λ c. my_free b.0 c.1 >>= λ t. print_state t

main_shown : after_b ≡ ok ((128, false) ∷ (256, true) ∷ (64, false) ∷ (9664, true) ∷ [])
unfolding after_b my_malloc malloc_loop align4 init_memory place split join join_loop my_free
    print_state print_loop remove_from_free_list add_to_free_list
main_shown = refl
