-- ===== src/FixedBins/Tests.antt =====
-- Runs of 4.slab_style_fixed_size_bins.c, and its theorems at the states that they reach.
use learn_c.Common.{refl, [], ◌∷◌, arith}
use learn_c.FixedBins.{init_memory, carve, pop, alloc_32, alloc_64, free_32}
use learn_c.FixedBins.Reach.{
  World, Reach, initial, gets_32, gets_64, frees_32, IsApart, Reach-IsApart,
}

-- A chunk of each size is taken, and the smaller one given back.
abbrev world : World
world = record {
  bins = free_32 1568 (alloc_64 (alloc_32 init_memory).1).1;
  used_32 = [];
  used_64 = 3456 ∷ [];
}

world-Reach : Reach world
unfolding init_memory carve alloc_32 alloc_64 pop free_32
world-Reach =
    frees_32 1568
      (gets_64 3456 (alloc_64 (alloc_32 init_memory).1).1
        (gets_32 1568 (alloc_32 init_memory).1 initial refl) refl)
      (omega arith)

Reach-IsApart_example : IsApart world
Reach-IsApart_example = Reach-IsApart world-Reach
