-- ===== src/SegregatedFits/Tests.antt =====
-- Runs of 3.segregated_fits.c, and its theorems at the pools that they reach.
use learn_c.Common.{
  ℕ, ◌≡◌, refl, inl, inr, true, false, Bool, ◌&&◌, ◌||◌, none, some, [], ◌∷◌, out_of_fuel, ◌==◌,
  leb, Bool-cases, arith,
}
use learn_c.SegregatedFits.{
  Heap, init_memory, my_malloc, my_free, search, align4, get_class_id, place, split,
  remove_from_class, add_to_class,
}
use learn_c.SegregatedFits.Malloc.{Served, my_malloc-rounds, my_malloc-ring}
use learn_c.SegregatedFits.Reach.{
  init-Inv, Reach, initial, allocates, frees, IsFilled, Reach-IsFilled,
}

abbrev zeros : Heap
zeros = record {
  size = λ _. 0;
  free = λ _. false;
  next = λ _. none;
  prev = λ _. none;
  class_bins = λ _. none;
}

abbrev at_start : Heap
at_start = init_memory zeros

-- Requests of 300 and 1000 bytes, both given back, the second first, and requests of 100 and 1000 bytes.
abbrev after_300 : Heap
after_300 = place 0 300 at_start

abbrev after_1000 : Heap
after_1000 = place 332 1000 after_300

abbrev both_back : Heap
both_back = my_free (some 32) (my_free (some 364) after_1000)

abbrev after_100 : Heap
after_100 = place 0 100 both_back

abbrev again_1000 : Heap
again_1000 = place 332 1000 after_100

abbrev looped : Heap
looped = my_free (some 364) again_1000

looped-Reach : Reach zeros looped (364 ∷ 32 ∷ 364 ∷ 32 ∷ [])
unfolding init_memory my_malloc my_free search align4 get_class_id place split remove_from_class
    add_to_class
looped-Reach =
    frees 364
      (allocates 9 1000 {t = again_1000} (some 364)
        (allocates 9 100 {t = after_100} (some 32)
          (frees 32
            (frees 364
              (allocates 9 1000 {t = after_1000} (some 364)
                (allocates 9 300 {t = after_300} (some 32) initial refl) refl)
              (omega arith))
            (omega arith))
          refl)
        refl)
      (omega arith)

Reach-IsFilled_example : IsFilled looped (364 ∷ 32 ∷ 364 ∷ 32 ∷ [])
Reach-IsFilled_example = Reach-IsFilled looped-Reach

my_malloc-rounds_example :
    Served at_start ((32736, true) ∷ []) (align4 300) (my_malloc 9 300 at_start)
my_malloc-rounds_example = my_malloc-rounds 9 300 at_start ((32736, true) ∷ []) (init-Inv zeros)

-- The first block, which is in use, and the one behind it, which has 1000 bytes.
abbrev ring : ℕ → Bool
ring c = (c == 0) || (c == 332)

ring_step :
    (c : ℕ)
    → ring c ≡ true
    → ((looped.free c && leb (align4 3000) (looped.size c)) ≡ false)
      × (d : ℕ) × (looped.next c ≡ some d)
      × (ring d ≡ true)
unfolding init_memory my_free align4 get_class_id place split remove_from_class add_to_class
ring_step c at = elim (Bool-cases (c == 0)) [
  | inl e ↦ let k : c ≡ 0 = ground arith in rw k (refl, 332, refl, refl)
  | inr e ↦ let k : c ≡ 332 = ground arith in rw k (refl, 0, refl, refl)
]

my_malloc-ring_example : my_malloc 1000000 3000 looped ≡ out_of_fuel
unfolding init_memory my_free align4 get_class_id place split remove_from_class add_to_class
my_malloc-ring_example = my_malloc-ring 1000000 3000 looped ring ring_step 332 refl refl
