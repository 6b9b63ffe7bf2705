-- ===== src/SegregatedFits/Malloc.antt =====
-- What `my_malloc` of 3.segregated_fits.c hands out, whatever the lists have become.
use learn_c.Common.{
  ℕ, zero, suc, ◌+◌, ◌-◌, ◌≤◌, ◌≡◌, refl, inl, inr, true, false, Bool, ◌&&◌, Option, none, some,
  ◌∷◌, ◌++◌, ltb, leb, arith, Bool-cases, ap, sym, ◌∙◌, subst, Run, ok, out_of_fuel,
}
use learn_c.ExplicitList.Tiles.{Blocks, end_of, Tiles-parts}
use learn_c.ExplicitList.Malloc.{cut}
use learn_c.SegregatedFits.{
  Heap, block_size, pool_size, num_classes, place, search, my_malloc, align4, get_class_id,
}
use learn_c.SegregatedFits.Points.{
  IsStart, Points, Inv, remove-Inv, block-IsStart, set_free-Inv, split-Inv, start_block,
}

-- How a search for `n` bytes can stand after some rounds.
pub data Served (h : Heap) (ts : Blocks) (n : ℕ) : Run (Option ℕ × Heap) → Type 0 where
  goes_on : Served h ts n out_of_fuel
  refused : Served h ts n (ok (none, h))
  given :
      (us vs : Blocks) (m : ℕ) {t : Heap}
      → ts ≡ us ++ (m, true) ∷ vs
      → n ≤ m
      → Inv t (us ++ cut m n vs)
      → Served h ts n (ok (some (end_of 0 us + block_size), t))

place-Inv :
    (h : Heap) (us vs : Blocks) (m n : ℕ)
    → n ≤ m
    → Inv h (us ++ (m, true) ∷ vs)
    → Inv (place (end_of 0 us) n h) (us ++ cut m n vs)
unfolding place
place-Inv h us vs m n le v =
    let w = Tiles-parts h.size h.free us ((m, true) ∷ vs) 0 pool_size v.tiles in
    let s : h.size (end_of 0 us) ≡ m = w.1.0 in
    let same : ltb (block_size + 4) (h.size (end_of 0 us) - n) ≡ ltb (n + 36) m =
      rw s (ground arith) in
    elim (Bool-cases (ltb (n + 36) m)) [
      | inl e ↦
          rw (same, e)
            (remove-Inv (end_of 0 us) _ _
              (block-IsStart us ((m - n - block_size, true) ∷ vs) n false)
              (set_free-Inv _ us ((m - n - block_size, true) ∷ vs) n true false
                (split-Inv h us vs m n (ground arith) s v)))
      | inr e ↦
          rw (same, e)
            (remove-Inv (end_of 0 us) _ _ (block-IsStart us vs m false)
              (set_free-Inv h us vs m true false v))
    ]

-- The block at `c` has room and is free.
found :
    (h : Heap) (ts : Blocks) (c n : ℕ)
    → IsStart ts c
    → Inv h ts
    → (h.free c && leb n (h.size c)) ≡ true
    → Served h ts n (ok (some (c + block_size), place c n h))
found h ts c n s v fits =
    let (us, m, f, vs, p, at) = start_block c ts 0 s in
    let w = subst (λ b. Inv h b) p v in
    let t = Tiles-parts h.size h.free us ((m, f) ∷ vs) 0 pool_size w.tiles in
    let size : h.size c ≡ m = ap h.size (sym at) ∙ t.1.0 in
    let free : f ≡ true = sym t.1.1 ∙ ap h.free at ∙ ground arith in
    let u = subst (λ g. Inv h (us ++ (m, g) ∷ vs)) free w in
    subst (λ d. Served h ts n (ok (some (d + block_size), place d n h))) at
      (given us vs m (p ∙ ap (λ g. us ++ (m, g) ∷ vs) free) (ground arith)
        (place-Inv h us vs m n (ground arith) u))

search-Served :
    (k i : ℕ) (curr : Option ℕ) (n : ℕ) (h : Heap) (ts : Blocks)
    → Points ts curr
    → Inv h ts
    → Served h ts n (search k i curr n h)
unfolding search
search-Served zero i curr n h ts s v = goes_on
search-Served (suc k) i none n h ts s v = elim (Bool-cases (ltb (i + 1) num_classes)) [
  | inl e ↦
      rw (search, e) (search-Served k (i + 1) (h.class_bins (i + 1)) n h ts (v.bins (i + 1)) v)
  | inr e ↦ rw (search, e) refused
]
search-Served (suc k) i (some c) n h ts s v = elim (Bool-cases (h.free c && leb n (h.size c))) [
  | inl e ↦ rw (search, e) (found h ts c n s v e)
  | inr e ↦ rw (search, e) (search-Served k i (h.next c) n h ts (v.next c s) v)
]

-- On a pool that is filled by its blocks, to which all pointers point, my_malloc after any number of
-- rounds still goes on, or has answered NULL, having changed nothing, or has answered the address
-- behind the header of a free block that has the aligned size, which is then in use, cut down to
-- that size if the rest can be a block; and the pool is again filled by its blocks.
pub my_malloc-rounds :
    (rounds size : ℕ) (h : Heap) (ts : Blocks)
    → Inv h ts
    → Served h ts (align4 size) (my_malloc rounds size h)
unfolding my_malloc
my_malloc-rounds rounds size h ts v =
    search-Served rounds (get_class_id (align4 size)) _ (align4 size) h ts
      (v.bins (get_class_id (align4 size))) v

-- Blocks that point to one another in a ring, none of which is free and has room.
search-ring :
    (k i n : ℕ) (h : Heap) (ring : ℕ → Bool)
    → ((c : ℕ)
        → ring c ≡ true
        → ((h.free c && leb n (h.size c)) ≡ false)
          × (d : ℕ) × (h.next c ≡ some d)
          × (ring d ≡ true))
    → (c : ℕ) → ring c ≡ true
    → search k i (some c) n h ≡ out_of_fuel
unfolding search
search-ring zero i n h ring step c at = refl
search-ring (suc k) i n h ring step c at =
    let (unfit, d, next, again) = step c at in
    let ih = search-ring k i n h ring step d again in rw (search, unfit, next) ih

-- If blocks point to one another in a ring, none of which is free and has the aligned size, and the
-- list of the class begins in the ring, then my_malloc goes on after any number of rounds: it never
-- returns.
pub my_malloc-ring :
    (rounds size : ℕ) (h : Heap) (ring : ℕ → Bool)
    → ((c : ℕ)
        → ring c ≡ true
        → ((h.free c && leb (align4 size) (h.size c)) ≡ false)
          × (d : ℕ) × (h.next c ≡ some d)
          × (ring d ≡ true))
    → (c : ℕ) → h.class_bins (get_class_id (align4 size)) ≡ some c
    → ring c ≡ true
    → my_malloc rounds size h ≡ out_of_fuel
unfolding my_malloc
my_malloc-ring rounds size h ring step c head at =
    ap (λ o. search rounds (get_class_id (align4 size)) o (align4 size) h) head
    ∙ search-ring rounds (get_class_id (align4 size)) (align4 size) h ring step c at
