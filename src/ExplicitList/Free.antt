-- ===== src/ExplicitList/Free.antt =====
-- What `my_free` of 2.explicit_free_list.c leaves: the block is free, and no two neighbours are.
use learn_c.Common.{
  ℕ, zero, suc, ◌+◌, ◌-◌, ◌<◌, ◌≡◌, refl, true, false, Bool, ◌&&◌, some, List, [], ◌∷◌, ◌++◌, ltb,
  leb, length, append_assoc, arith, ap, sym, ◌∙◌, subst, ok,
}
use learn_c.ExplicitList.{
  Heap, block_size, pool_size, set_free, add_to_free_list, join_loop, my_free, rounds,
}
use learn_c.ExplicitList.Tiles.{Blocks, end_of, Inv, end_le, end-append, Tiles-end, Tiles-parts}
use learn_c.ExplicitList.Changes.{release-Inv}
use learn_c.ExplicitList.Resizing.{join-Inv}
use learn_c.ExplicitList.Malloc.{Inv-length}
use learn_c.ExplicitList.Joined.{
  joined_to, has_neighbours, used_at, joined_to-neighbours, joined_to-used, used-append,
}

-- What the loop reads at the block behind `us`.
reads :
    (h : Heap) (us : Blocks) (m n : ℕ) (f g : Bool) (ts : Blocks) (l : List ℕ)
    → Inv h (us ++ (m, f) ∷ (n, g) ∷ ts) l
    → (ltb (end_of 0 us) pool_size ≡ true)
      × (h.size (end_of 0 us) ≡ m)
      × (leb pool_size (end_of 0 us + block_size + h.size (end_of 0 us)) ≡ false)
      × ((h.free (end_of 0 us) && h.free (end_of 0 us + block_size + h.size (end_of 0 us)))
          ≡ (f && g))
reads h us m n f g ts l v =
    let w = Tiles-parts h.size h.free us ((m, f) ∷ (n, g) ∷ ts) 0 pool_size v.tiles in
    let e = Tiles-end h.size h.free ts _ pool_size w.1.2.2 in
    let le = end_le ts (end_of 0 us + block_size + m + block_size + n) in
    (ground arith, w.1.0, rw w.1.0 (ground arith), rw (w.1.0, w.1.1, w.1.2.1) refl)

-- The loop goes on behind a block that is not joined.
passes :
    (k : ℕ) (h : Heap) (us : Blocks) (m n : ℕ) (f g : Bool) (ts : Blocks) (l : List ℕ)
    → Inv h (us ++ (m, f) ∷ (n, g) ∷ ts) l
    → (f && g) ≡ false
    → join_loop (suc k) (end_of 0 us) h ≡ join_loop k (end_of 0 (us ++ (m, f) ∷ [])) h
unfolding join_loop
passes k h us m n f g ts l v d =
    let (a, b, c, e) = reads h us m n f g ts l v in
    rw (join_loop, a, c, e, d, b, end-append us ((m, f) ∷ []) 0) refl

-- The loop stands at the block behind `us`.
join_loop-Inv :
    (k : ℕ) (h : Heap) (us : Blocks) (m : ℕ) (f : Bool) (ts : Blocks) (l : List ℕ)
    → Inv h (us ++ (m, f) ∷ ts) l
    → length ts < k
    → (t : Heap) × (r : List ℕ) × (join_loop k (end_of 0 us) h ≡ ok t)
      × Inv t (us ++ joined_to m f ts) r
unfolding join_loop
join_loop-Inv zero h us m f ts l v fuel = absurd (omega arith)
join_loop-Inv (suc k) h us m f [] l v fuel =
    let w = Tiles-parts h.size h.free us ((m, f) ∷ []) 0 pool_size v.tiles in
    let a : ltb (end_of 0 us) pool_size ≡ true = ground arith in
    let b : leb pool_size (end_of 0 us + block_size + m) ≡ true = ground arith in
    (h, l, rw (join_loop, a, w.1.0, b) refl, v)
join_loop-Inv (suc k) h us m true ((n, true) ∷ ts) l v fuel =
    let (a, b, c, e) = reads h us m n true true ts l v in
    let j = join-Inv h us ts m n l v in
    let (t, r, q, w) = join_loop-Inv k _ us (m + (block_size + n)) true ts j.0 j.1 (omega arith) in
    (t, r, (rw (join_loop, a, c, e, b) refl) ∙ q, w)
join_loop-Inv (suc k) h us m true ((n, false) ∷ ts) l v fuel =
    let (t, r, e, w) =
      join_loop-Inv k h (us ++ (m, true) ∷ []) n false ts l
        (subst (λ b. Inv h b l) (sym (append_assoc us ((m, true) ∷ []) ((n, false) ∷ ts))) v)
        (omega arith) in
    (
      t,
      r,
      passes k h us m n true false ts l v refl ∙ e,
      subst (λ b. Inv t b r) (append_assoc us ((m, true) ∷ []) (joined_to n false ts)) w,
    )
join_loop-Inv (suc k) h us m false ((n, g) ∷ ts) l v fuel =
    let (t, r, e, w) =
      join_loop-Inv k h (us ++ (m, false) ∷ []) n g ts l
        (subst (λ b. Inv h b l) (sym (append_assoc us ((m, false) ∷ []) ((n, g) ∷ ts))) v)
        (omega arith) in
    (
      t,
      r,
      passes k h us m n false g ts l v refl ∙ e,
      subst (λ b. Inv t b r) (append_assoc us ((m, false) ∷ []) (joined_to n g ts)) w,
    )

-- The three facts about the blocks after a call of `my_free`.
pub record Freed (t : Heap) (us : Blocks) (m : ℕ) (vs : Blocks) : Type 0 where
  pub blocks : Blocks
  pub listed : List ℕ
  pub inv : Inv t blocks listed
  pub neighbours : has_neighbours blocks ≡ false
  pub used : used_at 0 blocks ≡ used_at 0 us ++ used_at (end_of 0 us + block_size + m) vs

loop_all :
    (h : Heap) (ts : Blocks) (l : List ℕ)
    → Inv h ts l
    → (t : Heap) × (ds : Blocks) × (r : List ℕ) × (join_loop rounds 0 h ≡ ok t)
      × Inv t ds r
      × (has_neighbours ds ≡ false)
      × (used_at 0 ds ≡ used_at 0 ts)
loop_all h [] l v = absurd (let e = v.tiles in omega (arith, e))
loop_all h ((m, f) ∷ ts) l v =
    let (t, r, e, w) = join_loop-Inv rounds h [] m f ts l v (omega (arith, Inv-length v)) in
    (t, joined_to m f ts, r, e, w, joined_to-neighbours m f ts, joined_to-used m f ts 0)

-- On a well-formed pool my_free of the address behind the header of a block in use ends and leaves
-- the pool well-formed: that block is no longer in use, every other block in use is still there with
-- its address and its size, and no two neighbours are both free.
pub my_free-unused :
    (h : Heap) (us vs : Blocks) (m : ℕ) (l : List ℕ)
    → Inv h (us ++ (m, false) ∷ vs) l
    → (t : Heap) × (my_free (some (end_of 0 us + block_size)) h ≡ ok t) × Freed t us m vs
unfolding my_free
my_free-unused h us vs m l v =
    let at : end_of 0 us + block_size - block_size ≡ end_of 0 us = omega arith in
    let (t, ds, r, e, w, n, u) = loop_all _ _ _ (release-Inv h us vs m l v) in
    (
      t,
      ap (λ c. join_loop rounds 0 (add_to_free_list c (set_free c true h))) at ∙ e,
      record {
        blocks = ds;
        listed = r;
        inv = w;
        neighbours = n;
        used = u ∙ used-append us ((m, true) ∷ vs) 0;
      },
    )
