-- ===== src/ExplicitList/Resizing.antt =====
-- What cutting a block and joining two of 2.explicit_free_list.c do to the blocks of the pool and to
-- the free list.
use learn_c.Common.{
  ℕ, ◌+◌, ◌-◌, ◌≤◌, ◌<◌, ◌≡◌, refl, inl, inr, true, false, Bool, none, List, ◌∷◌, ◌++◌, ◌==◌,
  if◌then◌else◌, update, count, arith, ap, ◌∙◌, subst,
}
use learn_c.ExplicitList.{
  Heap, block_size, pool_size, remove_from_free_list, add_to_free_list, new_block, split, join,
}
use learn_c.ExplicitList.Links.{add-Links, Links-next, Links-prev}
use learn_c.ExplicitList.Tiles.{
  Blocks, Tiles, end_of, free_at, Inv, count-free_at, Tiles-parts, Tiles-whole, Tiles-size,
  Tiles-free, Inv-NoDup,
}
use learn_c.ExplicitList.Changes.{update_at, unlist, unlisted}

update_ne {ℓ} : {A : Type ℓ} (f : ℕ → A) (p q : ℕ) (v : A) → (q == p) ≡ false → update f p v q ≡ f q
update_ne f p q v h = rw h refl

pub split-Tiles :
    (size : ℕ → ℕ) (free : ℕ → Bool) (us vs : Blocks) (m n e : ℕ)
    → n + 36 < m
    → Tiles size free 0 (us ++ (m, true) ∷ vs) e
    → Tiles
        (update (update size (end_of 0 us + block_size + n) (m - n - block_size)) (end_of 0 us) n)
        (update free (end_of 0 us + block_size + n) true)
        0
        (us ++ (n, true) ∷ (m - n - block_size, true) ∷ vs)
        e
split-Tiles size free us vs m n e lt t =
    let c = end_of 0 us in
    let rest = end_of 0 us + block_size + n in
    let k = m - n - block_size in
    let w = Tiles-parts size free us ((m, true) ∷ vs) 0 e t in
    let at : end_of 0 us + block_size + m
        ≡ end_of 0 us + block_size + n + block_size + (m - n - block_size) =
      omega arith in
    let behind = subst (λ a. Tiles size free a vs e) at w.1.2 in
    let s = update size rest k in
    Tiles-whole (update s c n) _ us ((n, true) ∷ (k, true) ∷ vs) 0 e
      (Tiles-size s _ c n us 0 c (inr (omega arith)) (
        Tiles-free s free rest true us 0 c (inr (omega arith))
          (Tiles-size size free rest k us 0 c (inr (omega arith)) w.0)))
      (
        update_at s c n,
        update_ne free rest c true (ground arith) ∙ w.1.1,
        (
          update_ne s c rest n (ground arith) ∙ update_at size rest k,
          update_at free rest true,
          Tiles-size s _ c n vs (rest + block_size + k) e (inl (omega arith)) (
              Tiles-free s free rest true vs (rest + block_size + k) e (inl (omega arith)) (
                Tiles-size size free rest k vs (rest + block_size + k) e (inl (omega arith))
                  behind)),
        ),
      )

-- The free block behind `us` is cut in two, and the second becomes the first of the free list.
pub split-Inv :
    (h : Heap) (us vs : Blocks) (m n : ℕ) (l : List ℕ)
    → n + 36 < m
    → Inv h (us ++ (m, true) ∷ vs) l
    → Inv
        (split (end_of 0 us) n h)
        (us ++ (n, true) ∷ (m - n - block_size, true) ∷ vs)
        ((end_of 0 us + block_size + n) ∷ l)
unfolding split add_to_free_list
split-Inv h us vs m n l lt v =
    let c = end_of 0 us in
    let rest = end_of 0 us + block_size + n in
    let k = m - n - block_size in
    let w = Tiles-parts h.size h.free us ((m, true) ∷ vs) 0 pool_size v.tiles in
    let at : end_of 0 us + block_size + n + block_size + (m - n - block_size)
        ≡ end_of 0 us + block_size + m =
      omega arith in
    let counts : (x : ℕ)
        → count x (free_at 0 (us ++ (n, true) ∷ (m - n - block_size, true) ∷ vs))
          ≡ (if end_of 0 us + block_size + n == x then 1 else 0)
            + count x (free_at 0 (us ++ (m, true) ∷ vs)) =
      λ x.
        let a = count-free_at x us ((m, true) ∷ vs) 0 in
        let b = count-free_at x us ((n, true) ∷ (m - n - block_size, true) ∷ vs) 0 in
        let d = ap (λ y. count x (free_at y vs)) at in ground arith in
    let new =
      unlisted h _ (us ++ (n, true) ∷ (k, true) ∷ vs) l rest v
        (let a = counts (end_of 0 us + block_size + n) in ground arith) in
    record {
      tiles = rw w.1.0 (split-Tiles h.size h.free us vs m n pool_size lt v.tiles);
      links =
          add-Links (new_block rest k h) rest l (Inv-NoDup h _ l v) new
            (Links-next _ _ none none l rest none new
              (Links-prev _ _ none none l rest none new v.links))
            v.head;
      head = refl;
      listed = λ x. let a = counts x in let b = v.listed x in ground arith;
    }

join-Tiles :
    (size : ℕ → ℕ) (free : ℕ → Bool) (us vs : Blocks) (m n e : ℕ) (f g : Bool)
    → Tiles size free 0 (us ++ (m, f) ∷ (n, g) ∷ vs) e
    → Tiles
        (update size (end_of 0 us) (m + (block_size + n)))
        free
        0
        (us ++ (m + (block_size + n), f) ∷ vs)
        e
join-Tiles size free us vs m n e f g t =
    let c = end_of 0 us in
    let w = Tiles-parts size free us ((m, f) ∷ (n, g) ∷ vs) 0 e t in
    let at : end_of 0 us + block_size + m + block_size + n
        ≡ end_of 0 us + block_size + (m + (block_size + n)) =
      omega arith in
    let behind = subst (λ a. Tiles size free a vs e) at w.1.2.2 in
    Tiles-whole _ free us ((m + (block_size + n), f) ∷ vs) 0 e
      (Tiles-size size free c _ us 0 c (inr (omega arith)) w.0)
      (update_at size c _, w.1.1, Tiles-size size free c _ vs _ e (inl (omega arith)) behind)

-- The free block behind a free one becomes part of it, and leaves the free list.
pub join-Inv :
    (h : Heap) (us vs : Blocks) (m n : ℕ) (l : List ℕ)
    → Inv h (us ++ (m, true) ∷ (n, true) ∷ vs) l
    → (r : List ℕ) × Inv
        (join (end_of 0 us) (end_of 0 us + block_size + m) h)
        (us ++ (m + (block_size + n), true) ∷ vs)
        r
unfolding join remove_from_free_list
join-Inv h us vs m n l v =
    let w = Tiles-parts h.size h.free us ((m, true) ∷ (n, true) ∷ vs) 0 pool_size v.tiles in
    let x = end_of 0 us + block_size + m in
    let old = λ (y : ℕ). count-free_at y us ((m, true) ∷ (n, true) ∷ vs) 0 in
    let own : 1
        ≤ count (end_of 0 us + block_size + m) (free_at 0 (us ++ (m, true) ∷ (n, true) ∷ vs)) =
      let b = old (end_of 0 us + block_size + m) in ground arith in
    let at : end_of 0 us + block_size + m + block_size + n
        ≡ end_of 0 us + block_size + (m + (block_size + n)) =
      omega arith in
    let (r, links, head, counts) = unlist h _ l x v own in
    (
      r,
      record {
        tiles =
            rw (w.1.0, w.1.2.0) (join-Tiles h.size h.free us vs m n pool_size true true v.tiles);
        links = links;
        head = head;
        listed = λ y.
            let a = v.listed y in
            let b = old y in
            let e = count-free_at y us ((m + (block_size + n), true) ∷ vs) 0 in
            let d = ap (λ z. count y (free_at z vs)) at in let g = counts y in ground arith;
      },
    )
