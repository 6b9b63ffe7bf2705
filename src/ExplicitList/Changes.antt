-- ===== src/ExplicitList/Changes.antt =====
-- What the parts of `my_malloc` and `my_free` of 2.explicit_free_list.c do to the blocks of the pool and
-- to the free list.
use learn_c.Common.{
  ℕ, suc, ◌+◌, ◌≤◌, ◌≡◌, refl, inl, inr, true, false, Bool, none, List, [], ◌∷◌, ◌++◌, ◌==◌,
  if◌then◌else◌, update, count, arith, Bool-cases, ap, ◌∙◌, subst,
}
use learn_c.ExplicitList.{
  Heap, block_size, pool_size, set_free, remove_from_free_list, add_to_free_list,
}
use learn_c.ExplicitList.Links.{first, Links, NoDup, count-append, remove-Links, add-Links}
use learn_c.ExplicitList.Tiles.{
  Blocks, Tiles, end_of, free_at, Inv, count-free_at, Tiles-parts, Tiles-whole, Tiles-free,
  free_at-NoDup, Inv-NoDup,
}

pub count-parts : (x : ℕ) (l : List ℕ) → 1 ≤ count x l → (xs ys : List ℕ) × (l ≡ xs ++ x ∷ ys)
count-parts x [] h = absurd (omega arith)
count-parts x (a ∷ l) h = elim (Bool-cases (a == x)) [
  | inl e ↦ ([], l, let k : a ≡ x = ground arith in ap (λ (y : ℕ). y ∷ l) k)
  | inr e ↦
      let (xs, ys, p) = count-parts x l (ground arith) in (a ∷ xs, ys, ap (λ (t : List ℕ). a ∷ t) p)
]

pub update_at {ℓ} : {A : Type ℓ} (f : ℕ → A) (p : ℕ) (v : A) → update f p v p ≡ v
update_at f p v = let s : (p == p) ≡ true = ground arith in rw s refl

-- The block behind `us` gets another mark.
pub set_free-Tiles :
    (size : ℕ → ℕ) (free : ℕ → Bool) (us vs : Blocks) (m : ℕ) (f g : Bool) (e : ℕ)
    → Tiles size free 0 (us ++ (m, f) ∷ vs) e
    → Tiles size (update free (end_of 0 us) g) 0 (us ++ (m, g) ∷ vs) e
set_free-Tiles size free us vs m f g e t =
    let c = end_of 0 us in
    let w = Tiles-parts size free us ((m, f) ∷ vs) 0 e t in
    Tiles-whole size _ us ((m, g) ∷ vs) 0 e
      (Tiles-free size free c g us 0 c (inr (omega arith)) w.0)
      (
        w.1.0,
        update_at free c g,
        Tiles-free size free c g vs (c + block_size + m) e (inl (omega arith)) w.1.2,
      )

-- A free block is taken out of the free list.
pub unlist :
    (h : Heap) (ts : Blocks) (l : List ℕ) (x : ℕ)
    → Inv h ts l
    → 1 ≤ count x (free_at 0 ts)
    → (r : List ℕ) × Links
        (remove_from_free_list x h).next
        (remove_from_free_list x h).prev
        none
        r
        none
      × ((remove_from_free_list x h).free_list ≡ first r none)
      × ((y : ℕ) → count y l ≡ (if x == y then 1 else 0) + count y r)
unlist h ts l x v own =
    let (xs, ys, p) = count-parts x l (omega (arith, v.listed x, own)) in
    let d = subst NoDup p (Inv-NoDup h ts l v) in
    let k = subst (λ t. Links h.next h.prev none t none) p v.links in
    let links = remove-Links h x xs ys d k (v.head ∙ ap (λ t. first t none) p) in
    (
      xs ++ ys,
      links.0,
      links.1,
      λ y.
          let f = count-append y xs ys in
          let g = count-append y xs (x ∷ ys) in
          let n : count y l ≡ count y (xs ++ x ∷ ys) = ap (λ t. count y t) p in ground arith,
    )

-- The free block behind `us` is marked as used and leaves the free list.
pub take-Inv :
    (h : Heap) (us vs : Blocks) (m : ℕ) (l : List ℕ)
    → Inv h (us ++ (m, true) ∷ vs) l
    → (r : List ℕ) × Inv
        (remove_from_free_list (end_of 0 us) (set_free (end_of 0 us) false h))
        (us ++ (m, false) ∷ vs)
        r
unfolding remove_from_free_list
take-Inv h us vs m l v =
    let own : 1 ≤ count (end_of 0 us) (free_at 0 (us ++ (m, true) ∷ vs)) =
      let b = count-free_at (end_of 0 us) us ((m, true) ∷ vs) 0 in ground arith in
    let (r, links, head, counts) = unlist h _ l (end_of 0 us) v own in
    (
      r,
      record {
        tiles = set_free-Tiles h.size h.free us vs m true false pool_size v.tiles;
        links = links;
        head = head;
        listed = λ x.
            let a = v.listed x in
            let b = count-free_at x us ((m, true) ∷ vs) 0 in
            let e = count-free_at x us ((m, false) ∷ vs) 0 in let g = counts x in ground arith;
      },
    )

-- An address that a free block is to get is not in the free list before.
pub unlisted :
    (h : Heap) (ts ts' : Blocks) (l : List ℕ) (c : ℕ)
    → Inv h ts l
    → count c (free_at 0 ts') ≡ suc (count c (free_at 0 ts))
    → count c l ≡ 0
unlisted h ts ts' l c v e = omega (arith, e, v.listed c, free_at-NoDup ts' 0 c)

-- The used block behind `us` is marked as free and becomes the first of the free list.
pub release-Inv :
    (h : Heap) (us vs : Blocks) (m : ℕ) (l : List ℕ)
    → Inv h (us ++ (m, false) ∷ vs) l
    → Inv
        (add_to_free_list (end_of 0 us) (set_free (end_of 0 us) true h))
        (us ++ (m, true) ∷ vs)
        (end_of 0 us ∷ l)
unfolding add_to_free_list
release-Inv h us vs m l v =
    let c = end_of 0 us in
    let counts : (x : ℕ)
        → count x (free_at 0 (us ++ (m, true) ∷ vs))
          ≡ (if end_of 0 us == x then 1 else 0) + count x (free_at 0 (us ++ (m, false) ∷ vs)) =
      λ x.
        let a = count-free_at x us ((m, true) ∷ vs) 0 in
        let b = count-free_at x us ((m, false) ∷ vs) 0 in ground arith in
    let new =
      unlisted h _ (us ++ (m, true) ∷ vs) l c v (let a = counts (end_of 0 us) in ground arith) in
    record {
      tiles = set_free-Tiles h.size h.free us vs m false true pool_size v.tiles;
      links = add-Links (set_free c true h) c l (Inv-NoDup h _ l v) new v.links v.head;
      head = refl;
      listed = λ x. let a = counts x in let b = v.listed x in ground arith;
    }
