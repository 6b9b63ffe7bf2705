-- ===== src/ExplicitList/Malloc.antt =====
-- What `my_malloc` of 2.explicit_free_list.c hands out.
use learn_c.Common.{
  ℕ, zero, suc, ◌+◌, ◌-◌, ◌%◌, ◌^◌, ◌≤◌, ◌<◌, ◌≡◌, refl, inl, inr, true, false, Bool, ◌&&◌, ◌||◌,
  Option, none, some, List, [], ◌∷◌, ◌++◌, ◌==◌, ltb, leb, if◌then◌else◌, count, length,
  length-append, append_assoc, arith, Bool-cases, ap, sym, ◌∙◌, subst, ok,
}
use learn_c.ExplicitList.{
  Heap, block_size, pool_size, place, malloc_loop, my_malloc, align4, rounds,
}
use learn_c.ExplicitList.Links.{first, count-append, Links-parts}
use learn_c.ExplicitList.Tiles.{
  Blocks, Tiles, end_of, free_at, Inv, end_le, end_length, Tiles-end, Tiles-parts, free_at-block,
}
use learn_c.ExplicitList.Changes.{count-parts, take-Inv}
use learn_c.ExplicitList.Resizing.{split-Inv}

-- A free block has at least `n` bytes.
abbrev pub has_room : ℕ → Blocks → Bool
has_room n [] = false
has_room n ((m, f) ∷ ts) = (f && leb n m) || has_room n ts

-- A block of `m` bytes of which `n` are asked for, and the blocks behind it: the rest becomes a free
-- block if it can hold a header and more than 4 bytes.
abbrev pub cut : ℕ → ℕ → Blocks → Blocks
cut m n vs =
    if ltb (n + 36) m then (n, false) ∷ (m - n - block_size, true) ∷ vs else (m, false) ∷ vs

-- The answer to a request of `n` bytes and the state after it.
pub data Served (h : Heap) (ts : Blocks) (n : ℕ) : Option ℕ → Heap → Type 0 where
  full : has_room n ts ≡ false → Served h ts n none h
  given :
      (us vs : Blocks) (m : ℕ) (l : List ℕ) {t : Heap}
      → ts ≡ us ++ (m, true) ∷ vs
      → n ≤ m
      → Inv t (us ++ cut m n vs) l
      → Served h ts n (some (end_of 0 us + block_size)) t

count-length : (l f : List ℕ) → ((x : ℕ) → count x l ≡ count x f) → length l ≤ length f
count-length [] f h = omega arith
count-length (a ∷ l) f h =
    let (xs, ys, p) = count-parts a f (let e = h a in ground arith) in
    let ih = count-length l (xs ++ ys) (λ x.
      let e = h x in
      let d = ap (λ t. count x t) p in
      let i = count-append x xs ys in let j = count-append x xs (a ∷ ys) in ground arith) in
    let d = ap (λ (t : List ℕ). length t) p in
    omega (arith, length-append xs ys, length-append xs (a ∷ ys))

length-free_at : (ts : Blocks) (a : ℕ) → length (free_at a ts) ≤ length ts
length-free_at [] a = omega arith
length-free_at ((n, true) ∷ ts) a = omega (arith, length-free_at ts (a + block_size + n))
length-free_at ((n, false) ∷ ts) a = omega (arith, length-free_at ts (a + block_size + n))

pub Inv-length :
    {h : Heap} {ts : Blocks} {l : List ℕ} → Inv h ts l → (length l ≤ 320) × (length ts ≤ 320)
Inv-length {h = h} {ts = ts} {l = l} v =
    let e = Tiles-end h.size h.free ts 0 pool_size v.tiles in
    let b = count-length l (free_at 0 ts) v.listed in
    (omega (arith, end_length ts 0, length-free_at ts 0), omega (arith, end_length ts 0))

pub block_le :
    (h : Heap) (us vs : Blocks) (m : ℕ) (f : Bool) (l : List ℕ)
    → Inv h (us ++ (m, f) ∷ vs) l
    → m ≤ 10240
block_le h us vs m f l v =
    let w = Tiles-parts h.size h.free us ((m, f) ∷ vs) 0 pool_size v.tiles in
    let e = Tiles-end h.size h.free vs _ pool_size w.1.2 in
    omega (arith, end_le vs (end_of 0 us + block_size + m))

place-Inv :
    (h : Heap) (us vs : Blocks) (m n : ℕ) (l : List ℕ)
    → n ≤ m
    → Inv h (us ++ (m, true) ∷ vs) l
    → (r : List ℕ) × Inv (place (end_of 0 us) n h) (us ++ cut m n vs) r
unfolding place
place-Inv h us vs m n l le v =
    let w = Tiles-parts h.size h.free us ((m, true) ∷ vs) 0 pool_size v.tiles in
    let s : h.size (end_of 0 us) ≡ m = w.1.0 in
    let small : (n + block_size + 4) % 2 ^ 64 ≡ n + 36 =
      omega (arith, block_le h us vs m true l v) in
    let same : ltb ((n + block_size + 4) % 2 ^ 64) (h.size (end_of 0 us)) ≡ ltb (n + 36) m =
      rw (s, small) refl in
    elim (Bool-cases (ltb (n + 36) m)) [
      | inl e ↦
          rw (same, e)
            (take-Inv _ us ((m - n - block_size, true) ∷ vs) n _
              (split-Inv h us vs m n l (ground arith) v))
      | inr e ↦ rw (same, e) (take-Inv h us vs m l v)
    ]

-- If the list has no block with room, none is free and has it.
no_room :
    (size : ℕ → ℕ) (free : ℕ → Bool) (n : ℕ) (ts : Blocks) (a e : ℕ)
    → Tiles size free a ts e
    → ((x : ℕ) → 1 ≤ count x (free_at a ts) → size x < n)
    → has_room n ts ≡ false
no_room size free n [] a e t h = refl
no_room size free n ((m, true) ∷ ts) a e (s, f, t) h =
    let ih = no_room size free n ts (a + block_size + m) e t (λ x c. h x (ground arith)) in
    let o = h a (ground arith) in ground arith
no_room size free n ((m, false) ∷ ts) a e (s, f, t) h =
    no_room size free n ts (a + block_size + m) e t h

-- The block of an address in the free list.
listed_block :
    (h : Heap) (ts : Blocks) (l : List ℕ) (c : ℕ)
    → Inv h ts l
    → 1 ≤ count c l
    → (us vs : Blocks) × (m : ℕ) × (ts ≡ us ++ (m, true) ∷ vs)
      × (end_of 0 us ≡ c)
      × (h.size c ≡ m)
      × (h.free c ≡ true)
listed_block h ts l c v own =
    let (us, m, vs, p, at) = free_at-block c ts 0 (omega (arith, own, v.listed c)) in
    let t = subst (λ b. Tiles h.size h.free 0 b pool_size) p v.tiles in
    let w = Tiles-parts h.size h.free us ((m, true) ∷ vs) 0 pool_size t in
    (us, vs, m, p, at, ap h.size (sym at) ∙ w.1.0, ap h.free (sym at) ∙ w.1.1)

-- The search has passed the blocks `xs` of the free list.
malloc_loop-Served :
    (k : ℕ) (h : Heap) (ts : Blocks) (xs ys : List ℕ) (n : ℕ)
    → Inv h ts (xs ++ ys)
    → length ys < k
    → ((x : ℕ) → 1 ≤ count x xs → h.size x < n)
    → (o : Option ℕ) × (t : Heap) × (malloc_loop k (first ys none) n h ≡ ok (o, t))
      × Served h ts n o t
unfolding malloc_loop
malloc_loop-Served zero h ts xs ys n v fuel seen = absurd (omega arith)
malloc_loop-Served (suc k) h ts xs [] n v fuel seen = (
  none,
  h,
  refl,
  full (
      no_room h.size h.free n ts 0 pool_size v.tiles
        (λ x c. let a = v.listed x in let b = count-append x xs [] in seen x (ground arith))),
)
malloc_loop-Served (suc k) h ts xs (c ∷ ys) n v fuel seen =
    let own : 1 ≤ count c (xs ++ c ∷ ys) = let b = count-append c xs (c ∷ ys) in ground arith in
    let (us, vs, m, p, at, s, f) = listed_block h ts (xs ++ c ∷ ys) c v own in
    let next : h.next c ≡ first ys none =
      (Links-parts h.next h.prev none none xs (c ∷ ys) v.links).1.1 in
    elim (Bool-cases (leb n (h.size c))) [
      | inl e ↦
          let w =
            place-Inv h us vs m n (xs ++ c ∷ ys) (ground arith)
              (subst (λ b. Inv h b (xs ++ c ∷ ys)) p v) in
          (
            some (c + block_size),
            place c n h,
            rw (malloc_loop, f, e) refl,
            subst (λ d. Served h ts n (some (d + block_size)) (place d n h)) at
                (given us vs m w.0 p (ground arith) w.1),
          )
      | inr e ↦
          let ih =
            malloc_loop-Served k h ts (xs ++ c ∷ []) ys n
              (subst (λ l. Inv h ts l) (sym (append_assoc xs (c ∷ []) ys)) v) (omega arith)
              (λ x d.
                let b = count-append x xs (c ∷ []) in
                elim (Bool-cases (c == x)) [
                  | inl q ↦ let k : c ≡ x = ground arith in rw (← k) (ground arith)
                  | inr q ↦ seen x (ground arith)
                ]) in
          rw (malloc_loop, f, e, next) ih
    ]

-- On a well-formed pool my_malloc ends. It answers NULL, and changes nothing, exactly if no free
-- block has the aligned size; otherwise it answers the address behind the header of a free block
-- that has it, which is then in use, cut down to that size if the rest can be a block, and the pool
-- is well-formed.
pub my_malloc-Served :
    (size : ℕ) (h : Heap) (ts : Blocks) (l : List ℕ)
    → Inv h ts l
    → (o : Option ℕ) × (t : Heap) × (my_malloc size h ≡ ok (o, t)) × Served h ts (align4 size) o t
unfolding my_malloc
my_malloc-Served size h ts l v =
    let (o, t, e, s) =
      malloc_loop-Served rounds h ts [] l (align4 size) v (omega (arith, Inv-length v))
        (λ x d. absurd (omega arith)) in
    (o, t, ap (λ q. malloc_loop rounds q (align4 size) h) v.head ∙ e, s)
