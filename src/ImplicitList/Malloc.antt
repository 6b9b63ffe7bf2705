-- ===== src/ImplicitList/Malloc.antt =====
-- `my_malloc` of 1.implicit_free_list.c hands out the first block that fits.
use learn_c.Common.{
  ℕ, zero, suc, ◌+◌, ◌-◌, ◌*◌, ◌/◌, ◌%◌, ◌^◌, ◌≤◌, ◌<◌, ◌≡◌, ◌⊎◌, refl, inl, inr, true, false, ◌&&◌,
  Option, none, some, List, [], ◌∷◌, ◌++◌, arith, Run, ok, ltb, leb, Bool-cases, length, ltb→lt,
  leb→le, ap, ◌∙◌,
}
use learn_c.ImplicitList.{
  Header, header_size, pool_size, Memory, rounds, place, align4, malloc_loop, my_malloc,
}
use learn_c.ImplicitList.Blocks.{
  Tiled, Tiled-length, Tiled-update_below, Tiled-same, carve, first_fit, live, IsApart,
}
use learn_c.ImplicitList.Live.{Grants, first_fit-Grants, live-IsApart}

-- What a walk from `p` leaves: the answer, the blocks, and the memory below `p` as it was.
pub record Placed (m : Memory) (p : ℕ) (want : Option ℕ × List Header) (r : Run (Option ℕ × Memory))
    : Type 0 where
  pub memory : Memory
  pub answers : r ≡ ok (want.0, memory)
  pub tiled : Tiled memory p want.1
  pub below : (q : ℕ) → q < p → memory q ≡ m q

place-Placed :
    (m : Memory) (p size : ℕ) (b : Header) (bs : List Header)
    → size ≤ b.size
    → Tiled m p (b ∷ bs)
    → Placed m p (some (p + header_size), carve size b ++ bs) (ok (place m p b size))
unfolding place carve
place-Placed m p size b bs le t = elim (Bool-cases (ltb (header_size + 4) (b.size - size))) [
  | inl split ↦
      let g : Memory = (place m p b size).1 in
      let e : p + header_size + b.size
          ≡ p + header_size + size + header_size + (b.size - size - header_size) =
        omega (arith, ltb→lt _ _ split) in
      let tail : Tiled g (p + header_size + b.size) bs =
        Tiled-same m g (p + header_size + b.size) bs
          (λ q h. rw split (ground (arith, ltb→lt _ _ split))) t.1 in
      record {
        memory = g;
        answers = refl;
        tiled = rw split (ground arith, (ground arith, rw (e, split) at tail));
        below = rw split (λ q h. ground arith);
      }
  | inr whole ↦ record {
    memory = (place m p b size).1;
    answers = refl;
    tiled =
        rw whole
          (ground arith, Tiled-update_below m (p + header_size + b.size) p _ bs (omega arith) t.1);
    below = rw whole (λ q h. ground arith);
  }
]

module _ (k : ℕ) (m : Memory) (size p : ℕ) where
  malloc_loop-end : p ≡ pool_size → malloc_loop (suc k) m size p ≡ ok (none, m)
  unfolding malloc_loop
  malloc_loop-end e = ground arith

  malloc_loop-hit :
      (b : Header)
      → p < pool_size
      → m p ≡ some b
      → (b.free && leb size b.size) ≡ true
      → malloc_loop (suc k) m size p ≡ ok (place m p b size)
  unfolding malloc_loop
  malloc_loop-hit b lt e hit = ground arith

  malloc_loop-miss :
      (b : Header)
      → p < pool_size
      → m p ≡ some b
      → (b.free && leb size b.size) ≡ false
      → malloc_loop (suc k) m size p ≡ malloc_loop k m size (p + header_size + b.size)
  unfolding malloc_loop
  malloc_loop-miss b lt e miss = ground arith

-- The walk from any block on does to the blocks behind it what `first_fit` does.
malloc_loop-Placed :
    (k : ℕ) (m : Memory) (size p : ℕ) (bs : List Header)
    → Tiled m p bs
    → length bs < k
    → Placed m p (first_fit size p bs) (malloc_loop k m size p)
unfolding first_fit
malloc_loop-Placed zero m size p bs t h = absurd (omega arith)
malloc_loop-Placed (suc k) m size p [] t h = record {
  memory = m;
  answers = malloc_loop-end k m size p t;
  tiled = t;
  below = λ q h. refl;
}
malloc_loop-Placed (suc k) m size p (b ∷ bs) t h =
    let inside : p < pool_size = omega (arith, Tiled-length m p (b ∷ bs) t) in
    elim (Bool-cases (b.free && leb size b.size)) [
      | inl hit ↦
          rw (malloc_loop-hit k m size p b inside t.0 hit, hit)
            (place-Placed m p size b bs (ground arith) t)
      | inr miss ↦
          let rest : Placed m (p + header_size + b.size)
              (first_fit size (p + header_size + b.size) bs)
              (malloc_loop k m size (p + header_size + b.size)) =
            malloc_loop-Placed k m size (p + header_size + b.size) bs t.1 (omega arith) in
          rw (malloc_loop-miss k m size p b inside t.0 miss, miss)
            (record {
              memory = rest.memory;
              answers = rest.answers;
              tiled = (rest.below p (omega arith) ∙ t.0, rest.tiled);
              below = λ q h. rest.below q (omega arith);
            })
    ]

pub my_malloc-Placed :
    (size : ℕ) (m : Memory) (bs : List Header)
    → Tiled m 0 bs
    → Placed m 0 (first_fit (align4 size) 0 bs) (my_malloc size m)
unfolding my_malloc
my_malloc-Placed size m bs t =
    malloc_loop-Placed rounds m (align4 size) 0 bs t (omega (arith, Tiled-length m 0 bs t))

-- What `my_malloc` leaves: blocks that tile the pool, and an answer that the regions handed out
-- before and after account for.
pub record Allocated (size : ℕ) (bs : List Header) (r : Run (Option ℕ × Memory)) : Type 0 where
  pub answer : Option ℕ
  pub memory : Memory
  pub blocks : List Header
  pub answers : r ≡ ok (answer, memory)
  pub tiled : Tiled memory 0 blocks
  pub grants : Grants size 0 bs (answer, blocks)
  pub apart : IsApart 0 (live 0 blocks)

-- On a pool that is tiled by the blocks `bs`, `my_malloc` ends without a stray read and leaves the
-- pool tiled. Either it answers NULL, no free block has `align4 size` bytes, and the blocks are those
-- from before; or it answers the address of a region of at least `align4 size` bytes, and the regions
-- handed out are those from before and this one. The regions handed out are in the pool, and none
-- meets another or a header in front of one.
pub my_malloc-Allocated :
    (size : ℕ) (m : Memory) (bs : List Header)
    → Tiled m 0 bs
    → Allocated (align4 size) bs (my_malloc size m)
my_malloc-Allocated size m bs t =
    let p = my_malloc-Placed size m bs t in
    let r = first_fit (align4 size) 0 bs in
    record {
      answer = r.0;
      memory = p.memory;
      blocks = r.1;
      answers = p.answers;
      tiled = p.tiled;
      grants = first_fit-Grants (align4 size) 0 bs;
      apart = live-IsApart p.memory 0 0 r.1 (omega arith) p.tiled;
    }

-- A request that leaves 3 or less to the largest `size_t` is served as one of 0 bytes, since the sum
-- in `ALIGN4` wraps; any other gets the next multiple of 4.
pub align4_cases :
    (size : ℕ) (m : Memory)
    → size < 2 ^ 64
    → ((2 ^ 64 ≤ size + 3) × (my_malloc size m ≡ my_malloc 0 m))
      ⊎ ((size + 3 < 2 ^ 64)
          × (size ≤ align4 size)
          × (align4 size < size + 4)
          × (align4 size % 4 ≡ 0))
unfolding align4 my_malloc
align4_cases size m h = elim (Bool-cases (leb (2 ^ 64) (size + 3))) [
  | inl wraps ↦
      let e : (size + 3) % 2 ^ 64 / 4 * 4 ≡ 0 = omega (arith, leb→le _ _ wraps) in
      inl (leb→le _ _ wraps, ap (λ n. malloc_loop rounds m n 0) e)
  | inr fits ↦
      let lt : size + 3 < 2 ^ 64 = ground arith in inr (lt, omega arith, omega arith, omega arith)
]
