-- ===== src/ImplicitList/Free.antt =====
-- `my_free` of 1.implicit_free_list.c marks a block as free and joins free neighbours.
use learn_c.Common.{
  ℕ, zero, suc, ◌+◌, ◌-◌, ◌*◌, ◌≤◌, ◌<◌, ◌≡◌, refl, inl, inr, true, false, ◌&&◌, some, List, [],
  ◌∷◌, ◌++◌, arith, Run, ok, update, ◌==◌, ==_iff, Bool-cases, length, ap, sym, ◌∙◌,
}
use learn_c.ImplicitList.{
  Header, block, header_size, pool_size, Memory, rounds, join_loop, my_free, print_state,
}
use learn_c.ImplicitList.Blocks.{
  Tiled, Tiled-length, Tiled-update_below, print_state-Tiled, release, join, coalesce, live,
  find_block, IsCoalesced, Inserted, init_block,
}
use learn_c.ImplicitList.Live.{live-join, join-IsCoalesced, live-release, one_block}

-- What a walk from `p` leaves: the blocks `want`, and the memory below `p` as it was.
pub record Joined (m : Memory) (p : ℕ) (want : List Header) (r : Run Memory) : Type 0 where
  pub memory : Memory
  pub answers : r ≡ ok memory
  pub tiled : Tiled memory p want
  pub below : (q : ℕ) → q < p → memory q ≡ m q

module _ (k : ℕ) (m : Memory) (p : ℕ) (b : Header) (lt : p < pool_size) (here : m p ≡ some b) where
  join_loop-last : pool_size ≤ p + header_size + b.size → join_loop (suc k) m p ≡ ok m
  unfolding join_loop
  join_loop-last le = ground arith

  module _ (n : Header) (more : p + header_size + b.size < pool_size)
      (there : m (p + header_size + b.size) ≡ some n) where
    join_loop-both :
        (b.free && n.free) ≡ true
        → join_loop (suc k) m p
          ≡ join_loop k (update m p (some (block (b.size + (header_size + n.size)) b.free))) p
    unfolding join_loop
    join_loop-both both = ground arith

    join_loop-apart :
        (b.free && n.free) ≡ false
        → join_loop (suc k) m p ≡ join_loop k m (p + header_size + b.size)
    unfolding join_loop
    join_loop-apart apart = ground arith

-- The walk from any block on joins the blocks behind it as `join` does.
join_loop-Joined :
    (k : ℕ) (m : Memory) (p : ℕ) (b : Header) (bs : List Header)
    → Tiled m p (b ∷ bs)
    → length (b ∷ bs) < k
    → Joined m p (join b bs) (join_loop k m p)
unfolding join
join_loop-Joined zero m p b bs t h = absurd (omega arith)
join_loop-Joined (suc k) m p b [] t h =
    rw (join_loop-last k m p b (omega arith) t.0 (omega arith))
      (record { memory = m; answers = refl; tiled = t; below = λ q h. refl })
join_loop-Joined (suc k) m p b (n ∷ bs) t h =
    let np : ℕ = p + header_size + b.size in
    let len : p + header_size * length (b ∷ n ∷ bs) ≤ pool_size = Tiled-length m p (b ∷ n ∷ bs) t in
    let len' : np + header_size * length (n ∷ bs) ≤ pool_size = Tiled-length m np (n ∷ bs) t.1 in
    let inside : p < pool_size = omega arith in
    let more : np < pool_size = omega arith in
    elim (Bool-cases (b.free && n.free)) [
      | inl both ↦
          let big : Header = block (b.size + (header_size + n.size)) b.free in
          let g : Memory = update m p (some big) in
          let e : np + header_size + n.size ≡ p + header_size + big.size = omega arith in
          let tail : Tiled g (np + header_size + n.size) bs =
            Tiled-update_below m (np + header_size + n.size) p (some big) bs (omega arith) t.1.1 in
          let rest : Joined g p (join big bs) (join_loop k g p) =
            join_loop-Joined k g p big bs (ground arith, rw e at tail) (omega arith) in
          rw (join_loop-both k m p b inside t.0 n more t.1.0 both, both)
            (record {
              memory = rest.memory;
              answers = rest.answers;
              tiled = rest.tiled;
              below = λ q h. rest.below q h ∙ ground arith;
            })
      | inr apart ↦
          let rest : Joined m np (join n bs) (join_loop k m np) =
            join_loop-Joined k m np n bs t.1 (omega arith) in
          rw (join_loop-apart k m p b inside t.0 n more t.1.0 apart, apart)
            (record {
              memory = rest.memory;
              answers = rest.answers;
              tiled = (rest.below p (omega arith) ∙ t.0, rest.tiled);
              below = λ q h. rest.below q (omega arith);
            })
    ]

-- The block that the list has at `q` is the one whose header the memory holds there, and marking it
-- as free in the memory is what `release` does to the list.
release-Tiled :
    (m : Memory) (q p : ℕ) (b : Header) (bs : List Header)
    → Tiled m p bs
    → find_block q p bs ≡ some b
    → (m q ≡ some b) × (p ≤ q) × Tiled (update m q (some (block b.size true))) p (release q p bs)
unfolding release find_block
release-Tiled m q p b [] t e = cc
release-Tiled m q p b (n ∷ bs) t e = elim (Bool-cases (p == q)) [
  | inl same ↦
      let here : p ≡ q = (==_iff p q).0 same in
      let found : n ≡ b = ground arith in
      let tail : Tiled (update m q (some (block b.size true))) (p + header_size + n.size) bs =
        Tiled-update_below m (p + header_size + n.size) q _ bs (omega arith) t.1 in
      (ground arith, omega arith, rw same (ground arith, tail))
  | inr other ↦
      let (held, le, rest) = release-Tiled m q (p + header_size + n.size) b bs t.1 (ground arith) in
      (held, omega arith, rw other (ground arith, rest))
]

module _ (q : ℕ) (m : Memory) (b : Header) (bs : List Header) (t : Tiled m 0 bs)
    (found : find_block q 0 bs ≡ some b) where
  coalesce-Joined :
      (g : Memory) (cs : List Header)
      → Tiled g 0 cs
      → Joined g 0 (coalesce cs) (join_loop rounds g 0)
  unfolding coalesce
  coalesce-Joined g [] u = absurd (omega arith)
  coalesce-Joined g (c ∷ cs) u =
      join_loop-Joined rounds g 0 c cs u (omega (arith, Tiled-length g 0 (c ∷ cs) u))

  pub my_free-Joined :
      Joined
        (update m q (some (block b.size true)))
        0
        (coalesce (release q 0 bs))
        (my_free (some (q + header_size)) m)
  unfolding my_free
  my_free-Joined =
      let (held, le, released) = release-Tiled m q 0 b bs t found in
      let e : q + header_size - header_size ≡ q = omega arith in
      rw (e, held) (coalesce-Joined _ _ released)

-- What `my_free` of the block behind `q` leaves: blocks that tile the pool, with no two free
-- neighbours, and the regions handed out before less the one freed.
pub record Freed (q n : ℕ) (bs : List Header) (r : Run Memory) : Type 0 where
  pub memory : Memory
  pub blocks : List Header
  pub answers : r ≡ ok memory
  pub tiled : Tiled memory 0 blocks
  pub joined : IsCoalesced blocks
  pub regions : Inserted (q + header_size, n) (live 0 blocks) (live 0 bs)

coalesce-IsCoalesced : (bs : List Header) → IsCoalesced (coalesce bs)
unfolding coalesce
coalesce-IsCoalesced [] = tt
coalesce-IsCoalesced (b ∷ bs) = join-IsCoalesced b bs

live-coalesce : (bs : List Header) → live 0 (coalesce bs) ≡ live 0 bs
unfolding coalesce
live-coalesce [] = refl
live-coalesce (b ∷ bs) = live-join 0 b bs

-- On a pool that is tiled by the blocks `bs`, `my_free` of the address behind the header of a block
-- that is in use ends without a stray read and leaves the pool tiled, with no two free neighbours;
-- exactly that block's region is no longer handed out, and the others are where they were.
pub my_free-Freed :
    (q : ℕ) (m : Memory) (b : Header) (bs : List Header)
    → Tiled m 0 bs
    → find_block q 0 bs ≡ some b
    → b.free ≡ false
    → Freed q b.size bs (my_free (some (q + header_size)) m)
my_free-Freed q m b bs t found held =
    let j = my_free-Joined q m b bs t found in
    record {
      memory = j.memory;
      blocks = coalesce (release q 0 bs);
      answers = j.answers;
      tiled = j.tiled;
      joined = coalesce-IsCoalesced (release q 0 bs);
      regions = rw live-coalesce (live-release q 0 b bs found held);
    }

append-eq-nil : (xs ys : List (ℕ × ℕ)) (r : ℕ × ℕ) → (r ∷ []) ≡ xs ++ (r ∷ ys) → xs ++ ys ≡ []
append-eq-nil [] ys r e = cc
append-eq-nil (x ∷ []) ys r e = cc
append-eq-nil (x ∷ y ∷ xs) ys r e = cc

-- When the only region handed out is freed, the pool is again the one free block that `init_memory`
-- makes: no space is lost to headers or fragments, whatever was handed out and freed before.
pub my_free-last :
    (q : ℕ) (m : Memory) (b : Header) (bs : List Header)
    → Tiled m 0 bs
    → find_block q 0 bs ≡ some b
    → live 0 bs ≡ (q + header_size, b.size) ∷ []
    → b.free ≡ false
    → (g : Memory) × (my_free (some (q + header_size)) m ≡ ok g)
      × (print_state g ≡ ok (init_block ∷ []))
my_free-last q m b bs t found only held =
    let f = my_free-Freed q m b bs t found held in
    let (xs, ys, before, after) = f.regions in
    let none_left : live 0 f.blocks ≡ [] = before ∙ append-eq-nil xs ys _ (sym only ∙ after) in
    let e : f.blocks ≡ init_block ∷ [] = one_block f.memory f.blocks f.tiled f.joined none_left in
    (f.memory, f.answers, print_state-Tiled f.memory f.blocks f.tiled ∙ ap ok e)
