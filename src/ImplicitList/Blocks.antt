-- ===== src/ImplicitList/Blocks.antt =====
-- The pool as the sequence of its blocks, and what the allocator is to do with that sequence.
use learn_c.Common.{
  ℕ, zero, suc, ◌+◌, ◌-◌, ◌*◌, ◌≤◌, ◌<◌, ◌≡◌, true, false, ◌&&◌, Option, none, some, List, [], ◌∷◌,
  ◌++◌, arith, update, ltb, leb, ◌==◌, if◌then◌else◌, length, ok,
}
use learn_c.ImplicitList.{
  Header, block, header_size, pool_size, Memory, rounds, print_loop, print_state,
}

-- From offset `p` the headers of `bs` lie one behind the other, and they end at the pool's end.
abbrev pub Tiled : Memory → ℕ → List Header → Type 0
Tiled m p [] = p ≡ pool_size
Tiled m p (b ∷ bs) = (m p ≡ some b) × Tiled m (p + header_size + b.size) bs

pub Tiled-length :
    (m : Memory) (p : ℕ) (bs : List Header) → Tiled m p bs → p + header_size * length bs ≤ pool_size
Tiled-length m p [] t = omega arith
Tiled-length m p (b ∷ bs) t = omega (arith, Tiled-length m (p + header_size + b.size) bs t.1)

pub Tiled-update_below :
    (m : Memory) (p q : ℕ) (v : Option Header) (bs : List Header)
    → q < p
    → Tiled m p bs
    → Tiled (update m q v) p bs
Tiled-update_below m p q v [] h t = t
Tiled-update_below m p q v (b ∷ bs) h t =
    (ground arith, Tiled-update_below m (p + header_size + b.size) q v bs (omega arith) t.1)

-- Two memories that agree from `p` on hold the same blocks there.
pub Tiled-same :
    (m g : Memory) (p : ℕ) (bs : List Header)
    → ((q : ℕ) → p ≤ q → g q ≡ m q)
    → Tiled m p bs
    → Tiled g p bs
Tiled-same m g p [] same t = t
Tiled-same m g p (b ∷ bs) same t = (
  ground (arith, same p),
  Tiled-same m g (p + header_size + b.size) bs (λ q h. same q (omega arith)) t.1,
)

-- The blocks that stand in place of `b` when `size` bytes of it are handed out.
unfoldable pub carve : ℕ → Header → List Header
carve size b =
    if ltb (header_size + 4) (b.size - size)
    then block size false ∷ block (b.size - size - header_size) true ∷ []
    else block b.size false ∷ []

-- The lowest free block that is large enough is carved; the answer is the address behind its header.
unfoldable pub first_fit : ℕ → ℕ → List Header → Option ℕ × List Header
first_fit size p [] = (none, [])
first_fit size p (b ∷ bs) =
    let rest = first_fit size (p + header_size + b.size) bs in
    if b.free && leb size b.size
    then (some (p + header_size), carve size b ++ bs)
    else (rest.0, b ∷ rest.1)

-- The block whose header is at `q` becomes free.
unfoldable pub release : ℕ → ℕ → List Header → List Header
release q p [] = []
release q p (b ∷ bs) =
    let rest = release q (p + header_size + b.size) bs in
    if p == q then block b.size true ∷ bs else b ∷ rest

-- `b` and the blocks behind it, with free neighbours joined.
unfoldable pub join : Header → List Header → List Header
join b [] = b ∷ []
join b (n ∷ bs) =
    let joined = join (block (b.size + (header_size + n.size)) b.free) bs in
    let kept = join n bs in if b.free && n.free then joined else b ∷ kept

unfoldable pub coalesce : List Header → List Header
unfolding join
coalesce [] = []
coalesce (b ∷ bs) = join b bs

-- The blocks in the callers' hands: address and size of each.
unfoldable pub live : ℕ → List Header → List (ℕ × ℕ)
live p [] = []
live p (b ∷ bs) =
    let rest = live (p + header_size + b.size) bs in
    if b.free then rest else (p + header_size, b.size) ∷ rest

-- The block whose header is at `q`.
unfoldable pub find_block : ℕ → ℕ → List Header → Option Header
find_block q p [] = none
find_block q p (b ∷ bs) =
    let rest = find_block q (p + header_size + b.size) bs in if p == q then some b else rest

-- No two neighbours are both free.
abbrev pub IsCoalesced : List Header → Type 0
IsCoalesced [] = Unit
IsCoalesced (b ∷ []) = Unit
IsCoalesced (b ∷ n ∷ bs) = ((b.free && n.free) ≡ false) × IsCoalesced (n ∷ bs)

-- The regions lie in order above `lo`, each behind room for a header, and end within the pool.
abbrev pub IsApart : ℕ → List (ℕ × ℕ) → Type 0
IsApart lo [] = lo ≤ pool_size
IsApart lo ((u, n) ∷ rs) = (lo + header_size ≤ u) × IsApart (u + n) rs

-- `after` is `before` with the region `(u, n)` put in at its place.
abbrev pub Inserted : ℕ × ℕ → List (ℕ × ℕ) → List (ℕ × ℕ) → Type 0
Inserted r before after =
    (xs : List (ℕ × ℕ)) × (ys : List (ℕ × ℕ)) × (before ≡ xs ++ ys) × (after ≡ xs ++ (r ∷ ys))

abbrev pub init_block : Header
init_block = block (pool_size - header_size) true

print_loop-Tiled :
    (k : ℕ) (m : Memory) (p : ℕ) (bs : List Header)
    → Tiled m p bs
    → length bs < k
    → print_loop k m p ≡ ok bs
unfolding print_loop
print_loop-Tiled zero m p bs t h = absurd (omega arith)
print_loop-Tiled (suc k) m p [] t h = ground arith
print_loop-Tiled (suc k) m p (b ∷ bs) t h = ground (
  arith,
  Tiled-length m p (b ∷ bs) t,
  print_loop-Tiled k m (p + header_size + b.size) bs t.1 (omega arith),
)

-- `print_state` shows the blocks that tile the pool, in order, and ends.
pub print_state-Tiled : (m : Memory) (bs : List Header) → Tiled m 0 bs → print_state m ≡ ok bs
unfolding print_state
print_state-Tiled m bs t = print_loop-Tiled rounds m 0 bs t (omega (arith, Tiled-length m 0 bs t))
