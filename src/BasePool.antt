-- ===== src/BasePool.antt =====
-- 1.Demo/1.syntax_interface/15.memory_allocation/2.mem_pool_c/1.base/mem_pool.c: blocks with guard
-- bytes, free lists by size class, and an array of the blocks in use. Each function runs under
-- `pool_lock` from end to end, so a call is one step. What `calloc`, `malloc`, `realloc` and
-- `backtrace` return is an argument of the call; a null pointer that the code would follow is a fault.
pub mod Array
pub mod Outcome
pub mod Counts
pub mod Everywhere
pub mod Ownership
pub mod Reuse
pub mod Guards
mod Tests
use learn_c.Common.{
  ℕ, zero, suc, ◌+◌, ◌-◌, ◌*◌, ◌%◌, ◌^◌, Bool, true, false, ◌&&◌, ◌||◌, Option, none, some, List,
  [], ◌∷◌, ◌++◌, Run, ok, fault, ◌>>=◌, ◌==◌, leb, if◌then◌else◌, update, length, get_elem?, set,
  take,
}

-- `addr` is the address of the record itself. After its creation only `next` and `bt_size` change,
-- and `next` is the rest of the list that the block stands in. `room` is what `malloc` was asked for.
pub record Block : Type 0 where
  pub addr : ℕ
  pub real_ptr : ℕ
  pub user_ptr : ℕ
  pub size : ℕ
  pub room : ℕ
  pub bt_size : ℕ

pub record Slab : Type 0 where
  pub chunk_size : ℕ
  pub free_list : List Block
  pub total : ℕ
  pub in_use : ℕ

-- The statics, the bytes of the memory, and a record of the blocks given back to the C library.
pub record Pool : Type 0 where
  pub slabs : ℕ → Slab
  pub active_blocks : List Block
  pub active_capacity : ℕ
  pub mem : ℕ → ℕ
  pub released : List Block

-- What the C library returns in one call of `mem_pool_alloc`.
pub record Fresh : Type 0 where
  pub blk : ℕ
  pub raw : ℕ
  pub array : ℕ
  pub frames : ℕ

abbrev pub slab_count : ℕ
slab_count = 8

abbrev pub slab_sizes : List ℕ
slab_sizes = 32 ∷ 64 ∷ 128 ∷ 256 ∷ 512 ∷ 1024 ∷ 2048 ∷ 4096 ∷ []

abbrev pub guard_size : ℕ
guard_size = 16

abbrev pub guard_val : ℕ
guard_val = 0xAB

-- The first class from number `i` on whose chunks are large enough.
pub index_from : ℕ → List ℕ → ℕ → Option ℕ
index_from i [] size = none
index_from i (c ∷ cs) size =
    let rest = index_from (i + 1) cs size in if leb size c then some i else rest

-- `none` is the -1 of the code.
pub slab_index : ℕ → Option ℕ
unfolding index_from
slab_index size = index_from 0 slab_sizes size

pub push_active : ℕ → Block → Pool → Run Pool
push_active array b p =
    if leb p.active_capacity (length p.active_blocks)
    then (if array == 0
        then fault
        else ok (record p {
          active_capacity = if p.active_capacity == 0 then 64 else p.active_capacity * 2;
          active_blocks = p.active_blocks ++ (b ∷ []);
        }))
    else ok (record p { active_blocks = p.active_blocks ++ (b ∷ []) })

-- The first index from `i` on at which the array holds the block at address `a`.
pub find_index : ℕ → ℕ → List Block → Option ℕ
find_index a i [] = none
find_index a i (b ∷ bs) = let rest = find_index a (i + 1) bs in if b.addr == a then some i else rest

-- `active_blocks[i] = active_blocks[--active_count]`.
pub swap_out : List Block → ℕ → List Block
swap_out bs i = elim (get_elem? bs (length bs - 1)) [
  | none ↦ bs
  | some last ↦ take (length bs - 1) (set bs i last)
]

pub remove_active : Block → List Block → List Block
unfolding find_index swap_out
remove_active b bs = elim (find_index b.addr 0 bs) [ none ↦ bs | some i ↦ swap_out bs i ]

-- `n` bytes from `p` on.
pub fill : ℕ → (ℕ → ℕ) → ℕ → ℕ → ℕ
fill zero m p = m
fill (suc n) m p = fill n (update m p guard_val) (p + 1)

pub fill_guard : (ℕ → ℕ) → ℕ → ℕ → ℕ
unfolding fill
fill_guard m p = fill guard_size m p

pub check : ℕ → (ℕ → ℕ) → ℕ → Bool
check zero m p = true
check (suc n) m p = let rest = check n m (p + 1) in if m p == guard_val then rest else false

pub check_guard : (ℕ → ℕ) → ℕ → Bool
unfolding check
check_guard m p = check guard_size m p

-- The statics are zero before; the `chunk_size` of the classes is set.
chunk_at : ℕ → List ℕ → ℕ
chunk_at i [] = 0
chunk_at zero (c ∷ cs) = c
chunk_at (suc i) (c ∷ cs) = chunk_at i cs

pub mem_pool_init : (ℕ → ℕ) → Pool
unfolding chunk_at
mem_pool_init m = record {
  slabs = λ i. record { chunk_size = chunk_at i slab_sizes; free_list = []; total = 0; in_use = 0 };
  active_blocks = [];
  active_capacity = 0;
  mem = m;
  released = [];
}

-- The first block of a free list is taken for a new use.
reuse : ℕ → Slab → Block → List Block → Pool → Pool
reuse i s b rest p = record p {
  slabs = update p.slabs i (record s { free_list = rest; in_use = (s.in_use + 1) % 2 ^ 64 });
}

-- `total` of the class, if there is one, goes up.
pub count_new : Option ℕ → (ℕ → Slab) → ℕ → Slab
count_new none slabs = slabs
count_new (some i) slabs =
    update slabs i (record (slabs i) { total = ((slabs i).total + 1) % 2 ^ 64 })

abbrev pub new_block : ℕ → Fresh → Block
new_block size f = record {
  addr = f.blk;
  real_ptr = f.raw;
  user_ptr = f.raw + guard_size;
  size = size;
  room = (size + guard_size * 2) % 2 ^ 64;
  bt_size = 0;
}

-- A new block with its two guards.
pub create : Option ℕ → ℕ → Fresh → Pool → Run (Block × Pool)
unfolding fill_guard count_new
create idx size f p =
    if (f.blk == 0) || (f.raw == 0)
    then fault
    else ok (
      new_block size f,
      record p {
        mem = fill_guard (fill_guard p.mem f.raw) (f.raw + guard_size + size);
        slabs = count_new idx p.slabs;
      },
    )

-- The block for a request, by the class's free list.
choose : ℕ → Fresh → Pool → ℕ → List Block → Run (Block × Pool)
unfolding reuse create
choose size f p i [] = create (some i) size f p
choose size f p i (b ∷ rest) = ok (b, reuse i (p.slabs i) b rest p)

pub pick_block : Option ℕ → ℕ → Fresh → Pool → Run (Block × Pool)
unfolding choose
pick_block none size f p = create none size f p
pick_block (some i) size f p = choose size f p i (p.slabs i).free_list

-- The end of `mem_pool_alloc`: the call stack, and the place in the array.
pub finish : Fresh → Block × Pool → Run (Block × Pool)
unfolding push_active
finish f (blk, p) =
    let b : Block = record blk { bt_size = f.frames } in push_active f.array b p >>= λ q. ok (b, q)

-- The answer is the block; the code returns its `user_ptr`.
pub mem_pool_alloc : ℕ → Fresh → Pool → Run (Block × Pool)
unfolding slab_index pick_block finish
mem_pool_alloc size f p = pick_block (slab_index size) size f p >>= finish f

-- What `mem_pool_free` writes to the error stream.
pub data Message : Type 0 where
  invalid_free : Message
  overflow_on : ℕ → Message

pub find_ptr : ℕ → List Block → Option Block
find_ptr ptr [] = none
find_ptr ptr (b ∷ bs) = let rest = find_ptr ptr bs in if b.user_ptr == ptr then some b else rest

-- The block goes to the free list of its class, or back to the C library if it has none.
pub retire : Option ℕ → Block → Pool → Pool
retire none b p = record p { released = p.released ++ (b ∷ []) }
retire (some i) b p = record p {
  slabs = update p.slabs i (record (p.slabs i) {
    free_list = b ∷ (p.slabs i).free_list;
    in_use = ((p.slabs i).in_use + (2 ^ 64 - 1)) % 2 ^ 64;
  });
}

abbrev pub intact : Block → (ℕ → ℕ) → Bool
intact b m = check_guard m b.real_ptr && check_guard m (b.user_ptr + b.size)

pub free_found : Option Block → Pool → Pool × List Message
unfolding remove_active check_guard slab_index retire
free_found none p = (p, invalid_free ∷ [])
free_found (some b) p = (
  retire (slab_index b.size) b (record p { active_blocks = remove_active b p.active_blocks }),
  if intact b p.mem then [] else overflow_on b.size ∷ [],
)

pub mem_pool_free : ℕ → Pool → Pool × List Message
unfolding find_ptr free_found
mem_pool_free ptr p = if ptr == 0 then (p, []) else free_found (find_ptr ptr p.active_blocks) p

-- A line of the statistics: class, total, in use, free.
pub stats_from : ℕ → ℕ → Pool → List (ℕ × ℕ × ℕ × ℕ)
stats_from i zero p = []
stats_from i (suc n) p =
    let s = p.slabs i in
    (s.chunk_size, s.total, s.in_use, (s.total + 2 ^ 64 - s.in_use) % 2 ^ 64)
    ∷ stats_from (i + 1) n p

pub mem_pool_dump_stats : Pool → List (ℕ × ℕ × ℕ × ℕ)
unfolding stats_from
mem_pool_dump_stats p = stats_from 0 slab_count p

-- The blocks that the leak report names; none is the report of no leaks.
pub leaks : List Block → List (ℕ × ℕ)
leaks [] = []
leaks (b ∷ bs) = (b.user_ptr, b.size) ∷ leaks bs

pub mem_pool_dump_leaks : Pool → List (ℕ × ℕ)
unfolding leaks
mem_pool_dump_leaks p = leaks p.active_blocks

-- The blocks of the free lists from class `i` on.
pub listed : ℕ → ℕ → (ℕ → Slab) → List Block
listed i zero s = []
listed i (suc n) s = (s i).free_list ++ listed (i + 1) n s

-- Everything goes back to the C library. The free lists and the counters stay as they are.
pub mem_pool_destroy : Pool → Pool
unfolding listed
mem_pool_destroy p = record p {
  released = p.released ++ (listed 0 slab_count p.slabs ++ p.active_blocks);
  active_blocks = [];
  active_capacity = 0;
}
