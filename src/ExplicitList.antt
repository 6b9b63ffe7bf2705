-- ===== src/ExplicitList.antt =====
-- 1.Demo/1.syntax_interface/15.memory_allocation/1.allocation_strategy/2.explicit_free_list.c. A pointer
-- is the offset from `memory_pool`, and NULL is `none`. Each field of the headers is a function of the
-- offset; the bytes that belong to a caller are not modelled.
pub mod Links
pub mod Tiles
pub mod Changes
pub mod Resizing
pub mod Malloc
pub mod Joined
pub mod Free
pub mod Reach
mod Tests
use learn_c.Common.{
  ℕ, zero, suc, ◌+◌, ◌-◌, ◌*◌, ◌/◌, ◌%◌, ◌^◌, Bool, true, false, ◌&&◌, Option, none, some, List, [],
  ◌∷◌, Run, ok, out_of_fuel, ◌>>=◌, update, ltb, leb, ◌==◌, if◌then◌else◌,
}

-- The fields of `Block` in the pool, and the static `free_list`; `free` is only ever assigned 1 and 0.
pub record Heap : Type 0 where
  pub size : ℕ → ℕ
  pub free : ℕ → Bool
  pub next : ℕ → Option ℕ
  pub prev : ℕ → Option ℕ
  pub free_list : Option ℕ

-- `sizeof(Block)`: a `size_t`, an `int` and padding, and two pointers.
abbrev pub block_size : ℕ
block_size = 32

abbrev pub pool_size : ℕ
pool_size = 1024 * 10

-- `ALIGN4` on a `size_t`, whose addition wraps.
pub align4 : ℕ → ℕ
align4 x = (x + 3) % 2 ^ 64 / 4 * 4

-- On the memory that `malloc` returned, whatever is in it.
pub init_memory : Heap → Heap
init_memory h = record h {
  size = update h.size 0 (pool_size - block_size);
  free = update h.free 0 true;
  next = update h.next 0 none;
  prev = update h.prev 0 none;
  free_list = some 0;
}

-- A pointer field of the block that `p` points to, if it does.
abbrev pub set_link : Option ℕ → Option ℕ → (ℕ → Option ℕ) → ℕ → Option ℕ
set_link none v f = f
set_link (some p) v f = update f p v

abbrev pub is_at : Option ℕ → ℕ → Bool
is_at none a = false
is_at (some p) a = a == p

abbrev pub unlink_next : ℕ → Heap → Heap
unlink_next a h = record h { next = set_link (h.prev a) (h.next a) h.next }

abbrev pub unlink_prev : ℕ → Heap → Heap
unlink_prev a h = record h { prev = set_link (h.next a) (h.prev a) h.prev }

abbrev pub unlink_head : ℕ → Heap → Heap
unlink_head a h = record h { free_list = if is_at h.free_list a then h.next a else h.free_list }

-- The three statements, one after the other.
pub remove_from_free_list : ℕ → Heap → Heap
remove_from_free_list a h = unlink_head a (unlink_prev a (unlink_next a h))

pub add_to_free_list : ℕ → Heap → Heap
add_to_free_list a h = record h {
  next = update h.next a h.free_list;
  prev = update (set_link h.free_list (some a) h.prev) a none;
  free_list = some a;
}

-- The header of the block that is cut off.
abbrev pub new_block : ℕ → ℕ → Heap → Heap
new_block a n h = record h {
  size = update h.size a n;
  free = update h.free a true;
  next = update h.next a none;
  prev = update h.prev a none;
}

abbrev pub set_size : ℕ → ℕ → Heap → Heap
set_size a n h = record h { size = update h.size a n }

abbrev pub set_free : ℕ → Bool → Heap → Heap
set_free a f h = record h { free = update h.free a f }

-- Block `c` is cut down to `size` bytes.
pub split : ℕ → ℕ → Heap → Heap
unfolding add_to_free_list
split c size h =
    let rest = c + block_size + size in
    set_size c size (add_to_free_list rest (new_block rest (h.size c - size - block_size) h))

-- Block `c`, which the search has found.
pub place : ℕ → ℕ → Heap → Heap
unfolding split remove_from_free_list
place c size h = remove_from_free_list c (
    set_free c false
      (if ltb ((size + block_size + 4) % 2 ^ 64) (h.size c) then split c size h else h))

pub malloc_loop : ℕ → Option ℕ → ℕ → Heap → Run (Option ℕ × Heap)
unfolding place
malloc_loop zero curr size h = out_of_fuel
malloc_loop (suc k) none size h = ok (none, h)
malloc_loop (suc k) (some c) size h = elim (h.free c && leb size (h.size c)) [
  | true ↦ ok (some (c + block_size), place c size h)
  | false ↦ malloc_loop k (h.next c) size h
]

-- More rounds than there are blocks of 32 bytes and more in the pool.
abbrev pub rounds : ℕ
rounds = 321

pub my_malloc : ℕ → Heap → Run (Option ℕ × Heap)
unfolding malloc_loop align4
my_malloc size h = malloc_loop rounds h.free_list (align4 size) h

-- Block `n` behind block `c` becomes part of it.
pub join : ℕ → ℕ → Heap → Heap
unfolding remove_from_free_list
join c n h = let g = remove_from_free_list n h in set_size c (g.size c + (block_size + g.size n)) g

pub join_loop : ℕ → ℕ → Heap → Run Heap
unfolding join
join_loop zero c h = out_of_fuel
join_loop (suc k) c h = elim (ltb c pool_size) [
  | false ↦ ok h
  | true ↦ elim (leb pool_size (c + block_size + h.size c)) [
    | true ↦ ok h
    | false ↦ elim (h.free c && h.free (c + block_size + h.size c)) [
      | true ↦ join_loop k c (join c (c + block_size + h.size c) h)
      | false ↦ join_loop k (c + block_size + h.size c) h
    ]
  ]
]

pub my_free : Option ℕ → Heap → Run Heap
unfolding join_loop add_to_free_list
my_free none h = ok h
my_free (some ptr) h =
    join_loop rounds 0 (add_to_free_list (ptr - block_size) (set_free (ptr - block_size) true h))

-- The lines printed: size and state of each block.
pub print_loop : ℕ → ℕ → Heap → Run (List (ℕ × Bool))
print_loop zero c h = out_of_fuel
print_loop (suc k) c h = elim (ltb c pool_size) [
  | false ↦ ok []
  | true ↦ print_loop k (c + block_size + h.size c) h >>= λ rest. ok ((h.size c, h.free c) ∷ rest)
]

pub print_state : Heap → Run (List (ℕ × Bool))
unfolding print_loop
print_state h = print_loop rounds 0 h
