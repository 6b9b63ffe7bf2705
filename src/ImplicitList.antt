-- ===== src/ImplicitList.antt =====
-- 1.Demo/1.syntax_interface/15.memory_allocation/1.allocation_strategy/1.implicit_free_list.c.
-- A pointer is the offset from `memory_pool`, and the memory holds the block headers by offset:
-- the bytes that belong to a caller are not modelled. `none` is what no header was written to.
pub mod Blocks
pub mod Live
pub mod Malloc
pub mod Free
mod Tests
use learn_c.Common.{
  ℕ, zero, suc, ◌+◌, ◌-◌, ◌*◌, ◌/◌, ◌%◌, ◌^◌, Bool, true, false, ◌&&◌, Option, none, some, List, [],
  ◌∷◌, Run, ok, out_of_fuel, ◌>>=◌, or_fault, update, ltb, leb, if◌then◌else◌,
}

-- `BlockHeader`; `free` is only ever assigned 1 and 0.
pub record Header : Type 0 where
  pub size : ℕ
  pub free : Bool

abbrev pub block : ℕ → Bool → Header
block n f = record { size = n; free = f }

-- `sizeof(BlockHeader)`: a `size_t`, an `int` and padding.
abbrev pub header_size : ℕ
header_size = 16

abbrev pub pool_size : ℕ
pool_size = 1024 * 10

abbrev pub Memory : Type 0
Memory = ℕ → Option Header

-- `ALIGN4` on a `size_t`, whose addition wraps.
pub align4 : ℕ → ℕ
align4 x = (x + 3) % 2 ^ 64 / 4 * 4

pub init_memory : Memory
init_memory = update (λ _. none) 0 (some (block (pool_size - header_size) true))

-- The block that the search has found: split if the rest can hold a header and more than 4 bytes.
pub place : Memory → ℕ → Header → ℕ → Option ℕ × Memory
place m ptr b size =
    let remaining = b.size - size in
    let next = ptr + header_size + size in
    (
      some (ptr + header_size),
      if ltb (header_size + 4) remaining
          then update (update m next (some (block (remaining - header_size) true))) ptr
              (some (block size false))
          else update m ptr (some (block b.size false)),
    )

pub malloc_loop : ℕ → Memory → ℕ → ℕ → Run (Option ℕ × Memory)
malloc_loop zero m size ptr = out_of_fuel
malloc_loop (suc k) m size ptr = elim (ltb ptr pool_size) [
  | false ↦ ok (none, m)
  | true ↦ or_fault (m ptr) >>= λ b. elim (b.free && leb size b.size) [
    | true ↦ ok (place m ptr b size)
    | false ↦ malloc_loop k m size (ptr + header_size + b.size)
  ]
]

-- A block takes its header at least, so this many rounds see every block and the end.
abbrev pub rounds : ℕ
rounds = pool_size / header_size + 1

pub my_malloc : ℕ → Memory → Run (Option ℕ × Memory)
my_malloc size m = malloc_loop rounds m (align4 size) 0

-- The loop of `my_free` that joins neighbours which are both free.
pub join_loop : ℕ → Memory → ℕ → Run Memory
join_loop zero m curr = out_of_fuel
join_loop (suc k) m curr = elim (ltb curr pool_size) [
  | false ↦ ok m
  | true ↦ or_fault (m curr) >>= λ b.
      let next_ptr = curr + header_size + b.size in
      elim (leb pool_size next_ptr) [
        | true ↦ ok m
        | false ↦ or_fault (m next_ptr) >>= λ next. elim (b.free && next.free) [
          | true ↦
              join_loop k (update m curr (some (block (b.size + (header_size + next.size)) b.free)))
                curr
          | false ↦ join_loop k m next_ptr
        ]
      ]
]

pub my_free : Option ℕ → Memory → Run Memory
my_free none m = ok m
my_free (some ptr) m = or_fault (m (ptr - header_size)) >>= λ b.
    join_loop rounds (update m (ptr - header_size) (some (block b.size true))) 0

-- What `print_state` shows: the size and the state of each block, in order of address.
pub print_loop : ℕ → Memory → ℕ → Run (List Header)
print_loop zero m ptr = out_of_fuel
print_loop (suc k) m ptr = elim (ltb ptr pool_size) [
  | false ↦ ok []
  | true ↦ or_fault (m ptr) >>= λ b.
      print_loop k m (ptr + header_size + b.size) >>= λ rest. ok (b ∷ rest)
]

pub print_state : Memory → Run (List Header)
print_state m = print_loop rounds m 0
