-- ===== src/SegregatedFits.antt =====
-- 1.Demo/1.syntax_interface/15.memory_allocation/1.allocation_strategy/3.segregated_fits.c. A pointer is
-- the offset from `memory_pool`, and NULL is `none`. Each field of the headers is a function of the
-- offset; the bytes that belong to a caller are not modelled. The loops over the lists take a number of
-- rounds, since no bound holds for them.
pub mod Points
pub mod Malloc
pub mod Reach
mod Tests
use learn_c.Common.{
  ℕ, zero, suc, ◌+◌, ◌-◌, ◌*◌, ◌/◌, ◌%◌, ◌^◌, Bool, true, false, ◌&&◌, Option, none, some, List, [],
  ◌∷◌, Run, ok, out_of_fuel, ◌>>=◌, update, ltb, leb, ◌==◌, if◌then◌else◌,
}

-- The fields of `Block` in the pool, and `class_bins`; `free` is only ever assigned 1 and 0.
pub record Heap : Type 0 where
  pub size : ℕ → ℕ
  pub free : ℕ → Bool
  pub next : ℕ → Option ℕ
  pub prev : ℕ → Option ℕ
  pub class_bins : ℕ → Option ℕ

-- `sizeof(Block)`: a `size_t`, an `int` and padding, and two pointers.
abbrev pub block_size : ℕ
block_size = 32

abbrev pub pool_size : ℕ
pool_size = 1024 * 32

abbrev pub num_classes : ℕ
num_classes = 5

-- `ALIGN4` on a `size_t`, whose addition wraps.
pub align4 : ℕ → ℕ
align4 x = (x + 3) % 2 ^ 64 / 4 * 4

-- The comparisons with `class_limits`, from the first on.
pub get_class_id : ℕ → ℕ
get_class_id size =
    if leb size 32
    then 0
    else (if leb size 64
        then 1
        else (if leb size 128
            then 2
            else (if leb size 256 then 3 else (if leb size 1024 then 4 else num_classes - 1))))

-- On the memory that `malloc` returned, whatever is in it.
pub init_memory : Heap → Heap
init_memory h = record h {
  size = update h.size 0 (pool_size - block_size);
  free = update h.free 0 true;
  next = update h.next 0 none;
  prev = update h.prev 0 none;
  class_bins = update (λ _. none) (num_classes - 1) (some 0);
}

-- A pointer field of the block that `p` points to, if it does.
abbrev pub set_link : Option ℕ → Option ℕ → (ℕ → Option ℕ) → ℕ → Option ℕ
set_link none v f = f
set_link (some p) v f = update f p v

abbrev pub is_at : Option ℕ → ℕ → Bool
is_at none a = false
is_at (some p) a = a == p

-- The block becomes the first of the list of class `i`.
abbrev pub push : ℕ → ℕ → Heap → Heap
push i a h = record h {
  next = update h.next a (h.class_bins i);
  prev = update (set_link (h.class_bins i) (some a) h.prev) a none;
  class_bins = update h.class_bins i (some a);
}

pub add_to_class : ℕ → Heap → Heap
add_to_class a h = push (get_class_id (h.size a)) a h

abbrev pub unlink_next : ℕ → Heap → Heap
unlink_next a h = record h { next = set_link (h.prev a) (h.next a) h.next }

abbrev pub unlink_prev : ℕ → Heap → Heap
unlink_prev a h = record h { prev = set_link (h.next a) (h.prev a) h.prev }

abbrev pub unlink_head : ℕ → ℕ → Heap → Heap
unlink_head i a h = record h {
  class_bins = if is_at (h.class_bins i) a then update h.class_bins i (h.next a) else h.class_bins;
}

-- The three statements, one after the other; the class is that of the size the block has now.
pub remove_from_class : ℕ → Heap → Heap
remove_from_class a h = unlink_head (get_class_id (h.size a)) a (unlink_prev a (unlink_next a h))

-- The header of the block that is cut off.
abbrev pub new_block : ℕ → ℕ → Heap → Heap
new_block a n h = record h {
  size = update h.size a n;
  free = update h.free a true;
  next = update h.next a none;
  prev = update h.prev a none;
}

abbrev pub set_size : ℕ → ℕ → Heap → Heap
set_size a n h = record h { size = update h.size a n }

abbrev pub set_free : ℕ → Bool → Heap → Heap
set_free a f h = record h { free = update h.free a f }

-- Block `c` is cut down to `size` bytes.
pub split : ℕ → ℕ → Heap → Heap
unfolding add_to_class
split c size h =
    let rest = c + block_size + size in
    set_size c size (add_to_class rest (new_block rest (h.size c - size - block_size) h))

-- Block `c`, which the search has found.
pub place : ℕ → ℕ → Heap → Heap
unfolding split remove_from_class
place c size h =
    remove_from_class c
      (set_free c false (if ltb (block_size + 4) (h.size c - size) then split c size h else h))

-- The search at a block of the list of class `i`, or at its end.
pub search : ℕ → ℕ → Option ℕ → ℕ → Heap → Run (Option ℕ × Heap)
unfolding place
search zero i curr size h = out_of_fuel
search (suc k) i none size h = elim (ltb (i + 1) num_classes) [
  | true ↦ search k (i + 1) (h.class_bins (i + 1)) size h
  | false ↦ ok (none, h)
]
search (suc k) i (some c) size h = elim (h.free c && leb size (h.size c)) [
  | true ↦ ok (some (c + block_size), place c size h)
  | false ↦ search k i (h.next c) size h
]

-- In at most so many rounds.
pub my_malloc : ℕ → ℕ → Heap → Run (Option ℕ × Heap)
unfolding search align4
my_malloc rounds size h =
    let n = align4 size in search rounds (get_class_id n) (h.class_bins (get_class_id n)) n h

pub my_free : Option ℕ → Heap → Heap
unfolding add_to_class
my_free none h = h
my_free (some ptr) h = add_to_class (ptr - block_size) (set_free (ptr - block_size) true h)

-- The sizes in one list, in at most so many rounds.
pub print_bin : ℕ → Option ℕ → Heap → Run (List ℕ)
print_bin zero curr h = out_of_fuel
print_bin (suc k) none h = ok []
print_bin (suc k) (some c) h = print_bin k (h.next c) h >>= λ rest. ok (h.size c ∷ rest)

-- `n` classes are left, and the next is number `i`.
pub print_bins : ℕ → ℕ → ℕ → Heap → Run (List (List ℕ))
unfolding print_bin
print_bins rounds zero i h = ok []
print_bins rounds (suc n) i h = print_bin rounds (h.class_bins i) h >>= λ sizes.
    print_bins rounds n (i + 1) h >>= λ rest. ok (sizes ∷ rest)

pub print_state : ℕ → Heap → Run (List (List ℕ))
unfolding print_bins
print_state rounds h = print_bins rounds num_classes 0 h
