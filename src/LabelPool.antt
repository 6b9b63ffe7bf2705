-- ===== src/LabelPool.antt =====
-- 1.Demo/1.syntax_interface/15.memory_allocation/2.mem_pool_c/2.upgrade/mem_pool.c: the pool with
-- labelled blocks that keeps its state in statics, and the sizes of the classes in an array of their
-- own. Blocks, their headers and the lists of them are as in ServerPool; so is what the two programs
-- do with a list of blocks alone.
pub mod Same
pub mod Reach
pub mod Destroy
mod Tests
use learn_c.Common.{
  ℕ, zero, suc, ◌+◌, ◌-◌, ◌*◌, ◌%◌, ◌^◌, Bool, true, false, not, ◌&&◌, Option, none, some, List, [],
  ◌∷◌, ◌==◌, leb, if◌then◌else◌, update,
}
use learn_c.ServerPool.{
  MemBlk, SlabClass, Fresh, Reason, double_free, underrun, overflow, protect_magic, tail_magic,
  max_slab_classes, slab_min_size, slab_max_size, blk_size, guard_at, tail_at, label_text, room_of,
  unlink,
}
use learn_c.ServerPool.Whole.{live, sum_sizes, leak_lines, drop_all, drop_classes}

-- The statics, and the memory.
pub record Pool : Type 0 where
  pub slab_sizes : ℕ → ℕ
  pub slab_class_count : ℕ
  pub slab_classes : ℕ → SlabClass
  pub active_list : List ℕ
  pub debug_mode : Bool
  pub protect_mode : Bool
  pub blocks : ℕ → Option MemBlk
  pub words : ℕ → ℕ

-- Before the first call.
abbrev pub statics : (ℕ → Option MemBlk) → (ℕ → ℕ) → Pool
statics blocks words = record {
  slab_sizes = λ _. 0;
  slab_class_count = 0;
  slab_classes = λ _. record { block_size = 0; free_list = [] };
  active_list = [];
  debug_mode = false;
  protect_mode = true;
  blocks = blocks;
  words = words;
}

-- One round of the loop of `init_slab_classes`.
pub init_class : ℕ → ℕ → Pool → Pool
init_class i size p = record p {
  slab_sizes = update p.slab_sizes i size;
  slab_classes = update p.slab_classes i (record (p.slab_classes i) { block_size = size });
  slab_class_count = p.slab_class_count + 1;
}

pub init_loop : ℕ → ℕ → ℕ → Pool → Pool
unfolding init_class
init_loop i zero size p = p
init_loop i (suc n) size p = elim (leb size slab_max_size) [
  | true ↦ init_loop (i + 1) n (size * 2) (init_class i size p)
  | false ↦ p
]

pub mem_pool_init : Pool → Pool
unfolding init_loop
mem_pool_init p = init_loop 0 max_slab_classes slab_min_size p

-- `n` classes are left to be tried, and the next is number `i`.
pub index_from : ℕ → ℕ → (ℕ → ℕ) → ℕ → Option ℕ
index_from i zero slab_sizes size = none
index_from i (suc n) slab_sizes size =
    let rest = index_from (i + 1) n slab_sizes size in
    if leb size (slab_sizes i) then some i else rest

-- `none` is the -1 of the code.
pub find_slab_index : Pool → ℕ → Option ℕ
unfolding index_from
find_slab_index p size = index_from 0 p.slab_class_count p.slab_sizes size

-- Both loops give the blocks back to the C library; the free lists keep their heads.
pub mem_pool_destroy : Pool → Pool
unfolding drop_all drop_classes
mem_pool_destroy p = record p {
  blocks = drop_all p.active_list (drop_classes 0 p.slab_class_count p.slab_classes p.blocks);
  active_list = [];
}

pub mem_pool_set_debug : ℕ → Pool → Pool
mem_pool_set_debug enabled p = record p { debug_mode = not (enabled == 0) }

pub mem_pool_set_protection : ℕ → Pool → Pool
mem_pool_set_protection enabled p = record p { protect_mode = not (enabled == 0) }

pub actual_size : Pool → Option ℕ → ℕ → ℕ
actual_size p none size = size
actual_size p (some i) size = (p.slab_classes i).block_size

-- A `size_t`.
pub total_size : Pool → ℕ → ℕ
total_size p actual = (blk_size + actual + (if p.protect_mode then 8 else 0)) % 2 ^ 64

pub pop_free : ℕ → Pool → List ℕ → Option ℕ × Pool
pop_free i p [] = (none, p)
pop_free i p (a ∷ rest) = (
  some a,
  record p {
    slab_classes = update p.slab_classes i (record (p.slab_classes i) { free_list = rest });
  },
)

-- The first block of the class's free list, if there is one.
pub take_free : Option ℕ → Pool → Option ℕ × Pool
unfolding pop_free
take_free none p = (none, p)
take_free (some i) p = pop_free i p (p.slab_classes i).free_list

-- What the header of a block holds when it is handed out, its last field not counted.
pub new_block : (raw room actual : ℕ) → Option (List ℕ) → Fresh → Pool → MemBlk
unfolding label_text
new_block raw room actual label f p = record {
  size = actual;
  freed = false;
  label = label_text label;
  real_ptr = raw;
  frames = if p.debug_mode then f.frames else 0;
  alloc_time = f.now;
  room = room;
}

-- The word `guard_head`, and then the tail word.
pub set_guards : (raw actual : ℕ) → Pool → ℕ → ℕ
set_guards raw actual p =
    let words = update p.words (guard_at raw) (if p.protect_mode then protect_magic else 0) in
    if p.protect_mode then update words (tail_at raw actual) tail_magic else words

-- The header, the two words and the place in the list of the blocks in use.
pub set_up : (raw room actual : ℕ) → Option (List ℕ) → Fresh → Pool → Pool
unfolding new_block set_guards
set_up raw room actual label f p = record p {
  blocks = update p.blocks raw (some (new_block raw room actual label f p));
  words = set_guards raw actual p;
  active_list = raw ∷ p.active_list;
}

-- With the answer of the free list; NULL is `none`.
pub finish_alloc : Option ℕ → ℕ → Option (List ℕ) → Fresh → Pool → Option ℕ × Pool
unfolding set_up total_size
finish_alloc (some raw) actual label f p =
    (some (raw + blk_size), set_up raw (room_of (p.blocks raw)) actual label f p)
finish_alloc none actual label f p =
    if f.raw == 0
    then (none, p)
    else (some (f.raw + blk_size), set_up f.raw (total_size p actual) actual label f p)

pub mem_pool_alloc_label : ℕ → Option (List ℕ) → Fresh → Pool → Option ℕ × Pool
unfolding find_slab_index actual_size take_free finish_alloc
mem_pool_alloc_label size label f p =
    let idx = find_slab_index p size in
    let taken = take_free idx p in finish_alloc taken.0 (actual_size p idx size) label f taken.1

pub mem_pool_alloc : ℕ → Fresh → Pool → Option ℕ × Pool
unfolding mem_pool_alloc_label
mem_pool_alloc size f p = mem_pool_alloc_label size none f p

pub data Freeing : Type 0 where
  done : Pool → Freeing
  aborts : Reason → Freeing
  -- there is no header in front of the pointer
  stray : Freeing

-- The block goes to the free list of its class, or back to the C library.
pub give_back : Option ℕ → ℕ → Pool → Pool
give_back none a p = record p { blocks = update p.blocks a none }
give_back (some i) a p = record p {
  slab_classes =
      update p.slab_classes i
        (record (p.slab_classes i) { free_list = a ∷ (p.slab_classes i).free_list });
}

-- The block is marked, taken out of the list of the blocks in use, and given back.
pub release : ℕ → MemBlk → Pool → Pool
unfolding unlink give_back find_slab_index
release a b p = give_back (find_slab_index p b.size) a (record p {
  blocks = update p.blocks a (some (record b { freed = true }));
  active_list = unlink a p.active_list;
})

pub free_block : ℕ → Pool → Option MemBlk → Freeing
unfolding release
free_block a p none = stray
free_block a p (some b) =
    if b.freed
    then aborts double_free
    else (if p.protect_mode && not (p.words (guard_at a) == protect_magic)
        then aborts underrun
        else (if p.protect_mode && not (p.words (tail_at a b.size) == tail_magic)
            then aborts overflow
            else done (release a b p)))

pub mem_pool_free : Option ℕ → Pool → Freeing
unfolding free_block
mem_pool_free none p = done p
mem_pool_free (some ptr) p = free_block (ptr - blk_size) p (p.blocks (ptr - blk_size))

-- The number and the size of the blocks in use.
pub mem_pool_dump_stats : Pool → ℕ × ℕ
unfolding live sum_sizes
mem_pool_dump_stats p = sum_sizes (live p.blocks p.active_list)

-- The leaks that are reported: pointer, size and label.
pub mem_pool_dump_leaks : Pool → List (ℕ × ℕ × List ℕ)
unfolding live leak_lines
mem_pool_dump_leaks p = leak_lines (live p.blocks p.active_list)
