-- ===== src/ServerPool.antt =====
-- 1.Demo/1.syntax_interface/15.memory_allocation/2.mem_pool_c/3.m_mem_pool/mem_pool.c: a pool with
-- labelled blocks, size classes, a list of the blocks in use and guard words. The header of a block
-- stands at the block's address, and a list that is linked by `next` is the list of the addresses in
-- it. The memory holds the headers by address and the 8-byte words by address; `guard_head`, the last
-- field of a header, is the word there that ends where the block begins. The calls are made one
-- after the other; what `malloc`, `time` and `backtrace` return is an argument of a call.
pub mod Whole
pub mod Classes
pub mod Ownership
pub mod Allocating
pub mod Releasing
pub mod Reach
pub mod Calls
pub mod Guards
pub mod Report
pub mod Listing
mod Tests
use learn_c.Common.{
  ℕ, zero, suc, ◌+◌, ◌-◌, ◌*◌, ◌%◌, ◌^◌, Bool, true, false, not, ◌&&◌, ◌||◌, Option, none, some,
  List, [], ◌∷◌, ◌++◌, ◌==◌, leb, if◌then◌else◌, update, length, take,
}

-- `room` is what `malloc` was asked for.
pub record MemBlk : Type 0 where
  pub size : ℕ
  pub freed : Bool
  pub label : List ℕ
  pub real_ptr : ℕ
  pub frames : ℕ
  pub alloc_time : ℕ
  pub room : ℕ

pub record SlabClass : Type 0 where
  pub block_size : ℕ
  pub free_list : List ℕ

-- `mem_pool_srv`, and the memory.
pub record Server : Type 0 where
  pub slab_cls_cnt : ℕ
  pub slabs : ℕ → SlabClass
  pub active_list : List ℕ
  pub debug_mode : Bool
  pub protect_mode : Bool
  pub blks : ℕ → Option MemBlk
  pub words : ℕ → ℕ

-- What the C library returns in one call of `mem_pool_alloc_label`.
pub record Fresh : Type 0 where
  pub raw : ℕ
  pub now : ℕ
  pub frames : ℕ

abbrev pub protect_magic : ℕ
protect_magic = 0xDEADC0DEDEADC0DE

abbrev pub tail_magic : ℕ
tail_magic = 0xCAFEBABECAFEBABE

abbrev pub max_label_len : ℕ
max_label_len = 32

abbrev pub max_slab_classes : ℕ
max_slab_classes = 32

abbrev pub slab_min_size : ℕ
slab_min_size = 8

abbrev pub slab_max_size : ℕ
slab_max_size = 8192

-- `sizeof(mem_blk)` where pointers, `size_t` and `time_t` have 8 bytes and `int` has 4.
abbrev pub blk_size : ℕ
blk_size = 216

-- `n` classes are left to be tried, and the next is number `i`.
unfoldable pub index_from : ℕ → ℕ → (ℕ → SlabClass) → ℕ → Option ℕ
index_from i zero slabs size = none
index_from i (suc n) slabs size =
    let rest = index_from (i + 1) n slabs size in
    if leb size (slabs i).block_size then some i else rest

-- `none` is the -1 of the code.
unfoldable pub find_slab_index : Server → ℕ → Option ℕ
unfolding index_from
find_slab_index s size = index_from 0 s.slab_cls_cnt s.slabs size

unfoldable pub mem_pool_set_debug : ℕ → Server → Server
mem_pool_set_debug enabled s = record s { debug_mode = not (enabled == 0) }

unfoldable pub mem_pool_set_protection : ℕ → Server → Server
mem_pool_set_protection enabled s = record s { protect_mode = not (enabled == 0) }

-- The text "unknown".
abbrev pub unknown : List ℕ
unknown = b'u' ∷ b'n' ∷ b'k' ∷ b'n' ∷ b'o' ∷ b'w' ∷ b'n' ∷ []

-- `strncpy` of 32 bytes, the last of which is then set to zero.
unfoldable pub label_text : Option (List ℕ) → List ℕ
label_text none = take (max_label_len - 1) unknown
label_text (some text) = take (max_label_len - 1) text

-- `actual_size`.
unfoldable pub actual_size : Server → Option ℕ → ℕ → ℕ
actual_size s none size = size
actual_size s (some i) size = (s.slabs i).block_size

-- `total_size`, a `size_t`.
unfoldable pub total_size : Server → ℕ → ℕ
total_size s actual = (blk_size + actual + (if s.protect_mode then 8 else 0)) % 2 ^ 64

unfoldable pub pop_free : ℕ → Server → List ℕ → Option ℕ × Server
pop_free i s [] = (none, s)
pop_free i s (a ∷ rest) =
    (some a, record s { slabs = update s.slabs i (record (s.slabs i) { free_list = rest }) })

-- The first block of the class's free list, if there is one.
unfoldable pub take_free : Option ℕ → Server → Option ℕ × Server
unfolding pop_free
take_free none s = (none, s)
take_free (some i) s = pop_free i s (s.slabs i).free_list

-- The room behind an address: that of the block there before, or what `malloc` was just asked for.
abbrev pub room_of : Option MemBlk → ℕ
room_of none = 0
room_of (some b) = b.room

-- What the header of a block holds when it is handed out, its last field not counted.
unfoldable pub new_blk : (raw room actual : ℕ) → Option (List ℕ) → Fresh → Server → MemBlk
unfolding label_text
new_blk raw room actual label f s = record {
  size = actual;
  freed = false;
  label = label_text label;
  real_ptr = raw;
  frames = if s.debug_mode then f.frames else 0;
  alloc_time = f.now;
  room = room;
}

abbrev pub guard_at : ℕ → ℕ
guard_at a = a + blk_size - 8

abbrev pub tail_at : (a size : ℕ) → ℕ
tail_at a size = a + blk_size + size - 8

-- The word `guard_head`, and then the tail word.
unfoldable pub set_guards : (raw actual : ℕ) → Server → ℕ → ℕ
set_guards raw actual s =
    let words = update s.words (guard_at raw) (if s.protect_mode then protect_magic else 0) in
    if s.protect_mode then update words (tail_at raw actual) tail_magic else words

-- The header, the two words and the place in the list of the blocks in use.
unfoldable pub set_up : (raw room actual : ℕ) → Option (List ℕ) → Fresh → Server → Server
unfolding new_blk set_guards
set_up raw room actual label f s = record s {
  blks = update s.blks raw (some (new_blk raw room actual label f s));
  words = set_guards raw actual s;
  active_list = raw ∷ s.active_list;
}

-- With the answer of the free list; NULL is `none`.
unfoldable pub finish_alloc : Option ℕ → ℕ → Option (List ℕ) → Fresh → Server → Option ℕ × Server
unfolding set_up total_size
finish_alloc (some raw) actual label f s =
    (some (raw + blk_size), set_up raw (room_of (s.blks raw)) actual label f s)
finish_alloc none actual label f s =
    if f.raw == 0
    then (none, s)
    else (some (f.raw + blk_size), set_up f.raw (total_size s actual) actual label f s)

unfoldable pub mem_pool_alloc_label : ℕ → Option (List ℕ) → Fresh → Server → Option ℕ × Server
unfolding find_slab_index actual_size take_free finish_alloc
mem_pool_alloc_label size label f s =
    let idx = find_slab_index s size in
    let taken = take_free idx s in finish_alloc taken.0 (actual_size s idx size) label f taken.1

pub mem_pool_alloc : ℕ → Fresh → Server → Option ℕ × Server
unfolding mem_pool_alloc_label
mem_pool_alloc size f s = mem_pool_alloc_label size none f s

-- Why `mem_pool_free` calls `abort`.
pub data Reason : Type 0 where
  double_free underrun overflow : Reason

pub data Freeing : Type 0 where
  done : Server → Freeing
  aborts : Reason → Freeing
  -- there is no header in front of the pointer
  stray : Freeing

-- The walk along the links to the block, which is then taken out.
unfoldable pub unlink : ℕ → List ℕ → List ℕ
unlink a [] = []
unlink a (x ∷ xs) = let rest = unlink a xs in if x == a then xs else x ∷ rest

-- The block goes to the free list of its class, or back to the C library.
unfoldable pub give_back : Option ℕ → ℕ → Server → Server
give_back none a s = record s { blks = update s.blks a none }
give_back (some i) a s = record s {
  slabs = update s.slabs i (record (s.slabs i) { free_list = a ∷ (s.slabs i).free_list });
}

-- The block is marked, taken out of the list of the blocks in use, and given back.
unfoldable pub release : ℕ → MemBlk → Server → Server
unfolding unlink give_back find_slab_index
release a b s = give_back (find_slab_index s b.size) a (record s {
  blks = update s.blks a (some (record b { freed = true }));
  active_list = unlink a s.active_list;
})

unfoldable pub free_blk : ℕ → Server → Option MemBlk → Freeing
unfolding release
free_blk a s none = stray
free_blk a s (some b) =
    if b.freed
    then aborts double_free
    else (if s.protect_mode && not (s.words (guard_at a) == protect_magic)
        then aborts underrun
        else (if s.protect_mode && not (s.words (tail_at a b.size) == tail_magic)
            then aborts overflow
            else done (release a b s)))

unfoldable pub mem_pool_free : Option ℕ → Server → Freeing
unfolding free_blk
mem_pool_free none s = done s
mem_pool_free (some ptr) s = free_blk (ptr - blk_size) s (s.blks (ptr - blk_size))
