-- ===== src/ServerPool/Whole.antt =====
-- The calls of 3.m_mem_pool/mem_pool.c that are about all blocks: the start, the end and the reports.
use learn_c.Common.{
  ℕ, zero, suc, ◌+◌, ◌*◌, ◌%◌, ◌^◌, true, false, Option, none, some, List, [], ◌∷◌, leb,
  if◌then◌else◌, update,
}
use learn_c.ServerPool.{
  MemBlk, SlabClass, Server, blk_size, max_slab_classes, slab_min_size, slab_max_size,
}

-- The headers of the blocks in use that are not marked as freed.
unfoldable pub live : (ℕ → Option MemBlk) → List ℕ → List (ℕ × MemBlk)
live blks [] = []
live blks (a ∷ as_) =
    let rest = live blks as_ in
    elim (blks a) [ none ↦ rest | some b ↦ if b.freed then rest else (a, b) ∷ rest ]

-- The two numbers of the statistics, `total` and `total_size`.
unfoldable pub sum_sizes : List (ℕ × MemBlk) → ℕ × ℕ
sum_sizes [] = (0, 0)
sum_sizes ((a, b) ∷ rest) = let r = sum_sizes rest in (r.0 + 1, (r.1 + b.size) % 2 ^ 64)

unfoldable pub mem_pool_dump_stats : Server → ℕ × ℕ
unfolding live sum_sizes
mem_pool_dump_stats s = sum_sizes (live s.blks s.active_list)

-- The leaks that are reported: pointer, size and label.
unfoldable pub leak_lines : List (ℕ × MemBlk) → List (ℕ × ℕ × List ℕ)
leak_lines [] = []
leak_lines ((a, b) ∷ rest) = (a + blk_size, b.size, b.label) ∷ leak_lines rest

unfoldable pub mem_pool_dump_leaks : Server → List (ℕ × ℕ × List ℕ)
unfolding live leak_lines
mem_pool_dump_leaks s = leak_lines (live s.blks s.active_list)

-- The classes from number `i` on, of which the first has the given size.
unfoldable pub init_loop : ℕ → ℕ → ℕ → ℕ × (ℕ → SlabClass) → ℕ × (ℕ → SlabClass)
init_loop i zero size acc = acc
init_loop i (suc n) size (cnt, slabs) = elim (leb size slab_max_size) [
  | true ↦
      init_loop (i + 1) n (size * 2)
        (cnt + 1, update slabs i (record { block_size = size; free_list = [] }))
  | false ↦ (cnt, slabs)
]

unfoldable pub mem_pool_init : (ℕ → Option MemBlk) → (ℕ → ℕ) → Server
unfolding init_loop
mem_pool_init blks words =
    let made =
      init_loop 0 max_slab_classes slab_min_size
        (0, λ _. record { block_size = 0; free_list = [] }) in
    record {
      slab_cls_cnt = made.0;
      slabs = made.1;
      active_list = [];
      debug_mode = false;
      protect_mode = true;
      blks = blks;
      words = words;
    }

-- Every block of a list goes back to the C library.
unfoldable pub drop_all : List ℕ → (ℕ → Option MemBlk) → ℕ → Option MemBlk
drop_all [] blks = blks
drop_all (a ∷ rest) blks = drop_all rest (update blks a none)

-- The free lists of `n` classes, from number `i` on.
unfoldable pub drop_classes : ℕ → ℕ → (ℕ → SlabClass) → (ℕ → Option MemBlk) → ℕ → Option MemBlk
unfolding drop_all
drop_classes i zero slabs blks = blks
drop_classes i (suc n) slabs blks = drop_classes (i + 1) n slabs (drop_all (slabs i).free_list blks)

-- The memory after it; the server itself is freed.
unfoldable pub mem_pool_destroy : Server → ℕ → Option MemBlk
unfolding drop_classes
mem_pool_destroy s = drop_all s.active_list (drop_classes 0 s.slab_cls_cnt s.slabs s.blks)
