-- ===== src/BasePool/Everywhere.antt =====
-- Sums over all blocks of 1.base/mem_pool.c, and how the calls change them.
use learn_c.Common.{
  ℕ, ◌+◌, ◌%◌, ◌^◌, ◌≤◌, ◌<◌, ◌≡◌, refl, Option, none, some, [], ◌∷◌, ◌++◌, arith, update, ap, ◌∙◌,
}
use learn_c.BasePool.{
  Block, Slab, Pool, Fresh, slab_count, slab_index, count_new, new_block, retire, find_ptr,
  remove_active, listed,
}
use learn_c.BasePool.Array.{sum_by, addr_is, sum-append, sum-remove_active, sum-listed-update}
use learn_c.BasePool.Outcome.{Reused, Created}
use learn_c.BasePool.Counts.{slab_index-lt}

-- The sum over all blocks, in use or free.
abbrev pub everywhere : (Block → ℕ) → Pool → ℕ
everywhere w p = sum_by w p.active_blocks + sum_by w (listed 0 slab_count p.slabs)

module _ (w : Block → ℕ) (p : Pool) where
  -- A change of one class's list of free blocks.
  pub listed-update :
      (j : ℕ) (new : Slab)
      → j < 8
      → sum_by w (listed 0 slab_count (update p.slabs j new)) + sum_by w (p.slabs j).free_list
        ≡ sum_by w (listed 0 slab_count p.slabs) + sum_by w new.free_list
  listed-update j new lt =
      sum-listed-update w p.slabs j new 0 slab_count (omega arith) (omega arith)

  module _ (size : ℕ) (f : Fresh) (b : Block) (q : Pool)
      (stable : (c : Block) (n : ℕ) → w (record c { bt_size = n }) ≡ w c) where
    added :
        q.active_blocks ≡ p.active_blocks ++ (b ∷ [])
        → sum_by w q.active_blocks ≡ sum_by w p.active_blocks + w b
    unfolding sum_by
    added e = ap (sum_by w) e ∙ sum-append w p.active_blocks (b ∷ []) ∙ omega arith

    pub everywhere-Reused : Reused size f p b q → everywhere w q ≡ everywhere w p
    unfolding sum_by
    everywhere-Reused r =
        let new : Slab = record (p.slabs r.class) {
          free_list = r.rest;
          in_use = ((p.slabs r.class).in_use + 1) % 2 ^ 64;
        } in
        omega (
          arith,
          added r.active,
          ap (λ s. sum_by w (listed 0 slab_count s)) r.slabs,
          listed-update r.class new (slab_index-lt size r.class r.index),
          ap (sum_by w) r.head,
          ap w r.block,
          stable r.old f.frames,
        )

    listed-count_new :
        (idx : Option ℕ)
        → slab_index size ≡ idx
        → sum_by w (listed 0 slab_count (count_new idx p.slabs))
          ≡ sum_by w (listed 0 slab_count p.slabs)
    unfolding count_new
    listed-count_new none e = refl
    listed-count_new (some j) e = omega (
      arith,
      listed-update j (record (p.slabs j) { total = ((p.slabs j).total + 1) % 2 ^ 64 })
          (slab_index-lt size j e),
    )

    pub everywhere-Created :
        Created size f p b q → everywhere w q ≡ everywhere w p + w (new_block size f)
    everywhere-Created r = omega (
      arith,
      added r.active,
      ap (λ s. sum_by w (listed 0 slab_count s)) r.slabs,
      listed-count_new (slab_index size) refl,
      ap w r.block,
      stable (new_block size f) f.frames,
    )

  -- A block that leaves the array goes to a free list, or away.
  module _ (ptr : ℕ) (b : Block) (found : find_ptr ptr p.active_blocks ≡ some b)
      (once : sum_by (addr_is b.addr) p.active_blocks ≤ 1) where
    pub everywhere-retire :
        (idx : Option ℕ)
        → slab_index b.size ≡ idx
        → everywhere w (retire idx b (record p { active_blocks = remove_active b p.active_blocks }))
          ≤ everywhere w p
    unfolding retire sum_by
    everywhere-retire none e = omega (arith, sum-remove_active w ptr p.active_blocks b found once)
    everywhere-retire (some j) e = omega (
      arith,
      sum-remove_active w ptr p.active_blocks b found once,
      listed-update j _ (slab_index-lt b.size j e),
    )
