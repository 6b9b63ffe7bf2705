-- ===== src/LabelPool/Destroy.antt =====
-- What mem_pool_destroy of 2.upgrade/mem_pool.c gives back, and what stays behind.
use learn_c.Common.{ℕ, ◌+◌, ◌≡◌, refl, Option, none, some, List, ◌∷◌, ap, ◌∙◌}
use learn_c.ServerPool.{MemBlk, Fresh, blk_size}
use learn_c.ServerPool.Report.{destroy-none}
use learn_c.LabelPool.{
  Pool, find_slab_index, mem_pool_alloc_label, mem_pool_destroy, take_free, pop_free, finish_alloc,
}
use learn_c.LabelPool.Same.{destroy-same, to_server}
use learn_c.LabelPool.Reach.{Reach, Reach-IsSized-IsOwned}

pop_free-head :
    (i : ℕ) (p : Pool) (l : List ℕ) {a : ℕ} {rest : List ℕ}
    → l ≡ a ∷ rest
    → (pop_free i p l).0 ≡ some a
unfolding pop_free
pop_free-head i p l h = rw h refl

finish_alloc-given :
    (o : Option ℕ) (actual : ℕ) (label : Option (List ℕ)) (f : Fresh) (p : Pool) {a : ℕ}
    → o ≡ some a
    → (finish_alloc o actual label f p).0 ≡ some (a + blk_size)
unfolding finish_alloc
finish_alloc-given o actual label f p h = rw h refl

-- If no header was in memory before, then after mem_pool_destroy of a pool that callers can reach,
-- the first free block of a class has been given back to the C library, and yet the next request
-- of the class is answered with its address.
pub destroy_then_label :
    {blocks : ℕ → Option MemBlk} {words : ℕ → ℕ} {p : Pool} (size i a : ℕ) (rest : List ℕ)
    (label : Option (List ℕ)) (f : Fresh)
    → ((b : ℕ) → blocks b ≡ none)
    → Reach blocks words p
    → find_slab_index p size ≡ some i
    → (p.slab_classes i).free_list ≡ a ∷ rest
    → ((mem_pool_destroy p).blocks a ≡ none)
      × ((mem_pool_alloc_label size label f (mem_pool_destroy p)).0 ≡ some (a + blk_size))
unfolding mem_pool_alloc_label find_slab_index take_free mem_pool_destroy
destroy_then_label {p = p} size i a rest label f empty r at free =
    let v = Reach-IsSized-IsOwned empty r in
    (
      ap (λ (m : ℕ → Option MemBlk). m a) (destroy-same p) ∙ destroy-none (to_server p) v.1 a,
      finish_alloc-given _ _ label f _ (rw at (pop_free-head i _ _ free)),
    )
