-- ===== src/LabelPool/Reach.antt =====
-- The states of 2.upgrade/mem_pool.c that callers can reach after `mem_pool_init`.
use learn_c.Common.{
  ℕ, zero, suc, ◌+◌, ◌*◌, ◌^◌, ◌<◌, ◌≡◌, refl, Option, none, some, List, [], ◌∷◌, leb, update, ap,
  arith, Bool-cases, ◌==◌, inl, inr, sym, ◌∙◌, subst,
}
use learn_c.ServerPool.{Server, SlabClass, MemBlk, Fresh, slab_max_size, blk_size}
use learn_c.ServerPool
use learn_c.ServerPool.Whole
use learn_c.ServerPool.Allocating.{IsNew}
use learn_c.ServerPool.Ownership.{IsOwned}
use learn_c.ServerPool.Reach as Served
use learn_c.ServerPool.Reach.{Reach-IsOwned}
use learn_c.LabelPool.{
  Pool, done, statics, init_class, init_loop, mem_pool_init, pop_free, take_free, set_up,
  finish_alloc, mem_pool_alloc_label, give_back, release, free_block, mem_pool_free,
  mem_pool_set_debug, mem_pool_set_protection,
}
use learn_c.LabelPool.Same.{to_server, outcome, IsSized, alloc-same, free-same}

init_class-IsSized : (i size : ℕ) (p : Pool) → IsSized p → IsSized (init_class i size p)
unfolding init_class
init_class-IsSized i size p h j = elim (Bool-cases (j == i)) [
  | inl e ↦ rw e refl
  | inr e ↦ rw e (h j)
]

init_loop-IsSized : (n i size : ℕ) (p : Pool) → IsSized p → IsSized (init_loop i n size p)
unfolding init_loop
init_loop-IsSized zero i size p h = h
init_loop-IsSized (suc n) i size p h = elim (Bool-cases (leb size slab_max_size)) [
  | inl e ↦
      rw (init_loop, e) (init_loop-IsSized n (i + 1) (size * 2) _ (init_class-IsSized i size p h))
  | inr e ↦ rw (init_loop, e) h
]

-- A new free list of a class leaves the sizes.
list-IsSized :
    (i : ℕ) (l : List ℕ) (p : Pool)
    → IsSized p
    → (j : ℕ)
    → p.slab_sizes j
      ≡ (update p.slab_classes i (record (p.slab_classes i) { free_list = l }) j).block_size
list-IsSized i l p h j = elim (Bool-cases (j == i)) [
  | inl e ↦ let k : j ≡ i = ground arith in rw (e, ← k) (h j)
  | inr e ↦ rw e (h j)
]

pop_free-IsSized : (i : ℕ) (p : Pool) (l : List ℕ) → IsSized p → IsSized (pop_free i p l).1
unfolding pop_free
pop_free-IsSized i p [] h = h
pop_free-IsSized i p (a ∷ l) h = list-IsSized i l p h

take_free-IsSized : (idx : Option ℕ) (p : Pool) → IsSized p → IsSized (take_free idx p).1
unfolding take_free
take_free-IsSized none p h = h
take_free-IsSized (some i) p h = pop_free-IsSized i p _ h

finish_alloc-IsSized :
    (o : Option ℕ) (actual : ℕ) (label : Option (List ℕ)) (f : Fresh) (p : Pool)
    → IsSized p
    → IsSized (finish_alloc o actual label f p).1
unfolding finish_alloc set_up
finish_alloc-IsSized (some raw) actual label f p h = h
finish_alloc-IsSized none actual label f p h = elim (Bool-cases (f.raw == 0)) [
  | inl e ↦ rw e h
  | inr e ↦ rw e h
]

alloc-IsSized :
    (size : ℕ) (label : Option (List ℕ)) (f : Fresh) (p : Pool)
    → IsSized p
    → IsSized (mem_pool_alloc_label size label f p).1
unfolding mem_pool_alloc_label
alloc-IsSized size label f p h = finish_alloc-IsSized _ _ label f _ (take_free-IsSized _ p h)

give_back-IsSized : (idx : Option ℕ) (a : ℕ) (p : Pool) → IsSized p → IsSized (give_back idx a p)
unfolding give_back
give_back-IsSized none a p h = h
give_back-IsSized (some i) a p h = list-IsSized i _ p h

free_block-IsSized :
    (a : ℕ) (p t : Pool) (o : Option MemBlk) → IsSized p → free_block a p o ≡ done t → IsSized t
unfolding free_block
free_block-IsSized a p t none h e = absurd (cc)
free_block-IsSized a p t (some b) h e =
    let r : IsSized (release a b p) = give_back-IsSized _ a _ h in ground arith

free-IsSized : (ptr : Option ℕ) (p t : Pool) → IsSized p → mem_pool_free ptr p ≡ done t → IsSized t
unfolding mem_pool_free
free-IsSized none p t h e = let k : p ≡ t = ground arith in subst IsSized k h
free-IsSized (some a) p t h e = free_block-IsSized _ p t _ h e

init-same :
    (blocks : ℕ → Option MemBlk) (words : ℕ → ℕ)
    → to_server (mem_pool_init (statics blocks words)) ≡ Whole.mem_pool_init blocks words
unfolding mem_pool_init init_loop init_class Whole.mem_pool_init Whole.init_loop
init-same blocks words = refl

-- What callers can reach after one `mem_pool_init` and before `mem_pool_destroy`, with sizes for which
-- `total_size` does not wrap: they call the functions, and write any words, of which the last word of
-- a header is one, but no other field of a header.
pub data Reach (blocks : ℕ → Option MemBlk) (words : ℕ → ℕ) : Pool → Type 0 where
  initial : Reach blocks words (mem_pool_init (statics blocks words))
  allocates :
      (size : ℕ) (label : Option (List ℕ)) (f : Fresh) {p : Pool}
      → Reach blocks words p
      → size < 2 ^ 63
      → IsNew f (to_server p)
      → Reach blocks words (mem_pool_alloc_label size label f p).1
  frees :
      (ptr : Option ℕ) {p t : Pool}
      → Reach blocks words p
      → mem_pool_free ptr p ≡ done t
      → Reach blocks words t
  writes :
      (w : ℕ → ℕ) {p : Pool} → Reach blocks words p → Reach blocks words (record p { words = w })
  sets_debug :
      (n : ℕ) {p : Pool} → Reach blocks words p → Reach blocks words (mem_pool_set_debug n p)
  sets_protection :
      (n : ℕ) {p : Pool} → Reach blocks words p → Reach blocks words (mem_pool_set_protection n p)

Reach-IsSized :
    {blocks : ℕ → Option MemBlk} {words : ℕ → ℕ} {p : Pool} → Reach blocks words p → IsSized p
unfolding mem_pool_set_debug mem_pool_set_protection mem_pool_init
Reach-IsSized {blocks = b} {words = w} initial = init_loop-IsSized 32 0 8 (statics b w) (λ i. refl)
Reach-IsSized (allocates size label f r small new) = alloc-IsSized size label f _ (Reach-IsSized r)
Reach-IsSized (frees ptr r e) = free-IsSized ptr _ _ (Reach-IsSized r) e
Reach-IsSized (writes w r) = Reach-IsSized r
Reach-IsSized (sets_debug n r) = Reach-IsSized r
Reach-IsSized (sets_protection n r) = Reach-IsSized r

-- What callers can reach, callers of 3.m_mem_pool reach by the same calls.
pub Reach-to_server :
    {blocks : ℕ → Option MemBlk} {words : ℕ → ℕ} {p : Pool}
    → Reach blocks words p
    → Served.Reach blocks words (to_server p)
unfolding mem_pool_set_debug mem_pool_set_protection ServerPool.mem_pool_set_debug
    ServerPool.mem_pool_set_protection
Reach-to_server {blocks = b} {words = w} initial =
    subst (Served.Reach b w) (sym (init-same b w)) Served.initial
Reach-to_server {blocks = b} {words = w} (allocates size label f {p = p} r small new) =
    subst (Served.Reach b w)
      (sym (ap (λ (x : Option ℕ × Server). x.1) (alloc-same size label f p (Reach-IsSized r))))
      (Served.allocates size label f (Reach-to_server r) small new)
Reach-to_server (frees ptr {p = p} r e) =
    Served.frees ptr (Reach-to_server r) (sym (free-same ptr p (Reach-IsSized r)) ∙ ap outcome e)
Reach-to_server (writes w r) = Served.writes w (Reach-to_server r)
Reach-to_server (sets_debug n r) = Served.sets_debug n (Reach-to_server r)
Reach-to_server (sets_protection n r) = Served.sets_protection n (Reach-to_server r)

-- If no header was in memory before, then in every state that is reached from one call of
-- mem_pool_init by calls of mem_pool_alloc_label with sizes below 2^63, for which malloc returns
-- memory that no header is in, of mem_pool_free, mem_pool_set_debug and mem_pool_set_protection,
-- and by writes of words outside the headers' other fields, before any call of mem_pool_destroy
-- and with no second mem_pool_init: the two arrays of sizes agree, and each address is that of a
-- block in use, once in the list of those, or that of a free block, once in the free list of its
-- class, or of no block.
pub Reach-IsSized-IsOwned :
    {blocks : ℕ → Option MemBlk} {words : ℕ → ℕ} {p : Pool}
    → ((a : ℕ) → blocks a ≡ none)
    → Reach blocks words p
    → IsSized p × IsOwned (to_server p)
Reach-IsSized-IsOwned empty r = (Reach-IsSized r, Reach-IsOwned empty (Reach-to_server r))
