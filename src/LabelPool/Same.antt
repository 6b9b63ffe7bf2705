-- ===== src/LabelPool/Same.antt =====
-- The calls of 2.upgrade/mem_pool.c against those of 3.m_mem_pool/mem_pool.c.
use learn_c.Common.{
  Bool, true, false, ℕ, zero, suc, ◌+◌, ◌-◌, ◌≡◌, refl, Option, none, some, List, [], ◌∷◌,
  if◌then◌else◌, Bool-cases, ◌==◌, inl, inr,
}
use learn_c.ServerPool.{Server, SlabClass, MemBlk, Fresh}
use learn_c.ServerPool
use learn_c.ServerPool.Whole
use learn_c.LabelPool.{
  Pool, Freeing, done, aborts, stray, index_from, find_slab_index, actual_size, total_size,
  pop_free, take_free, new_block, set_guards, set_up, finish_alloc, mem_pool_alloc_label, give_back,
  release, free_block, mem_pool_free, mem_pool_dump_stats, mem_pool_dump_leaks, mem_pool_destroy,
}

-- The server with the same classes, lists, modes and memory.
abbrev pub to_server : Pool → Server
to_server p = record {
  slab_cls_cnt = p.slab_class_count;
  slabs = p.slab_classes;
  active_list = p.active_list;
  debug_mode = p.debug_mode;
  protect_mode = p.protect_mode;
  blks = p.blocks;
  words = p.words;
}

abbrev pub answer : Option ℕ × Pool → Option ℕ × Server
answer r = (r.0, to_server r.1)

abbrev pub outcome : Freeing → ServerPool.Freeing
outcome (done p) = ServerPool.done (to_server p)
outcome (aborts r) = ServerPool.aborts r
outcome stray = ServerPool.stray

-- The two places of the size of a class agree.
abbrev pub IsSized : Pool → Type 0
IsSized p = (i : ℕ) → p.slab_sizes i ≡ (p.slab_classes i).block_size

index_from-same :
    (n i size : ℕ) (p : Pool)
    → IsSized p
    → index_from i n p.slab_sizes size ≡ ServerPool.index_from i n p.slab_classes size
unfolding index_from ServerPool.index_from
index_from-same zero i size p h = refl
index_from-same (suc n) i size p h = rw (h i, index_from-same n (i + 1) size p h)

pub find-same :
    (p : Pool) (size : ℕ)
    → IsSized p
    → find_slab_index p size ≡ ServerPool.find_slab_index (to_server p) size
unfolding find_slab_index ServerPool.find_slab_index
find-same p size h = index_from-same p.slab_class_count 0 size p h

actual-same :
    (p : Pool) (idx : Option ℕ) (size : ℕ)
    → actual_size p idx size ≡ ServerPool.actual_size (to_server p) idx size
unfolding actual_size ServerPool.actual_size
actual-same p none size = refl
actual-same p (some i) size = refl

pop-same :
    (i : ℕ) (p : Pool) (l : List ℕ)
    → answer (pop_free i p l) ≡ ServerPool.pop_free i (to_server p) l
unfolding pop_free ServerPool.pop_free
pop-same i p [] = refl
pop-same i p (a ∷ l) = refl

take-same :
    (idx : Option ℕ) (p : Pool) → answer (take_free idx p) ≡ ServerPool.take_free idx (to_server p)
unfolding take_free ServerPool.take_free
take-same none p = refl
take-same (some i) p = pop-same i p (p.slab_classes i).free_list

finish-same :
    (o : Option ℕ) (actual : ℕ) (label : Option (List ℕ)) (f : Fresh) (p : Pool)
    → answer (finish_alloc o actual label f p)
      ≡ ServerPool.finish_alloc o actual label f (to_server p)
unfolding finish_alloc set_up set_guards new_block total_size ServerPool.finish_alloc
    ServerPool.set_up ServerPool.set_guards ServerPool.new_blk ServerPool.total_size
finish-same (some raw) actual label f p = refl
finish-same none actual label f p = elim (Bool-cases (f.raw == 0)) [
  | inl e ↦ rw e refl
  | inr e ↦ rw e refl
]

give-same :
    (idx : Option ℕ) (a : ℕ) (p : Pool)
    → to_server (give_back idx a p) ≡ ServerPool.give_back idx a (to_server p)
unfolding give_back ServerPool.give_back
give-same none a p = refl
give-same (some i) a p = refl

release-same :
    (a : ℕ) (b : MemBlk) (p : Pool)
    → IsSized p
    → to_server (release a b p) ≡ ServerPool.release a b (to_server p)
unfolding release ServerPool.release
release-same a b p h = rw (give-same, find-same p b.size h)

outcome_if :
    (c : Bool) (x y : Freeing) → outcome (if c then x else y) ≡ (if c then outcome x else outcome y)
outcome_if true x y = refl
outcome_if false x y = refl

free_block-same :
    (a : ℕ) (p : Pool) (o : Option MemBlk)
    → IsSized p
    → outcome (free_block a p o) ≡ ServerPool.free_blk a (to_server p) o
unfolding free_block ServerPool.free_blk
free_block-same a p none h = refl
free_block-same a p (some b) h = rw (outcome_if, outcome_if, outcome_if, release-same a b p h) refl

alloc_at :
    (idx : Option ℕ) (size : ℕ) (label : Option (List ℕ)) (f : Fresh) (p : Pool)
    → answer (finish_alloc (take_free idx p).0 (actual_size p idx size) label f (take_free idx p).1)
      ≡ ServerPool.finish_alloc
          (ServerPool.take_free idx (to_server p)).0
          (ServerPool.actual_size (to_server p) idx size)
          label
          f
          (ServerPool.take_free idx (to_server p)).1
alloc_at idx size label f p = rw (finish-same, actual-same, ← take-same) refl

pub alloc-same :
    (size : ℕ) (label : Option (List ℕ)) (f : Fresh) (p : Pool)
    → IsSized p
    → answer (mem_pool_alloc_label size label f p)
      ≡ ServerPool.mem_pool_alloc_label size label f (to_server p)
unfolding mem_pool_alloc_label ServerPool.mem_pool_alloc_label
alloc-same size label f p h = rw (alloc_at, find-same p size h) refl

pub free-same :
    (ptr : Option ℕ) (p : Pool)
    → IsSized p
    → outcome (mem_pool_free ptr p) ≡ ServerPool.mem_pool_free ptr (to_server p)
unfolding mem_pool_free ServerPool.mem_pool_free
free-same none p h = refl
free-same (some ptr) p h = free_block-same (ptr - ServerPool.blk_size) p _ h

pub destroy-same : (p : Pool) → (mem_pool_destroy p).blocks ≡ Whole.mem_pool_destroy (to_server p)
unfolding mem_pool_destroy Whole.mem_pool_destroy
destroy-same p = refl

-- In a pool whose two arrays of sizes agree, each call gives the answer that the call of
-- 3.m_mem_pool gives, and leaves the same state: mem_pool_alloc_label, mem_pool_free with its
-- complaints, and the two reports; and mem_pool_destroy gives the same blocks back.
pub calls-same :
    (size : ℕ) (label : Option (List ℕ)) (f : Fresh) (ptr : Option ℕ) (p : Pool)
    → IsSized p
    → (answer (mem_pool_alloc_label size label f p)
        ≡ ServerPool.mem_pool_alloc_label size label f (to_server p))
      × (outcome (mem_pool_free ptr p) ≡ ServerPool.mem_pool_free ptr (to_server p))
      × (mem_pool_dump_stats p ≡ Whole.mem_pool_dump_stats (to_server p))
      × (mem_pool_dump_leaks p ≡ Whole.mem_pool_dump_leaks (to_server p))
      × ((mem_pool_destroy p).blocks ≡ Whole.mem_pool_destroy (to_server p))
unfolding mem_pool_dump_stats mem_pool_dump_leaks Whole.mem_pool_dump_stats
    Whole.mem_pool_dump_leaks
calls-same size label f ptr p h =
    (alloc-same size label f p h, free-same ptr p h, refl, refl, destroy-same p)
