-- ===== src/ServerPool/Reach.antt =====
-- The states of 3.m_mem_pool/mem_pool.c that callers can reach before its end.

use learn_c.Common.{
  count, ℕ, ◌-◌, ◌^◌, ◌<◌, ◌≡◌, refl, false, Option, none, some, List, arith, ap, subst,
}
use learn_c.ServerPool.{
  SlabClass, Server, MemBlk, Fresh, done, blk_size, mem_pool_alloc_label, release, free_blk,
  mem_pool_free, mem_pool_set_debug, mem_pool_set_protection,
}
use learn_c.ServerPool.Whole.{mem_pool_init}
use learn_c.ServerPool.Classes.{mem_pool_init-HasClasses, mem_pool_init-sized}
use learn_c.ServerPool.Ownership.{Placed, free_count, IsOwned}
use learn_c.ServerPool.Allocating.{IsNew, alloc-IsOwned}
use learn_c.ServerPool.Releasing.{release-IsOwned}

-- A call that returns had a pointer behind a header that was not marked as freed.
pub done-release :
    (a : ℕ) (s t : Server) (o : Option MemBlk)
    → free_blk a s o ≡ done t
    → (b : MemBlk) × (o ≡ some b) × (b.freed ≡ false) × (t ≡ release a b s)
unfolding free_blk
done-release a s t none h = ground arith
done-release a s t (some b) h = (b, refl, ground arith, ground arith)

pub free-IsOwned :
    (ptr : Option ℕ) (s t : Server) → IsOwned s → mem_pool_free ptr s ≡ done t → IsOwned t
unfolding mem_pool_free
free-IsOwned none s t v h = let e : s ≡ t = ground arith in subst IsOwned e v
free-IsOwned (some p) s t v h =
    let (b, at, used, e) = done-release (p - blk_size) s t (s.blks (p - blk_size)) h in
    rw e (release-IsOwned (p - blk_size) b s v at used)

-- What callers can reach after one `mem_pool_init` and before `mem_pool_destroy`, with sizes for which
-- `total_size` does not wrap: they call the functions, and write any words, of which the last word of
-- a header is one, but no other field of a header.
pub data Reach (blks : ℕ → Option MemBlk) (words : ℕ → ℕ) : Server → Type 0 where
  initial : Reach blks words (mem_pool_init blks words)
  allocates :
      (size : ℕ) (label : Option (List ℕ)) (f : Fresh) {s : Server}
      → Reach blks words s
      → size < 2 ^ 63
      → IsNew f s
      → Reach blks words (mem_pool_alloc_label size label f s).1
  frees :
      (ptr : Option ℕ) {s t : Server}
      → Reach blks words s
      → mem_pool_free ptr s ≡ done t
      → Reach blks words t
  writes : (w : ℕ → ℕ) {s : Server} → Reach blks words s → Reach blks words (record s { words = w })
  sets_debug : (n : ℕ) {s : Server} → Reach blks words s → Reach blks words (mem_pool_set_debug n s)
  sets_protection :
      (n : ℕ) {s : Server} → Reach blks words s → Reach blks words (mem_pool_set_protection n s)

init-free :
    (blks : ℕ → Option MemBlk) (words : ℕ → ℕ) (a j : ℕ)
    → free_count (mem_pool_init blks words) a j ≡ 0
init-free blks words a j =
    ap (λ (c : SlabClass). count a c.free_list) (mem_pool_init-sized blks words j)

init-Placed :
    (blks : ℕ → Option MemBlk) (words : ℕ → ℕ)
    → ((a : ℕ) → blks a ≡ none)
    → (a : ℕ)
    → Placed
        (count a (mem_pool_init blks words).active_list)
        (free_count (mem_pool_init blks words) a)
        a
        ((mem_pool_init blks words).blks a)
unfolding mem_pool_init
init-Placed blks words empty a = rw (empty a) (refl, init-free blks words a)

-- If no header was in memory before, then in every state that is reached from mem_pool_init by
-- calls of mem_pool_alloc_label with sizes below 2^63, for which malloc returns memory that no
-- header is in, of mem_pool_free, mem_pool_set_debug and mem_pool_set_protection, and by writes
-- of words outside the headers' other fields, before any call of mem_pool_destroy: each address
-- is that of a block in use, once in the list of those, or that of a free block, once in the
-- free list of its class, or of no block.
pub Reach-IsOwned :
    {blks : ℕ → Option MemBlk} {words : ℕ → ℕ} {s : Server}
    → ((a : ℕ) → blks a ≡ none)
    → Reach blks words s
    → IsOwned s
unfolding mem_pool_set_debug mem_pool_set_protection
Reach-IsOwned empty initial = record {
  classes = mem_pool_init-HasClasses _ _;
  placed = init-Placed _ _ empty;
}
Reach-IsOwned empty (allocates size label f r small new) =
    alloc-IsOwned size label f _ (Reach-IsOwned empty r) small new
Reach-IsOwned empty (frees ptr r h) = free-IsOwned ptr _ _ (Reach-IsOwned empty r) h
Reach-IsOwned empty (writes w r) =
    let v = Reach-IsOwned empty r in
    record {
      classes = record { count = v.classes.count; each = v.classes.each };
      placed = v.placed;
    }
Reach-IsOwned empty (sets_debug n r) =
    let v = Reach-IsOwned empty r in
    record {
      classes = record { count = v.classes.count; each = v.classes.each };
      placed = v.placed;
    }
Reach-IsOwned empty (sets_protection n r) =
    let v = Reach-IsOwned empty r in
    record {
      classes = record { count = v.classes.count; each = v.classes.each };
      placed = v.placed;
    }
