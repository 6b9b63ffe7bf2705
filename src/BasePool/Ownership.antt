-- ===== src/BasePool/Ownership.antt =====
-- Who has a block of 1.base/mem_pool.c: each is in use once, or free once.
use learn_c.Common.{
  ℕ, ◌+◌, ◌-◌, ◌%◌, ◌^◌, ◌≤◌, ◌<◌, ◌≡◌, ◌≢◌, ◌⊎◌, refl, inl, inr, false, Option, none, some, List,
  [], ◌∷◌, ◌++◌, arith, ok, ◌==◌, if◌then◌else◌, length, Bool-cases, ap, subst,
}
use learn_c.BasePool.{
  Block, Pool, Fresh, Message, invalid_free, overflow_on, intact, guard_size, slab_index, new_block,
  retire, free_found, mem_pool_free, find_ptr, mem_pool_alloc, remove_active, listed, mem_pool_init,
}
use learn_c.BasePool.Array.{
  sum_by, addr_is, ptr_is, sum-append, sum-remove_active, find_ptr-none, find_ptr-user_ptr,
}
use learn_c.BasePool.Outcome.{Reused, Created, alloc-outcome}
use learn_c.BasePool.Counts.{CountsAt, alloc-CountsAt, retire-CountsAt}
use learn_c.BasePool.Everywhere.{
  everywhere, everywhere-Reused, everywhere-Created, everywhere-retire,
}

pub record Inv (p : Pool) : Type 0 where
  pub counts : (i : ℕ) → CountsAt p i
  pub addr_once : (a : ℕ) → everywhere (addr_is a) p ≤ 1
  pub ptr_once : (u : ℕ) → everywhere (ptr_is u) p ≤ 1

-- `calloc` and `malloc` return memory that no block has. This is asked only of a call that takes it.
pub record IsNew (f : Fresh) (p : Pool) : Type 0 where
  pub addr : everywhere (addr_is f.blk) p ≡ 0
  pub ptr : everywhere (ptr_is (f.raw + guard_size)) p ≡ 0

once-created : (x a n : ℕ) → n ≤ 1 → (x ≡ a → n ≡ 0) → n + (if x == a then 1 else 0) ≤ 1
once-created x a n le new = ground arith

module _ (size : ℕ) (f : Fresh) (p : Pool) (b : Block) (q : Pool) (v : Inv p) (new : IsNew f p)
    (done : mem_pool_alloc size f p ≡ ok (b, q)) where
  alloc-once :
      Reused size f p b q ⊎ Created size f p b q
      → ((a : ℕ) → everywhere (addr_is a) q ≤ 1) × ((u : ℕ) → everywhere (ptr_is u) q ≤ 1)
  alloc-once (inl r) = (
    λ a. omega (arith, everywhere-Reused (addr_is a) p size f b q (λ c n. refl) r, v.addr_once a),
    λ u. omega (arith, everywhere-Reused (ptr_is u) p size f b q (λ c n. refl) r, v.ptr_once u),
  )
  alloc-once (inr r) = (
    λ a.
        let g : everywhere (addr_is a) p + addr_is a (new_block size f) ≤ 1 =
          once-created f.blk a _ (v.addr_once a)
            (λ e. subst (λ x. everywhere (addr_is x) p ≡ 0) e new.addr) in
        omega (arith, everywhere-Created (addr_is a) p size f b q (λ c n. refl) r, g),
    λ u.
        let g : everywhere (ptr_is u) p + ptr_is u (new_block size f) ≤ 1 =
          once-created (f.raw + guard_size) u _ (v.ptr_once u)
            (λ e. subst (λ x. everywhere (ptr_is x) p ≡ 0) e new.ptr) in
        omega (arith, everywhere-Created (ptr_is u) p size f b q (λ c n. refl) r, g),
  )

  pub alloc-Inv : Inv q
  alloc-Inv =
      let (addr, ptr) = alloc-once (alloc-outcome size f p b q done) in
      record {
        counts = alloc-CountsAt size f p b q v.counts done;
        addr_once = addr;
        ptr_once = ptr;
      }

  active-alloc :
      Reused size f p b q ⊎ Created size f p b q → q.active_blocks ≡ p.active_blocks ++ (b ∷ [])
  active-alloc (inl r) = r.active
  active-alloc (inr r) = r.active

  -- A block that `mem_pool_alloc` returns is the last of the blocks in use, and no block that was in
  -- use before has its pointer.
  pub alloc-unused :
      (q.active_blocks ≡ p.active_blocks ++ (b ∷ [])) × (find_ptr b.user_ptr p.active_blocks ≡ none)
  unfolding sum_by
  alloc-unused =
      let e = active-alloc (alloc-outcome size f p b q done) in
      let u : ℕ = b.user_ptr in
      let self : ptr_is u b ≡ 1 = ground arith in
      let zero_before : sum_by (ptr_is u) p.active_blocks ≡ 0 = omega (
        arith,
        alloc-Inv.ptr_once u,
        ap (sum_by (ptr_is u)) e,
        sum-append (ptr_is u) p.active_blocks (b ∷ []),
        self,
      ) in
      (e, find_ptr-none u p.active_blocks zero_before)

module _ (p : Pool) (v : Inv p) where
  active-le : (w : Block → ℕ) → everywhere w p ≤ 1 → sum_by w p.active_blocks ≤ 1
  active-le w h = omega arith

  free_found-Inv :
      (ptr : ℕ) (o : Option Block) → find_ptr ptr p.active_blocks ≡ o → Inv (free_found o p).0
  unfolding free_found
  free_found-Inv ptr none e = v
  free_found-Inv ptr (some b) e =
      let once : sum_by (addr_is b.addr) p.active_blocks ≤ 1 =
        active-le (addr_is b.addr) (v.addr_once b.addr) in
      record {
        counts = λ i. retire-CountsAt p v.counts ptr b e once i (slab_index b.size) refl;
        addr_once = λ a. omega (
          arith,
          everywhere-retire (addr_is a) p ptr b e once (slab_index b.size) refl,
          v.addr_once a,
        );
        ptr_once = λ u. omega (
          arith,
          everywhere-retire (ptr_is u) p ptr b e once (slab_index b.size) refl,
          v.ptr_once u,
        );
      }

  pub free-Inv : (ptr : ℕ) → Inv (mem_pool_free ptr p).0
  unfolding mem_pool_free
  free-Inv ptr = elim (Bool-cases (ptr == 0)) [
    | inl null ↦ rw null v
    | inr ptr_given ↦ rw ptr_given (free_found-Inv ptr (find_ptr ptr p.active_blocks) refl)
  ]

  active-retire :
      (idx : Option ℕ) (b : Block) (bs : List Block)
      → (retire idx b (record p { active_blocks = bs })).active_blocks ≡ bs
  unfolding retire
  active-retire none b bs = refl
  active-retire (some i) b bs = refl

  module _ (ptr : ℕ) (b : Block) (given : ptr ≢ 0)
      (found : find_ptr ptr p.active_blocks ≡ some b) where
    free-found : mem_pool_free ptr p ≡ free_found (some b) p
    unfolding mem_pool_free
    free-found = let e : (ptr == 0) ≡ false = ground arith in rw (e, found)

    gone : find_ptr ptr (mem_pool_free ptr p).0.active_blocks ≡ none
    unfolding free_found
    gone =
        let once : sum_by (addr_is b.addr) p.active_blocks ≤ 1 =
          active-le (addr_is b.addr) (v.addr_once b.addr) in
        let self : ptr_is ptr b ≡ 1 =
          ground (arith, find_ptr-user_ptr ptr p.active_blocks b found) in
        let zero_left : sum_by (ptr_is ptr) (remove_active b p.active_blocks) ≡ 0 = omega (
          arith,
          sum-remove_active (ptr_is ptr) ptr p.active_blocks b found once,
          v.ptr_once ptr,
          self,
        ) in
        rw (free-found, active-retire) (find_ptr-none ptr _ zero_left)

free-unknown :
    (p : Pool) (ptr : ℕ)
    → ptr ≢ 0
    → find_ptr ptr p.active_blocks ≡ none
    → mem_pool_free ptr p ≡ (p, invalid_free ∷ [])
unfolding mem_pool_free free_found
free-unknown p ptr given e = let z : (ptr == 0) ≡ false = ground arith in rw (z, e)

-- In a pool that satisfies the invariant: a pointer that is in use can be freed, with no complaint or
-- one of an overflow; a second call with it, with no allocation between, changes nothing and reports
-- an invalid free.
pub free_twice :
    (p : Pool) (ptr : ℕ) (b : Block)
    → Inv p
    → ptr ≢ 0
    → find_ptr ptr p.active_blocks ≡ some b
    → let (q, messages) = mem_pool_free ptr p in
      (messages ≡ (if intact b p.mem then [] else overflow_on b.size ∷ []))
      × (mem_pool_free ptr q ≡ (q, invalid_free ∷ []))
unfolding free_found
free_twice p ptr b v given found = (
  ap (λ (r : Pool × List Message). r.1) (free-found p v ptr b given found),
  free-unknown _ ptr given (gone p v ptr b given found),
)

-- The pools that a program can reach before it calls `mem_pool_destroy`: it allocates and frees, and
-- writes to the memory as it likes.
pub data Reach (m : ℕ → ℕ) : Pool → Type 0 where
  initial : Reach m (mem_pool_init m)
  allocates :
      {p q : Pool} {b : Block} (size : ℕ) (f : Fresh)
      → Reach m p
      → IsNew f p
      → mem_pool_alloc size f p ≡ ok (b, q)
      → Reach m q
  frees : {p : Pool} (ptr : ℕ) → Reach m p → Reach m (mem_pool_free ptr p).0
  writes : {p : Pool} (m' : ℕ → ℕ) → Reach m p → Reach m (record p { mem = m' })

init-Inv : (m : ℕ → ℕ) → Inv (mem_pool_init m)
unfolding mem_pool_init sum_by listed
init-Inv m = record {
  counts = λ i. record { classed = tt; total = refl; in_use = refl };
  addr_once = λ a. omega arith;
  ptr_once = λ u. omega arith;
}

-- In every pool that is reached from mem_pool_init by calls of mem_pool_alloc and mem_pool_free
-- and by writes of a program, before any call of mem_pool_destroy, if the C library returns
-- memory that no block has: each block is in use or free, and once only; a free list holds
-- blocks of its class; `total` is the number of the blocks of the class, and in_use is minus the
-- number of its free blocks, both modulo 2^64.
pub Reach-Inv : {m : ℕ → ℕ} {p : Pool} → Reach m p → Inv p
Reach-Inv {m} initial = init-Inv m
Reach-Inv (allocates {p} {q} {b} size f r new done) = alloc-Inv size f p b q (Reach-Inv r) new done
Reach-Inv (frees {p} ptr r) = free-Inv p (Reach-Inv r) ptr
Reach-Inv (writes {p} m' r) =
    let v = Reach-Inv r in
    record {
      counts = λ i. record {
        classed = (v.counts i).classed;
        total = (v.counts i).total;
        in_use = (v.counts i).in_use;
      };
      addr_once = v.addr_once;
      ptr_once = v.ptr_once;
    }

-- So the statistics show, for a class with free blocks, as many blocks in use as 2^64 less the number
-- of the free ones, whatever is in use.
pub in_use_wraps :
    {m : ℕ → ℕ} {p : Pool} (i : ℕ)
    → Reach m p
    → 0 < length (p.slabs i).free_list
    → length (p.slabs i).free_list < 2 ^ 64
    → (p.slabs i).in_use % 2 ^ 64 ≡ 2 ^ 64 - length (p.slabs i).free_list
in_use_wraps i r some_free few = omega (arith, ((Reach-Inv r).counts i).in_use)
