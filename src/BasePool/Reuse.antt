-- ===== src/BasePool/Reuse.antt =====
-- What a request gets from a free list of 1.base/mem_pool.c.
use learn_c.Common.{
  ℕ, suc, ◌+◌, ◌*◌, ◌≤◌, ◌<◌, ◌≡◌, ◌≢◌, refl, false, some, List, [], ◌∷◌, ◌++◌, arith, ok, ◌==◌,
  leb, if◌then◌else◌, length, Bool-cases, ap, ◌∙◌, sym, append_assoc, inl, inr, zero,
}
use learn_c.BasePool.{
  Block, Slab, Pool, Fresh, slab_index, push_active, finish, choose, reuse, pick_block,
  mem_pool_alloc, retire, free_found, mem_pool_free, find_ptr, remove_active, mem_pool_destroy,
  listed, slab_count,
}
use learn_c.BasePool.Counts.{slab_index-lt}

push-ok :
    (array : ℕ) (b : Block) (p : Pool) → array ≢ 0 → (q : Pool) × (push_active array b p ≡ ok q)
unfolding push_active
push-ok array b p given =
    let e : (array == 0) ≡ false = ground arith in
    let wide : Pool = record p {
      active_capacity = if p.active_capacity == 0 then 64 else p.active_capacity * 2;
      active_blocks = p.active_blocks ++ (b ∷ []);
    } in
    elim (Bool-cases (leb p.active_capacity (length p.active_blocks))) [
      | inl full ↦ (wide, rw (full, e))
      | inr room ↦ (record p { active_blocks = p.active_blocks ++ (b ∷ []) }, rw room)
    ]

-- The head of the class's free list is what a request gets.
alloc-head :
    (c i : ℕ) (f : Fresh) (p : Pool) (b : Block) (rest : List Block)
    → f.array ≢ 0
    → slab_index c ≡ some i
    → (p.slabs i).free_list ≡ b ∷ rest
    → (q : Pool) × (mem_pool_alloc c f p ≡ ok (record b { bt_size = f.frames }, q))
unfolding mem_pool_alloc pick_block
alloc-head c i f p b rest given e head =
    let b' : Block = record b { bt_size = f.frames } in
    let (q, done) = push-ok f.array b' (reuse i (p.slabs i) b rest p) given in
    (q, rw (e, pick_block) (rw (head, choose) (unfold choose finish in rw done)))

-- A pointer in use that is freed, of a block with a class, is what the next request of that class gets.
-- A block of `b.size` bytes is so handed out for more bytes than it has, if the request is larger.
pub reuse_too_small :
    (p : Pool) (ptr c i : ℕ) (b : Block) (f : Fresh)
    → ptr ≢ 0
    → f.array ≢ 0
    → find_ptr ptr p.active_blocks ≡ some b
    → slab_index b.size ≡ some i
    → slab_index c ≡ some i
    → b.size < c
    → (d : Block) × (q : Pool) × (mem_pool_alloc c f (mem_pool_free ptr p).0 ≡ ok (d, q))
      × (d.real_ptr ≡ b.real_ptr)
      × (d.user_ptr ≡ b.user_ptr)
      × (d.room ≡ b.room)
      × (d.size < c)
unfolding mem_pool_free free_found retire
reuse_too_small p ptr c i b f given array found class same less =
    let e : (ptr == 0) ≡ false = ground arith in
    let (q, done) =
      alloc-head c i f
        (retire (some i) b (record p { active_blocks = remove_active b p.active_blocks })) b
        (p.slabs i).free_list array same (ground arith) in
    (record b { bt_size = f.frames }, q, rw (e, found, class) done, refl, refl, refl, less)

-- The list has the block at some place.
abbrev pub Has : Block → List Block → Type 0
Has b bs = (xs : List Block) × (ys : List Block) × (bs ≡ xs ++ (b ∷ ys))

Has-append_left : (b : Block) (bs cs : List Block) → Has b bs → Has b (bs ++ cs)
Has-append_left b bs cs (xs, ys, e) =
    (xs, ys ++ cs, ap (λ l. l ++ cs) e ∙ append_assoc xs (b ∷ ys) cs)

Has-append_right : (b : Block) (bs cs : List Block) → Has b cs → Has b (bs ++ cs)
Has-append_right b bs cs (xs, ys, e) =
    (bs ++ xs, ys, ap (λ l. bs ++ l) e ∙ sym (append_assoc bs xs (b ∷ ys)))

Has-listed :
    (b : Block) (rest : List Block) (s : ℕ → Slab) (k i n : ℕ)
    → (s k).free_list ≡ b ∷ rest
    → i ≤ k
    → k < i + n
    → Has b (listed i n s)
unfolding listed
Has-listed b rest s k i zero e le lt = absurd (omega arith)
Has-listed b rest s k i (suc n) e le lt = elim (Bool-cases (i == k)) [
  | inl here ↦
      let at : i ≡ k = ground arith in
      let first : (s i).free_list ≡ b ∷ rest = ap (λ j. (s j).free_list) at ∙ e in
      Has-append_left b (s i).free_list (listed (i + 1) n s) ([], rest, first)
  | inr other ↦
      Has-append_right b (s i).free_list (listed (i + 1) n s)
        (Has-listed b rest s k (i + 1) n e (ground arith) (omega arith))
]

-- `mem_pool_destroy` gives every block back to the C library, those of the free lists and those in use,
-- and leaves the free lists as they are: a request after it that meets a free block is served with
-- memory that is no longer the pool's.
pub destroy_then_alloc :
    (p : Pool) (c i : ℕ) (b : Block) (rest : List Block) (f : Fresh)
    → f.array ≢ 0
    → slab_index c ≡ some i
    → (p.slabs i).free_list ≡ b ∷ rest
    → (q : Pool) × (mem_pool_alloc c f (mem_pool_destroy p)
        ≡ ok (record b { bt_size = f.frames }, q))
      × Has b (mem_pool_destroy p).released
unfolding mem_pool_destroy
destroy_then_alloc p c i b rest f array class head =
    let (q, done) = alloc-head c i f (mem_pool_destroy p) b rest array class head in
    let there : Has b (listed 0 slab_count p.slabs) =
      Has-listed b rest p.slabs i 0 slab_count head (omega arith)
        (omega (arith, slab_index-lt c i class)) in
    (
      q,
      done,
      Has-append_right b p.released (listed 0 slab_count p.slabs ++ p.active_blocks)
          (Has-append_left b (listed 0 slab_count p.slabs) p.active_blocks there),
    )
