-- ===== src/BasePool/Guards.antt =====
-- The guard bytes of 1.base/mem_pool.c: what a caller writes inside a new block goes unnoticed, and
-- what it writes over a guard is reported when the block is freed.
use learn_c.Common.{
  ℕ, zero, suc, ◌+◌, ◌≤◌, ◌<◌, ◌≡◌, ◌≢◌, ◌⊎◌, refl, inl, inr, true, false, none, some, List, [],
  ◌∷◌, ◌++◌, arith, ok, ◌==◌, if◌then◌else◌, update, Bool-cases, ap, ◌∙◌,
}
use learn_c.BasePool.{
  Block, Pool, Fresh, overflow_on, intact, guard_size, guard_val, fill, fill_guard, check,
  check_guard, slab_index, mem_pool_free, free_found, find_ptr, mem_pool_alloc,
}
use learn_c.BasePool.Outcome.{Reused, Created, alloc-outcome}
use learn_c.BasePool.Ownership.{Inv, IsNew, alloc-unused}

fill-below : (n : ℕ) (m : ℕ → ℕ) (p x : ℕ) → x < p → fill n m p x ≡ m x
unfolding fill
fill-below zero m p x h = refl
fill-below (suc n) m p x h =
    fill-below n (update m p guard_val) (p + 1) x (omega arith) ∙ ground arith

fill-in : (n : ℕ) (m : ℕ → ℕ) (p x : ℕ) → p ≤ x → x < p + n → fill n m p x ≡ guard_val
unfolding fill
fill-in zero m p x le lt = absurd (omega arith)
fill-in (suc n) m p x le lt = elim (Bool-cases (x == p)) [
  | inl here ↦ fill-below n (update m p guard_val) (p + 1) x (ground arith) ∙ ground arith
  | inr other ↦ fill-in n (update m p guard_val) (p + 1) x (ground arith) (omega arith)
]

-- A write of guard bytes keeps the guard bytes that are there.
fill-guarded : (n : ℕ) (m : ℕ → ℕ) (p x : ℕ) → m x ≡ guard_val → fill n m p x ≡ guard_val
unfolding fill
fill-guarded zero m p x h = h
fill-guarded (suc n) m p x h = fill-guarded n (update m p guard_val) (p + 1) x (ground arith)

check-kept :
    (n : ℕ) (m : ℕ → ℕ) (p : ℕ)
    → ((x : ℕ) → p ≤ x → x < p + n → m x ≡ guard_val)
    → check n m p ≡ true
unfolding check
check-kept zero m p h = refl
check-kept (suc n) m p h =
    rw (h p (omega arith) (omega arith))
      (check-kept n m (p + 1) (λ x le lt. h x (omega arith) (omega arith)))

check-broken :
    (n : ℕ) (m : ℕ → ℕ) (p x : ℕ) → p ≤ x → x < p + n → m x ≢ guard_val → check n m p ≡ false
unfolding check
check-broken zero m p x le lt ne = absurd (omega arith)
check-broken (suc n) m p x le lt ne = elim (Bool-cases (x == p)) [
  | inl here ↦ let at : x ≡ p = ground arith in ground (arith, ap m at)
  | inr other ↦ ground (arith, check-broken n m (p + 1) x)
]

find_ptr-last :
    (u : ℕ) (xs : List Block) (b : Block)
    → find_ptr u xs ≡ none
    → b.user_ptr ≡ u
    → find_ptr u (xs ++ (b ∷ [])) ≡ some b
unfolding find_ptr
find_ptr-last u [] b none_there at = ground arith
find_ptr-last u (x ∷ xs) b none_there at = ground (arith, find_ptr-last u xs b)

-- A request of `size` bytes that is served with a new block `b`, and then any writes of the program,
-- after which the memory is `m`.
module _ (size : ℕ) (f : Fresh) (p : Pool) (b : Block) (q : Pool) (m : ℕ → ℕ) (v : Inv p)
    (new : IsNew f p) (done : mem_pool_alloc size f p ≡ ok (b, q))
    (no_free : (i : ℕ) → slab_index size ≡ some i → (p.slabs i).free_list ≡ []) where
  created : Reused size f p b q ⊎ Created size f p b q → Created size f p b q
  created (inl r) = absurd (cc (no_free r.class r.index, r.head))
  created (inr r) = r

  abbrev made : Created size f p b q
  made = created (alloc-outcome size f p b q done)

  -- What the call of `mem_pool_free` reports is what the guards say.
  free-messages :
      (mem_pool_free b.user_ptr (record q { mem = m })).1
      ≡ (if intact b m then [] else overflow_on b.size ∷ [])
  unfolding mem_pool_free free_found
  free-messages =
      let (active, unused) = alloc-unused size f p b q v new done in
      let there : find_ptr b.user_ptr q.active_blocks ≡ some b =
        ap (find_ptr b.user_ptr) active ∙ find_ptr-last b.user_ptr p.active_blocks b unused refl in
      let e : (b.user_ptr == 0) ≡ false = ground (arith, made.block) in rw (e, there)

  shape : (b.real_ptr ≡ f.raw) × (b.user_ptr ≡ f.raw + guard_size) × (b.size ≡ size)
  shape = ground (arith, made.block)

  guarded :
      (x : ℕ)
      → (b.real_ptr ≤ x) × (x < b.real_ptr + guard_size)
        ⊎ (b.user_ptr + b.size ≤ x) × (x < b.user_ptr + b.size + guard_size)
      → q.mem x ≡ guard_val
  unfolding fill_guard
  guarded x (inl (le, lt)) =
      ap (λ g. g x) made.mem
      ∙ fill-guarded guard_size (fill guard_size p.mem f.raw) (f.raw + guard_size + size) x
          (fill-in guard_size p.mem f.raw x (omega (arith, shape)) (omega (arith, shape)))
  guarded x (inr (le, lt)) =
      ap (λ g. g x) made.mem
      ∙ fill-in guard_size (fill guard_size p.mem f.raw) (f.raw + guard_size + size) x
          (omega (arith, shape)) (omega (arith, shape))

  -- If the writes stay within the `size` bytes of the new block, or keep off the block and its guards,
  -- freeing it reports nothing.
  pub guards_kept :
      ((x : ℕ)
        → (x < b.user_ptr) ⊎ (b.user_ptr + size ≤ x)
        → b.real_ptr ≤ x
        → x < b.user_ptr + size + guard_size
        → m x ≡ q.mem x)
      → (mem_pool_free b.user_ptr (record q { mem = m })).1 ≡ []
  unfolding check_guard
  guards_kept outside =
      let front : check_guard m b.real_ptr ≡ true = check-kept guard_size m b.real_ptr (λ x le lt.
        outside x (inl (omega (arith, shape))) le (omega (arith, shape))
        ∙ guarded x (inl (le, lt))) in
      let back : check_guard m (b.user_ptr + b.size) ≡ true =
        check-kept guard_size m (b.user_ptr + b.size) (λ x le lt.
          outside x (inr (omega (arith, shape))) (omega (arith, shape)) (omega (arith, shape))
          ∙ guarded x (inr (le, lt))) in
      free-messages ∙ rw (front, back)

  -- If a byte of one of the two guards has changed, freeing the block reports an overflow on `size`
  -- bytes.
  pub overflow_reported :
      (x : ℕ)
      → (b.real_ptr ≤ x) × (x < b.user_ptr)
        ⊎ (b.user_ptr + size ≤ x) × (x < b.user_ptr + size + guard_size)
      → m x ≢ guard_val
      → (mem_pool_free b.user_ptr (record q { mem = m })).1 ≡ overflow_on size ∷ []
  unfolding check_guard
  overflow_reported x (inl (le, lt)) ne =
      let front : check_guard m b.real_ptr ≡ false =
        check-broken guard_size m b.real_ptr x le (omega (arith, shape)) ne in
      free-messages ∙ rw front (ap (λ n. overflow_on n ∷ []) (shape.2))
  overflow_reported x (inr (le, lt)) ne =
      let back : check_guard m (b.user_ptr + b.size) ≡ false =
        check-broken guard_size m (b.user_ptr + b.size) x (omega (arith, shape))
          (omega (arith, shape)) ne in
      free-messages ∙ ground (arith, shape)
