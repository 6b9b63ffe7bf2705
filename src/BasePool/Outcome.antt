-- ===== src/BasePool/Outcome.antt =====
-- The two ways in which `mem_pool_alloc` of 1.base/mem_pool.c serves a request, and the two in which
-- `mem_pool_free` ends.
use mathlib.Core.Option.{some_inj}
use learn_c.Common.{
  ℕ, ◌+◌, ◌%◌, ◌^◌, ◌≡◌, ◌⊎◌, refl, inl, inr, true, false, ◌||◌, Option, none, some, List, [], ◌∷◌,
  ◌++◌, arith, ok, fault, ◌>>=◌, ◌==◌, update, Bool-cases, ◌∙◌, sym,
}
use learn_c.BasePool.{
  Block, Pool, Fresh, guard_size, slab_index, push_active, fill_guard, count_new, new_block, create,
  choose, reuse, pick_block, finish, mem_pool_alloc,
}

-- The first block of the class's free list was taken.
pub record Reused (size : ℕ) (f : Fresh) (p : Pool) (b : Block) (q : Pool) : Type 0 where
  pub class : ℕ
  pub old : Block
  pub rest : List Block
  pub index : slab_index size ≡ some class
  pub head : (p.slabs class).free_list ≡ old ∷ rest
  pub block : b ≡ record old { bt_size = f.frames }
  pub slabs :
      q.slabs
      ≡ update p.slabs class (record (p.slabs class) {
        free_list = rest;
        in_use = ((p.slabs class).in_use + 1) % 2 ^ 64;
      })
  pub active : q.active_blocks ≡ p.active_blocks ++ (b ∷ [])
  pub mem : q.mem ≡ p.mem

-- A block was made, since the request has no class or the class has no free block.
pub record Created (size : ℕ) (f : Fresh) (p : Pool) (b : Block) (q : Pool) : Type 0 where
  pub no_free : (i : ℕ) → slab_index size ≡ some i → (p.slabs i).free_list ≡ []
  pub block : b ≡ record (new_block size f) { bt_size = f.frames }
  pub slabs : q.slabs ≡ count_new (slab_index size) p.slabs
  pub active : q.active_blocks ≡ p.active_blocks ++ (b ∷ [])
  pub mem : q.mem ≡ fill_guard (fill_guard p.mem f.raw) (f.raw + guard_size + size)

module _ (size : ℕ) (f : Fresh) (p : Pool) (b : Block) (q : Pool) where
  finish-same :
      (r : Pool) (c : Block)
      → finish f (c, r) ≡ ok (b, q)
      → (b ≡ record c { bt_size = f.frames })
        × (q.slabs ≡ r.slabs)
        × (q.active_blocks ≡ r.active_blocks ++ (b ∷ []))
        × (q.mem ≡ r.mem)
  unfolding finish push_active
  finish-same r c h = ground arith

  abbrev with_block : Option ℕ → Pool
  with_block idx = record p {
    mem = fill_guard (fill_guard p.mem f.raw) (f.raw + guard_size + size);
    slabs = count_new idx p.slabs;
  }

  create-null :
      (idx : Option ℕ) → ((f.blk == 0) || (f.raw == 0)) ≡ true → create idx size f p ≡ fault
  unfolding create
  create-null idx e = rw e

  create-ok :
      (idx : Option ℕ)
      → ((f.blk == 0) || (f.raw == 0)) ≡ false
      → create idx size f p ≡ ok (new_block size f, with_block idx)
  unfolding create
  create-ok idx e = rw e

  created :
      (idx : Option ℕ)
      → slab_index size ≡ idx
      → ((i : ℕ) → idx ≡ some i → (p.slabs i).free_list ≡ [])
      → (create idx size f p >>= finish f) ≡ ok (b, q)
      → Created size f p b q
  created idx e no_free h = elim (Bool-cases ((f.blk == 0) || (f.raw == 0))) [
    | inl null ↦ absurd (cc (create-null idx null))
    | inr fine ↦
        let g = finish-same (with_block idx) (new_block size f) (rw (create-ok idx fine) at h) in
        record {
          no_free = λ i k. no_free i (sym e ∙ k);
          block = g.0;
          slabs = rw e (g.1);
          active = g.2;
          mem = g.3;
        }
  ]

  chosen :
      (i : ℕ) (bs : List Block)
      → slab_index size ≡ some i
      → (p.slabs i).free_list ≡ bs
      → (choose size f p i bs >>= finish f) ≡ ok (b, q)
      → Reused size f p b q ⊎ Created size f p b q
  unfolding choose
  chosen i [] e none_free h =
      inr (created (some i) e (λ j k. let same : i ≡ j = some_inj.0 k in rw (← same) none_free) h)
  chosen i (c ∷ rest) e listed h =
      let g = finish-same (reuse i (p.slabs i) c rest p) c h in
      inl (record {
        class = i;
        old = c;
        rest = rest;
        index = e;
        head = listed;
        block = g.0;
        slabs = unfold reuse in g.1;
        active = unfold reuse in g.2;
        mem = unfold reuse in g.3;
      })

  picked :
      (idx : Option ℕ)
      → slab_index size ≡ idx
      → (pick_block idx size f p >>= finish f) ≡ ok (b, q)
      → Reused size f p b q ⊎ Created size f p b q
  unfolding pick_block
  picked none e h = inr (created none e (λ i k. absurd (cc)) h)
  picked (some i) e h = chosen i (p.slabs i).free_list e refl h

  pub alloc-outcome :
      mem_pool_alloc size f p ≡ ok (b, q) → Reused size f p b q ⊎ Created size f p b q
  unfolding mem_pool_alloc
  alloc-outcome h = picked (slab_index size) refl h
