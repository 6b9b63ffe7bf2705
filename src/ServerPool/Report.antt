-- ===== src/ServerPool/Report.antt =====
-- The statistics of 3.m_mem_pool/mem_pool.c, its report of leaks, and its end.
use learn_c.Common.{
  count, ℕ, zero, suc, ◌+◌, ◌≤◌, ◌<◌, ◌≡◌, refl, inl, inr, false, Option, none, some, List, [], ◌∷◌,
  arith, ◌==◌, update, length, Bool-cases, ap, ◌∙◌,
}
use learn_c.ServerPool.{SlabClass, Server, MemBlk, blk_size}
use learn_c.ServerPool.Whole.{
  live, sum_sizes, leak_lines, mem_pool_dump_stats, mem_pool_dump_leaks, drop_all, drop_classes,
  mem_pool_destroy,
}
use learn_c.ServerPool.Classes.{class_of-fits}
use learn_c.ServerPool.Ownership.{IsOwned, Placed, free_count}

-- The addresses that a report names.
abbrev pub reported : List (ℕ × ℕ × List ℕ) → List ℕ
reported [] = []
reported ((p, size, label) ∷ rest) = p ∷ reported rest

abbrev pub user_ptrs : List ℕ → List ℕ
user_ptrs [] = []
user_ptrs (a ∷ rest) = (a + blk_size) ∷ user_ptrs rest

listed-InUse :
    (n : ℕ) (k : ℕ → ℕ) (a : ℕ) (o : Option MemBlk)
    → Placed n k a o
    → 1 ≤ n
    → (b : MemBlk) × (o ≡ some b) × (b.freed ≡ false)
listed-InUse n k a none (z, f) h = absurd (omega arith)
listed-InUse n k a (some b) (inl u) h = (b, refl, u.freed)
listed-InUse n k a (some b) (inr u) h = absurd (let e = u.active in omega arith)

module _ (s : Server) (v : IsOwned s) where
  pub live-first :
      (a : ℕ) (l : List ℕ) (b : MemBlk)
      → s.blks a ≡ some b
      → b.freed ≡ false
      → live s.blks (a ∷ l) ≡ (a, b) ∷ live s.blks l
  unfolding live
  live-first a l b at used = ground arith

  leaks_all :
      (l : List ℕ)
      → ((a : ℕ) → 1 ≤ count a l → 1 ≤ count a s.active_list)
      → (reported (leak_lines (live s.blks l)) ≡ user_ptrs l)
        × ((sum_sizes (live s.blks l)).0 ≡ length l)
  unfolding leak_lines live sum_sizes
  leaks_all [] h = (refl, refl)
  leaks_all (a ∷ l) h =
      let (b, at, used) =
        listed-InUse (count a s.active_list) (free_count s a) a (s.blks a) (v.placed a)
          (h a (ground arith)) in
      let ih = leaks_all l (λ x g. h x (omega (arith, g))) in
      let first = live-first a l b at used in
      (
        ap (λ r. reported (leak_lines r)) first ∙ ap (λ r. (a + blk_size) ∷ r) ih.0,
        ap (λ r. (sum_sizes r).0) first ∙ omega (arith, ih.1),
      )

  -- The report of leaks names the pointers of all blocks in use, the last one handed out first, and the
  -- statistics count them.
  pub dumps :
      (reported (mem_pool_dump_leaks s) ≡ user_ptrs s.active_list)
      × ((mem_pool_dump_stats s).0 ≡ length s.active_list)
  unfolding mem_pool_dump_leaks mem_pool_dump_stats
  dumps = leaks_all s.active_list (λ a h. h)

drop_all-none : (l : List ℕ) (m : ℕ → Option MemBlk) (a : ℕ) → m a ≡ none → drop_all l m a ≡ none
unfolding drop_all
drop_all-none [] m a e = e
drop_all-none (x ∷ l) m a e = drop_all-none l (update m x none) a (ground arith)

drop_all-listed :
    (l : List ℕ) (m : ℕ → Option MemBlk) (a : ℕ) → 1 ≤ count a l → drop_all l m a ≡ none
unfolding drop_all
drop_all-listed [] m a h = absurd (omega arith)
drop_all-listed (x ∷ l) m a h = elim (Bool-cases (a == x)) [
  | inl here ↦ drop_all-none l (update m x none) a (rw here refl)
  | inr other ↦
      drop_all-listed l (update m x none) a
        (let ne : (x == a) ≡ false = ground arith in ground arith)
]

drop_classes-none :
    (i n : ℕ) (f : ℕ → SlabClass) (m : ℕ → Option MemBlk) (a : ℕ)
    → m a ≡ none
    → drop_classes i n f m a ≡ none
unfolding drop_classes
drop_classes-none i zero f m a e = e
drop_classes-none i (suc n) f m a e =
    drop_classes-none (i + 1) n f _ a (drop_all-none (f i).free_list m a e)

drop_classes-listed :
    (i n : ℕ) (f : ℕ → SlabClass) (m : ℕ → Option MemBlk) (a j : ℕ)
    → i ≤ j
    → j < i + n
    → 1 ≤ count a (f j).free_list
    → drop_classes i n f m a ≡ none
unfolding drop_classes
drop_classes-listed i zero f m a j le lt h = absurd (omega arith)
drop_classes-listed i (suc n) f m a j le lt h = elim (Bool-cases (i == j)) [
  | inl here ↦
      let at : i ≡ j = ground arith in
      drop_classes-none (i + 1) n f _ a (drop_all-listed (f i).free_list m a (rw at h))
  | inr other ↦ drop_classes-listed (i + 1) n f _ a j (ground arith) (omega arith) h
]

module _ (s : Server) (v : IsOwned s) (a : ℕ) where
  destroy_at :
      (o : Option MemBlk)
      → s.blks a ≡ o
      → Placed (count a s.active_list) (free_count s a) a o
      → mem_pool_destroy s a ≡ none
  unfolding mem_pool_destroy
  destroy_at none e p =
      drop_all-none s.active_list _ a (drop_classes-none 0 s.slab_cls_cnt s.slabs s.blks a e)
  destroy_at (some b) e (inl u) = drop_all-listed s.active_list _ a (omega (arith, u.active))
  destroy_at (some b) e (inr u) =
      let lt : u.class < 11 = (class_of-fits b.size u.class u.its_class).0 in
      drop_all-none s.active_list _ a (
        drop_classes-listed 0 s.slab_cls_cnt s.slabs s.blks a u.class (omega arith)
          (omega (arith, v.classes.count)) (omega (arith, u.here)))

  -- At its end the pool gives every block back to the C library, those in use and those that are free.
  pub destroy-none : mem_pool_destroy s a ≡ none
  destroy-none = destroy_at (s.blks a) refl (v.placed a)
