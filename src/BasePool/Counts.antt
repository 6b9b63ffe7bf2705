-- ===== src/BasePool/Counts.antt =====
-- The counters of the classes in 1.base/mem_pool.c, against the blocks that exist.
use learn_c.Common.{
  ℕ, ◌+◌, ◌%◌, ◌^◌, ◌≤◌, ◌<◌, ◌≡◌, ◌⊎◌, refl, inl, inr, false, Option, none, some, List, [], ◌∷◌,
  ◌++◌, arith, ok, ◌==◌, ==_iff, if◌then◌else◌, length, Bool-cases, ap, ◌∙◌, sym, subst,
}
use learn_c.BasePool.{
  Block, Slab, Pool, Fresh, slab_index, index_from, count_new, retire, find_ptr, mem_pool_alloc,
  remove_active,
}
use learn_c.BasePool.Array.{sum_by, addr_is, sum-append, sum-remove_active}
use learn_c.BasePool.Outcome.{Reused, Created, alloc-outcome}

-- 1 for the blocks of class `i`.
abbrev pub class_is : ℕ → Block → ℕ
class_is i b = elim (slab_index b.size) [ none ↦ 0 | some j ↦ if j == i then 1 else 0 ]

abbrev pub AllOfClass : ℕ → List Block → Type 0
AllOfClass i [] = Unit
AllOfClass i (b ∷ bs) = (slab_index b.size ≡ some i) × AllOfClass i bs

-- Class by class: the free list holds blocks of the class; `total` is the number of its blocks, in use
-- or free; and `in_use` is what is left of 2^64 when the free blocks are taken off.
pub record CountsAt (p : Pool) (i : ℕ) : Type 0 where
  pub classed : AllOfClass i (p.slabs i).free_list
  pub total :
      (p.slabs i).total
      ≡ (sum_by (class_is i) p.active_blocks + length (p.slabs i).free_list) % 2 ^ 64
  pub in_use : ((p.slabs i).in_use + length (p.slabs i).free_list) % 2 ^ 64 ≡ 0

pub slab_index-lt : (size i : ℕ) → slab_index size ≡ some i → i < 8
unfolding slab_index index_from
slab_index-lt size i h = ground arith

module _ (i : ℕ) (b : Block) where
  class_is_self : slab_index b.size ≡ some i → class_is i b ≡ 1
  class_is_self e = ground arith

  class_is_other : (j : ℕ) → slab_index b.size ≡ some j → (i == j) ≡ false → class_is i b ≡ 0
  class_is_other j e ne = ground arith

  class_is-none : slab_index b.size ≡ none → class_is i b ≡ 0
  class_is-none e = ground arith

head-class :
    (i : ℕ) (bs : List Block) (b : Block) (rest : List Block)
    → bs ≡ b ∷ rest
    → AllOfClass i bs
    → (slab_index b.size ≡ some i) × AllOfClass i rest
head-class i [] b rest e a = absurd (cc)
head-class i (c ∷ cs) b rest e a = ground arith

module _ (size : ℕ) (f : Fresh) (p : Pool) (b : Block) (q : Pool) (v : (j : ℕ) → CountsAt p j)
    (i : ℕ) where
  grown :
      q.active_blocks ≡ p.active_blocks ++ (b ∷ [])
      → sum_by (class_is i) q.active_blocks ≡ sum_by (class_is i) p.active_blocks + class_is i b
  unfolding sum_by
  grown e =
      ap (sum_by (class_is i)) e ∙ sum-append (class_is i) p.active_blocks (b ∷ []) ∙ omega arith

  -- A class whose slab and whose number of blocks in use did not change.
  kept :
      q.slabs i ≡ p.slabs i
      → sum_by (class_is i) q.active_blocks ≡ sum_by (class_is i) p.active_blocks
      → CountsAt q i
  kept same n =
      let c = v i in
      record {
        classed = rw same c.classed;
        total = rw (same, n) c.total;
        in_use = rw same c.in_use;
      }

  Reused-CountsAt : Reused size f p b q → CountsAt q i
  Reused-CountsAt r =
      let (first, others) = head-class r.class _ r.old r.rest r.head (v r.class).classed in
      let its_class : slab_index b.size ≡ some r.class =
        ap (λ (x : Block). slab_index x.size) r.block ∙ first in
      elim (Bool-cases (i == r.class)) [
        | inl here ↦
            let at : i ≡ r.class = (==_iff i r.class).0 here in
            let new : Slab = record (p.slabs r.class) {
              free_list = r.rest;
              in_use = ((p.slabs r.class).in_use + 1) % 2 ^ 64;
            } in
            let slab : q.slabs i ≡ new = ap (λ s. s i) r.slabs ∙ rw here in
            let c = v r.class in
            let n = grown r.active in
            let one : class_is i b ≡ 1 = class_is_self i b (its_class ∙ ap some (sym at)) in
            let n' : sum_by (class_is i) q.active_blocks ≡ sum_by (class_is i) p.active_blocks + 1 =
              omega (arith, n, one) in
            record {
              classed = rw (slab, at) others;
              total =
                  rw (slab, n')
                    (omega (
                      arith,
                      c.total,
                      ap length r.head,
                      ap (λ j. sum_by (class_is j) p.active_blocks) at,
                    ));
              in_use = rw slab (omega (arith, c.in_use, ap length r.head));
            }
        | inr other ↦
            kept (ap (λ s. s i) r.slabs ∙ rw other)
              (omega (arith, grown r.active, class_is_other i b r.class its_class other))
      ]

  Created-CountsAt : Created size f p b q → CountsAt q i
  Created-CountsAt r =
      let its_size : b.size ≡ size = ap (λ (x : Block). x.size) r.block in
      by_class (slab_index size) refl (ap slab_index its_size)
    where
      by_class :
          (idx : Option ℕ)
          → slab_index size ≡ idx
          → slab_index b.size ≡ slab_index size
          → CountsAt q i
      by_class none e same =
          kept (ap (λ s. s i) r.slabs ∙ unfold count_new in rw e)
            (omega (arith, grown r.active, class_is-none i b (same ∙ e)))
      by_class (some j) e same = elim (Bool-cases (i == j)) [
        | inl here ↦
            let at : i ≡ j = (==_iff i j).0 here in
            let new : Slab = record (p.slabs j) { total = ((p.slabs j).total + 1) % 2 ^ 64 } in
            let slab : q.slabs i ≡ new = ap (λ s. s i) r.slabs ∙ unfold count_new in rw (e, here) in
            let c = v j in
            let one : class_is i b ≡ 1 = class_is_self i b (same ∙ e ∙ ap some (sym at)) in
            let n : sum_by (class_is i) q.active_blocks ≡ sum_by (class_is i) p.active_blocks + 1 =
              omega (arith, grown r.active, one) in
            record {
              classed = rw (slab, at) c.classed;
              total =
                  rw (slab, n)
                    (omega (arith, c.total, ap (λ j. sum_by (class_is j) p.active_blocks) at));
              in_use = rw slab c.in_use;
            }
        | inr other ↦
            kept (ap (λ s. s i) r.slabs ∙ unfold count_new in rw (e, other))
              (omega (arith, grown r.active, class_is_other i b j (same ∙ e) other))
      ]

module _ (p : Pool) (v : (j : ℕ) → CountsAt p j) (ptr : ℕ) (b : Block)
    (found : find_ptr ptr p.active_blocks ≡ some b)
    (once : sum_by (addr_is b.addr) p.active_blocks ≤ 1) (i : ℕ) where
  removed :
      sum_by (class_is i) (remove_active b p.active_blocks) + class_is i b
      ≡ sum_by (class_is i) p.active_blocks
  removed = sum-remove_active (class_is i) ptr p.active_blocks b found once

  pub retire-CountsAt :
      (idx : Option ℕ)
      → slab_index b.size ≡ idx
      → CountsAt (retire idx b (record p { active_blocks = remove_active b p.active_blocks })) i
  unfolding retire
  retire-CountsAt none e =
      let c = v i in
      record {
        classed = c.classed;
        total = omega (arith, c.total, removed, class_is-none i b e);
        in_use = c.in_use;
      }
  retire-CountsAt (some j) e = elim (Bool-cases (i == j)) [
    | inl here ↦
        let at : i ≡ j = (==_iff i j).0 here in
        let c = v j in
        record {
          classed = rw here (
            e ∙ ap some (sym at),
            subst (λ k. AllOfClass k (p.slabs j).free_list) (sym at) c.classed,
          );
          total = rw here (
              omega (
                arith,
                c.total,
                removed,
                class_is_self i b (e ∙ ap some (sym at)),
                ap (λ k. sum_by (class_is k) p.active_blocks) at,
              ));
          in_use = rw here (omega (arith, c.in_use));
        }
    | inr other ↦
        let c = v i in
        record {
          classed = rw other c.classed;
          total = rw other (omega (arith, c.total, removed, class_is_other i b j e other));
          in_use = rw other c.in_use;
        }
  ]

pub alloc-CountsAt :
    (size : ℕ) (f : Fresh) (p : Pool) (b : Block) (q : Pool)
    → ((j : ℕ) → CountsAt p j)
    → mem_pool_alloc size f p ≡ ok (b, q)
    → (i : ℕ) → CountsAt q i
alloc-CountsAt size f p b q v h i = by_outcome (alloc-outcome size f p b q h)
  where
    by_outcome : Reused size f p b q ⊎ Created size f p b q → CountsAt q i
    by_outcome (inl r) = Reused-CountsAt size f p b q v i r
    by_outcome (inr r) = Created-CountsAt size f p b q v i r
