-- ===== src/ServerPool/Ownership.antt =====
-- Where the blocks of 3.m_mem_pool/mem_pool.c are: in use, or free in their class, each of them once.

use learn_c.Common.{
  count, ℕ, ◌+◌, ◌-◌, ◌≤◌, ◌≡◌, ◌≢◌, ◌⊎◌, refl, inl, inr, true, false, Option, none, some, List, [],
  ◌∷◌, arith, ◌==◌, if◌then◌else◌, update, Bool-cases, ap, ◌∙◌, sym,
}
use learn_c.ServerPool.{Server, MemBlk, blk_size, unlink}
use learn_c.ServerPool.Classes.{sizes, class_of, HasClasses}

pub count-unlink :
    (a y : ℕ) (xs : List ℕ) → count y (unlink a xs) ≡ count y xs - (if a == y then 1 else 0)
unfolding unlink
count-unlink a y [] = ground arith
count-unlink a y (x ∷ xs) = let ih = count-unlink a y xs in ground arith

-- A block that is in use: once in the list, in no free list.
pub record InUse (n : ℕ) (k : ℕ → ℕ) (a : ℕ) (b : MemBlk) : Type 0 where
  pub freed : b.freed ≡ false
  pub real : b.real_ptr ≡ a
  pub room : blk_size + b.size ≤ b.room
  pub sized : (i : ℕ) → class_of b.size ≡ some i → sizes i ≡ b.size
  pub active : n ≡ 1
  pub free : (j : ℕ) → k j ≡ 0

-- A block that is free: once in the free list of its class.
pub record FreeIn (n : ℕ) (k : ℕ → ℕ) (a : ℕ) (b : MemBlk) : Type 0 where
  pub class : ℕ
  pub freed : b.freed ≡ true
  pub real : b.real_ptr ≡ a
  pub room : blk_size + b.size ≤ b.room
  pub its_class : class_of b.size ≡ some class
  pub exact : sizes class ≡ b.size
  pub active : n ≡ 0
  pub here : k class ≡ 1
  pub elsewhere : (j : ℕ) → j ≢ class → k j ≡ 0

-- An address that the list has `n` times, and the free list of class `j` has `k j` times.
abbrev pub Placed : ℕ → (ℕ → ℕ) → ℕ → Option MemBlk → Type 0
Placed n k a none = (n ≡ 0) × ((j : ℕ) → k j ≡ 0)
Placed n k a (some b) = InUse n k a b ⊎ FreeIn n k a b

abbrev pub free_count : Server → ℕ → ℕ → ℕ
free_count s a j = count a (s.slabs j).free_list

pub record IsOwned (s : Server) : Type 0 where
  pub classes : HasClasses s
  pub placed : (a : ℕ) → Placed (count a s.active_list) (free_count s a) a (s.blks a)

-- The place of an address depends on the two counts only.
pub Placed-same :
    (n m : ℕ) (k l : ℕ → ℕ) (a : ℕ) (o : Option MemBlk)
    → n ≡ m
    → ((j : ℕ) → k j ≡ l j)
    → Placed n k a o
    → Placed m l a o
Placed-same n m k l a none e h (z, f) = (sym e ∙ z, λ j. sym (h j) ∙ f j)
Placed-same n m k l a (some b) e h (inl u) = inl (record {
  freed = u.freed;
  real = u.real;
  room = u.room;
  sized = u.sized;
  active = sym e ∙ u.active;
  free = λ j. sym (h j) ∙ u.free j;
})
Placed-same n m k l a (some b) e h (inr u) = inr (record {
  class = u.class;
  freed = u.freed;
  real = u.real;
  room = u.room;
  its_class = u.its_class;
  exact = u.exact;
  active = sym e ∙ u.active;
  here = sym (h u.class) ∙ u.here;
  elsewhere = λ j ne. sym (h j) ∙ u.elsewhere j ne;
})

-- An address that a free list has is that of a free block of the class.
pub listed-FreeIn :
    (n : ℕ) (k : ℕ → ℕ) (a : ℕ) (o : Option MemBlk) (i : ℕ)
    → Placed n k a o
    → 1 ≤ k i
    → (b : MemBlk) × (o ≡ some b) × (u : FreeIn n k a b) × (u.class ≡ i)
listed-FreeIn n k a none i (z, f) h = absurd (let e = f i in omega arith)
listed-FreeIn n k a (some b) i (inl u) h = absurd (let e = u.free i in omega arith)
listed-FreeIn n k a (some b) i (inr u) h = elim (Bool-cases (i == u.class)) [
  | inl same ↦ (b, refl, u, ground arith)
  | inr other ↦ absurd (let e = u.elsewhere i (ground arith) in omega arith)
]

-- Another free list for class `i`.
abbrev pub relink : Server → ℕ → List ℕ → Server
relink s i l = record s { slabs = update s.slabs i (record (s.slabs i) { free_list = l }) }

module _ (s : Server) (i : ℕ) (l : List ℕ) where
  pub relink-HasClasses : HasClasses s → HasClasses (relink s i l)
  relink-HasClasses c = record {
    count = c.count;
    each = λ j. elim (Bool-cases (j == i)) [
      | inl here ↦ let at : j ≡ i = ground arith in rw here (rw at (c.each i))
      | inr other ↦ rw other (c.each j)
    ];
  }

  pub count-here : (x j : ℕ) → j ≡ i → free_count (relink s i l) x j ≡ count x l
  count-here x j at = let h : (j == i) ≡ true = ground arith in rw h refl

  pub count-other : (x j : ℕ) → j ≢ i → free_count (relink s i l) x j ≡ free_count s x j
  count-other x j ne = let h : (j == i) ≡ false = ground arith in rw h refl

  -- An address that the new list has as often as the old one.
  pub count-same :
      (x : ℕ)
      → count x (s.slabs i).free_list ≡ count x l
      → (j : ℕ) → free_count s x j ≡ free_count (relink s i l) x j
  count-same x e j = elim (Bool-cases (j == i)) [
    | inl here ↦
        let at : j ≡ i = ground arith in ap (free_count s x) at ∙ e ∙ sym (count-here x j at)
    | inr other ↦ sym (count-other x j (ground arith))
  ]

  pub count-none :
      (x : ℕ)
      → count x l ≡ 0
      → ((j : ℕ) → j ≢ i → free_count s x j ≡ 0)
      → (j : ℕ) → free_count (relink s i l) x j ≡ 0
  count-none x e zeros j = elim (Bool-cases (j == i)) [
    | inl here ↦ count-here x j (ground arith) ∙ e
    | inr other ↦ let ne : j ≢ i = ground arith in count-other x j ne ∙ zeros j ne
  ]
