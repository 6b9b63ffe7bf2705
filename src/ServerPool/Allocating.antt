-- ===== src/ServerPool/Allocating.antt =====
-- A call of `mem_pool_alloc_label` in 3.m_mem_pool/mem_pool.c keeps each block in its one place.
use mathlib.Core.Option.{some_inj}
use learn_c.Common.{
  count, ℕ, ◌+◌, ◌^◌, ◌≤◌, ◌<◌, ◌≡◌, ◌≢◌, refl, inl, inr, true, false, Option, none, some, List, [],
  ◌∷◌, arith, ◌==◌, if◌then◌else◌, Bool-cases, ap, ◌∙◌, sym, subst,
}
use learn_c.ServerPool.{
  Server, MemBlk, Fresh, blk_size, set_up, new_blk, finish_alloc, take_free, pop_free, actual_size,
  total_size, mem_pool_alloc_label,
}
use learn_c.ServerPool.Classes.{
  sizes, class_of, HasClasses, find_slab_index-class_of, class_of-sizes, class_of-fits, sizes_le,
}
use learn_c.ServerPool.Ownership.{
  FreeIn, Placed, free_count, IsOwned, Placed-same, listed-FreeIn, relink, relink-HasClasses,
  count-same, count-none,
}

-- The state of `set_up`, if the address is in no list before it.
module _ (raw room actual : ℕ) (label : Option (List ℕ)) (f : Fresh) (s : Server) (c : HasClasses s)
    (others : (a : ℕ)
      → (a == raw) ≡ false
      → Placed (count a s.active_list) (free_count s a) a (s.blks a))
    (unlisted : (count raw s.active_list ≡ 0) × ((j : ℕ) → free_count s raw j ≡ 0))
    (enough : blk_size + actual ≤ room)
    (fits : (i : ℕ) → class_of actual ≡ some i → sizes i ≡ actual) where
  once : {a : ℕ} → a ≡ raw → (if raw == a then 1 else 0) + count a s.active_list ≡ 1
  once {a = a} at = rw at (let e : (raw == raw) ≡ true = ground arith in rw (e, unlisted.0) refl)

  not_here :
      (a : ℕ)
      → (a == raw) ≡ false
      → count a s.active_list ≡ (if raw == a then 1 else 0) + count a s.active_list
  not_here a h = ground arith

  set_up-Placed :
      (a : ℕ)
      → Placed
          (count a (set_up raw room actual label f s).active_list)
          (free_count (set_up raw room actual label f s) a)
          a
          ((set_up raw room actual label f s).blks a)
  unfolding set_up new_blk
  set_up-Placed a = elim (Bool-cases (a == raw)) [
    | inl here ↦
        let at : a ≡ raw = ground arith in
        rw here (
          inl (record {
            freed = refl;
            real = sym at;
            room = enough;
            sized = fits;
            active = once at;
            free = λ j. rw at (unlisted.1 j);
          }))
    | inr other ↦
        rw other (Placed-same _ _ _ _ a (s.blks a) (not_here a other) (λ j. refl) (others a other))
  ]

  set_up-IsOwned : IsOwned (set_up raw room actual label f s)
  unfolding set_up new_blk
  set_up-IsOwned = record {
    classes = record { count = c.count; each = c.each };
    placed = set_up-Placed;
  }

total_size-enough :
    (s : Server) (actual : ℕ) → actual < 2 ^ 63 → blk_size + actual ≤ total_size s actual
unfolding total_size
total_size-enough s actual h = elim (Bool-cases s.protect_mode) [
  | inl on ↦ rw on (omega arith)
  | inr off ↦ rw off (omega arith)
]

-- `malloc` returns memory that no header is kept in.
abbrev pub IsNew : Fresh → Server → Type 0
IsNew f s = f.raw ≢ 0 → s.blks f.raw ≡ none

module _ (size : ℕ) (label : Option (List ℕ)) (f : Fresh) (s : Server) (v : IsOwned s)
    (small : size < 2 ^ 63) (new : IsNew f s) where
  -- A block of the size of a class has that class.
  whole_class :
      (i : ℕ)
      → class_of size ≡ some i
      → (j : ℕ) → class_of (s.slabs i).block_size ≡ some j
      → sizes j ≡ (s.slabs i).block_size
  whole_class i fits j h =
      let size_is = v.classes.each i in
      let lt : i < 11 = (class_of-fits size i fits).0 in
      ap sizes (some_inj.0 (sym h ∙ ap class_of size_is ∙ class_of-sizes i lt)) ∙ sym size_is

  malloc-IsOwned :
      (actual : ℕ)
      → actual < 2 ^ 63
      → ((i : ℕ) → class_of actual ≡ some i → sizes i ≡ actual)
      → IsOwned (finish_alloc none actual label f s).1
  unfolding finish_alloc
  malloc-IsOwned actual h fits = elim (Bool-cases (f.raw == 0)) [
    | inl null ↦ rw null v
    | inr given ↦
        let empty : s.blks f.raw ≡ none = new (ground arith) in
        rw given (
          set_up-IsOwned f.raw (total_size s actual) actual label f s v.classes (λ a e. v.placed a)
            (subst (λ o. Placed (count f.raw s.active_list) (free_count s f.raw) f.raw o) empty
              (v.placed f.raw))
            (total_size-enough s actual h) fits)
  ]

  module _ (i a : ℕ) (rest : List ℕ) (e : (s.slabs i).free_list ≡ a ∷ rest)
      (fits : class_of size ≡ some i) where
    -- The block at the head is a free one, of the class.
    head-FreeIn :
        (b : MemBlk) × (s.blks a ≡ some b)
        × (u : FreeIn (count a s.active_list) (free_count s a) a b) × (u.class ≡ i)
    head-FreeIn =
        listed-FreeIn (count a s.active_list) (free_count s a) a (s.blks a) i (v.placed a)
          (rw e (ground arith))

    reuse-IsOwned :
        IsOwned (finish_alloc (some a) (s.slabs i).block_size label f (relink s i rest)).1
    unfolding finish_alloc
    reuse-IsOwned =
        let (b, at, u, same) = head-FreeIn in
        let size_is : (s.slabs i).block_size ≡ sizes i = v.classes.each i in
        let block_is : sizes i ≡ b.size = ap sizes (sym same) ∙ u.exact in
        let once : count a (s.slabs i).free_list ≡ 1 = ap (free_count s a) (sym same) ∙ u.here in
        let whole : count a (a ∷ rest) ≡ 1 = sym (ap (count a) e) ∙ once in
        let rest_free : count a rest ≡ 0 = ground arith in
        set_up-IsOwned a _ (s.slabs i).block_size label f (relink s i rest)
          (relink-HasClasses s i rest v.classes)
          (λ x ne.
            Placed-same _ _ _ _ x (s.blks x) refl (count-same s i rest x (rw e (ground arith)))
              (v.placed x))
          (u.active, count-none s i rest a rest_free (λ j ne. u.elsewhere j (λ h. ne (h ∙ same))))
          (rw at (omega (arith, u.room, size_is, block_is))) (whole_class i fits)

  by_list :
      (i : ℕ) (l : List ℕ)
      → (s.slabs i).free_list ≡ l
      → class_of size ≡ some i
      → IsOwned
          (finish_alloc (pop_free i s l).0 (s.slabs i).block_size label f (pop_free i s l).1).1
  unfolding pop_free
  by_list i [] e fits =
      malloc-IsOwned (s.slabs i).block_size (omega (arith, v.classes.each i, sizes_le i))
        (whole_class i fits)
  by_list i (a ∷ rest) e fits = reuse-IsOwned i a rest e fits

  by_class :
      (idx : Option ℕ)
      → class_of size ≡ idx
      → IsOwned
          (finish_alloc (take_free idx s).0 (actual_size s idx size) label f (take_free idx s).1).1
  unfolding take_free actual_size
  by_class none e = malloc-IsOwned size small (λ i h. absurd (cc))
  by_class (some i) e = by_list i (s.slabs i).free_list refl e

  pub alloc-IsOwned : IsOwned (mem_pool_alloc_label size label f s).1
  unfolding mem_pool_alloc_label
  alloc-IsOwned = rw (find_slab_index-class_of s size v.classes) (by_class (class_of size) refl)
