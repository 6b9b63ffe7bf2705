-- ===== src/ServerPool/Releasing.antt =====
-- A call of `mem_pool_free` in 3.m_mem_pool/mem_pool.c keeps each block in its one place.

use learn_c.Common.{
  count, ℕ, ◌-◌, ◌≡◌, refl, inl, inr, true, false, Option, none, some, ◌∷◌, arith, ◌==◌, update,
  Bool-cases, ◌∙◌, sym, subst,
}
use learn_c.ServerPool.{Server, MemBlk, release, give_back, unlink}
use learn_c.ServerPool.Classes.{class_of, find_slab_index-class_of}
use learn_c.ServerPool.Ownership.{
  count-unlink, InUse, Placed, free_count, IsOwned, Placed-same, relink, relink-HasClasses,
  count-here, count-other, count-same,
}

-- The block is gone from the list, and marked.
abbrev pub marked : ℕ → MemBlk → Server → Server
marked a b s = record s {
  blks = update s.blks a (some (record b { freed = true }));
  active_list = unlink a s.active_list;
}

module _ (a : ℕ) (b : MemBlk) (s : Server) (v : IsOwned s) (at : s.blks a ≡ some b)
    (used : b.freed ≡ false) where
  pub header-InUse : InUse (count a s.active_list) (free_count s a) a b
  header-InUse = elim (subst (Placed (count a s.active_list) (free_count s a) a) at (v.placed a)) [
    | inl u ↦ u
    | inr u ↦ absurd (let same : true ≡ false = sym u.freed ∙ used in cc)
  ]

  abbrev unlinked : Server
  unlinked = marked a b s

  gone : count a (unlink a s.active_list) ≡ 0
  gone =
      let self : (a == a) ≡ true = ground arith in
      count-unlink a a s.active_list ∙ rw (self, header-InUse.active) refl

  still : (x : ℕ) → (x == a) ≡ false → count x s.active_list ≡ count x (unlink a s.active_list)
  still x ne =
      let other : (a == x) ≡ false = ground arith in
      let e : count x (unlink a s.active_list) ≡ count x s.active_list - 0 =
        rw (other) at (count-unlink a x s.active_list) in
      omega arith

  abbrev PlacedIn : Server → ℕ → Type 0
  PlacedIn t x = Placed (count x t.active_list) (free_count t x) x (t.blks x)

  self : (a == a) ≡ true
  self = ground arith

  dropped-Placed : (x : ℕ) → PlacedIn (give_back none a unlinked) x
  unfolding give_back
  dropped-Placed x = elim (Bool-cases (x == a)) [
    | inl here ↦
        let e : a ≡ x = ground arith in
        subst (PlacedIn (give_back none a unlinked)) e (rw self (gone, header-InUse.free))
    | inr other ↦
        rw other (Placed-same _ _ _ _ x (s.blks x) (still x other) (λ j. refl) (v.placed x))
  ]

  module _ (i : ℕ) (class : class_of b.size ≡ some i) where
    abbrev returned : Server
    returned = relink unlinked i (a ∷ (s.slabs i).free_list)

    returned_first : PlacedIn returned a
    returned_first =
        let u = header-InUse in
        let none_before : free_count s a i ≡ 0 = u.free i in
        let one : count a (a ∷ (s.slabs i).free_list) ≡ 1 = ground arith in
        rw self (
          inr (record {
            class = i;
            freed = refl;
            real = u.real;
            room = u.room;
            its_class = class;
            exact = u.sized i class;
            active = gone;
            here = count-here unlinked i (a ∷ (s.slabs i).free_list) a i refl ∙ one;
            elsewhere =
                λ j ne. count-other unlinked i (a ∷ (s.slabs i).free_list) a j ne ∙ u.free j;
          }))

    returned-Placed : (x : ℕ) → PlacedIn returned x
    returned-Placed x = elim (Bool-cases (x == a)) [
      | inl here ↦ let e : a ≡ x = ground arith in subst (PlacedIn returned) e returned_first
      | inr other ↦ rw other (
          Placed-same _ _ _ _ x (s.blks x) (still x other)
            (count-same unlinked i (a ∷ (s.slabs i).free_list) x (ground arith)) (v.placed x))
    ]

  give_back-IsOwned : (idx : Option ℕ) → class_of b.size ≡ idx → IsOwned (give_back idx a unlinked)
  unfolding give_back
  give_back-IsOwned none e = record {
    classes = record { count = v.classes.count; each = v.classes.each };
    placed = dropped-Placed;
  }
  give_back-IsOwned (some i) e = record {
    classes =
        relink-HasClasses unlinked i _ (record { count = v.classes.count; each = v.classes.each });
    placed = returned-Placed i e;
  }

  pub release-IsOwned : IsOwned (release a b s)
  unfolding release
  release-IsOwned =
      rw (find_slab_index-class_of s b.size v.classes) (give_back-IsOwned (class_of b.size) refl)
