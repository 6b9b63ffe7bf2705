-- ===== src/ServerPool/Calls.antt =====
-- What `mem_pool_alloc_label` of 3.m_mem_pool/mem_pool.c answers.
use mathlib.Core.Option.{some_inj}
use learn_c.Common.{
  count, ℕ, ◌+◌, ◌-◌, ◌^◌, ◌≤◌, ◌<◌, ◌≡◌, ◌≢◌, refl, inl, inr, true, false, Option, none, some,
  List, [], ◌∷◌, arith, ◌==◌, if◌then◌else◌, Bool-cases, ap, ◌∙◌, sym, subst,
}
use learn_c.ServerPool.{
  Server, MemBlk, Fresh, blk_size, guard_at, tail_at, label_text, set_guards, set_up, new_blk,
  finish_alloc, take_free, pop_free, room_of, actual_size, total_size, find_slab_index,
  mem_pool_alloc_label, protect_magic, tail_magic,
}
use learn_c.ServerPool.Classes.{
  class_of, sizes, find_slab_index-class_of, class_of-fits, class_of-least, class_of-none,
  class_of-large, HasClasses,
}
use learn_c.ServerPool.Ownership.{IsOwned, relink}
use learn_c.ServerPool.Allocating.{IsNew, alloc-IsOwned}
use learn_c.ServerPool.Releasing.{header-InUse}

-- The block of `size` bytes or more that the state `t` has for the answer `p`.
pub record Given (size : ℕ) (label : Option (List ℕ)) (s : Server) (p : ℕ) (t : Server)
    : Type 0 where
  pub at : ℕ
  pub blk : MemBlk
  pub pointer : p ≡ at + blk_size
  pub header : t.blks at ≡ some blk
  pub freed : blk.freed ≡ false
  pub enough : size ≤ blk.size
  pub exact : ((i : ℕ) → class_of size ≡ some i → sizes i ≡ size) → blk.size ≡ size
  pub least : 8 ≤ blk.size
  pub name : blk.label ≡ label_text label
  pub guard : t.words (guard_at at) ≡ (if s.protect_mode then protect_magic else 0)
  pub tail : s.protect_mode ≡ true → t.words (tail_at at blk.size) ≡ tail_magic
  pub active : t.active_list ≡ at ∷ s.active_list
  pub protect : t.protect_mode ≡ s.protect_mode

module _ (size : ℕ) (label : Option (List ℕ)) (f : Fresh) (s : Server)
    (c : (i : ℕ) → (s.slabs i).block_size ≡ sizes i) where
  -- `r` is `s`, or `s` without a block of a free list.
  module _ (r : Server) (actual p : ℕ) (t : Server) (protect : r.protect_mode ≡ s.protect_mode)
      (active : r.active_list ≡ s.active_list) (enough : size ≤ actual) (least : 8 ≤ actual)
      (exact : ((i : ℕ) → class_of size ≡ some i → sizes i ≡ size) → actual ≡ size) where
    set_up-Given :
        (raw room : ℕ) → Given size label s (raw + blk_size) (set_up raw room actual label f r)
    unfolding set_up set_guards new_blk
    set_up-Given raw room =
        let self : (raw == raw) ≡ true = ground arith in
        let apart : (guard_at raw == tail_at raw actual) ≡ false = ground arith in
        let first : (guard_at raw == guard_at raw) ≡ true = ground arith in
        let last : (tail_at raw actual == tail_at raw actual) ≡ true = ground arith in
        record {
          at = raw;
          blk = new_blk raw room actual label f r;
          pointer = refl;
          header = rw self refl;
          freed = refl;
          enough = enough;
          exact = exact;
          name = refl;
          least = least;
          guard = elim (Bool-cases s.protect_mode) [
            | inl on ↦ rw (protect, on) (rw (apart, first) refl)
            | inr off ↦ rw (protect, off) (rw first refl)
          ];
          tail = λ on. rw (protect, on) (rw last refl);
          active = ap (λ l. raw ∷ l) active;
          protect = protect;
        }

    finish-Given :
        (o : Option ℕ) → finish_alloc o actual label f r ≡ (some p, t) → Given size label s p t
    unfolding finish_alloc
    finish-Given (some raw) h =
        let p_is : p ≡ raw + blk_size = sym (some_inj.0 (ap (λ (x : Option ℕ × Server). x.0) h)) in
        let t_is : t ≡ set_up raw (room_of (r.blks raw)) actual label f r =
          sym (ap (λ (x : Option ℕ × Server). x.1) h) in
        rw (p_is, t_is) (set_up-Given raw (room_of (r.blks raw)))
    finish-Given none h = elim (Bool-cases (f.raw == 0)) [
      | inl null ↦
          absurd
            (let e : none ≡ some p = ap (λ (x : Option ℕ × Server). x.0) (rw (null) at h) in cc)
      | inr got ↦
          let e = rw (got) at h in
          let p_is : p ≡ f.raw + blk_size =
            sym (some_inj.0 (ap (λ (x : Option ℕ × Server). x.0) e)) in
          let t_is : t ≡ set_up f.raw (total_size r actual) actual label f r =
            sym (ap (λ (x : Option ℕ × Server). x.1) e) in
          rw (p_is, t_is) (set_up-Given f.raw (total_size r actual))
    ]

  by_list :
      (i : ℕ) (l : List ℕ) (p : ℕ) (t : Server)
      → (s.slabs i).free_list ≡ l
      → class_of size ≡ some i
      → finish_alloc (pop_free i s l).0 (s.slabs i).block_size label f (pop_free i s l).1
        ≡ (some p, t)
      → Given size label s p t
  unfolding pop_free
  by_list i [] p t e fits h =
      finish-Given s (s.slabs i).block_size p t refl refl
        (omega (arith, c i, (class_of-fits size i fits).1))
        (omega (arith, c i, class_of-least size i fits)) (λ x. c i ∙ x i fits) none h
  by_list i (a ∷ rest) p t e fits h =
      finish-Given (relink s i rest) (s.slabs i).block_size p t refl refl
        (omega (arith, c i, (class_of-fits size i fits).1))
        (omega (arith, c i, class_of-least size i fits)) (λ x. c i ∙ x i fits) (some a) h

  by_class :
      (idx : Option ℕ) (p : ℕ) (t : Server)
      → class_of size ≡ idx
      → finish_alloc (take_free idx s).0 (actual_size s idx size) label f (take_free idx s).1
        ≡ (some p, t)
      → Given size label s p t
  unfolding take_free actual_size
  by_class none p t e h =
      finish-Given s size p t refl refl (omega arith) (omega (arith, class_of-none size e))
        (λ x. refl) none h
  by_class (some i) p t e h = by_list i (s.slabs i).free_list p t refl e h

module _ (size : ℕ) (label : Option (List ℕ)) (f : Fresh) (s : Server) (p : ℕ) (t : Server)
    (v : IsOwned s) (small : size < 2 ^ 63) (new : IsNew f s)
    (got : mem_pool_alloc_label size label f s ≡ (some p, t)) where
  pub alloc-Given : Given size label s p t
  unfolding mem_pool_alloc_label
  alloc-Given =
      by_class size label f s v.classes.each (class_of size) p t refl
        (rw (find_slab_index-class_of s size v.classes) at got)

  -- For a request below 2^63, in a state where each address is in its one place, with malloc
  -- returning memory that no header is in: an answer of mem_pool_alloc_label is the address
  -- behind a header of a block that is large enough, has the label's first 31 bytes and is not
  -- marked as freed; the block was not in use before, is now at the head of those in use, and
  -- its room holds header and block.
  pub alloc_given :
      (g : Given size label s p t) × (count g.at s.active_list ≡ 0)
      × (blk_size + g.blk.size ≤ g.blk.room)
  alloc_given =
      let g = alloc-Given in
      let w : IsOwned t =
        subst IsOwned (ap (λ (x : Option ℕ × Server). x.1) got)
          (alloc-IsOwned size label f s v small new) in
      let u = header-InUse g.at g.blk t w g.header g.freed in
      let e : count g.at (g.at ∷ s.active_list) ≡ 1 = sym (ap (count g.at) g.active) ∙ u.active in
      (g, ground arith, u.room)

-- A request of nearly 2^64 bytes is served, since the sum with the header and the tail word wraps: the
-- room that `malloc` is asked for does not hold these two.
pub size_wraps :
    (size : ℕ) (label : Option (List ℕ)) (f : Fresh) (s : Server)
    → HasClasses s
    → s.protect_mode ≡ true
    → 2 ^ 64 - 224 ≤ size
    → size < 2 ^ 64
    → f.raw ≢ 0
    → (b : MemBlk) × ((mem_pool_alloc_label size label f s).1.blks f.raw ≡ some b)
      × (b.size ≡ size)
      × (b.room < blk_size + 8)
unfolding mem_pool_alloc_label finish_alloc take_free actual_size set_up total_size new_blk
size_wraps size label f s c on low high got =
    let none_fits : find_slab_index s size ≡ none =
      find_slab_index-class_of s size c ∙ class_of-large size (omega arith) in
    let given : (f.raw == 0) ≡ false = ground arith in
    let self : (f.raw == f.raw) ≡ true = ground arith in
    (
      new_blk f.raw (total_size s size) size label f s,
      rw none_fits (rw given (rw self refl)),
      refl,
      rw on (omega arith),
    )
