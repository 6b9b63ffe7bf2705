-- ===== src/ServerPool/Guards.antt =====
-- What `mem_pool_free` of 3.m_mem_pool/mem_pool.c finds out about a block, and what a request after it
-- gets.
use mathlib.Core.Option.{some_inj}
use learn_c.Common.{
  ℕ, ◌+◌, ◌-◌, ◌^◌, ◌≤◌, ◌<◌, ◌≡◌, ◌≢◌, refl, inl, inr, true, false, Option, none, some, List, ◌∷◌,
  arith, ◌==◌, if◌then◌else◌, update, leb, le→leb, Bool-cases, ap, ◌∙◌, sym,
}
use learn_c.ServerPool.{
  Server, MemBlk, Fresh, done, aborts, stray, double_free, underrun, overflow, blk_size,
  mem_pool_alloc_label, mem_pool_free, free_blk, release, give_back, find_slab_index, tail_magic,
  mem_pool_set_protection, take_free, pop_free, finish_alloc, protect_magic, guard_at, tail_at,
}
use learn_c.ServerPool.Classes.{
  class_of, sizes, find_slab_index-class_of, class_of-none, class_of-fits, sizes_le,
}
use learn_c.ServerPool.Ownership.{IsOwned}
use learn_c.ServerPool.Allocating.{IsNew}
use learn_c.ServerPool.Releasing.{marked}
use learn_c.ServerPool.Reach.{done-release, free-IsOwned}
use learn_c.ServerPool.Calls.{Given, alloc-Given}

module _ (size : ℕ) (label : Option (List ℕ)) (f : Fresh) (s : Server) (p : ℕ) (t : Server)
    (v : IsOwned s) (small : size < 2 ^ 63) (new : IsNew f s)
    (got : mem_pool_alloc_label size label f s ≡ (some p, t)) where
  given : Given size label s p t
  given = alloc-Given size label f s p t v small new got

  behind : p - blk_size ≡ given.at
  behind = omega (arith, given.pointer)

  at_guard : guard_at given.at ≡ p - 8
  at_guard = omega (arith, given.pointer)

  at_tail : tail_at given.at given.blk.size ≡ p + given.blk.size - 8
  at_tail = omega (arith, given.pointer)

  free_given :
      s.protect_mode ≡ true
      → (w : ℕ → ℕ)
      → mem_pool_free (some p) (record t { words = w }) ≡ (
          if w (p - 8) == protect_magic
          then (if w (p + given.blk.size - 8) == tail_magic
              then done (release (p - blk_size) given.blk (record t { words = w }))
              else aborts overflow)
          else aborts underrun)
  unfolding mem_pool_free free_blk
  free_given on w =
      let g = given in
      let prot : t.protect_mode ≡ true = g.protect ∙ on in
      rw (behind, g.header, g.freed)
        (rw (prot, at_guard, at_tail)
          (elim (Bool-cases (w (p - 8) == protect_magic)) [
            | inl guard ↦ elim (Bool-cases (w (p + g.blk.size - 8) == tail_magic)) [
              | inl same ↦ rw (guard, same) refl
              | inr other ↦ rw (guard, other) refl
            ]
            | inr under ↦ rw under refl
          ]))

  guard_now : s.protect_mode ≡ true → t.words (p - 8) ≡ protect_magic
  guard_now on = sym (ap t.words at_guard) ∙ given.guard ∙ rw on refl

  free_untouched :
      s.protect_mode ≡ true → mem_pool_free (some p) t ≡ done (release (p - blk_size) given.blk t)
  free_untouched on =
      let tail : t.words (p + given.blk.size - 8) ≡ tail_magic =
        sym (ap t.words at_tail) ∙ given.tail on in
      free_given on t.words ∙ rw (guard_now on, tail) refl

  -- With the protection on, for a request below 2^63 in a state where each address is in its one
  -- place, with malloc returning memory that no header is in: whatever words are written then,
  -- none of them in another field of a header than guard_head, mem_pool_free of the new block
  -- stops with an underrun if the 8 bytes in front of the block are not the guard word, else
  -- with an overflow if the last 8 bytes of the block are not the tail word, and else releases
  -- the block; and with nothing written it releases the block.
  pub free_new :
      s.protect_mode ≡ true
      → (w : ℕ → ℕ)
      → (b : MemBlk) × (size ≤ b.size)
        × (mem_pool_free (some p) (record t { words = w }) ≡ (
            if w (p - 8) == protect_magic
            then (if w (p + b.size - 8) == tail_magic
                then done (release (p - blk_size) b (record t { words = w }))
                else aborts overflow)
            else aborts underrun))
        × (mem_pool_free (some p) t ≡ done (release (p - blk_size) b t))
  free_new on w = (given.blk, given.enough, free_given on w, free_untouched on)

  -- A block that was handed out with the protection off, for a request below 2^63 in a state
  -- where each address is in its one place, with malloc returning memory that no header is in,
  -- makes mem_pool_free stop with an underrun once the protection is on, whatever words are
  -- written, none of them in a header.
  pub protection_late :
      (n : ℕ)
      → s.protect_mode ≡ false
      → n ≢ 0
      → (w : ℕ → ℕ) → w (p - 8) ≡ t.words (p - 8)
      → mem_pool_free (some p) (mem_pool_set_protection n (record t { words = w }))
        ≡ aborts underrun
  unfolding mem_pool_free free_blk mem_pool_set_protection
  protection_late n off on w kept =
      let g = given in
      let prot : (n == 0) ≡ false = ground arith in
      let zero_there : w (p - 8) ≡ 0 = kept ∙ sym (ap t.words at_guard) ∙ g.guard ∙ rw off refl in
      rw (behind, g.header, g.freed) (rw (prot, at_guard, zero_there) refl)

  -- With the protection on, for a request below 2^63 that is the size of a class, or more than
  -- all classes, in a state where each address is in its one place, with malloc returning
  -- memory that no header is in: a caller that writes anything but the tail word to the last 8
  -- bytes of what it asked for, and nothing else, is stopped with an overflow when it frees
  -- the block.
  pub full_write :
      (word : ℕ)
      → s.protect_mode ≡ true
      → ((i : ℕ) → class_of size ≡ some i → sizes i ≡ size)
      → word ≢ tail_magic
      → mem_pool_free (some p) (record t { words = update t.words (p + size - 8) word })
        ≡ aborts overflow
  full_write word on exact ne =
      let last : ℕ = p + size - 8 in
      let size_is = given.exact exact in
      let least = given.least in
      let at : p + given.blk.size - 8 ≡ last = omega arith in
      let room : 8 ≤ p = omega (arith, given.pointer) in
      let apart : (p - 8 == last) ≡ false = ground arith in
      let self : (last == last) ≡ true = ground arith in
      let bad : (word == tail_magic) ≡ false = ground arith in
      free_given on (update t.words last word) ∙ rw (apart, guard_now on, at, self, bad) refl

release-give_back :
    (a : ℕ) (b : MemBlk) (s : Server)
    → IsOwned s
    → release a b s ≡ give_back (class_of b.size) a (marked a b s)
unfolding release
release-give_back a b s v = rw (find_slab_index-class_of s b.size v.classes) refl

freed_again :
    (a : ℕ) (b : MemBlk) (s t : Server) (idx : Option ℕ)
    → class_of b.size ≡ idx
    → t ≡ give_back idx a (marked a b s)
    → free_blk a t (t.blks a) ≡ (if leb b.size 8192 then aborts double_free else stray)
unfolding give_back free_blk
freed_again a b s t none e same =
    let self : (a == a) ≡ true = ground arith in
    let large : leb b.size 8192 ≡ false = let h = class_of-none b.size e in ground arith in
    rw same (rw (self, large) refl)
freed_again a b s t (some i) e same =
    let self : (a == a) ≡ true = ground arith in
    let small : leb b.size 8192 ≡ true =
      let h = (class_of-fits b.size i e).1 in
      let k = sizes_le i in le→leb b.size 8192 (omega arith) in
    rw same (rw (self, small) refl)

-- A pointer that was freed once: a second call stops the program if the block has a class; otherwise it
-- reads a header that was given back to the C library.
pub second_free :
    (p : ℕ) (s t : Server)
    → IsOwned s
    → mem_pool_free (some p) s ≡ done t
    → (b : MemBlk) × (s.blks (p - blk_size) ≡ some b)
      × (mem_pool_free (some p) t ≡ (if leb b.size 8192 then aborts double_free else stray))
unfolding mem_pool_free
second_free p s t v h =
    let (b, at, used, e) = done-release (p - blk_size) s t (s.blks (p - blk_size)) h in
    (
      b,
      at,
      freed_again (p - blk_size) b s t (class_of b.size) refl
          (e ∙ release-give_back (p - blk_size) b s v),
    )

-- Of the requests after a call of `mem_pool_free`, the first of the block's class gets the block again.
pub freed_first :
    (p size : ℕ) (label : Option (List ℕ)) (f : Fresh) (s t : Server) (b : MemBlk) (i : ℕ)
    → IsOwned s
    → blk_size ≤ p
    → mem_pool_free (some p) s ≡ done t
    → s.blks (p - blk_size) ≡ some b
    → class_of b.size ≡ some i
    → class_of size ≡ some i
    → (mem_pool_alloc_label size label f t).0 ≡ some p
unfolding mem_pool_free mem_pool_alloc_label take_free finish_alloc pop_free give_back
freed_first p size label f s t b i v le h at class same =
    let a : ℕ = p - blk_size in
    let (c, there, used, e) = done-release a s t (s.blks a) h in
    let b_is : c ≡ b = some_inj.0 (sym there ∙ at) in
    let t_is : t ≡ give_back (some i) a (marked a b s) =
      e ∙ ap (λ x. release a x s) b_is ∙ release-give_back a b s v ∙ rw class refl in
    let w : IsOwned t = free-IsOwned (some p) s t v h in
    let self : (i == i) ≡ true = ground arith in
    let found : find_slab_index t size ≡ some i =
      find_slab_index-class_of t size w.classes ∙ same in
    let head : (t.slabs i).free_list ≡ a ∷ (s.slabs i).free_list = rw t_is (rw self refl) in
    let back : a + blk_size ≡ p = omega arith in rw found (rw head (ap some back))
