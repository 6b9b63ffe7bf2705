-- ===== src/ServerPool/Listing.antt =====
-- The reports of 3.m_mem_pool/mem_pool.c after a call of `mem_pool_alloc_label` or `mem_pool_free`.
use learn_c.Common.{
  ℕ, suc, ◌+◌, ◌^◌, ◌≤◌, ◌<◌, ◌≡◌, Option, some, List, [], ◌∷◌, length, ap, ◌∙◌, sym, subst,
}
use learn_c.ServerPool.{Server, Fresh, blk_size, label_text, mem_pool_alloc_label}
use learn_c.ServerPool.Whole.{mem_pool_dump_stats, mem_pool_dump_leaks, live, leak_lines}
use learn_c.ServerPool.Ownership.{IsOwned}
use learn_c.ServerPool.Allocating.{IsNew, alloc-IsOwned}
use learn_c.ServerPool.Calls.{Given, alloc-Given}
use learn_c.ServerPool.Report.{reported, user_ptrs, live-first, dumps}

abbrev tail_of : List ℕ → List ℕ
tail_of [] = []
tail_of (x ∷ xs) = xs

module _ (size : ℕ) (label : Option (List ℕ)) (f : Fresh) (s : Server) (p : ℕ) (t : Server)
    (v : IsOwned s) (small : size < 2 ^ 63) (new : IsNew f s)
    (got : mem_pool_alloc_label size label f s ≡ (some p, t)) where
  given : Given size label s p t
  given = alloc-Given size label f s p t v small new got

  owned : IsOwned t
  owned =
      subst IsOwned (ap (λ (x : Option ℕ × Server). x.1) got)
        (alloc-IsOwned size label f s v small new)

  first_line :
      mem_pool_dump_leaks t
      ≡ (p, given.blk.size, label_text label) ∷ leak_lines (live t.blks s.active_list)
  unfolding mem_pool_dump_leaks leak_lines
  first_line =
      let g = given in
      rw (g.active, g.pointer, ← g.name)
        (ap leak_lines (live-first t owned g.at s.active_list g.blk g.header g.freed))

  -- For a request below 2^63 that is answered, in a state where each address is in its one
  -- place, with malloc returning memory that no header is in: after the call the report of
  -- leaks begins with a line for the new block, which has the returned pointer, a size of at
  -- least the request's and the label's first 31 bytes; the lines behind it name the pointers
  -- that were reported before, in the same order; and the statistics count one block more.
  pub dumps-alloc :
      (n : ℕ) × (rest : List (ℕ × ℕ × List ℕ)) × (size ≤ n)
      × (mem_pool_dump_leaks t ≡ (p, n, label_text label) ∷ rest)
      × (reported rest ≡ reported (mem_pool_dump_leaks s))
      × ((mem_pool_dump_stats t).0 ≡ suc (mem_pool_dump_stats s).0)
  dumps-alloc =
      let g = given in
      let rest = leak_lines (live t.blks s.active_list) in
      let before = dumps s v in
      let after = dumps t owned in
      let whole : p ∷ reported rest ≡ (g.at + blk_size) ∷ user_ptrs s.active_list =
        sym (ap reported first_line) ∙ after.0 ∙ ap user_ptrs g.active in
      (
        g.blk.size,
        rest,
        g.enough,
        first_line,
        ap tail_of whole ∙ sym before.0,
        after.1 ∙ ap length g.active ∙ ap suc (sym before.1),
      )
