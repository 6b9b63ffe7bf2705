-- ===== src/ExplicitList/Reach.antt =====
-- The pools of 2.explicit_free_list.c that callers can reach, and what `print_state` shows of them.
use learn_c.Common.{
  ok_inj, ℕ, zero, suc, ◌+◌, ◌<◌, ◌≡◌, refl, true, false, Option, some, List, [], ◌∷◌, ◌++◌, ltb,
  length, arith, ap, sym, ◌∙◌, subst, ok,
}
use learn_c.ExplicitList.{
  Heap, block_size, pool_size, my_free, rounds, print_loop, print_state, init_memory,
}
use learn_c.ExplicitList.Tiles.{Blocks, Tiles, end_of, Inv, end_le, Tiles-end}
use learn_c.ExplicitList.Malloc.{Inv-length}
use learn_c.ExplicitList.{my_malloc}
use learn_c.ExplicitList.Malloc.{Served, full, given, my_malloc-Served}
use learn_c.ExplicitList.Free.{my_free-unused}

print_loop-Tiles :
    (k : ℕ) (h : Heap) (ts : Blocks) (a : ℕ)
    → Tiles h.size h.free a ts pool_size
    → length ts < k
    → print_loop k a h ≡ ok ts
unfolding print_loop
print_loop-Tiles zero h ts a t fuel = absurd (omega arith)
print_loop-Tiles (suc k) h [] a t fuel =
    let e : ltb a pool_size ≡ false = ground arith in rw (print_loop, e) refl
print_loop-Tiles (suc k) h ((n, f) ∷ ts) a (s, g, t) fuel =
    let b = Tiles-end h.size h.free ts (a + block_size + n) pool_size t in
    let c = end_le ts (a + block_size + n) in
    let e : ltb a pool_size ≡ true = ground arith in
    let ih = print_loop-Tiles k h ts (a + block_size + n) t (omega arith) in
    rw (print_loop, e, s, ih, g) refl

-- print_state of a well-formed pool ends and shows its blocks in order.
pub print_state-blocks : (h : Heap) (ts : Blocks) (l : List ℕ) → Inv h ts l → print_state h ≡ ok ts
unfolding print_state
print_state-blocks h ts l v = print_loop-Tiles rounds h ts 0 v.tiles (omega (arith, Inv-length v))

pub init-Inv : (h : Heap) → Inv (init_memory h) ((10208, true) ∷ []) (0 ∷ [])
unfolding init_memory
init-Inv h = record {
  tiles = (refl, refl, refl);
  links = (refl, refl, tt);
  head = refl;
  listed = λ x. refl;
}

-- What callers can reach who give back only what they have, as `print_state` shows it.
pub data Reach (start : Heap) : Heap → Type 0 where
  initial : Reach start (init_memory start)
  allocates :
      (size : ℕ) {h t : Heap} (o : Option ℕ)
      → Reach start h
      → my_malloc size h ≡ ok (o, t)
      → Reach start t
  frees :
      (us vs : Blocks) (m : ℕ) {h t : Heap}
      → Reach start h
      → print_state h ≡ ok (us ++ (m, false) ∷ vs)
      → my_free (some (end_of 0 us + block_size)) h ≡ ok t
      → Reach start t

abbrev pub IsWell : Heap → Type 0
IsWell h = (ts : Blocks) × (l : List ℕ) × Inv h ts l

Served-IsWell :
    {h : Heap} {ts : Blocks} {l : List ℕ} {n : ℕ} {o : Option ℕ} {t : Heap}
    → Inv h ts l
    → Served h ts n o t
    → IsWell t
Served-IsWell {ts = ts} {l = l} v (full e) = (ts, l, v)
Served-IsWell v (given us vs m l p le w) = (_, l, w)

-- Every pool that callers can reach is well-formed: its blocks fill it, and the free list, which can
-- be followed forward and back, has each free block once and nothing else.
pub Reach-IsWell : {start h : Heap} → Reach start h → IsWell h
Reach-IsWell {start = start} initial = (_, _, init-Inv start)
Reach-IsWell (allocates size {h = h} {t = t} o r e) =
    let (ts, l, v) = Reach-IsWell r in
    let (p, g, d, s) = my_malloc-Served size h ts l v in
    let same : g ≡ t = ap (λ (x : Option ℕ × Heap). x.1) (ok_inj (sym d ∙ e)) in
    subst IsWell same (Served-IsWell v s)
Reach-IsWell (frees us vs m {h = h} {t = t} r shown e) =
    let (ts, l, v) = Reach-IsWell r in
    let same : ts ≡ us ++ (m, false) ∷ vs = ok_inj (sym (print_state-blocks h ts l v) ∙ shown) in
    let (g, d, f) = my_free-unused h us vs m l (subst (λ b. Inv h b l) same v) in
    let last : g ≡ t = ok_inj (sym d ∙ e) in subst IsWell last (f.blocks, f.listed, f.inv)
