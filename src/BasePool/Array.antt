-- ===== src/BasePool/Array.antt =====
-- Sums over the blocks of an array or of the free lists of 1.base/mem_pool.c, and what the updates of
-- these do to them.
use learn_c.Common.{
  ℕ, zero, suc, ◌+◌, ◌-◌, ◌≤◌, ◌<◌, ◌≡◌, refl, inl, inr, false, none, some, List, [], ◌∷◌, ◌++◌,
  arith, ◌==◌, ==_iff, if◌then◌else◌, update, length, get_elem?, set, take, length-set, Bool-cases,
  ap, ◌∙◌,
}
use learn_c.BasePool.{Block, Slab, find_index, swap_out, remove_active, find_ptr, listed}

unfoldable pub sum_by : (Block → ℕ) → List Block → ℕ
sum_by w [] = 0
sum_by w (b ∷ bs) = w b + sum_by w bs

-- 1 for the blocks at an address, and for those with a user pointer.
abbrev pub addr_is : ℕ → Block → ℕ
addr_is a b = if b.addr == a then 1 else 0

abbrev pub ptr_is : ℕ → Block → ℕ
ptr_is u b = if b.user_ptr == u then 1 else 0

module _ (w : Block → ℕ) where
  pub sum-append : (xs ys : List Block) → sum_by w (xs ++ ys) ≡ sum_by w xs + sum_by w ys
  unfolding sum_by
  sum-append [] ys = omega arith
  sum-append (x ∷ xs) ys = omega (arith, sum-append xs ys)

  sum-set :
      (xs : List Block) (i : ℕ) (x v : Block)
      → get_elem? xs i ≡ some x
      → sum_by w (set xs i v) + w x ≡ sum_by w xs + w v
  unfolding sum_by
  sum-set [] i x v e = absurd (cc)
  sum-set (y ∷ xs) zero x v e = let same : y ≡ x = ground arith in omega (arith, ap w same)
  sum-set (y ∷ xs) (suc i) x v e = omega (arith, sum-set xs i x v e)

  sum-take_last :
      (xs : List Block) (n : ℕ) (l : Block)
      → length xs ≡ suc n
      → get_elem? xs n ≡ some l
      → sum_by w (take n xs) + w l ≡ sum_by w xs
  unfolding sum_by
  sum-take_last [] n l h e = absurd (omega arith)
  sum-take_last (x ∷ []) zero l h e = let same : x ≡ l = ground arith in omega (arith, ap w same)
  sum-take_last (x ∷ []) (suc n) l h e = absurd (omega arith)
  sum-take_last (x ∷ y ∷ xs) zero l h e = absurd (omega arith)
  sum-take_last (x ∷ y ∷ xs) (suc n) l h e =
      omega (arith, sum-take_last (y ∷ xs) n l (omega arith) e)

get_elem?-set_same :
    (xs : List Block) (i j : ℕ) (l : Block)
    → get_elem? xs j ≡ some l
    → get_elem? (set xs i l) j ≡ some l
get_elem?-set_same [] i j l e = absurd (cc)
get_elem?-set_same (x ∷ xs) zero zero l e = refl
get_elem?-set_same (x ∷ xs) zero (suc j) l e = e
get_elem?-set_same (x ∷ xs) (suc i) zero l e = e
get_elem?-set_same (x ∷ xs) (suc i) (suc j) l e = get_elem?-set_same xs i j l e

last_elem : (x : Block) (xs : List Block) → (l : Block) × (get_elem? (x ∷ xs) (length xs) ≡ some l)
last_elem x [] = (x, refl)
last_elem x (y ∷ xs) = last_elem y xs

swap_out-take :
    (bs : List Block) (i n : ℕ) (l : Block)
    → length bs ≡ suc n
    → get_elem? bs n ≡ some l
    → swap_out bs i ≡ take n (set bs i l)
unfolding swap_out
swap_out-take bs i n l len e =
    let m : length bs - 1 ≡ n = omega arith in rw (m, e, swap_out) (ap (λ k. take k (set bs i l)) m)

-- Moving the last block into the place of another takes that one out.
pub sum-swap_out :
    (w : Block → ℕ) (bs : List Block) (i : ℕ) (x : Block)
    → get_elem? bs i ≡ some x
    → sum_by w (swap_out bs i) + w x ≡ sum_by w bs
sum-swap_out w [] i x e = absurd (cc)
sum-swap_out w (b ∷ bs) i x e =
    let (l, last) = last_elem b bs in
    let n : ℕ = length bs in
    let len : length (set (b ∷ bs) i l) ≡ suc n = length-set (b ∷ bs) i l in
    omega (
      arith,
      ap (sum_by w) (swap_out-take (b ∷ bs) i n l refl last),
      sum-set w (b ∷ bs) i x l e,
      sum-take_last w (set (b ∷ bs) i l) n l len (get_elem?-set_same (b ∷ bs) i n l last),
    )

-- A block that is found by its user pointer is found by its address, if no other has that address.
find_ptr-find_index :
    (ptr i : ℕ) (bs : List Block) (b : Block)
    → find_ptr ptr bs ≡ some b
    → sum_by (addr_is b.addr) bs ≤ 1
    → (k : ℕ) × (find_index b.addr i bs ≡ some (i + k))
      × (get_elem? bs k ≡ some b)
      × (b.user_ptr ≡ ptr)
      × (1 ≤ sum_by (addr_is b.addr) bs)
unfolding find_ptr find_index sum_by
find_ptr-find_index ptr i [] b e one = absurd (cc)
find_ptr-find_index ptr i (x ∷ bs) b e one = elim (Bool-cases (x.user_ptr == ptr)) [
  | inl hit ↦
      let same : x ≡ b = ground arith in (0, ground arith, ground arith, ground arith, ground arith)
  | inr miss ↦
      let (k, found, at, user, some_there) =
        find_ptr-find_index ptr (i + 1) bs b (ground arith) (ground arith) in
      let other : (x.addr == b.addr) ≡ false = ground arith in
      (suc k, rw other (found ∙ ap some (omega arith)), at, user, omega arith)
]

-- `remove_active` takes out the block that was found, and no other.
pub sum-remove_active :
    (w : Block → ℕ) (ptr : ℕ) (bs : List Block) (b : Block)
    → find_ptr ptr bs ≡ some b
    → sum_by (addr_is b.addr) bs ≤ 1
    → sum_by w (remove_active b bs) + w b ≡ sum_by w bs
unfolding remove_active
sum-remove_active w ptr bs b e one =
    let (k, found, at, user, some_there) = find_ptr-find_index ptr 0 bs b e one in
    let z : 0 + k ≡ k = omega arith in rw (found, z, remove_active) (sum-swap_out w bs k b at)

pub find_ptr-user_ptr :
    (ptr : ℕ) (bs : List Block) (b : Block) → find_ptr ptr bs ≡ some b → b.user_ptr ≡ ptr
unfolding find_ptr
find_ptr-user_ptr ptr [] b e = absurd (cc)
find_ptr-user_ptr ptr (x ∷ bs) b e = ground (arith, find_ptr-user_ptr ptr bs b)

-- No block with the pointer is found exactly if none is there.
pub find_ptr-none :
    (ptr : ℕ) (bs : List Block) → sum_by (ptr_is ptr) bs ≡ 0 → find_ptr ptr bs ≡ none
unfolding find_ptr sum_by
find_ptr-none ptr [] h = refl
find_ptr-none ptr (x ∷ bs) h = ground (arith, find_ptr-none ptr bs)

listed-update_below :
    (s : ℕ → Slab) (k : ℕ) (new : Slab) (i n : ℕ)
    → k < i
    → listed i n (update s k new) ≡ listed i n s
unfolding listed
listed-update_below s k new i zero h = refl
listed-update_below s k new i (suc n) h =
    let other : update s k new i ≡ s i = ground arith in
    rw (listed-update_below s k new (i + 1) n (omega arith))
      (ap (λ (t : Slab). t.free_list ++ listed (i + 1) n s) other)

-- One free list changes, and the sum over all of them with it.
pub sum-listed-update :
    (w : Block → ℕ) (s : ℕ → Slab) (k : ℕ) (new : Slab) (i n : ℕ)
    → i ≤ k
    → k < i + n
    → sum_by w (listed i n (update s k new)) + sum_by w (s k).free_list
      ≡ sum_by w (listed i n s) + sum_by w new.free_list
unfolding listed
sum-listed-update w s k new i zero le lt = absurd (omega arith)
sum-listed-update w s k new i (suc n) le lt =
    let rest : List Block = listed (i + 1) n (update s k new) in
    elim (Bool-cases (i == k)) [
      | inl here ↦
          let at : i ≡ k = (==_iff i k).0 here in
          let first : update s k new i ≡ new = rw here in
          omega (
            arith,
            sum-append w (update s k new i).free_list rest,
            sum-append w (s i).free_list (listed (i + 1) n s),
            ap (λ (t : Slab). sum_by w t.free_list) first,
            ap (λ j. sum_by w (s j).free_list) at,
            ap (sum_by w) (listed-update_below s k new (i + 1) n (omega arith)),
          )
      | inr other ↦
          let first : update s k new i ≡ s i = rw other in
          omega (
            arith,
            sum-append w (update s k new i).free_list rest,
            sum-append w (s i).free_list (listed (i + 1) n s),
            ap (λ (t : Slab). sum_by w t.free_list) first,
            sum-listed-update w s k new (i + 1) n (ground arith) (omega arith),
          )
    ]
