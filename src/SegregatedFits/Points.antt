-- ===== src/SegregatedFits/Points.antt =====
-- Where the pointers of 3.segregated_fits.c point to: whatever the lists have become, to headers of
-- blocks that fill the pool.
use learn_c.Common.{
  ℕ, ◌+◌, ◌-◌, ◌≤◌, ◌<◌, ◌≡◌, refl, inl, inr, true, false, Bool, Option, none, some, List, [], ◌∷◌,
  ◌++◌, ◌==◌, if◌then◌else◌, update, count, arith, Bool-cases, ap, sym, subst,
}
use learn_c.ExplicitList.Tiles.{Blocks, Tiles, end_of}
use learn_c.ExplicitList.Changes.{set_free-Tiles}
use learn_c.ExplicitList.Resizing.{split-Tiles}
use learn_c.SegregatedFits.{
  Heap, block_size, pool_size, set_link, is_at, push, add_to_class, remove_from_class, new_block,
  set_size, set_free, split, get_class_id,
}

-- The addresses of the blocks from `a` on.
abbrev pub starts : ℕ → Blocks → List ℕ
starts a [] = []
starts a ((n, f) ∷ ts) = a ∷ starts (a + block_size + n) ts

abbrev pub IsStart : Blocks → ℕ → Type 0
IsStart ts x = 1 ≤ count x (starts 0 ts)

abbrev pub Points : Blocks → Option ℕ → Type 0
Points ts none = Unit
Points ts (some x) = IsStart ts x

-- The blocks fill the pool, and each pointer is NULL or points to one of them.
pub record Inv (h : Heap) (ts : Blocks) : Type 0 where
  pub tiles : Tiles h.size h.free 0 ts pool_size
  pub bins : (i : ℕ) → Points ts (h.class_bins i)
  pub next : (a : ℕ) → IsStart ts a → Points ts (h.next a)
  pub prev : (a : ℕ) → IsStart ts a → Points ts (h.prev a)

Points-update :
    (ts : Blocks) (f : ℕ → Option ℕ) (p : ℕ) (v : Option ℕ) (a : ℕ)
    → Points ts (f a)
    → Points ts v
    → Points ts (update f p v a)
Points-update ts f p v a h g = elim (Bool-cases (a == p)) [ inl e ↦ rw e g | inr e ↦ rw e h ]

Points-set_link :
    (ts : Blocks) (f : ℕ → Option ℕ) (o v : Option ℕ) (a : ℕ)
    → Points ts (f a)
    → Points ts v
    → Points ts (set_link o v f a)
Points-set_link ts f none v a h g = h
Points-set_link ts f (some p) v a h g = Points-update ts f p v a h g

-- A block becomes the first of a list.
push-Inv : (i a : ℕ) (h : Heap) (ts : Blocks) → IsStart ts a → Inv h ts → Inv (push i a h) ts
push-Inv i a h ts at v = record {
  tiles = v.tiles;
  bins = λ j. Points-update ts h.class_bins i (some a) j (v.bins j) at;
  next = λ x s. Points-update ts h.next a (h.class_bins i) x (v.next x s) (v.bins i);
  prev = λ x s.
      Points-update ts (set_link (h.class_bins i) (some a) h.prev) a none x
        (Points-set_link ts h.prev (h.class_bins i) (some a) x (v.prev x s) at) tt;
}

pub add-Inv : (a : ℕ) (h : Heap) (ts : Blocks) → IsStart ts a → Inv h ts → Inv (add_to_class a h) ts
unfolding add_to_class
add-Inv a h ts at v = push-Inv (get_class_id (h.size a)) a h ts at v

-- A block leaves the lists that it was in, or some of them.
pub remove-Inv :
    (a : ℕ) (h : Heap) (ts : Blocks) → IsStart ts a → Inv h ts → Inv (remove_from_class a h) ts
unfolding remove_from_class
remove-Inv a h ts at v =
    let next = λ (x : ℕ) (s : IsStart ts x).
      Points-set_link ts h.next (h.prev a) (h.next a) x (v.next x s) (v.next a at) in
    let i = get_class_id (h.size a) in
    record {
      tiles = v.tiles;
      bins = λ j. elim (Bool-cases (is_at (h.class_bins i) a)) [
        | inl e ↦ rw e (Points-update ts h.class_bins i _ j (v.bins j) (next a at))
        | inr e ↦ rw e (v.bins j)
      ];
      next = next;
      prev = λ x s. Points-set_link ts h.prev _ (h.prev a) x (v.prev x s) (v.prev a at);
    }

starts-append :
    (x : ℕ) (us ts : Blocks) (a : ℕ)
    → count x (starts a (us ++ ts)) ≡ count x (starts a us) + count x (starts (end_of a us) ts)
starts-append x [] ts a = omega arith
starts-append x ((n, f) ∷ us) ts a =
    let ih = starts-append x us ts (a + block_size + n) in ground arith

pub block-IsStart : (us vs : Blocks) (m : ℕ) (f : Bool) → IsStart (us ++ (m, f) ∷ vs) (end_of 0 us)
block-IsStart us vs m f = let e = starts-append (end_of 0 us) us ((m, f) ∷ vs) 0 in ground arith

Points-more :
    (ts ts' : Blocks)
    → ((x : ℕ) → IsStart ts x → IsStart ts' x)
    → (o : Option ℕ) → Points ts o
    → Points ts' o
Points-more ts ts' h none p = tt
Points-more ts ts' h (some x) p = h x p

pub marked :
    (us vs : Blocks) (m : ℕ) (f g : Bool) (x : ℕ)
    → IsStart (us ++ (m, f) ∷ vs) x
    → IsStart (us ++ (m, g) ∷ vs) x
marked us vs m f g x h =
    omega (arith, h, starts-append x us ((m, f) ∷ vs) 0, starts-append x us ((m, g) ∷ vs) 0)

-- The block behind `us` gets another mark.
pub set_free-Inv :
    (h : Heap) (us vs : Blocks) (m : ℕ) (f g : Bool)
    → Inv h (us ++ (m, f) ∷ vs)
    → Inv (set_free (end_of 0 us) g h) (us ++ (m, g) ∷ vs)
set_free-Inv h us vs m f g v =
    let to = Points-more (us ++ (m, f) ∷ vs) (us ++ (m, g) ∷ vs) (marked us vs m f g) in
    record {
      tiles = set_free-Tiles h.size h.free us vs m f g pool_size v.tiles;
      bins = λ i. to (h.class_bins i) (v.bins i);
      next = λ a s. to (h.next a) (v.next a (marked us vs m g f a s));
      prev = λ a s. to (h.prev a) (v.prev a (marked us vs m g f a s));
    }

-- The blocks after the one behind `us` is cut in two.
pub starts-cut :
    (us vs : Blocks) (m n : ℕ) (x : ℕ)
    → n + 36 < m
    → count x (starts 0 (us ++ (n, true) ∷ (m - n - block_size, true) ∷ vs))
      ≡ (if end_of 0 us + block_size + n == x then 1 else 0)
        + count x (starts 0 (us ++ (m, true) ∷ vs))
starts-cut us vs m n x lt =
    let at : end_of 0 us + block_size + n + block_size + (m - n - block_size)
        ≡ end_of 0 us + block_size + m =
      omega arith in
    let d = ap (λ y. count x (starts y vs)) at in
    let a = starts-append x us ((m, true) ∷ vs) 0 in
    let b = starts-append x us ((n, true) ∷ (m - n - block_size, true) ∷ vs) 0 in ground arith

new_block-Inv :
    (h : Heap) (us vs : Blocks) (m n : ℕ)
    → n + 36 < m
    → Inv h (us ++ (m, true) ∷ vs)
    → Inv
        (set_size (end_of 0 us) n (new_block (end_of 0 us + block_size + n) (m - n - block_size) h))
        (us ++ (n, true) ∷ (m - n - block_size, true) ∷ vs)
new_block-Inv h us vs m n lt v =
    let ts = us ++ (m, true) ∷ vs in
    let rest = end_of 0 us + block_size + n in
    let cut = us ++ (n, true) ∷ (m - n - block_size, true) ∷ vs in
    let to = Points-more ts cut (λ x s. let c = starts-cut us vs m n x lt in ground arith) in
    let old : (x : ℕ)
        → (x == end_of 0 us + block_size + n) ≡ false
        → IsStart (us ++ (n, true) ∷ (m - n - block_size, true) ∷ vs) x
        → IsStart (us ++ (m, true) ∷ vs) x =
      λ x e s. let c = starts-cut us vs m n x lt in ground arith in
    record {
      tiles = split-Tiles h.size h.free us vs m n pool_size lt v.tiles;
      bins = λ i. to (h.class_bins i) (v.bins i);
      next = λ a s. elim (Bool-cases (a == rest)) [
        | inl e ↦ rw e tt
        | inr e ↦ rw e (to (h.next a) (v.next a (old a e s)))
      ];
      prev = λ a s. elim (Bool-cases (a == rest)) [
        | inl e ↦ rw e tt
        | inr e ↦ rw e (to (h.prev a) (v.prev a (old a e s)))
      ];
    }

-- The free block behind `us` is cut in two.
pub split-Inv :
    (h : Heap) (us vs : Blocks) (m n : ℕ)
    → n + 36 < m
    → h.size (end_of 0 us) ≡ m
    → Inv h (us ++ (m, true) ∷ vs)
    → Inv (split (end_of 0 us) n h) (us ++ (n, true) ∷ (m - n - block_size, true) ∷ vs)
unfolding split add_to_class
split-Inv h us vs m n lt s v =
    let rest = end_of 0 us + block_size + n in
    let cut = us ++ (n, true) ∷ (m - n - block_size, true) ∷ vs in
    let at : IsStart (us ++ (n, true) ∷ (m - n - block_size, true) ∷ vs)
        (end_of 0 us + block_size + n) =
      let c = starts-cut us vs m n (end_of 0 us + block_size + n) lt in ground arith in
    subst
      (λ z.
        Inv (set_size (end_of 0 us) n (add_to_class rest (new_block rest (z - n - block_size) h)))
          cut)
      (sym s)
      (push-Inv (get_class_id ((new_block rest (m - n - block_size) h).size rest)) rest _ cut at
        (new_block-Inv h us vs m n lt v))

-- A pointer of the lists points to a block of the pool.
pub start_block :
    (x : ℕ) (ts : Blocks) (a : ℕ)
    → 1 ≤ count x (starts a ts)
    → (us : Blocks) × (n : ℕ) × (f : Bool) × (vs : Blocks) × (ts ≡ us ++ (n, f) ∷ vs)
      × (end_of a us ≡ x)
start_block x [] a h = absurd (omega arith)
start_block x ((n, f) ∷ ts) a h = elim (Bool-cases (a == x)) [
  | inl e ↦ ([], n, f, ts, refl, ground arith)
  | inr e ↦
      let (us, m, g, vs, s, at) = start_block x ts (a + block_size + n) (ground arith) in
      ((n, f) ∷ us, m, g, vs, ap (λ (l : Blocks). (n, f) ∷ l) s, at)
]
