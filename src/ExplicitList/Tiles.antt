-- ===== src/ExplicitList/Tiles.antt =====
-- The pool of 2.explicit_free_list.c as the blocks that fill it, each with its size and whether it is
-- free, and what the free list holds of it.
use learn_c.Common.{
  ℕ, ◌+◌, ◌*◌, ◌≤◌, ◌<◌, ◌≡◌, ◌⊎◌, refl, inl, inr, true, false, Bool, none, List, [], ◌∷◌, ◌++◌,
  ◌==◌, if◌then◌else◌, update, count, length, arith, Bool-cases, ap,
}
use learn_c.ExplicitList.{Heap, block_size, pool_size}
use learn_c.ExplicitList.Links.{first, Links, NoDup}

abbrev pub Blocks : Type 0
Blocks = List (ℕ × Bool)

-- The blocks stand one behind the other from `a` to `e`.
abbrev pub Tiles : (ℕ → ℕ) → (ℕ → Bool) → ℕ → Blocks → ℕ → Type 0
Tiles size free a [] e = a ≡ e
Tiles size free a ((n, f) ∷ ts) e =
    (size a ≡ n) × (free a ≡ f) × Tiles size free (a + block_size + n) ts e

-- Where the blocks from `a` on end.
abbrev pub end_of : ℕ → Blocks → ℕ
end_of a [] = a
end_of a ((n, f) ∷ ts) = end_of (a + block_size + n) ts

-- The addresses of those that are free.
abbrev pub free_at : ℕ → Blocks → List ℕ
free_at a [] = []
free_at a ((n, f) ∷ ts) = let rest = free_at (a + block_size + n) ts in if f then a ∷ rest else rest

pub record Inv (h : Heap) (ts : Blocks) (l : List ℕ) : Type 0 where
  pub tiles : Tiles h.size h.free 0 ts pool_size
  pub links : Links h.next h.prev none l none
  pub head : h.free_list ≡ first l none
  pub listed : (x : ℕ) → count x l ≡ count x (free_at 0 ts)

pub end_le : (ts : Blocks) (a : ℕ) → a ≤ end_of a ts
end_le [] a = omega arith
end_le ((n, f) ∷ ts) a = omega (arith, end_le ts (a + block_size + n))

pub end_length : (ts : Blocks) (a : ℕ) → a + 32 * length ts ≤ end_of a ts
end_length [] a = omega arith
end_length ((n, f) ∷ ts) a = omega (arith, end_length ts (a + block_size + n))

pub end-append : (us ts : Blocks) (a : ℕ) → end_of a (us ++ ts) ≡ end_of (end_of a us) ts
end-append [] ts a = refl
end-append ((n, f) ∷ us) ts a = end-append us ts (a + block_size + n)

pub count-free_at :
    (x : ℕ) (us ts : Blocks) (a : ℕ)
    → count x (free_at a (us ++ ts)) ≡ count x (free_at a us) + count x (free_at (end_of a us) ts)
count-free_at x [] ts a = omega arith
count-free_at x ((n, true) ∷ us) ts a =
    let ih = count-free_at x us ts (a + block_size + n) in ground arith
count-free_at x ((n, false) ∷ us) ts a = count-free_at x us ts (a + block_size + n)

module _ (size : ℕ → ℕ) (free : ℕ → Bool) where
  pub Tiles-end : (ts : Blocks) (a e : ℕ) → Tiles size free a ts e → end_of a ts ≡ e
  Tiles-end [] a e h = h
  Tiles-end ((n, f) ∷ ts) a e (s, g, h) = Tiles-end ts (a + block_size + n) e h

  pub Tiles-parts :
      (us ts : Blocks) (a e : ℕ)
      → Tiles size free a (us ++ ts) e
      → Tiles size free a us (end_of a us) × Tiles size free (end_of a us) ts e
  Tiles-parts [] ts a e h = (refl, h)
  Tiles-parts ((n, f) ∷ us) ts a e (s, g, h) =
      let r = Tiles-parts us ts (a + block_size + n) e h in ((s, g, r.0), r.1)

  pub Tiles-whole :
      (us ts : Blocks) (a e : ℕ)
      → Tiles size free a us (end_of a us)
      → Tiles size free (end_of a us) ts e
      → Tiles size free a (us ++ ts) e
  Tiles-whole [] ts a e g h = h
  Tiles-whole ((n, f) ∷ us) ts a e (s, g, k) h =
      (s, g, Tiles-whole us ts (a + block_size + n) e k h)

  -- A write to a header outside the blocks.
  pub Tiles-size :
      (x v : ℕ) (ts : Blocks) (a e : ℕ)
      → (x < a) ⊎ (e ≤ x)
      → Tiles size free a ts e
      → Tiles (update size x v) free a ts e
  Tiles-size x v [] a e o h = h
  Tiles-size x v ((n, f) ∷ ts) a e o (s, g, h) =
      let le = end_le ts (a + block_size + n) in
      let en = Tiles-end ts (a + block_size + n) e h in
      let d : (a == x) ≡ false = ground arith in
      (rw d s, g, Tiles-size x v ts (a + block_size + n) e (ground arith) h)

  pub Tiles-free :
      (x : ℕ) (v : Bool) (ts : Blocks) (a e : ℕ)
      → (x < a) ⊎ (e ≤ x)
      → Tiles size free a ts e
      → Tiles size (update free x v) a ts e
  Tiles-free x v [] a e o h = h
  Tiles-free x v ((n, f) ∷ ts) a e o (s, g, h) =
      let le = end_le ts (a + block_size + n) in
      let en = Tiles-end ts (a + block_size + n) e h in
      let d : (a == x) ≡ false = ground arith in
      (s, rw d g, Tiles-free x v ts (a + block_size + n) e (ground arith) h)

-- An address in the list of the free ones is not before the first block, nor behind the last.
pub free_at-below : (x : ℕ) (ts : Blocks) (a : ℕ) → x < a → count x (free_at a ts) ≡ 0
free_at-below x [] a h = refl
free_at-below x ((n, true) ∷ ts) a h =
    let ih = free_at-below x ts (a + block_size + n) (omega arith) in ground arith
free_at-below x ((n, false) ∷ ts) a h = free_at-below x ts (a + block_size + n) (omega arith)

pub free_at-NoDup : (ts : Blocks) (a : ℕ) → NoDup (free_at a ts)
free_at-NoDup [] a x = omega arith
free_at-NoDup ((n, true) ∷ ts) a x =
    let ih = free_at-NoDup ts (a + block_size + n) x in
    elim (Bool-cases (a == x)) [
      | inl e ↦ let b = free_at-below x ts (a + block_size + n) (ground arith) in ground arith
      | inr e ↦ ground arith
    ]
free_at-NoDup ((n, false) ∷ ts) a x = free_at-NoDup ts (a + block_size + n) x

-- A free address is that of a block.
pub free_at-block :
    (x : ℕ) (ts : Blocks) (a : ℕ)
    → 1 ≤ count x (free_at a ts)
    → (us : Blocks) × (n : ℕ) × (vs : Blocks) × (ts ≡ us ++ (n, true) ∷ vs) × (end_of a us ≡ x)
free_at-block x [] a h = absurd (omega arith)
free_at-block x ((n, true) ∷ ts) a h = elim (Bool-cases (a == x)) [
  | inl e ↦ ([], n, ts, refl, ground arith)
  | inr e ↦
      let (us, m, vs, s, at) = free_at-block x ts (a + block_size + n) (ground arith) in
      ((n, true) ∷ us, m, vs, ap (λ (l : Blocks). (n, true) ∷ l) s, at)
]
free_at-block x ((n, false) ∷ ts) a h =
    let (us, m, vs, s, at) = free_at-block x ts (a + block_size + n) h in
    ((n, false) ∷ us, m, vs, ap (λ (l : Blocks). (n, false) ∷ l) s, at)

pub Inv-NoDup : (h : Heap) (ts : Blocks) (l : List ℕ) → Inv h ts l → NoDup l
Inv-NoDup h ts l v x = omega (arith, v.listed x, free_at-NoDup ts 0 x)
