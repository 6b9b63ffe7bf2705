-- ===== src/ImplicitList/Live.antt =====
-- What carving, releasing and joining do to the blocks in the callers' hands.
use learn_c.Common.{
  ℕ, ◌+◌, ◌-◌, ◌≤◌, ◌≡◌, ◌⊎◌, refl, inl, inr, true, false, ◌&&◌, Option, none, some, List, [], ◌∷◌,
  ◌++◌, arith, ltb, leb, ◌==◌, Bool-cases, ap, ltb→lt, ◌∙◌, sym,
}
use learn_c.ImplicitList.{Header, block, header_size, Memory}
use learn_c.ImplicitList.Blocks.{
  Tiled, carve, first_fit, release, join, live, find_block, IsCoalesced, IsApart, Inserted,
  init_block,
}

pub live-IsApart :
    (m : Memory) (p lo : ℕ) (bs : List Header) → lo ≤ p → Tiled m p bs → IsApart lo (live p bs)
unfolding live
live-IsApart m p lo [] h t = omega arith
live-IsApart m p lo (b ∷ bs) h t = elim (Bool-cases b.free) [
  | inl free ↦ rw free (live-IsApart m (p + header_size + b.size) lo bs (omega arith) t.1)
  | inr held ↦ rw held (
    omega arith,
    live-IsApart m (p + header_size + b.size) (p + header_size + b.size) bs (omega arith) t.1,
  )
]

-- `b` is too small, or is in use.
abbrev pub Refuses : ℕ → Header → Type 0
Refuses size b = (b.free && leb size b.size) ≡ false

abbrev pub AllRefuse : ℕ → List Header → Type 0
AllRefuse size [] = Unit
AllRefuse size (b ∷ bs) = Refuses size b × AllRefuse size bs

abbrev pub Grants : ℕ → ℕ → List Header → Option ℕ × List Header → Type 0
Grants size p bs r =
    ((r.0 ≡ none) × (r.1 ≡ bs) × AllRefuse size bs)
    ⊎ ((u : ℕ) × (n : ℕ) × (r.0 ≡ some u) × (size ≤ n) × Inserted (u, n) (live p bs) (live p r.1))

live-carve :
    (size p : ℕ) (b : Header) (bs : List Header)
    → size ≤ b.size
    → (n : ℕ) × (size ≤ n)
      × (live p (carve size b ++ bs) ≡ (p + header_size, n) ∷ live (p + header_size + b.size) bs)
unfolding carve live
live-carve size p b bs le = elim (Bool-cases (ltb (header_size + 4) (b.size - size))) [
  | inl split ↦
      let e : p + header_size + size + header_size + (b.size - size - header_size)
          ≡ p + header_size + b.size =
        omega (arith, ltb→lt _ _ split) in
      (size, omega arith, rw split (ap (λ q. (p + header_size, size) ∷ live q bs) e))
  | inr whole ↦ (b.size, le, rw whole)
]

module _ (p : ℕ) (b : Header) where
  live-free :
      (bs : List Header) → b.free ≡ true → live p (b ∷ bs) ≡ live (p + header_size + b.size) bs
  unfolding live
  live-free bs e = rw e

  live-held :
      (bs : List Header)
      → b.free ≡ false
      → live p (b ∷ bs) ≡ (p + header_size, b.size) ∷ live (p + header_size + b.size) bs
  unfolding live
  live-held bs e = rw e

  Inserted-cons :
      (r : ℕ × ℕ) (bs cs : List Header)
      → Inserted r (live (p + header_size + b.size) bs) (live (p + header_size + b.size) cs)
      → Inserted r (live p (b ∷ bs)) (live p (b ∷ cs))
  Inserted-cons r bs cs (xs, ys, e, f) = elim (Bool-cases b.free) [
    | inl free ↦ (xs, ys, live-free bs free ∙ e, live-free cs free ∙ f)
    | inr held ↦ (
      (p + header_size, b.size) ∷ xs,
      ys,
      live-held bs held ∙ ap (◌∷◌ (p + header_size, b.size)) e,
      live-held cs held ∙ ap (◌∷◌ (p + header_size, b.size)) f,
    )
  ]

  live-cons :
      (bs cs : List Header)
      → live (p + header_size + b.size) bs ≡ live (p + header_size + b.size) cs
      → live p (b ∷ bs) ≡ live p (b ∷ cs)
  unfolding live
  live-cons bs cs e = rw e

  Grants-cons :
      (size : ℕ) (bs : List Header) (r : Option ℕ × List Header)
      → Refuses size b
      → Grants size (p + header_size + b.size) bs r
      → Grants size p (b ∷ bs) (r.0, b ∷ r.1)
  Grants-cons size bs r small (inl (e, f, g)) = inl (e, ap (◌∷◌ b) f, (small, g))
  Grants-cons size bs r small (inr (u, n, e, le, ins)) =
      inr (u, n, e, le, Inserted-cons (u, n) bs r.1 ins)

module _ (size p : ℕ) (b : Header) (bs : List Header) where
  first_fit-hit :
      (b.free && leb size b.size) ≡ true
      → first_fit size p (b ∷ bs) ≡ (some (p + header_size), carve size b ++ bs)
  unfolding first_fit
  first_fit-hit hit = rw hit

  first_fit-miss :
      Refuses size b
      → first_fit size p (b ∷ bs)
        ≡ (let r = first_fit size (p + header_size + b.size) bs in (r.0, b ∷ r.1))
  unfolding first_fit
  first_fit-miss miss = rw miss

-- First fit hands out a region of at least `size` bytes and leaves the other regions as they are, or
-- answers NULL, changes nothing, and no block would do.
pub first_fit-Grants : (size p : ℕ) (bs : List Header) → Grants size p bs (first_fit size p bs)
first_fit-Grants size p [] = inl (unfold first_fit in refl, unfold first_fit in refl, tt)
first_fit-Grants size p (b ∷ bs) = elim (Bool-cases (b.free && leb size b.size)) [
  | inl hit ↦
      let (n, le, e) = live-carve size p b bs (ground arith) in
      let free : b.free ≡ true = ground arith in
      rw (first_fit-hit size p b bs hit)
        (inr (p + header_size, n, refl, le, ([], _, live-free p b bs free, e)))
  | inr miss ↦
      rw (first_fit-miss size p b bs miss)
        (Grants-cons p b size bs _ miss (first_fit-Grants size (p + header_size + b.size) bs))
]

-- Joining free neighbours hides no region and moves none.
pub live-join : (p : ℕ) (b : Header) (bs : List Header) → live p (join b bs) ≡ live p (b ∷ bs)
unfolding join
live-join p b [] = refl
live-join p b (n ∷ bs) = elim (Bool-cases (b.free && n.free)) [
  | inl both ↦
      let big : Header = block (b.size + (header_size + n.size)) b.free in
      let e : p + header_size + big.size ≡ p + header_size + b.size + header_size + n.size =
        omega arith in
      rw both (
        live-join p big bs
        ∙ live-free p big bs (ground arith)
        ∙ ap (λ q. live q bs) e
        ∙ sym (live-free (p + header_size + b.size) n bs (ground arith))
        ∙ sym (live-free p b (n ∷ bs) (ground arith)))
  | inr apart ↦ rw apart (live-cons p b _ _ (live-join (p + header_size + b.size) n bs))
]

-- The head of the joined blocks is free when `b` is.
join-head :
    (b : Header) (bs : List Header)
    → (h : Header) × (t : List Header) × (join b bs ≡ h ∷ t) × (h.free ≡ b.free)
unfolding join
join-head b [] = (b, [], refl, refl)
join-head b (n ∷ bs) = elim (Bool-cases (b.free && n.free)) [
  | inl both ↦ rw both (join-head (block (b.size + (header_size + n.size)) b.free) bs)
  | inr apart ↦ rw apart (b, join n bs, refl, refl)
]

pub join-IsCoalesced : (b : Header) (bs : List Header) → IsCoalesced (join b bs)
unfolding join
join-IsCoalesced b [] = tt
join-IsCoalesced b (n ∷ bs) = elim (Bool-cases (b.free && n.free)) [
  | inl both ↦ rw both (join-IsCoalesced (block (b.size + (header_size + n.size)) b.free) bs)
  | inr apart ↦
      let (h, t, e, f) = join-head n bs in
      let rest : IsCoalesced (h ∷ t) = rw e at (join-IsCoalesced n bs) in
      rw (apart, e) (rw f apart, rest)
]

-- Releasing the block behind `q` takes its region out.
pub live-release :
    (q p : ℕ) (b : Header) (bs : List Header)
    → find_block q p bs ≡ some b
    → b.free ≡ false
    → Inserted (q + header_size, b.size) (live p (release q p bs)) (live p bs)
unfolding release find_block
live-release q p b [] e f = cc
live-release q p b (n ∷ bs) e f = elim (Bool-cases (p == q)) [
  | inl same ↦ rw same (
    [],
    live (p + header_size + n.size) bs,
    live-free p _ bs refl,
    live-held p n bs (ground arith) ∙ ground arith,
  )
  | inr other ↦
      rw other
        (Inserted-cons p n _ _ _ (live-release q (p + header_size + n.size) b bs (ground arith) f))
]

-- A coalesced pool with nothing handed out is one free block.
pub one_block :
    (m : Memory) (bs : List Header)
    → Tiled m 0 bs
    → IsCoalesced bs
    → live 0 bs ≡ []
    → bs ≡ init_block ∷ []
unfolding live
one_block m [] t c e = absurd (omega arith)
one_block m (b ∷ []) t c e = ground arith
one_block m (b ∷ n ∷ bs) t c e = ground arith
