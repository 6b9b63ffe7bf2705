-- ===== src/FixedBins/Reach.antt =====
-- The states of 4.slab_style_fixed_size_bins.c that callers reach who give back what they were given.
use mathlib.Core.Option.{some_inj}
use learn_c.Common.{
  ℕ, ◌+◌, ◌-◌, ◌*◌, ◌≤◌, ◌≡◌, ◌⊎◌, inl, inr, Option, some, List, [], ◌∷◌, arith, ◌==◌, ltb, ltb→lt,
  if◌then◌else◌, count, length, Bool-cases, ap, ◌∙◌, subst,
}
use learn_c.FixedBins.{
  pool_size, Bins, carve, init_memory, pop, alloc_32, alloc_64, free_32, free_64, count_loop,
  print_state,
}
use learn_c.FixedBins.Chunks.{chunks_32, chunks_64, once_32, once_64}

-- The bins, and the chunks that callers have.
pub record World : Type 0 where
  pub bins : Bins
  pub used_32 : List ℕ
  pub used_64 : List ℕ

-- The list without one place of the chunk.
abbrev pub without : ℕ → List ℕ → List ℕ
without p [] = []
without p (x ∷ xs) = let rest = without p xs in if x == p then xs else x ∷ rest

pub data Reach : World → Type 0 where
  initial : Reach (record { bins = init_memory; used_32 = []; used_64 = [] })
  gets_32 :
      (p : ℕ) (b : Bins) {w : World}
      → Reach w
      → alloc_32 w.bins ≡ (some p, b)
      → Reach (record w { bins = b; used_32 = p ∷ w.used_32 })
  gets_64 :
      (p : ℕ) (b : Bins) {w : World}
      → Reach w
      → alloc_64 w.bins ≡ (some p, b)
      → Reach (record w { bins = b; used_64 = p ∷ w.used_64 })
  frees_32 :
      (p : ℕ) {w : World}
      → Reach w
      → 1 ≤ count p w.used_32
      → Reach (record w { bins = free_32 p w.bins; used_32 = without p w.used_32 })
  frees_64 :
      (p : ℕ) {w : World}
      → Reach w
      → 1 ≤ count p w.used_64
      → Reach (record w { bins = free_64 p w.bins; used_64 = without p w.used_64 })

count-without :
    (p y : ℕ) (xs : List ℕ) → count y (without p xs) ≡ count y xs - (if p == y then 1 else 0)
count-without p y [] = ground arith
count-without p y (x ∷ xs) = let ih = count-without p y xs in ground arith

length-without : (p : ℕ) (xs : List ℕ) → 1 ≤ count p xs → length (without p xs) + 1 ≡ length xs
length-without p [] h = absurd (omega arith)
length-without p (x ∷ xs) h = elim (Bool-cases (x == p)) [
  | inl here ↦ rw here (omega arith)
  | inr other ↦ let ih = length-without p xs (ground arith) in rw other (omega arith)
]

-- Used and free, the chunks are those of the beginning.
record Balanced (used free start : List ℕ) : Type 0 where
  pub each : (x : ℕ) → count x used + count x free ≡ count x start
  pub number : length used + length free ≡ length start

Balanced-pop :
    (used l start : List ℕ) (p : ℕ)
    → Balanced used l start
    → (pop l).0 ≡ some p
    → Balanced (p ∷ used) (pop l).1 start
unfolding pop
Balanced-pop used [] start p v h = absurd (cc)
Balanced-pop used (c ∷ l) start p v h =
    let e : c ≡ p = some_inj.0 h in
    record {
      each = λ x. rw (← e) (let k = v.each x in omega arith);
      number = let k = v.number in omega arith;
    }

Balanced-push :
    (used l start : List ℕ) (p : ℕ)
    → Balanced used l start
    → 1 ≤ count p used
    → Balanced (without p used) (p ∷ l) start
Balanced-push used l start p v h = record {
  each = λ x. elim (Bool-cases (p == x)) [
    | inl same ↦
        let at : p ≡ x = ground arith in
        let used_x : 1 ≤ count x used = subst (λ y. 1 ≤ count y used) at h in
        let e : count x (without p used) ≡ count x used - 1 = rw same at (count-without p x used) in
        let k = v.each x in rw same (omega arith)
    | inr other ↦
        let e : count x (without p used) ≡ count x used - 0 =
          rw other at (count-without p x used) in
        let k = v.each x in rw other (omega arith)
  ];
  number = omega (arith, length-without p used h, v.number);
}

record Inv (w : World) : Type 0 where
  pub bin_32 : Balanced w.used_32 w.bins.free_list_32 init_memory.free_list_32
  pub bin_64 : Balanced w.used_64 w.bins.free_list_64 init_memory.free_list_64

Reach-Inv : {w : World} → Reach w → Inv w
unfolding alloc_32 alloc_64 free_32 free_64
Reach-Inv initial = record {
  bin_32 = record { each = λ x. omega arith; number = omega arith };
  bin_64 = record { each = λ x. omega arith; number = omega arith };
}
Reach-Inv (gets_32 p b {w = w} r h) =
    let v = Reach-Inv r in
    let head : (pop w.bins.free_list_32).0 ≡ some p = ap (λ (x : Option ℕ × Bins). x.0) h in
    let new : record w.bins { free_list_32 = (pop w.bins.free_list_32).1 } ≡ b =
      ap (λ (x : Option ℕ × Bins). x.1) h in
    rw (← new) (record {
      bin_32 = Balanced-pop w.used_32 w.bins.free_list_32 init_memory.free_list_32 p v.bin_32 head;
      bin_64 = v.bin_64;
    })
Reach-Inv (gets_64 p b {w = w} r h) =
    let v = Reach-Inv r in
    let head : (pop w.bins.free_list_64).0 ≡ some p = ap (λ (x : Option ℕ × Bins). x.0) h in
    let new : record w.bins { free_list_64 = (pop w.bins.free_list_64).1 } ≡ b =
      ap (λ (x : Option ℕ × Bins). x.1) h in
    rw (← new) (record {
      bin_32 = v.bin_32;
      bin_64 = Balanced-pop w.used_64 w.bins.free_list_64 init_memory.free_list_64 p v.bin_64 head;
    })
Reach-Inv (frees_32 p {w = w} r h) =
    let v = Reach-Inv r in
    record {
      bin_32 = Balanced-push w.used_32 w.bins.free_list_32 init_memory.free_list_32 p v.bin_32 h;
      bin_64 = v.bin_64;
    }
Reach-Inv (frees_64 p {w = w} r h) =
    let v = Reach-Inv r in
    record {
      bin_32 = v.bin_32;
      bin_64 = Balanced-push w.used_64 w.bins.free_list_64 init_memory.free_list_64 p v.bin_64 h;
    }

-- Two chunks of a size do not meet.
abbrev pub Apart : ℕ → ℕ → ℕ → Type 0
Apart size x y = (x ≡ y) ⊎ ((x + size ≤ y) ⊎ (y + size ≤ x))

pub record IsApart (w : World) : Type 0 where
  pub once_32 : (x : ℕ) → count x w.used_32 ≤ 1
  pub once_64 : (x : ℕ) → count x w.used_64 ≤ 1
  pub apart_32 : (x y : ℕ) → 1 ≤ count x w.used_32 → 1 ≤ count y w.used_32 → Apart 32 x y
  pub apart_64 : (x y : ℕ) → 1 ≤ count x w.used_64 → 1 ≤ count y w.used_64 → Apart 64 x y
  pub inside_32 : (x : ℕ) → 1 ≤ count x w.used_32 → x + 32 ≤ 1600
  pub inside_64 : (x : ℕ) → 1 ≤ count x w.used_64 → (1600 ≤ x) × (x + 64 ≤ pool_size)

multiples_32 : (x y i j : ℕ) → x ≡ i * 32 → y ≡ j * 32 → Apart 32 x y
multiples_32 x y i j e e' = elim (Bool-cases (ltb i j)) [
  | inl less ↦ let lt = ltb→lt i j less in inr (inl (omega arith))
  | inr not_less ↦ elim (Bool-cases (ltb j i)) [
    | inl more ↦ let lt = ltb→lt j i more in inr (inr (omega arith))
    | inr not_more ↦ let same : i ≡ j = ground arith in inl (omega arith)
  ]
]

multiples_64 : (x y i j : ℕ) → x ≡ 1600 + i * 64 → y ≡ 1600 + j * 64 → Apart 64 x y
multiples_64 x y i j e e' = elim (Bool-cases (ltb i j)) [
  | inl less ↦ let lt = ltb→lt i j less in inr (inl (omega arith))
  | inr not_less ↦ elim (Bool-cases (ltb j i)) [
    | inl more ↦ let lt = ltb→lt j i more in inr (inr (omega arith))
    | inr not_more ↦ let same : i ≡ j = ground arith in inl (omega arith)
  ]
]

-- In every state that callers reach who give back only what they have, no chunk is handed out twice at a
-- time, and those that are handed out lie in the pool, the smaller before the larger, and do not meet.
pub Reach-IsApart : {w : World} → Reach w → IsApart w
Reach-IsApart {w = w} r =
    let v = Reach-Inv r in
    let here_32 : (x : ℕ) → 1 ≤ count x w.used_32 → 1 ≤ count x init_memory.free_list_32 =
      λ x h. omega (arith, h, v.bin_32.each x) in
    let here_64 : (x : ℕ) → 1 ≤ count x w.used_64 → 1 ≤ count x init_memory.free_list_64 =
      λ x h. omega (arith, h, v.bin_64.each x) in
    record {
      once_32 = λ x. omega (arith, v.bin_32.each x, once_32 x);
      once_64 = λ x. omega (arith, v.bin_64.each x, once_64 x);
      apart_32 = λ x y h k.
          let (i, lt, e) = chunks_32 x (here_32 x h) in
          let (j, lt', e') = chunks_32 y (here_32 y k) in multiples_32 x y i j e e';
      apart_64 = λ x y h k.
          let (i, lt, e) = chunks_64 x (here_64 x h) in
          let (j, lt', e') = chunks_64 y (here_64 y k) in multiples_64 x y i j e e';
      inside_32 = λ x h. let (i, lt, e) = chunks_32 x (here_32 x h) in omega arith;
      inside_64 = λ x h. let (i, lt, e) = chunks_64 x (here_64 x h) in (omega arith, omega arith);
    }

count_loop-length : (l : List ℕ) (n : ℕ) → count_loop l n ≡ length l + n
unfolding count_loop
count_loop-length [] n = omega arith
count_loop-length (c ∷ l) n = count_loop-length l (n + 1) ∙ omega arith

-- `print_state` shows what is left of the 50 and of the 30 chunks.
pub Reach-print_state :
    {w : World}
    → Reach w
    → ((print_state w.bins).0 + length w.used_32 ≡ 50)
      × ((print_state w.bins).1 + length w.used_64 ≡ 30)
unfolding print_state init_memory carve
Reach-print_state {w = w} r =
    let v = Reach-Inv r in
    let a = v.bin_32.number in
    let b = v.bin_64.number in
    (
      omega (arith, count_loop-length w.bins.free_list_32 0),
      omega (arith, count_loop-length w.bins.free_list_64 0),
    )
