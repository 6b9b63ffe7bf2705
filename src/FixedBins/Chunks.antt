-- ===== src/FixedBins/Chunks.antt =====
-- The chunks that `init_memory` of 4.slab_style_fixed_size_bins.c cuts the pool into.
use native.Mathlib.Nat.{suc-mul}
use learn_c.Common.{
  ℕ, zero, suc, ◌+◌, ◌*◌, ◌≤◌, ◌<◌, ◌≡◌, ◌⊎◌, inl, inr, List, [], ◌∷◌, arith, ◌==◌, count, leb,
  leb→le, Bool-cases,
}
use learn_c.FixedBins.{carve, init_memory}

-- A chunk of the list was there before, or is one of the new ones.
carve_from :
    (n size ptr : ℕ) (l : List ℕ) (x : ℕ)
    → 1 ≤ count x (carve n size ptr l).0
    → (1 ≤ count x l) ⊎ ((i : ℕ) × (i < n) × (x ≡ ptr + i * size))
unfolding carve
carve_from zero size ptr l x h = inl h
carve_from (suc n) size ptr l x h = elim (carve_from n size (ptr + size) (ptr ∷ l) x h) [
  | inl old ↦ elim (Bool-cases (ptr == x)) [
    | inl same ↦ inr (0, omega arith, ground arith)
    | inr other ↦ inl (ground arith)
  ]
  | inr (i, lt, e) ↦ inr (suc i, omega arith, omega (arith, suc-mul i size))
]

carve_once :
    (n size ptr : ℕ) (l : List ℕ)
    → 1 ≤ size
    → ((x : ℕ) → count x l ≤ 1)
    → ((x : ℕ) → 1 ≤ count x l → x < ptr)
    → (x : ℕ) → count x (carve n size ptr l).0 ≤ 1
unfolding carve
carve_once zero size ptr l pos once below x = once x
carve_once (suc n) size ptr l pos once below x =
    carve_once n size (ptr + size) (ptr ∷ l) pos
      (λ y. elim (Bool-cases (ptr == y)) [
        | inl same ↦
            let at : ptr ≡ y = ground arith in
            let not_there : count y l ≡ 0 = elim (Bool-cases (leb 1 (count y l))) [
              | inl there ↦ absurd (let b = below y (leb→le 1 (count y l) there) in omega arith)
              | inr gone ↦ ground arith
            ] in
            rw same (omega arith)
        | inr other ↦ let o = once y in ground arith
      ])
      (λ y h. elim (Bool-cases (ptr == y)) [
        | inl same ↦ let e : ptr ≡ y = ground arith in omega arith
        | inr other ↦ let b = below y (ground arith) in omega arith
      ])
      x

pub chunks_32 : (x : ℕ) → 1 ≤ count x init_memory.free_list_32 → (i : ℕ) × (i < 50) × (x ≡ i * 32)
unfolding init_memory
chunks_32 x h = elim (carve_from 50 32 0 [] x h) [
  | inl none_there ↦ absurd (omega arith)
  | inr (i, lt, e) ↦ (i, lt, omega arith)
]

pub chunks_64 :
    (x : ℕ) → 1 ≤ count x init_memory.free_list_64 → (i : ℕ) × (i < 30) × (x ≡ 1600 + i * 64)
unfolding init_memory carve
chunks_64 x h = elim (carve_from 30 64 1600 [] x h) [
  | inl none_there ↦ absurd (omega arith)
  | inr (i, lt, e) ↦ (i, lt, omega arith)
]

pub once_32 : (x : ℕ) → count x init_memory.free_list_32 ≤ 1
unfolding init_memory
once_32 = carve_once 50 32 0 [] (omega arith) (λ x. omega arith) (λ x h. absurd (omega arith))

pub once_64 : (x : ℕ) → count x init_memory.free_list_64 ≤ 1
unfolding init_memory carve
once_64 = carve_once 30 64 1600 [] (omega arith) (λ x. omega arith) (λ x h. absurd (omega arith))
