-- ===== src/HexText/Digits.antt =====
-- One digit of conv_str_hex.c: what `strtol` makes of it, and the four bits of a byte.
use Prim.Native.Nat.{bit_or}
use learn_c.Common.{
  ℕ, zero, suc, ◌+◌, ◌*◌, ◌^◌, ◌<◌, ◌≡◌, refl, inl, inr, true, false, Bool, not, ◌&&◌, none, some,
  List, [], ◌∷◌, ◌==◌, ltb, arith, Option-cases, ◌∙◌, Bool-cases,
}
use learn_c.HexText.{
  hex_value, hex_char, starts, is_x, is_space, strtol_low, nibble, unsigned, digits,
}

-- A test that all numbers below `n` pass.
abbrev all_below : ℕ → (ℕ → Bool) → Bool
all_below zero p = true
all_below (suc n) p = p n && all_below n p

below : (n : ℕ) (p : ℕ → Bool) → all_below n p ≡ true → (i : ℕ) → i < n → p i ≡ true
below zero p h i lt = absurd (omega arith)
below (suc n) p h i lt = elim (Bool-cases (p n)) [
  | inl e ↦
      let rest : all_below n p ≡ true = (rw e at h) in
      elim (Bool-cases (i == n)) [
        | inl f ↦ let k : i ≡ n = ground arith in rw k e
        | inr f ↦ below n p rest i (ground arith)
      ]
  | inr e ↦ absurd (ground arith)
]

-- The four high bits and the four low ones do not meet.
pub bit_or-add : (b v : ℕ) → b < 16 → v < 16 → bit_or b (v * 2 ^ 4) ≡ b + v * 16
bit_or-add b v lb lv =
    let t =
      below 16 (λ v. bit_or b (v * 2 ^ 4) == b + v * 16)
        (below 16 (λ b. all_below 16 (λ v. bit_or b (v * 2 ^ 4) == b + v * 16)) refl b lb) v lv in
    ground arith

hex_value-char : (v : ℕ) → v < 16 → hex_value (hex_char v) ≡ some v
hex_value-char v lt = elim (Bool-cases (ltb v 10)) [ inl e ↦ ground arith | inr e ↦ ground arith ]

no_sign :
    (v : ℕ)
    → v < 16
    → (is_space (hex_char v) ≡ false)
      × ((hex_char v == b'-') ≡ false)
      × ((hex_char v == b'+') ≡ false)
no_sign v lt = elim (Bool-cases (ltb v 10)) [
  | inl e ↦ (ground arith, ground arith, ground arith)
  | inr e ↦ (ground arith, ground arith, ground arith)
]

-- Bytes behind a digit that `strtol` does not take for part of the number.
abbrev pub ends_number : List ℕ → Bool
ends_number [] = true
ends_number (d ∷ cs) = elim (hex_value d) [ none ↦ not (is_x d && starts cs) | some v ↦ false ]

digits-digit :
    (acc c v : ℕ) (cs : List ℕ)
    → hex_value c ≡ some v
    → digits acc (c ∷ cs) ≡ digits (acc * 16 + v) cs
unfolding digits
digits-digit acc c v cs h = rw (digits, h) refl

digits-end : (acc : ℕ) (cs : List ℕ) → ends_number cs ≡ true → digits acc cs ≡ acc
unfolding digits
digits-end acc [] h = refl
digits-end acc (d ∷ cs) h = elim (Option-cases (hex_value d)) [
  | inl e ↦ rw (digits, e) refl
  | inr (w, e) ↦ absurd (let f : ends_number (d ∷ cs) ≡ false = rw (ends_number, e) refl in cc)
]

no_prefix :
    (c d : ℕ) (cs : List ℕ)
    → ends_number (d ∷ cs) ≡ true
    → ((c == b'0') && is_x d && starts cs) ≡ false
no_prefix c d cs h = elim (Option-cases (hex_value d)) [
  | inl e ↦
      let k : not (is_x d && starts cs) ≡ true = (rw (ends_number, e) at h) in
      elim (Bool-cases (is_x d && starts cs)) [
        | inl f ↦ absurd (let g : not (is_x d && starts cs) ≡ false = rw f refl in cc)
        | inr f ↦ elim (Bool-cases (c == b'0')) [ inl g ↦ rw (g, f) refl | inr g ↦ rw g refl ]
      ]
  | inr (w, e) ↦ absurd (let f : ends_number (d ∷ cs) ≡ false = rw (ends_number, e) refl in cc)
]

unsigned-char :
    (v : ℕ) (behind : List ℕ)
    → v < 16
    → ends_number behind ≡ true
    → unsigned (hex_char v ∷ behind) ≡ v
unfolding unsigned
unsigned-char v [] lt h =
    digits-digit 0 (hex_char v) v [] (hex_value-char v lt) ∙ digits-end _ [] refl ∙ omega arith
unsigned-char v (d ∷ cs) lt h =
    let n = no_prefix (hex_char v) d cs h in
    let e : digits 0 (hex_char v ∷ d ∷ cs) ≡ v =
      digits-digit 0 (hex_char v) v (d ∷ cs) (hex_value-char v lt)
      ∙ digits-end (0 * 16 + v) (d ∷ cs) h
      ∙ omega arith in
    rw n e

-- `strtol` of a digit gives its value, whatever ends the number behind it.
pub strtol_low-char :
    (v : ℕ) (behind : List ℕ)
    → v < 16
    → ends_number behind ≡ true
    → strtol_low (hex_char v ∷ behind) ≡ v
unfolding strtol_low nibble
strtol_low-char v behind lt h =
    let (a, b, c) = no_sign v lt in rw (a, b, c, unsigned-char v behind lt h) (omega arith)
