-- ===== src/HexText/RoundTrip.antt =====
-- conv_str_hex.c there and back.
use mathlib.Core.List.{map-append, reverse, reverse-cons, reverse-append, reverse-reverse}
use learn_c.Common.{
  ℕ, suc, ◌+◌, ◌-◌, ◌/◌, ◌%◌, ◌≤◌, ◌≡◌, refl, inl, inr, true, some, List, [], ◌∷◌, ◌++◌, map, ◌==◌,
  leb, le→leb, length, length-append, arith, ap, sym, ◌∙◌, Bool-cases, if◌then◌else◌,
}
use learn_c.HexText.{
  hex_char, str_loop, convert_str_to_hex, convert_hex_to_str, byte_in_str, flip_string,
}
use learn_c.HexText.Flip.{flip_string-reverse}
use learn_c.HexText.Digits.{ends_number}
use learn_c.HexText.Bytes.{AreDigits, pad, chars, chars-str_loop, chars-first}

map-reverse : (xs : List ℕ) → map hex_char (reverse xs) ≡ reverse (map hex_char xs)
map-reverse [] = refl
map-reverse (x ∷ xs) =
    rw
      (
        reverse-cons x xs,
        map-append hex_char (reverse xs) (x ∷ []),
        map-reverse xs,
        reverse-cons (hex_char x) (map hex_char xs),
      )
      refl

length-map : (xs : List ℕ) → length (map hex_char xs) ≡ length xs
length-map [] = refl
length-map (x ∷ xs) = ap suc (length-map xs)

length-reverse : (xs : List ℕ) → length (reverse xs) ≡ length xs
length-reverse [] = refl
length-reverse (x ∷ xs) =
    ap length (reverse-cons x xs)
    ∙ omega (arith, length-append (reverse xs) (x ∷ []), length-reverse xs)

AreDigits-append : (xs ys : List ℕ) → AreDigits xs → AreDigits ys → AreDigits (xs ++ ys)
AreDigits-append [] ys d e = e
AreDigits-append (x ∷ xs) ys (lt, d) e = (lt, AreDigits-append xs ys d e)

AreDigits-reverse : (xs : List ℕ) → AreDigits xs → AreDigits (reverse xs)
AreDigits-reverse [] d = tt
AreDigits-reverse (x ∷ xs) (lt, d) =
    rw (reverse-cons x xs)
      (AreDigits-append (reverse xs) (x ∷ []) (AreDigits-reverse xs d) (lt, tt))

-- With a zero before an odd number of digits.
abbrev pub padded : List ℕ → List ℕ
padded vs = if length vs % 2 == 0 then vs else 0 ∷ vs

pad-append : (ds : List ℕ) → pad ds ≡ (if length ds % 2 == 0 then ds else ds ++ 0 ∷ [])
pad-append [] = refl
pad-append (a ∷ []) = refl
pad-append (a ∷ b ∷ r) =
    let e : suc (suc (length r)) % 2 ≡ length r % 2 = omega arith in
    elim (Bool-cases (length r % 2 == 0)) [
      | inl f ↦ rw (e, f, pad-append r, f) refl
      | inr f ↦ rw (e, f, pad-append r, f) refl
    ]

reverse-pad : (vs : List ℕ) → reverse (pad (reverse vs)) ≡ padded vs
reverse-pad vs = elim (Bool-cases (length vs % 2 == 0)) [
  | inl f ↦ rw (pad-append (reverse vs), length-reverse vs, f) (reverse-reverse vs)
  | inr f ↦
      rw
        (
          pad-append (reverse vs),
          length-reverse vs,
          f,
          reverse-append (reverse vs) (0 ∷ []),
          reverse-reverse vs,
        )
        refl
]

-- A text of 1 to 63 digits of base 16, the letters small, is turned into bytes, whatever the buffer
-- held, and these are turned into the same text, with a 0 before it if the number of digits is odd:
-- if what stands in memory behind `c_tmp` does not go on with a number.
pub convert-back :
    (behind vs old : List ℕ) (outbuf : ℕ → ℕ)
    → ends_number behind ≡ true
    → AreDigits vs
    → 1 ≤ length vs
    → length vs ≤ 63
    → (buf : ℕ → ℕ) × (convert_str_to_hex behind (map hex_char vs) outbuf ≡ some buf)
      × (convert_hex_to_str buf old (byte_in_str (map hex_char vs))
          ≡ some (map hex_char (padded vs)))
unfolding convert_str_to_hex convert_hex_to_str
convert-back behind vs old outbuf h d least few =
    let fits : leb (length (map hex_char vs)) 63 ≡ true =
      le→leb _ _ (omega (arith, length-map vs)) in
    let buf = str_loop behind 0 (map hex_char (reverse vs)) outbuf in
    let c = chars-str_loop behind h (reverse vs) (AreDigits-reverse vs d) 0 outbuf in
    (
      buf,
      rw (fits, flip_string-reverse (map hex_char vs), ← map-reverse vs) refl,
      ap flip_string (
            chars-first (byte_in_str (map hex_char vs)) ((length vs + 1) / 2 - 1) buf old
              (omega (arith, length-map vs))
            ∙ ap (λ n. chars n 0 buf) (omega (arith, length-map vs, length-reverse vs))
            ∙ c)
          ∙ flip_string-reverse (map hex_char (pad (reverse vs)))
          ∙ ap some
              (sym (map-reverse (pad (reverse vs))) ∙ ap (λ l. map hex_char l) (reverse-pad vs)),
    )
