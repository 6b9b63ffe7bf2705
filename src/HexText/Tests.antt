-- ===== src/HexText/Tests.antt =====
-- Runs of conv_str_hex.c.

use learn_c.Common.{ℕ, ◌≡◌, refl, some, [], ◌∷◌, map, arith}
use learn_c.HexText.{
  hex_char, convert_str_to_hex, convert_hex_to_str, byte_in_str, flip_string, flip_loop, strtol_low,
  nibble, unsigned, digits,
}
use learn_c.HexText.RoundTrip.{convert-back}

-- The text "1af", with a zero behind `c_tmp`.
convert-back_example :
    (buf : ℕ → ℕ) × (convert_str_to_hex [] (map hex_char (1 ∷ 10 ∷ 15 ∷ [])) (λ _. 7) ≡ some buf)
    × (convert_hex_to_str buf (b'?' ∷ []) (byte_in_str (map hex_char (1 ∷ 10 ∷ 15 ∷ [])))
        ≡ some (map hex_char (0 ∷ 1 ∷ 10 ∷ 15 ∷ [])))
convert-back_example =
    convert-back [] (1 ∷ 10 ∷ 15 ∷ []) (b'?' ∷ []) (λ _. 7) refl
      (omega arith, (omega arith, (omega arith, tt))) (omega arith) (omega arith)

flipped : flip_string (b'a' ∷ b'b' ∷ b'c' ∷ b'd' ∷ []) ≡ some (b'd' ∷ b'c' ∷ b'b' ∷ b'a' ∷ [])
unfolding flip_string flip_loop
flipped = refl

-- A digit behind `c_tmp` in memory is read as one of the number's.
read_on : strtol_low (b'1' ∷ b'2' ∷ []) ≡ 2
unfolding strtol_low nibble unsigned digits
read_on = refl
