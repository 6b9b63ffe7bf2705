-- ===== src/HexText.antt =====
-- 1.Demo/1.syntax_interface/10.convert/conv_str_hex.c: hexadecimal text to bytes and back. A text is
-- the list of its bytes before the zero, a buffer of bytes a function of the index.
pub mod Flip
pub mod Digits
pub mod Bytes
pub mod RoundTrip
mod Tests
use Prim.Native.Nat.{bit_or}
use learn_c.Common.{
  ℕ, zero, suc, ◌+◌, ◌-◌, ◌*◌, ◌/◌, ◌%◌, ◌^◌, min, Bool, true, false, ◌&&◌, ◌||◌, Option, none,
  some, List, [], ◌∷◌, ◌++◌, ◌==◌, ltb, leb, if◌then◌else◌, update, length, get_or, set, take,
}

-- `BYTE_IN_STR`.
abbrev pub byte_in_str : List ℕ → ℕ
byte_in_str str = (length str + 1) / 2

-- The loop of `flip_string`, in at most so many rounds; `e` is `j + 1`.
pub flip_loop : ℕ → ℕ → ℕ → List ℕ → Option (List ℕ)
flip_loop zero i e str = none
flip_loop (suc k) i e str = elim (ltb i e) [
  | true ↦
      flip_loop k (i + 1) (e - 1) (set (set str i (get_or str (e - 1) 0)) (e - 1) (get_or str i 0))
  | false ↦ some str
]

-- A round for each byte, and one for the end.
pub flip_string : List ℕ → Option (List ℕ)
unfolding flip_loop
flip_string str = flip_loop (length str + 1) 0 (length str) str

-- What `strtol` takes a digit of base 16 for.
abbrev pub hex_value : ℕ → Option ℕ
hex_value c =
    if leb b'0' c && leb c b'9'
    then some (c - b'0')
    else (if leb b'a' c && leb c b'f'
        then some (c - b'a' + 10)
        else (if leb b'A' c && leb c b'F' then some (c - b'A' + 10) else none))

abbrev pub is_space : ℕ → Bool
is_space c = (c == b' ') || (leb 9 c && leb c 13)

abbrev pub is_x : ℕ → Bool
is_x c = (c == b'x') || (c == b'X')

-- The digits up to the first byte that is none, behind those with the value `acc`.
pub digits : ℕ → List ℕ → ℕ
digits acc [] = acc
digits acc (c ∷ cs) = elim (hex_value c) [ none ↦ acc | some v ↦ digits (acc * 16 + v) cs ]

-- A digit stands first.
abbrev pub starts : List ℕ → Bool
starts [] = false
starts (c ∷ cs) = elim (hex_value c) [ none ↦ false | some v ↦ true ]

-- With the prefix `0x`, if digits follow it.
pub unsigned : List ℕ → ℕ
unfolding digits
unsigned [] = 0
unsigned (c ∷ []) = digits 0 (c ∷ [])
unsigned (c ∷ d ∷ cs) =
    if (c == b'0') && is_x d && starts cs then digits 0 cs else digits 0 (c ∷ d ∷ cs)

-- The last four bits of `strtol` in base 16 of a text without spaces before it; the largest and
-- the smallest `long` stand for what is out of range.
pub nibble : List ℕ → ℕ
unfolding unsigned
nibble [] = 0
nibble (c ∷ cs) =
    if c == b'-'
    then (16 - min (unsigned cs) (2 ^ 63) % 16) % 16
    else (if c == b'+'
        then min (unsigned cs) (2 ^ 63 - 1) % 16
        else min (unsigned (c ∷ cs)) (2 ^ 63 - 1) % 16)

pub strtol_low : List ℕ → ℕ
unfolding nibble
strtol_low [] = 0
strtol_low (c ∷ cs) = let rest = strtol_low cs in if is_space c then rest else nibble (c ∷ cs)

-- One round of the loop over the flipped text, with what stands in memory behind `c_tmp` up to the
-- next zero, which `strtol` reads too.
abbrev pub put_nibble : ℕ → ℕ → (ℕ → ℕ) → ℕ → ℕ
put_nibble i v buf =
    if i % 2 == 0
    then update buf (i / 2) v
    else update buf (i / 2) (bit_or (buf (i / 2)) (v * 2 ^ 4))

pub str_loop : List ℕ → ℕ → List ℕ → (ℕ → ℕ) → ℕ → ℕ
str_loop behind i [] buf = buf
str_loop behind i (c ∷ cs) buf =
    str_loop behind (i + 1) cs (put_nibble i (strtol_low (c ∷ behind)) buf)

-- `str` has room for 63 bytes and the zero; `none` if the text is longer.
pub convert_str_to_hex : List ℕ → List ℕ → (ℕ → ℕ) → Option (ℕ → ℕ)
unfolding flip_string str_loop
convert_str_to_hex behind instr outbuf =
    if leb (length instr) 63
    then elim (flip_string instr) [ none ↦ none | some str ↦ some (str_loop behind 0 str outbuf) ]
    else none

-- `%1x` of four bits.
abbrev pub hex_char : ℕ → ℕ
hex_char v = if ltb v 10 then b'0' + v else b'a' + (v - 10)

-- `sprintf` of one digit into a text at the given place.
abbrev pub write_at : ℕ → ℕ → List ℕ → List ℕ
write_at i c text = take i text ++ c ∷ []

-- `n` bytes are left, and the next is number `i`.
pub hex_loop : ℕ → ℕ → (ℕ → ℕ) → List ℕ → List ℕ
hex_loop zero i inbuf outstr = outstr
hex_loop (suc n) i inbuf outstr = hex_loop n (i + 1) inbuf (
    write_at (i * 2 + 1) (hex_char (inbuf i / 2 ^ 4 % 16))
      (write_at (i * 2) (hex_char (inbuf i % 16)) outstr))

-- `outstr` holds some text before.
pub convert_hex_to_str : (ℕ → ℕ) → List ℕ → ℕ → Option (List ℕ)
unfolding hex_loop flip_string
convert_hex_to_str inbuf outstr cnt = flip_string (hex_loop cnt 0 inbuf outstr)
