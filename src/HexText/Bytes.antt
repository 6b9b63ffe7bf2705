-- ===== src/HexText/Bytes.antt =====
-- The bytes that conv_str_hex.c makes of digits, and the text that it makes of bytes.

use learn_c.Common.{
  ℕ, zero, suc, ◌+◌, ◌*◌, ◌/◌, ◌%◌, ◌^◌, ◌<◌, ◌≡◌, refl, inl, inr, true, false, List, [], ◌∷◌, ◌++◌,
  map, ◌==◌, length, length-append, take_all, arith, ap, sym, ◌∙◌, Bool-cases, append_assoc,
  append-nil,
}
use learn_c.HexText.{hex_char, put_nibble, str_loop, hex_loop, write_at}
use learn_c.HexText.Digits.{bit_or-add, ends_number, strtol_low-char}

-- The values of digits of base 16.
abbrev pub AreDigits : List ℕ → Type 0
AreDigits [] = Unit
AreDigits (v ∷ vs) = (v < 16) × AreDigits vs

-- An even number of digits, the lowest first.
abbrev pub pad : List ℕ → List ℕ
pad [] = []
pad (a ∷ []) = a ∷ 0 ∷ []
pad (a ∷ b ∷ r) = a ∷ b ∷ pad r

-- The text of `n` bytes, from number `k` on.
abbrev pub chars : ℕ → ℕ → (ℕ → ℕ) → List ℕ
chars zero k buf = []
chars (suc n) k buf = hex_char (buf k % 16) ∷ hex_char (buf k / 2 ^ 4 % 16) ∷ chars n (k + 1) buf

put_nibble-below : (i v : ℕ) (buf : ℕ → ℕ) (j : ℕ) → j < i / 2 → put_nibble i v buf j ≡ buf j
put_nibble-below i v buf j lt =
    let n : (j == i / 2) ≡ false = ground arith in
    elim (Bool-cases (i % 2 == 0)) [ inl e ↦ rw (e, n) refl | inr e ↦ rw (e, n) refl ]

str_loop-below :
    (behind : List ℕ) (i : ℕ) (cs : List ℕ) (buf : ℕ → ℕ) (j : ℕ)
    → j < i / 2
    → str_loop behind i cs buf j ≡ buf j
unfolding str_loop
str_loop-below behind i [] buf j lt = refl
str_loop-below behind i (c ∷ cs) buf j lt =
    str_loop-below behind (i + 1) cs _ j (omega arith) ∙ put_nibble-below i _ buf j lt

put_nibble-even : (k v : ℕ) (buf : ℕ → ℕ) → put_nibble (2 * k) v buf k ≡ v
put_nibble-even k v buf =
    let e : (2 * k % 2 == 0) ≡ true = ground arith in
    let n : (k == 2 * k / 2) ≡ true = ground arith in rw (e, n) refl

put_nibble-odd :
    (k v : ℕ) (buf : ℕ → ℕ) → buf k < 16 → v < 16 → put_nibble (2 * k + 1) v buf k ≡ buf k + v * 16
put_nibble-odd k v buf lb lv =
    let e : ((2 * k + 1) % 2 == 0) ≡ false = ground arith in
    let h : (2 * k + 1) / 2 ≡ k = omega arith in
    let n : (k == k) ≡ true = ground arith in rw (e, h, n) (bit_or-add (buf k) v lb lv)

str_loop-char :
    (behind : List ℕ) (i v : ℕ) (cs : List ℕ) (buf : ℕ → ℕ)
    → ends_number behind ≡ true
    → v < 16
    → str_loop behind i (hex_char v ∷ cs) buf ≡ str_loop behind (i + 1) cs (put_nibble i v buf)
unfolding str_loop
str_loop-char behind i v cs buf h lt =
    ap (λ x. str_loop behind (i + 1) cs (put_nibble i x buf)) (strtol_low-char v behind lt h)

str_loop-nil : (behind : List ℕ) (i : ℕ) (buf : ℕ → ℕ) → str_loop behind i [] buf ≡ buf
unfolding str_loop
str_loop-nil behind i buf = refl

-- The two digits of a byte.
halves : (x a b : ℕ) → x ≡ a + b * 16 → a < 16 → b < 16 → (x % 16 ≡ a) × (x / 2 ^ 4 % 16 ≡ b)
halves x a b e la lb = (omega arith, omega arith)

chars-cons :
    (n k : ℕ) (buf : ℕ → ℕ) (a b : ℕ) (rest : List ℕ)
    → buf k ≡ a + b * 16
    → a < 16
    → b < 16
    → chars n (k + 1) buf ≡ rest
    → chars (suc n) k buf ≡ hex_char a ∷ hex_char b ∷ rest
chars-cons n k buf a b rest e la lb h = let (p, q) = halves (buf k) a b e la lb in rw (p, q, h) refl

-- The bytes are those of the digits.
pub chars-str_loop :
    (behind : List ℕ)
    → ends_number behind ≡ true
    → (ds : List ℕ) → AreDigits ds
    → (k : ℕ) (buf : ℕ → ℕ)
    → chars ((length ds + 1) / 2) k (str_loop behind (2 * k) (map hex_char ds) buf)
      ≡ map hex_char (pad ds)
chars-str_loop behind h [] d k buf = refl
chars-str_loop behind h (a ∷ []) (la, d) k buf =
    let e = str_loop-char behind (2 * k) a [] buf h la in
    let p = put_nibble-even k a buf in
    chars-cons 0 k (str_loop behind (2 * k) (map hex_char (a ∷ [])) buf) a 0 []
      (ap (λ (g : ℕ → ℕ). g k) (e ∙ str_loop-nil behind _ _) ∙ p ∙ omega arith) la (omega arith)
      refl
chars-str_loop behind h (a ∷ b ∷ r) (la, (lb, d)) k buf =
    let f = put_nibble (2 * k + 1) b (put_nibble (2 * k) a buf) in
    let at : 2 * k + 1 + 1 ≡ 2 * (k + 1) = omega arith in
    let e : str_loop behind (2 * k) (map hex_char (a ∷ b ∷ r)) buf
        ≡ str_loop behind (2 * (k + 1)) (map hex_char r)
            (put_nibble (2 * k + 1) b (put_nibble (2 * k) a buf)) =
      str_loop-char behind (2 * k) a _ buf h la
      ∙ str_loop-char behind (2 * k + 1) b _ _ h lb
      ∙ ap (λ i. str_loop behind i (map hex_char r) f) at in
    let p = put_nibble-even k a buf in
    let q : put_nibble (2 * k + 1) b (put_nibble (2 * k) a buf) k ≡ a + b * 16 =
      put_nibble-odd k b (put_nibble (2 * k) a buf) (omega (arith, p)) lb
      ∙ ap (λ x. x + b * 16) p in
    let w : str_loop behind (2 * (k + 1)) (map hex_char r)
          (put_nibble (2 * k + 1) b (put_nibble (2 * k) a buf)) k
        ≡ a + b * 16 =
      str_loop-below behind (2 * (k + 1)) (map hex_char r) f k (omega arith) ∙ q in
    let n : (suc (suc (length r)) + 1) / 2 ≡ suc ((length r + 1) / 2) = omega arith in
    rw (n, e)
      (chars-cons ((length r + 1) / 2) k _ a b _ w la lb (chars-str_loop behind h r d (k + 1) f))

length-write : (i c : ℕ) (text : List ℕ) → length text ≡ i → write_at i c text ≡ text ++ c ∷ []
length-write i c text h = ap (λ l. l ++ c ∷ []) (take_all i text h)

chars-hex_loop :
    (n k : ℕ) (buf : ℕ → ℕ) (text : List ℕ)
    → length text ≡ k * 2
    → hex_loop n k buf text ≡ text ++ chars n k buf
unfolding hex_loop
chars-hex_loop zero k buf text h = sym (append-nil text)
chars-hex_loop (suc n) k buf text h =
    let c = hex_char (buf k % 16) in
    let d = hex_char (buf k / 2 ^ 4 % 16) in
    let e = length-write (k * 2) c text h in
    let len : length (text ++ c ∷ []) ≡ k * 2 + 1 = omega (arith, length-append text (c ∷ [])) in
    let f = length-write (k * 2 + 1) d (text ++ c ∷ []) len in
    let ih =
      chars-hex_loop n (k + 1) buf ((text ++ c ∷ []) ++ d ∷ [])
        (omega (arith, length-append (text ++ c ∷ []) (d ∷ []))) in
    rw (e, f, ih, append_assoc (text ++ c ∷ []) (d ∷ []), append_assoc text (c ∷ [])) refl

-- The first digit goes to the start of the text, whatever was there.
pub chars-first :
    (n m : ℕ) (buf : ℕ → ℕ) (old : List ℕ) → n ≡ suc m → hex_loop n 0 buf old ≡ chars n 0 buf
unfolding hex_loop
chars-first n m buf old h = rw h (chars-hex_loop (suc m) 0 buf [] refl)
