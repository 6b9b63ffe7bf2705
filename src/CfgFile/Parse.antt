-- ===== src/CfgFile/Parse.antt =====
-- What rw_cfg.c reads and finds in a file of lines `key = value`.
use learn_c.Common.{
  same_text, ℕ, ◌<◌, ◌≡◌, ◌≢◌, ◌⊎◌, refl, inl, inr, false, none, some, List, [], ◌∷◌, ◌++◌, arith,
  ◌==◌, if◌then◌else◌, length, Bool-cases, ap, ◌∙◌, sym, subst, append_assoc, append-nil,
}
use learn_c.CfgFile.{
  trim_string, before_newline, split_equals, by_key, show_pair, skipped, show_split, until_equals,
  skip_equals, strtok_r, token_from, find_value,
}
use learn_c.CfgFile.Trim.{IsTrimmed, trim_around, trim_wider}
use learn_c.CfgFile.Lines.{NoByte}

abbrev pub Pair : Type 0
Pair = List ℕ × List ℕ

-- The line `key = value`.
abbrev pub line_of : Pair → List ℕ
line_of (key, value) = key ++ (b' ' ∷ b'=' ∷ b' ' ∷ value)

-- A key has a byte, and its first is not that of a comment; no space stands around it, and no `=` in it.
pub record IsKey (key : List ℕ) : Type 0 where
  pub first : ℕ
  pub others : List ℕ
  pub bytes : key ≡ first ∷ others
  pub no_comment : first ≢ b'#'
  pub trimmed : IsTrimmed key
  pub no_equals : NoByte b'=' key
  pub one_line : NoByte 10 key

pub record IsPair (p : Pair) : Type 0 where
  pub key : IsKey p.0
  pub trimmed : IsTrimmed p.1
  pub one_line : NoByte 10 p.1
  pub short : length (line_of p) < 255

pub NoByte-append : (b : ℕ) (s t : List ℕ) → NoByte b s → NoByte b t → NoByte b (s ++ t)
NoByte-append b [] t h k = k
NoByte-append b (c ∷ s) t (h, hs) k = (h, NoByte-append b s t hs k)

before_newline-append : (t : List ℕ) → NoByte 10 t → before_newline (t ++ (10 ∷ [])) ≡ t
unfolding before_newline
before_newline-append [] h = refl
before_newline-append (c ∷ cs) (h, hs) =
    let other : (c == 10) ≡ false = ground arith in rw (other, before_newline-append cs hs) refl

split_equals-append : (k v : List ℕ) → NoByte b'=' k → split_equals (k ++ (b'=' ∷ v)) ≡ some (k, v)
unfolding split_equals
split_equals-append [] v h = refl
split_equals-append (c ∷ cs) v (h, hs) =
    let other : (c == b'=') ≡ false = ground arith in rw (other, split_equals-append cs v hs) refl

pub until_equals-append : (k v : List ℕ) → NoByte b'=' k → until_equals (k ++ (b'=' ∷ v)) ≡ (k, v)
unfolding until_equals
until_equals-append [] v h = refl
until_equals-append (c ∷ cs) v (h, hs) =
    let other : (c == b'=') ≡ false = ground arith in rw (other, until_equals-append cs v hs) refl

until_equals-all : (w : List ℕ) → NoByte b'=' w → (until_equals w).0 ≡ w
unfolding until_equals
until_equals-all [] h = refl
until_equals-all (c ∷ cs) (h, hs) =
    let other : (c == b'=') ≡ false = ground arith in
    rw other (ap (λ l. c ∷ l) (until_equals-all cs hs))

-- One byte more is in the part before the `=`, or behind it.
until_equals-end :
    (v w : List ℕ)
    → NoByte b'=' w
    → ((until_equals (v ++ w)).0 ≡ (until_equals v).0)
      ⊎ ((until_equals (v ++ w)).0 ≡ (until_equals v).0 ++ w)
unfolding until_equals
until_equals-end [] w h = inr (until_equals-all w h)
until_equals-end (c ∷ cs) w h = elim (Bool-cases (c == b'=')) [
  | inl here ↦ inl (rw here refl)
  | inr other ↦ elim (until_equals-end cs w h) [
    | inl e ↦ inl (rw other (ap (λ l. c ∷ l) e))
    | inr e ↦ inr (rw other (ap (λ l. c ∷ l) e))
  ]
]

strtok_r-text : (c : ℕ) (cs t : List ℕ) → t ≡ c ∷ cs → c ≢ b'=' → strtok_r t ≡ some (until_equals t)
unfolding strtok_r skip_equals token_from
strtok_r-text c cs t e ne =
    let other : (c == b'=') ≡ false = ground arith in
    let kept : skip_equals (c ∷ cs) ≡ c ∷ cs = rw other refl in rw e (ap token_from kept)

module _ (p : Pair) (ok_pair : IsPair p) where
  pub shifted : line_of p ≡ (p.0 ++ (b' ' ∷ [])) ++ (b'=' ∷ b' ' ∷ p.1)
  shifted = sym (append_assoc p.0 (b' ' ∷ []) (b'=' ∷ b' ' ∷ p.1))

  pub key_space : NoByte b'=' (p.0 ++ (b' ' ∷ []))
  key_space = NoByte-append b'=' p.0 (b' ' ∷ []) ok_pair.key.no_equals (omega arith, tt)

  pub key_trimmed : trim_string (p.0 ++ (b' ' ∷ [])) ≡ p.0
  key_trimmed = trim_around [] p.0 (b' ' ∷ []) tt ok_pair.key.trimmed (refl, tt)

  value_trimmed : trim_string (b' ' ∷ p.1) ≡ p.1
  value_trimmed =
      ap (λ v. trim_string (b' ' ∷ v)) (sym (append-nil p.1))
      ∙ trim_around (b' ' ∷ []) p.1 [] (refl, tt) ok_pair.trimmed tt

  pub line-NoByte : NoByte 10 (line_of p)
  line-NoByte =
      NoByte-append 10 p.0 (b' ' ∷ b'=' ∷ b' ' ∷ p.1) ok_pair.key.one_line
        (omega arith, (omega arith, (omega arith, ok_pair.one_line)))

  pub line_kept : skipped (line_of p ++ (10 ∷ [])) ≡ false
  line_kept =
      let k = ok_pair.key in
      let clean : NoByte 10 (k.first ∷ k.others) = subst (NoByte 10) k.bytes k.one_line in
      let no_newline : k.first ≢ 10 = clean.0 in
      let a : (k.first == b'#') ≡ false = let h = k.no_comment in ground arith in
      let b : (k.first == 10) ≡ false = ground arith in rw k.bytes (rw (a, b) refl)

  pub line_shown :
      (n : ℕ)
      → show_split n (split_equals (before_newline (line_of p ++ (10 ∷ [])))) ≡ by_key p.0 p.1
  unfolding show_split show_pair
  line_shown n = rw (before_newline-append (line_of p) line-NoByte) (
      rw shifted (
        rw (split_equals-append (p.0 ++ (b' ' ∷ [])) (b' ' ∷ p.1) key_space)
          (rw (key_trimmed, value_trimmed) (rw ok_pair.key.bytes refl))))

  -- What `strtok_r` makes of the line.
  line_token :
      strtok_r (line_of p ++ (10 ∷ [])) ≡ some (p.0 ++ (b' ' ∷ []), b' ' ∷ (p.1 ++ (10 ∷ [])))
  line_token =
      let k = ok_pair.key in
      let no_equals : NoByte b'=' (k.first ∷ k.others) = subst (NoByte b'=') k.bytes k.no_equals in
      let whole : line_of p ++ (10 ∷ [])
          ≡ (p.0 ++ (b' ' ∷ [])) ++ (b'=' ∷ b' ' ∷ (p.1 ++ (10 ∷ []))) =
        ap (λ l. l ++ (10 ∷ [])) shifted
        ∙ append_assoc (p.0 ++ (b' ' ∷ [])) (b'=' ∷ b' ' ∷ p.1) (10 ∷ []) in
      strtok_r-text k.first _ (line_of p ++ (10 ∷ []))
        (ap (λ x. (x ++ (b' ' ∷ b'=' ∷ b' ' ∷ p.1)) ++ (10 ∷ [])) k.bytes) (no_equals.0)
      ∙ ap some (
          ap until_equals whole
          ∙ until_equals-append (p.0 ++ (b' ' ∷ [])) (b' ' ∷ (p.1 ++ (10 ∷ []))) key_space)

  value_token :
      trim_string (until_equals (b' ' ∷ (p.1 ++ (10 ∷ [])))).0 ≡ trim_string (until_equals p.1).0
  unfolding until_equals
  value_token =
      let s : List ℕ = (until_equals p.1).0 in
      elim (until_equals-end p.1 (10 ∷ []) (omega arith, tt)) [
        | inl e ↦ rw e (
            ap (λ x. trim_string (b' ' ∷ x)) (sym (append-nil s))
            ∙ trim_wider (b' ' ∷ []) s [] (refl, tt) tt)
        | inr e ↦ rw e (trim_wider (b' ' ∷ []) s (10 ∷ []) (refl, tt) (refl, tt))
      ]

  pub line_found :
      (key : List ℕ)
      → find_value key (strtok_r (line_of p ++ (10 ∷ [])))
        ≡ (if same_text p.0 key then some (trim_string (until_equals p.1).0) else none)
  unfolding find_value
  line_found key = rw line_token (
      rw key_trimmed (elim (Bool-cases (same_text p.0 key)) [
        | inl same ↦ rw same (ap some value_token)
        | inr other ↦ rw other refl
      ]))
