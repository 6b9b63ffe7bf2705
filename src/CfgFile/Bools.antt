-- ===== src/CfgFile/Bools.antt =====
-- What `parse_bool` of rw_cfg.c says of a value.
use learn_c.Common.{
  same_text, ℕ, zero, suc, ◌≤◌, ◌≡◌, refl, true, List, [], ◌∷◌, ◌++◌, arith, length, take, ap, ◌∙◌,
}
use learn_c.CfgFile.{
  is_space, tolower, trim_string, to_lowercase, means_yes, parse_bool, skip_spaces, end_loop,
}
use learn_c.CfgFile.Trim.{AllSpace, StartsOnText, EndsOnText, IsTrimmed, trim_around}

is_space-tolower : (c : ℕ) → is_space (tolower c) ≡ is_space c
is_space-tolower c = ground arith

to_lowercase-append : (s t : List ℕ) → to_lowercase (s ++ t) ≡ to_lowercase s ++ to_lowercase t
unfolding to_lowercase
to_lowercase-append [] t = refl
to_lowercase-append (c ∷ s) t = ap (λ l. tolower c ∷ l) (to_lowercase-append s t)

to_lowercase-AllSpace : (s : List ℕ) → AllSpace s → AllSpace (to_lowercase s)
unfolding to_lowercase
to_lowercase-AllSpace [] h = tt
to_lowercase-AllSpace (c ∷ s) (h, hs) = (is_space-tolower c ∙ h, to_lowercase-AllSpace s hs)

to_lowercase-StartsOnText : (s : List ℕ) → StartsOnText s → StartsOnText (to_lowercase s)
unfolding to_lowercase
to_lowercase-StartsOnText [] h = tt
to_lowercase-StartsOnText (c ∷ s) h = is_space-tolower c ∙ h

to_lowercase-EndsOnText : (s : List ℕ) → EndsOnText s → EndsOnText (to_lowercase s)
unfolding to_lowercase
to_lowercase-EndsOnText [] h = tt
to_lowercase-EndsOnText (c ∷ []) h = is_space-tolower c ∙ h
to_lowercase-EndsOnText (c ∷ d ∷ s) h = to_lowercase-EndsOnText (d ∷ s) h

take-length : (n : ℕ) (s : List ℕ) → length s ≤ n → take n s ≡ s
take-length zero [] h = refl
take-length zero (c ∷ s) h = absurd (omega arith)
take-length (suc n) [] h = refl
take-length (suc n) (c ∷ s) h = ap (λ l. c ∷ l) (take-length n s (omega arith))

-- A value of at most 15 bytes means yes if what is left without the spaces around it, in small letters,
-- is "true", "1" or "yes".
pub parse_bool-means_yes :
    (ls u rs : List ℕ)
    → AllSpace ls
    → IsTrimmed u
    → AllSpace rs
    → length (ls ++ (u ++ rs)) ≤ 15
    → parse_bool (ls ++ (u ++ rs)) ≡ means_yes (to_lowercase u)
unfolding parse_bool
parse_bool-means_yes ls u rs left (starts, ends) right short =
    let whole : take 15 (ls ++ (u ++ rs)) ≡ ls ++ (u ++ rs) = take-length 15 _ short in
    let lower : to_lowercase (ls ++ (u ++ rs))
        ≡ to_lowercase ls ++ (to_lowercase u ++ to_lowercase rs) =
      to_lowercase-append ls (u ++ rs)
      ∙ ap (λ l. to_lowercase ls ++ l) (to_lowercase-append u rs) in
    ap means_yes (
      ap trim_string (ap to_lowercase whole ∙ lower)
      ∙ trim_around (to_lowercase ls) (to_lowercase u) (to_lowercase rs)
          (to_lowercase-AllSpace ls left)
          (to_lowercase-StartsOnText u starts, to_lowercase-EndsOnText u ends)
          (to_lowercase-AllSpace rs right))

-- What stands behind the first 15 bytes of a value is not looked at: "yes" and twelve spaces mean yes,
-- whatever comes behind.
pub parse_bool_cut :
    (rest : List ℕ)
    → parse_bool (
        b'y' ∷ b'e' ∷ b's' ∷ b' ' ∷ b' ' ∷ b' ' ∷ b' ' ∷ b' ' ∷ b' ' ∷ b' ' ∷ b' ' ∷ b' ' ∷ b' '
        ∷ b' ' ∷ b' ' ∷ rest)
      ≡ true
unfolding parse_bool to_lowercase trim_string skip_spaces end_loop means_yes same_text
parse_bool_cut rest = refl
