-- ===== src/CfgFile/Lines.antt =====
-- The lines that rw_cfg.c reads from a file.
use learn_c.Common.{
  ℕ, zero, suc, ◌+◌, ◌≤◌, ◌<◌, ◌≡◌, ◌≢◌, refl, false, List, [], ◌∷◌, ◌++◌, arith, ◌==◌, length, ap,
  ◌∙◌, sym, length-append, append_assoc,
}
use learn_c.CfgFile.{fgets, lines}

-- What is behind a line with a byte is shorter.
length-rest :
    (n : ℕ) (a b file : List ℕ) → a ++ b ≡ file → 1 ≤ length a → length file ≤ suc n → length b ≤ n
length-rest n a b file e some_byte le =
    let whole : length a + length b ≡ length file = sym (length-append a b) ∙ ap length e in
    omega arith

-- A text with no newline.
abbrev pub NoByte : ℕ → List ℕ → Type 0
NoByte b [] = Unit
NoByte b (c ∷ cs) = (c ≢ b) × NoByte b cs

pub fgets_line :
    (n : ℕ) (text rest : List ℕ)
    → NoByte 10 text
    → length text < n
    → fgets n (text ++ (10 ∷ rest)) ≡ (text ++ (10 ∷ []), rest)
unfolding fgets
fgets_line zero text rest h lt = absurd (omega arith)
fgets_line (suc n) [] rest h lt = refl
fgets_line (suc n) (c ∷ cs) rest (h, hs) lt =
    let other : (c == 10) ≡ false = ground arith in
    rw (other, fgets_line n cs rest hs (omega arith)) refl

-- The file that has the given lines.
abbrev pub with_newlines : List (List ℕ) → List ℕ
with_newlines [] = []
with_newlines (t ∷ ts) = t ++ (10 ∷ with_newlines ts)

abbrev pub AllLines : List (List ℕ) → Type 0
AllLines [] = Unit
AllLines (t ∷ ts) = NoByte 10 t × (length t < 255) × AllLines ts

abbrev pub ended : List (List ℕ) → List (List ℕ)
ended [] = []
ended (t ∷ ts) = (t ++ (10 ∷ [])) ∷ ended ts

-- A file of lines that are short enough is read line by line.
pub lines-with_newlines :
    (n : ℕ) (ts : List (List ℕ))
    → AllLines ts
    → length (with_newlines ts) ≤ n
    → lines n (with_newlines ts) ≡ ended ts
unfolding lines
lines-with_newlines zero [] h le = refl
lines-with_newlines (suc n) [] h le = refl
lines-with_newlines zero ([] ∷ ts) h le = absurd (omega arith)
lines-with_newlines zero ((c ∷ cs) ∷ ts) h le = absurd (omega arith)
lines-with_newlines (suc n) ([] ∷ ts) (clean, short, h) le =
    ap (λ l. (10 ∷ []) ∷ l) (lines-with_newlines n ts h (omega arith))
lines-with_newlines (suc n) ((c ∷ cs) ∷ ts) (clean, short, h) le =
    let first = fgets_line 255 (c ∷ cs) (with_newlines ts) clean short in
    let less =
      length-rest n (c ∷ (cs ++ (10 ∷ []))) (with_newlines ts) _
        (append_assoc (c ∷ cs) (10 ∷ []) (with_newlines ts)) (omega arith) le in
    rw first (ap (λ l. ((c ∷ cs) ++ (10 ∷ [])) ∷ l) (lines-with_newlines n ts h less))
