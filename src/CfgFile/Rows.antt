-- ===== src/CfgFile/Rows.antt =====
-- A whole file of rw_cfg.c: comments, empty lines and settings.
use learn_c.Common.{
  same_text, ℕ, ◌+◌, ◌<◌, ◌≡◌, refl, inl, inr, true, some, List, [], ◌∷◌, ◌++◌, arith, ◌==◌,
  if◌then◌else◌, length, Bool-cases, ap, ap₂, ◌∙◌,
}
use learn_c.CfgFile.{
  trim_string, Entry, by_key, read_loop, read_config_file, lines, until_equals, search_loop, found,
  search_for, search_config, fgets,
}
use learn_c.CfgFile.Trim.{trim_around}
use learn_c.CfgFile.Lines.{NoByte, AllLines, with_newlines, ended, lines-with_newlines, fgets_line}
use learn_c.CfgFile.Parse.{
  Pair, line_of, IsKey, IsPair, line_kept, line_shown, line_found, line-NoByte,
}

pub data Row : Type 0 where
  -- `#` and the text behind it
  comment : List ℕ → Row
  blank : Row
  setting : Pair → Row

abbrev pub IsRow : Row → Type 0
IsRow (comment text) = NoByte 10 text × (length text < 254)
IsRow blank = Unit
IsRow (setting p) = IsPair p

abbrev pub AreRows : List Row → Type 0
AreRows [] = Unit
AreRows (r ∷ rs) = IsRow r × AreRows rs

abbrev pub row_text : Row → List ℕ
row_text (comment text) = b'#' ∷ text
row_text blank = []
row_text (setting p) = line_of p

abbrev pub row_texts : List Row → List (List ℕ)
row_texts [] = []
row_texts (r ∷ rs) = row_text r ∷ row_texts rs

-- What is to be shown: the settings, in order.
abbrev pub entries : List Row → List Entry
entries [] = []
entries (comment text ∷ rs) = entries rs
entries (blank ∷ rs) = entries rs
entries (setting p ∷ rs) = by_key p.0 p.1 ∷ entries rs

-- The values of a key, each up to its first `=`.
abbrev pub values_of : List ℕ → List Row → List (List ℕ)
values_of key [] = []
values_of key (comment text ∷ rs) = values_of key rs
values_of key (blank ∷ rs) = values_of key rs
values_of key (setting p ∷ rs) =
    let rest = values_of key rs in
    if same_text p.0 key then trim_string (until_equals p.1).0 ∷ rest else rest

rows-AllLines : (rs : List Row) → AreRows rs → AllLines (row_texts rs)
rows-AllLines [] h = tt
rows-AllLines (comment text ∷ rs) ((clean, short), hs) =
    ((omega arith, clean), omega arith, rows-AllLines rs hs)
rows-AllLines (blank ∷ rs) (h, hs) = (tt, omega arith, rows-AllLines rs hs)
rows-AllLines (setting p ∷ rs) (h, hs) = (line-NoByte p h, h.short, rows-AllLines rs hs)

read_loop-entries :
    (n : ℕ) (rs : List Row) → AreRows rs → read_loop n (ended (row_texts rs)) ≡ entries rs
unfolding read_loop
read_loop-entries n [] h = refl
read_loop-entries n (comment text ∷ rs) (h, hs) = read_loop-entries (n + 1) rs hs
read_loop-entries n (blank ∷ rs) (h, hs) = read_loop-entries (n + 1) rs hs
read_loop-entries n (setting p ∷ rs) (h, hs) =
    rw (line_kept p h)
      (ap₂ (λ e es. e ∷ es) (line_shown p h (n + 1)) (read_loop-entries (n + 1) rs hs))

search_loop-values :
    (key : List ℕ) (rs : List Row)
    → AreRows rs
    → search_loop key (ended (row_texts rs)) ≡ values_of key rs
unfolding search_loop
search_loop-values key [] h = refl
search_loop-values key (comment text ∷ rs) (h, hs) = search_loop-values key rs hs
search_loop-values key (blank ∷ rs) (h, hs) = search_loop-values key rs hs
search_loop-values key (setting p ∷ rs) (h, hs) =
    rw (line_kept p h, line_found p h key)
      (elim (Bool-cases (same_text p.0 key)) [
        | inl same ↦
            rw same (ap (λ l. trim_string (until_equals p.1).0 ∷ l) (search_loop-values key rs hs))
        | inr other ↦ rw other (search_loop-values key rs hs)
      ])

same_text_self : (t : List ℕ) → same_text t t ≡ true
unfolding same_text
same_text_self [] = refl
same_text_self (c ∷ cs) = let same : (c == c) ≡ true = ground arith in rw same (same_text_self cs)

-- A file of comments, empty lines and lines `key = value`, each of them shorter than 255 bytes
-- without its newline, is read as the keys and values that it was made of, in order, each shown
-- by its key. A key is not empty, does not begin with `#` and has no `=`; key and value have no
-- newline, and no spaces around.
pub read_config_file-entries :
    (rs : List Row)
    → AreRows rs
    → read_config_file (some (with_newlines (row_texts rs))) ≡ some (entries rs)
unfolding read_config_file
read_config_file-entries rs h = ap some (
    ap (read_loop 0) (lines-with_newlines _ (row_texts rs) (rows-AllLines rs h) (omega arith))
    ∙ read_loop-entries 0 rs h)

search_for-found :
    (key : List ℕ) (c : ℕ) (cs file : List ℕ)
    → key ≡ c ∷ cs
    → search_for key (some file) ≡ found key (search_loop key (lines (length file) file))
unfolding search_for
search_for-found key c cs file e = rw e refl

-- In a file of comments, empty lines and lines `key = value`, each of them shorter than 255
-- bytes without its newline, search_config finds, for a typed key of fewer than 99 bytes and a
-- newline, every line of the key, and of each value what stands before its first `=`. A key is
-- not empty, does not begin with `#` and has no `=`; key and value have no newline, and no
-- spaces around.
pub search_config-values :
    (key : List ℕ) (rs : List Row)
    → IsKey key
    → length key < 99
    → AreRows rs
    → search_config (key ++ (10 ∷ [])) (some (with_newlines (row_texts rs)))
      ≡ found key (values_of key rs)
unfolding search_config
search_config-values key rs k short h =
    let typed : (fgets 99 (key ++ (10 ∷ []))).0 ≡ key ++ (10 ∷ []) =
      ap (λ (r : List ℕ × List ℕ). r.0) (fgets_line 99 key [] k.one_line short) in
    let trimmed : trim_string (key ++ (10 ∷ [])) ≡ key =
      trim_around [] key (10 ∷ []) tt k.trimmed (refl, tt) in
    rw (typed, trimmed)
      (search_for-found key k.first k.others (with_newlines (row_texts rs)) k.bytes
        ∙ ap (found key) (
            ap (search_loop key)
              (lines-with_newlines _ (row_texts rs) (rows-AllLines rs h) (omega arith))
            ∙ search_loop-values key rs h))
