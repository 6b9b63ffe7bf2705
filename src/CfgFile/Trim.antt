-- ===== src/CfgFile/Trim.antt =====
-- What `trim_string` of rw_cfg.c leaves of a text.
use learn_c.Common.{
  ℕ, zero, suc, ◌+◌, ◌≤◌, ◌<◌, ◌≡◌, refl, inl, inr, true, false, List, [], ◌∷◌, ◌++◌, arith, ltb,
  length, get_or, take, Bool-cases, ap, ◌∙◌, sym, length-append, append-nil, append_assoc,
}
use learn_c.CfgFile.{is_space, skip_spaces, end_loop, trim_string}

abbrev pub AllSpace : List ℕ → Type 0
AllSpace [] = Unit
AllSpace (c ∷ cs) = (is_space c ≡ true) × AllSpace cs

abbrev pub EndsOnText : List ℕ → Type 0
EndsOnText [] = Unit
EndsOnText (c ∷ []) = is_space c ≡ false
EndsOnText (c ∷ d ∷ ds) = EndsOnText (d ∷ ds)

abbrev pub StartsOnText : List ℕ → Type 0
StartsOnText [] = Unit
StartsOnText (c ∷ cs) = is_space c ≡ false

-- No space at either end.
abbrev pub IsTrimmed : List ℕ → Type 0
IsTrimmed u = StartsOnText u × EndsOnText u

skip_spaces-append : (ls t : List ℕ) → AllSpace ls → skip_spaces (ls ++ t) ≡ skip_spaces t
unfolding skip_spaces
skip_spaces-append [] t h = refl
skip_spaces-append (c ∷ ls) t (h, hs) = rw h (skip_spaces-append ls t hs)

skip_spaces-text : (t : List ℕ) → StartsOnText t → skip_spaces t ≡ t
unfolding skip_spaces
skip_spaces-text [] h = refl
skip_spaces-text (c ∷ cs) h = rw h refl

-- The loop passes over the spaces behind the first `k` bytes.
end_loop-append :
    (k m : ℕ) (t : List ℕ)
    → 1 ≤ k
    → ((i : ℕ) → i < m → is_space (get_or t (k + i) 0) ≡ true)
    → end_loop (k + m) t ≡ end_loop k t
unfolding end_loop
end_loop-append k zero t le h = let e : k + 0 ≡ k = omega arith in rw e refl
end_loop-append k (suc m) t le h =
    let e : k + suc m ≡ suc (k + m) = omega arith in
    let after_start : ltb 0 (k + m) ≡ true = ground arith in
    let space : is_space (get_or t (k + m) 0) ≡ true = h m (omega arith) in
    rw e (rw (after_start, space) (end_loop-append k m t le (λ i lt. h i (omega arith))))

end_loop-stop : (k : ℕ) (t : List ℕ) → is_space (get_or t k 0) ≡ false → end_loop (suc k) t ≡ suc k
unfolding end_loop
end_loop-stop k t h = elim (Bool-cases (ltb 0 k)) [
  | inl after ↦ rw (after, h) refl
  | inr first ↦ rw first refl
]

get_or-AllSpace :
    (rs : List ℕ) → AllSpace rs → (i : ℕ) → i < length rs → is_space (get_or rs i 0) ≡ true
get_or-AllSpace [] h i lt = absurd (omega arith)
get_or-AllSpace (c ∷ rs) (h, hs) zero lt = h
get_or-AllSpace (c ∷ rs) (h, hs) (suc i) lt = get_or-AllSpace rs hs i (omega arith)

get_or-append : (u rs : List ℕ) (i : ℕ) → get_or (u ++ rs) (length u + i) 0 ≡ get_or rs i 0
get_or-append [] rs i = let e : 0 + i ≡ i = omega arith in rw e refl
get_or-append (c ∷ u) rs i =
    let e : suc (length u) + i ≡ suc (length u + i) = omega arith in rw e (get_or-append u rs i)

get_or-last :
    (c : ℕ) (u rs : List ℕ)
    → EndsOnText (c ∷ u)
    → is_space (get_or ((c ∷ u) ++ rs) (length u) 0) ≡ false
get_or-last c [] rs h = h
get_or-last c (d ∷ u) rs h = get_or-last d u rs h

take-append : (u rs : List ℕ) → take (length u) (u ++ rs) ≡ u
take-append [] rs = refl
take-append (c ∷ u) rs = ap (λ l. c ∷ l) (take-append u rs)

-- The end that the loop finds is that of the text.
end_loop-text :
    (c : ℕ) (u rs : List ℕ)
    → EndsOnText (c ∷ u)
    → AllSpace rs
    → end_loop (length ((c ∷ u) ++ rs)) ((c ∷ u) ++ rs) ≡ suc (length u)
end_loop-text c u rs ends spaces =
    let t : List ℕ = (c ∷ u) ++ rs in
    let e : length t ≡ suc (length u) + length rs = length-append (c ∷ u) rs in
    rw e (
      end_loop-append (suc (length u)) (length rs) t (omega arith)
        (λ i lt. ap is_space (get_or-append (c ∷ u) rs i) ∙ get_or-AllSpace rs spaces i lt)
      ∙ end_loop-stop (length u) t (get_or-last c u rs ends))

skip_spaces-AllSpace : (ls : List ℕ) → AllSpace ls → skip_spaces ls ≡ []
unfolding skip_spaces
skip_spaces-AllSpace [] h = refl
skip_spaces-AllSpace (c ∷ ls) (h, hs) = rw h (skip_spaces-AllSpace ls hs)

-- A text with spaces around is trimmed to the text.
pub trim_around :
    (ls u rs : List ℕ) → AllSpace ls → IsTrimmed u → AllSpace rs → trim_string (ls ++ (u ++ rs)) ≡ u
unfolding trim_string end_loop
trim_around ls [] rs left trimmed right =
    let e : skip_spaces (ls ++ rs) ≡ [] =
      skip_spaces-append ls rs left ∙ skip_spaces-AllSpace rs right in
    rw e refl
trim_around ls (c ∷ u) rs left (starts, ends) right =
    let e : skip_spaces (ls ++ ((c ∷ u) ++ rs)) ≡ (c ∷ u) ++ rs =
      skip_spaces-append ls ((c ∷ u) ++ rs) left ∙ skip_spaces-text ((c ∷ u) ++ rs) starts in
    rw e (rw (end_loop-text c u rs ends right) (take-append (c ∷ u) rs))

pub trim_same : (u : List ℕ) → IsTrimmed u → trim_string u ≡ u
trim_same u h = ap trim_string (sym (append-nil u)) ∙ trim_around [] u [] tt h tt

-- A text is a trimmed one with spaces around.
pub record Around (s u : List ℕ) : Type 0 where
  pub before : List ℕ
  pub behind : List ℕ
  pub parts : s ≡ before ++ (u ++ behind)
  pub spaces_before : AllSpace before
  pub spaces_behind : AllSpace behind
  pub trimmed : IsTrimmed u

abbrev CutBehind : List ℕ → Type 0
CutBehind t =
    (u : List ℕ) × (rs : List ℕ) × (t ≡ u ++ rs)
    × AllSpace rs
    × EndsOnText u
    × (StartsOnText t → StartsOnText u)

cut_cons :
    (c : ℕ) (cs u rs : List ℕ) → cs ≡ u ++ rs → AllSpace rs → EndsOnText u → CutBehind (c ∷ cs)
cut_cons c cs [] rs e spaces ends = elim (Bool-cases (is_space c)) [
  | inl space ↦ ([], c ∷ rs, ap (λ l. c ∷ l) e, (space, spaces), tt, λ h. tt)
  | inr text ↦ (c ∷ [], rs, ap (λ l. c ∷ l) e, spaces, text, λ h. h)
]
cut_cons c cs (d ∷ u) rs e spaces ends = (c ∷ d ∷ u, rs, ap (λ l. c ∷ l) e, spaces, ends, λ h. h)

cut_behind : (t : List ℕ) → CutBehind t
cut_behind [] = ([], [], refl, tt, tt, λ h. h)
cut_behind (c ∷ cs) =
    let (u, rs, e, spaces, ends, starts) = cut_behind cs in cut_cons c cs u rs e spaces ends

cut_before :
    (s : List ℕ) → (ls : List ℕ) × (t : List ℕ) × (s ≡ ls ++ t) × AllSpace ls × StartsOnText t
cut_before [] = ([], [], refl, tt, tt)
cut_before (c ∷ cs) = elim (Bool-cases (is_space c)) [
  | inl space ↦
      let (ls, t, e, spaces, starts) = cut_before cs in
      (c ∷ ls, t, ap (λ l. c ∷ l) e, (space, spaces), starts)
  | inr text ↦ ([], c ∷ cs, refl, tt, text)
]

-- `trim_string` leaves a text that no space begins or ends, and takes away spaces only.
pub trim_string-Around : (s : List ℕ) → Around s (trim_string s)
trim_string-Around s =
    let (ls, t, e, left, starts) = cut_before s in
    let (u, rs, e', right, ends, keeps) = cut_behind t in
    let whole : s ≡ ls ++ (u ++ rs) = e ∙ ap (λ l. ls ++ l) e' in
    let same : trim_string s ≡ u =
      ap trim_string whole ∙ trim_around ls u rs left (keeps starts, ends) right in
    rw same (record {
      before = ls;
      behind = rs;
      parts = whole;
      spaces_before = left;
      spaces_behind = right;
      trimmed = (keeps starts, ends);
    })

AllSpace-append : (a b : List ℕ) → AllSpace a → AllSpace b → AllSpace (a ++ b)
AllSpace-append [] b h k = k
AllSpace-append (c ∷ a) b (h, hs) k = (h, AllSpace-append a b hs k)

regroup : (ls b u e rs : List ℕ) → ls ++ ((b ++ (u ++ e)) ++ rs) ≡ (ls ++ b) ++ (u ++ (e ++ rs))
regroup ls b u e rs = simp append_assoc

-- Spaces around a text make no difference.
pub trim_wider :
    (ls s rs : List ℕ) → AllSpace ls → AllSpace rs → trim_string (ls ++ (s ++ rs)) ≡ trim_string s
trim_wider ls s rs left right =
    let a = trim_string-Around s in
    let u : List ℕ = trim_string s in
    let wide : ls ++ (s ++ rs) ≡ (ls ++ a.before) ++ (u ++ (a.behind ++ rs)) =
      ap (λ x. ls ++ (x ++ rs)) a.parts ∙ regroup ls a.before u a.behind rs in
    ap trim_string wide
    ∙ trim_around (ls ++ a.before) u (a.behind ++ rs)
        (AllSpace-append ls a.before left a.spaces_before) a.trimmed
        (AllSpace-append a.behind rs a.spaces_behind right)
