-- ===== src/HexText/Flip.antt =====
-- `flip_string` of conv_str_hex.c reverses a text in place.
use mathlib.Core.List.{reverse, reverse-cons, reverse-append}
use learn_c.Common.{
  ℕ, zero, suc, ◌+◌, ◌-◌, ◌<◌, ◌≡◌, refl, inl, inr, true, false, some, List, [], ◌∷◌, ◌++◌, ltb,
  length, length-append, get_or, set, get_or-append, set-append, last-cases, append_assoc,
  append-nil, arith, ap, sym, ◌∙◌, subst,
}
use learn_c.HexText.{flip_loop, flip_string}

-- The first and the last byte of what is left are exchanged.
swapped :
    (ps m qs : List ℕ) (x y : ℕ) (e : ℕ)
    → e ≡ length ps + suc (length m)
    → set
        (set (ps ++ x ∷ (m ++ y ∷ qs)) (length ps) (get_or (ps ++ x ∷ (m ++ y ∷ qs)) e 0))
        e
        (get_or (ps ++ x ∷ (m ++ y ∷ qs)) (length ps) 0)
      ≡ ps ++ y ∷ (m ++ x ∷ qs)
swapped ps m qs x y e at =
    let wide : (z w : ℕ) → ps ++ z ∷ (m ++ w ∷ qs) ≡ (ps ++ z ∷ m) ++ w ∷ qs =
      λ z w. sym (append_assoc ps (z ∷ m) (w ∷ qs)) in
    let len : (z : ℕ) → e ≡ length (ps ++ z ∷ m) =
      λ z. omega (arith, at, length-append ps (z ∷ m)) in
    let g : get_or (ps ++ x ∷ (m ++ y ∷ qs)) e 0 ≡ y =
      rw (wide x y, len x) (get_or-append (ps ++ x ∷ m) y qs 0) in
    let h : set (ps ++ y ∷ (m ++ y ∷ qs)) e x ≡ ps ++ y ∷ (m ++ x ∷ qs) =
      rw (wide y y, wide y x, len y) (set-append (ps ++ y ∷ m) y qs x) in
    rw (g, set-append ps x (m ++ y ∷ qs) y, get_or-append ps x (m ++ y ∷ qs) 0) h

-- One round.
exchanges :
    (k : ℕ) (ps m qs : List ℕ) (x y : ℕ) (e : ℕ)
    → e ≡ length ps + suc (suc (length m))
    → flip_loop (suc k) (length ps) e (ps ++ x ∷ (m ++ y ∷ qs))
      ≡ flip_loop k (length (ps ++ y ∷ [])) (e - 1) ((ps ++ y ∷ []) ++ (m ++ x ∷ qs))
unfolding flip_loop
exchanges k ps m qs x y e at =
    let d : ltb (length ps) e ≡ true = ground arith in
    let n : length (ps ++ y ∷ []) ≡ length ps + 1 = length-append ps (y ∷ []) ∙ omega arith in
    let w = swapped ps m qs x y (e - 1) (omega arith) in
    rw (flip_loop, d, w, n, append_assoc ps (y ∷ []) (m ++ x ∷ qs)) refl

-- The byte in the middle.
single :
    (k : ℕ) (ps qs : List ℕ) (x e : ℕ)
    → e ≡ length ps + 1
    → flip_loop (suc (suc k)) (length ps) e (ps ++ x ∷ qs) ≡ some (ps ++ x ∷ qs)
unfolding flip_loop
single k ps qs x e at =
    let a : ltb (length ps) e ≡ true = ground arith in
    let b : e - 1 ≡ length ps = omega arith in
    let c : ltb (length ps + 1) (e - 1) ≡ false = ground arith in
    let same : set (set (ps ++ x ∷ qs) (length ps) (get_or (ps ++ x ∷ qs) (e - 1) 0)) (e - 1)
          (get_or (ps ++ x ∷ qs) (length ps) 0)
        ≡ ps ++ x ∷ qs =
      let g = get_or-append ps x qs 0 in let h = set-append ps x qs x in rw (b, g, h, h) refl in
    rw (flip_loop, a, c, same) refl

reverse-ends :
    (x y : ℕ) (m qs : List ℕ) → reverse (x ∷ (m ++ y ∷ [])) ++ qs ≡ y ∷ (reverse m ++ x ∷ qs)
reverse-ends x y m qs =
    rw (reverse-cons x (m ++ y ∷ []), reverse-append m (y ∷ []), append_assoc) refl

-- What lies between `ps` and `qs` is left.
flip_loop-reverse :
    (k : ℕ) (ps mid qs : List ℕ) (e : ℕ)
    → e ≡ length ps + length mid
    → length mid < k
    → flip_loop k (length ps) e (ps ++ (mid ++ qs)) ≡ some (ps ++ (reverse mid ++ qs))
unfolding flip_loop
flip_loop-reverse zero ps mid qs e at fuel = absurd (omega arith)
flip_loop-reverse (suc k) ps [] qs e at fuel =
    let d : ltb (length ps) e ≡ false = ground arith in rw (flip_loop, d) refl
flip_loop-reverse (suc zero) ps (x ∷ mid) qs e at fuel = absurd (omega arith)
flip_loop-reverse (suc (suc k)) ps (x ∷ mid) qs e at fuel = elim (last-cases mid) [
  | inl n ↦
      subst
        (λ l.
          flip_loop (suc (suc k)) (length ps) e (ps ++ (x ∷ l ++ qs))
          ≡ some (ps ++ (reverse (x ∷ l) ++ qs)))
        (sym n) (single k ps qs x e (let z = ap (λ (l : List ℕ). length l) n in omega arith))
  | inr (m, y, n) ↦
      let len : length mid ≡ length m + 1 =
        ap (λ (l : List ℕ). length l) n ∙ length-append m (y ∷ []) ∙ omega arith in
      let ih =
        flip_loop-reverse (suc k) (ps ++ y ∷ []) m (x ∷ qs) (e - 1)
          (let z = length-append ps (y ∷ []) in omega arith) (omega arith) in
      let now = exchanges (suc k) ps m qs x y e (omega arith) ∙ ih in
      rw (n, append_assoc m (y ∷ []) qs, reverse-ends x y m qs)
        (now ∙ ap some (append_assoc ps (y ∷ []) (reverse m ++ x ∷ qs)))
]

pub flip_string-reverse : (str : List ℕ) → flip_string str ≡ some (reverse str)
unfolding flip_string
flip_string-reverse str =
    let h = flip_loop-reverse (length str + 1) [] str [] (length str) (omega arith) (omega arith) in
    rw (append-nil str, append-nil (reverse str)) at h
