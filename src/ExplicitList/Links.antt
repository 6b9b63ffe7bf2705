-- ===== src/ExplicitList/Links.antt =====
-- The doubly linked list of 2.explicit_free_list.c: what the fields `next` and `prev` say of a list of
-- blocks, and what the two operations on it do.
use learn_c.Common.{
  ℕ, ◌+◌, ◌≤◌, ◌≡◌, ◌≢◌, refl, inl, inr, true, false, Option, none, some, List, [], ◌∷◌, ◌++◌, ◌==◌,
  if◌then◌else◌, update, count, arith, Bool-cases, ap, sym, ◌∙◌,
}
use learn_c.ExplicitList.{Heap, set_link, is_at, remove_from_free_list, add_to_free_list}

-- The first block, or what follows the list.
abbrev pub first : List ℕ → Option ℕ → Option ℕ
first [] q = q
first (a ∷ l) q = some a

-- The last block, or what comes before the list.
abbrev pub final : Option ℕ → List ℕ → Option ℕ
final p [] = p
final p (a ∷ l) = final (some a) l

-- The blocks are linked in this order, with `p` before the first and `q` behind the last.
abbrev pub Links : (ℕ → Option ℕ) → (ℕ → Option ℕ) → Option ℕ → List ℕ → Option ℕ → Type 0
Links next prev p [] q = Unit
Links next prev p (a ∷ l) q = (prev a ≡ p) × (next a ≡ first l q) × Links next prev (some a) l q

abbrev pub NoDup : List ℕ → Type 0
NoDup l = (x : ℕ) → count x l ≤ 1

pub NoDup-tail : (a : ℕ) (l : List ℕ) → NoDup (a ∷ l) → NoDup l × (count a l ≡ 0)
NoDup-tail a l d = (λ x. let e = d x in ground arith, let e = d a in ground arith)

pub count-append : (x : ℕ) (xs ys : List ℕ) → count x (xs ++ ys) ≡ count x xs + count x ys
count-append x [] ys = omega arith
count-append x (a ∷ xs) ys = let ih = count-append x xs ys in ground arith

first-append : (xs ys : List ℕ) (q : Option ℕ) → first (xs ++ ys) q ≡ first xs (first ys q)
first-append [] ys q = refl
first-append (a ∷ xs) ys q = refl

module _ (next prev : ℕ → Option ℕ) where
  pub Links-parts :
      (p q : Option ℕ) (xs ys : List ℕ)
      → Links next prev p (xs ++ ys) q
      → Links next prev p xs (first ys q) × Links next prev (final p xs) ys q
  Links-parts p q [] ys h = (tt, h)
  Links-parts p q (a ∷ xs) ys (e, f, h) =
      let r = Links-parts (some a) q xs ys h in ((e, f ∙ first-append xs ys q, r.0), r.1)

  pub Links-whole :
      (p q : Option ℕ) (xs ys : List ℕ)
      → Links next prev p xs (first ys q)
      → Links next prev (final p xs) ys q
      → Links next prev p (xs ++ ys) q
  Links-whole p q [] ys g h = h
  Links-whole p q (a ∷ xs) ys (e, f, g) h =
      (e, f ∙ sym (first-append xs ys q), Links-whole (some a) q xs ys g h)

-- A change of the fields of a block that is not in the list.
pub Links-next :
    (next prev : ℕ → Option ℕ) (p q : Option ℕ) (l : List ℕ) (x : ℕ) (v : Option ℕ)
    → count x l ≡ 0
    → Links next prev p l q
    → Links (update next x v) prev p l q
Links-next next prev p q [] x v n h = tt
Links-next next prev p q (a ∷ l) x v n (e, f, h) =
    let d : (a == x) ≡ false = ground arith in
    (e, rw d f, Links-next next prev (some a) q l x v (ground arith) h)

pub Links-prev :
    (next prev : ℕ → Option ℕ) (p q : Option ℕ) (l : List ℕ) (x : ℕ) (v : Option ℕ)
    → count x l ≡ 0
    → Links next prev p l q
    → Links next (update prev x v) p l q
Links-prev next prev p q [] x v n h = tt
Links-prev next prev p q (a ∷ l) x v n (e, f, h) =
    let d : (a == x) ≡ false = ground arith in
    (rw d e, f, Links-prev next prev (some a) q l x v (ground arith) h)

count-final : (l : List ℕ) (a x : ℕ) → final (some a) l ≡ some x → 1 ≤ count x (a ∷ l)
count-final [] a x h = ground arith
count-final (b ∷ l) a x h = let ih = count-final l b x h in ground arith

set_link_ne : (o v : Option ℕ) (f : ℕ → Option ℕ) (a : ℕ) → o ≢ some a → set_link o v f a ≡ f a
set_link_ne none v f a h = refl
set_link_ne (some y) v f a h = elim (Bool-cases (a == y)) [
  | inl e ↦ absurd (h (let k : y ≡ a = ground arith in ap some k))
  | inr e ↦ rw e refl
]

final_ne : (l : List ℕ) (b a : ℕ) → count a (b ∷ l) ≡ 0 → final (some b) l ≢ some a
final_ne l b a n h = let c = count-final l b a h in absurd (omega arith)

-- A new block behind the last.
Links-final :
    (next prev : ℕ → Option ℕ) (p q v : Option ℕ) (l : List ℕ)
    → NoDup l
    → Links next prev p l q
    → Links (set_link (final none l) v next) prev p l v
Links-final next prev p q v [] d h = tt
Links-final next prev p q v (a ∷ []) d (e, f, h) =
    let s : (a == a) ≡ true = ground arith in (e, rw s refl, tt)
Links-final next prev p q v (a ∷ b ∷ l) d (e, f, h) =
    let t = NoDup-tail a (b ∷ l) d in
    (
      e,
      set_link_ne (final (some b) l) v next a (final_ne l b a t.1) ∙ f,
      Links-final next prev (some a) q v (b ∷ l) t.0 h,
    )

-- A new block before the first.
Links-first :
    (next prev : ℕ → Option ℕ) (p q v : Option ℕ) (l : List ℕ)
    → NoDup l
    → Links next prev p l q
    → Links next (set_link (first l none) v prev) v l q
Links-first next prev p q v [] d h = tt
Links-first next prev p q v (a ∷ l) d (e, f, h) =
    let t = NoDup-tail a l d in
    let s : (a == a) ≡ true = ground arith in
    (rw s refl, f, Links-prev next prev (some a) q l a v t.1 h)

Links-next_link :
    (next prev : ℕ → Option ℕ) (p q o v : Option ℕ) (l : List ℕ)
    → ((y : ℕ) → o ≡ some y → count y l ≡ 0)
    → Links next prev p l q
    → Links (set_link o v next) prev p l q
Links-next_link next prev p q none v l n h = h
Links-next_link next prev p q (some y) v l n h = Links-next next prev p q l y v (n y refl) h

Links-prev_link :
    (next prev : ℕ → Option ℕ) (p q o v : Option ℕ) (l : List ℕ)
    → ((y : ℕ) → o ≡ some y → count y l ≡ 0)
    → Links next prev p l q
    → Links next (set_link o v prev) p l q
Links-prev_link next prev p q none v l n h = h
Links-prev_link next prev p q (some y) v l n h = Links-prev next prev p q l y v (n y refl) h

final_in : (xs : List ℕ) (y : ℕ) → final none xs ≡ some y → 1 ≤ count y xs
final_in [] y h = absurd (cc)
final_in (b ∷ l) y h = count-final l b y h

first_in : (xs : List ℕ) (y : ℕ) → first xs none ≡ some y → 1 ≤ count y xs
first_in [] y h = absurd (cc)
first_in (b ∷ l) y h = ground arith

head-Links :
    (o v : Option ℕ) (a : ℕ) (xs ys : List ℕ)
    → count a xs ≡ 0
    → v ≡ first ys none
    → o ≡ first (xs ++ a ∷ ys) none
    → (if is_at o a then v else o) ≡ first (xs ++ ys) none
head-Links o v a [] ys n e h = let s : (a == a) ≡ true = ground arith in rw (h, s) e
head-Links o v a (b ∷ xs) ys n e h = let s : (a == b) ≡ false = ground arith in rw (h, s) refl

-- The list `xs ++ a ∷ ys` of free blocks, each of them once.
module _ (h : Heap) (a : ℕ) (xs ys : List ℕ) (d : NoDup (xs ++ a ∷ ys))
    (l : Links h.next h.prev none (xs ++ a ∷ ys) none) where
  apart : (x : ℕ) → count x xs + count x (a ∷ ys) ≤ 1
  apart x = let c = d x in omega (arith, count-append x xs (a ∷ ys))

  apart_a : (count a xs ≡ 0) × (count a ys ≡ 0)
  apart_a = let c = apart a in (ground arith, ground arith)

  left : NoDup xs
  left x = let c = apart x in omega arith

  right : NoDup ys
  right x = let c = apart x in ground arith

  -- The fields of its neighbours are set to what the block's fields say.
  relinked :
      Links
        (set_link (final none xs) (first ys none) h.next)
        (set_link (first ys none) (final none xs) h.prev)
        none
        (xs ++ ys)
        none
  relinked =
      let parts = Links-parts h.next h.prev none none xs (a ∷ ys) l in
      Links-whole _ _ none none xs ys
        (Links-prev_link _ h.prev none (first ys none) (first ys none) (final none xs) xs
          (λ y e. let c = apart y in let f = first_in ys y e in ground arith)
          (Links-final h.next h.prev none (some a) (first ys none) xs left parts.0))
        (Links-next_link h.next _ (final none xs) none (final none xs) (first ys none) ys
          (λ y e. let c = apart y in let f = final_in xs y e in ground arith)
          (Links-first h.next h.prev (some a) none (final none xs) ys right parts.1.2))

  fields : (h.prev a ≡ final none xs) × (h.next a ≡ first ys none)
  fields = let parts = Links-parts h.next h.prev none none xs (a ∷ ys) l in (parts.1.0, parts.1.1)

  still : set_link (final none xs) (first ys none) h.next a ≡ first ys none
  still =
      set_link_ne (final none xs) (first ys none) h.next a
        (λ e. let f = final_in xs a e in absurd (omega (arith, apart_a.0)))
      ∙ fields.1

  -- Block `a` is taken out of the list, and nothing else changes.
  pub remove-Links :
      h.free_list ≡ first (xs ++ a ∷ ys) none
      → Links (remove_from_free_list a h).next (remove_from_free_list a h).prev none (xs ++ ys) none
        × ((remove_from_free_list a h).free_list ≡ first (xs ++ ys) none)
  unfolding remove_from_free_list
  remove-Links head = (
    rw (fields.0, fields.1, still) relinked,
    head-Links h.free_list _ a xs ys apart_a.0 (rw (fields.0, fields.1) still) head,
  )

-- Block `a`, which is not in the list, becomes the first of it.
pub add-Links :
    (h : Heap) (a : ℕ) (l : List ℕ)
    → NoDup l
    → count a l ≡ 0
    → Links h.next h.prev none l none
    → h.free_list ≡ first l none
    → Links (add_to_free_list a h).next (add_to_free_list a h).prev none (a ∷ l) none
unfolding add_to_free_list
add-Links h a l d n links head =
    let s : (a == a) ≡ true = ground arith in
    (
      rw s refl,
      rw s head,
      Links-next _ _ (some a) none l a h.free_list n (
          Links-prev _ _ (some a) none l a none n
            (rw head (Links-first h.next h.prev none none (some a) l d links))),
    )
