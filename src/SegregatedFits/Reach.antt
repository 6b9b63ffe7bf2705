-- ===== src/SegregatedFits/Reach.antt =====
-- The pools of 3.segregated_fits.c that callers can reach.
use learn_c.Common.{
  ℕ, ◌+◌, ◌-◌, ◌≤◌, ◌≡◌, refl, inl, inr, true, false, Option, none, some, List, [], ◌∷◌, ◌++◌, ◌==◌,
  ltb, count, arith, Bool-cases, subst, Run, ok, ok_inj,
}
use learn_c.ExplicitList.Tiles.{Blocks, end_of}
use learn_c.ExplicitList.Malloc.{cut}
use learn_c.SegregatedFits.{
  Heap, block_size, init_memory, my_malloc, my_free, align4, set_free, add_to_class,
}
use learn_c.SegregatedFits.Points.{
  IsStart, Inv, add-Inv, block-IsStart, set_free-Inv, start_block, starts-cut, marked,
}
use learn_c.SegregatedFits.Malloc.{Served, goes_on, refused, given, my_malloc-rounds}

pub init-Inv : (h : Heap) → Inv (init_memory h) ((32736, true) ∷ [])
unfolding init_memory
init-Inv h = record {
  tiles = (refl, refl, refl);
  bins = λ i. elim (Bool-cases (i == 4)) [ inl e ↦ rw e (omega arith) | inr e ↦ rw e tt ];
  next = λ a s. let e : (a == 0) ≡ true = ground arith in rw e tt;
  prev = λ a s. let e : (a == 0) ≡ true = ground arith in rw e tt;
}

abbrev pub more : Option ℕ → List ℕ → List ℕ
more none ps = ps
more (some p) ps = p ∷ ps

-- What callers can reach who give back only what they were given, once or again, with the list of all
-- that they were given.
pub data Reach (start : Heap) : Heap → List ℕ → Type 0 where
  initial : Reach start (init_memory start) []
  allocates :
      (rounds size : ℕ) {h t : Heap} {ps : List ℕ} (o : Option ℕ)
      → Reach start h ps
      → my_malloc rounds size h ≡ ok (o, t)
      → Reach start t (more o ps)
  frees :
      (p : ℕ) {h : Heap} {ps : List ℕ}
      → Reach start h ps
      → 1 ≤ count p ps
      → Reach start (my_free (some p) h) ps

-- Each pointer is the address behind the header of a block.
abbrev pub AreBlocks : Blocks → List ℕ → Type 0
AreBlocks ts [] = Unit
AreBlocks ts (p ∷ ps) = IsStart ts (p - block_size) × AreBlocks ts ps

abbrev pub IsFilled : Heap → List ℕ → Type 0
IsFilled h ps = (ts : Blocks) × Inv h ts × AreBlocks ts ps

AreBlocks-one :
    (ts : Blocks) (p : ℕ) (ps : List ℕ)
    → AreBlocks ts ps
    → 1 ≤ count p ps
    → IsStart ts (p - block_size)
AreBlocks-one ts p [] a h = absurd (omega arith)
AreBlocks-one ts p (q ∷ ps) (s, a) h = elim (Bool-cases (q == p)) [
  | inl e ↦ let k : q ≡ p = ground arith in subst (λ x. IsStart ts (x - block_size)) k s
  | inr e ↦ AreBlocks-one ts p ps a (ground arith)
]

AreBlocks-more :
    (ts ts' : Blocks)
    → ((x : ℕ) → IsStart ts x → IsStart ts' x)
    → (ps : List ℕ) → AreBlocks ts ps
    → AreBlocks ts' ps
AreBlocks-more ts ts' h [] a = tt
AreBlocks-more ts ts' h (p ∷ ps) (s, a) = (h (p - block_size) s, AreBlocks-more ts ts' h ps a)

-- Cutting a block leaves the others where they are.
cut-IsStart :
    (us vs : Blocks) (m n x : ℕ) → IsStart (us ++ (m, true) ∷ vs) x → IsStart (us ++ cut m n vs) x
cut-IsStart us vs m n x s = elim (Bool-cases (ltb (n + 36) m)) [
  | inl e ↦
      let c = starts-cut us vs m n x (ground arith) in
      rw e (marked us ((m - n - block_size, true) ∷ vs) n true false x (ground arith))
  | inr e ↦ rw e (marked us vs m true false x s)
]

cut-block :
    (us vs : Blocks) (m n : ℕ) → IsStart (us ++ cut m n vs) (end_of 0 us + block_size - block_size)
cut-block us vs m n =
    let at : end_of 0 us + block_size - block_size ≡ end_of 0 us = omega arith in
    rw at (cut-IsStart us vs m n (end_of 0 us) (block-IsStart us vs m true))

Served-IsFilled :
    (h : Heap) (ts : Blocks) (ps : List ℕ) (n : ℕ) (r : Run (Option ℕ × Heap)) (o : Option ℕ)
    (t : Heap)
    → Inv h ts
    → AreBlocks ts ps
    → Served h ts n r
    → r ≡ ok (o, t)
    → IsFilled t (more o ps)
Served-IsFilled h ts ps n r o t v a goes_on e = absurd (cc)
Served-IsFilled h ts ps n r o t v a refused e =
    subst (λ (x : Option ℕ × Heap). IsFilled x.1 (more x.0 ps)) (ok_inj e) (ts, v, a)
Served-IsFilled h ts ps n r o t v a (given us vs m p le w) e =
    let grows : (x : ℕ) → IsStart ts x → IsStart (us ++ cut m n vs) x =
      λ x s. cut-IsStart us vs m n x (subst (λ b. IsStart b x) p s) in
    subst (λ (x : Option ℕ × Heap). IsFilled x.1 (more x.0 ps)) (ok_inj e)
      (us ++ cut m n vs, w, (cut-block us vs m n, AreBlocks-more ts (us ++ cut m n vs) grows ps a))

free-IsFilled :
    (p : ℕ) (h : Heap) (ts : Blocks) (ps : List ℕ)
    → Inv h ts
    → AreBlocks ts ps
    → IsStart ts (p - block_size)
    → IsFilled (my_free (some p) h) ps
unfolding my_free
free-IsFilled p h ts ps v a s =
    let (us, m, f, vs, e, at) = start_block (p - block_size) ts 0 s in
    let b = us ++ (m, true) ∷ vs in
    let grows : (x : ℕ) → IsStart ts x → IsStart (us ++ (m, true) ∷ vs) x =
      λ x k. marked us vs m f true x (subst (λ l. IsStart l x) e k) in
    subst (λ c. IsFilled (add_to_class c (set_free c true h)) ps) at
      (
        b,
        add-Inv (end_of 0 us) _ b (block-IsStart us vs m true)
            (set_free-Inv h us vs m f true (subst (λ l. Inv h l) e v)),
        AreBlocks-more ts b grows ps a,
      )

-- In every state that callers can reach, also by giving a block back twice, the blocks fill the pool
-- one behind the other; every pointer in the lists is NULL or points to one of them; and every
-- pointer that was handed out is the address behind the header of one of them.
pub Reach-IsFilled : {start h : Heap} {ps : List ℕ} → Reach start h ps → IsFilled h ps
Reach-IsFilled {start = start} initial = (_, init-Inv start, tt)
Reach-IsFilled (allocates rounds size {h = h} {t = t} {ps = ps} o r e) =
    let (ts, v, a) = Reach-IsFilled r in
    Served-IsFilled h ts ps (align4 size) _ o t v a (my_malloc-rounds rounds size h ts v) e
Reach-IsFilled (frees p {h = h} {ps = ps} r q) =
    let (ts, v, a) = Reach-IsFilled r in free-IsFilled p h ts ps v a (AreBlocks-one ts p ps a q)
