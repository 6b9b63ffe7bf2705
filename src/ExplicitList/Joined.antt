-- ===== src/ExplicitList/Joined.antt =====
-- What joining neighbours does to the blocks of the pool of 2.explicit_free_list.c.
use learn_c.Common.{
  ℕ, ◌+◌, ◌≡◌, refl, true, false, Bool, ◌&&◌, ◌||◌, List, [], ◌∷◌, ◌++◌, if◌then◌else◌, arith, ap,
  ◌∙◌,
}
use learn_c.ExplicitList.{block_size}
use learn_c.ExplicitList.Tiles.{Blocks, end_of}

-- The free blocks behind a free one are joined to it.
abbrev pub joined_to : ℕ → Bool → Blocks → Blocks
joined_to m f [] = (m, f) ∷ []
joined_to m f ((n, g) ∷ ts) =
    if f && g then joined_to (m + (block_size + n)) f ts else (m, f) ∷ joined_to n g ts

abbrev pub joined : Blocks → Blocks
joined [] = []
joined ((m, f) ∷ ts) = joined_to m f ts

-- Two neighbours that are both free.
abbrev pub free_first : Blocks → Bool
free_first [] = false
free_first ((n, f) ∷ ts) = f

abbrev pub has_neighbours : Blocks → Bool
has_neighbours [] = false
has_neighbours ((n, f) ∷ ts) = (f && free_first ts) || has_neighbours ts

-- Address and size of what is in use.
abbrev pub used_at : ℕ → Blocks → List (ℕ × ℕ)
used_at a [] = []
used_at a ((n, f) ∷ ts) =
    let rest = used_at (a + block_size + n) ts in if f then rest else (a + block_size, n) ∷ rest

joined_to-first : (m : ℕ) (f : Bool) (ts : Blocks) → free_first (joined_to m f ts) ≡ f
joined_to-first m f [] = refl
joined_to-first m true ((n, true) ∷ ts) = joined_to-first (m + (block_size + n)) true ts
joined_to-first m true ((n, false) ∷ ts) = refl
joined_to-first m false ((n, g) ∷ ts) = refl

pub joined_to-neighbours :
    (m : ℕ) (f : Bool) (ts : Blocks) → has_neighbours (joined_to m f ts) ≡ false
joined_to-neighbours m true [] = refl
joined_to-neighbours m false [] = refl
joined_to-neighbours m true ((n, true) ∷ ts) = joined_to-neighbours (m + (block_size + n)) true ts
joined_to-neighbours m true ((n, false) ∷ ts) =
    rw (joined_to-first n false ts) (joined_to-neighbours n false ts)
joined_to-neighbours m false ((n, g) ∷ ts) = joined_to-neighbours n g ts

pub joined_to-used :
    (m : ℕ) (f : Bool) (ts : Blocks) (a : ℕ)
    → used_at a (joined_to m f ts) ≡ used_at a ((m, f) ∷ ts)
joined_to-used m f [] a = refl
joined_to-used m true ((n, true) ∷ ts) a =
    let at : a + block_size + (m + (block_size + n)) ≡ a + block_size + m + block_size + n =
      omega arith in
    joined_to-used (m + (block_size + n)) true ts a ∙ ap (λ b. used_at b ts) at
joined_to-used m true ((n, false) ∷ ts) a = joined_to-used n false ts (a + block_size + m)
joined_to-used m false ((n, g) ∷ ts) a =
    ap (λ l. (a + block_size, m) ∷ l) (joined_to-used n g ts (a + block_size + m))

pub used-append :
    (us ts : Blocks) (a : ℕ) → used_at a (us ++ ts) ≡ used_at a us ++ used_at (end_of a us) ts
used-append [] ts a = refl
used-append ((n, true) ∷ us) ts a = used-append us ts (a + block_size + n)
used-append ((n, false) ∷ us) ts a =
    ap (λ l. (a + block_size, n) ∷ l) (used-append us ts (a + block_size + n))
