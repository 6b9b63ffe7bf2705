-- ===== src/ServerPool/Classes.antt =====
-- The size classes of 3.m_mem_pool/mem_pool.c as `mem_pool_init` makes them, and the search for one.
use learn_c.Common.{
  ℕ, zero, suc, ◌+◌, ◌<◌, ◌≤◌, ◌≡◌, refl, Option, none, some, [], ◌∷◌, get_or, arith, ap,
}
use learn_c.ServerPool.{SlabClass, Server, index_from, find_slab_index, MemBlk}
use learn_c.ServerPool.Whole.{mem_pool_init, init_loop}

-- The sizes of the eleven classes.
abbrev pub sizes : ℕ → ℕ
sizes i = get_or (8 ∷ 16 ∷ 32 ∷ 64 ∷ 128 ∷ 256 ∷ 512 ∷ 1024 ∷ 2048 ∷ 4096 ∷ 8192 ∷ []) i 0

-- The class of a size, whatever the free lists hold.
abbrev pub sized : ℕ → SlabClass
sized i = record { block_size = sizes i; free_list = [] }

abbrev pub class_of : ℕ → Option ℕ
class_of n = index_from 0 11 sized n

pub record HasClasses (s : Server) : Type 0 where
  pub count : s.slab_cls_cnt ≡ 11
  pub each : (i : ℕ) → (s.slabs i).block_size ≡ sizes i

index_from-same :
    (n i size : ℕ) (f g : ℕ → SlabClass)
    → ((j : ℕ) → (f j).block_size ≡ (g j).block_size)
    → index_from i n f size ≡ index_from i n g size
unfolding index_from
index_from-same zero i size f g h = refl
index_from-same (suc n) i size f g h = rw (h i, index_from-same n (i + 1) size f g h)

pub find_slab_index-class_of :
    (s : Server) (n : ℕ) → HasClasses s → find_slab_index s n ≡ class_of n
unfolding find_slab_index
find_slab_index-class_of s n c = rw c.count (index_from-same 11 0 n s.slabs sized c.each)

pub class_of-sizes : (i : ℕ) → i < 11 → class_of (sizes i) ≡ some i
unfolding index_from
class_of-sizes zero h = refl
class_of-sizes (suc zero) h = refl
class_of-sizes (suc (suc zero)) h = refl
class_of-sizes (suc (suc (suc zero))) h = refl
class_of-sizes (suc (suc (suc (suc zero)))) h = refl
class_of-sizes (suc (suc (suc (suc (suc zero))))) h = refl
class_of-sizes (suc (suc (suc (suc (suc (suc zero)))))) h = refl
class_of-sizes (suc (suc (suc (suc (suc (suc (suc zero))))))) h = refl
class_of-sizes (suc (suc (suc (suc (suc (suc (suc (suc zero)))))))) h = refl
class_of-sizes (suc (suc (suc (suc (suc (suc (suc (suc (suc zero))))))))) h = refl
class_of-sizes (suc (suc (suc (suc (suc (suc (suc (suc (suc (suc zero)))))))))) h = refl
class_of-sizes (suc (suc (suc (suc (suc (suc (suc (suc (suc (suc (suc i))))))))))) h =
    absurd (omega arith)

pub class_of-fits : (n i : ℕ) → class_of n ≡ some i → (i < 11) × (n ≤ sizes i)
unfolding index_from
class_of-fits n i h = ground arith

pub class_of-least : (n i : ℕ) → class_of n ≡ some i → 8 ≤ sizes i
unfolding index_from
class_of-least n i h = ground arith

pub sizes_le : (i : ℕ) → sizes i ≤ 8192
sizes_le zero = omega arith
sizes_le (suc zero) = omega arith
sizes_le (suc (suc zero)) = omega arith
sizes_le (suc (suc (suc zero))) = omega arith
sizes_le (suc (suc (suc (suc zero)))) = omega arith
sizes_le (suc (suc (suc (suc (suc zero))))) = omega arith
sizes_le (suc (suc (suc (suc (suc (suc zero)))))) = omega arith
sizes_le (suc (suc (suc (suc (suc (suc (suc zero))))))) = omega arith
sizes_le (suc (suc (suc (suc (suc (suc (suc (suc zero)))))))) = omega arith
sizes_le (suc (suc (suc (suc (suc (suc (suc (suc (suc zero))))))))) = omega arith
sizes_le (suc (suc (suc (suc (suc (suc (suc (suc (suc (suc zero)))))))))) = omega arith
sizes_le (suc (suc (suc (suc (suc (suc (suc (suc (suc (suc (suc i))))))))))) = omega arith

pub class_of-none : (n : ℕ) → class_of n ≡ none → 8192 < n
unfolding index_from
class_of-none n h = ground arith

pub mem_pool_init-sized :
    (blks : ℕ → Option MemBlk) (words : ℕ → ℕ) (i : ℕ)
    → (mem_pool_init blks words).slabs i ≡ sized i
unfolding mem_pool_init init_loop
mem_pool_init-sized blks words zero = refl
mem_pool_init-sized blks words (suc zero) = refl
mem_pool_init-sized blks words (suc (suc zero)) = refl
mem_pool_init-sized blks words (suc (suc (suc zero))) = refl
mem_pool_init-sized blks words (suc (suc (suc (suc zero)))) = refl
mem_pool_init-sized blks words (suc (suc (suc (suc (suc zero))))) = refl
mem_pool_init-sized blks words (suc (suc (suc (suc (suc (suc zero)))))) = refl
mem_pool_init-sized blks words (suc (suc (suc (suc (suc (suc (suc zero))))))) = refl
mem_pool_init-sized blks words (suc (suc (suc (suc (suc (suc (suc (suc zero)))))))) = refl
mem_pool_init-sized blks words (suc (suc (suc (suc (suc (suc (suc (suc (suc zero))))))))) = refl
mem_pool_init-sized blks words (suc (suc (suc (suc (suc (suc (suc (suc (suc (suc zero)))))))))) =
    refl
mem_pool_init-sized blks words (suc (suc (suc (suc (suc (suc (suc (suc (suc (suc (suc i))))))))))) =
    ground arith

pub mem_pool_init-HasClasses :
    (blks : ℕ → Option MemBlk) (words : ℕ → ℕ) → HasClasses (mem_pool_init blks words)
unfolding mem_pool_init init_loop
mem_pool_init-HasClasses blks words = record {
  count = refl;
  each = λ i. ap (λ (c : SlabClass). c.block_size) (mem_pool_init-sized blks words i);
}

pub class_of-large : (n : ℕ) → 8192 < n → class_of n ≡ none
unfolding index_from
class_of-large n h = ground arith
