-- ===== src/CondVar/Counts.antt =====
-- How many consumers of 1.thread_cond.c stand at a place.
use learn_c.Common.{ℕ, ◌+◌, ◌≡◌, refl, List, [], ◌∷◌, ◌++◌, Bool, true, false, arith}
use learn_c.CondVar.{
  Consumer, locks, tests, waits, wakes, takes, unlocks, Producer, enters, adds, signals, leaves,
  waiting,
}

abbrev pub total : (Consumer → ℕ) → List Consumer → ℕ
total w [] = 0
total w (c ∷ cs) = w c + total w cs

-- One of the consumers, and the others.
pub total-at :
    (w : Consumer → ℕ) (xs ys : List Consumer) (c : Consumer)
    → total w (xs ++ c ∷ ys) ≡ w c + total w (xs ++ ys)
total-at w [] ys c = refl
total-at w (x ∷ xs) ys c = let ih = total-at w xs ys c in omega arith

-- 1 with the mutex.
abbrev pub inside : Consumer → ℕ
inside locks = 0
inside tests = 1
inside waits = 0
inside wakes = 0
inside takes = 1
inside unlocks = 1

abbrev pub about_to_take : Consumer → ℕ
about_to_take takes = 1
about_to_take _ = 0

-- 1 outside `pthread_cond_wait`.
abbrev pub awake : Consumer → ℕ
awake waits = 0
awake _ = 1

abbrev pub one : Consumer → ℕ
one c = 1

abbrev pub producer_inside : Producer → ℕ
producer_inside enters = 0
producer_inside adds = 1
producer_inside signals = 1
producer_inside leaves = 1

abbrev pub about_to_signal : Producer → ℕ
about_to_signal signals = 1
about_to_signal _ = 0

abbrev pub is_locked : Bool → ℕ
is_locked true = 1
is_locked false = 0

pub awake-waiting : (cs : List Consumer) → total awake cs + waiting cs ≡ total one cs
awake-waiting [] = refl
awake-waiting (c ∷ cs) = let ih = awake-waiting cs in ground arith
