-- ===== src/BoundedBuffer/Counts.antt =====
-- What the places of the threads of 4.semaphore/demo.c say of the numbers of items.
use learn_c.Common.{ℕ, ◌+◌, ◌*◌, ◌<◌, List, [], ◌∷◌, ◌++◌, zero, suc}
use learn_c.BoundedBuffer.{
  Pc, waits, locks, holds, unlocks, posts, returned, Owner, by_producer, by_consumer,
}

-- The accesses of the buffer that the thread has made.
abbrev pub accesses : Pc → ℕ
accesses (waits i) = i
accesses (locks i) = i
accesses (holds i) = i
accesses (unlocks i) = i + 1
accesses (posts i) = i + 1
accesses returned = 10

-- 1 between `sem_wait` and the access.
abbrev pub has_token : Pc → ℕ
has_token (locks i) = 1
has_token (holds i) = 1
has_token _ = 0

-- 1 between the access and `sem_post`.
abbrev pub owes_token : Pc → ℕ
owes_token (unlocks i) = 1
owes_token (posts i) = 1
owes_token _ = 0

-- 1 between `pthread_mutex_lock` and the unlock.
abbrev pub inside : Pc → ℕ
inside (holds i) = 1
inside (unlocks i) = 1
inside _ = 0

-- The round is one of the loop's.
abbrev pub InRounds : Pc → Type 0
InRounds (waits i) = i < 10
InRounds (locks i) = i < 10
InRounds (holds i) = i < 10
InRounds (unlocks i) = i < 10
InRounds (posts i) = i < 10
InRounds returned = Unit

abbrev pub producer_has : Owner → ℕ
producer_has by_producer = 1
producer_has _ = 0

abbrev pub consumer_has : Owner → ℕ
consumer_has by_consumer = 1
consumer_has _ = 0

-- The steps that a thread has taken.
abbrev pub steps : Pc → ℕ
steps (waits i) = 5 * i
steps (locks i) = 5 * i + 1
steps (holds i) = 5 * i + 2
steps (unlocks i) = 5 * i + 3
steps (posts i) = 5 * i + 4
steps returned = 50

-- The numbers below `n`, in order.
abbrev pub upto : ℕ → List ℕ
upto zero = []
upto (suc n) = upto n ++ (n ∷ [])
