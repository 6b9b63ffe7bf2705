-- ===== src/BoundedBuffer.antt =====
-- 1.Demo/1.syntax_interface/3.Thread/4.semaphore/demo.c: a producer and a consumer with a ring of five
-- slots, two semaphores and a mutex. Each thread takes a step at a time, from one call of the thread
-- library to the next, in any order. What is printed is the list of the items consumed.
pub mod Counts
pub mod Invariant
pub mod Safety
pub mod Progress
mod Tests
use learn_c.Common.{
  ℕ, zero, suc, ◌+◌, ◌-◌, ◌%◌, ◌≡◌, Bool, true, false, Option, none, some, List, [], ◌∷◌, ◌++◌,
  ◌==◌, ltb, update, if◌then◌else◌,
}

abbrev pub buffer_size : ℕ
buffer_size = 5

-- The rounds of each of the two loops.
abbrev pub rounds : ℕ
rounds = 10

-- Where a thread stands in round `i` of its loop.
pub data Pc : Type 0 where
  -- before `sem_wait`
  waits : ℕ → Pc
  -- before `pthread_mutex_lock`
  locks : ℕ → Pc
  -- with the mutex, before the access of the buffer
  holds : ℕ → Pc
  -- with the mutex, before `pthread_mutex_unlock`
  unlocks : ℕ → Pc
  -- before `sem_post`
  posts : ℕ → Pc
  returned : Pc

pub data Owner : Type 0 where
  nobody by_producer by_consumer : Owner

pub record State : Type 0 where
  pub buffer : ℕ → ℕ
  pub in_ : ℕ
  pub out : ℕ
  pub empty_slots : ℕ
  pub filled_slots : ℕ
  pub mutex : Owner
  pub prod : Pc
  pub cons : Pc
  pub consumed : List ℕ

-- The next round, or the end of the loop.
abbrev pub next_round : ℕ → Pc
next_round i = if ltb (i + 1) rounds then waits (i + 1) else returned

abbrev pub is_free : Owner → Bool
is_free nobody = true
is_free by_producer = false
is_free by_consumer = false

-- The next step of the producer, which stands at the given place; `none` while it is blocked.
pub producer : State → Pc → Option State
producer s (waits i) =
    if s.empty_slots == 0
    then none
    else some (record s { empty_slots = s.empty_slots - 1; prod = locks i })
producer s (locks i) =
    if is_free s.mutex then some (record s { mutex = by_producer; prod = holds i }) else none
producer s (holds i) = some (record s {
  buffer = update s.buffer s.in_ i;
  in_ = (s.in_ + 1) % buffer_size;
  prod = unlocks i;
})
producer s (unlocks i) = some (record s { mutex = nobody; prod = posts i })
producer s (posts i) = some (record s { filled_slots = s.filled_slots + 1; prod = next_round i })
producer s returned = none

pub consumer : State → Pc → Option State
consumer s (waits i) =
    if s.filled_slots == 0
    then none
    else some (record s { filled_slots = s.filled_slots - 1; cons = locks i })
consumer s (locks i) =
    if is_free s.mutex then some (record s { mutex = by_consumer; cons = holds i }) else none
consumer s (holds i) = some (record s {
  consumed = s.consumed ++ (s.buffer s.out ∷ []);
  out = (s.out + 1) % buffer_size;
  cons = unlocks i;
})
consumer s (unlocks i) = some (record s { mutex = nobody; cons = posts i })
consumer s (posts i) = some (record s { empty_slots = s.empty_slots + 1; cons = next_round i })
consumer s returned = none

-- After `sem_init` and `pthread_create` in `main`. The statics are zero.
pub started : State
started = record {
  buffer = λ _. 0;
  in_ = 0;
  out = 0;
  empty_slots = buffer_size;
  filled_slots = 0;
  mutex = nobody;
  prod = waits 0;
  cons = waits 0;
  consumed = [];
}

pub data Step (s : State) : State → Type 0 where
  produces : {t : State} → producer s s.prod ≡ some t → Step s t
  consumes : {t : State} → consumer s s.cons ≡ some t → Step s t

-- A run of so many steps.
pub data Execution : ℕ → State → Type 0 where
  begins : Execution 0 started
  goes_on : {n : ℕ} {s t : State} → Execution n s → Step s t → Execution (n + 1) t
