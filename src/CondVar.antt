-- ===== src/CondVar.antt =====
-- 1.Demo/1.syntax_interface/3.Thread/3.cond/1.thread_cond.c: nine consumers and a producer with a mutex
-- and a condition variable. Each thread takes a step at a time, from one call of the thread library,
-- one test or one change of `share_variable` to the next, in any order. What is printed is left out.
pub mod Counts
pub mod Invariant
pub mod Progress
mod Tests
use learn_c.Common.{
  ℕ, zero, suc, ◌+◌, ◌-◌, ◌^◌, ◌≡◌, Bool, true, false, Option, none, some, List, [], ◌∷◌, ◌++◌,
  ◌==◌, ltb, replicate, if◌then◌else◌,
}

abbrev pub consumers_count : ℕ
consumers_count = 9

-- Where a consumer stands.
pub data Consumer : Type 0 where
  -- before `pthread_mutex_lock`
  locks : Consumer
  -- with the mutex, before the test of the inner loop
  tests : Consumer
  -- in `pthread_cond_wait`
  waits : Consumer
  -- woken up, before `pthread_cond_wait` has the mutex again
  wakes : Consumer
  -- with the mutex, before the decrement
  takes : Consumer
  -- with the mutex, before `pthread_mutex_unlock`
  unlocks : Consumer

-- Where the producer stands.
pub data Producer : Type 0 where
  enters : Producer
  adds : Producer
  signals : Producer
  leaves : Producer

-- `made` and `taken` count the increments and the decrements.
pub record State : Type 0 where
  pub share_variable : ℕ
  pub locked : Bool
  pub producer : Producer
  pub consumers : List Consumer
  pub made : ℕ
  pub taken : ℕ

-- A step of a consumer, with the state before its place changes; `none` while it is blocked.
pub consume : State → Consumer → Option (Consumer × State)
consume s locks = if s.locked then none else some (tests, record s { locked = true })
consume s tests =
    if s.share_variable == 0 then some (waits, record s { locked = false }) else some (takes, s)
consume s waits = none
consume s wakes = if s.locked then none else some (tests, record s { locked = true })
consume s takes =
    some (unlocks, record s { share_variable = s.share_variable - 1; taken = s.taken + 1 })
consume s unlocks = some (locks, record s { locked = false })

-- A step of the producer but for the signal. An increment beyond the largest `int` is not defined.
pub produce : State → Producer → Option State
produce s enters = if s.locked then none else some (record s { locked = true; producer = adds })
produce s adds =
    if ltb s.share_variable (2 ^ 31 - 1)
    then some
        (record s { share_variable = s.share_variable + 1; made = s.made + 1; producer = signals })
    else none
produce s signals = none
produce s leaves = some (record s { locked = false; producer = enters })

-- The consumers in `pthread_cond_wait`.
abbrev pub waiting : List Consumer → ℕ
waiting [] = 0
waiting (waits ∷ cs) = suc (waiting cs)
waiting (locks ∷ cs) = waiting cs
waiting (tests ∷ cs) = waiting cs
waiting (wakes ∷ cs) = waiting cs
waiting (takes ∷ cs) = waiting cs
waiting (unlocks ∷ cs) = waiting cs

-- After the threads are created.
pub started : State
started = record {
  share_variable = 0;
  locked = false;
  producer = enters;
  consumers = replicate consumers_count locks;
  made = 0;
  taken = 0;
}

pub data Step (s : State) : State → Type 0 where
  by_consumer :
      (xs ys : List Consumer) (c d : Consumer) (t : State)
      → s.consumers ≡ xs ++ c ∷ ys
      → consume s c ≡ some (d, t)
      → Step s (record t { consumers = xs ++ d ∷ ys })
  by_producer : (t : State) → produce s s.producer ≡ some t → Step s t
  -- `pthread_cond_signal` wakes one of those that wait, if there is one
  signal_one :
      (xs ys : List Consumer)
      → s.producer ≡ signals
      → s.consumers ≡ xs ++ waits ∷ ys
      → Step s (record s { producer = leaves; consumers = xs ++ wakes ∷ ys })
  signal_none :
      s.producer ≡ signals → waiting s.consumers ≡ 0 → Step s (record s { producer = leaves })
  -- `pthread_cond_wait` may return without a signal
  spurious :
      (xs ys : List Consumer)
      → s.consumers ≡ xs ++ waits ∷ ys
      → Step s (record s { consumers = xs ++ wakes ∷ ys })

pub data Reach : State → Type 0 where
  begins : Reach started
  goes_on : {s t : State} → Reach s → Step s t → Reach t
