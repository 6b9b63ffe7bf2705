-- ===== src/CondVar/Invariant.antt =====
-- What holds of 1.thread_cond.c in every state, whatever the scheduler does.
use learn_c.Common.{
  ℕ, ◌+◌, ◌-◌, ◌^◌, ◌≤◌, ◌≡◌, ◌⊎◌, refl, inl, inr, true, false, Bool, some, List, [], ◌∷◌, ◌++◌,
  ◌==◌, ltb, arith, Bool-cases, subst,
}
use learn_c.CondVar.{
  Consumer, locks, tests, waits, wakes, takes, unlocks, Producer, enters, adds, signals, leaves,
  State, consume, produce, waiting, started, Step, by_consumer, by_producer, signal_one,
  signal_none, spurious, Reach, begins, goes_on,
}
use learn_c.CondVar.Counts.{
  total, total-at, inside, about_to_take, awake, one, producer_inside, about_to_signal, is_locked,
  awake-waiting,
}

pub record IsSafe (s : State) : Type 0 where
  -- one thread at most has the mutex
  pub mutex : total inside s.consumers + producer_inside s.producer ≡ is_locked s.locked
  pub sums : s.made ≡ s.taken + s.share_variable
  -- a consumer that is about to take finds something
  pub ready : total about_to_take s.consumers ≤ s.share_variable
  -- if there is something to take, not all consumers sleep, or one is about to be woken
  pub alert : (s.share_variable ≡ 0) ⊎ (1 ≤ total awake s.consumers + about_to_signal s.producer)
  pub number : total one s.consumers ≡ 9

takes_le : (cs : List Consumer) → total about_to_take cs ≤ total inside cs
takes_le [] = omega arith
takes_le (c ∷ cs) = let ih = takes_le cs in ground arith

-- The five sums over the consumers after one of them has moved.
record Sums (xs ys : List Consumer) (c : Consumer) : Type 0 where
  ins : total inside (xs ++ c ∷ ys) ≡ inside c + total inside (xs ++ ys)
  tak : total about_to_take (xs ++ c ∷ ys) ≡ about_to_take c + total about_to_take (xs ++ ys)
  awk : total awake (xs ++ c ∷ ys) ≡ awake c + total awake (xs ++ ys)
  all : total one (xs ++ c ∷ ys) ≡ 1 + total one (xs ++ ys)

counted : (xs ys : List Consumer) (c : Consumer) → Sums xs ys c
counted xs ys c = record {
  ins = total-at inside xs ys c;
  tak = total-at about_to_take xs ys c;
  awk = total-at awake xs ys c;
  all = total-at one xs ys c;
}

-- The invariant in the sums over the other consumers and the place of this one.
record Rest (s : State) (c : Consumer) (i t a n : ℕ) : Type 0 where
  pub mutex : inside c + i + producer_inside s.producer ≡ is_locked s.locked
  pub sums : s.made ≡ s.taken + s.share_variable
  pub ready : about_to_take c + t ≤ s.share_variable
  pub alert : (s.share_variable ≡ 0) ⊎ (1 ≤ awake c + a + about_to_signal s.producer)
  pub number : 1 + n ≡ 9

locked_le : (b : Bool) → is_locked b ≤ 1
locked_le true = omega arith
locked_le false = omega arith

Rest-consume :
    (s t : State) (c d : Consumer) (i k a n : ℕ)
    → k ≤ i
    → consume s c ≡ some (d, t)
    → Rest s c i k a n
    → Rest t d i k a n
unfolding consume
Rest-consume s t locks d i k a n le h v = elim (Bool-cases s.locked) [
  | inl e ↦ absurd (cc)
  | inr e ↦ ground arith
]
Rest-consume s t tests d i k a n le h v = elim (Bool-cases (s.share_variable == 0)) [
  | inl e ↦ ground arith
  | inr e ↦
      let b = locked_le s.locked in
      let none_else : k ≡ 0 = omega (arith, b, le, v.mutex) in ground arith
]
Rest-consume s t waits d i k a n le h v = absurd (cc)
Rest-consume s t wakes d i k a n le h v = elim (Bool-cases s.locked) [
  | inl e ↦ absurd (cc)
  | inr e ↦ ground arith
]
Rest-consume s t takes d i k a n le h v = ground arith
Rest-consume s t unlocks d i k a n le h v = ground arith

to-Rest :
    (s : State) (xs ys : List Consumer) (c : Consumer)
    → s.consumers ≡ xs ++ c ∷ ys
    → IsSafe s
    → Rest s c
        (total inside (xs ++ ys))
        (total about_to_take (xs ++ ys))
        (total awake (xs ++ ys))
        (total one (xs ++ ys))
to-Rest s xs ys c at v =
    let p = counted xs ys c in
    let w = subst (λ l. IsSafe (record s { consumers = l })) at v in
    record {
      mutex = omega (arith, w.mutex, p.ins);
      sums = v.sums;
      ready = omega (arith, w.ready, p.tak);
      alert = rw (← p.awk) w.alert;
      number = omega (arith, w.number, p.all);
    }

from-Rest :
    (t : State) (xs ys : List Consumer) (d : Consumer)
    → Rest t d
        (total inside (xs ++ ys))
        (total about_to_take (xs ++ ys))
        (total awake (xs ++ ys))
        (total one (xs ++ ys))
    → IsSafe (record t { consumers = xs ++ d ∷ ys })
from-Rest t xs ys d v =
    let p = counted xs ys d in
    record {
      mutex = omega (arith, v.mutex, p.ins);
      sums = v.sums;
      ready = omega (arith, v.ready, p.tak);
      alert = rw p.awk v.alert;
      number = omega (arith, v.number, p.all);
    }

producer-IsSafe :
    (s t : State) (p : Producer) → s.producer ≡ p → produce s p ≡ some t → IsSafe s → IsSafe t
unfolding produce
producer-IsSafe s t enters at h v = elim (Bool-cases s.locked) [
  | inl e ↦ absurd (cc)
  | inr e ↦ ground arith
]
producer-IsSafe s t adds at h v = elim (Bool-cases (ltb s.share_variable (2 ^ 31 - 1))) [
  | inl e ↦ ground arith
  | inr e ↦ absurd (cc)
]
producer-IsSafe s t signals at h v = absurd (cc)
producer-IsSafe s t leaves at h v = ground arith

Rest-wakes : (s : State) (i k a n : ℕ) → Rest s waits i k a n → Rest s wakes i k a n
Rest-wakes s i k a n v = record {
  mutex = v.mutex;
  sums = v.sums;
  ready = v.ready;
  alert = inr (omega arith);
  number = v.number;
}

Rest-signalled :
    (s : State) (i k a n : ℕ)
    → s.producer ≡ signals
    → Rest s waits i k a n
    → Rest (record s { producer = leaves }) wakes i k a n
Rest-signalled s i k a n at v = record {
  mutex = ground arith;
  sums = v.sums;
  ready = v.ready;
  alert = inr (omega arith);
  number = v.number;
}

no_waiter :
    (s : State)
    → s.producer ≡ signals
    → waiting s.consumers ≡ 0
    → IsSafe s
    → IsSafe (record s { producer = leaves })
no_waiter s at nobody v = record {
  mutex = ground arith;
  sums = v.sums;
  ready = v.ready;
  alert = inr (omega (arith, awake-waiting s.consumers, nobody, v.number));
  number = v.number;
}

pub Step-IsSafe : {s t : State} → Step s t → IsSafe s → IsSafe t
Step-IsSafe {s = s} (by_consumer xs ys c d t at h) v =
    from-Rest t xs ys d
      (Rest-consume s t c d _ _ _ _ (takes_le (xs ++ ys)) h (to-Rest s xs ys c at v))
Step-IsSafe {s = s} (by_producer t h) v = producer-IsSafe s t s.producer refl h v
Step-IsSafe {s = s} (signal_one xs ys at w) v =
    from-Rest (record s { producer = leaves }) xs ys wakes
      (Rest-signalled s _ _ _ _ at (to-Rest s xs ys waits w v))
Step-IsSafe {s = s} (signal_none at w) v = no_waiter s at w v
Step-IsSafe {s = s} (spurious xs ys w) v =
    from-Rest s xs ys wakes (Rest-wakes s _ _ _ _ (to-Rest s xs ys waits w v))

started-IsSafe : IsSafe started
unfolding started
started-IsSafe = record {
  mutex = refl;
  sums = refl;
  ready = omega arith;
  alert = inl refl;
  number = refl;
}

-- In every state that the threads reach, whatever the order of their steps and also if a wait returns
-- without a signal: one thread at most has the mutex; what was made is what was taken and what is
-- there; a consumer that is about to take finds something; and if something is there, not all
-- consumers are in pthread_cond_wait, or the producer is about to signal.
pub Reach-IsSafe : {s : State} → Reach s → IsSafe s
Reach-IsSafe begins = started-IsSafe
Reach-IsSafe (goes_on r h) = Step-IsSafe h (Reach-IsSafe r)
