-- ===== src/BoundedBuffer/Invariant.antt =====
-- What holds of 4.semaphore/demo.c in every state, whatever the scheduler does.
use mathlib.Core.Option.{some_inj}
use learn_c.Common.{
  ℕ, suc, ◌+◌, ◌%◌, ◌≤◌, ◌<◌, ◌≡◌, ◌≢◌, refl, some, List, [], ◌∷◌, ◌++◌, arith, ◌==◌, ltb, update,
  Bool-cases, inl, inr, subst,
}
use learn_c.BoundedBuffer.{
  Pc, waits, locks, holds, unlocks, posts, returned, State, producer, consumer, started, Step,
  produces, consumes, Execution, begins, goes_on, is_free, rounds,
}
use learn_c.BoundedBuffer.Counts.{
  accesses, has_token, owes_token, inside, InRounds, producer_has, consumer_has, upto,
}

pub record Inv (s : State) : Type 0 where
  -- a slot is empty, filled, or in the hands of a thread
  pub slots :
      s.empty_slots
        + has_token s.prod
        + owes_token s.prod
        + s.filled_slots
        + has_token s.cons
        + owes_token s.cons
      ≡ 5
  -- what was written is read, or filled, or in the hands of a thread
  pub items :
      accesses s.prod ≡ accesses s.cons + s.filled_slots + owes_token s.prod + has_token s.cons
  pub in_at : s.in_ ≡ accesses s.prod % 5
  pub out_at : s.out ≡ accesses s.cons % 5
  pub prod_mutex : inside s.prod ≡ producer_has s.mutex
  pub cons_mutex : inside s.cons ≡ consumer_has s.mutex
  pub prod_rounds : InRounds s.prod
  pub cons_rounds : InRounds s.cons
  -- what is written and not read is in its slot
  pub kept : (k : ℕ) → accesses s.cons ≤ k → k < accesses s.prod → s.buffer (k % 5) ≡ k
  pub read : s.consumed ≡ upto (accesses s.cons)

started-Inv : Inv started
unfolding started
started-Inv = record {
  slots = refl;
  items = refl;
  in_at = refl;
  out_at = refl;
  prod_mutex = refl;
  cons_mutex = refl;
  prod_rounds = omega arith;
  cons_rounds = omega arith;
  kept = λ k a b. absurd (omega arith);
  read = refl;
}

-- A thread that is about to write is not five items ahead.
room : (s : State) (i : ℕ) → s.prod ≡ holds i → Inv s → i < accesses s.cons + 5
room s i at v = ground arith

in_slot : (s : State) (i : ℕ) → s.prod ≡ holds i → Inv s → s.in_ ≡ i % 5
in_slot s i at v = ground arith

kept-write :
    (s : State) (i : ℕ)
    → s.prod ≡ holds i
    → Inv s
    → (k : ℕ) → accesses s.cons ≤ k
    → k < i + 1
    → update s.buffer s.in_ i (k % 5) ≡ k
kept-write s i at v k a b =
    let r = room s i at v in
    let q = in_slot s i at v in
    elim (Bool-cases (k == i)) [
      | inl e ↦ ground arith
      | inr e ↦
          let old : s.buffer (k % 5) ≡ k = v.kept k a (ground arith) in
          let apart : k % 5 ≢ s.in_ = λ z. ground arith in ground arith
    ]

producer-Inv : (s t : State) (p : Pc) → s.prod ≡ p → producer s p ≡ some t → Inv s → Inv t
unfolding producer
producer-Inv s t (waits i) at h v = ground arith
producer-Inv s t (locks i) at h v = elim (Bool-cases (is_free s.mutex)) [
  | inl e ↦ ground arith
  | inr e ↦ absurd (cc)
]
producer-Inv s t (holds i) at h v =
    let w = kept-write s i at v in
    subst Inv (some_inj.0 h) (record {
      slots = ground arith;
      items = ground arith;
      in_at = ground arith;
      out_at = v.out_at;
      prod_mutex = ground arith;
      cons_mutex = v.cons_mutex;
      prod_rounds = ground arith;
      cons_rounds = v.cons_rounds;
      kept = w;
      read = v.read;
    })
producer-Inv s t (unlocks i) at h v = ground arith
producer-Inv s t (posts i) at h v = elim (Bool-cases (ltb (i + 1) rounds)) [
  | inl e ↦ ground arith
  | inr e ↦ ground arith
]
producer-Inv s t returned at h v = absurd (cc)

out_slot : (s : State) (i : ℕ) → s.cons ≡ holds i → Inv s → s.out ≡ i % 5
out_slot s i at v = ground arith

-- A thread that is about to read has something to read.
ahead : (s : State) (i : ℕ) → s.cons ≡ holds i → Inv s → i < accesses s.prod
ahead s i at v = ground arith

-- What the consumer finds in its slot is the item of its round.
found : (s : State) (i : ℕ) → s.cons ≡ holds i → Inv s → s.buffer s.out ≡ i
found s i at v =
    let o = out_slot s i at v in
    let a = ahead s i at v in let old : s.buffer (i % 5) ≡ i = v.kept i (ground arith) a in cc

grow : {i a : ℕ} {xs : List ℕ} → a ≡ i → xs ≡ upto i → xs ++ (a ∷ []) ≡ upto (i + 1)
grow {i = i} f r = let e : i + 1 ≡ suc i = omega arith in rw (e, f, r)

consumer-Inv : (s t : State) (p : Pc) → s.cons ≡ p → consumer s p ≡ some t → Inv s → Inv t
unfolding consumer
consumer-Inv s t (waits i) at h v = ground arith
consumer-Inv s t (locks i) at h v = elim (Bool-cases (is_free s.mutex)) [
  | inl e ↦ ground arith
  | inr e ↦ absurd (cc)
]
consumer-Inv s t (holds i) at h v =
    let f = found s i at v in
    let r : s.consumed ≡ upto i = ground arith in
    subst Inv (some_inj.0 h) (record {
      slots = ground arith;
      items = ground arith;
      in_at = v.in_at;
      out_at = ground arith;
      prod_mutex = v.prod_mutex;
      cons_mutex = ground arith;
      prod_rounds = v.prod_rounds;
      cons_rounds = ground arith;
      kept = λ k a b. v.kept k (ground arith) b;
      read = grow f r;
    })
consumer-Inv s t (unlocks i) at h v = ground arith
consumer-Inv s t (posts i) at h v = elim (Bool-cases (ltb (i + 1) rounds)) [
  | inl e ↦ ground arith
  | inr e ↦ ground arith
]
consumer-Inv s t returned at h v = absurd (cc)

pub Step-Inv : {s t : State} → Step s t → Inv s → Inv t
Step-Inv (produces h) v = producer-Inv _ _ _ refl h v
Step-Inv (consumes h) v = consumer-Inv _ _ _ refl h v

pub Execution-Inv : {n : ℕ} {s : State} → Execution n s → Inv s
Execution-Inv begins = started-Inv
Execution-Inv (goes_on r h) = Step-Inv h (Execution-Inv r)
