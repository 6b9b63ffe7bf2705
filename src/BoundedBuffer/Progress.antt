-- ===== src/BoundedBuffer/Progress.antt =====
-- The two threads of 4.semaphore/demo.c never wait for each other, and both return.
use learn_c.Common.{
  ℕ, ◌+◌, ◌≤◌, ◌≡◌, refl, none, some, arith, ltb, sym, ◌∙◌, Bool-cases, inl, inr, ◌⊎◌, Option-cases,
}
use learn_c.BoundedBuffer.{
  Pc, waits, locks, holds, unlocks, posts, returned, Owner, nobody, by_producer, by_consumer, State,
  producer, consumer, started, Step, produces, consumes, Execution, begins, goes_on, is_free,
  rounds,
}
use learn_c.BoundedBuffer.Counts.{inside, upto, producer_has, consumer_has, InRounds, steps}
use learn_c.BoundedBuffer.Invariant.{Inv, Execution-Inv}

producer-blocked :
    (s : State) (p : Pc)
    → s.mutex ≡ nobody
    → producer s p ≡ none
    → (p ≡ returned) ⊎ ((i : ℕ) × (p ≡ waits i) × (s.empty_slots ≡ 0))
unfolding producer
producer-blocked s (waits i) m h = inr (i, refl, ground arith)
producer-blocked s (locks i) m h = absurd (ground arith)
producer-blocked s (holds i) m h = absurd (cc)
producer-blocked s (unlocks i) m h = absurd (cc)
producer-blocked s (posts i) m h = absurd (cc)
producer-blocked s returned m h = inl refl

consumer-blocked :
    (s : State) (p : Pc)
    → s.mutex ≡ nobody
    → consumer s p ≡ none
    → (p ≡ returned) ⊎ ((i : ℕ) × (p ≡ waits i) × (s.filled_slots ≡ 0))
unfolding consumer
consumer-blocked s (waits i) m h = inr (i, refl, ground arith)
consumer-blocked s (locks i) m h = absurd (ground arith)
consumer-blocked s (holds i) m h = absurd (cc)
consumer-blocked s (unlocks i) m h = absurd (cc)
consumer-blocked s (posts i) m h = absurd (cc)
consumer-blocked s returned m h = inl refl

producer-outside : (s : State) (p : Pc) → producer s p ≡ none → inside p ≡ 0
unfolding producer
producer-outside s (waits i) h = refl
producer-outside s (locks i) h = refl
producer-outside s (holds i) h = absurd (cc)
producer-outside s (unlocks i) h = absurd (cc)
producer-outside s (posts i) h = absurd (cc)
producer-outside s returned h = refl

consumer-outside : (s : State) (p : Pc) → consumer s p ≡ none → inside p ≡ 0
unfolding consumer
consumer-outside s (waits i) h = refl
consumer-outside s (locks i) h = refl
consumer-outside s (holds i) h = absurd (cc)
consumer-outside s (unlocks i) h = absurd (cc)
consumer-outside s (posts i) h = absurd (cc)
consumer-outside s returned h = refl

no_owner : (m : Owner) → producer_has m ≡ 0 → consumer_has m ≡ 0 → m ≡ nobody
no_owner nobody a b = refl
no_owner by_producer a b = absurd (omega arith)
no_owner by_consumer a b = absurd (omega arith)

both_blocked :
    (s : State)
    → Inv s
    → producer s s.prod ≡ none
    → consumer s s.cons ≡ none
    → (s.prod ≡ returned) × (s.cons ≡ returned)
both_blocked s v h k =
    let a = producer-outside s s.prod h in
    let b = consumer-outside s s.cons k in
    let m = no_owner s.mutex (sym v.prod_mutex ∙ a) (sym v.cons_mutex ∙ b) in
    elim (producer-blocked s s.prod m h) [
      | inl p ↦ elim (consumer-blocked s s.cons m k) [
        | inl q ↦ (p, q)
        | inr (j, q, e) ↦ absurd (ground arith)
      ]
      | inr (i, p, d) ↦ elim (consumer-blocked s s.cons m k) [
        | inl q ↦ absurd (ground arith)
        | inr (j, q, e) ↦ absurd (ground arith)
      ]
    ]

able_or_done :
    (s : State) → Inv s → ((t : State) × Step s t) ⊎ ((s.prod ≡ returned) × (s.cons ≡ returned))
able_or_done s v = elim (Option-cases (producer s s.prod)) [
  | inr (t, h) ↦ inl (t, produces h)
  | inl h ↦ elim (Option-cases (consumer s s.cons)) [
    | inr (t, k) ↦ inl (t, consumes k)
    | inl k ↦ inr (both_blocked s v h k)
  ]
]

producer-steps :
    (s t : State) (p : Pc)
    → s.prod ≡ p
    → producer s p ≡ some t
    → InRounds p
    → steps t.prod + steps t.cons ≡ steps s.prod + steps s.cons + 1
unfolding producer
producer-steps s t (waits i) at h v = ground arith
producer-steps s t (locks i) at h v = elim (Bool-cases (is_free s.mutex)) [
  | inl e ↦ ground arith
  | inr e ↦ absurd (cc)
]
producer-steps s t (holds i) at h v = ground arith
producer-steps s t (unlocks i) at h v = ground arith
producer-steps s t (posts i) at h v = elim (Bool-cases (ltb (i + 1) rounds)) [
  | inl e ↦ ground arith
  | inr e ↦ ground arith
]
producer-steps s t returned at h v = absurd (cc)

consumer-steps :
    (s t : State) (p : Pc)
    → s.cons ≡ p
    → consumer s p ≡ some t
    → InRounds p
    → steps t.prod + steps t.cons ≡ steps s.prod + steps s.cons + 1
unfolding consumer
consumer-steps s t (waits i) at h v = ground arith
consumer-steps s t (locks i) at h v = elim (Bool-cases (is_free s.mutex)) [
  | inl e ↦ ground arith
  | inr e ↦ absurd (cc)
]
consumer-steps s t (holds i) at h v = ground arith
consumer-steps s t (unlocks i) at h v = ground arith
consumer-steps s t (posts i) at h v = elim (Bool-cases (ltb (i + 1) rounds)) [
  | inl e ↦ ground arith
  | inr e ↦ ground arith
]
consumer-steps s t returned at h v = absurd (cc)

Step-steps :
    {s t : State} → Step s t → Inv s → steps t.prod + steps t.cons ≡ steps s.prod + steps s.cons + 1
Step-steps (produces h) v = producer-steps _ _ _ refl h v.prod_rounds
Step-steps (consumes h) v = consumer-steps _ _ _ refl h v.cons_rounds

Execution-steps : {n : ℕ} {s : State} → Execution n s → n ≡ steps s.prod + steps s.cons
unfolding started
Execution-steps begins = refl
Execution-steps (goes_on r h) =
    let e = Step-steps h (Execution-Inv r) in let f = Execution-steps r in omega arith

steps-bound : (p : Pc) → InRounds p → steps p ≤ 50
steps-bound (waits i) h = omega arith
steps-bound (locks i) h = omega arith
steps-bound (holds i) h = omega arith
steps-bound (unlocks i) h = omega arith
steps-bound (posts i) h = omega arith
steps-bound returned h = omega arith

abbrev pub AllDone : ℕ → State → Type 0
AllDone n s =
    (n ≡ 100)
    × (s.prod ≡ returned)
    × (s.cons ≡ returned)
    × (s.consumed ≡ upto 10)
    × (s.empty_slots ≡ 5)
    × (s.filled_slots ≡ 0)
    × (s.mutex ≡ nobody)

-- A run has at most 100 steps. After it, either one of the threads can take a step, or the run has
-- had exactly 100 steps, both threads have returned, the numbers below 10 are consumed in order, the
-- semaphores are back at 5 and 0, and the mutex is free.
pub Execution-ends :
    {n : ℕ} {s : State} → Execution n s → (n ≤ 100) × (((t : State) × Step s t) ⊎ AllDone n s)
Execution-ends {s = s} r =
    let v = Execution-Inv r in
    let e = Execution-steps r in
    let a = steps-bound s.prod v.prod_rounds in
    let b = steps-bound s.cons v.cons_rounds in
    (
      omega arith,
      elim (able_or_done s v) [
        | inl w ↦ inl w
        | inr (p, q) ↦ inr (
          ground arith,
          p,
          q,
          ground arith,
          ground arith,
          ground arith,
          no_owner s.mutex (ground arith) (ground arith),
        )
      ],
    )
