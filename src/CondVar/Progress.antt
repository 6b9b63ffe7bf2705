-- ===== src/CondVar/Progress.antt =====
-- The threads of 1.thread_cond.c do not block each other.
use learn_c.Common.{
  ◌+◌, ◌-◌, ◌^◌, ◌≤◌, ◌<◌, ◌≡◌, ◌⊎◌, refl, inl, inr, true, false, some, List, [], ◌∷◌, ◌++◌, ◌==◌,
  lt→ltb, arith, Bool-cases, ap,
}
use learn_c.CondVar.{
  Consumer, locks, tests, waits, wakes, takes, unlocks, Producer, enters, adds, signals, leaves,
  State, consume, produce, Reach,
}
use learn_c.CondVar.Counts.{total, inside}
use learn_c.CondVar.Invariant.{IsSafe, Reach-IsSafe}

-- A consumer that is not blocked.
abbrev pub ConsumerMoves : State → Type 0
ConsumerMoves s =
    (xs : List Consumer) × (ys : List Consumer) × (c : Consumer) × (d : Consumer) × (t : State)
    × (s.consumers ≡ xs ++ c ∷ ys)
    × (consume s c ≡ some (d, t))

inside_le : (c : Consumer) → inside c ≤ 1
inside_le locks = omega arith
inside_le tests = omega arith
inside_le waits = omega arith
inside_le wakes = omega arith
inside_le takes = omega arith
inside_le unlocks = omega arith

find_inside :
    (cs : List Consumer)
    → 1 ≤ total inside cs
    → (xs : List Consumer) × (ys : List Consumer) × (c : Consumer) × (cs ≡ xs ++ c ∷ ys)
      × (inside c ≡ 1)
find_inside [] h = absurd (omega arith)
find_inside (c ∷ cs) h = elim (Bool-cases (inside c == 1)) [
  | inl e ↦ ([], cs, c, refl, ground arith)
  | inr e ↦
      let (xs, ys, d, p, i) = find_inside cs (let le = inside_le c in ground arith) in
      (c ∷ xs, ys, d, ap (λ (l : List Consumer). c ∷ l) p, i)
]

inside-consume :
    (s : State) (c : Consumer)
    → inside c ≡ 1
    → (d : Consumer) × (t : State) × (consume s c ≡ some (d, t))
unfolding consume
inside-consume s locks h = absurd (omega arith)
inside-consume s tests h = elim (Bool-cases (s.share_variable == 0)) [
  | inl e ↦ (waits, record s { locked = false }, rw e refl)
  | inr e ↦ (takes, s, rw e refl)
]
inside-consume s waits h = absurd (omega arith)
inside-consume s wakes h = absurd (omega arith)
inside-consume s takes h = (_, _, refl)
inside-consume s unlocks h = (_, _, refl)

producer_or_owner :
    (s : State) (p : Producer)
    → s.producer ≡ p
    → s.share_variable < 2 ^ 31 - 1
    → IsSafe s
    → ((t : State) × (produce s p ≡ some t)) ⊎ ((p ≡ signals) ⊎ ConsumerMoves s)
unfolding produce
producer_or_owner s enters at lt v = elim (Bool-cases s.locked) [
  | inl e ↦
      let (xs, ys, c, p, i) = find_inside s.consumers (ground arith) in
      let (d, t, h) = inside-consume s c i in inr (inr (xs, ys, c, d, t, p, h))
  | inr e ↦ inl (record s { locked = true; producer = adds }, rw e refl)
]
producer_or_owner s adds at lt v =
    let e = lt→ltb s.share_variable (2 ^ 31 - 1) lt in
    inl (
      record s { share_variable = s.share_variable + 1; made = s.made + 1; producer = signals },
      rw e refl,
    )
producer_or_owner s signals at lt v = inr (inl refl)
producer_or_owner s leaves at lt v = inl (_, refl)

-- In every state that the threads reach, as long as `share_variable` is below the largest `int`,
-- some thread can take a step, without a spurious wake-up: the producer, which may be about to
-- signal, or a consumer.
pub Reach-moves :
    {s : State}
    → Reach s
    → s.share_variable < 2 ^ 31 - 1
    → ((t : State) × (produce s s.producer ≡ some t)) ⊎ ((s.producer ≡ signals) ⊎ ConsumerMoves s)
Reach-moves {s = s} r lt = producer_or_owner s s.producer refl lt (Reach-IsSafe r)
