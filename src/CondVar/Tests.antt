-- ===== src/CondVar/Tests.antt =====
-- A short run of 1.thread_cond.c.
use learn_c.Common.{◌≡◌, ◌⊎◌, refl, true, some, List, [], ◌∷◌, arith, replicate}
use learn_c.CondVar.{
  Consumer, locks, tests, waits, wakes, signals, leaves, State, consume, produce, started,
  by_consumer, by_producer, signal_one, Reach, begins, goes_on,
}
use learn_c.CondVar.Invariant.{IsSafe, Reach-IsSafe}
use learn_c.CondVar.Progress.{ConsumerMoves, Reach-moves}

abbrev others : List Consumer
others = replicate 8 locks

-- The first consumer waits, and the producer has made something and is about to signal.
abbrev made_one : State
made_one = record {
  share_variable = 1;
  locked = true;
  producer = signals;
  consumers = waits ∷ others;
  made = 1;
  taken = 0;
}

made_one-Reach : Reach made_one
unfolding started consume produce
made_one-Reach =
    goes_on
      (goes_on
        (goes_on (goes_on begins (by_consumer [] others locks tests _ refl refl))
          (by_consumer [] others tests waits _ refl refl))
        (by_producer _ refl))
      (by_producer _ refl)

woken : Reach (record made_one { producer = leaves; consumers = wakes ∷ others })
woken = goes_on made_one-Reach (signal_one [] others refl refl)

Reach-IsSafe_example : IsSafe made_one
Reach-IsSafe_example = Reach-IsSafe made_one-Reach

Reach-moves_example :
    ((t : State) × (produce made_one made_one.producer ≡ some t))
    ⊎ ((made_one.producer ≡ signals) ⊎ ConsumerMoves made_one)
Reach-moves_example = Reach-moves made_one-Reach (omega arith)
