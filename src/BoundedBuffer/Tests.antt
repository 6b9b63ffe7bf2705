-- ===== src/BoundedBuffer/Tests.antt =====
-- Short runs of 4.semaphore/demo.c.
use learn_c.Common.{◌+◌, ◌-◌, ◌≤◌, ◌≡◌, ◌⊎◌, refl, ◌++◌}
use learn_c.BoundedBuffer.{
  State, producer, consumer, started, Step, produces, consumes, Execution, begins, goes_on,
}
use learn_c.BoundedBuffer.Counts.{accesses, upto}
use learn_c.BoundedBuffer.Safety.{contents, Execution-contents}
use learn_c.BoundedBuffer.Progress.{AllDone, Execution-ends}

-- The producer has made one round, and the consumer is about to read.
later : (s : State) × Execution 7 s
unfolding producer consumer started
later = (
  _,
  goes_on
      (goes_on
        (goes_on
          (goes_on
            (goes_on (goes_on (goes_on begins (produces refl)) (produces refl)) (produces refl))
            (produces refl))
          (produces refl))
        (consumes refl))
      (consumes refl),
)

Execution-contents_example :
    (later.0.consumed
        ++ contents later.0.buffer later.0.out (accesses later.0.prod - accesses later.0.cons)
      ≡ upto (accesses later.0.prod))
    × (accesses later.0.cons ≤ accesses later.0.prod)
    × (accesses later.0.prod ≤ accesses later.0.cons + 5)
Execution-contents_example = Execution-contents later.1

Execution-ends_example : (7 ≤ 100) × (((t : State) × Step later.0 t) ⊎ AllDone 7 later.0)
Execution-ends_example = Execution-ends later.1

written : accesses later.0.prod ≡ 1
unfolding producer consumer started later
written = refl
