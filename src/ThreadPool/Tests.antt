-- ===== src/ThreadPool/Tests.antt =====
-- Runs of 1.thread_pool.c, and its theorems at states that they reach.
use learn_c.Common.{◌≡◌, refl, [], ◌∷◌, arith}
use learn_c.ThreadPool.{
  ready, Pool, pool_init, thread_routine, pool_add_worker, thread, add, signal_lost, Reach, initial,
  later,
}
use learn_c.ThreadPool.Safety.{IsSound, Reach-IsSound}
use learn_c.ThreadPool.Wakeup.{Steps, IsHung, lost_wakeup}

-- Task 7 is added before any thread waits, and thread 0 takes it.
taken_one : (s : Pool) × Reach 1 s × (s.main ≡ ready) × (s.taken ≡ 7 ∷ []) × (s.queue ≡ [])
unfolding pool_init thread_routine pool_add_worker
taken_one = (
  _,
  later
      (later
        (later (later (later initial (add 7 refl refl)) (signal_lost refl (λ i h e. cc)))
          (thread 0 (omega arith) refl))
        (thread 0 (omega arith) refl))
      (thread 0 (omega arith) refl),
  refl,
  refl,
  refl,
)

one_added-Reach : Reach 1 (pool_add_worker 7 pool_init)
unfolding pool_init
one_added-Reach = later initial (add 7 refl refl)

Reach-IsSound_example : IsSound (pool_add_worker 7 pool_init)
unfolding pool_add_worker
Reach-IsSound_example = Reach-IsSound one_added-Reach refl

lost_wakeup_example : (s : Pool) × Reach 3 s × IsHung s × ((t : Pool) → Steps 3 s t → IsHung t)
lost_wakeup_example = lost_wakeup 3 (omega arith)
