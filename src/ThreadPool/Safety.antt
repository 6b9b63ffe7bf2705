-- ===== src/ThreadPool/Safety.antt =====
-- What clients of 1.thread_pool.c may rely on.
use learn_c.Common.{ℕ, ◌≡◌, ◌≢◌, true, false, ◌++◌, arith, length, ap, append-nil, ◌∙◌}
use learn_c.ThreadPool.{aborted, Pool, Reach}
use learn_c.ThreadPool.Steps.{Reach-Inv}
use learn_c.ThreadPool.Invariant.{holds, is_gone}

-- What every reachable state of the pool satisfies, if the pool has not been freed in it.
pub record IsSound (s : Pool) : Type 0 where
  pub asserts : (i : ℕ) → s.pcs i ≢ aborted
  pub exclusive : (i j : ℕ) → holds (s.pcs i) ≡ true → holds (s.pcs j) ≡ true → i ≡ j
  pub counted : s.cur_queue_size ≡ length s.queue
  pub in_order : s.added ≡ s.taken ++ s.queue

-- In every state that any number of threads and the main thread reach, before the pool is freed: no
-- assertion has failed; one thread at most is between the lock and the unlock of the mutex;
-- `cur_queue_size` is the length of the queue; and the tasks taken by the threads, in the order in
-- which they were taken, followed by the queue, are the tasks added, in the order in which they were
-- added. So each task is taken once at most, and first come is first served.
pub Reach-IsSound : {n : ℕ} {s : Pool} → Reach n s → is_gone s.main ≡ false → IsSound s
Reach-IsSound {s} r here =
    let v = Reach-Inv r in
    record {
      asserts = v.no_abort;
      exclusive = λ i j h k. ground (arith, v.exclusive i, v.exclusive j);
      counted = ground (arith, v.counted, ap length (v.kept here));
      in_order =
          v.in_order
          ∙ ap (λ d. s.taken ++ (s.queue ++ d)) (v.kept here)
          ∙ ap (λ q. s.taken ++ q) (append-nil s.queue);
    }
