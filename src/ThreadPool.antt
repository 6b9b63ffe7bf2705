-- ===== src/ThreadPool.antt =====
-- 1.Demo/1.syntax_interface/3.Thread/5.thread_pool/1.thread_pool.c: worker threads that take tasks
-- from a queue under a mutex and a condition variable. A task is a number that stands for the pair
-- of a function and its argument. One thread, the main one, calls the functions of the pool.
pub mod Invariant
pub mod Workers
pub mod Steps
pub mod Safety
pub mod Wakeup
mod Tests
use learn_c.Common.{
  ℕ, suc, ◌+◌, ◌-◌, ◌<◌, ◌≡◌, ◌≢◌, Bool, true, false, not, ◌&&◌, Option, none, some, List, [], ◌∷◌,
  ◌++◌, ◌==◌, if◌then◌else◌, update,
}

-- Where a thread stands in `thread_routine`.
pub data Pc : Type 0 where
  -- before `pthread_mutex_lock`
  start : Pc
  -- with the mutex, before the test of the inner `while`
  locked : Pc
  -- with the mutex, the test passed, before `pthread_cond_wait`
  to_wait : Pc
  -- blocked in `pthread_cond_wait`
  waiting : Pc
  -- woken there, and without the mutex yet
  woken : Pc
  -- with the mutex, behind the inner `while`
  passed : Pc
  running : ℕ → Pc
  exited : Pc
  -- an `assert` failed
  aborted : Pc

-- Where the main thread stands.
pub data MainPc : Type 0 where
  ready : MainPc
  -- in `pool_add_worker`, before `pthread_cond_signal`
  signalling : MainPc
  -- in `pool_destroy`, before `pthread_cond_broadcast`
  closing : MainPc
  -- in the loop of `pthread_join`
  joining : MainPc
  destroyed : MainPc

-- `CThread_pool`, the threads, and three records of the past: the tasks added, those that were
-- taken for execution, both in order, and those that `pool_destroy` frees.
pub record Pool : Type 0 where
  pub queue : List ℕ
  pub cur_queue_size : ℕ
  pub shutdown : Bool
  pub owner : Option ℕ
  pub pcs : ℕ → Pc
  pub main : MainPc
  pub added : List ℕ
  pub taken : List ℕ
  pub discarded : List ℕ

pub pool_init : Pool
pool_init = record {
  queue = [];
  cur_queue_size = 0;
  shutdown = false;
  owner = none;
  pcs = λ _. start;
  main = ready;
  added = [];
  taken = [];
  discarded = [];
}

abbrev pub is_free : Option ℕ → Bool
is_free none = true
is_free (some i) = false

abbrev goto : Pool → ℕ → Pc → Pool
goto s i pc = record s { pcs = update s.pcs i pc }

-- Takes the mutex if it is free; otherwise the thread is blocked.
acquire : ℕ → Pool → Option Pool
acquire i s =
    if is_free s.owner
    then some (record s { owner = some i; pcs = update s.pcs i locked })
    else none

-- The two assertions, and the removal of the first task.
take_head : ℕ → Pool → List ℕ → Pool
take_head i s [] = goto s i aborted
take_head i s (t ∷ rest) = if s.cur_queue_size == 0 then goto s i aborted else record s {
  queue = rest;
  cur_queue_size = s.cur_queue_size - 1;
  owner = none;
  pcs = update s.pcs i (running t);
  taken = s.taken ++ (t ∷ []);
}

-- The next step of thread `i`, which stands at the given place; `none` while it is blocked.
pub thread_routine : ℕ → Pool → Pc → Option Pool
unfolding acquire take_head
thread_routine i s start = acquire i s
thread_routine i s locked =
    some (goto s i (if (s.cur_queue_size == 0) && not s.shutdown then to_wait else passed))
thread_routine i s to_wait = some (record s { owner = none; pcs = update s.pcs i waiting })
thread_routine i s waiting = none
thread_routine i s woken = acquire i s
thread_routine i s passed = some (
    if s.shutdown
    then record s { owner = none; pcs = update s.pcs i exited }
    else take_head i s s.queue)
thread_routine i s (running t) = some (goto s i start)
thread_routine i s exited = none
thread_routine i s aborted = none

-- The walk to the last task of the queue, and the link behind it.
pub enqueue : List ℕ → ℕ → List ℕ
enqueue [] t = t ∷ []
enqueue (x ∷ xs) t = x ∷ enqueue xs t

-- `pool_add_worker` up to the unlock.
pub pool_add_worker : ℕ → Pool → Pool
unfolding enqueue
pool_add_worker t s = record s {
  queue = enqueue s.queue t;
  cur_queue_size = s.cur_queue_size + 1;
  main = signalling;
  added = s.added ++ (t ∷ []);
}

abbrev pub wake : Pc → Pc
wake waiting = woken
wake pc = pc

-- `pool_destroy` up to the broadcast: -1, which is `none`, if it was called before. The mutex is
-- not taken.
pub destroy_begin : Pool → Option Pool
destroy_begin s = if s.shutdown then none else some (record s { shutdown = true; main = closing })

-- The broadcast wakes every thread that waits.
pub destroy_broadcast : Pool → Pool
destroy_broadcast s = record s { pcs = λ i. wake (s.pcs i); main = joining }

-- With all threads joined, the tasks that are left are freed one by one, and then the pool.
pub free_queue : List ℕ → List ℕ → List ℕ
free_queue [] freed = freed
free_queue (t ∷ rest) freed = free_queue rest (freed ++ (t ∷ []))

pub destroy_end : Pool → Pool
unfolding free_queue
destroy_end s = record s { queue = []; discarded = free_queue s.queue []; main = destroyed }

-- The steps of a pool of `n` threads that need no help from the scheduler.
pub data Step (n : ℕ) (s : Pool) : Pool → Type 0 where
  thread : (i : ℕ) {t : Pool} → i < n → thread_routine i s (s.pcs i) ≡ some t → Step n s t
  add : (task : ℕ) → s.main ≡ ready → s.owner ≡ none → Step n s (pool_add_worker task s)
  -- the signal wakes one thread that waits, or is lost if there is none
  signal :
      (i : ℕ)
      → s.main ≡ signalling
      → s.pcs i ≡ waiting
      → Step n s (record s { pcs = update s.pcs i woken; main = ready })
  signal_lost :
      s.main ≡ signalling
      → ((i : ℕ) → i < n → s.pcs i ≢ waiting)
      → Step n s (record s { main = ready })
  destroy : {t : Pool} → s.main ≡ ready → destroy_begin s ≡ some t → Step n s t
  broadcast : s.main ≡ closing → Step n s (destroy_broadcast s)
  joined : s.main ≡ joining → ((i : ℕ) → i < n → s.pcs i ≡ exited) → Step n s (destroy_end s)

-- POSIX also lets `pthread_cond_wait` return when nobody woke it.
pub data Spurious (s : Pool) : Pool → Type 0 where
  spurious : (i : ℕ) → s.pcs i ≡ waiting → Spurious s (record s { pcs = update s.pcs i woken })

pub data Reach (n : ℕ) : Pool → Type 0 where
  initial : Reach n pool_init
  later : {s t : Pool} → Reach n s → Step n s t → Reach n t
  by_chance : {s t : Pool} → Reach n s → Spurious s t → Reach n t
