-- ===== src/ThreadPool/Invariant.antt =====
-- What holds of 1.thread_pool.c in every state that it can reach, whatever the scheduler does.
use mathlib.Core.List.{append-nil}
use learn_c.Common.{
  ℕ, ◌+◌, ◌≡◌, ◌≢◌, ◌⊎◌, refl, Bool, true, false, not, some, List, [], ◌∷◌, ◌++◌, length,
  append_assoc, ap, ◌∙◌, sym,
}
use learn_c.ThreadPool.{
  Pc, locked, to_wait, passed, aborted, MainPc, ready, signalling, destroyed, Pool, pool_init,
  enqueue, free_queue,
}

-- The thread is between `pthread_mutex_lock` and the unlock.
abbrev pub holds : Pc → Bool
holds locked = true
holds to_wait = true
holds passed = true
holds aborted = true
holds _ = false

-- `pool_destroy` has not been called.
abbrev pub is_open : MainPc → Bool
is_open ready = true
is_open signalling = true
is_open _ = false

-- The pool has been freed.
abbrev pub is_gone : MainPc → Bool
is_gone destroyed = true
is_gone _ = false

pub record Inv (s : Pool) : Type 0 where
  pub counted : s.cur_queue_size ≡ length s.queue + length s.discarded
  pub in_order : s.added ≡ s.taken ++ (s.queue ++ s.discarded)
  pub kept : is_gone s.main ≡ false → s.discarded ≡ []
  pub phase : s.shutdown ≡ not (is_open s.main)
  pub exclusive : (i : ℕ) → holds (s.pcs i) ≡ true → s.owner ≡ some i
  pub has_task : (i : ℕ) → s.pcs i ≡ passed → (s.queue ≢ []) ⊎ (s.shutdown ≡ true)
  pub no_abort : (i : ℕ) → s.pcs i ≢ aborted

pub enqueue-append : (xs : List ℕ) (t : ℕ) → enqueue xs t ≡ xs ++ (t ∷ [])
unfolding enqueue
enqueue-append [] t = refl
enqueue-append (x ∷ xs) t = ap (◌∷◌ x) (enqueue-append xs t)

pub enqueue-ne-nil : (xs : List ℕ) (t : ℕ) → enqueue xs t ≢ []
unfolding enqueue
enqueue-ne-nil [] t e = cc
enqueue-ne-nil (x ∷ xs) t e = cc

pub free_queue-append : (xs ys : List ℕ) → free_queue xs ys ≡ ys ++ xs
unfolding free_queue
free_queue-append [] ys = sym (append-nil ys)
free_queue-append (x ∷ xs) ys = free_queue-append xs (ys ++ (x ∷ [])) ∙ append_assoc ys (x ∷ []) xs

pub init-Inv : Inv pool_init
unfolding pool_init
init-Inv = record {
  counted = refl;
  in_order = refl;
  kept = λ h. refl;
  phase = refl;
  exclusive = λ i h. cc;
  has_task = λ i h. absurd (cc);
  no_abort = λ i h. cc;
}
