-- ===== src/ThreadPool/Workers.antt =====
-- The steps of `thread_routine` in 1.thread_pool.c keep the invariant.

use mathlib.Core.Option.{some_inj}
use learn_c.Common.{
  ℕ, ◌-◌, ◌≡◌, ◌≢◌, ◌⊎◌, refl, Bool, true, false, not, ◌&&◌, Option, none, some, List, [], ◌∷◌,
  ◌++◌, arith, ◌==◌, if◌then◌else◌, update, length, append_assoc, ap, ◌∙◌, sym, subst,
}
use learn_c.ThreadPool.{
  Pc, start, locked, to_wait, waiting, woken, passed, running, exited, aborted, Pool,
  thread_routine, is_free, take_head,
}
use learn_c.ThreadPool.Invariant.{holds, Inv}

module _ (s : Pool) (v : Inv s) (i : ℕ) where
  open v use {counted, in_order, kept, phase, exclusive, has_task, no_abort}

  -- A thread goes on without touching the mutex.
  pub goto-Inv :
      (pc : Pc)
      → (holds pc ≡ true → s.owner ≡ some i)
      → (pc ≡ passed → (s.queue ≢ []) ⊎ (s.shutdown ≡ true))
      → pc ≢ aborted
      → Inv (record s { pcs = update s.pcs i pc })
  goto-Inv pc own task fine = record {
    counted = counted;
    in_order = in_order;
    kept = kept;
    phase = phase;
    exclusive = λ j h. ground (arith, exclusive j, own);
    has_task = λ j h. ground (arith, has_task j, task);
    no_abort = λ j h. ground (arith, no_abort j, fine);
  }

  acquire-Inv : s.owner ≡ none → Inv (record s { owner = some i; pcs = update s.pcs i locked })
  acquire-Inv free = record {
    counted = counted;
    in_order = in_order;
    kept = kept;
    phase = phase;
    exclusive = λ j h. ground (arith, exclusive j);
    has_task = λ j h. ground (arith, has_task j);
    no_abort = λ j h. ground (arith, no_abort j);
  }

  module _ (own : s.owner ≡ some i) where
    -- The holder gives the mutex up.
    release-Inv :
        (pc : Pc) → holds pc ≡ false → Inv (record s { owner = none; pcs = update s.pcs i pc })
    release-Inv pc out = record {
      counted = counted;
      in_order = in_order;
      kept = kept;
      phase = phase;
      exclusive = λ j h. ground (arith, exclusive j);
      has_task = λ j h. ground (arith, has_task j);
      no_abort = λ j h. ground (arith, no_abort j);
    }

    take-Inv :
        (t : ℕ) (rest : List ℕ)
        → s.queue ≡ t ∷ rest
        → Inv (record s {
          queue = rest;
          cur_queue_size = s.cur_queue_size - 1;
          owner = none;
          pcs = update s.pcs i (running t);
          taken = s.taken ++ (t ∷ []);
        })
    take-Inv t rest q = record {
      counted = omega (arith, counted, ap length q);
      in_order =
          in_order
          ∙ ap (λ xs. s.taken ++ (xs ++ s.discarded)) q
          ∙ sym (append_assoc s.taken (t ∷ []) (rest ++ s.discarded));
      kept = kept;
      phase = phase;
      exclusive = λ j h. ground (arith, exclusive j);
      has_task = λ j h. ground (arith, has_task j, exclusive j);
      no_abort = λ j h. ground (arith, no_abort j);
    }

  take_head-Inv :
      s.pcs i ≡ passed → s.shutdown ≡ false → (qs : List ℕ) → s.queue ≡ qs → Inv (take_head i s qs)
  unfolding take_head
  take_head-Inv at up [] q = absurd (ground (arith, has_task i))
  take_head-Inv at up (t ∷ rest) q =
      let some_left : (s.cur_queue_size == 0) ≡ false = ground (arith, ap length q) in
      rw some_left (take-Inv (exclusive i (ground arith)) t rest q)

  -- Behind the inner `while`: the thread leaves, or there is a task.
  passed-Inv :
      s.pcs i ≡ passed
      → (down : Bool) → s.shutdown ≡ down
      → Inv (
          if down
          then record s { owner = none; pcs = update s.pcs i exited }
          else take_head i s s.queue)
  passed-Inv at true e = release-Inv (exclusive i (ground arith)) exited refl
  passed-Inv at false e = take_head-Inv at e s.queue refl

  acquired-Inv :
      {t : Pool} (o : Option ℕ)
      → s.owner ≡ o
      → (if is_free o
          then some (record s { owner = some i; pcs = update s.pcs i locked })
          else none)
        ≡ some t
      → Inv t
  acquired-Inv none free h = subst Inv (some_inj.0 h) (acquire-Inv free)
  acquired-Inv (some j) busy h = absurd (cc)

  -- The test of the inner `while` lets a thread pass only to a task or to its exit.
  locked-Inv :
      s.pcs i ≡ locked
      → Inv (record s {
        pcs =
            update s.pcs i (if (s.cur_queue_size == 0) && not s.shutdown then to_wait else passed);
      })
  locked-Inv at =
      goto-Inv _ (λ h. exclusive i (ground arith)) (λ h. ground (arith, kept, counted, phase))
        (ground arith)

  -- Every step of a thread keeps the invariant.
  pub routine-Inv : {t : Pool} (p : Pc) → s.pcs i ≡ p → thread_routine i s p ≡ some t → Inv t
  unfolding thread_routine
  routine-Inv start at h = acquired-Inv s.owner refl h
  routine-Inv locked at h = subst Inv (some_inj.0 h) (locked-Inv at)
  routine-Inv to_wait at h =
      subst Inv (some_inj.0 h) (release-Inv (exclusive i (ground arith)) waiting refl)
  routine-Inv waiting at h = absurd (cc)
  routine-Inv woken at h = acquired-Inv s.owner refl h
  routine-Inv passed at h = subst Inv (some_inj.0 h) (passed-Inv at s.shutdown refl)
  routine-Inv (running t) at h =
      subst Inv (some_inj.0 h) (goto-Inv start (λ o. cc) (λ o. absurd (cc)) (λ o. cc))
  routine-Inv exited at h = absurd (cc)
  routine-Inv aborted at h = absurd (cc)
