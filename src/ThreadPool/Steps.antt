-- ===== src/ThreadPool/Steps.antt =====
-- Every step of 1.thread_pool.c keeps the invariant.
use mathlib.Core.List.{append-nil}
use mathlib.Core.Option.{some_inj}
use learn_c.Common.{
  ℕ, ◌≡◌, refl, inl, inr, Bool, true, false, not, none, some, [], ◌∷◌, arith, if◌then◌else◌, update,
  length, length-append, append_assoc, ap, subst,
}
use learn_c.ThreadPool.{
  woken, MainPc, ready, closing, joining, Pool, pool_add_worker, destroy_begin, destroy_broadcast,
  destroy_end, Step, thread, add, signal, signal_lost, destroy, broadcast, joined, spurious, Reach,
  initial, later, by_chance,
}
use learn_c.ThreadPool.Invariant.{
  is_open, is_gone, Inv, enqueue-append, enqueue-ne-nil, free_queue-append, init-Inv,
}
use learn_c.ThreadPool.Workers.{goto-Inv, routine-Inv}

module _ (s : Pool) (v : Inv s) where
  open v use {counted, in_order, kept, phase, exclusive, has_task, no_abort}

  add-Inv : (t : ℕ) → s.main ≡ ready → s.owner ≡ none → Inv (pool_add_worker t s)
  unfolding pool_add_worker
  add-Inv t at free =
      let up : s.shutdown ≡ false = ground (arith, phase) in
      let none_freed : s.discarded ≡ [] = kept (ground arith) in
      record {
        counted =
            omega (
              arith,
              counted,
              ap length (enqueue-append s.queue t),
              length-append s.queue (t ∷ []),
            );
        in_order = simp (in_order, enqueue-append, none_freed, append-nil, append_assoc);
        kept = λ g. none_freed;
        phase = up;
        exclusive = exclusive;
        has_task = λ j h. inl (enqueue-ne-nil s.queue t);
        no_abort = no_abort;
      }

  begin-Inv : {t : Pool} → destroy_begin s ≡ some t → Inv t
  unfolding destroy_begin
  begin-Inv h = begun s.shutdown refl h
    where
      begun :
          {t : Pool} (b : Bool)
          → s.shutdown ≡ b
          → (if b then none else some (record s { shutdown = true; main = closing })) ≡ some t
          → Inv t
      begun true e h = absurd (cc)
      begun false e h = subst Inv (some_inj.0 h) (record {
        counted = counted;
        in_order = in_order;
        kept = λ g. kept (ground (arith, phase));
        phase = refl;
        exclusive = exclusive;
        has_task = λ j h. inr refl;
        no_abort = no_abort;
      })

  broadcast-Inv : s.main ≡ closing → Inv (destroy_broadcast s)
  unfolding destroy_broadcast
  broadcast-Inv at = record {
    counted = counted;
    in_order = in_order;
    kept = λ g. kept (ground arith);
    phase = ground (arith, phase);
    exclusive = λ j h. ground (arith, exclusive j);
    has_task = λ j h. ground (arith, has_task j);
    no_abort = λ j h. ground (arith, no_abort j);
  }

  end-Inv : s.main ≡ joining → Inv (destroy_end s)
  unfolding destroy_end
  end-Inv at =
      let none_freed : s.discarded ≡ [] = kept (ground arith) in
      record {
        counted =
            omega (arith, counted, ap length (free_queue-append s.queue []), ap length none_freed);
        in_order = simp (in_order, free_queue-append, none_freed, append-nil);
        kept = λ g. absurd (cc);
        phase = ground (arith, phase);
        exclusive = exclusive;
        has_task = λ j h. inr (ground (arith, phase));
        no_abort = no_abort;
      }

  main-Inv :
      (m : MainPc)
      → is_gone s.main ≡ false
      → s.shutdown ≡ not (is_open m)
      → Inv (record s { main = m })
  main-Inv m here e = record {
    counted = counted;
    in_order = in_order;
    kept = λ g. kept here;
    phase = e;
    exclusive = exclusive;
    has_task = has_task;
    no_abort = no_abort;
  }

-- Every step of the pool keeps the invariant, the steps of its threads and those of the main thread.
pub Step-Inv : {n : ℕ} {s t : Pool} → Step n s t → Inv s → Inv t
Step-Inv {s} (thread i lt h) v = routine-Inv s v i (s.pcs i) refl h
Step-Inv {s} (add task at free) v = add-Inv s v task at free
Step-Inv {s} (signal i at w) v =
    main-Inv (record s { pcs = update s.pcs i woken })
      (goto-Inv s v i woken (λ h. absurd (cc)) (λ h. absurd (cc)) (λ h. cc)) ready (ground arith)
      (ground (arith, v.phase))
Step-Inv {s} (signal_lost at all) v = main-Inv s v ready (ground arith) (ground (arith, v.phase))
Step-Inv {s} (destroy at h) v = begin-Inv s v h
Step-Inv {s} (broadcast at) v = broadcast-Inv s v at
Step-Inv {s} (joined at all) v = end-Inv s v at

pub Reach-Inv : {n : ℕ} {s : Pool} → Reach n s → Inv s
Reach-Inv initial = init-Inv
Reach-Inv (later r st) = Step-Inv st (Reach-Inv r)
Reach-Inv (by_chance {s} r (spurious i w)) =
    goto-Inv s (Reach-Inv r) i woken (λ h. absurd (cc)) (λ h. absurd (cc)) (λ h. cc)
